-- ===== src/Instruments/Grouping/Groups.antt =====
-- What a group of the imports is made of.
use text.Mathlib.TextEquality.{eq_iff}
use most_sprite.Prelude.{
  true, ◌≡◌, refl, sym, ap, subst, ◌∙◌, arith, inl, inr, some, Bool-cases, List, [], ◌∷◌, All,
  All-append, All-map,
}
use most_sprite.Prelude.Sorting.{sort_by, All-sort_by}
use most_sprite.Domain.Errors.{ok, Result-cases, ok_injective}
use most_sprite.Instruments.{Role, Stokes, RawDescriptor, ScienceGroup}
use most_sprite.Instruments.Grouping.{
  Key, Counters, Buckets, same_key, same_prefix, same_stokes, is_science, science_of, put, fill,
  group_of, groups_of, group_science, observed_before, bucket_before, index_before,
}
use most_sprite.Instruments.Grouping.Partition.{
  paths, HasLabels, fill_step, groups_of_step, group_of-artifacts,
}
use most_sprite.Instruments.Grouping.Order.{indices_of, one_to_four, group_of-sorted}

same_stokes→≡ : (a b : Stokes) → same_stokes a b ≡ true → a ≡ b
unfolding same_stokes
same_stokes→≡ Stokes.q Stokes.q h = refl
same_stokes→≡ Stokes.u Stokes.u h = refl
same_stokes→≡ Stokes.v Stokes.v h = refl
same_stokes→≡ Stokes.q Stokes.u h = cc
same_stokes→≡ Stokes.q Stokes.v h = cc
same_stokes→≡ Stokes.u Stokes.q h = cc
same_stokes→≡ Stokes.u Stokes.v h = cc
same_stokes→≡ Stokes.v Stokes.q h = cc
same_stokes→≡ Stokes.v Stokes.u h = cc

same_key→≡ : (a b : Key) → same_key a b ≡ true → a ≡ b
unfolding same_key same_prefix
same_key→≡ a b h = ground (
  arith,
  eq_iff a.prefix.night b.prefix.night,
  eq_iff a.prefix.target b.prefix.target,
  same_stokes→≡ a.prefix.stokes b.prefix.stokes,
)

is_science→≡ : (role : Role) → is_science role ≡ true → role ≡ Role.science
unfolding is_science
is_science→≡ Role.science h = refl
is_science→≡ _ h = ground arith

module _ (IsGiven : RawDescriptor → Type 0) where
  -- A frame of a bucket is a science frame with the labels of its key, and one of the frames that the
  -- grouping was given.
  abbrev Belongs : Key → RawDescriptor → Type 0
  Belongs key item = (item.role ≡ Role.science) × HasLabels key item × IsGiven item

  abbrev IsFiled : Key × List RawDescriptor → Type 0
  IsFiled (key, items) = All (Belongs key) items

  abbrev IsGivenScience : RawDescriptor → Type 0
  IsGivenScience item = (item.role ≡ Role.science) × IsGiven item

  put-All :
      (key : Key) (item : RawDescriptor) (buckets : Buckets)
      → Belongs key item
      → All IsFiled buckets
      → All IsFiled (put key item buckets)
  unfolding put
  put-All key item [] new h = ((new, tt), tt)
  put-All key item ((other, items) ∷ buckets) new h = elim (Bool-cases (same_key other key)) [
    | inl same ↦
        let owner : Belongs other item =
          subst (λ k. Belongs k item) (sym (same_key→≡ other key same)) new in
        rw same (All-append (Belongs other) items (item ∷ []) h.0 (owner, tt), h.1)
    | inr apart ↦ rw apart (h.0, put-All key item buckets new h.1)
  ]

  fill-All :
      (items : List RawDescriptor) (counters : Counters) (buckets filled : Buckets)
      → All IsGivenScience items
      → All IsFiled buckets
      → fill items counters buckets ≡ ok filled
      → All IsFiled filled
  unfolding fill
  fill-All [] counters buckets filled science h made = subst (All IsFiled) (ok_injective made) h
  fill-All (item ∷ items) counters buckets filled science h made =
      let (counted, key, rest, labelled) = fill_step item items counters buckets filled made in
      fill-All items counted (put key item buckets) filled science.1
        (put-All key item buckets (science.0.0, labelled, science.0.1) h) rest

  science_of-All :
      (items : List RawDescriptor) → All IsGiven items → All IsGivenScience (science_of items)
  unfolding science_of
  science_of-All [] h = tt
  science_of-All (item ∷ items) h = elim (Bool-cases (is_science item.role)) [
    | inl e ↦ rw e ((is_science→≡ item.role e, h.0), science_of-All items h.1)
    | inr e ↦ rw e (science_of-All items h.1)
  ]

  -- A group: four of the frames that were given, which are of sub-exposures 1, 2, 3 and 4 in this
  -- order, all of them science frames of the night, the target and the Stokes parameter of the group.
  pub record IsGroup (group : ScienceGroup) : Type 0 where
    pub ordered : List RawDescriptor
    pub listed : group.artifacts ≡ paths ordered
    pub sub_exposures : indices_of ordered ≡ one_to_four
    pub members :
        All
          (λ item.
            (item.role ≡ Role.science)
            × (item.observing_night ≡ group.observing_night)
            × (item.target_name ≡ group.target_name)
            × (item.stokes ≡ some group.stokes)
            × IsGiven item)
          ordered

  group_of-IsGroup :
      (key : Key) (items : List RawDescriptor) (group : ScienceGroup)
      → All (Belongs key) items
      → group_of (key, items) ≡ ok group
      → IsGroup group
  group_of-IsGroup key items group h made =
      let (sorted, stokes, target, night) = group_of-sorted key items group made in
      record {
        ordered = sort_by index_before items;
        listed = group_of-artifacts key items group made;
        sub_exposures = sorted;
        members =
            All-map (Belongs key) _
              (λ item b.
                (b.0, b.1.0 ∙ sym night, b.1.1 ∙ sym target, b.1.2 ∙ ap some (sym stokes), b.2))
              (sort_by index_before items) (All-sort_by index_before (Belongs key) items h);
      }

  groups_of-All :
      (buckets : Buckets) (groups : List ScienceGroup)
      → All IsFiled buckets
      → groups_of buckets ≡ ok groups
      → All IsGroup groups
  unfolding groups_of
  groups_of-All [] groups h made = subst (All IsGroup) (ok_injective made) tt
  groups_of-All ((key, items) ∷ buckets) groups h made =
      let (group, rest, one, others, same) = groups_of_step (key, items) buckets groups made in
      subst (All IsGroup) same
        (group_of-IsGroup key items group h.0 one, groups_of-All buckets rest h.1 others)

  -- Every group that is made holds exactly four of the frames, of sub-exposures 1, 2, 3 and 4 in this order,
  -- which are all science frames of one night, one target and one Stokes parameter, those of the group.
  pub group_science-All :
      (descriptors : List RawDescriptor) (groups : List ScienceGroup)
      → All IsGiven descriptors
      → group_science descriptors ≡ ok groups
      → All IsGroup groups
  unfolding group_science
  group_science-All descriptors groups given h =
      elim (Result-cases (fill (sort_by observed_before (science_of descriptors)) [] [])) [
        | inl (_, raised) ↦ absurd (ground arith)
        | inr (filled, made) ↦
            let grouped : groups_of (sort_by bucket_before filled) ≡ ok groups = ground arith in
            let science =
              All-sort_by observed_before _ (science_of descriptors)
                (science_of-All descriptors given) in
            groups_of-All (sort_by bucket_before filled) groups
              (All-sort_by bucket_before IsFiled filled (fill-All _ [] [] filled science tt made))
              grouped
      ]
