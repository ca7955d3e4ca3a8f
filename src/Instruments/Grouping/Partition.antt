-- ===== src/Instruments/Grouping/Partition.antt =====
-- The groups take up the science frames, each once.
use Prim.Native.String.{String}
use mathlib.Core.List.{Perm, map-append, append_assoc, append-nil, perm_append_comm, perm_middle}
use mathlib.Core.List.Perm as Permutes
use most_sprite.Prelude.{
  ℕ, ◌≡◌, refl, subst, arith, inl, inr, Option, none, some, Bool-cases, Option-cases, List, [], ◌∷◌,
  ◌++◌, map,
}
use most_sprite.Prelude.Sorting.{insert_by, sort_by, sort_by-perm}
use most_sprite.Domain.{DataMode}
use most_sprite.Domain.Errors.{ok, Result-cases, ok_injective}
use most_sprite.Instruments.{Stokes, RawDescriptor, ScienceGroup}
use most_sprite.Instruments.Grouping.{
  Key, Buckets, Counters, same_key, put, count_first, number_in, labels, labels_of, Prefix, fill,
  group_of, groups_of, index_before, group_science, science_of, observed_before, bucket_before,
}

-- The frames in the buckets.
frames : Buckets → List RawDescriptor
frames [] = []
frames ((key, items) ∷ buckets) = items ++ frames buckets

abbrev path_of : RawDescriptor → String
path_of item = item.relative_path

abbrev pub paths : List RawDescriptor → List String
paths items = map path_of items

abbrev pub artifacts : List ScienceGroup → List String
artifacts [] = []
artifacts (group ∷ groups) = group.artifacts ++ artifacts groups

module _ {ℓ} {A : Type ℓ} where
  append-perm_swap : (xs ys zs : List A) → Perm (xs ++ (ys ++ zs)) (ys ++ (xs ++ zs))
  append-perm_swap xs ys zs =
      rw (← append_assoc xs ys zs, ← append_assoc ys xs zs)
        (Permutes.append_right zs (perm_append_comm xs ys))

frames-put :
    (key : Key) (item : RawDescriptor) (buckets : Buckets)
    → Perm (frames (put key item buckets)) (item ∷ frames buckets)
unfolding frames put
frames-put key item [] = Permutes.refl _
frames-put key item ((other, items) ∷ buckets) = elim (Bool-cases (same_key other key)) [
  | inl same ↦
      rw (same, append_assoc items (item ∷ []) (frames buckets))
        (perm_middle items (frames buckets))
  | inr apart ↦ rw apart (
      Permutes.trans (Permutes.append_left items (frames-put key item buckets))
        (perm_middle items (frames buckets)))
]

-- The same, for the list that a sort puts together.
frames-insert_by :
    (bucket : Key × List RawDescriptor) (buckets : Buckets)
    → Perm (frames (insert_by bucket_before bucket buckets)) (bucket.1 ++ frames buckets)
unfolding frames insert_by
frames-insert_by (key, items) [] = Permutes.refl _
frames-insert_by (key, items) ((other, others) ∷ buckets) =
    elim (Bool-cases (bucket_before (other, others) (key, items))) [
      | inl later ↦ rw later (
          Permutes.trans (Permutes.append_left others (frames-insert_by (key, items) buckets))
            (append-perm_swap others items (frames buckets)))
      | inr first ↦ rw first (Permutes.refl _)
    ]

frames-sort_by :
    (buckets : Buckets) → Perm (frames (sort_by bucket_before buckets)) (frames buckets)
unfolding frames sort_by
frames-sort_by [] = Permutes.refl _
frames-sort_by ((key, items) ∷ buckets) =
    Permutes.trans (frames-insert_by (key, items) (sort_by bucket_before buckets))
      (Permutes.append_left items (frames-sort_by buckets))

-- The labels of a frame are those of a key.
abbrev pub HasLabels : Key → RawDescriptor → Type 0
HasLabels key item =
    (item.observing_night ≡ key.prefix.night)
    × (item.target_name ≡ key.prefix.target)
    × (item.stokes ≡ some key.prefix.stokes)

labels_of-HasLabels :
    (item : RawDescriptor) (found : Prefix × ℕ) (number : ℕ)
    → labels_of item ≡ some found
    → HasLabels (record { prefix = found.0; number = number }) item
unfolding labels_of
labels_of-HasLabels item found number h = by_labels item.stokes item.sub_index item.mode refl h
  where
    by_labels :
        (s : Option Stokes) (i : Option ℕ) (m : Option DataMode)
        → item.stokes ≡ s
        → labels item s i m ≡ some found
        → HasLabels (record { prefix = found.0; number = number }) item
    by_labels (some s) (some i) (some m) e same = ground arith
    by_labels none i m e same = absurd (ground arith)
    by_labels (some s) none m e same = absurd (ground arith)
    by_labels (some s) (some i) none e same = absurd (ground arith)

-- A frame that is taken up goes into a bucket with its labels.
pub fill_step :
    (item : RawDescriptor) (items : List RawDescriptor) (counters : Counters)
    (buckets filled : Buckets)
    → fill (item ∷ items) counters buckets ≡ ok filled
    → (counted : Counters) × (key : Key) × (fill items counted (put key item buckets) ≡ ok filled)
      × HasLabels key item
unfolding fill
fill_step item items counters buckets filled h = elim (Option-cases (labels_of item)) [
  | inl missing ↦ absurd (ground arith)
  | inr (found, has) ↦
      let counted = count_first found.0 found.1 item.sequence_number counters in
      let number = number_in found.0 item.sequence_number counted in
      (
        counted,
        record { prefix = found.0; number = number },
        ground arith,
        labels_of-HasLabels item found number has,
      )
]

frames-fill :
    (items : List RawDescriptor) (counters : Counters) (buckets filled : Buckets)
    → fill items counters buckets ≡ ok filled
    → Perm (frames filled) (items ++ frames buckets)
unfolding fill
frames-fill [] counters buckets filled h =
    subst (λ b. Perm (frames b) (frames buckets)) (ok_injective h) (Permutes.refl _)
frames-fill (item ∷ items) counters buckets filled h =
    let (counted, key, rest, _) = fill_step item items counters buckets filled h in
    Permutes.trans (frames-fill items counted (put key item buckets) filled rest) (
      Permutes.trans (Permutes.append_left items (frames-put key item buckets))
        (perm_middle items (frames buckets)))

pub group_of-artifacts :
    (key : Key) (items : List RawDescriptor) (group : ScienceGroup)
    → group_of (key, items) ≡ ok group
    → group.artifacts ≡ paths (sort_by index_before items)
unfolding group_of
group_of-artifacts key items group h = ground arith

pub groups_of_step :
    (bucket : Key × List RawDescriptor) (buckets : Buckets) (groups : List ScienceGroup)
    → groups_of (bucket ∷ buckets) ≡ ok groups
    → (group : ScienceGroup) × (rest : List ScienceGroup) × (group_of bucket ≡ ok group)
      × (groups_of buckets ≡ ok rest)
      × (group ∷ rest ≡ groups)
unfolding groups_of
groups_of_step bucket buckets groups h = elim (Result-cases (group_of bucket)) [
  | inl (_, raised) ↦ absurd (ground arith)
  | inr (group, made) ↦ elim (Result-cases (groups_of buckets)) [
    | inl (_, raised) ↦ absurd (ground arith)
    | inr (rest, made_rest) ↦ (group, rest, made, made_rest, ground arith)
  ]
]

groups_of-perm :
    (buckets : Buckets) (groups : List ScienceGroup)
    → groups_of buckets ≡ ok groups
    → Perm (artifacts groups) (paths (frames buckets))
unfolding groups_of frames
groups_of-perm [] groups h = subst (λ g. Perm (artifacts g) []) (ok_injective h) (Permutes.refl _)
groups_of-perm ((key, items) ∷ buckets) groups h =
    let (group, rest, made, made_rest, same) = groups_of_step (key, items) buckets groups h in
    let own = group_of-artifacts key items group made in
    subst (λ g. Perm (artifacts g) (paths (items ++ frames buckets))) same
      (rw (own, map-append)
        (Permutes.append (Permutes.map path_of (sort_by-perm index_before items))
          (groups_of-perm buckets rest made_rest)))

-- Every science frame goes into the groups, once for each time that it is among the files, and
-- nothing else does.
pub group_science-perm :
    (descriptors : List RawDescriptor) (groups : List ScienceGroup)
    → group_science descriptors ≡ ok groups
    → Perm (artifacts groups) (paths (science_of descriptors))
unfolding group_science frames
group_science-perm descriptors groups h =
    elim (Result-cases (fill (sort_by observed_before (science_of descriptors)) [] [])) [
      | inl (_, raised) ↦ absurd (ground arith)
      | inr (filled, made) ↦
          let grouped : groups_of (sort_by bucket_before filled) ≡ ok groups = ground arith in
          let placed =
            frames-fill (sort_by observed_before (science_of descriptors)) [] [] filled made in
          Permutes.trans (groups_of-perm (sort_by bucket_before filled) groups grouped) (
            Permutes.map path_of (
              Permutes.trans (frames-sort_by filled)
                (Permutes.trans placed rw append-nil (sort_by-perm observed_before _))))
    ]
