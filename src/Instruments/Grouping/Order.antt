-- ===== src/Instruments/Grouping/Order.antt =====
-- A group holds one frame of each sub-exposure, in their order.
use most_sprite.Prelude.{
  ℕ, zero, suc, ◌<◌, Bool, true, false, not, ◌&&◌, ◌||◌, ◌==◌, ◌≡◌, refl, ap, ◌∙◌, arith, inl, inr,
  Option, none, some, Bool-cases, ltb, List, [], ◌∷◌, map, length, length-map, All,
}
use most_sprite.Prelude.Sorting.{insert_by, sort_by}
use most_sprite.Domain.Errors.{ok}
use most_sprite.Instruments.{RawDescriptor, ScienceGroup}
use most_sprite.Instruments.Grouping.{
  Key, is_full, all_indices, is_index, index_before, or_zero, group_of,
}

abbrev pub indices_of : List RawDescriptor → List (Option ℕ)
indices_of items = map (λ item. item.sub_index) items

-- The sort of the frames is a sort of their indices.
before : Option ℕ → Option ℕ → Bool
before a b = ltb (or_zero a) (or_zero b)

map-insert_by :
    (item : RawDescriptor) (items : List RawDescriptor)
    → indices_of (insert_by index_before item items)
      ≡ insert_by before item.sub_index (indices_of items)
unfolding insert_by index_before before
map-insert_by item [] = refl
map-insert_by item (other ∷ items) =
    elim (Bool-cases (ltb (or_zero other.sub_index) (or_zero item.sub_index))) [
      | inl e ↦ rw e (ap (λ l. other.sub_index ∷ l) (map-insert_by item items))
      | inr e ↦ rw e
    ]

map-sort_by :
    (items : List RawDescriptor)
    → indices_of (sort_by index_before items) ≡ sort_by before (indices_of items)
unfolding sort_by
map-sort_by [] = refl
map-sort_by (item ∷ items) =
    map-insert_by item (sort_by index_before items)
    ∙ ap (insert_by before item.sub_index) (map-sort_by items)

all_below : ℕ → (ℕ → Bool) → Bool
all_below zero test = true
all_below (suc n) test = test n && all_below n test

all_below_sound :
    (n : ℕ) (test : ℕ → Bool) (x : ℕ) → all_below n test ≡ true → x < n → test x ≡ true
unfolding all_below
all_below_sound zero test x h lt = absurd (omega arith)
all_below_sound (suc n) test x h lt = ground (arith, all_below_sound n test x)

is_ordered : List (Option ℕ) → Bool
is_ordered (some a ∷ some b ∷ some c ∷ some d ∷ []) = (a == 1) && (b == 2) && (c == 3) && (d == 4)
is_ordered _ = false

sorts : ℕ → ℕ → ℕ → ℕ → Bool
unfolding is_ordered before
sorts a b c d =
    let indices = some a ∷ some b ∷ some c ∷ some d ∷ [] in
    not (is_full indices) || is_ordered (sort_by before indices)

sorts_all :
    all_below 5 (λ a. all_below 5 (λ b. all_below 5 (λ c. all_below 5 (sorts a b c)))) ≡ true
unfolding all_below sorts is_full sort_by insert_by or_zero
sorts_all = refl

sorts_below : (a b c d : ℕ) → a < 5 → b < 5 → c < 5 → d < 5 → sorts a b c d ≡ true
sorts_below a b c d ha hb hc hd =
    let by_a = all_below_sound 5 _ a sorts_all ha in
    let by_b = all_below_sound 5 _ b by_a hb in
    let by_c = all_below_sound 5 _ c by_b hc in all_below_sound 5 _ d by_c hd

abbrev pub one_to_four : List (Option ℕ)
one_to_four = some 1 ∷ some 2 ∷ some 3 ∷ some 4 ∷ []

is_ordered→≡ : (indices : List (Option ℕ)) → is_ordered indices ≡ true → indices ≡ one_to_four
unfolding is_ordered
is_ordered→≡ (some a ∷ some b ∷ some c ∷ some d ∷ []) h = ground arith
is_ordered→≡ _ h = ground arith

abbrev IsBounded : Option ℕ → Type 0
IsBounded none = ⊥
IsBounded (some n) = n < 5

all_indices-All : (indices : List (Option ℕ)) → all_indices indices ≡ true → All IsBounded indices
unfolding all_indices is_index
all_indices-All [] h = tt
all_indices-All (none ∷ indices) h = absurd (cc)
all_indices-All (some n ∷ indices) h = (ground arith, all_indices-All indices (ground arith))

is_full-All : (indices : List (Option ℕ)) → is_full indices ≡ true → All IsBounded indices
unfolding is_full
is_full-All indices h = all_indices-All indices (ground arith)

-- Four indices that are 1 to 4 in some order are sorted to 1, 2, 3, 4.
is_full-sort_by :
    (indices : List (Option ℕ))
    → (length indices == 4) ≡ true
    → is_full indices ≡ true
    → All IsBounded indices
    → sort_by before indices ≡ one_to_four
is_full-sort_by (some a ∷ some b ∷ some c ∷ some d ∷ []) four full h =
    let sorted = sorts_below a b c d h.0 h.1.0 h.1.1.0 h.1.1.1.0 in
    is_ordered→≡ _ (unfold sorts in ground arith)
is_full-sort_by (none ∷ rest) four full h = absurd h.0
is_full-sort_by (some a ∷ none ∷ rest) four full h = absurd h.1.0
is_full-sort_by (some a ∷ some b ∷ none ∷ rest) four full h = absurd h.1.1.0
is_full-sort_by (some a ∷ some b ∷ some c ∷ none ∷ rest) four full h = absurd h.1.1.1.0
is_full-sort_by (some a ∷ some b ∷ some c ∷ some d ∷ e ∷ rest) four full h = absurd (ground arith)
is_full-sort_by [] four full h = absurd (ground arith)
is_full-sort_by (some a ∷ []) four full h = absurd (ground arith)
is_full-sort_by (some a ∷ some b ∷ []) four full h = absurd (ground arith)
is_full-sort_by (some a ∷ some b ∷ some c ∷ []) four full h = absurd (ground arith)

pub group_of-sorted :
    (key : Key) (items : List RawDescriptor) (group : ScienceGroup)
    → group_of (key, items) ≡ ok group
    → (indices_of (sort_by index_before items) ≡ one_to_four)
      × (group.stokes ≡ key.prefix.stokes)
      × (group.target_name ≡ key.prefix.target)
      × (group.observing_night ≡ key.prefix.night)
unfolding group_of
group_of-sorted key items group h =
    let full : is_full (indices_of items) ≡ true = ground arith in
    let four : (length items == 4) ≡ true = ground arith in
    (
      map-sort_by items
          ∙ is_full-sort_by (indices_of items)
              (rw (length-map (λ (item : RawDescriptor). item.sub_index) items) four) full
              (is_full-All (indices_of items) full),
      ground arith,
      ground arith,
      ground arith,
    )
