-- ===== src/Instruments/Grouping.antt =====
-- `group_science` of `ESPaDOnSAdapter` in backend/src/most_sprite/pipeline/instruments/espadons.py.
-- Exposure times are whole milliseconds, and their mean is rounded down.
pub mod Partition
pub mod Order
pub mod Groups
use Prim.Native.Nat.{Ordering}
use Prim.Native.String.{String, compare}
use text.Mathlib.Text.{◌==◌ as str_eq}
use most_sprite.Prelude.{
  ℕ, zero, suc, ◌+◌, ◌/◌, Bool, true, false, not, ◌&&◌, ◌||◌, ◌==◌, ltb, if◌then◌else◌, Option,
  none, some, List, [], ◌∷◌, ◌++◌, map, length,
}
use most_sprite.Prelude.Sorting.{sort_by}
use most_sprite.Domain.{DataMode}
use most_sprite.Domain.Errors.{Code, Result, ok, err, raise, refuse_if, found_or, ◌>>=◌, ◌>>◌}
use most_sprite.Instruments.{Role, Stokes, RawDescriptor, ScienceGroup}

str_lt : String → String → Bool
str_lt a b = elim (compare a b) [ Ordering.lt ↦ true | _ ↦ false ]

text_or_empty : Option String → String
text_or_empty none = ""
text_or_empty (some text) = text

-- `key=lambda item: (item.observed_at or "", item.relative_path)`
unfoldable pub observed_before : RawDescriptor → RawDescriptor → Bool
unfolding str_lt text_or_empty
observed_before a b =
    let first = text_or_empty a.observed_at in
    let second = text_or_empty b.observed_at in
    str_lt first second || (str_eq first second && str_lt a.relative_path b.relative_path)

unfoldable pub is_science : Role → Bool
is_science Role.science = true
is_science _ = false

unfoldable pub science_of : List RawDescriptor → List RawDescriptor
unfolding is_science
science_of [] = []
science_of (item ∷ items) =
    let rest = science_of items in if is_science item.role then item ∷ rest else rest

-- `(item.observing_night, item.target_name, item.stokes)`
pub record Prefix : Type 0 where
  pub night : String
  pub target : String
  pub stokes : Stokes

pub record Key : Type 0 where
  pub prefix : Prefix
  pub number : ℕ

unfoldable pub same_stokes : Stokes → Stokes → Bool
same_stokes Stokes.q Stokes.q = true
same_stokes Stokes.u Stokes.u = true
same_stokes Stokes.v Stokes.v = true
same_stokes _ _ = false

-- The letters in the order of the alphabet.
stokes_lt : Stokes → Stokes → Bool
stokes_lt Stokes.q Stokes.q = false
stokes_lt Stokes.q _ = true
stokes_lt Stokes.u Stokes.v = true
stokes_lt _ _ = false

unfoldable pub same_prefix : Prefix → Prefix → Bool
unfolding same_stokes
same_prefix a b =
    str_eq a.night b.night && str_eq a.target b.target && same_stokes a.stokes b.stokes

unfoldable pub same_key : Key → Key → Bool
unfolding same_prefix
same_key a b = same_prefix a.prefix b.prefix && (a.number == b.number)

-- The order of the tuples that are the keys.
key_lt : Key → Key → Bool
unfolding str_lt same_stokes stokes_lt
key_lt a b =
    let p = a.prefix in
    let r = b.prefix in
    str_lt p.night r.night
    || (str_eq p.night r.night
        && (str_lt p.target r.target
            || (str_eq p.target r.target
                && (stokes_lt p.stokes r.stokes
                    || (same_stokes p.stokes r.stokes && ltb a.number b.number)))))

abbrev pub Counters : Type 0
Counters = List (Prefix × ℕ)

-- `counters.get(prefix, 0)`
get_count : Prefix → Counters → ℕ
unfolding same_prefix
get_count prefix [] = 0
get_count prefix ((other, n) ∷ counters) =
    let rest = get_count prefix counters in if same_prefix other prefix then n else rest

set_count : Prefix → ℕ → Counters → Counters
unfolding same_prefix
set_count prefix n [] = (prefix, n) ∷ []
set_count prefix n ((other, m) ∷ counters) =
    let rest = set_count prefix n counters in
    if same_prefix other prefix then (other, n) ∷ counters else (other, m) ∷ rest

abbrev pub Buckets : Type 0
Buckets = List (Key × List RawDescriptor)

-- `buckets.setdefault(key, []).append(item)`
unfoldable pub put : Key → RawDescriptor → Buckets → Buckets
unfolding same_key
put key item [] = (key, item ∷ []) ∷ []
put key item ((other, items) ∷ buckets) =
    let rest = put key item buckets in
    if same_key other key then (other, items ++ item ∷ []) ∷ buckets else (other, items) ∷ rest

-- A frame without a sequence number belongs to the sequence that the last first exposure began.
pub count_first : Prefix → ℕ → Option ℕ → Counters → Counters
unfolding get_count set_count
count_first prefix sub (some number) counters = counters
count_first prefix sub none counters =
    if sub == 1 then set_count prefix (get_count prefix counters + 1) counters else counters

pub number_in : Prefix → Option ℕ → Counters → ℕ
unfolding get_count
number_in prefix (some number) counters = number
number_in prefix none counters = get_count prefix counters

-- The labels of a frame, if it has them all.
unfoldable pub labels :
    RawDescriptor → Option Stokes → Option ℕ → Option DataMode → Option (Prefix × ℕ)
labels item (some stokes) (some sub) (some mode) =
    some (record { night = item.observing_night; target = item.target_name; stokes = stokes }, sub)
labels item _ _ _ = none

unfoldable pub labels_of : RawDescriptor → Option (Prefix × ℕ)
unfolding labels
labels_of item = labels item item.stokes item.sub_index item.mode

-- The loop over the science frames.
unfoldable pub fill : List RawDescriptor → Counters → Buckets → Result Buckets
unfolding labels_of count_first number_in put
fill [] counters buckets = ok buckets
fill (item ∷ items) counters buckets = do
  found ← found_or Code.incomplete_modulation_group (labels_of item)
  let prefix = found.0
  let counted = count_first prefix found.1 item.sequence_number counters
  let key : Key = record { prefix = prefix; number = number_in prefix item.sequence_number counted }
  fill items counted (put key item buckets)

unfoldable pub is_index : Option ℕ → Bool
is_index none = false
is_index (some n) = ltb 0 n && ltb n 5

unfoldable pub all_indices : List (Option ℕ) → Bool
unfolding is_index
all_indices [] = true
all_indices (i ∷ indices) = is_index i && all_indices indices

has_index : ℕ → List (Option ℕ) → Bool
has_index n [] = false
has_index n (none ∷ indices) = has_index n indices
has_index n (some m ∷ indices) = (m == n) || has_index n indices

-- `set(indices) == {1, 2, 3, 4}`
unfoldable pub is_full : List (Option ℕ) → Bool
unfolding all_indices has_index
is_full indices =
    all_indices indices
    && has_index 1 indices
    && has_index 2 indices
    && has_index 3 indices
    && has_index 4 indices

-- `item.sub_index or 0`
unfoldable pub or_zero : Option ℕ → ℕ
or_zero none = 0
or_zero (some n) = n

unfoldable pub index_before : RawDescriptor → RawDescriptor → Bool
unfolding or_zero
index_before a b = ltb (or_zero a.sub_index) (or_zero b.sub_index)

total_exposure : List RawDescriptor → ℕ
total_exposure [] = 0
total_exposure (item ∷ items) = item.exposure_time + total_exposure items

first_mode : List RawDescriptor → Option DataMode
first_mode [] = none
first_mode (item ∷ items) = item.mode

group_record : Key → List RawDescriptor → DataMode → ScienceGroup
unfolding total_exposure
group_record key ordered mode = record {
  target_name = key.prefix.target;
  mode = mode;
  stokes = key.prefix.stokes;
  observing_night = key.prefix.night;
  sequence_number = key.number;
  exposure_time = total_exposure ordered / 4;
  artifacts = map (λ item. item.relative_path) ordered;
}

-- The group of a bucket. A failed assertion has no code.
unfoldable pub group_of : Key × List RawDescriptor → Result ScienceGroup
unfolding is_full index_before first_mode group_record
group_of (key, items) = do
  let indices = map (λ item. item.sub_index) items
  refuse_if (not ((length items == 4) && is_full indices)) Code.incomplete_modulation_group
  let ordered = sort_by index_before items
  mode ← found_or Code.import_inspection_failed (first_mode ordered)
  ok (group_record key ordered mode)

unfoldable pub groups_of : Buckets → Result (List ScienceGroup)
unfolding group_of
groups_of [] = ok []
groups_of (bucket ∷ buckets) = do
  group ← group_of bucket
  groups ← groups_of buckets
  ok (group ∷ groups)

unfoldable pub bucket_before : Key × List RawDescriptor → Key × List RawDescriptor → Bool
unfolding key_lt
bucket_before a b = key_lt a.0 b.0

unfoldable pub group_science : List RawDescriptor → Result (List ScienceGroup)
unfolding science_of observed_before fill groups_of bucket_before
group_science descriptors = do
  buckets ← fill (sort_by observed_before (science_of descriptors)) [] []
  groups_of (sort_by bucket_before buckets)
