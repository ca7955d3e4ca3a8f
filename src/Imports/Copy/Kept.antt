-- ===== src/Imports/Copy/Kept.antt =====
-- A copy changes no file that is there.
use text.Mathlib.TextEquality.{eq_iff}
use Prim.Native.String.{String}
use most_sprite.Prelude.{
  ℕ, Bool, true, false, Option, none, some, List, [], ◌∷◌, ◌≡◌, refl, arith, Bool-cases, inl, inr,
}
use most_sprite.Imports.Names.{FilePath}
use most_sprite.Imports.Scan.{InventoryRecord}
use most_sprite.Imports.State.{ManagedPath, Archive, Environment, same_path, gets, continue, ◌>>=◌}
use most_sprite.Imports.State.Respects.{
  IsHistory, Respects, Respects-pure, Respects-fail, Respects-gets, Respects-the, Respects-fail_if,
  Respects-bind,
}
use most_sprite.Imports.Copy.{
  find_file, add_file, place, copy_verified, copy_record, copy_all, managed_record, managed_records,
}

pub same_path→≡ : (a b : ManagedPath) → same_path a b ≡ true → a ≡ b
unfolding same_path
same_path→≡ a b h = ground (arith, eq_iff a.shard b.shard, eq_iff a.name b.name)

-- Files that were there are there, with the bytes that they had.
pub record AreKept (u v : Archive) : Type 0 where
  pub kept :
      (path : ManagedPath) (bytes : List ℕ)
      → find_file path u.files ≡ some bytes
      → find_file path v.files ≡ some bytes

pub AreKept-add :
    (path : ManagedPath) (bytes : List ℕ) (w : Archive)
    → find_file path w.files ≡ none
    → AreKept w (record w { files = (path, bytes) ∷ w.files })
unfolding find_file
AreKept-add path bytes w new = record {
  kept = λ other old found. elim (Bool-cases (same_path path other)) [
    | inl same ↦ let e : path ≡ other = same_path→≡ path other same in absurd (cc)
    | inr apart ↦ rw apart found
  ];
}

-- The write of a copy, where its destination is free.
abbrev pub HasFileWrite : (Archive → Archive → Type 0) → Type 0
HasFileWrite R =
    (path : ManagedPath) (bytes : List ℕ) (w : Archive)
    → find_file path w.files ≡ none
    → R w (record w { files = (path, bytes) ∷ w.files })

module _ {R : Archive → Archive → Type 0} (h : IsHistory R) (g : HasFileWrite R) where
  place-R :
      (path : ManagedPath) (bytes : List ℕ) (fits old_fits : Bool) (old : Option (List ℕ))
      (w : Archive)
      → find_file path w.files ≡ old
      → R w (place path bytes fits old old_fits w).1
  unfolding place add_file
  place-R path bytes fits old_fits (some old) w found = Respects-fail_if h _ _ w
  place-R path bytes false old_fits none w found = Respects-fail h _ _ w
  place-R path bytes true old_fits none w found = g path bytes w found

  pub copy_verified-Respects :
      (sha256 : List ℕ → String) (bytes : List ℕ) (path : ManagedPath) (expected_sha256 : String)
      (expected_size : ℕ)
      → Respects R (copy_verified sha256 bytes path expected_sha256 expected_size)
  unfolding copy_verified ◌>>=◌ continue gets
  copy_verified-Respects sha256 bytes path expected_sha256 expected_size w =
      place-R path bytes _ _ (find_file path w.files) w refl

  module _ (env : Environment) where
    pub copy_record-Respects :
        (root : FilePath) (batch_id : ℕ) (item : InventoryRecord)
        → Respects R (copy_record env root batch_id item)
    unfolding copy_record
    copy_record-Respects root batch_id item = Respects-bind h _ _ (Respects-the h _) λ source.
        Respects-bind h _ _ (Respects-fail_if h _ _) λ _. copy_verified-Respects env.sha256 _ _ _ _

    pub copy_all-Respects :
        (root : FilePath) (batch_id : ℕ) (items : List InventoryRecord)
        (copied : List (String × ManagedPath))
        → Respects R (copy_all env root batch_id items copied)
    unfolding copy_all
    copy_all-Respects root batch_id [] copied = Respects-pure h copied
    copy_all-Respects root batch_id (item ∷ items) copied =
        Respects-bind h _ _ (copy_record-Respects root batch_id item)
          λ _. copy_all-Respects root batch_id items _

module _ {R : Archive → Archive → Type 0} (h : IsHistory R) (env : Environment) where
  pub managed_record-Respects :
      (copied : List (String × ManagedPath)) (item : InventoryRecord)
      → Respects R (managed_record env copied item)
  unfolding managed_record
  managed_record-Respects copied item = Respects-bind h _ _ (Respects-the h _) λ path.
      Respects-bind h _ _ (Respects-gets h _)
        λ found. Respects-bind h _ _ (Respects-the h found) λ bytes. Respects-pure h _

  pub managed_records-Respects :
      (copied : List (String × ManagedPath)) (items : List InventoryRecord)
      → Respects R (managed_records env copied items)
  unfolding managed_records
  managed_records-Respects copied [] = Respects-pure h []
  managed_records-Respects copied (item ∷ items) =
      Respects-bind h _ _ (managed_record-Respects copied item) λ managed.
        Respects-bind h _ _ (managed_records-Respects copied items) λ rest. Respects-pure h _
