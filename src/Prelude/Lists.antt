-- ===== src/Prelude/Lists.antt =====
-- Lists measured by the native numbers, and tables of rows that are read and updated by a test.
use Prim.Native.Nat.{ℕ, suc, ◌+◌}
use mathlib.Core.Path.{◌≡◌, refl, sym, subst, ap}
use mathlib.Core.Bool.{Bool, true, false}
use mathlib.Core.Option
use mathlib.Core.Option.{Option, none, some}
use mathlib.Core.List.{List, [], ◌∷◌, ◌++◌, map}
use native.Mathlib.Omega.{arith}
use most_sprite.Prelude.Tests.{if◌then◌else◌}

module _ {ℓ} {A : Type ℓ} where
  abbrev pub length : List A → ℕ
  length [] = 0
  length (x ∷ xs) = suc (length xs)

  -- Every row satisfies `P`.
  abbrev pub All {κ} : (A → Type κ) → List A → Type κ
  All P [] = Unit
  All P (x ∷ xs) = P x × All P xs

  -- The first row that passes the test: `select(...).where(test).limit(1)` on a table that is kept
  -- in the order of the query.
  unfoldable pub find_if : (A → Bool) → List A → Option A
  find_if test [] = none
  find_if test (x ∷ xs) = if test x then some x else find_if test xs

  -- `update(...).where(test)`.
  unfoldable pub update_if : (A → Bool) → (A → A) → List A → List A
  update_if test f [] = []
  update_if test f (x ∷ xs) = (if test x then f x else x) ∷ update_if test f xs

  -- An update of the first row that passes the test.
  unfoldable pub update_first : (A → Bool) → (A → A) → List A → List A
  update_first test f [] = []
  update_first test f (x ∷ xs) = if test x then f x ∷ xs else x ∷ update_first test f xs

  -- The number of rows that pass the test.
  unfoldable pub count_if : (A → Bool) → List A → ℕ
  count_if test [] = 0
  count_if test (x ∷ xs) = (if test x then 1 else 0) + count_if test xs

  -- What a row has that was found.
  pub find_if_passes :
      (test : A → Bool) (xs : List A) {x : A} → find_if test xs ≡ some x → test x ≡ true
  unfolding find_if
  find_if_passes test [] h = cc
  find_if_passes test (y ∷ ys) {x} h = ground (arith, find_if_passes test ys {x = x})

  -- An update of the rows with one test, which keeps that test, is seen by a search for it.
  pub find_if-update_if :
      (test : A → Bool) (f : A → A)
      → ((x : A) → test (f x) ≡ test x)
      → (xs : List A) → find_if test (update_if test f xs) ≡ Option.map f (find_if test xs)
  unfolding find_if update_if
  find_if-update_if test f keeps [] = refl
  find_if-update_if test f keeps (x ∷ xs) =
      ground (arith, keeps x, find_if-update_if test f keeps xs)

  -- An update that another search does not see.
  pub find_if-update_if_keeps :
      (seek test : A → Bool) (f : A → A)
      → ((x : A) → seek x ≡ true → test x ≡ false)
      → ((x : A) → seek (f x) ≡ seek x)
      → (xs : List A) → find_if seek (update_if test f xs) ≡ find_if seek xs
  unfolding find_if update_if
  find_if-update_if_keeps seek test f apart keeps [] = refl
  find_if-update_if_keeps seek test f apart keeps (x ∷ xs) =
      ground (arith, apart x, keeps x, find_if-update_if_keeps seek test f apart keeps xs)

  pub All-update_if {κ} :
      (P : A → Type κ) (test : A → Bool) (f : A → A)
      → ((x : A) → P x → test x ≡ true → P (f x))
      → (xs : List A) → All P xs
      → All P (update_if test f xs)
  unfolding update_if
  All-update_if P test f step [] h = tt
  All-update_if P test f step (x ∷ xs) h = (head (test x) refl, All-update_if P test f step xs h.1)
    where
      head : (b : Bool) → test x ≡ b → P (if b then f x else x)
      head true e = step x h.0 e
      head false e = h.0

  -- The row that a search finds is the one that an update of the first writes.
  pub All-update_first {κ} :
      (P : A → Type κ) (test : A → Bool) (f : A → A) (x : A) (xs : List A)
      → find_if test xs ≡ some x
      → P (f x)
      → All P xs
      → All P (update_first test f xs)
  unfolding find_if update_first
  All-update_first P test f x [] found new h = tt
  All-update_first P test f x (y ∷ ys) found new h =
      by_test (λ e. All-update_first P test f x ys e new h.1) (test y) found
    where
      by_test :
          (find_if test ys ≡ some x → All P (update_first test f ys))
          → (b : Bool) → (if b then some y else find_if test ys) ≡ some x
          → All P (if b then f y ∷ ys else y ∷ update_first test f ys)
      by_test rest true e = let p : y ≡ x = cc in (subst (λ z. P (f z)) (sym p) new, h.1)
      by_test rest false e = (h.0, rest e)

  -- An update of the first row with a test, which keeps that test, is what a search then finds.
  pub find_if-update_first :
      (test : A → Bool) (f : A → A)
      → ((x : A) → test (f x) ≡ test x)
      → (x : A) (xs : List A) → find_if test xs ≡ some x
      → find_if test (update_first test f xs) ≡ some (f x)
  unfolding find_if update_first
  find_if-update_first test f keeps x [] h = cc
  find_if-update_first test f keeps x (y ∷ ys) h =
      ground (arith, keeps y, find_if-update_first test f keeps x ys)

  pub length-update_if :
      (test : A → Bool) (f : A → A) (xs : List A) → length (update_if test f xs) ≡ length xs
  unfolding update_if
  length-update_if test f [] = refl
  length-update_if test f (x ∷ xs) = ap suc (length-update_if test f xs)

  pub All-map {κ μ} :
      (P : A → Type κ) (Q : A → Type μ)
      → ((x : A) → P x → Q x)
      → (xs : List A) → All P xs
      → All Q xs
  All-map P Q f [] h = tt
  All-map P Q f (x ∷ xs) h = (f x h.0, All-map P Q f xs h.1)

  pub All-append {κ} : (P : A → Type κ) (xs ys : List A) → All P xs → All P ys → All P (xs ++ ys)
  All-append P [] ys h k = k
  All-append P (x ∷ xs) ys h k = (h.0, All-append P xs ys h.1 k)

pub length-map {ℓ κ} :
    {A : Type ℓ} {B : Type κ} (f : A → B) (xs : List A) → length (map f xs) ≡ length xs
length-map f [] = refl
length-map f (x ∷ xs) = ap suc (length-map f xs)
