-- ===== src/Imports/State/Respects.antt =====
-- Relations between an archive before and after an action, whatever the action returns.
use mathlib.Core.Path.{ap₂}
use most_sprite.Prelude.{suc, Bool, true, false, Option, none, some, ◌≡◌, refl}
use most_sprite.Domain.Errors.{Code, Result, ok, err}
use most_sprite.Imports.State.{
  ImportDb, Archive, Import, pure, fail, gets, lift, the, write, fail_if, fresh_id, continue, ◌>>=◌,
}

-- A relation that holds between an archive and itself, and along a sequence of changes, of which
-- taking a fresh id is one.
pub record IsHistory (R : Archive → Archive → Type 0) : Type 0 where
  pub stays : (w : Archive) → R w w
  pub follows : (u v w : Archive) → R u v → R v w → R u w
  pub fresh : (w : Archive) → R w (record w { next_id = suc w.next_id })

-- Whatever the action returns, what it leaves is related to what it found.
abbrev pub Respects : (Archive → Archive → Type 0) → {A : Type 0} → Import A → Type 0
Respects R m = (w : Archive) → R w (m w).1

module _ {R : Archive → Archive → Type 0} (h : IsHistory R) where
  pub Respects-pure : {A : Type 0} (a : A) → Respects R (pure a)
  unfolding pure
  Respects-pure a w = h.stays w

  pub Respects-fail : (A : Type 0) (c : Code) → Respects R (fail {A = A} c)
  unfolding fail
  Respects-fail A c w = h.stays w

  pub Respects-gets : {A : Type 0} (f : Archive → A) → Respects R (gets f)
  unfolding gets
  Respects-gets f w = h.stays w

  pub Respects-lift : {A : Type 0} (r : Result A) → Respects R (lift r)
  unfolding lift
  Respects-lift r w = h.stays w

  pub Respects-the : {A : Type 0} (o : Option A) → Respects R (the o)
  unfolding the
  Respects-the none w = h.stays w
  Respects-the (some a) w = h.stays w

  pub Respects-fail_if : (test : Bool) (c : Code) → Respects R (fail_if test c)
  unfolding fail_if
  Respects-fail_if true c w = Respects-fail (Unit {0}) c w
  Respects-fail_if false c w = Respects-pure tt w

  pub Respects-fresh_id : Respects R fresh_id
  unfolding fresh_id
  Respects-fresh_id w = h.fresh w

  pub Respects-write :
      (f : ImportDb → ImportDb)
      → ((w : Archive) → R w (record w { db = f w.db }))
      → Respects R (write f)
  unfolding write
  Respects-write f step w = step w

  continue-R :
      {A B : Type 0} (u : Archive) (r : Result A) (v : Archive) (f : A → Import B)
      → R u v
      → ((a : A) → Respects R (f a))
      → R u (continue (r, v) f).1
  unfolding continue
  continue-R u (ok a) v f before after = h.follows u v (f a v).1 before (after a v)
  continue-R u (err e) v f before after = before

  pub Respects-bind :
      {A B : Type 0} (m : Import A) (f : A → Import B)
      → Respects R m
      → ((a : A) → Respects R (f a))
      → Respects R (m >>= f)
  unfolding ◌>>=◌
  Respects-bind m f first rest w = continue-R w (m w).0 (m w).1 f (first w) rest

-- What holds after a sequence of two actions, where the second knows what the first has returned.
module _ (P : Archive → Type 0) {A B : Type 0} where
  after_continue :
      (r : Result A) (v : Archive) (f : A → Import B)
      → P v
      → ((a : A) → r ≡ ok a → P (f a v).1)
      → P (continue (r, v) f).1
  unfolding continue
  after_continue (ok a) v f before after = after a refl
  after_continue (err e) v f before after = before

  pub after_bind :
      (m : Import A) (f : A → Import B) (w : Archive)
      → P (m w).1
      → ((a : A) → (m w).0 ≡ ok a → P (f a (m w).1).1)
      → P ((m >>= f) w).1
  unfolding ◌>>=◌
  after_bind m f w before after = after_continue (m w).0 (m w).1 f before after

module _ {A B : Type 0} where
  continue-ok :
      (r : Result A) (v : Archive) (f : A → Import B) {b : B}
      → (continue (r, v) f).0 ≡ ok b
      → (a : A) × (r ≡ ok a) × ((f a v).0 ≡ ok b)
  unfolding continue
  continue-ok (ok a) v f h = (a, refl, h)
  continue-ok (err e) v f h = absurd (cc)

  -- A sequence of two actions that has returned.
  pub bind-ok :
      (m : Import A) (f : A → Import B) (w : Archive) {b : B}
      → ((m >>= f) w).0 ≡ ok b
      → (a : A) × ((m w).0 ≡ ok a) × ((f a (m w).1).0 ≡ ok b)
  unfolding ◌>>=◌
  bind-ok m f w h = continue-ok (m w).0 (m w).1 f h

  pub bind_run :
      (m : Import A) (f : A → Import B) (w : Archive) {a : A} {v : Archive}
      → (m w).0 ≡ ok a
      → (m w).1 ≡ v
      → (m >>= f) w ≡ f a v
  unfolding ◌>>=◌ continue
  bind_run m f w returned left = ap₂ (λ r v. continue (r, v) f) returned left
