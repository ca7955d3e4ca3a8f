-- ===== src/Control/World/Returns.antt =====
-- What an action that has returned tells of its parts.
use most_sprite.Prelude.{◌≡◌, refl, Option, none, some}
use most_sprite.Domain.Errors.{Result, ok, err}
use most_sprite.Control.World.{World, Run, the, continue, ◌>>=◌}

module _ {A B : Type 0} where
  continued :
      (r : Result A × World) (f : A → Run B) {b : B} {v : World}
      → continue r f ≡ (ok b, v)
      → (a : A) × (u : World) × (r ≡ (ok a, u)) × (f a u ≡ (ok b, v))
  unfolding continue
  continued (ok a, u) f h = (a, u, refl, h)
  continued (err e, u) f h = cc

  -- The first part has returned, and the rest has returned from there.
  pub bind_returned :
      (m : Run A) (f : A → Run B) (w : World) {b : B} {v : World}
      → (m >>= f) w ≡ (ok b, v)
      → (a : A) × (u : World) × (m w ≡ (ok a, u)) × (f a u ≡ (ok b, v))
  unfolding ◌>>=◌
  bind_returned m f w h = continued (m w) f h

pub the_returned :
    {A : Type 0} (o : Option A) (w : World) {a : A} {v : World}
    → the o w ≡ (ok a, v)
    → (o ≡ some a) × (v ≡ w)
unfolding the
the_returned none w h = cc
the_returned (some a) w h = (cc, cc)
