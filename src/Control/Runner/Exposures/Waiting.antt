-- ===== src/Control/Runner/Exposures/Waiting.antt =====
-- The loop of `_wait_exposure` of runner.py, which the model runs on fuel, and its end.
use most_sprite.Prelude.{
  ℕ, zero, suc, ◌+◌, ◌-◌, ◌≤◌, ◌≡◌, refl, ap, arith, ltb→lt, true, false, Bool-cases, inl, inr, ltb,
  min, if◌then◌else◌,
}
use most_sprite.Store.{Settings, get_sequence}
use most_sprite.Control.World.{Run, pure, gets, session, sleep, ◌>>=◌, ◌>>◌}
use most_sprite.Control.Runner.Exposures.{wait_loop, asks_abort}

module _ (st : Settings) (id duration : ℕ) where
  -- A round, and the rounds after it.
  wait_round : ℕ → Run (Unit {0}) → Run (Unit {0})
  wait_round elapsed rest = do
    sleep (min 100 (duration - elapsed))
    aborting ← session (gets (λ w. asks_abort st (get_sequence id w.db)))
    if aborting then pure tt else rest

  wait_ended :
      (fuel elapsed : ℕ)
      → ltb elapsed duration ≡ false
      → wait_loop st fuel id elapsed duration ≡ pure tt
  unfolding wait_loop
  wait_ended zero elapsed h = refl
  wait_ended (suc n) elapsed h = rw h refl

  wait_goes_on :
      (fuel elapsed : ℕ)
      → ltb elapsed duration ≡ true
      → wait_loop st (suc fuel) id elapsed duration
        ≡ wait_round elapsed
            (wait_loop st fuel id (elapsed + min 100 (duration - elapsed)) duration)
  unfolding wait_loop wait_round
  wait_goes_on fuel elapsed h = rw h refl

  -- Fuel for the milliseconds that are left is enough: more changes nothing.
  wait_loop_enough :
      (fuel more elapsed : ℕ)
      → duration ≤ elapsed + fuel
      → wait_loop st (more + fuel) id elapsed duration ≡ wait_loop st fuel id elapsed duration
  wait_loop_enough zero more elapsed h =
      let over : ltb elapsed duration ≡ false = ground arith in
      rw (wait_ended (more + zero) elapsed over, wait_ended zero elapsed over) refl
  wait_loop_enough (suc n) more elapsed h = elim (Bool-cases (ltb elapsed duration)) [
    | inr over ↦ rw (wait_ended (more + suc n) elapsed over, wait_ended (suc n) elapsed over) refl
    | inl under ↦
        let left = ltb→lt elapsed duration under in
        let next : more + suc n ≡ suc (more + n) = omega arith in
        rw (next, wait_goes_on (more + n) elapsed under, wait_goes_on n elapsed under)
          (ap (wait_round elapsed)
            (wait_loop_enough n more (elapsed + min 100 (duration - elapsed)) (omega arith)))
  ]
