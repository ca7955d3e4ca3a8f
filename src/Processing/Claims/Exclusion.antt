-- ===== src/Processing/Claims/Exclusion.antt =====
-- A run has one worker at a time, until a claim has timed out.
use most_sprite.Prelude.{
  ℕ, ◌+◌, ◌<◌, ◌≡◌, ◌≢◌, refl, sym, ap, subst, ◌∙◌, arith, true, false, Option, none, some, ◌==◌,
  ==_iff, find_if, find_if_passes, find_if-update_first, update_first,
}
use most_sprite.Domain.Errors.{ok}
use most_sprite.Processing.{ProcessingRun, RunTable}
use most_sprite.Processing.Claims.{
  is_final, is_running, same_token, is_fresh, claim_row, claim_found, claim_run,
}

claimed :
    (timeout token now : ℕ) (t e : RunTable) (o : Option ProcessingRun)
    → claim_found timeout token now t o ≡ ok (true, e)
    → (r : ProcessingRun) × (o ≡ some r)
      × (e.runs ≡ update_first (λ x. x.id == r.id) (claim_row token now) t.runs)
unfolding claim_found
claimed timeout token now t e none h = cc
claimed timeout token now t e (some r) h = (r, refl, ground arith)

-- The run, as the next worker finds it.
claimed_row :
    (timeout id token now : ℕ) (t e : RunTable)
    → claim_run timeout id token now t ≡ ok (true, e)
    → (r : ProcessingRun) × (find_if (λ x. x.id == id) e.runs ≡ some (claim_row token now r))
unfolding claim_run claim_row
claimed_row timeout id token now t e h =
    let (r, found, p) = claimed timeout token now t e _ h in
    let same = (==_iff r.id id).0 (find_if_passes _ t.runs found) in
    (
      r,
      ap (find_if (λ x. x.id == id)) p
          ∙ subst
              (λ k.
                find_if (λ (x : ProcessingRun). x.id == id)
                  (update_first (λ x. x.id == k) (claim_row token now) t.runs)
                ≡ some (claim_row token now r))
              (sym same)
              (find_if-update_first (λ x. x.id == id) (claim_row token now) (λ x. refl) r t.runs
                found),
    )

-- A worker that has claimed a run keeps others from it until its claim has timed out: they are
-- turned away and change nothing.
pub claim_run_excludes :
    (timeout id token other now later : ℕ) (t e : RunTable)
    → other ≢ token
    → later < now + timeout
    → claim_run timeout id token now t ≡ ok (true, e)
    → claim_run timeout id other later e ≡ ok (false, e)
unfolding claim_run claim_found is_final is_running same_token is_fresh claim_row
claim_run_excludes timeout id token other now later t e apart early h =
    let (r, found) = claimed_row timeout id token now t e h in rw found (ground arith)
