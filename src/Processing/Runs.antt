-- ===== src/Processing/Runs.antt =====
-- A run is made once for the same inputs.
use most_sprite.Prelude.{
  ℕ, ◌≡◌, refl, ap, subst, ◌∙◌, arith, Bool, true, false, not, ◌&&◌, Bool-cases, inl, inr, Option,
  none, some, ltb, length, if◌then◌else◌, find_if, find_if-update_first,
}
use most_sprite.Domain.Errors.{ok, refuse_if, ok_injective, first_line-ok, Code}
use most_sprite.Processing.{
  ProcessingRun, RunTable, RunSequence, RunRequest, RunKey, Selection, Hashes, has_key, new_run,
  release, is_waiting, status_of, found_or_new, key_of, ensure_complete, ensure_processing_run,
  select_calibration, has_espadons, only_espadons, the_hash,
}

new_run-key :
    (id sequence : ℕ) (k : RunKey) (s : Selection) → has_key k (new_run id sequence k s) ≡ true
unfolding has_key new_run
new_run-key id sequence k s = ground arith

and_false : (b : Bool) → (b && false) ≡ false
and_false true = refl
and_false false = refl

-- A new run does not wait where it may start.
new_settled : (b : Bool) → (b && is_waiting (status_of b)) ≡ false
unfolding is_waiting status_of
new_settled true = refl
new_settled false = refl

-- The run of the key is found again, as it was left.
found_again :
    (fresh later sequence : ℕ) (k : RunKey) (s : Selection) (t : RunTable)
    (o : Option ProcessingRun)
    → find_if (has_key k) t.runs ≡ o
    → let done = found_or_new fresh sequence k s t o in
      (found_or_new later sequence k s done.1 (find_if (has_key k) done.1.runs) ≡ done)
      × (done.1.calibration_sets ≡ t.calibration_sets)
unfolding found_or_new find_if has_key release is_waiting new_run
found_again fresh later sequence k s t none h =
    (rw (new_run-key fresh sequence k s, new_settled s.queued) refl, refl)
found_again fresh later sequence k s t (some r) h =
    elim (Bool-cases (s.queued && is_waiting r.status)) [
      | inl waits ↦ rw waits (
        rw (find_if-update_first (has_key k) (release s) (λ x. refl) r t.runs h, and_false s.queued)
            refl,
        refl,
      )
      | inr ready ↦ rw ready (rw (h, ready) refl, refl)
    ]

select_same :
    (h : Hashes) (b : Bool) (o : Option ℕ) (t e : RunTable)
    → e.calibration_sets ≡ t.calibration_sets
    → select_calibration h b o e ≡ select_calibration h b o t
unfolding select_calibration
select_same h true (some id) t e same = rw same refl
select_same h true none t e same = refl
select_same h false (some id) t e same = refl
select_same h false none t e same = refl

module _ (h : Hashes) (q : RunRequest) (s : RunSequence) (fresh later : ℕ) where
  -- What a complete call leaves, with the hash and the selection that it used.
  left : ℕ → Selection → RunTable → ℕ × RunTable
  left content c t =
      found_or_new fresh s.id (key_of h q s content c) c t
        (find_if (has_key (key_of h q s content c)) t.runs)

  complete_again :
      (t : RunTable) (content : ℕ) (c : Selection)
      → the_hash s.content_hash ≡ ok content
      → refuse_if
          (has_espadons s.raw_rows && not (only_espadons s.raw_rows))
          Code.processing_input_mixed
        ≡ ok tt
      → select_calibration h (only_espadons s.raw_rows) q.calibration_set_id t ≡ ok c
      → ensure_complete h q s later (left content c t).1
        ≡ ok (some (left content c t).0, (left content c t).1)
  unfolding ensure_complete left
  complete_again t content c hashed pure_inputs chosen =
      let key = key_of h q s content c in
      let (found, sets) = found_again fresh later s.id key c t _ refl in
      let same =
        select_same h (only_espadons s.raw_rows) q.calibration_set_id t (left content c t).1 sets
        ∙ chosen in
      rw (hashed, pure_inputs, same, found) refl

  complete_once :
      (t e : RunTable) (o : Option ℕ)
      → ensure_complete h q s fresh t ≡ ok (o, e)
      → ensure_complete h q s later e ≡ ok (o, e)
  unfolding ensure_complete left
  complete_once t e o p =
      let (content, c1, p1) = first_line-ok (the_hash s.content_hash) _ p in
      let (_, c2, p2) =
        first_line-ok
          (refuse_if (has_espadons s.raw_rows && not (only_espadons s.raw_rows))
            Code.processing_input_mixed)
          _ p1 in
      let (c, c3, p3) =
        first_line-ok (select_calibration h (only_espadons s.raw_rows) q.calibration_set_id t) _
          p2 in
      subst (λ (x : Option ℕ × RunTable). ensure_complete h q s later x.1 ≡ ok x) (ok_injective p3)
        (complete_again t content c c1 c2 c3)

  -- A run is made once for its inputs: after a call that was answered, the same call is answered with
  -- the same run, or again with none, and changes nothing.
  pub ensure_processing_run_once :
      (t e : RunTable) (o : Option ℕ)
      → ensure_processing_run h q (some s) fresh t ≡ ok (o, e)
      → ensure_processing_run h q (some s) later e ≡ ok (o, e)
  unfolding ensure_processing_run
  ensure_processing_run_once t e o p = by_count (ltb (length s.raw_rows) s.expected_exposures) p
    where
      by_count :
          (b : Bool)
          → (if b then ok (none, t) else ensure_complete h q s fresh t) ≡ ok (o, e)
          → (if b then ok (none, e) else ensure_complete h q s later e) ≡ ok (o, e)
      by_count true k =
          let result : (none, t) ≡ (o, e) = ok_injective k in
          ap (λ (x : Option ℕ × RunTable). ok (x.0, e)) result
      by_count false k = complete_once t e o k
