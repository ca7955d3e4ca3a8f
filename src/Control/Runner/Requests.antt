-- ===== src/Control/Runner/Requests.antt =====
-- What is asked for in a sequence does not change, and no row of a sequence is removed.
use most_sprite.Prelude.{
  ℕ, ◌+◌, ◌≡◌, refl, ◌∙◌, some, find_if, update_if, Bool, true, false, ◌==◌, if◌then◌else◌, arith,
  List, [], ◌∷◌,
}
use most_sprite.Store.{Settings, Db, Sequence, get_sequence, update_sequence, emit}
use most_sprite.Control.World.{World}
use most_sprite.Control.World.Relates.{IsHistory}
use most_sprite.Api.Sequences.{ActionRequest, apply_action, is_retry, action_result}
use most_sprite.Control.World.Others.{outside_leads}
use most_sprite.Control.Runner.History.{IsRunnerHistory, SameRequest, SameRequest-written}
use most_sprite.Control.Runner.Poll.{run_once}
use most_sprite.Control.Runner.Poll.Leads.{run_once-Leads}

-- Every sequence that was there is there, with the same request.
unfoldable pub KeepsRequests : Db → Db → Type 0
KeepsRequests d e =
    (id : ℕ) (s : Sequence)
    → get_sequence id d ≡ some s
    → (t : Sequence) × (get_sequence id e ≡ some t) × SameRequest s t

SameRequest-refl : (s : Sequence) → SameRequest s s
SameRequest-refl s = record {
  id = refl;
  idempotency_key = refl;
  target_name = refl;
  created_by = refl;
  mode = refl;
  exposure_time = refl;
  repeats = refl;
  expected_exposures = refl;
  config_snapshot_id = refl;
}

SameRequest-trans : (a b c : Sequence) → SameRequest a b → SameRequest b c → SameRequest a c
SameRequest-trans a b c p q = record {
  id = q.id ∙ p.id;
  idempotency_key = q.idempotency_key ∙ p.idempotency_key;
  target_name = q.target_name ∙ p.target_name;
  created_by = q.created_by ∙ p.created_by;
  mode = q.mode ∙ p.mode;
  exposure_time = q.exposure_time ∙ p.exposure_time;
  repeats = q.repeats ∙ p.repeats;
  expected_exposures = q.expected_exposures ∙ p.expected_exposures;
  config_snapshot_id = q.config_snapshot_id ∙ p.config_snapshot_id;
}

same_sequences : (d e : Db) → e.sequences ≡ d.sequences → KeepsRequests d e
unfolding KeepsRequests get_sequence
same_sequences d e p id s found = (s, rw p found, SameRequest-refl s)

onward : (a b c : Db) → KeepsRequests a b → KeepsRequests b c → KeepsRequests a c
unfolding KeepsRequests
onward a b c p q id s found =
    let (t, at_b, st) = p id s found in
    let (u, at_c, tu) = q id t at_b in (u, at_c, SameRequest-trans s t u st tu)

-- A row after a write to the rows with the id `k`.
written : ℕ → (Sequence → Sequence) → Sequence → Sequence
written k f s = if s.id == k then f s else s

SameRequest-if : (b : Bool) (s t : Sequence) → SameRequest s t → SameRequest s (if b then t else s)
SameRequest-if true s t h = h
SameRequest-if false s t h = SameRequest-refl s

find_written :
    (k : ℕ) (f : Sequence → Sequence)
    → ((s : Sequence) → SameRequest s (f s))
    → (id : ℕ) (ss : List Sequence) (s : Sequence) → find_if (λ s. s.id == id) ss ≡ some s
    → find_if (λ s. s.id == id) (update_if (λ s. s.id == k) f ss) ≡ some (written k f s)
unfolding find_if update_if written
find_written k f same id [] s found = cc
find_written k f same id (x ∷ xs) s found =
    let kept = (same x).id in ground (arith, kept, find_written k f same id xs s)

updated :
    (k : ℕ) (f : Sequence → Sequence)
    → ((s : Sequence) → SameRequest s (f s))
    → (d : Db) → KeepsRequests d (update_sequence k f d)
unfolding KeepsRequests get_sequence update_sequence written
updated k f same d id s found = (
  written k f s,
  find_written k f same id d.sequences s found,
  SameRequest-if (s.id == k) s (f s) (same s),
)

acts :
    (r : ActionRequest) (s : Sequence) (now : ℕ) (d : Db) → KeepsRequests d (apply_action r s now d)
unfolding apply_action emit update_sequence KeepsRequests get_sequence
acts r s now d =
    updated r.sequence_id
      (λ q. record q {
        attempt = if is_retry r.action s.status then q.attempt + 1 else q.attempt;
        status = action_result r.action s.status;
      })
      (λ q.
        SameRequest-written q (action_result r.action s.status) q.completed_exposures
          (if is_retry r.action s.status then q.attempt + 1 else q.attempt) q.last_error_code)
      d

KeepsRequests-IsHistory : IsHistory KeepsRequests
KeepsRequests-IsHistory = record {
  start = λ d. same_sequences d d refl;
  onward = onward;
  others = outside_leads {Q = KeepsRequests} (record {
    start = λ d. same_sequences d d refl;
    acts = acts;
    recovery = λ now d h. same_sequences d _ refl;
  });
}

pub KeepsRequests-IsRunnerHistory : IsRunnerHistory KeepsRequests
unfolding emit
KeepsRequests-IsRunnerHistory = record {
  history = KeepsRequests-IsHistory;
  commands = λ d _. same_sequences d _ refl;
  exposures = λ d _. same_sequences d _ refl;
  groups = λ d _. same_sequences d _ refl;
  files = λ d _ _. same_sequences d _ refl;
  alarms = λ d _. same_sequences d _ refl;
  leads = λ d _. same_sequences d _ refl;
  sequences = λ d k f same. updated k f same d;
  announces = λ d _ _. same_sequences d _ refl;
  refreshes = λ d _ _. same_sequences d _ refl;
  moves = λ d _ _. same_sequences d _ refl;
  faults = λ d _ _ _ _ _. same_sequences d _ refl;
}

module _ (st : Settings) (owner : ℕ) where
  -- A sequence that is in the table before a poll is there after it, and what was asked for in it is
  -- the same, whatever others do meanwhile.
  pub run_once-SameRequest :
      (w : World) (id : ℕ) (s : Sequence)
      → get_sequence id w.db ≡ some s
      → (t : Sequence) × (get_sequence id (run_once st owner w).1.db ≡ some t) × SameRequest s t
  unfolding KeepsRequests
  run_once-SameRequest w = (run_once-Leads KeepsRequests-IsRunnerHistory st owner).at w
