-- ===== src/Calibration/Matcher/Choice.antt =====
-- What `match_calibration` chooses: the newest calibration that is usable.
use most_sprite.Prelude.{
  ℕ, All, ◌≤◌, ◌≡◌, refl, ap, arith, leb→le, Bool, true, false, Option, none, some, List, [], ◌∷◌,
  if◌then◌else◌, ◌⊎◌, inl, inr,
}
use most_sprite.Domain.{ConfigurationStatus, DataMode}
use most_sprite.Calibration.Matcher.{
  Calibration, Query, Candidate, DecisionStatus, status_fits, same_mode, mode_fits, from_fits,
  to_fits, get_parameter, same_value, parameters_fit, conditions_of, failures, is_empty,
  candidate_of, examine, decide, match_calibration,
}

-- The value of a parameter, as the code reads it.
pub data HasParameters (c : Calibration) : List (ℕ × Option ℕ) → Type 0 where
  no_more : HasParameters c []
  one_more :
      {k : ℕ} {v : Option ℕ} {rest : List (ℕ × Option ℕ)}
      → get_parameter k c.parameters ≡ v
      → HasParameters c rest
      → HasParameters c ((k, v) ∷ rest)

-- A calibration that may be used for an observation.
pub record IsUsable (q : Query) (c : Calibration) : Type 0 where
  pub status :
      (c.status ≡ ConfigurationStatus.approved)
      ⊎ ((c.status ≡ ConfigurationStatus.unverified) × (q.allow_unverified ≡ true))
  pub mode : (c.mode ≡ none) ⊎ (c.mode ≡ some q.mode)
  pub begun : (t : ℕ) → c.valid_from ≡ some t → t ≤ q.observed_at
  pub not_over : (t : ℕ) → c.valid_to ≡ some t → q.observed_at ≤ t
  pub parameters : HasParameters c q.required_parameters

status_usable :
    (b : Bool) (s : ConfigurationStatus)
    → status_fits b s ≡ true
    → (s ≡ ConfigurationStatus.approved) ⊎ ((s ≡ ConfigurationStatus.unverified) × (b ≡ true))
unfolding status_fits
status_usable b ConfigurationStatus.approved h = inl refl
status_usable b ConfigurationStatus.unverified h = inr (refl, h)
status_usable b ConfigurationStatus.retired h = cc

same_mode-eq : (k m : DataMode) → same_mode k m ≡ true → k ≡ m
unfolding same_mode
same_mode-eq DataMode.pol_q DataMode.pol_q h = refl
same_mode-eq DataMode.pol_u DataMode.pol_u h = refl
same_mode-eq DataMode.pol_v DataMode.pol_v h = refl
same_mode-eq DataMode.nonpol DataMode.nonpol h = refl
same_mode-eq _ _ h = cc

mode_usable :
    (o : Option DataMode) (m : DataMode) → mode_fits o m ≡ true → (o ≡ none) ⊎ (o ≡ some m)
unfolding mode_fits
mode_usable none m h = inl refl
mode_usable (some k) m h = inr (ap some (same_mode-eq k m h))

same_value-eq : (a b : Option ℕ) → same_value a b ≡ true → a ≡ b
unfolding same_value
same_value-eq none none h = refl
same_value-eq (some a) (some b) h = let p : a ≡ b = ground arith in ap some p
same_value-eq none (some b) h = cc
same_value-eq (some a) none h = cc

parameters_usable :
    (c : Calibration) (ps : List (ℕ × Option ℕ))
    → parameters_fit c.parameters ps ≡ true
    → HasParameters c ps
unfolding parameters_fit
parameters_usable c [] h = no_more
parameters_usable c ((k, v) ∷ rest) h =
    one_more (same_value-eq _ v (ground arith)) (parameters_usable c rest (ground arith))

-- A candidate is accepted only where the calibration may be used.
accepted-IsUsable :
    (q : Query) (c : Calibration) → (candidate_of q c).accepted ≡ true → IsUsable q c
unfolding candidate_of conditions_of failures is_empty from_fits to_fits
accepted-IsUsable q c h = record {
  status = status_usable q.allow_unverified c.status (ground arith);
  mode = mode_usable c.mode q.mode (ground arith);
  begun = λ t e.
      let f : from_fits c.valid_from q.observed_at ≡ true = ground arith in
      leb→le t q.observed_at (rw e at f);
  not_over = λ t e.
      let f : to_fits c.valid_to q.observed_at ≡ true = ground arith in
      leb→le q.observed_at t (rw e at f);
  parameters = parameters_usable c q.required_parameters (ground arith);
}

usable_status :
    (q : Query) (c : Calibration) → IsUsable q c → status_fits q.allow_unverified c.status ≡ true
unfolding status_fits
usable_status q c u = elim (u.status) [
  | inl approved ↦ rw approved refl
  | inr (unverified, allowed) ↦ rw (unverified, allowed) refl
]

same_mode_refl : (m : DataMode) → same_mode m m ≡ true
unfolding same_mode
same_mode_refl DataMode.pol_q = refl
same_mode_refl _ = refl

usable_mode : (q : Query) (c : Calibration) → IsUsable q c → mode_fits c.mode q.mode ≡ true
unfolding mode_fits
usable_mode q c u = elim (u.mode) [
  | inl any ↦ rw any refl
  | inr same ↦ rw same (same_mode_refl q.mode)
]

same_value_refl : (a : Option ℕ) → same_value a a ≡ true
unfolding same_value
same_value_refl none = refl
same_value_refl (some a) = ground arith

usable_parameters :
    (c : Calibration) (ps : List (ℕ × Option ℕ))
    → HasParameters c ps
    → parameters_fit c.parameters ps ≡ true
unfolding parameters_fit
usable_parameters c [] no_more = refl
usable_parameters c ((k, v) ∷ rest) (one_more p h) =
    rw (p, same_value_refl v, usable_parameters c rest h) refl

usable_from : (o : Option ℕ) (t : ℕ) → ((s : ℕ) → o ≡ some s → s ≤ t) → from_fits o t ≡ true
unfolding from_fits
usable_from none t h = refl
usable_from (some s) t h = let k = h s refl in ground arith

usable_to : (o : Option ℕ) (t : ℕ) → ((s : ℕ) → o ≡ some s → t ≤ s) → to_fits o t ≡ true
unfolding to_fits
usable_to none t h = refl
usable_to (some s) t h = let k = h s refl in ground arith

-- And every calibration that may be used is accepted.
usable_accepted : (q : Query) (c : Calibration) → IsUsable q c → (candidate_of q c).accepted ≡ true
unfolding candidate_of conditions_of failures is_empty
usable_accepted q c u =
    rw
      (
        usable_status q c u,
        usable_mode q c u,
        usable_from c.valid_from q.observed_at u.begun,
        usable_to c.valid_to q.observed_at u.not_over,
        usable_parameters c q.required_parameters u.parameters,
      )
      refl

-- The first calibration of the rows that may be used.
pub data FirstUsable (q : Query) : List Calibration → Calibration → Type 0 where
  here : {c : Calibration} {cs : List Calibration} → IsUsable q c → FirstUsable q (c ∷ cs) c
  later :
      {c d : Calibration} {cs : List Calibration}
      → ¬ IsUsable q d
      → FirstUsable q cs c
      → FirstUsable q (d ∷ cs) c

-- What the loop has accepted: nothing, where no row may be used, or the first one at the head.
abbrev Found : Query → List Calibration → List Calibration → Type 0
Found q cs accepted =
    ((accepted ≡ []) × All (λ c. ¬ IsUsable q c) cs)
    ⊎ ((c : Calibration) × (rest : List Calibration) × (accepted ≡ c ∷ rest) × FirstUsable q cs c)

Found-next :
    (q : Query) (c : Calibration) (cs accepted : List Calibration) (b : Bool)
    → (candidate_of q c).accepted ≡ b
    → Found q cs accepted
    → Found q (c ∷ cs) (if b then c ∷ accepted else accepted)
Found-next q c cs accepted true h f = inr (c, accepted, refl, here (accepted-IsUsable q c h))
Found-next q c cs accepted false h (inl (p, none_usable)) =
    inl (p, ((λ u. ground (arith, usable_accepted q c u)), none_usable))
Found-next q c cs accepted false h (inr (d, rest, p, first)) =
    inr (d, rest, p, later (λ u. ground (arith, usable_accepted q c u)) first)

examine-Found : (q : Query) (cs : List Calibration) → Found q cs (examine q cs).1
unfolding examine
examine-Found q [] = inl (refl, tt)
examine-Found q (c ∷ cs) = Found-next q c cs _ _ refl (examine-Found q cs)

decide_selected :
    (p : List Candidate × List Calibration) (c : Calibration) (rest : List Calibration)
    → p.1 ≡ c ∷ rest
    → ((decide p).status ≡ DecisionStatus.matched) × ((decide p).selected_id ≡ some c.id)
unfolding decide
decide_selected (ds, []) c rest h = cc
decide_selected (ds, x ∷ xs) c rest h =
    let p : x ≡ c = cc in (refl, ap (λ (y : Calibration). some y.id) p)

decide_waiting :
    (p : List Candidate × List Calibration)
    → p.1 ≡ []
    → ((decide p).status ≡ DecisionStatus.waiting_calibration) × ((decide p).selected_id ≡ none)
unfolding decide
decide_waiting (ds, []) h = (refl, refl)
decide_waiting (ds, x ∷ xs) h = cc

-- The decision is MATCHED with the first row, in the order of the query, that may be used, or it
-- waits for a calibration, where no row may be used.
pub match_calibration_choice :
    (q : Query) (rows : List Calibration)
    → let d = match_calibration q rows in
      ((c : Calibration) × FirstUsable q rows c
        × (d.status ≡ DecisionStatus.matched)
        × (d.selected_id ≡ some c.id))
      ⊎ (All (λ c. ¬ IsUsable q c) rows
          × (d.status ≡ DecisionStatus.waiting_calibration)
          × (d.selected_id ≡ none))
unfolding match_calibration
match_calibration_choice q rows = elim (examine-Found q rows) [
  | inl (p, none_usable) ↦ let (s, n) = decide_waiting (examine q rows) p in inr (none_usable, s, n)
  | inr (c, rest, p, first) ↦
      let (s, n) = decide_selected (examine q rows) c rest p in inl (c, first, s, n)
]
