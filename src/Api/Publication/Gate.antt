-- ===== src/Api/Publication/Gate.antt =====
-- What is published: the gate of `product_action`.
use most_sprite.Prelude.{
  ℕ, ◌≡◌, ◌≢◌, refl, sym, ap, subst, ◌∙◌, arith, Bool, true, false, Option, none, some, List, ◌==◌,
  All, All-map, All-update_first, ◌||◌,
}
use most_sprite.Domain.{ProductLevel, QcFlag, PublicationStatus}
use most_sprite.Domain.Errors.{refuse_if-ok, ok_injective, ok, refuse_if, first_line-ok}
use most_sprite.Api.Publication.{
  Product, Archive, IdempotencyRecord, PublicationAction, PublicationRequest, check_publish,
  check_action, set_of, set_is_approved, act_on_product, recorded_product, answer_or_act,
  product_action, write_publication, bind_idempotent_resource, publication_row, get_product,
  get_calibration_set, find_idempotent_resource, require_roles, digest_of, is_simulation_only,
  or_true, is_l3, is_fail,
}

-- What the gate asks of a product, whatever the request says.
pub record IsPublishable (a : Archive) (p : Product) : Type 0 where
  pub level : p.level ≡ ProductLevel.l3
  pub passed : p.qc_flag ≢ QcFlag.fail
  pub measured : p.qc_flag ≢ QcFlag.simulation_only
  pub observed : p.simulation_only ≡ some false
  pub calibrated : set_is_approved (set_of p.calibration_set_id a) ≡ true

-- Every published product is one that the gate lets through.
unfoldable pub IsSound : Archive → Type 0
IsSound a =
    All (λ (p : Product). p.publication_status ≡ PublicationStatus.published → IsPublishable a p)
      a.products

-- Sets that were approved still are.
unfoldable Approves : Archive → Archive → Type 0
Approves a b =
    (i : Option ℕ) → set_is_approved (set_of i a) ≡ true → set_is_approved (set_of i b) ≡ true

-- The gate looks at the columns that no action writes, and at the sets.
regate :
    (a b : Archive) (p q : Product)
    → Approves a b
    → (q.level ≡ p.level)
      × (q.qc_flag ≡ p.qc_flag)
      × (q.simulation_only ≡ p.simulation_only)
      × (q.calibration_set_id ≡ p.calibration_set_id)
    → IsPublishable a p
    → IsPublishable b q
unfolding Approves
regate a b p q keeps (l, f, s, c) g = record {
  level = l ∙ g.level;
  passed = λ e. g.passed (sym f ∙ e);
  measured = λ e. g.measured (sym f ∙ e);
  observed = s ∙ g.observed;
  calibrated = rw c (keeps p.calibration_set_id g.calibrated);
}

same_sets : (a b : Archive) → b.calibration_sets ≡ a.calibration_sets → Approves a b
unfolding Approves set_of get_calibration_set
same_sets a b same none h = h
same_sets a b same (some id) h = rw same h

-- The products do not change.
resound : (a b : Archive) → Approves a b → b.products ≡ a.products → IsSound a → IsSound b
unfolding IsSound
resound a b keeps same sound =
    subst
      (All
        (λ (p : Product). p.publication_status ≡ PublicationStatus.published → IsPublishable b p))
      (sym same)
      (All-map _ _ (λ p g e. regate a b p p keeps (refl, refl, refl, refl) (g e)) a.products sound)

is_l3-eq : (l : ProductLevel) → is_l3 l ≡ true → l ≡ ProductLevel.l3
unfolding is_l3
is_l3-eq ProductLevel.l3 h = refl
is_l3-eq _ h = cc

observed_eq : (b : Bool) (o : Option Bool) → (b || or_true o) ≡ false → o ≡ some false
unfolding or_true
observed_eq b (some false) h = refl
observed_eq true _ h = cc
observed_eq false (some true) h = cc
observed_eq false none h = cc

-- The tests of the gate, read back from a request that passed.
check_passed :
    (r : PublicationRequest) (p : Product) (a : Archive)
    → check_action r p a ≡ ok PublicationStatus.published
    → (is_simulation_only p.qc_flag || or_true p.simulation_only) ≡ false
    → IsPublishable a p
unfolding check_action check_publish is_fail is_simulation_only or_true
check_passed r p a h real = record {
  level = is_l3-eq p.level (ground arith);
  passed = λ q. ground arith;
  measured = λ q. ground arith;
  observed = observed_eq _ p.simulation_only real;
  calibrated = ground arith;
}

module _ (digest : ℕ → PublicationAction → Option (List ℕ) → ℕ) where
  -- A request that is answered returns a product that was known, or has written the row that it read.
  data Answer (r : PublicationRequest) (now : ℕ) (a : Archive) (x : ℕ × Archive) : Type 0 where
    known : x.1 ≡ a → Answer r now a x
    wrote :
        (p : Product) (st : PublicationStatus)
        → get_product r.product_id a ≡ some p
        → (is_simulation_only p.qc_flag || or_true p.simulation_only) ≡ false
        → check_action r p a ≡ ok st
        → x ≡ (
          p.id,
          bind_idempotent_resource r.subject r.key
              (digest_of digest r)
              p.id
              (write_publication r now st a),
        )
        → Answer r now a x

  -- The product that was found passed the checks, and its row is written.
  pub acted_on :
      (r : PublicationRequest) (now : ℕ) (a : Archive) (p : Product) {x : ℕ × Archive}
      → act_on_product digest r now a (some p) ≡ ok x
      → ((is_simulation_only p.qc_flag || or_true p.simulation_only) ≡ false)
        × (st : PublicationStatus) × (check_action r p a ≡ ok st)
        × (x ≡ (
          p.id,
          bind_idempotent_resource r.subject r.key
              (digest_of digest r)
              p.id
              (write_publication r now st a),
        ))
  unfolding act_on_product
  acted_on r now a p h =
      let (_, real, h1) = first_line-ok (refuse_if _ _) _ h in
      let (st, checked, h2) = first_line-ok (check_action r p a) _ h1 in
      (refuse_if-ok _ _ real, st, checked, sym (ok_injective h2))

  acted :
      (r : PublicationRequest) (now : ℕ) (a : Archive) (o : Option Product) {x : ℕ × Archive}
      → get_product r.product_id a ≡ o
      → act_on_product digest r now a o ≡ ok x
      → Answer r now a x
  unfolding act_on_product
  acted r now a none found h = cc
  acted r now a (some p) found h =
      let (real, st, checked, p') = acted_on r now a p h in wrote p st found real checked p'

  looked_up :
      (a : Archive) (id : ℕ) (o : Option Product) {x : ℕ × Archive}
      → recorded_product digest a id o ≡ ok x
      → x.1 ≡ a
  unfolding recorded_product
  looked_up a id none h = cc
  looked_up a id (some p) h = ap (λ (y : ℕ × Archive). y.1) (sym (ok_injective h))

  answered :
      (r : PublicationRequest) (now : ℕ) (a : Archive) (o : Option IdempotencyRecord)
      {x : ℕ × Archive}
      → answer_or_act digest r now a o ≡ ok x
      → Answer r now a x
  unfolding answer_or_act
  answered r now a none h = acted r now a _ refl h
  answered r now a (some k) h = known (looked_up a k.resource_id _ h)

  product_action-Answer :
      (r : PublicationRequest) (now : ℕ) (a : Archive) {x : ℕ × Archive}
      → product_action digest r now a ≡ ok x
      → Answer r now a x
  unfolding product_action
  product_action-Answer r now a h =
      let (_, _, h1) = first_line-ok (require_roles _ _) _ h in
      let (o, _, h2) = first_line-ok (find_idempotent_resource _ _ _ a) _ h1 in
      answered r now a o h2

  published_IsSound :
      (r : PublicationRequest) (now : ℕ) (a : Archive) (p : Product) (st : PublicationStatus)
      → get_product r.product_id a ≡ some p
      → (is_simulation_only p.qc_flag || or_true p.simulation_only) ≡ false
      → check_action r p a ≡ ok st
      → IsSound a
      → IsSound (write_publication r now st a)
  unfolding IsSound write_publication get_product publication_row
  published_IsSound r now a p st found real checked sound =
      All-update_first _ (λ x. x.id == r.product_id) (publication_row r now st) p a.products found
        (λ e.
          regate a (write_publication r now st a) p (publication_row r now st p)
            (same_sets a (write_publication r now st a) refl) (refl, refl, refl, refl)
            (check_passed r p a (subst (λ x. check_action r p a ≡ ok x) e checked) real))
        (All-map _ _
          (λ q g e.
            regate a (write_publication r now st a) q q
              (same_sets a (write_publication r now st a) refl) (refl, refl, refl, refl) (g e))
          a.products sound)

  -- If every published product is one that the gate lets through (L3, neither FAIL nor
  -- simulation-only, with an approved calibration set), that is so after any request that is
  -- answered.
  pub product_action-IsSound :
      (r : PublicationRequest) (now id : ℕ) (a e : Archive)
      → IsSound a
      → product_action digest r now a ≡ ok (id, e)
      → IsSound e
  unfolding IsSound bind_idempotent_resource
  product_action-IsSound r now id a e sound h = by_answer (product_action-Answer r now a h)
    where
      by_answer : Answer r now a (id, e) → IsSound e
      by_answer (known p) = subst IsSound (sym p) sound
      by_answer (wrote p st found real checked eq) =
          subst IsSound (ap (λ (y : ℕ × Archive). y.1) (sym eq)) (
            resound (write_publication r now st a) _
              (same_sets (write_publication r now st a) _ refl) refl
              (published_IsSound r now a p st found real checked sound))
