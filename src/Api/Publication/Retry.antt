-- ===== src/Api/Publication/Retry.antt =====
-- The idempotency of `product_action`: what is recorded under a key, and a second request with the
-- key and another body.
use most_sprite.Prelude.{
  ap, ℕ, ◌≡◌, ◌≢◌, refl, sym, subst, arith, true, false, Option, none, some, List, [], ◌∷◌, ◌==◌,
  ==_iff, find_if, find_if_passes, update_first, find_if-update_first,
}
use most_sprite.Domain.{PublicationStatus, Role}
use most_sprite.Domain.Errors.{ok, raise, ok_injective, first_line-ok, Code}
use most_sprite.Api.Publication.{
  Product, Archive, IdempotencyRecord, PublicationAction, PublicationRequest, act_on_product,
  recorded_product, answer_or_act, product_action, write_publication, bind_idempotent_resource,
  publication_row, get_product, find_idempotent_resource, find_record, checked_record,
  require_roles, digest_of, is_publication,
}
use most_sprite.Api.Publication.Gate.{acted_on}

row_found :
    (k : ℕ) (f : Product → Product)
    → ((p : Product) → (f p).id ≡ p.id)
    → (p : Product) (ps : List Product) → find_if (λ x. x.id == k) ps ≡ some p
    → find_if (λ x. x.id == k) (update_first (λ x. x.id == k) f ps) ≡ some (f p)
row_found k f keeps p ps h =
    find_if-update_first (λ x. x.id == k) f (λ x. ap (λ i. i == k) (keeps x)) p ps h

module _ (digest : ℕ → PublicationAction → Option (List ℕ) → ℕ) (r : PublicationRequest) where
  -- What the archive holds of a request that was answered with a product.
  pub record IsBound (id : ℕ) (e : Archive) : Type 0 where
    pub record_of : IdempotencyRecord
    pub product : Product
    pub is_recorded : find_record r.subject r.key e ≡ some record_of
    pub is_same_request : record_of.request_hash ≡ digest_of digest r
    pub is_there : get_product record_of.resource_id e ≡ some product
    pub is_returned : product.id ≡ id

  known-IsBound :
      (a : Archive) (k : IdempotencyRecord) (o : Option Product) {id : ℕ} {e : Archive}
      → find_record r.subject r.key a ≡ some k
      → k.request_hash ≡ digest_of digest r
      → get_product k.resource_id a ≡ o
      → recorded_product digest a k.resource_id o ≡ ok (id, e)
      → IsBound id e
  unfolding recorded_product
  known-IsBound a k none found same there h = cc
  known-IsBound a k (some p) {id} {e} found same there h =
      let q : (p.id, a) ≡ (id, e) = ok_injective h in
      subst (λ (x : ℕ × Archive). IsBound x.0 x.1) q
        (record {
          record_of = k;
          product = p;
          is_recorded = found;
          is_same_request = same;
          is_there = there;
          is_returned = refl;
        })

  new_record : ℕ → IdempotencyRecord
  new_record id = record {
    scope = most_sprite.Api.Publication.Scope.product_publication;
    principal_hash = r.subject;
    key_hash = r.key;
    request_hash = digest_of digest r;
    resource_id = id;
  }

  written-IsBound :
      (now : ℕ) (st : PublicationStatus) (a : Archive) (p : Product)
      → get_product r.product_id a ≡ some p
      → IsBound p.id (
          bind_idempotent_resource r.subject r.key
            (digest_of digest r)
            p.id
            (write_publication r now st a))
  unfolding find_record bind_idempotent_resource find_if is_publication new_record get_product
      write_publication publication_row
  written-IsBound now st a p found =
      let same = (==_iff p.id r.product_id).0 (find_if_passes _ a.products found) in
      record {
        record_of = new_record p.id;
        product = publication_row r now st p;
        is_recorded = ground arith;
        is_same_request = refl;
        is_there =
            subst
              (λ k.
                find_if (λ x. x.id == k)
                  (update_first (λ x. x.id == r.product_id) (publication_row r now st) a.products)
                ≡ some (publication_row r now st p))
              (sym same)
              (row_found r.product_id (publication_row r now st) (λ p. refl) p a.products found);
        is_returned = refl;
      }

  checked_same :
      (o : Option IdempotencyRecord) {k : IdempotencyRecord}
      → checked_record (digest_of digest r) o ≡ ok (some k)
      → (o ≡ some k) × (k.request_hash ≡ digest_of digest r)
  unfolding checked_record
  checked_same none h = cc
  checked_same (some j) h = ground arith

  answered-IsBound :
      (now : ℕ) (a : Archive) (o : Option IdempotencyRecord) {id : ℕ} {e : Archive}
      → find_idempotent_resource r.subject r.key (digest_of digest r) a ≡ ok o
      → answer_or_act digest r now a o ≡ ok (id, e)
      → IsBound id e
  unfolding answer_or_act find_idempotent_resource act_on_product
  answered-IsBound now a (some k) found h =
      let (recorded, same) = checked_same _ found in known-IsBound a k _ recorded same refl h
  answered-IsBound now a none {id} {e} found h = by_product (get_product r.product_id a) refl h
    where
      by_product :
          (o : Option Product)
          → get_product r.product_id a ≡ o
          → act_on_product digest r now a o ≡ ok (id, e)
          → IsBound id e
      by_product none there g = cc
      by_product (some p) there g =
          let (_, st, _, q) = acted_on digest r now a p g in
          subst (λ (x : ℕ × Archive). IsBound x.0 x.1) (sym q) (written-IsBound now st a p there)

  pub product_action-IsBound :
      (now : ℕ) (a : Archive) {id : ℕ} {e : Archive}
      → product_action digest r now a ≡ ok (id, e)
      → IsBound id e
  unfolding product_action
  product_action-IsBound now a h =
      let (_, _, h1) = first_line-ok (require_roles _ _) _ h in
      let (o, found, h2) = first_line-ok (find_idempotent_resource _ _ _ a) _ h1 in
      answered-IsBound now a o found h2

  pub is_allowed :
      (now : ℕ) (a : Archive) {x : ℕ × Archive}
      → product_action digest r now a ≡ ok x
      → require_roles (Role.administrator ∷ []) r.role ≡ ok tt
  unfolding product_action
  is_allowed now a h = let (_, fine, _) = first_line-ok (require_roles _ _) _ h in fine

  -- What is bound is answered to a request that the role allows.
  pub bound_again :
      (later id : ℕ) (e : Archive)
      → require_roles (Role.administrator ∷ []) r.role ≡ ok tt
      → IsBound id e
      → product_action digest r later e ≡ ok (id, e)
  unfolding product_action find_idempotent_resource checked_record answer_or_act recorded_product
  bound_again later id e allowed b =
      let hashed : (b.record_of.request_hash == digest_of digest r) ≡ true =
        (==_iff _ _).1 b.is_same_request in
      rw (allowed, b.is_recorded, hashed, b.is_there, b.is_returned) refl

  -- The key of a request that was answered is refused to any other request of its subject, made by an
  -- administrator, that has another digest.
  pub product_action_conflict :
      (r' : PublicationRequest) (now later id : ℕ) (a e : Archive)
      → r'.subject ≡ r.subject
      → r'.key ≡ r.key
      → r'.role ≡ Role.administrator
      → digest_of digest r' ≢ digest_of digest r
      → product_action digest r now a ≡ ok (id, e)
      → product_action digest r' later e ≡ raise Code.idempotency_conflict
  unfolding product_action find_idempotent_resource checked_record require_roles
  product_action_conflict r' now later id a e subject key role differs h =
      let b = product_action-IsBound now a h in
      let other : (b.record_of.request_hash == digest_of digest r') ≡ false = ground arith in
      rw (subject, key, role, b.is_recorded, other) refl
