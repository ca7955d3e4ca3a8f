-- ===== src/Api/Publication/Later.antt =====
-- A publication request that comes again with its key, whatever requests came in between.
use most_sprite.Prelude.{
  ap, ℕ, ◌≡◌, refl, sym, subst, ◌∙◌, ◌&&◌, arith, Bool-cases, inl, inr, Option, none, some,
  Option-cases, List, [], ◌∷◌, ◌==◌, ==_iff, find_if, update_first,
}
use most_sprite.Domain.{PublicationStatus}
use most_sprite.Domain.Errors.{Result, ok, err, Result-cases, ok_injective, first_line-ok}
use most_sprite.Api.Publication.{
  Product, Archive, IdempotencyRecord, PublicationAction, PublicationRequest, act_on_product,
  answer_or_act, recorded_product, product_action, write_publication, bind_idempotent_resource,
  publication_row, get_product, find_idempotent_resource, find_record, checked_record,
  require_roles, digest_of, is_publication,
}
use most_sprite.Api.Publication.Gate.{acted_on}
use most_sprite.Api.Publication.Retry.{IsBound, product_action-IsBound, bound_again, is_allowed}

found_still :
    (id k : ℕ) (f : Product → Product)
    → ((p : Product) → (f p).id ≡ p.id)
    → (ps : List Product) (p : Product) → find_if (λ x. x.id == id) ps ≡ some p
    → (q : Product) × (find_if (λ x. x.id == id) (update_first (λ x. x.id == k) f ps) ≡ some q)
      × (q.id ≡ p.id)
unfolding find_if update_first
found_still id k f same [] p found = cc
found_still id k f same (x ∷ xs) p found = elim (Bool-cases (x.id == k)) [
  | inl hit ↦ elim (Bool-cases (x.id == id)) [
    | inl here ↦
        let at_x = rw here at found in
        let it : x ≡ p = cc in
        (f x, rw (hit, same x, here) refl, same x ∙ ap (λ (y : Product). y.id) it)
    | inr other ↦ (p, rw (hit, same x, other) (rw other at found), refl)
  ]
  | inr miss ↦ elim (Bool-cases (x.id == id)) [
    | inl here ↦
        let at_x = rw here at found in
        let it : x ≡ p = cc in (x, rw (miss, here) refl, ap (λ (y : Product). y.id) it)
    | inr other ↦
        let (q, later, kept) = found_still id k f same xs p (rw other at found) in
        (q, rw (miss, other) later, kept)
  ]
]

-- Another key's record does not hide one.
find_record-bind :
    (subject key resource hash s k : ℕ) (a : Archive) (o : IdempotencyRecord)
    → find_record s k a ≡ none
    → find_record subject key a ≡ some o
    → find_record subject key (bind_idempotent_resource s k hash resource a) ≡ some o
unfolding find_record bind_idempotent_resource find_if is_publication
find_record-bind subject key resource hash s k a o new found =
    elim (Bool-cases ((s == subject) && (k == key))) [
      | inr apart ↦ rw apart found
      | inl same ↦
          let subjects : s ≡ subject = ground (arith, ==_iff s subject) in
          let keys : k ≡ key = ground (arith, ==_iff k key) in
          let lost = rw (subjects, keys) at new in absurd (cc)
    ]

checked_none :
    (digest : ℕ) (o : Option IdempotencyRecord) → checked_record digest o ≡ ok none → o ≡ none
unfolding checked_record
checked_none digest none h = refl
checked_none digest (some k) h = ground arith

module _ (digest : ℕ → PublicationAction → Option (List ℕ) → ℕ) where
  -- The archive after a request: one that raises changes nothing.
  unfoldable pub after : Result (ℕ × Archive) → Archive → Archive
  after (ok x) a = x.1
  after (err e) a = a

  -- Requests of any administrators and others, each at its time.
  unfoldable pub later_actions : List (PublicationRequest × ℕ) → Archive → Archive
  unfolding after
  later_actions [] a = a
  later_actions ((q, now) ∷ qs) a = later_actions qs (after (product_action digest q now a) a)

  module _ (r : PublicationRequest) (id : ℕ) where
    rebound-IsBound :
        (q : PublicationRequest) (now : ℕ) (st : PublicationStatus) (p : Product) (a : Archive)
        → find_record q.subject q.key a ≡ none
        → IsBound digest r id a
        → IsBound digest r id (
            bind_idempotent_resource q.subject q.key
              (digest_of digest q)
              p.id
              (write_publication q now st a))
    unfolding bind_idempotent_resource write_publication get_product publication_row find_record
    rebound-IsBound q now st p a new b =
        let (x, there, kept) =
          found_still b.record_of.resource_id q.product_id (publication_row q now st) (λ y. refl)
            a.products b.product b.is_there in
        record {
          record_of = b.record_of;
          product = x;
          is_recorded =
              find_record-bind r.subject r.key p.id (digest_of digest q) q.subject q.key
                (write_publication q now st a) b.record_of new b.is_recorded;
          is_same_request = b.is_same_request;
          is_there = there;
          is_returned = kept ∙ b.is_returned;
        }

    acted-IsBound :
        (q : PublicationRequest) (now : ℕ) (a : Archive) (o : Option IdempotencyRecord)
        (x : ℕ × Archive)
        → find_idempotent_resource q.subject q.key (digest_of digest q) a ≡ ok o
        → answer_or_act digest q now a o ≡ ok x
        → IsBound digest r id a
        → IsBound digest r id x.1
    unfolding find_idempotent_resource answer_or_act recorded_product act_on_product
    acted-IsBound q now a (some k) x found done b =
        elim (Option-cases (get_product k.resource_id a)) [
          | inl gone ↦ let raised = rw gone at done in absurd (cc)
          | inr (p, there) ↦
              let answered = rw there at done in
              subst (λ (y : ℕ × Archive). IsBound digest r id y.1) (ok_injective answered) b
        ]
    acted-IsBound q now a none x found done b = elim (Option-cases (get_product q.product_id a)) [
      | inl gone ↦ let raised = rw gone at done in absurd (cc)
      | inr (p, there) ↦
          let (_, st, _, same) = acted_on digest q now a p (rw there at done) in
          subst (λ (y : ℕ × Archive). IsBound digest r id y.1) (sym same)
            (rebound-IsBound q now st p a (checked_none _ _ found) b)
    ]

    after-IsBound :
        (q : PublicationRequest) (now : ℕ) (a : Archive)
        → IsBound digest r id a
        → IsBound digest r id (after (product_action digest q now a) a)
    unfolding after product_action
    after-IsBound q now a b = elim (Result-cases (product_action digest q now a)) [
      | inl (e, raised) ↦
          subst (λ (y : Result (ℕ × Archive)). IsBound digest r id (after y a)) (sym raised) b
      | inr (x, done) ↦
          let (_, _, h1) = first_line-ok (require_roles _ _) _ done in
          let (o, found, h2) = first_line-ok (find_idempotent_resource _ _ _ a) _ h1 in
          subst (λ (y : Result (ℕ × Archive)). IsBound digest r id (after y a)) (sym done)
            (acted-IsBound q now a o x found h2 b)
    ]

    later_actions-IsBound :
        (qs : List (PublicationRequest × ℕ)) (a : Archive)
        → IsBound digest r id a
        → IsBound digest r id (later_actions qs a)
    unfolding later_actions
    later_actions-IsBound [] a b = b
    later_actions-IsBound ((q, now) ∷ qs) a b =
        later_actions-IsBound qs (after (product_action digest q now a) a) (after-IsBound q now a b)

  -- A request that was answered is answered with the same product when it comes again, at any time
  -- and after any requests of any clients on any products, and then changes nothing.
  pub product_action_retry :
      (r : PublicationRequest) (now later id : ℕ) (a e : Archive)
      (qs : List (PublicationRequest × ℕ))
      → product_action digest r now a ≡ ok (id, e)
      → product_action digest r later (later_actions qs e) ≡ ok (id, later_actions qs e)
  product_action_retry r now later id a e qs answered =
      bound_again digest r later id (later_actions qs e) (is_allowed digest r now a answered)
        (later_actions-IsBound r id qs e (product_action-IsBound digest r now a answered))
