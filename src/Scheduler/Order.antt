-- ===== src/Scheduler/Order.antt =====
-- The events stand by their numbers, each above those before it.
use most_sprite.Prelude.{
  ℕ, suc, ◌+◌, ◌≤◌, ◌≡◌, arith, Bool, Bool-cases, subst, inl, inr, some, List, [], ◌∷◌, ◌++◌,
  find_if, update_first,
}
use most_sprite.Scheduler.{OutboxEvent}

-- The numbers rise from the first to the last and stay below `last`.
unfoldable pub IsRising : ℕ → List OutboxEvent → ℕ → Type 0
IsRising first [] last = first ≤ last
IsRising first (e ∷ es) last = (first ≤ e.sequence_no) × IsRising (suc e.sequence_no) es last

-- A new row goes to the end.
pub IsRising-append :
    (first : ℕ) (es : List OutboxEvent) (e : OutboxEvent) (last : ℕ)
    → e.sequence_no ≡ last
    → IsRising first es last
    → IsRising first (es ++ e ∷ []) (last + 1)
unfolding IsRising
IsRising-append first [] e last same rising = (omega arith, omega arith)
IsRising-append first (x ∷ es) e last same rising =
    (rising.0, IsRising-append (suc x.sequence_no) es e last same rising.1)

pub IsRising-update_first :
    (test : OutboxEvent → Bool) (f : OutboxEvent → OutboxEvent)
    → ((e : OutboxEvent) → (f e).sequence_no ≡ e.sequence_no)
    → (first : ℕ) (es : List OutboxEvent) (last : ℕ) → IsRising first es last
    → IsRising first (update_first test f es) last
unfolding IsRising update_first
IsRising-update_first test f same first [] last rising = rising
IsRising-update_first test f same first (x ∷ es) last rising = elim (Bool-cases (test x)) [
  | inl hit ↦ rw (hit, same x) rising
  | inr miss ↦
      rw miss (rising.0, IsRising-update_first test f same (suc x.sequence_no) es last rising.1)
]

-- An event that a search finds is not below the first number.
pub IsRising-find_if :
    (test : OutboxEvent → Bool) (first : ℕ) (es : List OutboxEvent) (last : ℕ) (e : OutboxEvent)
    → IsRising first es last
    → find_if test es ≡ some e
    → first ≤ e.sequence_no
unfolding IsRising find_if
IsRising-find_if test first [] last e rising found = cc
IsRising-find_if test first (x ∷ es) last e rising found = elim (Bool-cases (test x)) [
  | inl hit ↦
      let here = rw hit at found in
      let same : x ≡ e = cc in subst (λ y. first ≤ y.sequence_no) same rising.0
  | inr miss ↦
      let there = rw miss at found in
      let later = IsRising-find_if test (suc x.sequence_no) es last e rising.1 there in omega arith
]
