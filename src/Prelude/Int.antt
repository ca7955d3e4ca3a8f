-- ===== src/Prelude/Int.antt =====
-- Signed integers over the native numbers, for the angles of the modulator.
use most_sprite.Prelude.Tests.{leb, if◌then◌else◌}
use Prim.Native.Nat.{ℕ, suc, ◌+◌, ◌-◌, ◌≤◌}
use mathlib.Core.Path.{◌≡◌}
use native.Mathlib.Omega.{arith}

-- `negsuc n` is -(n + 1).
pub data ℤ : Type 0 where
  pos : ℕ → ℤ
  negsuc : ℕ → ℤ

abbrev pub pos_part : ℤ → ℕ
pos_part (pos n) = n
pos_part (negsuc n) = 0

abbrev pub neg_part : ℤ → ℕ
neg_part (pos n) = 0
neg_part (negsuc n) = suc n

-- a - b, as an integer.
abbrev pub sub_ℕ : ℕ → ℕ → ℤ
sub_ℕ a b = if leb b a then pos (a - b) else negsuc (b - a - 1)

infixl 65 ◌+ℤ◌ ◌-ℤ◌
unfoldable pub ◌+ℤ◌ : ℤ → ℤ → ℤ
a +ℤ b = sub_ℕ (pos_part a + pos_part b) (neg_part a + neg_part b)

unfoldable pub ◌-ℤ◌ : ℤ → ℤ → ℤ
a -ℤ b = sub_ℕ (pos_part a + neg_part b) (neg_part a + pos_part b)

-- Python's `abs` of an integer.
unfoldable pub abs : ℤ → ℕ
abs a = pos_part a + neg_part a

-- Moving by `d` and measuring from the start gives back the size of `d`.
pub abs-add-sub : (a d : ℤ) → abs (a +ℤ d -ℤ a) ≡ abs d
unfolding abs ◌+ℤ◌ ◌-ℤ◌
abs-add-sub a d = ground arith

pub abs-sub-sub : (a d : ℤ) → abs (a -ℤ d -ℤ a) ≡ abs d
unfolding abs ◌-ℤ◌
abs-sub-sub a d = ground arith

pub abs-sub_ℕ : (a b n : ℕ) → a ≤ b + n → b ≤ a + n → abs (sub_ℕ a b) ≤ n
unfolding abs
abs-sub_ℕ a b n h k = ground arith
