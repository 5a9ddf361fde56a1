-- ===== src/Base/Int.antt =====
-- Signed integers over the native numbers, as far as signed machine words need them.
use brianscheme.Base.{ℕ, suc, ◌+◌, ◌-◌, ◌*◌, ◌^◌, ◌≡◌, if◌then◌else◌, arith, leb, ltb}

-- `negsuc n` is -(n + 1).
pub data ℤ : Type 0 where
  pos : ℕ → ℤ
  negsuc : ℕ → ℤ

abbrev pub pos_part : ℤ → ℕ
pos_part (pos n) = n
pos_part (negsuc n) = 0

abbrev pub neg_part : ℤ → ℕ
neg_part (pos n) = 0
neg_part (negsuc n) = suc n

abbrev pub sub_ℕ : ℕ → ℕ → ℤ
sub_ℕ a b = if leb b a then pos (a - b) else negsuc (b - a - 1)

infixl 65 ◌+ℤ◌
infixl 70 ◌*ℤ◌
unfoldable pub ◌+ℤ◌ : ℤ → ℤ → ℤ
a +ℤ b = sub_ℕ (pos_part a + pos_part b) (neg_part a + neg_part b)

unfoldable pub ◌*ℤ◌ : ℤ → ℤ → ℤ
a *ℤ b =
    sub_ℕ (pos_part a * pos_part b + neg_part a * neg_part b)
      (pos_part a * neg_part b + neg_part a * pos_part b)

-- |a|.
abbrev pub abs : ℤ → ℕ
abs a = pos_part a + neg_part a

-- The number of a pattern of 64 bits.
abbrev pub signed : ℕ → ℤ
signed a = if ltb a (2 ^ 63) then pos a else negsuc (2 ^ 64 - 1 - a)

+ℤ_parts :
    (a b : ℤ)
    → pos_part (a +ℤ b) + neg_part a + neg_part b ≡ neg_part (a +ℤ b) + pos_part a + pos_part b
unfolding ◌+ℤ◌
+ℤ_parts a b = ground arith

sub_ℕ_parts : (a b : ℕ) → pos_part (sub_ℕ a b) + b ≡ neg_part (sub_ℕ a b) + a
sub_ℕ_parts a b = ground arith

*ℤ_parts :
    (a b : ℤ)
    → pos_part (a *ℤ b) + (pos_part a * neg_part b + neg_part a * pos_part b)
      ≡ neg_part (a *ℤ b) + (pos_part a * pos_part b + neg_part a * neg_part b)
unfolding ◌*ℤ◌
*ℤ_parts a b = sub_ℕ_parts _ _

eq_of_parts : (a b : ℤ) → pos_part a + neg_part b ≡ pos_part b + neg_part a → a ≡ b
eq_of_parts a b h = ground arith

-- An equation of a product and a sum, by parts.
pub equation_of_parts :
    (x q b r : ℤ)
    → pos_part x + (pos_part q * neg_part b + neg_part q * pos_part b) + neg_part r
      ≡ neg_part x + (pos_part q * pos_part b + neg_part q * neg_part b) + pos_part r
    → x ≡ q *ℤ b +ℤ r
equation_of_parts x q b r h =
    eq_of_parts x (q *ℤ b +ℤ r) (omega (arith, *ℤ_parts q b, +ℤ_parts (q *ℤ b) r, h))
