-- ===== src/Interp/Numbers/Division.antt =====
-- interp.c: what div_fixnum_proc and mod_fixnum_proc give together.
use brianscheme.Base.{
  ℕ, ◌+◌, ◌*◌, ◌/◌, ◌%◌, ◌^◌, ◌≤◌, ◌<◌, ◌≡◌, ◌⊎◌, inl, inr, Bool, true, false, List, some, arith,
  ltb, ◌==◌, ==→eq, Bool-cases,
}
use native.Mathlib.Nat.{mod-add-div', mod-lt, div-le_self, div-lt_self}
use brianscheme.Base.Int.{ℤ, ◌+ℤ◌, ◌*ℤ◌, pos_part, neg_part, abs, signed, equation_of_parts}
use brianscheme.Object.{Ptr, fixnum}
use brianscheme.Store.{Store, make_fixnum}
use brianscheme.Interp.Primitives.{argument}
use brianscheme.Interp.Numbers.{
  is_negative, magnitude, with_sign, traps, quotient, remainder, div_fixnum_proc, mod_fixnum_proc,
}

-- The two parts of an integer.
abbrev HasParts : ℤ → ℕ → ℕ → Type 0
HasParts x p n = (pos_part x ≡ p) × (neg_part x ≡ n)

-- The number of a pattern, by its sign.
signed_parts :
    (a : ℕ)
    → a < 2 ^ 64
    → ((is_negative a ≡ false) × HasParts (signed a) (magnitude a) 0)
      ⊎ ((is_negative a ≡ true) × HasParts (signed a) 0 (magnitude a))
signed_parts a h = elim (Bool-cases (ltb a (2 ^ 63))) [
  | inl e ↦ inl (rw e, (rw e, rw e))
  | inr e ↦ inr (rw e, (rw e, rw e (omega (arith, h))))
]

-- The number of a magnitude with a sign.
plus_parts : (n : ℕ) → n < 2 ^ 63 → HasParts (signed (with_sign false n)) n 0
plus_parts n h = (ground arith, ground arith)

minus_parts : (n : ℕ) → n ≤ 2 ^ 63 → HasParts (signed (with_sign true n)) 0 n
minus_parts n h = (ground arith, ground arith)

with_sign-lt : (negative : Bool) (n : ℕ) → n ≤ 2 ^ 63 → with_sign negative n < 2 ^ 64
with_sign-lt true n h = omega arith
with_sign-lt false n h = omega arith

-- No number is positive and the other negative.
abbrev pub AgreeInSign : ℤ → ℤ → Type 0
AgreeInSign x y = ((neg_part x ≡ 0) × (neg_part y ≡ 0)) ⊎ ((pos_part x ≡ 0) × (pos_part y ≡ 0))

-- q and r are the patterns of the quotient, rounded to zero, and the remainder of two integers.
abbrev pub IsDivision : ℕ → ℕ → ℕ → ℕ → Type 0
IsDivision a b q r =
    (q < 2 ^ 64)
    × (r < 2 ^ 64)
    × (signed a ≡ signed q *ℤ signed b +ℤ signed r)
    × (abs (signed r) < abs (signed b))
    × AgreeInSign (signed a) (signed r)

-- Only the trapping quotient of two negative longs is as large as 2 ^ 63.
quotient-lt :
    (a b : ℕ)
    → a < 2 ^ 64
    → b < 2 ^ 64
    → traps a b ≡ false
    → is_negative b ≡ true
    → magnitude a / magnitude b < 2 ^ 63
quotient-lt a b ha hb ok sb =
    let few : magnitude a / magnitude b ≤ magnitude a = div-le_self (magnitude a) (magnitude b) in
    elim (Bool-cases (magnitude b == 1)) [
      | inl one ↦
          let below : magnitude a < 2 ^ 63 = ground (arith, ok, sb, one) in
          omega (arith, few, below)
      | inr more ↦ elim (Bool-cases (magnitude a == 0)) [
        | inl nothing ↦ omega (arith, few, ==→eq (magnitude a) 0 nothing)
        | inr something ↦
            let positive : 0 < magnitude a = ground (arith, something) in
            let several : 1 < magnitude b = ground (arith, more, ok) in
            let large : magnitude a ≤ 2 ^ 63 = ground arith in
            let less : magnitude a / magnitude b < magnitude a = div-lt_self positive several in
            omega (arith, less, large)
      ]
    ]

division :
    (a b : ℕ)
    → a < 2 ^ 64
    → b < 2 ^ 64
    → traps a b ≡ false
    → IsDivision a b (quotient a b) (remainder a b)
division a b ha hb ok =
    let n = magnitude a / magnitude b in
    let r = magnitude a % magnitude b in
    let divisor : 0 < magnitude b = ground (arith, ok) in
    let whole : r + n * magnitude b ≡ magnitude a = mod-add-div' (magnitude a) (magnitude b) in
    let few : n ≤ magnitude a = div-le_self (magnitude a) (magnitude b) in
    let less : r < magnitude b = mod-lt (magnitude a) divisor in
    let large_b : magnitude b ≤ 2 ^ 63 = ground arith in
    let large : magnitude a ≤ 2 ^ 63 = ground arith in
    let n_word = λ (negative : Bool). with_sign-lt negative n (omega (arith, few, large)) in
    let r_word = λ (negative : Bool). with_sign-lt negative r (omega (arith, less, large_b)) in
    let r_plus = plus_parts r (omega (arith, less, large_b)) in
    let r_minus = minus_parts r (omega (arith, less, large_b)) in
    let n_minus = minus_parts n (omega (arith, few, large)) in
    elim (signed_parts a ha) [
      | inl (sa, at_a) ↦ elim (signed_parts b hb) [
        | inl (sb, at_b) ↦
            let n_plus = plus_parts n (ground (arith, few, sa)) in
            rw (sa, sb)
              (
                n_word false,
                r_word false,
                equation_of_parts _ _ _ _ (
                    rw (at_a.0, at_a.1, at_b.0, at_b.1, n_plus.0, n_plus.1, r_plus.0, r_plus.1)
                      (omega (arith, whole))),
                rw (at_b.0, at_b.1, r_plus.0, r_plus.1) (omega (arith, less)),
                inl (at_a.1, r_plus.1),
              )
        | inr (sb, at_b) ↦
            rw (sa, sb)
              (
                n_word true,
                r_word false,
                equation_of_parts _ _ _ _ (
                    rw (at_a.0, at_a.1, at_b.0, at_b.1, n_minus.0, n_minus.1, r_plus.0, r_plus.1)
                      (omega (arith, whole))),
                rw (at_b.0, at_b.1, r_plus.0, r_plus.1) (omega (arith, less)),
                inl (at_a.1, r_plus.1),
              )
      ]
      | inr (sa, at_a) ↦ elim (signed_parts b hb) [
        | inl (sb, at_b) ↦
            rw (sa, sb)
              (
                n_word true,
                r_word true,
                equation_of_parts _ _ _ _ (
                    rw (at_a.0, at_a.1, at_b.0, at_b.1, n_minus.0, n_minus.1, r_minus.0, r_minus.1)
                      (omega (arith, whole))),
                rw (at_b.0, at_b.1, r_minus.0, r_minus.1) (omega (arith, less)),
                inr (at_a.0, r_minus.0),
              )
        | inr (sb, at_b) ↦
            let n_plus = plus_parts n (quotient-lt a b ha hb ok sb) in
            rw (sa, sb)
              (
                n_word false,
                r_word true,
                equation_of_parts _ _ _ _ (
                    rw (at_a.0, at_a.1, at_b.0, at_b.1, n_plus.0, n_plus.1, r_minus.0, r_minus.1)
                      (omega (arith, whole))),
                rw (at_b.0, at_b.1, r_minus.0, r_minus.1) (omega (arith, less)),
                inr (at_a.0, r_minus.0),
              )
      ]
    ]

-- A call on two longs.
abbrev pub IsLongCall : Store → List Ptr → ℕ → ℕ → ℕ → ℕ → Type 0
IsLongCall s args n top a b =
    (p : Ptr) × (q : Ptr) × (argument 0 args n top ≡ some p)
    × (argument 1 args n top ≡ some q)
    × (s.object p ≡ fixnum a)
    × (s.object q ≡ fixnum b)

-- On two longs, of which the second is not zero and which are not the least one and -1, the results
-- of div_fixnum_proc and mod_fixnum_proc are longs, and as signed integers the quotient and the
-- remainder of the arguments: the dividend is, without any wrapping, the quotient times the divisor
-- plus the remainder, the remainder is less than the divisor in absolute value, and it does not have
-- the opposite sign of the dividend.
pub div_fixnum_proc-mod_fixnum_proc :
    (s : Store) (args : List Ptr) (n top a b : ℕ)
    → IsLongCall s args n top a b
    → a < 2 ^ 64
    → b < 2 ^ 64
    → traps a b ≡ false
    → (q : ℕ) × (r : ℕ) × (div_fixnum_proc s args n top ≡ make_fixnum s q)
      × (mod_fixnum_proc s args n top ≡ make_fixnum s r)
      × IsDivision a b q r
unfolding div_fixnum_proc mod_fixnum_proc
div_fixnum_proc-mod_fixnum_proc s args n top a b (p, q, first, second, at_p, at_q) ha hb ok = (
  quotient a b,
  remainder a b,
  rw (first, second, at_p, at_q, ok),
  rw (first, second, at_p, at_q, ok),
  division a b ha hb ok,
)
