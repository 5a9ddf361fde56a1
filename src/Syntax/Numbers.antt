-- ===== src/Syntax/Numbers.antt =====
-- The digits that "%ld" writes, and atol on them.
use brianscheme.Base.{
  Bool, ℕ, zero, suc, ◌+◌, ◌-◌, ◌*◌, ◌/◌, ◌%◌, ◌^◌, ◌≤◌, ◌<◌, ◌≡◌, refl, ◌∙◌, inl, inr, true, false,
  List, [], ◌∷◌, ◌++◌, arith, ◌==◌, ltb, if◌then◌else◌, ltb→lt, Bool-cases, length, length-append,
}
use brianscheme.Read.{isdigit, isspace, digits_value, atol, signed, drop_spaces, clamp}
use brianscheme.Print.{decimal, print_long}

abbrev pub Digits : List ℕ → Type 0
Digits [] = Unit
Digits (c ∷ cs) = (isdigit c ≡ true) × Digits cs

abbrev pub pow10 : ℕ → ℕ
pow10 zero = 1
pow10 (suc f) = 10 * pow10 f

Digits-snoc : (cs : List ℕ) (c : ℕ) → Digits cs → isdigit c ≡ true → Digits (cs ++ c ∷ [])
Digits-snoc [] c h k = (k, tt)
Digits-snoc (d ∷ cs) c h k = (h.0, Digits-snoc cs c h.1 k)

digits_value-snoc :
    (cs : List ℕ) (c acc : ℕ)
    → Digits cs
    → isdigit c ≡ true
    → digits_value acc (cs ++ c ∷ []) ≡ digits_value acc cs * 10 + (c - b'0')
unfolding digits_value
digits_value-snoc [] c acc h k = rw k
digits_value-snoc (d ∷ cs) c acc h k = rw h.0 (digits_value-snoc cs c (acc * 10 + (d - b'0')) h.1 k)

digit_char : (k : ℕ) → k < 10 → isdigit (b'0' + k) ≡ true
unfolding isdigit
digit_char k h = ground arith

pub decimal-Digits : (f n : ℕ) → Digits (decimal f n)
unfolding decimal
decimal-Digits zero n = tt
decimal-Digits (suc f) n = elim (Bool-cases (ltb n 10)) [
  | inl e ↦ rw e (digit_char n (ltb→lt n 10 e), tt)
  | inr e ↦ rw e (
      Digits-snoc (decimal f (n / 10)) (b'0' + n % 10) (decimal-Digits f (n / 10))
        (digit_char (n % 10) (omega arith)))
]

digits_value-nil : digits_value 0 [] ≡ 0
unfolding digits_value
digits_value-nil = refl

digits_value-one : (n : ℕ) → n < 10 → digits_value 0 ((b'0' + n) ∷ []) ≡ n
unfolding digits_value
digits_value-one n h = rw (digit_char n h) (omega arith)

decimal-value : (f n : ℕ) → n < pow10 f → digits_value 0 (decimal f n) ≡ n
unfolding decimal
decimal-value zero n h = digits_value-nil ∙ omega arith
decimal-value (suc f) n h = elim (Bool-cases (ltb n 10)) [
  | inl e ↦ rw e (digits_value-one n (ltb→lt n 10 e))
  | inr e ↦
      rw
        (
          e,
          digits_value-snoc (decimal f (n / 10)) (b'0' + n % 10) 0 (decimal-Digits f (n / 10))
              (digit_char (n % 10) (omega arith)),
          decimal-value f (n / 10) (omega arith),
        )
        (omega arith)
]

pub length-decimal : (f n : ℕ) → length (decimal f n) ≤ f
unfolding decimal
length-decimal zero n = omega arith
length-decimal (suc f) n = elim (Bool-cases (ltb n 10)) [
  | inl e ↦ rw e (omega arith)
  | inr e ↦ rw e (
      omega (
        arith,
        length-decimal f (n / 10),
        length-append (decimal f (n / 10)) ((b'0' + n % 10) ∷ []),
      ))
]

-- There is a first digit.
pub decimal-head : (f n : ℕ) → (c : ℕ) × (cs : List ℕ) × (decimal (suc f) n ≡ c ∷ cs)
unfolding decimal
decimal-head zero n = elim (Bool-cases (ltb n 10)) [
  | inl e ↦ (b'0' + n, [], rw e)
  | inr e ↦ (b'0' + n % 10, [], rw e)
]
decimal-head (suc f) n = elim (Bool-cases (ltb n 10)) [
  | inl e ↦ (b'0' + n, [], rw e)
  | inr e ↦ let (c, cs, q) = decimal-head f (n / 10) in (c, cs ++ (b'0' + n % 10) ∷ [], rw (e, q))
]

digit_apart :
    (c : ℕ) → isdigit c ≡ true → (isspace c ≡ false) × ((c == b'-') ≡ false) × ((c == b'+') ≡ false)
unfolding isdigit isspace
digit_apart c h = ground arith

atol-Digits :
    (negative : Bool) (ds : List ℕ) (c : ℕ) (cs : List ℕ)
    → ds ≡ c ∷ cs
    → Digits ds
    → atol (if negative then b'-' ∷ ds else ds) ≡ clamp negative (digits_value 0 ds)
unfolding atol drop_spaces signed isspace
atol-Digits true ds c cs e h = refl
atol-Digits false ds c cs e h =
    let digits = rw e at h in let (a, b, d) = digit_apart c digits.0 in rw (e, a, b, d)

-- atol of what "%ld" writes for a `long` is that `long`.
pub atol-print_long : (n : ℕ) → n < 2 ^ 64 → atol (print_long n) ≡ n
unfolding print_long
atol-print_long n h = elim (Bool-cases (ltb n (2 ^ 63))) [
  | inl e ↦
      let (c, cs, q) = decimal-head 19 n in
      rw e (
        atol-Digits false (decimal 20 n) c cs q (decimal-Digits 20 n)
        ∙ rw (decimal-value 20 n (omega (arith, ltb→lt n (2 ^ 63) e)), e))
  | inr e ↦
      let (c, cs, q) = decimal-head 19 (2 ^ 64 - n) in
      rw e (
        atol-Digits true (decimal 20 (2 ^ 64 - n)) c cs q (decimal-Digits 20 (2 ^ 64 - n))
        ∙ (let m =
              decimal-value 20 (2 ^ 64 - n) (let big : 2 ^ 63 ≤ n = ground arith in omega arith) in
            ground arith))
]
