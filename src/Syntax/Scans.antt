-- ===== src/Syntax/Scans.antt =====
-- The loops of read.c over a symbol, a string and a number, on what interp.c writes.
use brianscheme.Base.{
  ℕ, ◌+◌, ◌-◌, ◌<◌, ◌^◌, ◌≡◌, refl, sym, ◌∙◌, ap, inl, inr, ◌⊎◌, true, false, ◌||◌, List, [], ◌∷◌,
  ◌++◌, arith, ◌==◌, ltb, lt→ltb, Bool-cases, ==→eq, length, reverse_onto,
}
use brianscheme.Read.{
  is_symbol_char, is_initial, is_delimiter, isdigit, isspace, isalpha, scan_symbol, scan_string,
  scan_number, scanned, points, eat_whitespace,
}
use brianscheme.Read.Datum.{c_string}
use brianscheme.Print.{escape, decimal, print_long}
use brianscheme.Syntax.{SymbolChars, NoZero}
use brianscheme.Syntax.Numbers.{Digits, decimal-Digits, decimal-head, length-decimal}

-- A delimiter is part of no symbol and of no number.
pub delimiter_apart :
    (d : ℕ)
    → is_delimiter d ≡ true
    → (is_symbol_char d ≡ false)
      × (isdigit d ≡ false)
      × ((d == b'-') ≡ false)
      × ((d == b'.') ≡ false)
unfolding is_delimiter is_symbol_char isdigit isspace
delimiter_apart d h = ground arith

pub scan_symbol_lem :
    (t : List ℕ) (i : ℕ) (acc : List ℕ) (d : ℕ) (ds : List ℕ)
    → SymbolChars t
    → i + length t < 1000
    → is_delimiter d ≡ true
    → scan_symbol i acc (t ++ d ∷ ds) ≡ scanned (reverse_onto t acc) (d ∷ ds)
unfolding scan_symbol
scan_symbol_lem [] i acc d ds h lt e = rw ((delimiter_apart d e).0, e)
scan_symbol_lem (c ∷ t) i acc d ds h lt e =
    rw (h.0, lt→ltb i 999 (omega arith))
      (scan_symbol_lem t (i + 1) (c ∷ acc) d ds h.1 (omega arith) e)

pub scan_string_lem :
    (t : List ℕ) (i : ℕ) (acc rest : List ℕ)
    → i + length t < 1000
    → scan_string false i acc (escape t ++ 34 ∷ rest) ≡ scanned (reverse_onto t acc) rest
unfolding scan_string escape
scan_string_lem [] i acc rest lt = refl
scan_string_lem (c ∷ t) i acc rest lt =
    let room = lt→ltb i 999 (omega arith) in
    let ih = scan_string_lem t (i + 1) (c ∷ acc) rest (omega arith) in
    let as_byte : (b : ℕ)
        → b ≡ c
        → scan_string false (i + 1) (b ∷ acc) (escape t ++ 34 ∷ rest)
          ≡ scanned (reverse_onto t (c ∷ acc)) rest =
      λ b q. ap (λ (x : ℕ). scan_string false (i + 1) (x ∷ acc) (escape t ++ 34 ∷ rest)) q ∙ ih in
    elim (Bool-cases (c == 10)) [
      | inl e ↦ rw (e, room) (as_byte 10 (sym (==→eq c 10 e)))
      | inr e ↦ elim (Bool-cases (c == 92)) [
        | inl f ↦ rw (e, f, room) (as_byte 92 (sym (==→eq c 92 f)))
        | inr f ↦ elim (Bool-cases (c == 34)) [
          | inl g ↦ rw (e, f, g, room) (as_byte 34 (sym (==→eq c 34 g)))
          | inr g ↦ rw (e, f, g) (rw (g, f, room) ih)
        ]
      ]
    ]

pub c_string_lem : (t : List ℕ) → NoZero t → c_string t ≡ t
unfolding c_string
c_string_lem [] h = refl
c_string_lem (c ∷ t) h = rw h.0 (ap (λ (xs : List ℕ). c ∷ xs) (c_string_lem t h.1))

abbrev NumberChars : List ℕ → Type 0
NumberChars [] = Unit
NumberChars (c ∷ cs) = ((c == b'-' || isdigit c) ≡ true) × NumberChars cs

number_apart :
    (c : ℕ)
    → (c == b'-' || isdigit c) ≡ true
    → ((c == b'-' || c == b'.' || isdigit c) ≡ true) × ((c == b'.') ≡ false)
unfolding isdigit
number_apart c h = ground arith

scan_number_chars :
    (t : List ℕ) (i : ℕ) (acc : List ℕ) (d : ℕ) (ds : List ℕ)
    → NumberChars t
    → i + length t < 127
    → is_delimiter d ≡ true
    → scan_number i acc (t ++ d ∷ ds) ≡ scanned (reverse_onto t acc) (d ∷ ds)
unfolding scan_number
scan_number_chars [] i acc d ds h lt e = let (_, a, b, p) = delimiter_apart d e in rw (a, b, p, e)
scan_number_chars (c ∷ t) i acc d ds h lt e =
    let more : (i == 127) ≡ false = ground arith in
    rw ((number_apart c h.0).0, more)
      (scan_number_chars t (i + 1) (c ∷ acc) d ds h.1 (omega arith) e)

Digits-NumberChars : (t : List ℕ) → Digits t → NumberChars t
Digits-NumberChars [] h = tt
Digits-NumberChars (c ∷ t) h = (ground (arith, h.0), Digits-NumberChars t h.1)

print_long-NumberChars : (n : ℕ) → NumberChars (print_long n) × (length (print_long n) < 127)
unfolding print_long
print_long-NumberChars n = elim (Bool-cases (ltb n (2 ^ 63))) [
  | inl e ↦
      rw e (
        Digits-NumberChars (decimal 20 n) (decimal-Digits 20 n),
        omega (arith, length-decimal 20 n),
      )
  | inr e ↦ rw e (
    (refl, Digits-NumberChars (decimal 20 (2 ^ 64 - n)) (decimal-Digits 20 (2 ^ 64 - n))),
    omega (arith, length-decimal 20 (2 ^ 64 - n)),
  )
]

pub scan_number_lem :
    (n d : ℕ) (ds : List ℕ)
    → is_delimiter d ≡ true
    → scan_number 0 [] (print_long n ++ d ∷ ds) ≡ scanned (reverse_onto (print_long n) []) (d ∷ ds)
scan_number_lem n d ds e =
    let (chars, short) = print_long-NumberChars n in
    scan_number_chars (print_long n) 0 [] d ds chars (omega arith) e

no_points : (t : List ℕ) → NumberChars t → points t ≡ 0
unfolding points
no_points [] h = refl
no_points (c ∷ t) h = rw (number_apart c h.0).1 (no_points t h.1)

pub points-print_long : (n : ℕ) → points (print_long n) ≡ 0
points-print_long n = no_points (print_long n) (print_long-NumberChars n).0

-- A byte that starts an object in a list: no white space, and none of `;`, `)` and `.`.
abbrev pub IsStart : ℕ → Type 0
IsStart c =
    (isspace c ≡ false) × ((c == b';') ≡ false) × ((c == b')') ≡ false) × ((c == b'.') ≡ false)

pub eat_whitespace-start : (c : ℕ) (cs : List ℕ) → IsStart c → eat_whitespace (c ∷ cs) ≡ c ∷ cs
unfolding eat_whitespace
eat_whitespace-start c cs h = rw (h.0, h.1)

-- What the reader tests of the first byte of a symbol.
pub initial_apart :
    (c : ℕ)
    → is_initial c ≡ true
    → (c == b'.') ≡ false
    → IsStart c × ((c == b'#') ≡ false) × (isdigit c ≡ false) × ((c == b'-') ≡ false)
unfolding is_initial isalpha isspace isdigit
initial_apart c h p = ground arith

-- A number starts with a digit, or with a minus and a digit.
digit-IsStart : (c : ℕ) → isdigit c ≡ true → IsStart c × ((c == b'#') ≡ false)
unfolding isdigit isspace
digit-IsStart c h = ground arith

decimal-start : (n : ℕ) → (c : ℕ) × (cs : List ℕ) × (decimal 20 n ≡ c ∷ cs) × (isdigit c ≡ true)
decimal-start n =
    let (c, cs, q) = decimal-head 19 n in
    let digits = rw q at (decimal-Digits 20 n) in (c, cs, q, digits.0)

minus-IsStart : IsStart b'-'
unfolding isspace
minus-IsStart = (refl, refl, refl, refl)

pub print_long-IsStart :
    (n : ℕ)
    → (c : ℕ) × (cs : List ℕ) × (print_long n ≡ c ∷ cs)
      × IsStart c
      × ((c == b'#') ≡ false)
      × ((isdigit c ≡ true)
          ⊎ ((c == b'-') ≡ true) × ((d : ℕ) × (ds : List ℕ) × (cs ≡ d ∷ ds) × (isdigit d ≡ true)))
unfolding print_long
print_long-IsStart n = elim (Bool-cases (ltb n (2 ^ 63))) [
  | inl e ↦
      let (c, cs, q, d) = decimal-start n in
      let (start, hash) = digit-IsStart c d in (c, cs, rw e q, start, hash, inl d)
  | inr e ↦
      let (c, cs, q, d) = decimal-start (2 ^ 64 - n) in
      (b'-', decimal 20 (2 ^ 64 - n), rw e, minus-IsStart, refl, inr (refl, (c, cs, q, d)))
]
