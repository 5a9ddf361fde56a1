-- ===== src/Read/Bounds.antt =====
-- read.c: what the loops over a symbol, a string and a number leave in their buffers.
use brianscheme.Base.{
  ℕ, ◌+◌, ◌<◌, ◌≡◌, refl, inl, inr, Bool, true, false, ◌||◌, List, [], ◌∷◌, arith, ◌==◌, ltb,
  ltb→lt, Bool-cases, length, reverse_onto,
}
use brianscheme.Read.{
  Scan, scanned, stopped, is_symbol_char, is_delimiter, isdigit, unescape, scan_symbol, scan_string,
  scan_number,
}

-- The buffer of a loop that ended well has room for the byte that ends the text.
abbrev pub IsWithin : ℕ → Scan → Type 0
IsWithin size (scanned text rest) = length text < size
IsWithin size (stopped fault rest) = Unit

-- So it has, and the buffer and what is left make up what there was.
abbrev pub IsTaken : ℕ → List ℕ → Scan → Type 0
IsTaken size whole (scanned text rest) = (length text < size) × (reverse_onto text rest ≡ whole)
IsTaken size whole (stopped fault rest) = Unit

-- The loop over a symbol, on a buffer of `i` bytes, fewer than 1000, leaves fewer than 1000 in the
-- buffer if it ends well, and the buffer and the rest of the input make up what they did.
pub scan_symbol-IsTaken :
    (inp text : List ℕ) (i : ℕ)
    → length text ≡ i
    → i < 1000
    → IsTaken 1000 (reverse_onto text inp) (scan_symbol i text inp)
unfolding scan_symbol
scan_symbol-IsTaken [] text i e h = tt
scan_symbol-IsTaken (c ∷ cs) text i e h = elim (Bool-cases (is_symbol_char c)) [
  | inl m ↦ elim (Bool-cases (ltb i 999)) [
    | inl lt ↦
        let room = ltb→lt i 999 lt in
        rw (m, lt) (scan_symbol-IsTaken cs (c ∷ text) (i + 1) (omega arith) (omega arith))
    | inr ge ↦ rw (m, ge) tt
  ]
  | inr m ↦ elim (Bool-cases (is_delimiter c)) [
    | inl d ↦ rw (m, d) (omega arith, refl)
    | inr d ↦ rw (m, d) tt
  ]
]

-- The loop over a string, on a buffer of `i` bytes, fewer than 1000, leaves fewer than 1000 in the
-- buffer if it ends well.
pub scan_string-IsWithin :
    (inp text : List ℕ) (escaped : Bool) (i : ℕ)
    → length text ≡ i
    → i < 1000
    → IsWithin 1000 (scan_string escaped i text inp)
unfolding scan_string
scan_string-IsWithin [] text escaped i e h = tt
scan_string-IsWithin (c ∷ cs) text true i e h = elim (Bool-cases (ltb i 999)) [
  | inl lt ↦
      let room = ltb→lt i 999 lt in
      rw lt (scan_string-IsWithin cs (unescape c ∷ text) false (i + 1) (omega arith) (omega arith))
  | inr ge ↦ rw ge tt
]
scan_string-IsWithin (c ∷ cs) text false i e h = elim (Bool-cases (c == 34)) [
  | inl q ↦ rw q (omega arith)
  | inr q ↦ elim (Bool-cases (c == 92)) [
    | inl b ↦ rw (q, b) (scan_string-IsWithin cs text true i e h)
    | inr b ↦ elim (Bool-cases (ltb i 999)) [
      | inl lt ↦
          let room = ltb→lt i 999 lt in
          rw (q, b, lt)
            (scan_string-IsWithin cs (c ∷ text) false (i + 1) (omega arith) (omega arith))
      | inr ge ↦ rw (q, b, ge) tt
    ]
  ]
]

-- The loop over a number leaves fewer than 128 bytes in its buffer if it ends well.
pub scan_number-IsWithin :
    (inp text : List ℕ) (i : ℕ) → length text ≡ i → i < 128 → IsWithin 128 (scan_number i text inp)
unfolding scan_number
scan_number-IsWithin [] text i e h = omega arith
scan_number-IsWithin (c ∷ cs) text i e h = elim (Bool-cases (c == b'-' || c == b'.' || isdigit c)) [
  | inl m ↦ elim (Bool-cases (i == 127)) [
    | inl full ↦ rw (m, full) tt
    | inr free ↦
        rw (m, free) (scan_number-IsWithin cs (c ∷ text) (i + 1) (omega arith) (ground arith))
  ]
  | inr m ↦ elim (Bool-cases (is_delimiter c)) [
    | inl d ↦ rw (m, d) (omega arith)
    | inr d ↦ elim (Bool-cases (c == 255)) [
      | inl last ↦ rw (m, d, last) (omega arith)
      | inr other ↦ rw (m, d, other) tt
    ]
  ]
]
