-- ===== src/Syntax/Atoms.antt =====
-- read.c: lisp_read of the text of a symbol, a string and a number.
use brianscheme.Base.{
  ℕ, suc, ◌≤◌, ◌<◌, ◌^◌, ◌≡◌, ◌⊎◌, refl, ap, ◌∙◌, inl, inr, Bool, Option, true, false, ◌&&◌, ◌||◌,
  some, List, [], ◌∷◌, ◌++◌, arith, ◌==◌, length, reverse_onto, reverse_onto-reverse_onto,
  append-nil,
}
use brianscheme.Object.{Ptr}
use brianscheme.Store.{Store, make_symbol, make_string, make_fixnum}
use brianscheme.Read.{
  is_delimiter, isdigit, isspace, isalpha, is_initial, eat, eat_whitespace, scan_symbol,
  scan_string, scan_number, scanned, points, atol,
}
use brianscheme.Read.Datum.{
  Host, Reading, with_input, lisp_read, datum_body, read_symbol, read_string, read_number,
  string_to_number, peek_digit, c_string,
}
use brianscheme.Print.{print_long, escape}
use brianscheme.Syntax.{Term, sym, str, num, IsPlain, IsHeld, Denotes}
use brianscheme.Syntax.Numbers.{atol-print_long}
use brianscheme.Syntax.Scans.{
  IsStart, initial_apart, eat_whitespace-start, print_long-IsStart, points-print_long,
  scan_symbol_lem, scan_string_lem, scan_number_lem, c_string_lem,
}
use brianscheme.Syntax.Stores.{Grown}
use brianscheme.Syntax.Symbols.{make_symbol-Makes, make_string-Makes, make_fixnum-Makes}

-- A reading that takes the input up to `rest` and gives the term.
abbrev pub Reads : Store → List Ptr → ℕ → Term → List ℕ → Reading → Type 0
Reads s names k v rest reading =
    (p : Ptr) × (s' : Store) × (reading ≡ some (p, s', rest)) × Grown s names k s' × Denotes s' v p

reversed_twice : (t : List ℕ) → reverse_onto (reverse_onto t []) [] ≡ t
reversed_twice t = reverse_onto-reverse_onto t [] [] ∙ append-nil t

-- The three loops, where they end well.
read_symbol_of :
    (h : Host) (s : Store) (inp text rest : List ℕ)
    → scan_symbol 0 [] inp ≡ scanned text rest
    → read_symbol h s inp ≡ with_input (make_symbol h.bound s (reverse_onto text [])) rest
unfolding read_symbol
read_symbol_of h s inp text rest e = rw (e, read_symbol)

read_string_of :
    (h : Host) (s : Store) (inp text rest : List ℕ)
    → scan_string false 0 [] inp ≡ scanned text rest
    → read_string h s inp ≡ with_input (make_string s (c_string (reverse_onto text []))) rest
unfolding read_string
read_string_of h s inp text rest e = rw (e, read_string)

read_number_of :
    (h : Host) (s : Store) (inp text rest : List ℕ)
    → scan_number 0 [] inp ≡ scanned text rest
    → read_number h s inp ≡ with_input (string_to_number h s (reverse_onto text [])) rest
unfolding read_number
read_number_of h s inp text rest e = rw (e, read_number)

number_of :
    (h : Host) (s : Store) (buffer : List ℕ)
    → points buffer ≡ 0
    → string_to_number h s buffer ≡ make_fixnum s (atol buffer)
unfolding string_to_number
number_of h s buffer e = rw e

starts_symbol :
    (h : Host) (f : ℕ) (s : Store) (c : ℕ) (cs : List ℕ)
    → is_initial c ≡ true
    → (c == b'.') ≡ false
    → lisp_read (suc f) h s (c ∷ cs) ≡ read_symbol h s (c ∷ cs)
unfolding lisp_read datum_body
starts_symbol h f s c cs first point =
    let (start, hash, digit, minus) = initial_apart c first point in
    rw (eat_whitespace-start c cs start, hash, digit, minus, first)

starts_string :
    (h : Host) (f : ℕ) (s : Store) (cs : List ℕ)
    → lisp_read (suc f) h s (34 ∷ cs) ≡ read_string h s cs
unfolding lisp_read datum_body eat_whitespace eat isspace isdigit is_initial isalpha
starts_string h f s cs = refl

pub read_symbol-Reads :
    (h : Host) (f : ℕ) (s : Store) (names : List Ptr) (t : List ℕ) (d : ℕ) (ds : List ℕ)
    → IsPlain (sym t)
    → IsHeld s names
    → 2 ≤ length s.free
    → length names < h.bound
    → is_delimiter d ≡ true
    → Reads s names 2 (sym t) (d ∷ ds) (lisp_read (suc f) h s (t ++ d ∷ ds))
read_symbol-Reads h f s names [] d ds plain w room bound e = absurd plain
read_symbol-Reads h f s names (c ∷ t) d ds (first, point, chars, short) w room bound e =
    let (p, s', made, grown, at) = make_symbol-Makes h.bound s names (c ∷ t) w room bound in
    (
      p,
      s',
      starts_symbol h f s c (t ++ d ∷ ds) first point
          ∙ read_symbol_of h s (c ∷ (t ++ d ∷ ds)) _ (d ∷ ds)
              (scan_symbol_lem (c ∷ t) 0 [] d ds chars (omega arith) e)
          ∙ rw (reversed_twice (c ∷ t), made),
      grown,
      at,
    )

pub read_string-Reads :
    (h : Host) (f : ℕ) (s : Store) (names : List Ptr) (t ds : List ℕ)
    → IsPlain (str t)
    → IsHeld s names
    → 1 ≤ length s.free
    → Reads s names 1 (str t) ds (lisp_read (suc f) h s (34 ∷ (escape t ++ 34 ∷ ds)))
read_string-Reads h f s names t ds (chars, short) w room =
    let (p, s', made, grown, at) = make_string-Makes s names t w room in
    (
      p,
      s',
      starts_string h f s (escape t ++ 34 ∷ ds)
          ∙ read_string_of h s (escape t ++ 34 ∷ ds) _ ds (scan_string_lem t 0 [] ds (omega arith))
          ∙ rw (reversed_twice t, c_string_lem t chars, made),
      grown,
      at,
    )

number_test :
    (digit minus peek : Bool)
    → (digit ≡ true) ⊎ ((minus ≡ true) × (peek ≡ true))
    → (digit || (minus && peek)) ≡ true
number_test digit minus peek (inl h) = rw h
number_test true minus peek (inr (m, p)) = refl
number_test false minus peek (inr (m, p)) = rw (m, p)

-- A digit, or a minus and a digit, is taken for a number.
starts_number :
    (h : Host) (f : ℕ) (s : Store) (c : ℕ) (cs : List ℕ)
    → IsStart c
    → (c == b'#') ≡ false
    → (isdigit c ≡ true) ⊎ (((c == b'-') ≡ true) × (peek_digit cs ≡ true))
    → lisp_read (suc f) h s (c ∷ cs) ≡ read_number h s (c ∷ cs)
unfolding lisp_read datum_body
starts_number h f s c cs start hash digits = rw (
  eat_whitespace-start c cs start,
  hash,
  number_test (isdigit c) (c == b'-') (peek_digit cs) digits,
)

at_number :
    (h : Host) (f : ℕ) (s : Store) (n d : ℕ) (ds : List ℕ)
    → lisp_read (suc f) h s (print_long n ++ d ∷ ds) ≡ read_number h s (print_long n ++ d ∷ ds)
unfolding peek_digit
at_number h f s n d ds =
    let (c, cs, q, start, hash, digits) = print_long-IsStart n in
    rw q (
      starts_number h f s c (cs ++ d ∷ ds) start hash (elim digits [
        | inl digit ↦ inl digit
        | inr (minus, (b, bs, q', digit)) ↦ inr (minus, rw q' digit)
      ]))

pub read_number-Reads :
    (h : Host) (f : ℕ) (s : Store) (names : List Ptr) (n d : ℕ) (ds : List ℕ)
    → n < 2 ^ 64
    → IsHeld s names
    → 1 ≤ length s.free
    → is_delimiter d ≡ true
    → Reads s names 1 (num n) (d ∷ ds) (lisp_read (suc f) h s (print_long n ++ d ∷ ds))
read_number-Reads h f s names n d ds range w room e =
    let (p, s', made, grown, at) = make_fixnum-Makes s names n w room in
    (
      p,
      s',
      at_number h f s n d ds
          ∙ read_number_of h s (print_long n ++ d ∷ ds) _ (d ∷ ds) (scan_number_lem n d ds e)
          ∙ rw
              (
                reversed_twice (print_long n),
                number_of h s (print_long n) (points-print_long n),
                atol-print_long n range,
              )
              (ap (λ (o : Option (Ptr × Store)). with_input o (d ∷ ds)) made),
      grown,
      at,
    )
