-- ===== src/Read/Datum.antt =====
-- read.c: lisp_read and the functions that it calls to make objects. An object* that is NULL is
-- `null`: lisp_read gives it at the end of the input. The functions that call lisp_read take it,
-- and one another, as arguments; the block at the end ties them together, on fuel.
use brianscheme.Base.{
  ℕ, zero, suc, Bool, false, ◌&&◌, ◌||◌, Option, none, some, List, [], ◌∷◌, ◌==◌, ltb,
  if◌then◌else◌, ◌>>=◌, reverse_onto,
}
use brianscheme.Object.{Ptr, null}
use brianscheme.Store.{
  Store, cdr, cons, set_cdr, make_character, make_fixnum, make_string, make_symbol, list_to_vector,
  throw_message, is_primitive_exception,
}
use brianscheme.Store.Types.{make_real}
use brianscheme.Read.{
  Fault, incomplete_character, not_delimited, unexpected_eof, no_trailing_paren, many_points,
  bad_literal, bad_input, peek_is, delimited, eat_whitespace, eat_line, scanned, stopped,
  eat_expected_string, scan_symbol, scan_string, scan_number, points, atol, isdigit, is_initial,
}

-- The texts of messages, the bits of the double that atof gives, and the fuel for the loops over the
-- symbol table and over a list that becomes a vector.
pub record Host : Type 0 where
  pub text : Fault → List ℕ
  pub atof : List ℕ → ℕ
  pub bound : ℕ

-- An object, the store, and the input that is left.
abbrev pub Reading : Type 0
Reading = Option (Ptr × Store × List ℕ)

abbrev pub with_input : Option (Ptr × Store) → List ℕ → Reading
with_input o inp = do r ← o; some (r.0, r.1, inp)

unfoldable pub throw : Host → Store → Fault → List ℕ → Reading
unfolding throw_message
throw h s fault inp = with_input (throw_message s (h.text fault)) inp

-- is_primitive_exception(obj), which reads through a NULL.
unfoldable pub failed : Store → Ptr → Option Bool
unfolding is_primitive_exception
failed s obj = if obj == null then none else is_primitive_exception s obj

-- if(is_primitive_exception(obj)) return obj.
abbrev pub unless_failed : Reading → (Ptr → Store → List ℕ → Reading) → Reading
unless_failed reading next = do
  r ← reading
  bad ← failed r.1 r.0
  (if bad then some r else next r.0 r.1 r.2)

abbrev pub made_character : Store → ℕ → List ℕ → Reading
unfolding make_character
made_character s c inp = do obj ← make_character s c; some (obj, s, inp)

-- peek_expected_delimiter, then make_character.
unfoldable pub delimited_character : Host → Store → ℕ → List ℕ → Reading
unfolding throw made_character delimited
delimited_character h s c inp =
    if delimited inp then made_character s c inp else throw h s not_delimited inp

-- The rest of a character's name, then its delimiter.
unfoldable pub named_character : Host → Store → List ℕ → ℕ → List ℕ → Reading
unfolding eat_expected_string throw delimited_character
named_character h s name c inp = elim (eat_expected_string name inp) [
  | stopped fault rest ↦ throw h s fault rest
  | scanned _ rest ↦ delimited_character h s c rest
]

abbrev pub read_tab : Host → Store → ℕ → List ℕ → Reading
unfolding named_character delimited_character
read_tab h s c inp =
    if peek_is b'a' inp
    then named_character h s (b'a' ∷ b'b' ∷ []) 9 inp
    else delimited_character h s c inp

-- read_character: the case for `n` goes on into the one for `t`.
unfoldable pub read_character : Host → Store → List ℕ → Reading
unfolding throw named_character delimited_character read_tab
read_character h s [] = throw h s incomplete_character []
read_character h s (c ∷ cs) =
    if c == b's' && peek_is b'p' cs
    then named_character h s (b'p' ∷ b'a' ∷ b'c' ∷ b'e' ∷ []) 32 cs
    else if c == b'n' && peek_is b'e' cs
    then named_character h s (b'e' ∷ b'w' ∷ b'l' ∷ b'i' ∷ b'n' ∷ b'e' ∷ []) 10 cs
    else if c == b'n' || c == b't'
    then read_tab h s c cs
    else delimited_character h s c cs

unfoldable pub string_to_number : Host → Store → List ℕ → Option (Ptr × Store)
unfolding throw_message make_fixnum make_real points atol
string_to_number h s buffer =
    if ltb 1 (points buffer)
    then throw_message s (h.text many_points)
    else if points buffer == 1
    then make_real s (h.atof buffer)
    else make_fixnum s (atol buffer)

unfoldable pub read_number : Host → Store → List ℕ → Reading
unfolding scan_number throw string_to_number
read_number h s inp = elim (scan_number 0 [] inp) [
  | stopped fault rest ↦ throw h s fault rest
  | scanned text rest ↦ with_input (string_to_number h s (reverse_onto text [])) rest
]

unfoldable pub read_symbol : Host → Store → List ℕ → Reading
unfolding scan_symbol throw make_symbol
read_symbol h s inp = elim (scan_symbol 0 [] inp) [
  | stopped fault rest ↦ throw h s fault rest
  | scanned text rest ↦ with_input (make_symbol h.bound s (reverse_onto text [])) rest
]

-- make_string stops at the first '\0'.
unfoldable pub c_string : List ℕ → List ℕ
c_string [] = []
c_string (c ∷ cs) = if c == 0 then [] else c ∷ c_string cs

unfoldable pub read_string : Host → Store → List ℕ → Reading
unfolding scan_string throw make_string c_string
read_string h s inp = elim (scan_string false 0 [] inp) [
  | stopped fault rest ↦ throw h s fault rest
  | scanned text rest ↦ with_input (make_string s (c_string (reverse_onto text []))) rest
]

-- The two cells of a quoted form.
unfoldable pub quote_with : Store → Ptr → Ptr → List ℕ → Reading
unfolding cons
quote_with s sym obj inp = do r ← cons s obj s.empty_list; with_input (cons r.1 sym r.0) inp

-- read_pair. `lisp` is lisp_read and `pair` its own recursive call.
unfoldable pub dotted : Host → (Store → List ℕ → Reading) → Ptr → Store → List ℕ → Reading
unfolding throw eat_whitespace cons delimited
dotted h lisp car_obj s inp =
    if delimited inp
    then unless_failed (lisp s inp) (λ cdr_obj s' rest. elim (eat_whitespace rest) [
      | [] ↦ throw h s' unexpected_eof []
      | c ∷ cs ↦
          if c == b')'
          then with_input (cons s' car_obj cdr_obj) cs
          else throw h s' no_trailing_paren cs
    ])
    else throw h s not_delimited inp

unfoldable pub after_car :
    Host → (Store → List ℕ → Reading) → (Store → List ℕ → Reading) → Ptr → Store → List ℕ → Reading
unfolding throw cons dotted
after_car h lisp pair car_obj s [] = throw h s unexpected_eof []
after_car h lisp pair car_obj s (c ∷ cs) =
    if c == b'.'
    then dotted h lisp car_obj s cs
    else unless_failed (pair s (c ∷ cs))
        (λ cdr_obj s' rest. with_input (cons s' car_obj cdr_obj) rest)

unfoldable pub pair_body :
    Host → (Store → List ℕ → Reading) → (Store → List ℕ → Reading) → Store → List ℕ → Reading
unfolding throw after_car eat_whitespace
pair_body h lisp pair s [] = throw h s unexpected_eof []
pair_body h lisp pair s (c ∷ cs) =
    if c == b')'
    then some (s.empty_list, s, cs)
    else unless_failed (lisp s (c ∷ cs))
        (λ car_obj s' rest. after_car h lisp pair car_obj s' (eat_whitespace rest))

-- The loop of read_vector: the next element goes behind `list_tail`.
unfoldable pub elements_body :
    Host
    → (Store → List ℕ → Reading)
    → (Ptr → Ptr → Store → List ℕ → Reading)
    → Ptr
    → Ptr
    → Store
    → List ℕ
    → Reading
unfolding throw list_to_vector cons set_cdr cdr
elements_body h lisp more head tail s [] = throw h s unexpected_eof []
elements_body h lisp more head tail s (c ∷ cs) =
    if c == b')'
    then with_input (list_to_vector h.bound s head) cs
    else unless_failed (lisp s (c ∷ cs)) (λ current s' rest. do
      cell ← cons s' current s'.empty_list
      s'' ← set_cdr cell.1 tail cell.0
      tail' ← cdr s'' tail
      more head tail' s'' rest)

unfoldable pub vector_body :
    Host
    → (Store → List ℕ → Reading)
    → (Ptr → Ptr → Store → List ℕ → Reading)
    → Store
    → List ℕ
    → Reading
unfolding throw cons
vector_body h lisp more s [] = throw h s unexpected_eof []
vector_body h lisp more s (c ∷ cs) =
    if c == b')'
    then some (s.empty_vector, s, cs)
    else unless_failed (lisp s (c ∷ cs))
        (λ val s' rest. do head ← cons s' val s'.empty_list; more head.0 head.0 head.1 rest)

-- What follows `#`.
unfoldable pub hash_body : Host → (Store → List ℕ → Reading) → Store → List ℕ → Reading
unfolding throw read_character eat_line
hash_body h vec s [] = throw h s (bad_literal 255) []
hash_body h vec s (c ∷ cs) =
    if c == b't'
    then some (s.true_object, s, cs)
    else if c == b'f'
    then some (s.false_object, s, cs)
    else if c == 92
    then read_character h s cs
    else if c == b'('
    then vec s cs
    else if c == b'!'
    then some (s.false_object, s, eat_line cs)
    else throw h s (bad_literal c) cs

-- What follows a comma: the symbol, and the input. The byte 255 is EOF there, too.
abbrev pub unquote : Store → List ℕ → Ptr × List ℕ
unquote s [] = (s.unquote_symbol, [])
unquote s (c ∷ cs) =
    if c == b'@'
    then (s.unquotesplicing_symbol, cs)
    else (s.unquote_symbol, if c == 255 then cs else c ∷ cs)

unfoldable pub peek_digit : List ℕ → Bool
unfolding isdigit
peek_digit [] = false
peek_digit (c ∷ cs) = isdigit c

-- lisp_read after eat_whitespace.
unfoldable pub datum_body :
    Host
    → (Store → List ℕ → Reading)
    → (Store → List ℕ → Reading)
    → (Store → List ℕ → Reading)
    → Store
    → List ℕ
    → Reading
unfolding hash_body read_number read_symbol read_string quote_with throw isdigit is_initial
    delimited peek_digit
datum_body h lisp pair vec s [] = some (null, s, [])
datum_body h lisp pair vec s (c ∷ cs) =
    if c == b'#'
    then hash_body h vec s cs
    else if isdigit c || (c == b'-' && peek_digit cs)
    then read_number h s (c ∷ cs)
    else if is_initial c || ((c == b'+' || c == b'-') && delimited cs)
    then read_symbol h s (c ∷ cs)
    else if c == 34
    then read_string h s cs
    else if c == b'('
    then pair s cs
    else if c == 39
    then unless_failed (lisp s cs) (λ obj s' rest. quote_with s' s'.quote_symbol obj rest)
    else if c == b','
    then unless_failed (lisp s (unquote s cs).1)
        (λ obj s' rest. quote_with s' (unquote s cs).0 obj rest)
    else if c == b'`'
    then unless_failed (lisp s cs) (λ obj s' rest. quote_with s' s'.quasiquote_symbol obj rest)
    else throw h s (bad_input c) cs

unfoldable mutual
  unfolding eat_whitespace datum_body pair_body vector_body elements_body

  pub lisp_read : ℕ → Host → Store → List ℕ → Reading
  lisp_read zero h s inp = none
  lisp_read (suc fuel) h s inp =
      datum_body h (lisp_read fuel h) (read_pair fuel h) (read_vector fuel h) s (eat_whitespace inp)

  pub read_pair : ℕ → Host → Store → List ℕ → Reading
  read_pair zero h s inp = none
  read_pair (suc fuel) h s inp =
      pair_body h (lisp_read fuel h) (read_pair fuel h) s (eat_whitespace inp)

  pub read_vector : ℕ → Host → Store → List ℕ → Reading
  read_vector zero h s inp = none
  read_vector (suc fuel) h s inp =
      vector_body h (lisp_read fuel h) (read_elements fuel h) s (eat_whitespace inp)

  pub read_elements : ℕ → Host → Ptr → Ptr → Store → List ℕ → Reading
  read_elements zero h head tail s inp = none
  read_elements (suc fuel) h head tail s inp =
      elements_body h (lisp_read fuel h) (read_elements fuel h) head tail s (eat_whitespace inp)
