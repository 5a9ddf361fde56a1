-- ===== src/Print.antt =====
-- interp.c: the printer, owrite and write_pair. What it does to a FILE is the list of the bytes that
-- it writes.
use brianscheme.Base.{
  ℕ, zero, suc, ◌+◌, ◌-◌, ◌/◌, ◌%◌, ◌^◌, ◌&&◌, Option, none, some, List, [], ◌∷◌, ◌++◌, ◌==◌, ltb,
  if◌then◌else◌, ◌>>=◌, codes,
}
use brianscheme.Object.{
  Ptr, null, tagged, small_fixnum, Data, the_empty_list, boolean, symbol, lazy_symbol, fixnum,
  floatnum, character, string, vector, pair, primitive_proc, compound_proc, compiled_proc,
  compiled_syntax_proc, syntax_proc, meta_proc, hash_table, input_port, output_port, eof_object,
  alien,
}
use brianscheme.Store.{
  Store, car, cdr, is_pair, is_hashtab, is_the_empty_list, is_primitive_exception, throw_message,
}

pub data WriteFault : Type 0 where
  null_object : WriteFault
  unknown_type : Data → WriteFault

-- The texts of messages, and what fprintf makes of a double and of a pointer.
pub record Printer : Type 0 where
  pub text : WriteFault → List ℕ
  pub double : ℕ → List ℕ
  pub pointer : ℕ → List ℕ

-- The result, the store, and what was written.
abbrev pub Writing : Type 0
Writing = Option (Ptr × Store × List ℕ)

-- The decimal digits of a number, on fuel.
unfoldable pub decimal : ℕ → ℕ → List ℕ
decimal zero n = []
decimal (suc fuel) n =
    let more = decimal fuel (n / 10) ++ (b'0' + n % 10) ∷ [] in
    if ltb n 10 then (b'0' + n) ∷ [] else more

-- "%ld" of a 64-bit pattern, whose number has 19 digits at most.
unfoldable pub print_long : ℕ → List ℕ
print_long n = if ltb n (2 ^ 63) then decimal 20 n else b'-' ∷ decimal 20 (2 ^ 64 - n)

abbrev pub said : Store → List ℕ → Writing
said s text = some (s.true_object, s, text)

-- Some text, an object, and if its writing did not fail, more text.
unfoldable pub around : (Store → Ptr → Writing) → Store → List ℕ → Ptr → List ℕ → Writing
unfolding is_primitive_exception
around write s before obj behind = do
  r ← write s obj
  bad ← is_primitive_exception r.1 r.0
  (if bad
      then some (r.0, r.1, before ++ r.2)
      else some (r.1.true_object, r.1, before ++ (r.2 ++ behind)))

-- Text in front of what comes next.
unfoldable pub after : List ℕ → Writing → Writing
after before w = do r ← w; some (r.0, r.1, before ++ r.2)

-- write_pair. `write` is owrite and `more` its own recursive call.
unfoldable pub rest_body : (Store → Ptr → Writing) → (Store → Ptr → Writing) → Store → Ptr → Writing
unfolding after
rest_body write more s cdr_obj =
    if is_pair s cdr_obj
    then after (codes " ") (more s cdr_obj)
    else if is_the_empty_list s cdr_obj
    then said s []
    else after (codes " . ") (write s cdr_obj)

unfoldable pub pair_body : (Store → Ptr → Writing) → (Store → Ptr → Writing) → Store → Ptr → Writing
unfolding after rest_body is_primitive_exception car cdr
pair_body write more s obj = do
  car_obj ← car s obj
  cdr_obj ← cdr s obj
  r ← write s car_obj
  bad ← is_primitive_exception r.1 r.0
  (if bad then some r else after r.2 (rest_body write more r.1 cdr_obj))

-- The bytes of a string.
unfoldable pub escape : List ℕ → List ℕ
escape [] = []
escape (c ∷ cs) =
    let rest = escape cs in
    if c == 10
    then 92 ∷ b'n' ∷ rest
    else if c == 92
    then 92 ∷ 92 ∷ rest
    else if c == 34
    then 92 ∷ 34 ∷ rest
    else c ∷ rest

unfoldable pub character_name : ℕ → List ℕ
character_name c =
    if c == 10
    then codes "newline"
    else if c == 32
    then codes "space"
    else if c == 9
    then codes "tab"
    else c ∷ []

-- A form with a quoting symbol at its head.
unfoldable pub quoted : (Store → Ptr → Writing) → Store → Ptr → List ℕ → List ℕ → Writing
unfolding around car cdr
quoted write s obj alone prefix = do
  rest ← cdr s obj
  (if is_the_empty_list s rest
      then said s alone
      else (do second ← car s rest; around write s prefix second []))

-- The loop over a vector, from the second element on.
unfoldable pub items : (Store → Ptr → Writing) → Store → List Ptr → Writing
unfolding after is_primitive_exception
items write s [] = said s (codes ")")
items write s (p ∷ ps) = do
  r ← write s p
  bad ← is_primitive_exception r.1 r.0
  let rest = after (codes " " ++ r.2) (items write r.1 ps)
  (if bad then some (r.0, r.1, codes " " ++ r.2) else rest)

unfoldable pub write_vector : (Store → Ptr → Writing) → Store → List Ptr → Writing
unfolding items after is_primitive_exception
write_vector write s [] = said s (codes "#()")
write_vector write s (p ∷ ps) = do
  r ← write s p
  bad ← is_primitive_exception r.1 r.0
  (if bad
      then some (r.0, r.1, codes "#(" ++ r.2)
      else after (codes "#(" ++ r.2) (items write r.1 ps))

-- The case for a pair.
unfoldable pub write_form :
    (Store → Ptr → Writing) → (Store → Ptr → Writing) → Store → Ptr → Writing
unfolding quoted around car
write_form write more s obj = do
  head ← car s obj
  (if head == s.quote_symbol
      then quoted write s obj (codes "(quote)") (codes "'")
      else if head == s.unquote_symbol
      then quoted write s obj (codes "(unquote)") (codes ",")
      else if head == s.unquotesplicing_symbol
      then quoted write s obj (codes "(unquote-splicing)") (codes ",@")
      else if head == s.quasiquote_symbol
      then quoted write s obj (codes "(quasiquote)") (codes "`")
      else around more s (codes "(") obj (codes ")"))

-- The switch of owrite.
unfoldable pub write_data :
    Printer → (Store → Ptr → Writing) → (Store → Ptr → Writing) → Store → Ptr → Data → Writing
unfolding print_long character_name escape write_vector write_form around throw_message
write_data h write more s obj (the_empty_list a b) = said s (codes "()")
write_data h write more s obj (boolean v) =
    said s (if obj == s.false_object then codes "#f" else codes "#t")
write_data h write more s obj (symbol value) = said s value
write_data h write more s obj (lazy_symbol n) = said s (codes "#G" ++ print_long n)
write_data h write more s obj (fixnum n) = said s (print_long n)
write_data h write more s obj (floatnum x) = said s (h.double x)
write_data h write more s obj (character c) = said s (codes "#\\" ++ character_name c)
write_data h write more s obj (string value) = said s (34 ∷ (escape value ++ 34 ∷ []))
write_data h write more s obj (vector objects) = write_vector write s objects
write_data h write more s obj (pair a d) = write_form write more s obj
write_data h write more s obj (primitive_proc f) = said s (codes "#<primitive-procedure>")
write_data h write more s obj (compound_proc p b) = said s (codes "#<compound-procedure>")
write_data h write more s obj (compiled_proc b e) = said s (codes "#<compiled-procedure>")
write_data h write more s obj (compiled_syntax_proc b e) =
    said s (codes "#<compiled-syntax-procedure>")
write_data h write more s obj (syntax_proc p b) = said s (codes "#<syntax-procedure>")
write_data h write more s obj (meta_proc proc meta) =
    around write s (codes "#<meta: ") proc (codes ">")
write_data h write more s obj (hash_table t) = said s (codes "#<hash-table>")
write_data h write more s obj (input_port f) = said s (codes "#<input-port>")
write_data h write more s obj (output_port f) = said s (codes "#<output-port>")
write_data h write more s obj eof_object = said s (codes "#<eof>")
write_data h write more s obj (alien ptr r) =
    said s (codes "#<alien-object " ++ (h.pointer ptr ++ codes ">"))
write_data h write more s obj d = do
  r ← throw_message s (h.text (unknown_type d))
  some (r.0, r.1, [])

-- owrite.
unfoldable pub write_body :
    Printer → (Store → Ptr → Writing) → (Store → Ptr → Writing) → Store → Ptr → Writing
unfolding write_data throw_message print_long small_fixnum
write_body h write more s obj =
    if obj == null
    then (do r ← throw_message s (h.text null_object); some (r.0, r.1, []))
    else if tagged obj
    then said s (codes "#<small " ++ (print_long (small_fixnum obj) ++ codes " >"))
    else if is_hashtab s obj && obj == s.global_env
    then said s (codes "#<global-environment-hashtab>")
    else write_data h write more s obj (s.object obj)

unfoldable mutual
  unfolding write_body pair_body

  pub owrite : ℕ → Printer → Store → Ptr → Writing
  owrite zero h s obj = none
  owrite (suc fuel) h s obj = write_body h (owrite fuel h) (write_pair fuel h) s obj

  pub write_pair : ℕ → Printer → Store → Ptr → Writing
  write_pair zero h s obj = none
  write_pair (suc fuel) h s obj = pair_body (owrite fuel h) (write_pair fuel h) s obj
