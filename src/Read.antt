-- ===== src/Read.antt =====
-- read.c: the reader. A FILE is the list of the bytes that are left in it, so that ungetc puts a
-- byte back in front, and EOF is its end. This file has what reads characters; Read.Datum has
-- what makes objects.

pub mod Bounds
pub mod Datum
mod Examples
use brianscheme.Base.{
  ℕ, zero, suc, ◌+◌, ◌-◌, ◌*◌, ◌%◌, ◌^◌, Bool, true, false, not, ◌&&◌, ◌||◌, Option, none, some,
  List, [], ◌∷◌, ◌++◌, ◌==◌, ltb, leb, if◌then◌else◌, ◌>>=◌,
}

-- What throw_message says, for the texts that vsnprintf makes.
pub data Fault : Type 0 where
  incomplete_character not_delimited unexpected_eof no_trailing_paren : Fault
  many_points many_digits number_not_delimited symbol_too_long : Fault
  string_not_terminated string_too_long : Fault
  unexpected symbol_not_delimited bad_literal bad_input : ℕ → Fault

-- ctype.h, for an int that is a byte.
unfoldable pub isspace : ℕ → Bool
isspace c = c == 32 || (leb 9 c && leb c 13)

unfoldable pub isdigit : ℕ → Bool
isdigit c = leb b'0' c && leb c b'9'

unfoldable pub isalpha : ℕ → Bool
isalpha c = (leb b'a' c && leb c b'z') || (leb b'A' c && leb c b'Z')

unfoldable pub is_delimiter : ℕ → Bool
unfolding isspace
is_delimiter c = isspace c || c == b'(' || c == b')' || c == 34 || c == b';'

unfoldable pub is_initial : ℕ → Bool
unfolding isalpha
is_initial c =
    isalpha c
    || c == b'*'
    || c == b'/'
    || c == b'>'
    || c == b'<'
    || c == b'='
    || c == b'?'
    || c == b'_'
    || c == b'!'
    || c == b'&'
    || c == b'.'
    || c == b':'
    || c == b'%'

-- The test of the loop over a symbol.
unfoldable pub is_symbol_char : ℕ → Bool
unfolding is_initial isdigit
is_symbol_char c = is_initial c || isdigit c || c == b'+' || c == b'-'

-- peek(in) compared with a byte.
abbrev pub peek_is : ℕ → List ℕ → Bool
peek_is b [] = false
peek_is b (c ∷ cs) = c == b

-- is_delimiter(peek(in)).
unfoldable pub delimited : List ℕ → Bool
unfolding is_delimiter
delimited [] = true
delimited (c ∷ cs) = is_delimiter c

-- eat_whitespace, which returns EOF when nothing is left; `comment` is the inner loop.
unfoldable pub eat : Bool → List ℕ → List ℕ
unfolding isspace
eat comment [] = []
eat comment (c ∷ cs) =
    let more = eat (if comment then not (c == 10) else c == b';') cs in
    if comment then more else if isspace c || c == b';' then more else c ∷ cs

unfoldable pub eat_whitespace : List ℕ → List ℕ
unfolding eat
eat_whitespace inp = eat false inp

-- The comment of `#!`.
unfoldable pub eat_line : List ℕ → List ℕ
eat_line [] = []
eat_line (c ∷ cs) = let more = eat_line cs in if c == 10 then cs else more

-- A loop that fills a buffer: the text, or the fault, and what is left.
pub data Scan : Type 0 where
  scanned : List ℕ → List ℕ → Scan
  stopped : Fault → List ℕ → Scan

-- eat_expected_string: the text that is left of the string, and the input.
unfoldable pub eat_expected_string : List ℕ → List ℕ → Scan
eat_expected_string [] inp = scanned [] inp
eat_expected_string (e ∷ es) [] = stopped (unexpected 255) []
eat_expected_string (e ∷ es) (c ∷ cs) =
    let more = eat_expected_string es cs in if c == e then more else stopped (unexpected c) cs

abbrev pub buffer_max : ℕ
buffer_max = 1000

-- The loop over a symbol. `text` is the buffer, its last byte first.
unfoldable pub scan_symbol : ℕ → List ℕ → List ℕ → Scan
unfolding is_symbol_char is_delimiter
scan_symbol i text [] = stopped unexpected_eof []
scan_symbol i text (c ∷ cs) =
    let more = scan_symbol (i + 1) (c ∷ text) cs in
    if is_symbol_char c
    then (if ltb i (buffer_max - 1) then more else stopped symbol_too_long cs)
    else if is_delimiter c
    then scanned text (c ∷ cs)
    else stopped (symbol_not_delimited c) cs

-- A byte after a backslash.
abbrev pub unescape : ℕ → ℕ
unescape c = if c == b'n' then 10 else if c == b't' then 9 else c

-- The loop over a string; `escaped` says that the last byte was a backslash.
unfoldable pub scan_string : Bool → ℕ → List ℕ → List ℕ → Scan
scan_string escaped i text [] = stopped string_not_terminated []
scan_string escaped i text (c ∷ cs) =
    let quote = not escaped && c == 34 in
    let backslash = not escaped && c == 92 in
    let byte = if escaped then unescape c else c in
    let more =
      scan_string backslash (if backslash then i else i + 1)
        (if backslash then text else byte ∷ text) cs in
    if quote
    then scanned text cs
    else if backslash
    then more
    else if ltb i (buffer_max - 1)
    then more
    else stopped string_too_long cs

abbrev pub number_max : ℕ
number_max = 128

-- The loop of read_number. Its variable is a char, in which the byte 255 is EOF: it ends a number
-- and is not put back.
unfoldable pub scan_number : ℕ → List ℕ → List ℕ → Scan
unfolding isdigit is_delimiter
scan_number idx text [] = scanned text []
scan_number idx text (c ∷ cs) =
    let more = scan_number (idx + 1) (c ∷ text) cs in
    if c == b'-' || c == b'.' || isdigit c
    then (if idx == number_max - 1 then stopped many_digits cs else more)
    else if is_delimiter c
    then scanned text (c ∷ cs)
    else if c == 255
    then scanned text cs
    else stopped number_not_delimited cs

-- The decimal points of a number: the loop of string_to_number.
unfoldable pub points : List ℕ → ℕ
points [] = 0
points (c ∷ cs) = if c == b'.' then suc (points cs) else points cs

-- atol: the digits up to the first other character, clamped to a `long`, as its 64-bit pattern.
unfoldable pub digits_value : ℕ → List ℕ → ℕ
unfolding isdigit
digits_value acc [] = acc
digits_value acc (c ∷ cs) =
    let more = digits_value (acc * 10 + (c - b'0')) cs in if isdigit c then more else acc

abbrev pub clamp : Bool → ℕ → ℕ
clamp negative n =
    if negative
    then (if leb n (2 ^ 63) then (2 ^ 64 - n) % 2 ^ 64 else 2 ^ 63)
    else if ltb n (2 ^ 63)
    then n
    else 2 ^ 63 - 1

unfoldable pub drop_spaces : List ℕ → List ℕ
unfolding isspace
drop_spaces [] = []
drop_spaces (c ∷ cs) = if isspace c then drop_spaces cs else c ∷ cs

unfoldable pub signed : List ℕ → ℕ
unfolding digits_value
signed [] = 0
signed (c ∷ cs) =
    if c == b'-'
    then clamp true (digits_value 0 cs)
    else clamp false (digits_value 0 (if c == b'+' then cs else c ∷ cs))

unfoldable pub atol : List ℕ → ℕ
unfolding drop_spaces signed
atol text = signed (drop_spaces text)
