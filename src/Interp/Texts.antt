-- ===== src/Interp/Texts.antt =====
-- interp.c: the primitives on characters, strings and symbols. A string is its bytes before the first
-- '\0', so a read or a write past that one has no result.
pub mod Decimals
use brianscheme.Base.{
  ℕ, suc, ◌+◌, ◌-◌, ◌*◌, ◌%◌, ◌^◌, ◌≤◌, Bool, not, ◌&&◌, ◌||◌, Option, none, some, List, [], ◌∷◌,
  ◌++◌, if◌then◌else◌, ◌>>=◌, get_elem?, length, take, set, ltb, ◌==◌,
}
use brianscheme.Object.{Ptr, tagged, small_fixnum, Data, fixnum, lazy_symbol, character, string}
use brianscheme.Store.{
  Store, write, is_fixnum, is_string, make_fixnum, make_string, make_character, make_symbol,
  make_uninterned_symbol, symbol_text, throw_message,
}
use brianscheme.Store.Types.{is_real, is_character, is_lazy_symbol, make_filled_string}
use brianscheme.Read.Datum.{Host, string_to_number}
use brianscheme.Print.{print_long}
use brianscheme.Interp.Primitives.{Primitive, argument, long, test_first}
use brianscheme.Interp.Numbers.{double}

pub data TextFault : Type 0 where
  string_ref_arguments string_set_arguments not_a_number : TextFault

abbrev pub char_of : Data → Option ℕ
char_of (character value) = some value
char_of _ = none

-- CHAR.
abbrev pub char : Store → Ptr → Option ℕ
char s p = char_of (s.object p)

abbrev pub string_of : Data → Option (List ℕ)
string_of (string value) = some value
string_of _ = none

-- STRING.
abbrev pub text_at : Store → Ptr → Option (List ℕ)
text_at s p = string_of (s.object p)

-- The object is one of all_characters, and none is made.
abbrev pub given : Store → Option Ptr → Option (Ptr × Store)
given s found = do p ← found; some (p, s)

unfoldable pub char_to_integer_proc : Primitive
unfolding make_fixnum
char_to_integer_proc s args n top = do
  first ← argument 0 args n top
  c ← char s first
  make_fixnum s c

unfoldable pub integer_to_char_proc : Primitive
unfolding make_character
integer_to_char_proc s args n top = do
  first ← argument 0 args n top
  value ← long s first
  given s (make_character s (value % 2 ^ 8))

-- A length that is negative, or too large for a long, has no result.
unfoldable pub make_string_proc : Primitive
unfolding make_filled_string
make_string_proc s args n top = do
  first ← argument 0 args n top
  value ← long s first
  fill ← argument 1 args n top
  fill_char ← (if is_character s fill then char s fill else some 0)
  (if ltb value (2 ^ 63 - 1) then make_filled_string s (value + 1) fill_char else none)

-- STRING(obj)[i], where the '\0' at the end can be read.
abbrev pub byte_at : List ℕ → ℕ → Option ℕ
byte_at value i = get_elem? (value ++ 0 ∷ []) i

unfoldable pub string_ref_proc : (TextFault → List ℕ) → Primitive
unfolding throw_message make_character
string_ref_proc text s args n top = do
  first ← argument 0 args n top
  second ← argument 1 args n top
  let read = (do
    value ← text_at s first
    i ← long s second
    c ← byte_at value i
    given s (make_character s c))
  (if not (is_string s first) || not (is_fixnum s second)
      then throw_message s (text string_ref_arguments)
      else read)

-- A '\0' ends the string where it is written.
abbrev pub with_byte : List ℕ → ℕ → ℕ → Option (List ℕ)
with_byte value i c =
    if ltb i (length value) then some (if c == 0 then take i value else set value i c) else none

unfoldable pub string_set_proc : (TextFault → List ℕ) → Primitive
unfolding throw_message write
string_set_proc text s args n top = do
  first ← argument 0 args n top
  second ← argument 1 args n top
  third ← argument 2 args n top
  let written = (do
    value ← text_at s first
    i ← long s second
    c ← char s third
    changed ← with_byte value i c
    some (first, write s first (string changed)))
  (if not (is_string s first) || not (is_fixnum s second) || not (is_character s third)
      then throw_message s (text string_set_arguments)
      else written)

-- `format` is what "%.15lg" writes for a double.
unfoldable pub number_to_string_proc : (ℕ → List ℕ) → (TextFault → List ℕ) → Primitive
unfolding make_string print_long throw_message small_fixnum
number_to_string_proc format text s args n top = do
  first ← argument 0 args n top
  let of_fixnum = (do v ← long s first; make_string s (print_long v))
  let of_real = (do v ← double s first; make_string s (format v))
  (if is_fixnum s first
      then of_fixnum
      else if is_real s first
      then of_real
      else if tagged first
      then make_string s (print_long (small_fixnum first))
      else throw_message s (text not_a_number))

unfoldable pub string_to_number_proc : Host → Primitive
unfolding string_to_number
string_to_number_proc h s args n top = do
  first ← argument 0 args n top
  buffer ← text_at s first
  string_to_number h s buffer

unfoldable pub symbol_to_string_proc : Primitive
unfolding make_string
symbol_to_string_proc s args n top = do
  first ← argument 0 args n top
  value ← symbol_text (s.object first)
  make_string s value

-- The fuel is for the loop over the symbol table.
unfoldable pub string_to_symbol_proc : ℕ → Primitive
unfolding make_symbol
string_to_symbol_proc fuel s args n top = do
  first ← argument 0 args n top
  value ← text_at s first
  make_symbol fuel s value

unfoldable pub gensym_proc : Primitive
unfolding make_uninterned_symbol
gensym_proc s args n top = make_uninterned_symbol s

abbrev pub is_lazy_symbol_proc : Primitive
is_lazy_symbol_proc = test_first is_lazy_symbol

-- LONG of an object that keeps its number where a fixnum does.
abbrev pub counter_of : Data → Option ℕ
counter_of (fixnum n) = some n
counter_of (lazy_symbol n) = some n
counter_of _ = none

unfoldable pub lazy_symbol_value_proc : Primitive
unfolding make_fixnum
lazy_symbol_value_proc s args n top = do
  first ← argument 0 args n top
  value ← counter_of (s.object first)
  make_fixnum s value

unfoldable pub concat_proc : Primitive
unfolding make_string
concat_proc s args n top = do
  first ← argument 0 args n top
  second ← argument 1 args n top
  str1 ← text_at s first
  str2 ← text_at s second
  make_string s (str1 ++ str2)
