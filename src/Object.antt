-- ===== src/Object.antt =====
-- types.h: a Scheme object's type tag and union as one data type with a constructor for each tag.
-- An object* is a number: NULL is 0, and an odd number is a tagged small fixnum.
use brianscheme.Base.{ℕ, ◌+◌, ◌*◌, ◌/◌, ◌%◌, ◌^◌, Bool, List, ◌==◌}
use brianscheme.HashTab.{HashTab}

abbrev pub Ptr : Type 0
Ptr = ℕ

abbrev pub null : Ptr
null = 0

-- TAGGED(obj) and is_small_fixnum(obj).
abbrev pub tagged : Ptr → Bool
tagged p = p % 2 == 1

-- make_small_fixnum(val): the shift drops the top bit.
unfoldable pub make_small_fixnum : ℕ → Ptr
make_small_fixnum val = val * 2 % 2 ^ 64 + 1

-- SMALL_FIXNUM(obj).
unfoldable pub small_fixnum : Ptr → ℕ
small_fixnum p = p / 2

-- Numbers are kept as their bit patterns: a fixnum and a floatnum as 64 bits, a character as a byte.
-- A text is the list of its bytes before the '\0', a primitive the number of its C function.
pub data Data : Type 0 where
  nil : Data
  boolean : ℕ → Data
  symbol : List ℕ → Data
  lazy_symbol : ℕ → Data
  fixnum : ℕ → Data
  floatnum : ℕ → Data
  character : ℕ → Data
  string : List ℕ → Data
  pair : Ptr → Ptr → Data
  primitive_proc : ℕ → Data
  compound_proc : Ptr → Ptr → Data
  input_port : ℕ → Data
  output_port : ℕ → Data
  eof_object : Data
  the_empty_list : Ptr → Ptr → Data
  syntax_proc : Ptr → Ptr → Data
  compiled_syntax_proc : Ptr → Ptr → Data
  vector : List Ptr → Data
  compiled_proc : Ptr → Ptr → Data
  hash_table : HashTab → Data
  alien : ℕ → Ptr → Data
  meta_proc : Ptr → Ptr → Data
  dir_stream : ℕ → Data
