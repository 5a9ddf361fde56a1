-- ===== src/Store/Types.antt =====
-- types.c: the constructors and tests of the types that the machine itself does not read. A floatnum
-- is its bit pattern, a stream or a foreign pointer a number.
use brianscheme.Base.{
  if◌then◌else◌, [], ℕ, ◌-◌, Bool, true, false, not, ◌&&◌, ◌||◌, Option, ◌==◌, replicate,
}
use brianscheme.Object.{
  Ptr, tagged, floatnum, lazy_symbol, character, string, alien, meta_proc, primitive_proc,
  compound_proc, syntax_proc, input_port, output_port, dir_stream,
}
use brianscheme.Store.{Store, alloc, has_type, is_pair, is_the_empty_list}

unfoldable pub is_false : Store → Ptr → Bool
is_false s obj = not (tagged obj) && obj == s.false_object

unfoldable pub is_true : Store → Ptr → Bool
is_true s obj = not (tagged obj) && obj == s.true_object

unfoldable pub make_real : Store → ℕ → Option (Ptr × Store)
unfolding alloc
make_real s value = alloc s (floatnum value)

abbrev pub is_real : Store → Ptr → Bool
is_real = has_type λ d. elim d [ floatnum v ↦ true | _ ↦ false ]

abbrev pub is_character : Store → Ptr → Bool
is_character = has_type λ d. elim d [ character v ↦ true | _ ↦ false ]

-- `length` counts the '\0' and is positive; a string of '\0's has no text.
unfoldable pub make_filled_string : Store → ℕ → ℕ → Option (Ptr × Store)
unfolding alloc
make_filled_string s length fill_char =
    alloc s (string (if fill_char == 0 then [] else replicate (length - 1) fill_char))

abbrev pub is_alien : Store → Ptr → Bool
is_alien = has_type λ d. elim d [ alien p r ↦ true | _ ↦ false ]

unfoldable pub make_alien : Store → ℕ → Ptr → Option (Ptr × Store)
unfolding alloc
make_alien s ptr releaser = alloc s (alien ptr releaser)

unfoldable pub make_alien_fn : Store → ℕ → Ptr → Option (Ptr × Store)
unfolding alloc
make_alien_fn s f releaser = alloc s (alien f releaser)

unfoldable pub make_meta_proc : Store → Ptr → Ptr → Option (Ptr × Store)
unfolding alloc
make_meta_proc s proc meta = alloc s (meta_proc proc meta)

unfoldable pub make_primitive_proc : Store → ℕ → Option (Ptr × Store)
unfolding alloc
make_primitive_proc s f = alloc s (primitive_proc f)

abbrev pub is_compound_proc : Store → Ptr → Bool
is_compound_proc = has_type λ d. elim d [ compound_proc p b ↦ true | _ ↦ false ]

abbrev pub is_syntax_proc : Store → Ptr → Bool
is_syntax_proc = has_type λ d. elim d [ syntax_proc p b ↦ true | _ ↦ false ]

abbrev pub is_input_port : Store → Ptr → Bool
is_input_port = has_type λ d. elim d [ input_port f ↦ true | _ ↦ false ]

abbrev pub is_output_port : Store → Ptr → Bool
is_output_port = has_type λ d. elim d [ output_port f ↦ true | _ ↦ false ]

abbrev pub is_dir_stream : Store → Ptr → Bool
is_dir_stream = has_type λ d. elim d [ dir_stream f ↦ true | _ ↦ false ]

unfoldable pub make_dir_stream : Store → ℕ → Option (Ptr × Store)
unfolding alloc
make_dir_stream s stream = alloc s (dir_stream stream)

unfoldable pub is_eof_object : Store → Ptr → Bool
is_eof_object s obj = obj == s.eof

abbrev pub is_lazy_symbol : Store → Ptr → Bool
is_lazy_symbol = has_type λ d. elim d [ lazy_symbol n ↦ true | _ ↦ false ]

unfoldable pub is_atom : Store → Ptr → Bool
is_atom s obj = not (is_pair s obj) || is_the_empty_list s obj
