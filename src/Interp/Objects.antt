-- ===== src/Interp/Objects.antt =====
-- interp.c and vm.c: eq?, and the primitives on procedures and their parts.
use brianscheme.Base.{ℕ, Bool, Option, none, some, if◌then◌else◌, ◌>>=◌, ◌==◌}
use brianscheme.Object.{
  Ptr, tagged, Data, fixnum, floatnum, character, string, compound_proc, syntax_proc,
  compiled_syntax_proc, compiled_proc, meta_proc,
}
use brianscheme.Store.{Store, write, car, cdr, make_compiled_proc, is_meta, same_text}
use brianscheme.Store.Types.{make_meta_proc, is_dir_stream}
use brianscheme.Vm.{compiled_of}
use brianscheme.Interp.{closure_of}
use brianscheme.Interp.Primitives.{Primitive, argument, as_bool, test_first}

-- The two objects have the same type, and what is in the unions of two numbers, characters or strings,
-- or of any other objects their addresses, is the same.
abbrev pub is_same : (ℕ → ℕ → Bool) → Ptr → Ptr → Data → Data → Bool
is_same equal p q (fixnum a) (fixnum b) = a == b
is_same equal p q (floatnum a) (floatnum b) = equal a b
is_same equal p q (character a) (character b) = a == b
is_same equal p q (string a) (string b) = same_text a b
is_same equal p q _ _ = p == q

-- The type of a tagged pointer is read at an odd address, which has no result. `equal` compares two
-- doubles.
unfoldable pub is_eq_proc : (ℕ → ℕ → Bool) → Primitive
is_eq_proc equal s args n top = do
  first ← argument 0 args n top
  second ← argument 1 args n top
  (if tagged first
      then none
      else if tagged second
      then none
      else as_bool s (is_same equal first second (s.object first) (s.object second)))

-- A write of the type alone, of a procedure with the same members.
abbrev pub as_syntax : Data → Option Data
as_syntax (compound_proc parms_and_env body) = some (syntax_proc parms_and_env body)
as_syntax (syntax_proc parms_and_env body) = some (syntax_proc parms_and_env body)
as_syntax _ = none

abbrev pub as_compiled_syntax : Data → Option Data
as_compiled_syntax (compiled_proc bytecode env) = some (compiled_syntax_proc bytecode env)
as_compiled_syntax (compiled_syntax_proc bytecode env) = some (compiled_syntax_proc bytecode env)
as_compiled_syntax _ = none

abbrev pub tagging : (Data → Option Data) → Primitive
tagging change s args n top = do
  first ← argument 0 args n top
  d ← change (s.object first)
  some (first, write s first d)

unfoldable pub tag_macro_proc : Primitive
unfolding write
tag_macro_proc = tagging as_syntax

unfoldable pub vm_tag_macro_proc : Primitive
unfolding write
vm_tag_macro_proc = tagging as_compiled_syntax

-- A part of the first argument.
abbrev pub part : (Store → Ptr → Option Ptr) → Primitive
part get s args n top = do first ← argument 0 args n top; found ← get s first; some (found, s)

-- COMPOUND_PARAMS.
unfoldable pub compound_args_proc : Primitive
unfolding car
compound_args_proc = part λ s p. do c ← closure_of (s.object p); car s c.0

-- COMPOUND_BODY.
unfoldable pub compound_body_proc : Primitive
compound_body_proc = part λ s p. do c ← closure_of (s.object p); some c.1

-- COMPOUND_ENV.
unfoldable pub compound_env_proc : Primitive
unfolding cdr
compound_env_proc = part λ s p. do c ← closure_of (s.object p); cdr s c.0

unfoldable pub make_compiled_proc_proc : Primitive
unfolding make_compiled_proc
make_compiled_proc_proc s args n top = do
  first ← argument 0 args n top
  second ← argument 1 args n top
  make_compiled_proc s first second

unfoldable pub compiled_bytecode_proc : Primitive
compiled_bytecode_proc = part λ s p. do c ← compiled_of (s.object p); some c.0

unfoldable pub compiled_environment_proc : Primitive
compiled_environment_proc = part λ s p. do c ← compiled_of (s.object p); some c.1

abbrev pub is_meta_proc : Primitive
is_meta_proc = test_first is_meta

abbrev pub meta_of : Data → Option (Ptr × Ptr)
meta_of (meta_proc proc data') = some (proc, data')
meta_of _ = none

unfoldable pub meta_wrap_proc : Primitive
unfolding make_meta_proc
meta_wrap_proc s args n top = do
  first ← argument 0 args n top
  second ← argument 1 args n top
  make_meta_proc s first second

unfoldable pub get_meta_data_proc : Primitive
get_meta_data_proc = part λ s p. do m ← meta_of (s.object p); some m.1

unfoldable pub get_meta_obj_proc : Primitive
get_meta_obj_proc = part λ s p. do m ← meta_of (s.object p); some m.0

abbrev pub is_dir_stream_proc : Primitive
is_dir_stream_proc = test_first is_dir_stream

unfoldable pub set_cc_bytecode : Primitive
set_cc_bytecode s args n top = do
  first ← argument 0 args n top
  c ← compiled_of (s.object first)
  some (first, record s { cc_bytecode = c.0 })

unfoldable pub set_error_restart_proc : Primitive
set_error_restart_proc s args n top = do
  first ← argument 0 args n top
  some (first, record s { vm_error_restart = first })
