-- ===== src/Interp/Primitives.antt =====
-- interp.c: primitives on pairs, on fixnums and on the types of objects. Each takes the store, the
-- stack, n_args and stack_top. A sum, difference or product wraps, as
-- the machine's does.
use brianscheme.Base.{
  ℕ, ◌+◌, ◌-◌, ◌*◌, ◌%◌, ◌^◌, Bool, not, ◌&&◌, ◌||◌, Option, some, none, List, if◌then◌else◌, ◌>>=◌,
  get_elem?, ltb,
}
use brianscheme.Object.{Ptr, tagged}
use brianscheme.Store.{
  Store, car, cdr, cons, set_car, set_cdr, make_fixnum, throw_message, is_pair, is_the_empty_list,
  is_boolean, is_symbol, is_fixnum, is_string, is_meta, is_primitive_proc, is_compiled_proc,
  is_compiled_syntax_proc,
}
use brianscheme.Store.Types.{
  is_real, is_character, is_alien, is_compound_proc, is_syntax_proc, is_input_port, is_output_port,
}
use brianscheme.Vm.{long_of}
use brianscheme.Vm.Call.{metaproc_of}

pub data PairFault : Type 0 where
  car_expects_pair cdr_expects_pair set_car_expects_pair set_cdr_expects_pair : PairFault

abbrev pub Primitive : Type 0
Primitive = Store → List Ptr → ℕ → ℕ → Option (Ptr × Store)

-- VARRAY(args)[stack_top - (n_args - i)]: FIRST is number 0, SECOND number 1. None stands for a
-- place outside the stack.
abbrev pub argument : ℕ → List Ptr → ℕ → ℕ → Option Ptr
argument i args n_args stack_top =
    if ltb (stack_top + i) n_args then none else get_elem? args (stack_top + i - n_args)

-- LONG.
abbrev pub long : Store → Ptr → Option ℕ
long s p = long_of (s.object p)

-- AS_BOOL.
abbrev pub as_bool : Store → Bool → Option (Ptr × Store)
as_bool s b = some (if b then s.true_object else s.false_object, s)

abbrev pub test_first : (Store → Ptr → Bool) → Primitive
test_first test s args n top = do first ← argument 0 args n top; as_bool s (test s first)

abbrev pub is_null_proc : Primitive
is_null_proc = test_first is_the_empty_list

abbrev pub is_boolean_proc : Primitive
is_boolean_proc = test_first is_boolean

abbrev pub is_symbol_proc : Primitive
is_symbol_proc = test_first is_symbol

abbrev pub is_integer_proc : Primitive
is_integer_proc = test_first is_fixnum

abbrev pub is_real_proc : Primitive
is_real_proc = test_first is_real

abbrev pub is_small_fixnum_proc : Primitive
is_small_fixnum_proc = test_first λ s p. tagged p

abbrev pub is_char_proc : Primitive
is_char_proc = test_first is_character

abbrev pub is_string_proc : Primitive
is_string_proc = test_first is_string

abbrev pub is_pair_proc : Primitive
is_pair_proc = test_first is_pair

unfoldable pub is_procedure_proc : Primitive
is_procedure_proc s args n top = do
  first ← argument 0 args n top
  obj ← (if is_meta s first then metaproc_of (s.object first) else some first)
  as_bool s (is_primitive_proc s obj || is_compound_proc s obj || is_compiled_proc s obj)

abbrev pub is_compound_proc_proc : Primitive
is_compound_proc_proc = test_first is_compound_proc

abbrev pub is_syntax_proc_proc : Primitive
is_syntax_proc_proc = test_first λ s p. is_syntax_proc s p || is_compiled_syntax_proc s p

abbrev pub is_compiled_syntax_proc_proc : Primitive
is_compiled_syntax_proc_proc = test_first is_compiled_syntax_proc

abbrev pub is_output_port_proc : Primitive
is_output_port_proc = test_first is_output_port

abbrev pub is_input_port_proc : Primitive
is_input_port_proc = test_first is_input_port

abbrev pub is_alien_proc : Primitive
is_alien_proc = test_first is_alien

abbrev pub is_compiled_proc_proc : Primitive
is_compiled_proc_proc = test_first is_compiled_proc

abbrev pub on_longs : (ℕ → ℕ → ℕ) → Primitive
on_longs f s args n top = do
  first ← argument 0 args n top
  second ← argument 1 args n top
  a ← long s first
  b ← long s second
  make_fixnum s (f a b)

unfoldable pub add_fixnum_proc : Primitive
add_fixnum_proc = on_longs λ a b. (a + b) % 2 ^ 64

unfoldable pub sub_fixnum_proc : Primitive
sub_fixnum_proc = on_longs λ a b. (a + (2 ^ 64 - b)) % 2 ^ 64

unfoldable pub mul_fixnum_proc : Primitive
mul_fixnum_proc = on_longs λ a b. a * b % 2 ^ 64

unfoldable pub cons_proc : Primitive
unfolding cons
cons_proc s args n top = do
  first ← argument 0 args n top
  second ← argument 1 args n top
  cons s first second

abbrev pub part_of : (Store → Ptr → Option Ptr) → List ℕ → Primitive
part_of part message s args n top = do
  first ← argument 0 args n top
  let read = (do v ← part s first; some (v, s))
  (if not (is_pair s first) && not (is_the_empty_list s first)
      then throw_message s message
      else read)

unfoldable pub car_proc : (PairFault → List ℕ) → Primitive
unfolding car throw_message
car_proc text = part_of car (text car_expects_pair)

unfoldable pub cdr_proc : (PairFault → List ℕ) → Primitive
unfolding cdr throw_message
cdr_proc text = part_of cdr (text cdr_expects_pair)

abbrev pub set_part : (Store → Ptr → Ptr → Option Store) → List ℕ → Primitive
set_part set message s args n top = do
  first ← argument 0 args n top
  second ← argument 1 args n top
  let written = (do s' ← set s first second; some (second, s'))
  (if is_pair s first then written else throw_message s message)

unfoldable pub set_car_proc : (PairFault → List ℕ) → Primitive
unfolding set_car throw_message
set_car_proc text = set_part set_car (text set_car_expects_pair)

unfoldable pub set_cdr_proc : (PairFault → List ℕ) → Primitive
unfolding set_cdr throw_message
set_cdr_proc text = set_part set_cdr (text set_cdr_expects_pair)
