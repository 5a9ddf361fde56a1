-- ===== src/Vm/Frame.antt =====
-- vm.c: the instructions for arguments, frames, jumps and variables. A function for each opcode has
-- its name; `arg1` and `arg2` are ARG1 and ARG2.
use brianscheme.Base.{
  ℕ, zero, suc, ◌+◌, ◌-◌, ◌*◌, ◌%◌, ◌^◌, Bool, ◌||◌, Option, none, some, List, ◌==◌, ltb, leb,
  if◌then◌else◌, ◌>>=◌, length, get_elem?, set, take,
}
use brianscheme.Object.{Ptr}
use brianscheme.Store.{
  Store, cons, car, cdr, varray, vector_set, make_vector, make_compiled_proc, is_the_empty_list,
}
use brianscheme.Vm.{
  exactly, at_least, Machine, World, Outcome, next, int_rounds, push, pop, peek, poke, compiled_of,
  fail,
}

-- NEXT_INSTRUCTION after a push.
abbrev pub push_next : Machine → Ptr → Option Outcome
push_next m obj = do m' ← push m obj; some (next m')

-- The first `n` slots of an array that has so many.
abbrev pub copy_slots : ℕ → List Ptr → Option (List Ptr)
copy_slots n xs = if ltb (length xs) n then none else some (take n xs)

-- The loop of pushvarargs.
unfoldable pub collect : ℕ → Machine → Ptr → Option (Ptr × Machine)
unfolding pop cons
collect zero m result = some (result, m)
collect (suc n) m result = do
  top ← pop m
  r ← cons top.1.store top.0 result
  collect n (record (top.1) { store = r.1 }) r.0

unfoldable pub pushvarargs : ℕ → Machine → Option Outcome
unfolding int_rounds collect push
pushvarargs arg1 m = do
  r ← collect (int_rounds (m.n_args + 2 ^ 64 - arg1)) m m.store.empty_list
  push_next r.1 r.0

unfoldable pub chainframe : ℕ → Machine → Option Outcome
unfolding make_vector cons
chainframe arg1 m = do
  top ← make_vector m.store m.store.empty_list arg1
  env ← cons top.1 top.0 m.env
  some (next (record m { store = env.1; env = env.0 }))

-- The loop of endframe, `n` slots from `ii` on.
unfoldable pub move_down : ℕ → ℕ → ℕ → ℕ → List Ptr → Option (List Ptr)
move_down zero ii src dst stack = some stack
move_down (suc n) ii src dst stack = do
  v ← get_elem? stack (src + ii)
  move_down n (ii + 1) src dst (set stack (dst + ii) v)

-- `dist > 0` is `fn_first_arg + arg1 < stack_top`.
unfoldable pub endframe : ℕ → Machine → Option Outcome
unfolding move_down
endframe arg1 m = do
  stack ←
      (if ltb (m.fn_first_arg + arg1) m.stack_top
        then move_down arg1 0 (m.stack_top - arg1) m.fn_first_arg m.stack
        else some m.stack)
  some (next (record m { stack = stack; stack_top = m.fn_first_arg + arg1 }))

unfoldable pub argcheck : World → ℕ → ℕ → Machine → Option Outcome
unfolding fail
argcheck w arg1 arg2 m =
    if arg2 == 0
    then (if m.n_args == arg1 then some (next m) else fail w m (exactly arg1 m.n_args))
    else if leb arg1 m.n_args
    then some (next m)
    else fail w m (at_least arg1 m.n_args)

-- The index of argument N, wrapped to 64 bits.
abbrev pub arg_slot : Machine → ℕ → ℕ
arg_slot m n = (m.fn_first_arg + n) % 2 ^ 64

unfoldable pub spush : ℕ → Machine → Option Outcome
unfolding push peek
spush arg1 m = do top ← peek m (arg_slot m arg1); push_next m top

-- A read or a write next to the top; there is none on a stack with fewer than `n` values.
abbrev pub from_top : Machine → ℕ → Option ℕ
from_top m n = if ltb m.stack_top n then none else some (m.stack_top - n)

unfoldable pub sset : ℕ → Machine → Option Outcome
unfolding peek poke
sset arg1 m = do i ← from_top m 1; v ← peek m i; m' ← poke m (arg_slot m arg1) v; some (next m')

unfoldable pub swap : Machine → Option Outcome
unfolding peek poke
swap m = do
  i ← from_top m 1
  j ← from_top m 2
  top ← peek m i
  below ← peek m j
  m' ← poke m i below
  m'' ← poke m' j top
  some (next m'')

unfoldable pub is_falselike : Store → Ptr → Bool
is_falselike s obj = obj == s.false_object || is_the_empty_list s obj

abbrev pub jump : ℕ → Machine → Outcome
jump arg1 m = next (record m { pc = arg1 * 2 % 2 ^ 64 })

unfoldable pub fjump : ℕ → Machine → Option Outcome
unfolding pop is_falselike
fjump arg1 m = do
  top ← pop m
  some (if is_falselike m.store top.0 then jump arg1 top.1 else next top.1)

unfoldable pub tjump : ℕ → Machine → Option Outcome
unfolding pop is_falselike
tjump arg1 m = do
  top ← pop m
  some (if is_falselike m.store top.0 then next top.1 else jump arg1 top.1)

-- VARRAY(const_array)[i].
unfoldable pub constant : Machine → ℕ → Option Ptr
unfolding varray
constant m i = do objects ← varray m.store m.const_array; get_elem? objects i

unfoldable pub fn : ℕ → Machine → Option Outcome
unfolding constant make_compiled_proc push
fn arg1 m = do
  fn_arg ← constant m arg1
  b ← compiled_of (m.store.object fn_arg)
  new_fn ← make_compiled_proc m.store b.0 m.env
  push_next (record m { store = new_fn.1 }) new_fn.0

unfoldable pub cconst : ℕ → Machine → Option Outcome
unfolding constant push
cconst arg1 m = do c ← constant m arg1; push_next m c

-- while(env_num-- > 0) next = CDR(next).
unfoldable pub frame : ℕ → Store → Ptr → Option Ptr
unfolding cdr
frame zero s p = some p
frame (suc n) s p = do d ← cdr s p; frame n s d

unfoldable pub frame_vector : ℕ → Machine → Option Ptr
unfolding frame int_rounds car
frame_vector arg1 m = do p ← frame (int_rounds arg1) m.store m.env; car m.store p

unfoldable pub lvar : ℕ → ℕ → Machine → Option Outcome
unfolding frame_vector varray push
lvar arg1 arg2 m = do
  v ← frame_vector arg1 m
  objects ← varray m.store v
  x ← get_elem? objects arg2
  push_next m x

unfoldable pub lset : ℕ → ℕ → Machine → Option Outcome
unfolding frame_vector peek vector_set
lset arg1 arg2 m = do
  v ← frame_vector arg1 m
  i ← from_top m 1
  x ← peek m i
  s ← vector_set m.store v arg2 x
  some (next (record m { store = s }))
