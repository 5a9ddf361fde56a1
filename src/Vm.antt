-- ===== src/Vm.antt =====
-- vm.c: the bytecode machine. Its stack, a vector object that only the machine writes, is the list
-- of the vector's slots; a `long` is its 64-bit pattern.
pub mod Bytecode
pub mod Call
pub mod Frame
pub mod Global
pub mod EndFrame
mod Examples
pub mod Stack
pub mod Opcodes
pub mod Step
pub mod Variables
use brianscheme.Base.{
  ℕ, zero, suc, ◌+◌, ◌-◌, ◌*◌, ◌/◌, ◌%◌, ◌^◌, Bool, true, false, ◌||◌, Option, none, some, List, [],
  ◌∷◌, ◌++◌, ◌==◌, ltb, if◌then◌else◌, ◌>>=◌, length, get_elem?, replicate, set,
}
use brianscheme.Object.{Ptr, Data, alien, compiled_proc, compiled_syntax_proc, fixnum, small_fixnum}
use brianscheme.Store.{Store, car, cdr, is_compiled_proc, is_compiled_syntax_proc, make_string}

-- The opcodes, by the names of their symbol variables.
pub data Opcode : Type 0 where
  pushvarargs_op chainframe_op endframe_op argcheck_op spush_op sset_op swap_op return_op : Opcode
  cconst_op fn_op fjump_op tjump_op jump_op callj_op lvar_op save_op gvar_op lset_op : Opcode
  gset_op setcc_op cc_op pop_op cons_op car_op cdr_op setcar_op setcdr_op : Opcode

-- The assertions that can fail, for the texts that snprintf makes.
pub data Fault : Type 0 where
  received_sigint not_a_list improper_list cannot_invoke : Fault
  car_of_other cdr_of_other set_car_of_other set_cdr_of_other : Fault
  exactly at_least : ℕ → ℕ → Fault
  unbound : Ptr → Fault

pub record Machine : Type 0 where
  pub store : Store
  pub stack : List Ptr
  pub stack_top : ℕ
  pub initial_top : ℕ
  pub fn_first_arg : ℕ
  pub n_args : ℕ
  pub pc : ℕ
  pub fn : Ptr
  pub env : Ptr
  pub genv : Ptr
  pub codes : ℕ
  pub const_array : Ptr
  pub sigint_set : Bool

-- What the machine calls: the words of a code array, the opcode at a label's address, the text of a
-- message, and the C function of a primitive, which gets the stack, the number of its arguments and
-- stack_top.
pub record World : Type 0 where
  pub word : ℕ → ℕ → ℕ
  pub opcode : ℕ → Option Opcode
  pub text : Fault → List ℕ
  pub primitive : ℕ → Store → List Ptr → ℕ → ℕ → Option (Ptr × Store × List Ptr)

-- The end of one instruction: on to the next one, or out of vm_execute.
pub data Outcome : Type 0 where
  next : Machine → Outcome
  finished : Ptr → Machine → Outcome

-- ((arg1 << 16) | (arg2 & 0xFFFF)); the two sides share no bit.
unfoldable pub combined : ℕ → ℕ → ℕ
combined arg1 arg2 = arg1 * 2 ^ 16 % 2 ^ 64 + arg2 % 2 ^ 16

-- UNPACK1, an arithmetic shift, and UNPACK2.
unfoldable pub unpack1 : ℕ → ℕ
unpack1 pkg = pkg / 2 ^ 16 + (if ltb pkg (2 ^ 63) then 0 else 2 ^ 64 - 2 ^ 48)

unfoldable pub unpack2 : ℕ → ℕ
unpack2 pkg = pkg % 2 ^ 16

-- Rounds of a loop that counts an int up from 0 or down to 0.
unfoldable pub int_rounds : ℕ → ℕ
int_rounds n = let d = n % 2 ^ 32 in if ltb d (2 ^ 31) then d else 0

-- A slot outside the array, which the code would write, gives no result.
unfoldable pub vector_push : Ptr → List Ptr → Ptr → ℕ → Option (List Ptr)
vector_push empty stack thing top =
    let grown = if top == length stack then stack ++ replicate (length stack) empty else stack in
    if ltb top (length grown) then some (set grown top thing) else none

unfoldable pub vector_pop : Ptr → List Ptr → ℕ → Option (Ptr × List Ptr)
vector_pop empty stack zero = none
vector_pop empty stack (suc top) = do old ← get_elem? stack top; some (old, set stack top empty)

-- VPUSH and VPOP on the machine's stack.
unfoldable pub push : Machine → Ptr → Option Machine
unfolding vector_push
push m obj = do
  stack ← vector_push m.store.empty_list m.stack obj m.stack_top
  some (record m { stack = stack; stack_top = m.stack_top + 1 })

unfoldable pub pop : Machine → Option (Ptr × Machine)
unfolding vector_pop
pop m = do
  r ← vector_pop m.store.empty_list m.stack m.stack_top
  some (r.0, record m { stack = r.1; stack_top = m.stack_top - 1 })

-- VARRAY(stack)[i].
unfoldable pub peek : Machine → ℕ → Option Ptr
peek m i = get_elem? m.stack i

unfoldable pub poke : Machine → ℕ → Ptr → Option Machine
poke m i obj =
    if ltb i (length m.stack) then some (record m { stack = set m.stack i obj }) else none

-- BYTECODE and CENV, of both kinds of compiled procedures.
abbrev pub compiled_of : Data → Option (Ptr × Ptr)
compiled_of (compiled_proc bytecode env) = some (bytecode, env)
compiled_of (compiled_syntax_proc bytecode env) = some (bytecode, env)
compiled_of _ = none

abbrev pub alien_of : Data → Option ℕ
alien_of (alien ptr releaser) = some ptr
alien_of _ = none

abbrev pub long_of : Data → Option ℕ
long_of (fixnum n) = some n
long_of _ = none

abbrev pub is_compiled : Store → Ptr → Bool
is_compiled s p = is_compiled_proc s p || is_compiled_syntax_proc s p

-- vm_fn_begin up to the test of sigint_set.
unfoldable pub load : Machine → Option Outcome
unfolding car cdr
load m =
    let s = m.store in
    if is_compiled s m.fn
    then (do
      b ← compiled_of (s.object m.fn)
      r ← cdr s b.0
      c ← car s r
      codes ← alien_of (s.object c)
      r' ← cdr s r
      const_array ← car s r'
      some (next (record m { codes = codes; const_array = const_array })))
    else some (finished s.false_object m)

-- VM_ERROR_RESTART up to the test of sigint_set.
unfoldable pub restart : Machine → Ptr → Option Outcome
unfolding push load
restart m obj = do
  p ← push m obj
  b ← compiled_of (p.store.object p.store.vm_error_restart)
  load (record p {
    fn_first_arg = p.stack_top - 1;
    fn = p.store.vm_error_restart;
    pc = 0;
    n_args = 1;
    env = b.1;
  })

-- The test of sigint_set, which then is clear when the restart comes to it again.
unfoldable pub interrupt : World → Outcome → Option Outcome
unfolding make_string restart
interrupt w (finished v m) = some (finished v m)
interrupt w (next m) =
    let restarted = (do
      r ← make_string m.store (w.text received_sigint)
      restart (record m { store = r.1; sigint_set = false }) r.0) in
    if m.sigint_set then restarted else some (next m)

-- vm_fn_begin.
unfoldable pub begin : World → Machine → Option Outcome
unfolding load interrupt
begin w m = do o ← load m; interrupt w o

-- VM_ERROR_RESTART.
unfoldable pub error_restart : World → Machine → Ptr → Option Outcome
unfolding restart interrupt
error_restart w m obj = do o ← restart m obj; interrupt w o

-- VM_ASSERT with a test that failed.
unfoldable pub fail : World → Machine → Fault → Option Outcome
unfolding make_string error_restart
fail w m fault = do
  r ← make_string m.store (w.text fault)
  error_restart w (record m { store = r.1 }) r.0

-- RETURN_OPCODE_INSTRUCTIONS.
unfoldable pub return : World → Machine → Option Outcome
unfolding pop push begin small_fixnum
return w m =
    if m.stack_top == m.initial_top + 1 then (do r ← pop m; some (finished r.0 r.1)) else (do
      retval ← pop m
      first ← pop retval.1
      pc ← pop first.1
      fn ← pop pc.1
      env ← pop fn.1
      m' ← push env.1 retval.0
      begin w (record m' {
        fn_first_arg = small_fixnum first.0;
        pc = small_fixnum pc.0;
        fn = fn.0;
        env = env.0;
      }))
