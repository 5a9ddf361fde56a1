-- ===== src/Vm/Step.antt =====
-- vm.c: the instructions on pairs, save, the dispatch on an opcode, and vm_execute.
use brianscheme.Base.{
  ℕ, zero, suc, ◌+◌, ◌-◌, ◌*◌, ◌%◌, ◌^◌, Bool, ◌||◌, Option, none, some, List, if◌then◌else◌, ◌>>=◌,
}
use brianscheme.Object.{Ptr, make_small_fixnum}
use brianscheme.Store.{Store, cons, car, cdr, set_car, set_cdr, is_pair, is_the_empty_list}
use brianscheme.Vm.{
  Opcode, pushvarargs_op, chainframe_op, endframe_op, argcheck_op, spush_op, sset_op, swap_op,
  return_op, cconst_op, fn_op, fjump_op, tjump_op, jump_op, callj_op, lvar_op, save_op, gvar_op,
  lset_op, gset_op, setcc_op, cc_op, pop_op, cons_op, car_op, cdr_op, setcar_op, setcdr_op,
  car_of_other, cdr_of_other, set_car_of_other, set_cdr_of_other, Machine, World, Outcome, next,
  finished, unpack1, unpack2, push, pop, peek, poke, compiled_of, fail, begin, return,
}
use brianscheme.Vm.Frame.{
  from_top, pushvarargs, chainframe, endframe, argcheck, spush, sset, swap, jump, fjump, tjump, fn,
  cconst, lvar, lset,
}
use brianscheme.Vm.Call.{callj}
use brianscheme.Vm.Global.{gvar, gset, cc, setcc}

-- The cell of the two values on top.
unfoldable pub cons_top : Machine → Option Outcome
unfolding peek cons poke
cons_top m = do
  i ← from_top m 1
  j ← from_top m 2
  a ← peek m j
  d ← peek m i
  r ← cons m.store a d
  m' ← poke (record m { store = r.1 }) j r.0
  some (next (record m' { stack_top = i }))

unfoldable pub car_top : World → Machine → Option Outcome
unfolding peek car poke fail
car_top w m = do
  i ← from_top m 1
  top ← peek m i
  (if is_pair m.store top || is_the_empty_list m.store top
      then (do a ← car m.store top; m' ← poke m i a; some (next m'))
      else fail w m car_of_other)

unfoldable pub cdr_top : World → Machine → Option Outcome
unfolding peek cdr poke fail
cdr_top w m = do
  i ← from_top m 1
  top ← peek m i
  (if is_pair m.store top || is_the_empty_list m.store top
      then (do d ← cdr m.store top; m' ← poke m i d; some (next m'))
      else fail w m cdr_of_other)

unfoldable pub setcar_top : World → Machine → Option Outcome
unfolding peek set_car poke fail
setcar_top w m = do
  i ← from_top m 1
  j ← from_top m 2
  top ← peek m j
  v ← peek m i
  (if is_pair m.store top
      then (do
        s ← set_car m.store top v
        m' ← poke (record m { store = s }) j v
        some (next (record m' { stack_top = i })))
      else fail w m set_car_of_other)

unfoldable pub setcdr_top : World → Machine → Option Outcome
unfolding peek set_cdr poke fail
setcdr_top w m = do
  i ← from_top m 1
  j ← from_top m 2
  top ← peek m j
  v ← peek m i
  (if is_pair m.store top
      then (do
        s ← set_cdr m.store top v
        m' ← poke (record m { store = s }) j v
        some (next (record m' { stack_top = i })))
      else fail w m set_cdr_of_other)

unfoldable pub save : ℕ → Machine → Option Machine
unfolding push make_small_fixnum
save arg1 m = do
  m₁ ← push m m.env
  m₂ ← push m₁ m.fn
  m₃ ← push m₂ (make_small_fixnum (arg1 * 2 % 2 ^ 64))
  push m₃ (make_small_fixnum m.fn_first_arg)

-- goto *codes[tgt], with the operands of the instruction; `fuel` bounds the list given to apply.
unfoldable pub dispatch : World → ℕ → Opcode → ℕ → ℕ → Machine → Option Outcome
unfolding pushvarargs chainframe endframe argcheck spush sset swap fjump tjump fn callj lvar lset
    gvar gset setcc cc pop cons_top car_top cdr_top setcar_top setcdr_top save return cconst
dispatch w fuel pushvarargs_op arg1 arg2 m = pushvarargs arg1 m
dispatch w fuel chainframe_op arg1 arg2 m = chainframe arg1 m
dispatch w fuel endframe_op arg1 arg2 m = endframe arg1 m
dispatch w fuel argcheck_op arg1 arg2 m = argcheck w arg1 arg2 m
dispatch w fuel spush_op arg1 arg2 m = spush arg1 m
dispatch w fuel sset_op arg1 arg2 m = sset arg1 m
dispatch w fuel swap_op arg1 arg2 m = swap m
dispatch w fuel return_op arg1 arg2 m = return w m
dispatch w fuel cconst_op arg1 arg2 m = cconst arg1 m
dispatch w fuel fn_op arg1 arg2 m = fn arg1 m
dispatch w fuel fjump_op arg1 arg2 m = fjump arg1 m
dispatch w fuel tjump_op arg1 arg2 m = tjump arg1 m
dispatch w fuel jump_op arg1 arg2 m = some (jump arg1 m)
dispatch w fuel callj_op arg1 arg2 m = callj w fuel arg1 m
dispatch w fuel lvar_op arg1 arg2 m = lvar arg1 arg2 m
dispatch w fuel save_op arg1 arg2 m = do m' ← save arg1 m; some (next m')
dispatch w fuel gvar_op arg1 arg2 m = gvar w arg1 m
dispatch w fuel lset_op arg1 arg2 m = lset arg1 arg2 m
dispatch w fuel gset_op arg1 arg2 m = gset arg1 m
dispatch w fuel setcc_op arg1 arg2 m = setcc m
dispatch w fuel cc_op arg1 arg2 m = cc m
dispatch w fuel pop_op arg1 arg2 m = do top ← pop m; some (next top.1)
dispatch w fuel cons_op arg1 arg2 m = cons_top m
dispatch w fuel car_op arg1 arg2 m = car_top w m
dispatch w fuel cdr_op arg1 arg2 m = cdr_top w m
dispatch w fuel setcar_op arg1 arg2 m = setcar_top w m
dispatch w fuel setcdr_op arg1 arg2 m = setcdr_top w m

-- NEXT_INSTRUCTION.
unfoldable pub step : World → ℕ → Machine → Option Outcome
unfolding dispatch unpack1 unpack2
step w fuel m = do
  op ← w.opcode (w.word m.codes m.pc)
  let operands = w.word m.codes (m.pc + 1)
  dispatch w fuel op (unpack1 operands) (unpack2 operands) (record m { pc = m.pc + 2 })

-- The rounds of the machine, on fuel.
unfoldable pub run : ℕ → World → Machine → Option (Ptr × Machine)
unfolding step
run zero w m = none
run (suc fuel) w m = do
  o ← step w (suc fuel) m
  elim o [ finished v m' ↦ some (v, m') | next m' ↦ run fuel w m' ]

-- vm_execute, less the call that only builds the dispatch table.
unfoldable pub vm_execute :
    ℕ → World → Store → Ptr → List Ptr → ℕ → ℕ → Ptr → Bool → Option (Ptr × Machine)
unfolding run begin
vm_execute fuel w s fn stack stack_top n_args genv sigint = do
  b ← compiled_of (s.object fn)
  o ← begin w (record {
    store = s;
    stack = stack;
    stack_top = stack_top;
    initial_top = stack_top - n_args;
    fn_first_arg = stack_top - n_args;
    n_args = n_args;
    pc = 0;
    fn = fn;
    env = b.1;
    genv = genv;
    codes = 0;
    const_array = 0;
    sigint_set = sigint;
  })
  elim o [ finished v m' ↦ some (v, m') | next m' ↦ run fuel w m' ]
