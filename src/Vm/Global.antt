-- ===== src/Vm/Global.antt =====
-- vm.c: global variables and continuations.
use brianscheme.Base.{ℕ, Option, some, ◌==◌, if◌then◌else◌, ◌>>=◌}
use brianscheme.Object.{null, vector}
use brianscheme.Env.{lookup_global_value, define_global_variable}
use brianscheme.Store.{
  write, cons, cdr, set_cdr, varray, vector_set, make_vector, make_fixnum, make_compiled_proc,
  get_hashtab, is_pair, is_primitive_exception,
}
use brianscheme.Vm.{unbound, Machine, World, Outcome, next, push, pop, peek, long_of, error_restart}
use brianscheme.Vm.Frame.{from_top, constant, copy_slots, push_next}

unfoldable pub gvar : World → ℕ → Machine → Option Outcome
unfolding constant lookup_global_value is_primitive_exception error_restart vector_set push cdr
gvar w arg1 m = do
  var ← constant m arg1
  (if is_pair m.store var then (do d ← cdr m.store var; push_next m d) else (do
    val ← lookup_global_value (w.text (unbound var)) m.store var m.genv
    let m' = record m { store = val.1 }
    bad ← is_primitive_exception val.1 val.0
    if bad then (do d ← cdr val.1 val.0; error_restart w m' d) else (do
      s ← vector_set val.1 m.const_array arg1 val.0
      d ← cdr s val.0
      push_next (record m { store = s }) d)))

unfoldable pub gset : ℕ → Machine → Option Outcome
unfolding constant peek get_hashtab set_cdr cons define_global_variable
gset arg1 m = do
  var ← constant m arg1
  i ← from_top m 1
  val ← peek m i
  slot ← get_hashtab m.store m.genv var null
  (if slot == null
      then (do
        c ← cons m.store var val
        s ← define_global_variable c.1 var c.0 m.genv
        some (next (record m { store = s })))
      else (do s ← set_cdr m.store slot val; some (next (record m { store = s }))))

unfoldable pub setcc : Machine → Option Outcome
unfolding pop make_vector varray
setcc m = do
  top ← pop m
  new_stack_top ← pop top.1
  stack_top ← long_of (m.store.object new_stack_top.0)
  stack ← make_vector m.store m.store.empty_list stack_top
  saved ← varray stack.1 top.0
  copied ← copy_slots stack_top saved
  some (next (record (new_stack_top.1) { store = stack.1; stack = copied; stack_top = stack_top }))

unfoldable pub cc : Machine → Option Outcome
unfolding write make_vector vector_set make_fixnum cons make_compiled_proc push
cc m = do
  cc_env ← make_vector m.store m.store.empty_list 2
  copied ← copy_slots m.stack_top m.stack
  new_stack ← make_vector cc_env.1 m.store.empty_list m.stack_top
  let filled = write new_stack.1 new_stack.0 (vector copied)
  s₁ ← vector_set filled cc_env.0 0 new_stack.0
  top ← make_fixnum s₁ m.stack_top
  s₂ ← vector_set top.1 cc_env.0 1 top.0
  env ← cons s₂ cc_env.0 m.store.empty_list
  cc_fn ← make_compiled_proc env.1 env.1.cc_bytecode env.0
  push_next (record m { store = cc_fn.1 }) cc_fn.0
