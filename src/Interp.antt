-- ===== src/Interp.antt =====
-- interp.c: the evaluator. The vector object that interp1 uses as the stack of primitive calls is the
-- list of its slots. The loop that `goto interp_restart` makes is a call; `level`, which nothing
-- reads, is left out. Functions take interp1 as an argument; the last definition ties it up, on fuel.
pub mod Choices
pub mod Numbers
pub mod Objects
pub mod Pairs
pub mod Ports
pub mod Primitives
pub mod Tables
pub mod Texts
pub mod Vectors
mod Examples
use brianscheme.Base.{
  ℕ, zero, suc, ◌+◌, Bool, true, false, ◌||◌, Option, none, some, List, ◌==◌, if◌then◌else◌, ◌>>=◌,
  replicate,
}
use brianscheme.Object.{Ptr, Data, compound_proc, syntax_proc, the_empty_list}
use brianscheme.Store.{
  Store, car, cdr, cons, set_car, set_cdr, is_symbol, is_pair, is_meta, is_primitive_proc,
  is_the_empty_list, make_vector, make_compound_proc, throw_message,
}
use brianscheme.Store.Types.{is_atom, is_compound_proc, is_syntax_proc}
use brianscheme.Env.{extend_environment, lookup_variable_value, define_variable}
use brianscheme.Print.{Printer, owrite}
use brianscheme.Vm.{World, is_compiled, vector_push, vector_pop}
use brianscheme.Vm.Frame.{is_falselike}
use brianscheme.Vm.Call.{metaproc_of, primitive_of}
use brianscheme.Vm.Step.{vm_execute}

pub data EvalFault : Type 0 where
  unbound_variable : Ptr → EvalFault
  empty_begin cannot_apply cannot_apply_call : EvalFault

-- What the evaluator calls, the texts of messages, and whether a signal is pending.
pub record Runtime : Type 0 where
  pub world : World
  pub text : EvalFault → List ℕ
  pub printer : Printer
  pub sigint : Bool

-- The value, the store and the stack.
abbrev pub Evaluated : Type 0
Evaluated = Option (Ptr × Store × List Ptr)

-- interp1 from a store, a stack, its top, an expression and an environment on.
abbrev pub Evaluator : Type 0
Evaluator = Store → List Ptr → ℕ → Ptr → Ptr → Evaluated

abbrev pub with_stack : List Ptr → Option (Ptr × Store) → Evaluated
with_stack stack o = do r ← o; some (r.0, r.1, stack)

abbrev pub second : Store → Ptr → Option Ptr
second s p = do d ← cdr s p; car s d

-- The while loop of begin, then its last expression; on fuel.
unfoldable pub eval_sequence : ℕ → Evaluator → Evaluator
unfolding car cdr
eval_sequence zero eval s stack top exp env = none
eval_sequence (suc fuel) eval s stack top exp env = do
  rest ← cdr s exp
  first ← car s exp
  let more = (do
    r ← eval s stack top first env
    d ← cdr r.1 exp
    eval_sequence fuel eval r.1 r.2 top d env)
  (if is_the_empty_list s rest then eval s stack top first env else more)

unfoldable pub eval_begin : Runtime → ℕ → Evaluator → Evaluator
unfolding eval_sequence throw_message cdr
eval_begin w fuel eval s stack top exp env = do
  body ← cdr s exp
  (if is_the_empty_list s body
      then with_stack stack (throw_message s (w.text empty_begin))
      else eval_sequence fuel eval s stack top body env)

unfoldable pub eval_set : ℕ → Evaluator → Evaluator
unfolding define_variable car cdr
eval_set fuel eval s stack top exp env = do
  args ← cdr s exp
  value_exp ← second s args
  val ← eval s stack top value_exp env
  var ← car val.1 args
  s' ← define_variable fuel val.1 val.1.global_env var val.0 env
  some (val.0, s', val.2)

-- The branch that `if` goes on with; the inner `none` is a missing else.
unfoldable pub branch : Store → Ptr → Ptr → Option (Option Ptr)
unfolding is_falselike car cdr
branch s predicate args = do
  rest ← cdr s args
  otherwise ← cdr s rest
  consequent ← car s rest
  (if is_falselike s predicate
      then (if is_the_empty_list s otherwise
          then some none
          else (do e ← car s otherwise; some (some e)))
      else some (some consequent))

unfoldable pub eval_if : Evaluator → Evaluator
unfolding car cdr
eval_if eval s stack top exp env = do
  args ← cdr s exp
  test ← car s args
  predicate ← eval s stack top test env
  chosen ← branch predicate.1 predicate.0 args
  elim chosen [
    | none ↦ some (predicate.1.false_object, predicate.1, predicate.2)
    | some e ↦ eval predicate.1 predicate.2 top e env
  ]

unfoldable pub eval_lambda : Evaluator
unfolding cons make_compound_proc car cdr
eval_lambda s stack top exp env = do
  args ← cdr s exp
  rest ← cdr s args
  body ← cons s s.begin_symbol rest
  parameters ← car body.1 args
  with_stack stack (make_compound_proc body.1 parameters body.0 env)

-- COMPOUND_PARMS_AND_ENV and COMPOUND_BODY, of both kinds of procedures.
abbrev pub closure_of : Data → Option (Ptr × Ptr)
closure_of (compound_proc parms_and_env body) = some (parms_and_env, body)
closure_of (syntax_proc parms_and_env body) = some (parms_and_env, body)
closure_of _ = none

unfoldable pub expand_macro : Evaluator → Ptr → Evaluator
unfolding extend_environment car
expand_macro eval macro s stack top args env = do
  c ← closure_of (s.object macro)
  parameters ← car s c.0
  new_env ← extend_environment s parameters args env
  eval new_env.1 stack top c.1 new_env.0

-- A macro call, which its expansion replaces in the expression.
unfoldable pub eval_macro : Evaluator → Ptr → Ptr → Evaluator
unfolding expand_macro set_car set_cdr car cdr
eval_macro eval fn args s stack top exp env = do
  expansion ← expand_macro eval fn s stack top args env
  let replaced = (do
    a ← car expansion.1 expansion.0
    s₁ ← set_car expansion.1 exp a
    d ← cdr s₁ expansion.0
    s₂ ← set_cdr s₁ exp d
    eval s₂ expansion.2 top exp env)
  (if is_pair expansion.1 expansion.0
      then replaced
      else eval expansion.1 expansion.2 top expansion.0 env)

-- The arguments of a primitive or compiled procedure, on the stack: their number and the new top.
unfoldable pub push_arguments :
    ℕ → Evaluator → Store → List Ptr → ℕ → ℕ → Ptr → Ptr → Option (ℕ × ℕ × Store × List Ptr)
unfolding vector_push car cdr
push_arguments zero eval s stack top count args env = none
push_arguments (suc fuel) eval s stack top count args env =
    let more = (do
      a ← car s args
      r ← eval s stack top a env
      stack' ← vector_push r.1.empty_list r.2 r.0 top
      d ← cdr r.1 args
      push_arguments fuel eval r.1 stack' (top + 1) (count + 1) d env) in
    if is_the_empty_list s args then some (count, top, s, stack) else more

-- VPOP, `n` times.
unfoldable pub clear_arguments : ℕ → Ptr → List Ptr → ℕ → Option (List Ptr)
unfolding vector_pop
clear_arguments zero empty stack top = some stack
clear_arguments (suc n) empty stack zero = none
clear_arguments (suc n) empty stack (suc top) = do
  r ← vector_pop empty stack (suc top)
  clear_arguments n empty r.1 top

unfoldable pub call_native : Runtime → ℕ → Ptr → ℕ → Store → List Ptr → ℕ → Evaluated
unfolding clear_arguments vm_execute
call_native w fuel fn arg_count s stack top =
    if is_primitive_proc s fn
    then (do
      f ← primitive_of (s.object fn)
      r ← w.world.primitive f s stack arg_count top
      stack' ← clear_arguments arg_count r.1.empty_list r.2 top
      some (r.0, r.1, stack'))
    else (do
      r ← vm_execute fuel w.world s fn stack top arg_count s.vm_env w.sigint
      some (r.0, r.1.store, r.1.stack))

-- The arguments of a compound procedure, as a list that grows at `last`.
unfoldable pub list_arguments :
    ℕ → Evaluator → Store → List Ptr → ℕ → Ptr → Ptr → Ptr → Ptr → Evaluated
unfolding cons set_cdr car cdr
list_arguments zero eval s stack top evald_args last args env = none
list_arguments (suc fuel) eval s stack top evald_args last args env =
    let more = (do
      a ← car s args
      r ← eval s stack top a env
      cell ← cons r.1 r.0 r.1.empty_list
      let first = evald_args == r.1.empty_list
      s' ← (if first then some cell.1 else set_cdr cell.1 last cell.0)
      last' ← (if first then some cell.0 else cdr s' last)
      d ← cdr s' args
      list_arguments fuel eval s' r.2 top (if first then cell.0 else evald_args) last' d env) in
    if is_the_empty_list s args then some (evald_args, s, stack) else more

unfoldable pub call_compound : ℕ → Evaluator → Ptr → Ptr → Evaluator
unfolding list_arguments extend_environment car cdr
call_compound fuel eval fn args s stack top exp env = do
  evald ← list_arguments fuel eval s stack top s.empty_list s.empty_list args env
  c ← closure_of (evald.1.object fn)
  parameters ← car evald.1 c.0
  outer ← cdr evald.1 c.0
  new_env ← extend_environment evald.1 parameters evald.0 outer
  eval new_env.1 evald.2 top c.1 new_env.0

-- owrite(stderr, obj), then the message.
unfoldable pub complain : Runtime → ℕ → EvalFault → Ptr → Store → Option (Ptr × Store)
unfolding owrite throw_message
complain w fuel fault obj s = do
  written ← owrite fuel w.printer s obj
  throw_message written.1 (w.text fault)

-- Procedure application.
unfoldable pub eval_call : Runtime → ℕ → Evaluator → Ptr → Evaluator
unfolding eval_macro push_arguments call_native call_compound complain cdr
eval_call w fuel eval head s stack top exp env = do
  called ← eval s stack top head env
  args ← cdr called.1 exp
  fn ← (if is_meta called.1 called.0 then metaproc_of (called.1.object called.0) else some called.0)
  (if is_syntax_proc called.1 fn
      then eval_macro eval fn args called.1 called.2 top exp env
      else if is_primitive_proc called.1 fn || is_compiled called.1 fn
      then (do
        r ← push_arguments fuel eval called.1 called.2 top 0 args env
        call_native w fuel fn r.0 r.2 r.3 r.1)
      else if is_compound_proc called.1 fn
      then call_compound fuel eval fn args called.1 called.2 top exp env
      else with_stack called.2 (complain w fuel cannot_apply_call fn called.1))

-- g->empty_list->type == THE_EMPTY_LIST.
abbrev pub is_sane : Data → Bool
is_sane (the_empty_list a b) = true
is_sane _ = false

-- An expression that is no atom.
unfoldable pub eval_form : Runtime → ℕ → Evaluator → Evaluator
unfolding eval_begin eval_set eval_lambda eval_call car
eval_form w fuel eval s stack top exp env = do
  head ← car s exp
  (if head == s.quote_symbol
      then (do d ← cdr s exp; v ← car s d; some (v, s, stack))
      else if head == s.begin_symbol
      then eval_begin w fuel eval s stack top exp env
      else if head == s.set_symbol
      then eval_set fuel eval s stack top exp env
      else if head == s.if_symbol
      then eval_if eval s stack top exp env
      else if head == s.lambda_symbol
      then eval_lambda s stack top exp env
      else eval_call w fuel eval head s stack top exp env)

unfoldable pub eval_body : Runtime → ℕ → Evaluator → Evaluator
unfolding is_atom lookup_variable_value
eval_body w fuel eval s stack top exp env =
    if is_sane (s.object s.empty_list)
    then (if is_symbol s exp
        then with_stack stack
            (lookup_variable_value fuel (w.text (unbound_variable exp)) s s.global_env exp env)
        else if is_atom s exp
        then some (exp, s, stack)
        else eval_form w fuel eval s stack top exp env)
    else none

unfoldable pub interp1 : ℕ → Runtime → Evaluator
interp1 zero w s stack top exp env = none
interp1 (suc fuel) w s stack top exp env = eval_body w fuel (interp1 fuel w) s stack top exp env

unfoldable pub interp : ℕ → Runtime → Store → Ptr → Ptr → Option (Ptr × Store)
unfolding interp1 make_vector
interp fuel w s exp env = do
  prim_call_stack ← make_vector s s.empty_list 10
  r ← interp1 fuel w prim_call_stack.1 (replicate 10 s.empty_list) 0 exp env
  some (r.0, r.1)

-- The arguments of apply, on its own stack: their number, and the stack.
unfoldable pub push_list : ℕ → Store → List Ptr → ℕ → Ptr → Option (ℕ × List Ptr)
unfolding vector_push car cdr
push_list zero s stack top args = none
push_list (suc fuel) s stack top args =
    let more = (do
      a ← car s args
      stack' ← vector_push s.empty_list stack a top
      d ← cdr s args
      push_list fuel s stack' (top + 1) d) in
    if is_the_empty_list s args then some (top, stack) else more

unfoldable pub apply : ℕ → Runtime → Store → Ptr → Ptr → Option (Ptr × Store)
unfolding push_list make_vector vm_execute extend_environment interp complain car cdr
apply fuel w s obj evald_args = do
  fn ← (if is_meta s obj then metaproc_of (s.object obj) else some obj)
  let native = (do
    vec ← make_vector s s.empty_list 30
    r ← push_list fuel vec.1 (replicate 30 s.empty_list) 0 evald_args
    (if is_primitive_proc vec.1 fn
        then (do
          f ← primitive_of (vec.1.object fn)
          v ← w.world.primitive f vec.1 r.1 r.0 r.0
          some (v.0, v.1))
        else (do
          v ← vm_execute fuel w.world vec.1 fn r.1 r.0 r.0 vec.1.vm_env w.sigint
          some (v.0, v.1.store))))
  let compound = (do
    c ← closure_of (s.object fn)
    parameters ← car s c.0
    outer ← cdr s c.0
    env ← extend_environment s parameters evald_args outer
    interp fuel w env.1 c.1 env.0)
  (if is_primitive_proc s fn || is_compiled s fn
      then native
      else if is_compound_proc s fn || is_syntax_proc s fn
      then compound
      else complain w fuel cannot_apply fn s)
