-- ===== src/Vm/Call.antt =====
-- vm.c: callj, with apply and the call of a primitive.
use brianscheme.Base.{
  ℕ, zero, suc, ◌+◌, ◌-◌, ◌%◌, ◌^◌, ◌||◌, Option, none, some, ◌==◌, if◌then◌else◌, ◌>>=◌,
}
use brianscheme.Object.{Ptr, Data, meta_proc, primitive_proc}
use brianscheme.Store.{
  car, cdr, is_pair, is_meta, is_primitive_proc, is_the_empty_list, is_primitive_exception,
}
use brianscheme.Vm.{
  not_a_list, improper_list, cannot_invoke, Machine, World, Outcome, push, pop, compiled_of,
  is_compiled, error_restart, fail, begin, return,
}
use brianscheme.Vm.Frame.{from_top}

abbrev pub metaproc_of : Data → Option Ptr
metaproc_of (meta_proc proc data') = some proc
metaproc_of _ = none

abbrev pub primitive_of : Data → Option ℕ
primitive_of (primitive_proc f) = some f
primitive_of _ = none

-- The end of the loop that spreads the argument list of apply: all of it, or what follows its last
-- pair is no list. The machine is as the loop left it, and the number counts the arguments.
pub data Spread : Type 0 where
  spread_all spread_improper : ℕ → Machine → Spread

-- On fuel.
unfoldable pub spread : ℕ → ℕ → Ptr → Machine → Option Spread
unfolding push car cdr
spread zero n args m = none
spread (suc fuel) n args m =
    let more = (do
      a ← car m.store args
      m' ← push m a
      d ← cdr m.store args
      spread fuel (n + 1) d m') in
    if is_the_empty_list m.store args
    then some (spread_all n m)
    else if is_pair m.store args
    then more
    else some (spread_improper n m)

-- The arguments of a primitive are dropped.
unfoldable pub pop_many : ℕ → Machine → Option Machine
unfolding pop
pop_many zero m = some m
pop_many (suc n) m = do temp ← pop m; pop_many n temp.1

unfoldable pub call_primitive : World → Ptr → ℕ → Machine → Option Outcome
unfolding pop_many is_primitive_exception error_restart push return cdr
call_primitive w pfn args_for_call m = do
  f ← primitive_of (m.store.object pfn)
  r ← w.primitive f m.store m.stack args_for_call m.stack_top
  m' ← pop_many args_for_call (record m { store = r.1; stack = r.2 })
  bad ← is_primitive_exception m'.store r.0
  if bad
      then (do d ← cdr m'.store r.0; error_restart w m' d)
      else (do m'' ← push m' r.0; return w m'')

-- callj from `fn_first_arg = stack_top - args_for_call` on.
unfoldable pub invoke : World → Ptr → ℕ → Machine → Option Outcome
unfolding begin call_primitive fail
invoke w top args_for_call m = do
  first ← from_top m args_for_call
  let m' = record m { fn_first_arg = first }
  (if is_compiled m.store top
      then (do
        b ← compiled_of (m.store.object top)
        begin w (record m' { fn = top; pc = 0; n_args = args_for_call; env = b.1 }))
      else if is_primitive_proc m.store top
      then call_primitive w top args_for_call m'
      else fail w m' cannot_invoke)

-- The list of arguments of apply.
unfoldable pub callj_list : World → ℕ → Ptr → Machine → Option Outcome
unfolding pop invoke spread fail
callj_list w fuel top m = do
  args ← pop m
  (if is_pair m.store args.0 || is_the_empty_list m.store args.0
      then (do
        r ← spread fuel 0 args.0 args.1
        elim r [
          | spread_all n m' ↦ invoke w top n m'
          | spread_improper n m' ↦ fail w m' improper_list
        ])
      else fail w args.1 not_a_list)

unfoldable pub callj : World → ℕ → ℕ → Machine → Option Outcome
unfolding pop invoke callj_list
callj w fuel arg1 m = do
  called ← pop m
  top ← (if is_meta m.store called.0 then metaproc_of (m.store.object called.0) else some called.0)
  (if arg1 % 2 ^ 32 == 2 ^ 32 - 1
      then callj_list w fuel top called.1
      else invoke w top arg1 called.1)
