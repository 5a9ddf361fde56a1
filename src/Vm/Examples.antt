-- ===== src/Vm/Examples.antt =====
-- Tests of the model of vm.c, and its theorems at a small machine.
use brianscheme.Base.{
  ◌&&◌, inl, ◌==◌, if◌then◌else◌, ℕ, ◌*◌, ◌≡◌, refl, some, none, false, [], ◌∷◌, List, arith,
}
use brianscheme.Object.{make_small_fixnum, alien, fixnum, pair, vector, Ptr, nil}
use brianscheme.Store.Blank.{blank}
use brianscheme.Store.{Store, varray}
use brianscheme.Vm.{Machine, World, next, begin, return, vector_push}
use brianscheme.Vm.Step.{save}
use brianscheme.Vm.Frame.{endframe, lset, lvar, push_next, frame_vector}
use brianscheme.Vm.Variables.{lvar-lset}
use brianscheme.Vm.Bytecode.{
  Codes, operands, set_bytecode_operands_proc, get_bytecode_operands_proc,
  set_bytecode_operands_proc-get_bytecode_operands_proc,
}
use brianscheme.Vm.Stack.{Holds, with_stack, return-save}
use brianscheme.Vm.EndFrame.{endframe-Holds}

abbrev store : Store
store = blank

abbrev world : World
world = record {
  word = λ c i. 0;
  opcode = λ n. none;
  text = λ f. [];
  primitive = λ f s stack n top. none;
}

-- A full stack of four values.
abbrev machine : Machine
machine = record {
  store = store;
  stack = 8 ∷ 16 ∷ 24 ∷ 32 ∷ [];
  stack_top = 4;
  initial_top = 0;
  fn_first_arg = 1;
  n_args = 1;
  pc = 6;
  fn = 40;
  env = 48;
  genv = 56;
  codes = 0;
  const_array = 0;
  sigint_set = false;
}

machine-Holds : Holds machine (8 ∷ 16 ∷ 24 ∷ 32 ∷ [])
machine-Holds = record { values = refl; fits = omega arith; room = omega arith }

-- The machine after save: the environment, the procedure, and 10 and 1 as small fixnums.
abbrev caller : Machine
caller = with_stack machine (8 ∷ 16 ∷ 24 ∷ 32 ∷ 48 ∷ 40 ∷ 21 ∷ 3 ∷ []) 8

-- The callee's machine, with the value 64 above what save left.
abbrev callee : Machine
callee = record machine {
  fn = 80;
  env = 88;
  stack = 8 ∷ 16 ∷ 24 ∷ 32 ∷ 48 ∷ 40 ∷ 21 ∷ 3 ∷ 64 ∷ [];
  stack_top = 9;
}

return-save_example :
    (r : Machine) × (return world callee ≡ begin world r)
    × Holds r (8 ∷ 16 ∷ 24 ∷ 32 ∷ 64 ∷ [])
    × (r.fn ≡ 40)
    × (r.env ≡ 48)
    × (r.pc ≡ 5 * 2)
    × (r.fn_first_arg ≡ 1)
    × (r.store ≡ store)
    × (r.initial_top ≡ 0)
unfolding save make_small_fixnum
return-save_example =
    return-save world machine caller callee 5 64 (8 ∷ 16 ∷ 24 ∷ 32 ∷ []) (omega arith) (omega arith)
      machine-Holds refl (record { values = refl; fits = omega arith; room = omega arith })
      (λ e. absurd (omega arith))

endframe-Holds_example :
    (stack : List Ptr) × (top : ℕ) × (endframe 2 machine
      ≡ some (next (with_stack machine stack top)))
    × Holds (with_stack machine stack top) (8 ∷ 24 ∷ 32 ∷ [])
endframe-Holds_example = endframe-Holds machine (8 ∷ []) (16 ∷ []) (24 ∷ 32 ∷ []) machine-Holds refl

-- The machine with an environment of one frame of two variables.
abbrev scoped : Machine
scoped = record machine {
  store = record store {
    object = λ p. if p == 48 then pair 72 96 else if p == 72 then vector (96 ∷ 96 ∷ []) else nil;
  };
}

lvar-lset_example :
    (s : Store) × (lset 0 1 scoped ≡ some (next (record scoped { store = s })))
    × (lvar 0 1 (record scoped { store = s }) ≡ push_next (record scoped { store = s }) 32)
unfolding frame_vector varray
lvar-lset_example =
    lvar-lset scoped 0 1 72 32 (96 ∷ 96 ∷ []) (8 ∷ 16 ∷ 24 ∷ [])
      (record { values = refl; fits = omega arith; room = omega arith }) refl refl (omega arith)

-- A stack of no slots does not grow.
push_to_nothing : vector_push 96 [] 8 0 ≡ none
unfolding vector_push
push_to_nothing = refl

abbrev operand_store : Store
operand_store = record blank {
  object = λ p.
      if p == 400
      then alien 7 96
      else if p == 408
      then fixnum 2
      else if p == 416
      then fixnum 5
      else nil;
  free = 424 ∷ 432 ∷ 440 ∷ [];
}

set_bytecode_operands_proc-get_bytecode_operands_proc_example :
    (first : Ptr) × (codes : Codes) × (set_bytecode_operands_proc operand_store
        (λ b i. 0)
        (400 ∷ 408 ∷ 416 ∷ 408 ∷ [])
        4
        4
      ≡ some (first, operand_store, codes))
    × (operands (get_bytecode_operands_proc operand_store codes (400 ∷ 408 ∷ 416 ∷ 408 ∷ []) 4 4)
        ≡ some (fixnum 5, fixnum 2))
    × ((b i : ℕ) → (b == 7 && i == 2) ≡ false → codes b i ≡ 0)
set_bytecode_operands_proc-get_bytecode_operands_proc_example =
    set_bytecode_operands_proc-get_bytecode_operands_proc operand_store (λ b i. 0)
      (400 ∷ 408 ∷ 416 ∷ 408 ∷ []) 4 4 7 2 5 2
      (400, 408, 416, 408, refl, refl, refl, refl, refl, refl, refl, refl) refl refl refl refl
      (inl (omega arith)) (omega arith)
