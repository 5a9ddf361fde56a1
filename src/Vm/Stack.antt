-- ===== src/Vm/Stack.antt =====
-- vm.c: VPUSH and VPOP on the list of the values on the machine's stack, and save with return.
use native.Mathlib.Numerals.{add-one}
use brianscheme.Base.{
  ℕ, zero, suc, ◌+◌, ◌-◌, ◌*◌, ◌≤◌, ◌<◌, ◌^◌, ◌≡◌, ◌≢◌, refl, sym, ap, ◌∙◌, inl, inr, ◌⊎◌, ◌%◌,
  Option, none, some, List, [], ◌∷◌, ◌++◌, arith, ◌==◌, Bool-cases, ne→==, lt→ltb, length, take,
  replicate, set, length-append, length-set, length-replicate,
}
use brianscheme.Object.{Ptr, make_small_fixnum, small_fixnum}
use brianscheme.Vm.{
  Machine, World, vector_push, vector_pop, push, pop, begin, return, combined, unpack1, unpack2,
}
use brianscheme.Vm.Step.{save}
use brianscheme.Base.Slices.{take-set, take-set_below, take-append, no_snoc, take_last}

-- The machine's stack holds the values `xs`, the top last, inside its array.
pub record Holds (m : Machine) (xs : List Ptr) : Type 0 where
  pub values : take m.stack_top m.stack ≡ xs
  pub fits : m.stack_top ≤ length m.stack
  pub room : 0 < length m.stack

abbrev pub with_stack : Machine → List Ptr → ℕ → Machine
with_stack m stack top = record m { stack = stack; stack_top = top }

-- VPUSH adds a value above the others, and makes the array larger when it is full; nothing else in
-- the machine changes.
pub push-Holds :
    (m : Machine) (xs : List Ptr) (obj : Ptr)
    → Holds m xs
    → (stack : List Ptr) × (push m obj ≡ some (with_stack m stack (m.stack_top + 1)))
      × Holds (with_stack m stack (m.stack_top + 1)) (xs ++ obj ∷ [])
unfolding push vector_push
push-Holds m xs obj h = elim (Bool-cases (m.stack_top == length m.stack)) [
  | inl e ↦
      let grown = m.stack ++ replicate (length m.stack) m.store.empty_list in
      let size : length grown ≡ length m.stack + length m.stack =
        length-append m.stack (replicate (length m.stack) m.store.empty_list)
        ∙ rw (length-replicate (length m.stack) m.store.empty_list) in
      let lt : m.stack_top < length grown = omega (arith, size, h.fits, h.room) in
      (
        set grown m.stack_top obj,
        rw (e, lt→ltb m.stack_top (length grown) lt),
        record {
          values = rw (add-one m.stack_top) (
              take-set grown m.stack_top obj lt
              ∙ ap (λ (ys : List Ptr). ys ++ obj ∷ [])
                  (take-append m.stack _ m.stack_top h.fits ∙ h.values));
          fits = omega (arith, length-set grown m.stack_top obj, lt);
          room = omega (arith, length-set grown m.stack_top obj, lt);
        },
      )
  | inr e ↦
      let lt : m.stack_top < length m.stack = ground (arith, h.fits) in
      (
        set m.stack m.stack_top obj,
        rw (e, lt→ltb m.stack_top (length m.stack) lt),
        record {
          values = rw (add-one m.stack_top) (
              take-set m.stack m.stack_top obj lt
              ∙ ap (λ (ys : List Ptr). ys ++ obj ∷ []) h.values);
          fits = omega (arith, length-set m.stack m.stack_top obj, lt);
          room = omega (arith, length-set m.stack m.stack_top obj, lt);
        },
      )
]

-- VPOP takes the value on top off and gives it; nothing else in the machine changes.
pub pop-Holds :
    (m : Machine) (xs : List Ptr) (obj : Ptr)
    → Holds m (xs ++ obj ∷ [])
    → (stack : List Ptr) × (pop m ≡ some (obj, with_stack m stack (m.stack_top - 1)))
      × Holds (with_stack m stack (m.stack_top - 1)) xs
unfolding pop vector_pop
pop-Holds m xs obj h = go m.stack_top h.values h.fits
  where
    go :
        (top : ℕ)
        → take top m.stack ≡ xs ++ obj ∷ []
        → top ≤ length m.stack
        → (stack : List Ptr) × ◌≡◌ {A = Option (Ptr × Machine)}
            (elim (vector_pop m.store.empty_list m.stack top) [
              | none ↦ none
              | some r ↦ some (r.0, with_stack m r.1 (top - 1))
            ])
            (some (obj, with_stack m stack (top - 1)))
          × Holds (with_stack m stack (top - 1)) xs
    go zero e f = absurd (no_snoc xs obj e)
    go (suc t) e f =
        let (found, rest) = take_last m.stack xs obj t (omega arith) e in
        (
          set m.stack t m.store.empty_list,
          rw found,
          record {
            values =
                let q : suc t - 1 ≡ t = omega arith in
                rw q (take-set_below m.stack t m.store.empty_list ∙ rest);
            fits = omega (arith, length-set m.stack t m.store.empty_list);
            room = omega (arith, length-set m.stack t m.store.empty_list);
          },
        )

pub small_fixnum-make : (v : ℕ) → v < 2 ^ 63 → small_fixnum (make_small_fixnum v) ≡ v
unfolding small_fixnum make_small_fixnum
small_fixnum-make v h = omega arith

abbrev pub snoc : List Ptr → Ptr → List Ptr
snoc xs x = xs ++ x ∷ []

-- What save pushes.
abbrev pub saved : Machine → ℕ → List Ptr → List Ptr
saved m arg1 xs =
    snoc (snoc (snoc (snoc xs m.env) m.fn) (make_small_fixnum (arg1 * 2 % 2 ^ 64)))
      (make_small_fixnum m.fn_first_arg)

-- save adds its four values to the stack, and changes nothing but the stack.
pub save-Holds :
    (m : Machine) (arg1 : ℕ) (xs : List Ptr)
    → Holds m xs
    → (stack : List Ptr) × (top : ℕ) × (save arg1 m ≡ some (with_stack m stack top))
      × Holds (with_stack m stack top) (saved m arg1 xs)
unfolding save
save-Holds m arg1 xs h =
    let (s₁, e₁, h₁) = push-Holds m xs m.env h in
    let (s₂, e₂, h₂) = push-Holds _ _ m.fn h₁ in
    let (s₃, e₃, h₃) = push-Holds _ _ (make_small_fixnum (arg1 * 2 % 2 ^ 64)) h₂ in
    let (s₄, e₄, h₄) = push-Holds _ _ (make_small_fixnum m.fn_first_arg) h₃ in
    (s₄, m.stack_top + 1 + 1 + 1 + 1, rw (e₁, e₂, e₃, e₄), h₄)

-- return from the four values that `saved` lists.
return-saved :
    (w : World) (m c : Machine) (arg1 value : ℕ) (xs : List Ptr)
    → arg1 < 2 ^ 62
    → m.fn_first_arg < 2 ^ 63
    → Holds c (snoc (saved m arg1 xs) value)
    → c.stack_top ≢ c.initial_top + 1
    → (r : Machine) × (return w c ≡ begin w r)
      × Holds r (snoc xs value)
      × (r.fn ≡ m.fn)
      × (r.env ≡ m.env)
      × (r.pc ≡ arg1 * 2)
      × (r.fn_first_arg ≡ m.fn_first_arg)
      × (r.store ≡ c.store)
      × (r.initial_top ≡ c.initial_top)
unfolding return
return-saved w m c arg1 value xs small first h inner =
    let (s₁, e₁, h₁) = pop-Holds c _ value h in
    let (s₂, e₂, h₂) = pop-Holds _ _ (make_small_fixnum m.fn_first_arg) h₁ in
    let (s₃, e₃, h₃) = pop-Holds _ _ (make_small_fixnum (arg1 * 2 % 2 ^ 64)) h₂ in
    let (s₄, e₄, h₄) = pop-Holds _ _ m.fn h₃ in
    let (s₅, e₅, h₅) = pop-Holds _ xs m.env h₄ in
    let (s₆, e₆, h₆) = push-Holds _ xs value h₅ in
    let resumed : Machine = record (with_stack c s₆ (c.stack_top - 1 - 1 - 1 - 1 - 1 + 1)) {
      fn_first_arg = small_fixnum (make_small_fixnum m.fn_first_arg);
      pc = small_fixnum (make_small_fixnum (arg1 * 2 % 2 ^ 64));
      fn = m.fn;
      env = m.env;
    } in
    (
      resumed,
      rw (ne→== c.stack_top (c.initial_top + 1) inner, e₁, e₂, e₃, e₄, e₅, e₆),
      record { values = h₆.values; fits = h₆.fits; room = h₆.room },
      refl,
      refl,
      small_fixnum-make (arg1 * 2 % 2 ^ 64) (omega arith) ∙ omega arith,
      small_fixnum-make m.fn_first_arg first,
      refl,
      refl,
    )

-- What save leaves on the stack.
stack-save :
    (m m' : Machine) (arg1 : ℕ) (xs : List Ptr)
    → Holds m xs
    → save arg1 m ≡ some m'
    → take m'.stack_top m'.stack ≡ saved m arg1 xs
stack-save m m' arg1 xs h run =
    let (stack, top, e, held) = save-Holds m arg1 xs h in
    let same : some (with_stack m stack top) ≡ some m' = sym e ∙ run in
    let q : with_stack m stack top ≡ m' = cc in rw (← q) held.values

-- After save, of an instruction below 2 ^ 62, in a machine `m` whose stack holds `xs` and whose
-- arguments start below 2 ^ 63, return in any machine `c` whose stack holds what save left there and
-- one value above it, and that is not at its outermost level, goes on in the caller: the procedure,
-- its environment and its arguments are those of `m`, the instruction is the one that save was given,
-- the stack holds `xs` and the value, and the store is that of `c`.
pub return-save :
    (w : World) (m m' c : Machine) (arg1 value : ℕ) (xs : List Ptr)
    → arg1 < 2 ^ 62
    → m.fn_first_arg < 2 ^ 63
    → Holds m xs
    → save arg1 m ≡ some m'
    → Holds c (snoc (take m'.stack_top m'.stack) value)
    → c.stack_top ≢ c.initial_top + 1
    → (r : Machine) × (return w c ≡ begin w r)
      × Holds r (snoc xs value)
      × (r.fn ≡ m.fn)
      × (r.env ≡ m.env)
      × (r.pc ≡ arg1 * 2)
      × (r.fn_first_arg ≡ m.fn_first_arg)
      × (r.store ≡ c.store)
      × (r.initial_top ≡ c.initial_top)
return-save w m m' c arg1 value xs small first h run held inner =
    return-saved w m c arg1 value xs small first (rw (stack-save m m' arg1 xs h run) at held) inner

-- The operands that bytecode-operands-set! packs come out as they went in: the second below 2 ^ 16,
-- the first a `long` from -2 ^ 47 to 2 ^ 47 - 1, negative ones as 64-bit patterns.
pub unpack-combined :
    (arg1 arg2 : ℕ)
    → (arg1 < 2 ^ 47) ⊎ ((2 ^ 64 - 2 ^ 47 ≤ arg1) × (arg1 < 2 ^ 64))
    → arg2 < 2 ^ 16
    → (unpack1 (combined arg1 arg2) ≡ arg1) × (unpack2 (combined arg1 arg2) ≡ arg2)
unfolding unpack1 unpack2 combined
unpack-combined arg1 arg2 (inl h) h₂ = ground arith
unpack-combined arg1 arg2 (inr h) h₂ = ground arith
