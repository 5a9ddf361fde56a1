-- ===== src/Vm/Bytecode.antt =====
-- vm.c: the primitives on arrays of code words. An array is the address that an alien holds, and
-- `Codes` has the words of every array; a word outside an array has no test, as in the source.
use brianscheme.Base.{
  ℕ, ◌-◌, ◌^◌, ◌≤◌, ◌<◌, ◌≡◌, refl, ◌⊎◌, false, Option, some, List, ◌∷◌, if◌then◌else◌, ◌>>=◌, ◌&&◌,
  ◌==◌, ==-self,
}
use brianscheme.Object.{Ptr, Data, fixnum}
use brianscheme.Store.{Store, write, alloc, make_fixnum, cons, car, cdr}
use brianscheme.Store.Types.{is_alien, make_alien}
use brianscheme.Vm.{alien_of, combined, unpack1, unpack2}
use brianscheme.Interp.Primitives.{argument, long}
use brianscheme.Vm.Stack.{unpack-combined}

abbrev pub Codes : Type 0
Codes = ℕ → ℕ → ℕ

abbrev pub CodePrimitive : Type 0
CodePrimitive = Store → Codes → List Ptr → ℕ → ℕ → Option (Ptr × Store × Codes)

-- bca[idx] = word.
abbrev pub set_word : Codes → ℕ → ℕ → ℕ → Codes
set_word codes bca idx word = λ b i. if b == bca && i == idx then word else codes b i

-- ALIEN_PTR.
abbrev pub alien_ptr : Store → Ptr → Option ℕ
alien_ptr s p = alien_of (s.object p)

-- `bca` is the address that MALLOC gives, and `free_ptr_fn` the releaser.
unfoldable pub make_bytecode_array_proc : ℕ → Ptr → CodePrimitive
unfolding make_alien
make_bytecode_array_proc bca free_ptr_fn s codes args n top = do
  first ← argument 0 args n top
  size ← long s first
  r ← make_alien s bca free_ptr_fn
  some (r.0, r.1, codes)

unfoldable pub get_bytecode_proc : CodePrimitive
unfolding make_alien
get_bytecode_proc s codes args n top = do
  first ← argument 0 args n top
  second ← argument 1 args n top
  bca ← alien_ptr s first
  idx ← long s second
  r ← make_alien s (codes bca idx) s.empty_list
  some (r.0, r.1, codes)

unfoldable pub set_bytecode_proc : CodePrimitive
set_bytecode_proc s codes args n top = do
  first ← argument 0 args n top
  second ← argument 1 args n top
  third ← argument 2 args n top
  bca ← alien_ptr s first
  let written = (do
    idx ← long s second
    word ← alien_ptr s third
    some (third, s, set_word codes bca idx word))
  (if is_alien s third then written else some (s.error_sym, s, codes))

unfoldable pub set_bytecode_operands_proc : CodePrimitive
set_bytecode_operands_proc s codes args n top = do
  first ← argument 0 args n top
  second ← argument 1 args n top
  third ← argument 2 args n top
  fourth ← argument 3 args n top
  bca ← alien_ptr s first
  idx ← long s second
  arg1 ← long s third
  arg2 ← long s fourth
  some (first, s, set_word codes bca idx (combined arg1 arg2))

unfoldable pub get_bytecode_operands_proc : CodePrimitive
unfolding make_fixnum cons
get_bytecode_operands_proc s codes args n top = do
  first ← argument 0 args n top
  second ← argument 1 args n top
  bca ← alien_ptr s first
  idx ← long s second
  let word = codes bca idx
  arg1 ← make_fixnum s (unpack1 word)
  arg2 ← make_fixnum arg1.1 (unpack2 word)
  r ← cons arg2.1 arg1.0 arg2.0
  some (r.0, r.1, codes)

-- A call with an array, an index and two operands.
abbrev pub IsOperandCall : Store → List Ptr → ℕ → ℕ → ℕ → ℕ → ℕ → ℕ → Type 0
IsOperandCall s args n top bca idx arg1 arg2 =
    (p : Ptr) × (k : Ptr) × (a : Ptr) × (b : Ptr) × (argument 0 args n top ≡ some p)
    × (argument 1 args n top ≡ some k)
    × (argument 2 args n top ≡ some a)
    × (argument 3 args n top ≡ some b)
    × (alien_ptr s p ≡ some bca)
    × (long s k ≡ some idx)
    × (long s a ≡ some arg1)
    × (long s b ≡ some arg2)

-- What the pair that a call gives has as its car and its cdr.
abbrev pub operands : Option (Ptr × Store × Codes) → Option (Data × Data)
operands result = do r ← result; a ← car r.1 r.0; b ← cdr r.1 r.0; some (r.1.object a, r.1.object b)

-- With three free objects, bytecode-operands-ref after bytecode-operands-set!, called with the same
-- arguments, gives a pair of the two operands, when the second is below 2 ^ 16 and the first a `long`
-- from -2 ^ 47 to 2 ^ 47 - 1; bytecode-operands-set! makes no object and changes only that word.
pub set_bytecode_operands_proc-get_bytecode_operands_proc :
    (s : Store) (codes : Codes) (args : List Ptr) (n top bca idx arg1 arg2 : ℕ)
    → {q r t : Ptr} → {ps : List Ptr} → IsOperandCall s args n top bca idx arg1 arg2
    → s.free ≡ q ∷ r ∷ t ∷ ps
    → (q == t) ≡ false
    → (r == t) ≡ false
    → (q == r) ≡ false
    → (arg1 < 2 ^ 47) ⊎ ((2 ^ 64 - 2 ^ 47 ≤ arg1) × (arg1 < 2 ^ 64))
    → arg2 < 2 ^ 16
    → (first : Ptr) × (codes' : Codes) × (set_bytecode_operands_proc s codes args n top
        ≡ some (first, s, codes'))
      × (operands (get_bytecode_operands_proc s codes' args n top)
          ≡ some (fixnum arg1, fixnum arg2))
      × ((b i : ℕ) → (b == bca && i == idx) ≡ false → codes' b i ≡ codes b i)
unfolding set_bytecode_operands_proc get_bytecode_operands_proc make_fixnum cons alloc write car cdr
set_bytecode_operands_proc-get_bytecode_operands_proc s codes args n top bca idx arg1 arg2 {q = q}
      {r = r} {t = t} (p, k, a, b, h0, h1, h2, h3, at_p, at_k, at_a, at_b) room qt rt qr big small =
    let (one, two) = unpack-combined arg1 arg2 big small in
    (
      p,
      set_word codes bca idx (combined arg1 arg2),
      rw (h0, h1, h2, h3, at_p, at_k, at_a, at_b) refl,
      rw
          (
            h0,
            h1,
            at_p,
            at_k,
            room,
            ==-self bca,
            ==-self idx,
            one,
            two,
            ==-self t,
            qt,
            rt,
            qr,
            ==-self q,
            ==-self r,
          )
          refl,
      λ c i e. rw e,
    )
