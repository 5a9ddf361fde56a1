-- ===== src/Vm/Variables.antt =====
-- lvar and lset of vm.c: what is stored in a local variable is read back.
use brianscheme.Base.{
  ℕ, zero, suc, ◌-◌, ◌<◌, ◌≡◌, refl, sym, ap, ◌∙◌, inl, inr, some, none, List, [], ◌∷◌, ◌++◌, false,
  arith, ◌==◌, ltb, Bool-cases, Option-cases, ==→eq, ==-self, lt→ltb, length, get_elem?, set, ◌>>=◌,
  length-append,
}
use brianscheme.Base.Slices.{take_last, length-take}
use brianscheme.Object.{Ptr, Data, vector}
use brianscheme.Store.{Store, both_of, varray_of, write, car, cdr, varray, vector_set}
use brianscheme.Vm.{Machine, next, peek, int_rounds}
use brianscheme.Vm.Frame.{push_next, frame, frame_vector, lvar, lset}
use brianscheme.Vm.Stack.{Holds}

no_both : (d : Data) (os : List Ptr) → varray_of d ≡ some os → both_of d ≡ none
no_both (vector objects) os h = refl
no_both _ os h = cc

get_elem-set_self :
    (xs : List Ptr) (i : ℕ) (v : Ptr) → i < length xs → get_elem? (set xs i v) i ≡ some v
get_elem-set_self [] i v h = elim h [ ]
get_elem-set_self (x ∷ xs) zero v h = refl
get_elem-set_self (x ∷ xs) (suc i) v h = get_elem-set_self xs i v (omega arith)

-- A write to a vector leaves every pair as it was.
module _ (s : Store) (v : Ptr) (os new : List Ptr) (e : varray s v ≡ some os) where
  both_kept : (p : Ptr) → both_of ((write s v (vector new)).object p) ≡ both_of (s.object p)
  unfolding write varray
  both_kept p = elim (Bool-cases (p == v)) [
    | inl q ↦ rw q (let at : p ≡ v = ==→eq p v q in rw at (sym (no_both (s.object v) os e)))
    | inr q ↦ rw q
  ]

  car_kept : (p : Ptr) → car (write s v (vector new)) p ≡ car s p
  unfolding car
  car_kept p = rw (both_kept p)

  cdr_kept : (p : Ptr) → cdr (write s v (vector new)) p ≡ cdr s p
  unfolding cdr
  cdr_kept p = rw (both_kept p)

  frame_kept : (n : ℕ) (p : Ptr) → frame n (write s v (vector new)) p ≡ frame n s p
  unfolding frame
  frame_kept zero p = refl
  frame_kept (suc n) p = elim (Option-cases (cdr s p)) [
    | inl e ↦ rw (cdr_kept p, e)
    | inr (d, e) ↦ rw (cdr_kept p, e) (frame_kept n d)
  ]

  car-frame_kept :
      (n : ℕ) (p : Ptr)
      → (frame n (write s v (vector new)) p >>= car (write s v (vector new)))
        ≡ (frame n s p >>= car s)
  car-frame_kept n p = elim (Option-cases (frame n s p)) [
    | inl e ↦ rw (frame_kept n p, e)
    | inr (q, e) ↦ rw (frame_kept n p, e) (car_kept q)
  ]

varray_written :
    (s : Store) (v : Ptr) (new : List Ptr) → varray (write s v (vector new)) v ≡ some new
unfolding varray write
varray_written s v new = rw (==-self v)

frame_vector_kept :
    (m : Machine) (arg1 : ℕ) (v : Ptr) (os new : List Ptr)
    → varray m.store v ≡ some os
    → frame_vector arg1 (record m { store = write m.store v (vector new) }) ≡ frame_vector arg1 m
unfolding frame_vector
frame_vector_kept m arg1 v os new e = car-frame_kept m.store v os new e (int_rounds arg1) m.env

lvar_reads :
    (m : Machine) (arg1 arg2 v x : ℕ) (os : List Ptr)
    → frame_vector arg1 m ≡ some v
    → varray m.store v ≡ some os
    → get_elem? os arg2 ≡ some x
    → lvar arg1 arg2 m ≡ push_next m x
unfolding lvar
lvar_reads m arg1 arg2 v x os at e found = rw (at, e, found)

lset_writes :
    (m : Machine) (arg1 arg2 v x : ℕ) (os : List Ptr)
    → frame_vector arg1 m ≡ some v
    → varray m.store v ≡ some os
    → arg2 < length os
    → 0 < m.stack_top
    → get_elem? m.stack (m.stack_top - 1) ≡ some x
    → lset arg1 arg2 m ≡ some (next (record m { store = write m.store v (vector (set os arg2 x)) }))
unfolding lset vector_set peek
lset_writes m arg1 arg2 v x os at e lt some_value found =
    let more : ltb m.stack_top 1 ≡ false = ground arith in
    rw (at, more, found, e, lt→ltb arg2 (length os) lt)

-- The top of a stack that has one.
top_of :
    (m : Machine) (xs : List Ptr) (x : Ptr)
    → Holds m (xs ++ x ∷ [])
    → (0 < m.stack_top) × (get_elem? m.stack (m.stack_top - 1) ≡ some x)
top_of m xs x h =
    let size : length (xs ++ x ∷ []) ≡ m.stack_top =
      sym (ap (λ (ys : List Ptr). length ys) h.values) ∙ length-take m.stack_top m.stack h.fits in
    let some_value : 0 < m.stack_top = omega (arith, size, length-append xs (x ∷ [])) in
    let same : suc (m.stack_top - 1) ≡ m.stack_top = omega arith in
    (
      some_value,
      (take_last m.stack xs x (m.stack_top - 1) (omega (arith, h.fits)) (rw same h.values)).0,
    )

-- lset of a variable that the environment has stores the value on top of the stack, which stays
-- there, and changes nothing but the store; lvar of that variable then pushes this value.
pub lvar-lset :
    (m : Machine) (arg1 arg2 v x : ℕ) (os xs : List Ptr)
    → Holds m (xs ++ x ∷ [])
    → frame_vector arg1 m ≡ some v
    → varray m.store v ≡ some os
    → arg2 < length os
    → (s : Store) × (lset arg1 arg2 m ≡ some (next (record m { store = s })))
      × (lvar arg1 arg2 (record m { store = s }) ≡ push_next (record m { store = s }) x)
lvar-lset m arg1 arg2 v x os xs h at e lt =
    let new = set os arg2 x in
    let (some_value, found) = top_of m xs x h in
    (
      write m.store v (vector new),
      lset_writes m arg1 arg2 v x os at e lt some_value found,
      lvar_reads (record m { store = write m.store v (vector new) }) arg1 arg2 v x new
          (frame_vector_kept m arg1 v os new e ∙ at) (varray_written m.store v new)
          (get_elem-set_self os arg2 x lt),
    )
