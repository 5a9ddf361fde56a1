-- ===== src/Interp/Vectors.antt =====
-- interp.c: the primitives on vectors. An index is a long, a pattern of 64 bits; a read or a write
-- outside the array has no result, and set_vector_element_proc tests nothing before its write.
use brianscheme.Base.{
  ℕ, ◌^◌, ◌<◌, ◌≡◌, refl, Bool, false, ◌&&◌, some, List, [], ◌∷◌, arith, suc, zero, if◌then◌else◌,
  ◌>>=◌, get_elem?, length, set, ltb, leb, ◌==◌, ==-self, ne→==, lt→ltb, length-set,
}
use brianscheme.Object.{Ptr, tagged, Data, vector, fixnum}
use brianscheme.Store.{
  Store, write, varray, vector_set, make_vector, make_fixnum, throw_message, is_vector,
}
use brianscheme.Interp.Primitives.{Primitive, argument, long, test_first}
use brianscheme.Interp.Pairs.{then_call}

pub data VectorFault : Type 0 where
  not_a_vector : VectorFault
  out_of_bounds : ℕ → ℕ → VectorFault

abbrev pub is_vector_proc : Primitive
is_vector_proc = test_first is_vector

unfoldable pub make_vector_proc : Primitive
unfolding make_vector
make_vector_proc s args n top = do
  first ← argument 0 args n top
  second ← argument 1 args n top
  size ← long s first
  make_vector s second size

unfoldable pub vector_length_proc : Primitive
unfolding varray make_fixnum
vector_length_proc s args n top = do
  first ← argument 0 args n top
  objects ← varray s first
  make_fixnum s (length objects)

-- A negative index is less than every size, and then outside the array.
abbrev pub too_large : ℕ → ℕ → Bool
too_large index size = ltb index (2 ^ 63) && leb size index

unfoldable pub get_vector_element_proc : (VectorFault → List ℕ) → Primitive
unfolding varray throw_message
get_vector_element_proc text s args n top = do
  first ← argument 0 args n top
  let found = (do
    second ← argument 1 args n top
    index ← long s second
    objects ← varray s first
    let read = (do v ← get_elem? objects index; some (v, s))
    (if too_large index (length objects)
        then throw_message s (text (out_of_bounds index (length objects)))
        else read))
  (if is_vector s first then found else throw_message s (text not_a_vector))

unfoldable pub set_vector_element_proc : Primitive
unfolding vector_set
set_vector_element_proc s args n top = do
  first ← argument 0 args n top
  second ← argument 1 args n top
  third ← argument 2 args n top
  index ← long s second
  s' ← vector_set s first index third
  some (third, s')

get_elem?-set :
    {A : Type 0} (xs : List A) (i : ℕ) (v : A) → i < length xs → get_elem? (set xs i v) i ≡ some v
get_elem?-set [] i v h = absurd (omega arith)
get_elem?-set (x ∷ xs) zero v h = refl
get_elem?-set (x ∷ xs) (suc i) v h = get_elem?-set xs i v (omega arith)

-- A call on a vector of the size given, an index and a third argument.
abbrev pub IsVectorCall : Store → List Ptr → ℕ → ℕ → Ptr → List Ptr → Ptr → ℕ → Ptr → Type 0
IsVectorCall s args n top p xs k i v =
    (argument 0 args n top ≡ some p)
    × (argument 1 args n top ≡ some k)
    × (argument 2 args n top ≡ some v)
    × (tagged p ≡ false)
    × (s.object p ≡ vector xs)
    × (s.object k ≡ fixnum i)

apart :
    (s : Store) {xs : List Ptr} {i : ℕ} (p k : Ptr)
    → s.object p ≡ vector xs
    → s.object k ≡ fixnum i
    → (k == p) ≡ false
apart s p k hp hk = ne→== k p λ e. cc

object-write : (s : Store) (p : Ptr) (d : Data) → (write s p d).object p ≡ d
unfolding write
object-write s p d = simp (==-self p)

within : (i size : ℕ) → i < size → too_large i size ≡ false
within i size h = ground arith

-- When the first argument is a vector, the second an index within it and a third is given,
-- set_vector_element_proc puts the third in that place of the vector, and get_vector_element_proc,
-- called afterwards with the same arguments, passes its test of the index and finds it there. No
-- other object changes.
pub set_vector_element_proc-get_vector_element_proc :
    (text : VectorFault → List ℕ) (s : Store) (args : List Ptr) (n top : ℕ)
    → {p k v : Ptr} → {xs : List Ptr} → {i : ℕ} → IsVectorCall s args n top p xs k i v
    → i < length xs
    → then_call set_vector_element_proc (get_vector_element_proc text) s args n top
      ≡ some (v, write s p (vector (set xs i v)))
unfolding set_vector_element_proc get_vector_element_proc vector_set varray write
set_vector_element_proc-get_vector_element_proc text s args n top {p = p} {k = k} {v = v} {xs = xs}
      {i = i} (first, second, third, plain, at, index) h =
    simp (
      first,
      second,
      third,
      plain,
      at,
      index,
      lt→ltb i (length xs) h,
      ==-self p,
      apart s p k at index,
      length-set xs i v,
      within i (length xs) h,
      object-write s p (vector (set xs i v)),
      get_elem?-set xs i v h,
    )
