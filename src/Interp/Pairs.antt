-- ===== src/Interp/Pairs.antt =====
-- interp.c: what car_proc and cdr_proc find after set_car_proc.
use brianscheme.Base.{ℕ, ◌≡◌, false, some, List, ◌>>=◌, ==-self}
use brianscheme.Object.{Ptr, tagged, pair}
use brianscheme.Store.{Store, write, car, cdr, set_car, set_cdr}
use brianscheme.Interp.Primitives.{
  PairFault, Primitive, argument, set_car_proc, set_cdr_proc, car_proc, cdr_proc,
}

-- A call of set_car_proc, then, with the same arguments, of another primitive.
abbrev pub then_call : Primitive → Primitive → Primitive
then_call before after s args n top = do r ← before s args n top; after r.1 args n top

-- A first argument that is a pair, and a second.
abbrev pub IsPairCall : Store → List Ptr → ℕ → ℕ → Ptr → Ptr → Ptr → Ptr → Type 0
IsPairCall s args n top p v a d =
    (argument 0 args n top ≡ some p)
    × (argument 1 args n top ≡ some v)
    × (tagged p ≡ false)
    × (s.object p ≡ pair a d)

-- When the first argument is a pair and a second is given, `set-car!` replaces the car of that
-- pair by the second argument and `set-cdr!` its cdr: `car` and `cdr`, called afterwards with the
-- same arguments, find the new part and the other part as it was, and no other object changes.
pub set_car_proc-car_proc :
    (text : PairFault → List ℕ) (s : Store) (args : List Ptr)
    → (n top : ℕ) → {p v a d : Ptr} → IsPairCall s args n top p v a d
    → (then_call (set_car_proc text) (car_proc text) s args n top ≡ some (v, write s p (pair v d)))
      × (then_call (set_car_proc text) (cdr_proc text) s args n top
          ≡ some (d, write s p (pair v d)))
      × (then_call (set_cdr_proc text) (car_proc text) s args n top
          ≡ some (a, write s p (pair a v)))
      × (then_call (set_cdr_proc text) (cdr_proc text) s args n top
          ≡ some (v, write s p (pair a v)))
unfolding set_car_proc set_cdr_proc car_proc cdr_proc set_car set_cdr car cdr write
set_car_proc-car_proc text s args n top {p = p} (first, second, plain, at) = (
  simp (first, second, plain, at, ==-self p),
  simp (first, second, plain, at, ==-self p),
  simp (first, second, plain, at, ==-self p),
  simp (first, second, plain, at, ==-self p),
)
