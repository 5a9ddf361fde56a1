-- ===== src/Env/Rest.antt =====
-- interp.c: the frame of `(lambda foo …)`, whose variables are the one symbol foo, inside an environment
-- that binds foo too.
use brianscheme.Base.{ℕ, suc, ◌<◌, ◌≡◌, some, false, List, [], ◌∷◌, ◌==◌, ==-self, ==-comm, arith}
use brianscheme.Base.Members.{mem, Apart}
use brianscheme.Object.{Ptr, Data, pair}
use brianscheme.Store.{Store, write, car, cdr, set_car, is_pair, is_the_empty_list}
use brianscheme.Env.{find_slot, lookup_local, assign_local, lookup_variable_value, define_variable}
use brianscheme.Env.Frames.{
  Frame, AreFrames, cells, slot_of, first_spine, weight, lookup_local_lem, assign_local_lem,
}
use brianscheme.Env.Assign.{slots, slot_of-IsSlot, write-AreFrames}

-- The first frame of the environment has the symbol itself for its variables, and `vals` for values.
pub record IsRestFrame (s : Store) (w env frame outer vals : Ptr) : Type 0 where
  pub linked : s.object env ≡ pair frame outer
  pub paired : s.object frame ≡ pair w vals
  pub ends : is_the_empty_list s env ≡ false
  pub no_list : is_pair s w ≡ false

first_of :
    (fuel : ℕ) (s : Store) (w env frame outer vals : Ptr)
    → IsRestFrame s w env frame outer vals
    → lookup_local (suc fuel) s w env ≡ some (some vals)
unfolding lookup_local car cdr
first_of fuel s w env frame outer vals k = simp (k.linked, k.paired, k.ends, ==-self w)

passed_over :
    (fuel : ℕ) (s : Store) (w v env frame outer vals : Ptr)
    → IsRestFrame s w env frame outer vals
    → assign_local (suc fuel) s w v env ≡ assign_local fuel s w v outer
unfolding assign_local find_slot car cdr
passed_over fuel s w v env frame outer vals k = simp (k.linked, k.paired, k.ends, k.no_list)

-- A write elsewhere keeps the frame.
rest_kept :
    (s : Store) (w c env frame outer vals : Ptr) (x : Data)
    → mem c (env ∷ frame ∷ w ∷ []) ≡ false
    → IsRestFrame s w env frame outer vals
    → IsRestFrame (write s c x) w env frame outer vals
unfolding write
rest_kept s w c env frame outer vals x out k =
    let at_env : (env == c) ≡ false = ground (arith, out, ==-comm env c) in
    let at_frame : (frame == c) ≡ false = ground (arith, out, ==-comm frame c) in
    let at_w : (w == c) ≡ false = ground (arith, out, ==-comm w c) in
    record {
      linked = rw at_env k.linked;
      paired = rw at_frame k.paired;
      ends = k.ends;
      no_list = rw at_w k.no_list;
    }

-- In a procedure `(lambda foo …)` inside frames of which one binds foo to a value, in cells that are
-- not those of the procedure's own frame, and with more fuel than these frames and their variables:
-- a lookup of foo gives the list of arguments; define_variable of foo ends, and afterwards a lookup
-- of foo in the procedure still gives that list, while one in the environment around it gives the
-- new value.
pub define_variable_rest :
    (fuel : ℕ) (text : List ℕ) (s : Store) (genv w c v env frame vals : Ptr) (fs : List Frame)
    → IsRestFrame s w env frame (first_spine s.empty_list fs) vals
    → mem c (env ∷ frame ∷ w ∷ []) ≡ false
    → AreFrames s fs
    → Apart (slots fs) (cells fs)
    → weight fs < fuel
    → mem w (cells fs) ≡ false
    → slot_of fs w ≡ some c
    → (s' : Store) × (define_variable (suc fuel) s genv w v env ≡ some s')
      × (lookup_variable_value (suc fuel) text s genv w env ≡ some (vals, s))
      × (lookup_variable_value (suc fuel) text s' genv w env ≡ some (vals, s'))
      × (lookup_variable_value fuel text s' genv w (first_spine s.empty_list fs) ≡ some (v, s'))
unfolding define_variable lookup_variable_value set_car car
define_variable_rest fuel text s genv w c v env frame vals fs k out frames apart enough name at_w =
    let outer = first_spine s.empty_list fs in
    let (in_slots, a, d, at) = slot_of-IsSlot s w c fs frames at_w in
    let frames' = write-AreFrames s c a d v at fs (apart c in_slots) frames in
    let k' = rest_kept s w c env frame outer vals (pair v d) out k in
    (
      write s c (pair v d),
      simp (
        passed_over fuel s w v env frame outer vals k,
        assign_local_lem fuel s w v fs frames name enough,
        at_w,
        at,
      ),
      simp (first_of fuel s w env frame outer vals k),
      simp (first_of fuel (write s c (pair v d)) w env frame outer vals k'),
      simp (lookup_local_lem fuel (write s c (pair v d)) w fs frames' name enough, at_w, ==-self c),
    )
