-- ===== src/Env.antt =====
-- interp.c: environments. A frame pairs a list of variables with a list of values; the global
-- environment is a hash table. `text` is what vsnprintf makes of the message.
mod Examples
pub mod Assign
pub mod Frames
pub mod Rest
use brianscheme.Base.{ℕ, zero, suc, Option, none, some, List, ◌==◌, if◌then◌else◌, ◌>>=◌}
use brianscheme.Object.{Ptr, null}
use brianscheme.Store.{
  Store, car, cdr, cons, set_car, set_cdr, is_pair, is_the_empty_list, get_hashtab, set_hashtab,
  throw_message,
}

unfoldable pub make_frame : Store → Ptr → Ptr → Option (Ptr × Store)
unfolding cons
make_frame s variables values = cons s variables values

unfoldable pub extend_environment : Store → Ptr → Ptr → Ptr → Option (Ptr × Store)
unfolding make_frame cons
extend_environment s vars vals base_env = do
  result ← make_frame s vars vals
  cons result.1 result.0 base_env

-- The two cells are made one after the other, each around what the frame then has.
unfoldable pub add_binding_to_frame : Store → Ptr → Ptr → Ptr → Option Store
unfolding cons car cdr set_car set_cdr
add_binding_to_frame s var val frame = do
  vars ← car s frame
  a ← cons s var vars
  s₁ ← set_car a.1 frame a.0
  vals ← cdr s₁ frame
  d ← cons s₁ val vals
  set_cdr d.1 frame d.0

unfoldable pub lookup_global_value : List ℕ → Store → Ptr → Ptr → Option (Ptr × Store)
unfolding get_hashtab throw_message
lookup_global_value text s var env = do
  res ← get_hashtab s env var null
  if res == null then throw_message s text else some (res, s)

-- The values left when one more variable is passed.
unfoldable pub next_vals : Store → Ptr → Option Ptr
unfolding cdr
next_vals s vals = if is_the_empty_list s vals then some vals else cdr s vals

-- Where a frame binds a variable: in the car or in the cdr of a cell of its values.
pub data Slot : Type 0 where
  in_car in_cdr : Ptr → Slot

-- The loop over the variables of one frame, on fuel; the inner `none` is its end.
unfoldable pub find_slot : ℕ → Store → Ptr → Ptr → Ptr → Option (Option Slot)
unfolding car cdr next_vals
find_slot zero s var vars vals = none
find_slot (suc fuel) s var vars vals =
    let more = (do
      first ← car s vars
      later ← cdr s vars
      vals' ← next_vals s vals
      let rest = find_slot fuel s var later vals'
      if var == first
          then some (some (in_car vals))
          else if var == later
          then some (some (in_cdr vals))
          else rest) in
    if is_pair s vars then more else some none

abbrev pub read_slot : Store → Slot → Option Ptr
read_slot s (in_car vals) = car s vals
read_slot s (in_cdr vals) = cdr s vals

abbrev pub write_slot : Store → Slot → Ptr → Option Store
write_slot s (in_car vals) new_val = set_car s vals new_val
write_slot s (in_cdr vals) new_val = set_cdr s vals new_val

-- The loop over the frames, on fuel. The inner `none` sends the search to the global environment.
unfoldable pub lookup_local : ℕ → Store → Ptr → Ptr → Option (Option Ptr)
unfolding car cdr find_slot
lookup_local zero s var env = none
lookup_local (suc fuel) s var env =
    let more = (do
      frame ← car s env
      vars ← car s frame
      vals ← cdr s frame
      outer ← cdr s env
      let rest = lookup_local fuel s var outer
      let here = (do
        slot ← find_slot (suc fuel) s var vars vals
        elim slot [ none ↦ rest | some l ↦ (do v ← read_slot s l; some (some v)) ])
      if var == vars then some (some vals) else here) in
    if is_the_empty_list s env then some none else more

unfoldable pub lookup_variable_value : ℕ → List ℕ → Store → Ptr → Ptr → Ptr → Option (Ptr × Store)
unfolding lookup_local lookup_global_value
lookup_variable_value fuel text s genv var env = do
  found ← lookup_local fuel s var env
  elim found [ none ↦ lookup_global_value text s var genv | some v ↦ some (v, s) ]

-- The loop of define_variable over the frames, which has no case for a frame whose variables are
-- one symbol. The inner `none` sends the definition to the global environment.
unfoldable pub assign_local : ℕ → Store → Ptr → Ptr → Ptr → Option (Option Store)
unfolding car cdr find_slot
assign_local zero s var new_val senv = none
assign_local (suc fuel) s var new_val senv =
    let more = (do
      frame ← car s senv
      vars ← car s frame
      vals ← cdr s frame
      outer ← cdr s senv
      let rest = assign_local fuel s var new_val outer
      slot ← find_slot (suc fuel) s var vars vals
      elim slot [ none ↦ rest | some l ↦ (do s' ← write_slot s l new_val; some (some s')) ]) in
    if is_the_empty_list s senv then some none else more

unfoldable pub define_global_variable : Store → Ptr → Ptr → Ptr → Option Store
unfolding set_hashtab
define_global_variable s var new_val env = set_hashtab s env var new_val

unfoldable pub define_variable : ℕ → Store → Ptr → Ptr → Ptr → Ptr → Option Store
unfolding assign_local define_global_variable
define_variable fuel s genv var new_val env = do
  done ← assign_local fuel s var new_val env
  elim done [ none ↦ define_global_variable s var new_val genv | some s' ↦ some s' ]
