-- ===== src/Env/Frames.antt =====
-- interp.c: environments whose frames have a value for each variable of a list, which may end in a rest
-- parameter, and what the loops of lookup_variable_value and define_variable find in them.
use brianscheme.Base.{
  ℕ, zero, suc, ◌+◌, ◌<◌, ◌≡◌, false, Option, none, some, List, [], ◌∷◌, ◌++◌, arith, ◌==◌,
  if◌then◌else◌, ◌>>=◌, length, Bool-cases, Option-cases, ==-self, inl, inr,
}
use brianscheme.Base.Members.{mem, mem-append}
use brianscheme.Object.{Ptr, tagged, pair}
use brianscheme.Store.{Store, car, set_car, is_pair, is_the_empty_list}
use brianscheme.Env.{Slot, in_car, find_slot, lookup_local, assign_local}

-- A variable: the cell of the list of variables, the name in it, and the cell of its value.
pub record Binding : Type 0 where
  pub cell : Ptr
  pub name : Ptr
  pub slot : Ptr

-- A frame: the cell of the environment, the frame's own pair, its variables, what ends their list,
-- the empty list or a rest parameter, and what is left of the values.
pub record Frame : Type 0 where
  pub spine : Ptr
  pub frame : Ptr
  pub bindings : List Binding
  pub last : Ptr
  pub extra : Ptr

abbrev pub first_cell : Ptr → List Binding → Ptr
first_cell e [] = e
first_cell e (b ∷ bs) = b.cell

abbrev pub first_slot : Ptr → List Binding → Ptr
first_slot e [] = e
first_slot e (b ∷ bs) = b.slot

abbrev pub first_spine : Ptr → List Frame → Ptr
first_spine e [] = e
first_spine e (f ∷ fs) = f.spine

pub record IsBinding (s : Store) (last extra : Ptr) (b : Binding) (bs : List Binding) : Type 0 where
  pub named : s.object b.cell ≡ pair b.name (first_cell last bs)
  pub plain : tagged b.cell ≡ false
  pub value : Ptr
  pub valued : s.object b.slot ≡ pair value (first_slot extra bs)
  pub kept : is_the_empty_list s b.slot ≡ false

abbrev pub AreBindings : Store → Ptr → Ptr → List Binding → Type 0
AreBindings s last extra [] = Unit
AreBindings s last extra (b ∷ bs) = IsBinding s last extra b bs × AreBindings s last extra bs

pub record IsFrame (s : Store) (f : Frame) (fs : List Frame) : Type 0 where
  pub linked : s.object f.spine ≡ pair f.frame (first_spine s.empty_list fs)
  pub paired :
      s.object f.frame ≡ pair (first_cell f.last f.bindings) (first_slot f.extra f.bindings)
  pub ends : is_the_empty_list s f.spine ≡ false
  pub closed : is_pair s f.last ≡ false
  pub binds : AreBindings s f.last f.extra f.bindings

abbrev pub AreFrames : Store → List Frame → Type 0
AreFrames s [] = Unit
AreFrames s (f ∷ fs) = IsFrame s f fs × AreFrames s fs

-- The cells that make up the structure, those of values apart, and the ends of the lists.
abbrev pub binding_cells : List Binding → List Ptr
binding_cells [] = []
binding_cells (b ∷ bs) = b.cell ∷ binding_cells bs

abbrev pub cells : List Frame → List Ptr
cells [] = []
cells (f ∷ fs) = f.spine ∷ f.frame ∷ f.last ∷ (binding_cells f.bindings ++ cells fs)

-- The cell of the value of the first variable of a name.
abbrev pub slot_in : List Binding → Ptr → Option Ptr
slot_in [] w = none
slot_in (b ∷ bs) w = if w == b.name then some b.slot else slot_in bs w

abbrev pub or_else : Option Ptr → Option Ptr → Option Ptr
or_else none o = o
or_else (some c) o = some c

abbrev pub slot_of : List Frame → Ptr → Option Ptr
slot_of [] w = none
slot_of (f ∷ fs) w = or_else (slot_in f.bindings w) (slot_of fs w)

-- The rounds that the loops need.
abbrev pub weight : List Frame → ℕ
weight [] = 0
weight (f ∷ fs) = suc (length f.bindings + weight fs)

abbrev pub slot_result : Option Ptr → Option Slot
slot_result none = none
slot_result (some c) = some (in_car c)

pub mem-tail : (w x : Ptr) (xs : List Ptr) → mem w (x ∷ xs) ≡ false → mem w xs ≡ false
mem-tail w x xs k = ground arith

pub mem-parts :
    (w : Ptr) (xs ys : List Ptr)
    → mem w (xs ++ ys) ≡ false
    → (mem w xs ≡ false) × (mem w ys ≡ false)
mem-parts w xs ys k = ground (arith, mem-append w xs ys)

-- What a name that is no cell of a frame is apart from.
pub outside :
    (w : Ptr) (f : Frame) (fs : List Frame)
    → mem w (cells (f ∷ fs)) ≡ false
    → (mem w (f.last ∷ binding_cells f.bindings) ≡ false) × (mem w (cells fs) ≡ false)
outside w f fs k = ground (arith, mem-append w (binding_cells f.bindings) (cells fs))

no_first :
    (w last : Ptr) (bs : List Binding)
    → mem w (last ∷ binding_cells bs) ≡ false
    → (w == first_cell last bs) ≡ false
no_first w last [] k = ground arith
no_first w last (b ∷ bs) k = ground arith

find_slot_lem :
    (fuel : ℕ) (s : Store) (w last extra : Ptr) (bs : List Binding)
    → AreBindings s last extra bs
    → is_pair s last ≡ false
    → mem w (last ∷ binding_cells bs) ≡ false
    → length bs < fuel
    → find_slot fuel s w (first_cell last bs) (first_slot extra bs)
      ≡ some (slot_result (slot_in bs w))
unfolding find_slot
find_slot_lem zero s w last extra bs b closed k h = elim h [ ]
find_slot_lem (suc fuel) s w last extra [] b closed k h = rw closed
find_slot_lem (suc fuel) s w last extra (b ∷ bs) (own, others) closed k h =
    let later : mem w (last ∷ binding_cells bs) ≡ false = ground arith in
    elim (Bool-cases (w == b.name)) [
      | inl same ↦ simp (own.named, own.plain, own.valued, own.kept, same)
      | inr differs ↦ simp (
        own.named,
        own.plain,
        own.valued,
        own.kept,
        differs,
        no_first w last bs later,
        find_slot_lem fuel s w last extra bs others closed later (omega arith),
      )
    ]

-- What lookup_local makes of the cell that it finds, and assign_local.
abbrev pub value_at : Store → Option Ptr → Option (Option Ptr)
value_at s none = some none
value_at s (some c) = do v ← car s c; some (some v)

abbrev pub assigned_at : Store → Ptr → Option Ptr → Option (Option Store)
assigned_at s v none = some none
assigned_at s v (some c) = do s' ← set_car s c v; some (some s')

pub lookup_local_lem :
    (fuel : ℕ) (s : Store) (w : Ptr) (fs : List Frame)
    → AreFrames s fs
    → mem w (cells fs) ≡ false
    → weight fs < fuel
    → lookup_local fuel s w (first_spine s.empty_list fs) ≡ value_at s (slot_of fs w)
unfolding lookup_local
lookup_local_lem zero s w fs e k h = elim h [ ]
lookup_local_lem (suc fuel) s w [] e k h = simp (==-self s.empty_list)
lookup_local_lem (suc fuel) s w (f ∷ fs) (own, others) k h =
    let (here, beyond) = outside w f fs k in
    let found =
      find_slot_lem (suc fuel) s w f.last f.extra f.bindings own.binds own.closed here
        (omega arith) in
    let rest = lookup_local_lem fuel s w fs others beyond (omega arith) in
    elim (Option-cases (slot_in f.bindings w)) [
      | inl e ↦
          simp (own.ends, own.linked, own.paired, no_first w f.last f.bindings here, found, e, rest)
      | inr (c, e) ↦
          simp (own.ends, own.linked, own.paired, no_first w f.last f.bindings here, found, e)
    ]

pub assign_local_lem :
    (fuel : ℕ) (s : Store) (w v : Ptr) (fs : List Frame)
    → AreFrames s fs
    → mem w (cells fs) ≡ false
    → weight fs < fuel
    → assign_local fuel s w v (first_spine s.empty_list fs) ≡ assigned_at s v (slot_of fs w)
unfolding assign_local
assign_local_lem zero s w v fs e k h = elim h [ ]
assign_local_lem (suc fuel) s w v [] e k h = simp (==-self s.empty_list)
assign_local_lem (suc fuel) s w v (f ∷ fs) (own, others) k h =
    let (here, beyond) = outside w f fs k in
    let found =
      find_slot_lem (suc fuel) s w f.last f.extra f.bindings own.binds own.closed here
        (omega arith) in
    let rest = assign_local_lem fuel s w v fs others beyond (omega arith) in
    elim (Option-cases (slot_in f.bindings w)) [
      | inl e ↦ simp (own.ends, own.linked, own.paired, found, e, rest)
      | inr (c, e) ↦ simp (own.ends, own.linked, own.paired, found, e)
    ]
