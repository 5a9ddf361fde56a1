-- ===== src/Env/Assign.antt =====
-- interp.c: a variable that define_variable assigns in a frame, looked up afterwards.
use brianscheme.Base.{
  ℕ, ◌<◌, ◌≡◌, refl, ◌∙◌, true, false, some, List, [], ◌∷◌, ◌++◌, arith, ◌==◌, if◌then◌else◌,
  Bool-cases, Option-cases, ==→eq, ==-comm, inl, inr,
}
use brianscheme.Base.Members.{mem, mem-append, Apart}
use brianscheme.Object.{Ptr, Data, pair}
use brianscheme.Store.{Store, write, car, set_car}
use brianscheme.Env.{lookup_variable_value, define_variable}
use brianscheme.Env.Frames.{
  Binding, Frame, AreBindings, AreFrames, binding_cells, cells, slot_in, slot_of, first_slot,
  first_spine, weight, mem-tail, mem-parts, lookup_local_lem, assign_local_lem,
}

-- The cells of the values.
abbrev pub binding_slots : List Binding → List Ptr
binding_slots [] = []
binding_slots (b ∷ bs) = b.slot ∷ binding_slots bs

abbrev pub slots : List Frame → List Ptr
slots [] = []
slots (f ∷ fs) = binding_slots f.bindings ++ slots fs

-- The cell of a variable's value is one of them, and a pair.
abbrev pub IsSlot : Store → List Ptr → Ptr → Type 0
IsSlot s xs c = (mem c xs ≡ true) × (a : Ptr) × (d : Ptr) × (s.object c ≡ pair a d)

slot_in-IsSlot :
    (s : Store) (w c last extra : Ptr) (bs : List Binding)
    → AreBindings s last extra bs
    → slot_in bs w ≡ some c
    → IsSlot s (binding_slots bs) c
slot_in-IsSlot s w c last extra [] b e = cc
slot_in-IsSlot s w c last extra (b ∷ bs) (own, others) e = elim (Bool-cases (w == b.name)) [
  | inl same ↦
      let found : some b.slot ≡ some c = rw same at e in
      let here : b.slot ≡ c = cc in
      (ground arith, own.value, first_slot extra bs, rw (← here) own.valued)
  | inr differs ↦
      let later : slot_in bs w ≡ some c = rw differs at e in
      let (in_rest, a, d, at) = slot_in-IsSlot s w c last extra bs others later in
      (ground arith, a, d, at)
]

pub slot_of-IsSlot :
    (s : Store) (w c : Ptr) (fs : List Frame)
    → AreFrames s fs
    → slot_of fs w ≡ some c
    → IsSlot s (slots fs) c
slot_of-IsSlot s w c [] b e = cc
slot_of-IsSlot s w c (f ∷ fs) (own, others) e = elim (Option-cases (slot_in f.bindings w)) [
  | inl missing ↦
      let later : slot_of fs w ≡ some c = rw missing at e in
      let (in_rest, a, d, at) = slot_of-IsSlot s w c fs others later in
      (ground (arith, mem-append c (binding_slots f.bindings) (slots fs)), a, d, at)
  | inr (x, found) ↦
      let same : some x ≡ some c = rw found at e in
      let here : slot_in f.bindings w ≡ some c = found ∙ same in
      let (in_frame, a, d, at) = slot_in-IsSlot s w c f.last f.extra f.bindings own.binds here in
      (ground (arith, mem-append c (binding_slots f.bindings) (slots fs)), a, d, at)
]

-- A write of a value keeps the frames.
object-write_else :
    (s : Store) (c : Ptr) (x : Data) (q : Ptr) (xs : List Ptr)
    → mem c (q ∷ xs) ≡ false
    → (write s c x).object q ≡ s.object q
unfolding write
object-write_else s c x q xs out =
    let apart : (q == c) ≡ false = ground (arith, ==-comm q c) in rw apart

module _ (s : Store) (c a d v : Ptr) (at : s.object c ≡ pair a d) where
  pub value_cell :
      (q value rest : Ptr)
      → s.object q ≡ pair value rest
      → (write s c (pair v d)).object q ≡ pair (if q == c then v else value) rest
  unfolding write
  value_cell q value rest e = elim (Bool-cases (q == c)) [
    | inl same ↦ let here : q ≡ c = ==→eq q c same in rw same (cc)
    | inr differs ↦ rw differs e
  ]

  write-AreBindings :
      (last extra : Ptr) (bs : List Binding)
      → mem c (binding_cells bs) ≡ false
      → AreBindings s last extra bs
      → AreBindings (write s c (pair v d)) last extra bs
  unfolding write
  write-AreBindings last extra [] out b = tt
  write-AreBindings last extra (b ∷ bs) out (own, others) = (
    record {
      named = object-write_else s c (pair v d) b.cell (binding_cells bs) out ∙ own.named;
      plain = own.plain;
      value = if b.slot == c then v else own.value;
      valued = value_cell b.slot own.value (first_slot extra bs) own.valued;
      kept = own.kept;
    },
    write-AreBindings last extra bs (mem-tail c b.cell (binding_cells bs) out) others,
  )

  pub write-AreFrames :
      (fs : List Frame)
      → mem c (cells fs) ≡ false
      → AreFrames s fs
      → AreFrames (write s c (pair v d)) fs
  unfolding write
  write-AreFrames [] out b = tt
  write-AreFrames (f ∷ fs) out (own, others) =
      let below = binding_cells f.bindings ++ cells fs in
      let inner = mem-tail c f.spine (f.frame ∷ f.last ∷ below) out in
      let deeper = mem-tail c f.frame (f.last ∷ below) inner in
      let (in_frame, beyond) =
        mem-parts c (binding_cells f.bindings) (cells fs) (mem-tail c f.last below deeper) in
      (
        record {
          linked =
              object-write_else s c (pair v d) f.spine (f.frame ∷ f.last ∷ below) out ∙ own.linked;
          paired = object-write_else s c (pair v d) f.frame (f.last ∷ below) inner ∙ own.paired;
          ends = own.ends;
          closed = rw (object-write_else s c (pair v d) f.last below deeper) own.closed;
          binds = write-AreBindings f.last f.extra f.bindings in_frame own.binds;
        },
        write-AreFrames fs beyond others,
      )

-- In an environment of frames that have a value for each variable of a list, which may end in a rest
-- parameter, whose cells for values are no other part of it, and with more fuel than frames and
-- variables: define_variable of a variable that a frame binds, and that is no rest parameter, writes
-- the new value into one cell, changes no other object and keeps the frames; a lookup of any such
-- variable, the same or another, then gives the new value when its value stands in that cell, as it
-- also does for a variable that shares the cell, and what it gave before when it stands in another.
pub lookup_variable_value-define_variable :
    (fuel : ℕ) (text : List ℕ) (s : Store) (genv w u c e v : Ptr) (fs : List Frame)
    → AreFrames s fs
    → Apart (slots fs) (cells fs)
    → weight fs < fuel
    → mem w (cells fs) ≡ false
    → mem u (cells fs) ≡ false
    → slot_of fs w ≡ some c
    → slot_of fs u ≡ some e
    → (s' : Store) × (old : Ptr) × (rest : Ptr) × (define_variable fuel s genv w v
          (first_spine s.empty_list fs)
        ≡ some s')
      × (lookup_variable_value fuel text s genv u (first_spine s.empty_list fs) ≡ some (old, s))
      × (lookup_variable_value fuel text s' genv u (first_spine s.empty_list fs)
          ≡ some (if e == c then v else old, s'))
      × ((q : Ptr) → s'.object q ≡ (if q == c then pair v rest else s.object q))
      × AreFrames s' fs
unfolding define_variable lookup_variable_value set_car car write
lookup_variable_value-define_variable fuel text s genv w u c e v fs frames apart enough name other
      at_w at_u =
    let (in_slots, a, d, at) = slot_of-IsSlot s w c fs frames at_w in
    let (in_slots', old, r, at') = slot_of-IsSlot s u e fs frames at_u in
    let frames' = write-AreFrames s c a d v at fs (apart c in_slots) frames in
    let assigned = assign_local_lem fuel s w v fs frames name enough in
    (
      write s c (pair v d),
      old,
      d,
      simp (assigned, at_w, at),
      simp (lookup_local_lem fuel s u fs frames other enough, at_u, at'),
      simp (
        lookup_local_lem fuel (write s c (pair v d)) u fs frames' other enough,
        at_u,
        value_cell s c a d v at e old r at',
      ),
      λ q. refl,
      frames',
    )
