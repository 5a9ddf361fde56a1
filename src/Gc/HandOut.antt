-- ===== src/Gc/HandOut.antt =====
-- alloc_object of gc.c: what the program keeps true of the heap, and an object that is handed out.
use brianscheme.Base.{
  ℕ, zero, suc, ◌+◌, ◌%◌, ◌<◌, ◌≡◌, refl, ◌∙◌, sym, ap, inl, inr, Bool, true, false, ◌||◌, Option,
  some, List, [], ◌∷◌, ◌++◌, arith, ◌==◌, if◌then◌else◌, ==→eq, ==-self, Bool-cases, append_assoc,
}
use brianscheme.Base.Members.{mem, mem-append, Nodup}
use brianscheme.Object.{Ptr, null}
use brianscheme.StackSet.{stack_set_push}
use brianscheme.Gc.{update}
use brianscheme.Gc.Chain.{first_or, Chain_middle}
use brianscheme.Gc.Fields.{IsSound}
use brianscheme.Gc.Move.{IsHeap}
use brianscheme.Gc.Collector.{Collector, hand_out}
use brianscheme.Gc.Collect.{Reachable, roots_from, roots, IsReady}

-- What the program's use of the heap keeps true: the active list has the objects handed out since
-- the last collection and then those to hand out; the reachable ones are among the first and on the
-- old list, in the current colour or in the one before.
pub record IsSafe (g : Collector) (used free old : List Ptr) : Type 0 where
  pub lists : IsHeap g.heap (used ++ free) old
  pub next_free : g.next_free_object ≡ first_or null free
  pub whole : (a : Ptr) → Reachable g.object (roots g) a → (mem a used || mem a old) ≡ true
  pub painted :
      (a : Ptr)
      → Reachable g.object (roots g) a
      → (g.heap.color a == g.heap.current_color
          || (g.heap.color a + 1) % 256 == g.heap.current_color)
        ≡ true
  pub range : g.heap.current_color < 256
  pub sound : (a : Ptr) → Reachable g.object (roots g) a → IsSound (g.object a)

not_next_color :
    (k c : ℕ) → c < 256 → (k == c || (k + 1) % 256 == c) ≡ true → (k == (c + 1) % 256) ≡ false
not_next_color k c lt h = ground arith

or_weaken : (u f o : Bool) → (u || o) ≡ true → ((u || f) || o) ≡ true
or_weaken true f o h = refl
or_weaken false true o h = refl
or_weaken false false o h = h

pub IsSafe-IsReady :
    {g : Collector} {used free old : List Ptr}
    → IsSafe g used free old
    → IsReady g (used ++ free) old
IsSafe-IsReady {g} {used} {free} {old} w = record {
  lists = w.lists;
  whole = λ a r.
      rw (mem-append a used free) (or_weaken (mem a used) (mem a free) (mem a old) (w.whole a r));
  fresh = λ a r. not_next_color (g.heap.color a) g.heap.current_color w.range (w.painted a r);
  sound = w.sound;
}

Nodup-apart : (a : Ptr) (xs ys : List Ptr) → Nodup (xs ++ ys) → mem a ys ≡ true → mem a xs ≡ false
Nodup-apart a [] ys d m = refl
Nodup-apart a (x ∷ xs) ys d m =
    ground (arith, d.0, Nodup-apart a xs ys d.1 m, mem-append a xs ys, ==→eq a x)

-- No object that is still to be handed out is reachable.
free_unreachable :
    {g : Collector} (used free : List Ptr) {old : List Ptr}
    → IsSafe g used free old
    → (x : Ptr) → mem x free ≡ true
    → ¬ Reachable g.object (roots g) x
free_unreachable used free {old} w x m r =
    let out = Nodup-apart x used free w.lists.active_distinct m in
    let away = w.lists.apart x (ground (arith, mem-append x used free)) in
    let here = w.whole x r in cc

-- The state after the first free object was handed out.
abbrev taken : Bool → Collector → Collector
taken needs_finalization g = record g {
  heap = record (g.heap) { color = update g.heap.color g.next_free_object g.heap.current_color };
  finalizable_objects =
      if needs_finalization
      then stack_set_push g.finalizable_objects g.next_free_object
      else g.finalizable_objects;
  next_free_object = g.heap.next g.next_free_object;
}

pub roots-same :
    (n ii : ℕ) (g g' : Collector)
    → g'.variable ≡ g.variable
    → g'.root_objects ≡ g.root_objects
    → roots_from n ii g' ≡ roots_from n ii g
roots-same zero ii g g' e f = refl
roots-same (suc n) ii g g' e f = rw (roots-same n (ii + 1) g g' e f, e, f)

taken-IsSafe :
    (b : Bool) {g : Collector} {used : List Ptr} (x : Ptr) {xs old : List Ptr}
    → IsSafe g used (x ∷ xs) old
    → IsSafe (taken b g) (used ++ x ∷ []) xs old
unfolding update
taken-IsSafe b {g} {used} x {xs} {old} w =
    let same = roots-same g.root_objects.top 0 g (taken b g) refl refl in
    let before : (a : Ptr)
        → Reachable g.object (roots (taken b g)) a
        → Reachable g.object (roots g) a =
      λ a r. rw same at r in
    record {
      lists = rw (append_assoc used (x ∷ []) xs) (record {
        active_list = w.lists.active_list;
        old_list = w.lists.old_list;
        active_distinct = w.lists.active_distinct;
        old_distinct = w.lists.old_distinct;
        apart = w.lists.apart;
      });
      next_free =
          ap (λ (p : Ptr). g.heap.next p) w.next_free
          ∙ (Chain_middle g.heap.next g.heap.prev null used x xs w.lists.active_list.chain).1;
      whole = λ a r.
          rw (mem-append a used (x ∷ []))
            (or_weaken (mem a used) (mem a (x ∷ [])) (mem a old) (w.whole a (before a r)));
      painted = λ a r. elim (Bool-cases (a == g.next_free_object)) [
        | inl e ↦ rw (e, ==-self g.heap.current_color)
        | inr e ↦ rw e (w.painted a (before a r))
      ];
      range = w.range;
      sound = λ a r. w.sound a (before a r);
    }

-- The object that alloc_object hands out, with what it leaves.
abbrev pub IsSafeAlloc : Collector → Option (Collector × Ptr) → Type 0
IsSafeAlloc g allocated =
    (g' : Collector) × (x : Ptr) × (used : List Ptr) × (free : List Ptr) × (old : List Ptr)
    × (allocated ≡ some (g', x))
    × IsSafe g' used free old
    × (mem x used ≡ true)
    × ((x == null) ≡ false)
    × (¬ Reachable g.object (roots g) x)
    × ((a : Ptr) → Reachable g.object (roots g) a → Reachable g'.object (roots g') a)

pub first_not_null :
    {g : Collector} (used : List Ptr) (x : Ptr) (xs : List Ptr) {old : List Ptr}
    → IsSafe g used (x ∷ xs) old
    → (g.next_free_object == null) ≡ false
first_not_null {g} used x xs w =
    let (_, _, nn, _) =
      Chain_middle g.heap.next g.heap.prev null used x xs w.lists.active_list.chain in
    rw w.next_free nn

mem_last : (x : Ptr) (xs : List Ptr) → mem x (xs ++ x ∷ []) ≡ true
mem_last x xs = ground (arith, mem-append x xs (x ∷ []))

-- The second half of alloc_object, when there is an object to hand out.
pub hand_out-IsSafe :
    (b : Bool) {g : Collector} (used : List Ptr) (x : Ptr) (xs : List Ptr) {old : List Ptr}
    → IsSafe g used (x ∷ xs) old
    → IsSafeAlloc g (hand_out b g)
unfolding hand_out
hand_out-IsSafe b {g} used x xs {old} w =
    let nn = first_not_null used x xs w in
    (
      taken b g,
      x,
      used ++ x ∷ [],
      xs,
      old,
      rw nn (ap (λ (p : Ptr). some (taken b g, p)) w.next_free),
      taken-IsSafe b x w,
      mem_last x used,
      rw (w.next_free) at nn,
      free_unreachable used (x ∷ xs) w x (rw (==-self x)),
      λ a r.
          let same = roots-same g.root_objects.top 0 g (taken b g) refl refl in rw (sym same) at r,
    )
