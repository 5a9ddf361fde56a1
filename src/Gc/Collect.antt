-- ===== src/Gc/Collect.antt =====
-- baker_collect of gc.c keeps exactly the objects that the roots reach.
use brianscheme.Base.{
  ℕ, zero, suc, ◌+◌, ◌%◌, ◌<◌, ◌≡◌, refl, ◌∙◌, ap, inl, inr, Bool, true, false, ◌||◌, List, [], ◌∷◌,
  ◌++◌, arith, ◌==◌, ==→eq, Bool-cases, length, length-append,
}
use brianscheme.Base.Members.{mem, mem_self, mem-append}
use brianscheme.HashTab.{Bucket}
use brianscheme.Object.{Ptr, null, tagged, Data}
use brianscheme.Gc.{Heap, append_to_tail, fields, move_reachable}
use brianscheme.Gc.Fields.{Holds, IsSound, fields-Holds, Holds-fields}
use brianscheme.Gc.Chain.{first_or}
use brianscheme.Gc.Move.{IsHeap}
use brianscheme.Gc.Append.{append-IsHeap, append_colors}
use brianscheme.Gc.Scan.{IsClosed, Marking}
use brianscheme.Gc.Reach.{FieldsIn, Scanned, IsObject, move_reachable-Scanned}
use brianscheme.Gc.Collector.{
  Collector, Collected, next_color, mark_roots, marked_heap, baker_collect,
}

-- The values of the rooted variables, from index `ii` on.
abbrev pub roots_from : ℕ → ℕ → Collector → List Ptr
roots_from zero ii g = []
roots_from (suc n) ii g = g.variable (g.root_objects.objs ii) ∷ roots_from n (ii + 1) g

abbrev pub roots : Collector → List Ptr
roots g = roots_from g.root_objects.top 0 g

-- What the program can still get at: the objects in rooted variables, and what these hold.
pub data Reachable (object : Ptr → Data) (rs : List Ptr) : Ptr → Type 0 where
  root : (p : Ptr) → mem p rs ≡ true → IsObject p → Reachable object rs p
  field :
      (p q : Ptr)
      → Reachable object rs p
      → Holds (object p) q
      → tagged q ≡ false
      → Reachable object rs q

Reachable-plain :
    {object : Ptr → Data} {rs : List Ptr} (p : Ptr) → Reachable object rs p → tagged p ≡ false
Reachable-plain p (root _ m o) = o.plain
Reachable-plain p (field _ _ r m t) = t

module _ {R : Ptr → Type 0} (kids : Ptr → List Ptr) (closed : IsClosed kids R) (fuel : ℕ)
    (g : Collector) where
  mark_roots-Scanned :
      (n ii : ℕ) (h : Heap) (active zs : List Ptr)
      → Marking R h active zs
      → FieldsIn kids zs zs
      → ((p : Ptr) → mem p (roots_from n ii g) ≡ true → IsObject p → R p)
      → length active < fuel
      → (s : Scanned R kids h active zs (mark_roots n ii fuel kids g h)) × ((p : Ptr)
          → mem p (roots_from n ii g) ≡ true
          → IsObject p
          → mem p s.zs' ≡ true)
  unfolding mark_roots
  mark_roots-Scanned zero ii h active zs w f r enough = (
    record {
      active' = active;
      zs' = zs;
      marking = w;
      closed = f;
      kept = λ a m. m;
      count = refl;
      shorter = omega arith;
      same_color = refl;
    },
    λ p m o. cc,
  )
  mark_roots-Scanned (suc n) ii h active zs w f r enough =
      let rt = g.variable (g.root_objects.objs ii) in
      let (one, hit) =
        move_reachable-Scanned kids closed fuel rt h active zs w f
          (r rt (mem_self rt (roots_from n (ii + 1) g))) enough in
      let (more, rest) =
        mark_roots-Scanned n (ii + 1) (move_reachable fuel kids rt h) one.active' one.zs'
          one.marking one.closed (λ p m o. r p (ground arith) o) (omega (arith, one.shorter)) in
      (
        record {
          active' = more.active';
          zs' = more.zs';
          marking = more.marking;
          closed = more.closed;
          kept = λ a m. more.kept a (one.kept a m);
          count = more.count ∙ one.count;
          shorter = omega (arith, more.shorter, one.shorter);
          same_color = more.same_color ∙ one.same_color;
        },
        λ p m o. elim (Bool-cases (p == rt)) [
          | inl e ↦ let q : p ≡ rt = ==→eq p rt e in more.kept p (rw q (hit (rw q at o)))
          | inr e ↦ rest p (rw e at m) o
        ],
      )

-- What the program's use of the heap keeps true between collections: the two lists hold every
-- reachable object, none of them has the colour of the next collection, and the hash tables among
-- them are well formed.
pub record IsReady (g : Collector) (active old : List Ptr) : Type 0 where
  pub lists : IsHeap g.heap active old
  pub whole : (a : Ptr) → Reachable g.object (roots g) a → (mem a active || mem a old) ≡ true
  pub fresh :
      (a : Ptr)
      → Reachable g.object (roots g) a
      → (g.heap.color a == (g.heap.current_color + 1) % 256) ≡ false
  pub sound : (a : Ptr) → Reachable g.object (roots g) a → IsSound (g.object a)

Reachable-IsClosed :
    (past : Bucket) (g : Collector) {active old : List Ptr}
    → IsReady g active old
    → IsClosed (λ p. fields past (g.object p)) (Reachable g.object (roots g))
Reachable-IsClosed past g w = record {
  plain = Reachable-plain;
  step = λ p q r m t. field p q r (fields-Holds past (g.object p) q (w.sound p r) m) t;
}

-- The lists after a collection.
pub record IsCollected (g : Collector) (active old : List Ptr) (c : Collected) : Type 0 where
  pub free : List Ptr
  pub live : List Ptr
  pub lists : IsHeap c.state.heap free live
  pub kept : (a : Ptr) → Reachable g.object (roots g) a → mem a live ≡ true
  pub only : (a : Ptr) → mem a live ≡ true → Reachable g.object (roots g) a
  pub next_free : c.state.next_free_object ≡ first_or null free
  pub num_free : c.num_free ≡ length free
  pub total : length free + length live ≡ length active + length old
  pub painted :
      (a : Ptr) → mem a live ≡ true → c.state.heap.color a ≡ (g.heap.current_color + 1) % 256
  pub color : c.state.heap.current_color ≡ (g.heap.current_color + 2) % 256

all_kept :
    (past : Bucket) (g : Collector) {active old : List Ptr}
    → IsReady g active old
    → (live : List Ptr) → ((p : Ptr) → mem p (roots g) ≡ true → IsObject p → mem p live ≡ true)
    → FieldsIn (λ p. fields past (g.object p)) live live
    → (a : Ptr) → Reachable g.object (roots g) a
    → mem a live ≡ true
all_kept past g w live hit closed a (root _ m o) = hit a m o
all_kept past g w live hit closed a (field p _ r m t) =
    closed p a (all_kept past g w live hit closed p r)
      (Holds-fields past (g.object p) a (w.sound p r) m) t

false-true : ¬ (false ≡ true)
false-true e = cc

or_false : (b : Bool) → (b || false) ≡ b
or_false true = refl
or_false false = refl

next_color-IsHeap :
    (h : Heap) (active old : List Ptr) → IsHeap h active old → IsHeap (next_color h) active old
unfolding next_color
next_color-IsHeap h active old w = record {
  active_list = w.active_list;
  old_list = w.old_list;
  active_distinct = w.active_distinct;
  old_distinct = w.old_distinct;
  apart = w.apart;
}

merged-Marking :
    (g : Collector) (active old : List Ptr)
    → IsReady g active old
    → Marking (Reachable g.object (roots g)) (next_color (append_to_tail g.heap)) (active ++ old) []
unfolding next_color
merged-Marking g active old w =
    let (c, k) = append_colors g.heap in
    record {
      lists =
          next_color-IsHeap (append_to_tail g.heap) (active ++ old) []
            (append-IsHeap g.heap active old w.lists);
      black = λ a m. cc;
      white = λ a r m. rw (c, k) (w.fresh a r);
      sound = λ a m. absurd (false-true m);
      whole = λ a r. rw (mem-append a active old, or_false) (w.whole a r);
    }

-- baker_collect puts exactly the reachable objects on the old list and all others on the active
-- list, from which allocation starts; it returns how many those are, and loses none.
pub baker_collect-IsCollected :
    (past : Bucket) (g : Collector) (active old : List Ptr)
    → IsReady g active old
    → IsCollected g active old (baker_collect past g)
unfolding baker_collect marked_heap next_color
baker_collect-IsCollected past g active old w =
    let kids : Ptr → List Ptr = λ p. fields past (g.object p) in
    let merged = next_color (append_to_tail g.heap) in
    let (c, k) = append_colors g.heap in
    let start = merged-Marking g active old w in
    let (s, hit) =
      mark_roots-Scanned kids (Reachable-IsClosed past g w) (merged.active.num_objects + 1) g
        g.root_objects.top 0 merged (active ++ old) [] start (λ b c m. cc) (λ p m o. root p m o)
        (omega (arith, start.lists.active_list.count)) in
    record {
      free = s.active';
      live = s.zs';
      lists = next_color-IsHeap (marked_heap past g) s.active' s.zs' s.marking.lists;
      kept = λ a r. all_kept past g w s.zs' hit s.closed a r;
      only = s.marking.sound;
      next_free = s.marking.lists.active_list.head;
      num_free = s.marking.lists.active_list.count;
      total = s.count ∙ omega (arith, length-append active old);
      painted =
          λ a m. ==→eq _ _ (s.marking.black a m) ∙ s.same_color ∙ ap (λ (n : ℕ). (n + 1) % 256) k;
      color = omega (arith, s.same_color, k);
    }
