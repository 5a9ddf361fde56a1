-- ===== src/Gc/Safety.antt =====
-- alloc_object of gc.c never hands out an object that the program can get at.
use brianscheme.Base.{
  ℕ, zero, suc, ◌+◌, ◌%◌, ◌<◌, ◌≤◌, ◌≡◌, refl, sym, inl, inr, Bool, true, false, ◌||◌, List, [],
  ◌∷◌, ◌++◌, arith, ◌==◌, Bool-cases, length, uncons,
}
use brianscheme.Base.Members.{Apart-symm}
use brianscheme.HashTab.{Bucket}
use brianscheme.Object.{Ptr, null}
use brianscheme.Gc.Block.{IsBlock, cells}
use brianscheme.Gc.Extend.{first_or-cells, extend_heap-IsHeap, extend_heap_colors}
use brianscheme.Gc.Move.{IsHeap}
use brianscheme.Gc.Collector.{
  Collector, baker_collect, extend_heap, extended, is_scarce, refill, hand_out, alloc_object,
}
use brianscheme.Gc.Collect.{Reachable, roots, IsCollected, baker_collect-IsCollected}
use brianscheme.Gc.HandOut.{
  IsSafe, IsSafe-IsReady, IsSafeAlloc, first_not_null, hand_out-IsSafe, roots-same,
}

or_true : (b : Bool) → (b || true) ≡ true
or_true true = refl
or_true false = refl

last_color :
    (k c' c : ℕ) → k ≡ (c + 1) % 256 → c' ≡ (c + 2) % 256 → (k == c' || (k + 1) % 256 == c') ≡ true
last_color k c' c e f =
    let next : ((k + 1) % 256 == c') ≡ true = ground arith in rw (next, or_true (k == c'))

in_range : (c' c : ℕ) → c' ≡ (c + 2) % 256 → c' < 256
in_range c' c e = omega arith

recolored :
    {k k' c c' : ℕ}
    → k' ≡ k
    → c' ≡ c
    → (k == c || (k + 1) % 256 == c) ≡ true
    → (k' == c' || (k' + 1) % 256 == c') ≡ true
recolored e f h = rw (e, f) h

-- A collection makes every unreachable object one to hand out.
IsCollected-IsSafe :
    (past : Bucket) (g : Collector) (used free old : List Ptr)
    → IsSafe g used free old
    → (k : IsCollected g (used ++ free) old (baker_collect past g)) × IsSafe
        (baker_collect past g).state
        []
        k.free
        k.live
unfolding baker_collect
IsCollected-IsSafe past g used free old w =
    let k = baker_collect-IsCollected past g (used ++ free) old (IsSafe-IsReady w) in
    let g' = (baker_collect past g).state in
    let same = roots-same g.root_objects.top 0 g g' refl refl in
    let before : (a : Ptr) → Reachable g'.object (roots g') a → Reachable g.object (roots g) a =
      λ a r. rw same at r in
    (
      k,
      record {
        lists = k.lists;
        next_free = k.next_free;
        whole = λ a r. k.kept a (before a r);
        painted = λ a r.
            last_color _ _ g.heap.current_color (k.painted a (k.kept a (before a r))) k.color;
        range = in_range _ g.heap.current_color k.color;
        sound = λ a r. w.sound a (before a r);
      },
    )

-- More heap is more objects to hand out.
extended-IsSafe :
    (block : Ptr) (g : Collector) (free old : List Ptr)
    → IsSafe g [] free old
    → IsBlock block g.next_heap_extension free old
    → IsSafe (extended block g) [] (cells block 0 g.next_heap_extension ++ free) old
unfolding extended extend_heap
extended-IsSafe block g free old w b =
    let g' = extended block g in
    let two = b.two in
    let (current, colors) = extend_heap_colors block g.next_heap_extension g two in
    let same = roots-same g.root_objects.top 0 g g' refl refl in
    let before : (a : Ptr) → Reachable g'.object (roots g') a → Reachable g.object (roots g) a =
      λ a r. rw same at r in
    record {
      lists = extend_heap-IsHeap block g.next_heap_extension g free old w.lists b;
      next_free = sym (first_or-cells block g.next_heap_extension free (omega arith));
      whole = λ a r. w.whole a (before a r);
      painted = λ a r.
          recolored
            (colors a (
              Apart-symm (cells block 0 g.next_heap_extension) old b.apart_old a
                (w.whole a (before a r))))
            current (w.painted a (before a r));
      range = rw current w.range;
      sound = λ a r. w.sound a (before a r);
    }

positive_length : (n : ℕ) (xs : List Ptr) → n ≡ length xs → (n == 0) ≡ false → 0 < length xs
positive_length n [] e h = absurd (let h' = rw e at h in cc)
positive_length n (x ∷ xs) e h = omega arith

not_scarce : (freed extension : ℕ) → is_scarce freed extension ≡ false → (freed == 0) ≡ false
unfolding is_scarce
not_scarce freed extension h = ground arith

cells_positive : (block n : ℕ) (xs : List Ptr) → 2 ≤ n → 0 < length (cells block 0 n ++ xs)
cells_positive block zero xs h = absurd (omega arith)
cells_positive block (suc n) xs h = omega arith

collected-Reachable :
    (past : Bucket) (g : Collector) (a : Ptr)
    → Reachable g.object (roots g) a
    → Reachable (baker_collect past g).state.object (roots (baker_collect past g).state) a
unfolding baker_collect
collected-Reachable past g a r =
    let same = roots-same g.root_objects.top 0 g (baker_collect past g).state refl refl in
    rw (sym same) at r

extended-Reachable :
    (block : Ptr) (g : Collector) (a : Ptr)
    → Reachable g.object (roots g) a
    → Reachable (extended block g).object (roots (extended block g)) a
unfolding extended extend_heap
extended-Reachable block g a r =
    let same = roots-same g.root_objects.top 0 g (extended block g) refl refl in rw (sym same) at r

-- The second half, of a state after a collection.
alloc_collected :
    (b : Bool) (g g' : Collector) (free old : List Ptr)
    → IsSafe g' [] free old
    → 0 < length free
    → ((a : Ptr) → Reachable g.object (roots g) a → Reachable g'.object (roots g') a)
    → IsSafeAlloc g (hand_out b g')
alloc_collected b g g' free old w some_free same =
    let (x, xs, e) = uncons free some_free in
    let (g'', y, used, free', old', made, safe, handed, nn, out, kept) =
      hand_out-IsSafe b [] x xs (rw e at w) in
    (
      g'',
      y,
      used,
      free',
      old',
      made,
      safe,
      handed,
      nn,
      λ r. out (same y r),
      λ a r. kept a (same a r),
    )

-- What a block asks for, when there is nothing left to hand out and a collection frees too little.
abbrev pub IsRoom : Bucket → Ptr → Collector → Type 0
IsRoom past block g =
    let c = baker_collect past g in
    (free live : List Ptr)
    → IsHeap c.state.heap free live
    → is_scarce c.num_free c.state.next_heap_extension ≡ true
    → IsBlock block c.state.next_heap_extension free live

-- alloc_object, on a heap as the program keeps it, and with a new block, where it needs one, of two
-- objects or more apart from both lists, succeeds: the object was not reachable, what was reachable
-- still is, and the heap stays as the program keeps it, with the object among those handed out.
pub alloc_object-IsSafe :
    (past : Bucket) (block : Ptr) (b : Bool) (g : Collector) (used free old : List Ptr)
    → IsSafe g used free old
    → IsRoom past block g
    → IsSafeAlloc g (alloc_object past block b g)
unfolding alloc_object refill
alloc_object-IsSafe past block b g used (x ∷ xs) old w room =
    rw (first_not_null used x xs w) (hand_out-IsSafe b used x xs w)
alloc_object-IsSafe past block b g used [] old w room =
    let none_left : (g.next_free_object == null) ≡ true = rw w.next_free refl in
    let (k, w') = IsCollected-IsSafe past g used [] old w in
    let c = baker_collect past g in
    elim (Bool-cases (is_scarce c.num_free c.state.next_heap_extension)) [
      | inl e ↦
          rw (none_left, e)
            (let block_fits = room k.free k.live k.lists e in
              let two = block_fits.two in
              alloc_collected b g (extended block c.state)
                (cells block 0 c.state.next_heap_extension ++ k.free) k.live
                (extended-IsSafe block c.state k.free k.live w' block_fits)
                (cells_positive block c.state.next_heap_extension k.free two)
                (λ a r. extended-Reachable block c.state a (collected-Reachable past g a r)))
      | inr e ↦
          rw (none_left, e)
            (alloc_collected b g c.state k.free k.live w'
              (positive_length c.num_free k.free k.num_free
                (not_scarce c.num_free c.state.next_heap_extension e))
              (collected-Reachable past g))
    ]
