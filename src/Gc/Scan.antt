-- ===== src/Gc/Scan.antt =====
-- The marking loop of move_reachable in gc.c: it moves exactly what it can reach, and ends.
use brianscheme.Base.{
  ℕ, ◌+◌, ◌≡◌, refl, ◌∙◌, ap, ◌⊎◌, inl, inr, Bool, true, false, ◌||◌, List, [], ◌∷◌, ◌++◌, arith,
  ◌==◌, if◌then◌else◌, ==→eq, ==-self, Bool-cases, length, length-append,
}
use brianscheme.Base.Members.{mem, mem_middle, mem_split, length_middle}
use brianscheme.Object.{Ptr, null, tagged}
use brianscheme.Gc.{Heap, update, move_object_to_head, maybe_move}
use brianscheme.Gc.Chain.{first_or, Chain}
use brianscheme.Gc.Move.{IsHeap, move-IsHeap, move_colors}

-- The objects of the old list in the order of the scan: a queue, then those scanned already.
abbrev pub rev_onto : List Ptr → List Ptr → List Ptr
rev_onto [] bs = bs
rev_onto (q ∷ qs) bs = rev_onto qs (q ∷ bs)

pub Chain_suffix :
    (n m : Ptr → Ptr) (p : Ptr) (q zs : List Ptr)
    → Chain n m p (rev_onto q zs)
    → (p' : Ptr) × Chain n m p' zs
Chain_suffix n m p [] zs c = (p, c)
Chain_suffix n m p (x ∷ q) zs c = let (p', c') = Chain_suffix n m p q (x ∷ zs) c in (x, c'.3)

pub prev_in_queue :
    (n m : Ptr → Ptr) (q : List Ptr) (x : Ptr) (bs : List Ptr)
    → Chain n m null (rev_onto q (x ∷ bs))
    → m x ≡ first_or null q
prev_in_queue n m [] x bs c = c.0
prev_in_queue n m (y ∷ q) x bs c = let (_, c') = Chain_suffix n m null q (y ∷ x ∷ bs) c in c'.3.0

rev_onto_snoc :
    (q : List Ptr) (n : Ptr) (bs : List Ptr) → rev_onto (q ++ n ∷ []) bs ≡ n ∷ rev_onto q bs
rev_onto_snoc [] n bs = refl
rev_onto_snoc (x ∷ q) n bs = rev_onto_snoc q n (x ∷ bs)

-- Objects put in front of the list are at the end of the queue.
pub longer_queue :
    (ns q bs : List Ptr)
    → (q' : List Ptr) × (rev_onto q' bs ≡ ns ++ rev_onto q bs) × (length q' ≡ length ns + length q)
longer_queue [] q bs = (q, refl, omega arith)
longer_queue (n ∷ ns) q bs =
    let (q', e, l) = longer_queue ns q bs in
    (
      q' ++ n ∷ [],
      rev_onto_snoc q' n bs ∙ ap (λ (zs : List Ptr). n ∷ zs) e,
      length-append q' (n ∷ []) ∙ omega (arith, l),
    )

pub mem-rev_onto : (a : Ptr) (q bs : List Ptr) → mem a bs ≡ true → mem a (rev_onto q bs) ≡ true
mem-rev_onto a [] bs h = h
mem-rev_onto a (x ∷ q) bs h = mem-rev_onto a q (x ∷ bs) (ground arith)

pub mem_right : (a : Ptr) (ns zs : List Ptr) → mem a zs ≡ true → mem a (ns ++ zs) ≡ true
mem_right a [] zs h = h
mem_right a (n ∷ ns) zs h = ground (arith, mem_right a ns zs h)

-- `R` is the set of objects to keep: closed under the fields of its objects.
pub record IsClosed (kids : Ptr → List Ptr) (R : Ptr → Type 0) : Type 0 where
  pub plain : (p : Ptr) → R p → tagged p ≡ false
  pub step : (p q : Ptr) → R p → mem q (kids p) ≡ true → tagged q ≡ false → R q

-- A state of the collector between two moves: the old list `zs` holds objects of `R`, the only ones
-- of `R` that have the current colour, and what is missing of `R` is on the active list.
pub record Marking (R : Ptr → Type 0) (h : Heap) (active zs : List Ptr) : Type 0 where
  pub lists : IsHeap h active zs
  pub black : (a : Ptr) → mem a zs ≡ true → (h.color a == h.current_color) ≡ true
  pub white : (a : Ptr) → R a → mem a zs ≡ false → (h.color a == h.current_color) ≡ false
  pub sound : (a : Ptr) → mem a zs ≡ true → R a
  pub whole : (a : Ptr) → R a → (mem a active || mem a zs) ≡ true

-- The state after some moves: `ns` was put in front, and the objects `ps` are on the old list.
pub record Moves (R : Ptr → Type 0) (h : Heap) (active zs ps : List Ptr) (h' : Heap) : Type 0 where
  pub active' : List Ptr
  pub ns : List Ptr
  pub marking : Marking R h' active' (ns ++ zs)
  pub moved : (p : Ptr) → mem p ps ≡ true → tagged p ≡ false → mem p (ns ++ zs) ≡ true
  pub count : length active' + length ns ≡ length active
  pub same_color : h'.current_color ≡ h.current_color

pub IsHeap-recolor :
    (h : Heap) (f : Ptr → ℕ) (active old : List Ptr)
    → IsHeap h active old
    → IsHeap (record h { color = f }) active old
IsHeap-recolor h f active old w = record {
  active_list = w.active_list;
  old_list = w.old_list;
  active_distinct = w.active_distinct;
  old_distinct = w.old_distinct;
  apart = w.apart;
}

mem_one : (q p : Ptr) → mem q (p ∷ []) ≡ true → q ≡ p
mem_one q p m = ground (arith, ==→eq q p)

pub true-false : ¬ (true ≡ false)
true-false e = cc

rest_whole :
    (a p : Ptr) (rest active zs : Bool)
    → active ≡ (if a == p then true else rest)
    → (active || zs) ≡ true
    → (rest || (if a == p then true else zs)) ≡ true
rest_whole a p rest active zs e w = ground arith

-- An object goes from the active list to the old one and takes the current colour.
pub paint :
    {R : Ptr → Type 0} (p : Ptr) (h h' : Heap) (xs ys zs : List Ptr)
    → Marking R h (xs ++ p ∷ ys) zs
    → R p
    → IsHeap h' (xs ++ ys) (p ∷ zs)
    → h'.color ≡ update h.color p h.current_color
    → h'.current_color ≡ h.current_color
    → Marking R h' (xs ++ ys) (p ∷ zs)
unfolding update
paint {R} p h h' xs ys zs w r lists c k = record {
  lists = lists;
  black = λ a m. rw (c, k) (black a (Bool-cases (a == p)) m);
  white = λ a ra m. rw (c, k) (white a ra (Bool-cases (a == p)) m);
  sound = λ a m. sound a (Bool-cases (a == p)) m;
  whole =
      λ a ra. rest_whole a p (mem a (xs ++ ys)) _ (mem a zs) (mem_middle a p xs ys) (w.whole a ra);
}
  where
    black :
        (a : Ptr)
        → ((a == p) ≡ true) ⊎ ((a == p) ≡ false)
        → mem a (p ∷ zs) ≡ true
        → ((if a == p then h.current_color else h.color a) == h.current_color) ≡ true
    black a (inl e) m = rw e (==-self h.current_color)
    black a (inr e) m = rw e (w.black a (rw e at m))

    white :
        (a : Ptr)
        → R a
        → ((a == p) ≡ true) ⊎ ((a == p) ≡ false)
        → mem a (p ∷ zs) ≡ false
        → ((if a == p then h.current_color else h.color a) == h.current_color) ≡ false
    white a ra (inl e) m = absurd (true-false (rw e at m))
    white a ra (inr e) m = rw e (w.white a ra (rw e at m))

    sound : (a : Ptr) → ((a == p) ≡ true) ⊎ ((a == p) ≡ false) → mem a (p ∷ zs) ≡ true → R a
    sound a (inl e) m = rw (==→eq a p e) r
    sound a (inr e) m = w.sound a (rw e at m)

take_white :
    {R : Ptr → Type 0} (p : Ptr) (h : Heap) (xs ys zs : List Ptr)
    → Marking R h (xs ++ p ∷ ys) zs
    → R p
    → let moved = move_object_to_head p h in
      Marking R
        (record moved { color = update moved.color p moved.current_color })
        (xs ++ ys)
        (p ∷ zs)
take_white p h xs ys zs w r =
    let moved = move_object_to_head p h in
    let (c, k) = move_colors h p in
    paint p h (record moved { color = update moved.color p moved.current_color }) xs ys zs w r
      (IsHeap-recolor moved _ (xs ++ ys) (p ∷ zs) (move-IsHeap h xs p ys zs w.lists)) (rw (c, k)) k

-- The same, when the colour is set before the move.
pub take_root :
    {R : Ptr → Type 0} (p : Ptr) (h : Heap) (xs ys zs : List Ptr)
    → Marking R h (xs ++ p ∷ ys) zs
    → R p
    → Marking R
        (move_object_to_head p (record h { color = update h.color p h.current_color }))
        (xs ++ ys)
        (p ∷ zs)
take_root p h xs ys zs w r =
    let coloured : Heap = record h { color = update h.color p h.current_color } in
    let (c, k) = move_colors coloured p in
    paint p h (move_object_to_head p coloured) xs ys zs w r
      (move-IsHeap coloured xs p ys zs (IsHeap-recolor h _ (xs ++ p ∷ ys) zs w.lists)) c k

module _ {R : Ptr → Type 0} (p : Ptr) (h : Heap) (active zs : List Ptr)
    (w : Marking R h active zs) where
  -- Nothing moves when the object is tagged or on the old list.
  stay : (tagged p ≡ false → mem p zs ≡ true) → Moves R h active zs (p ∷ []) h
  stay there = record {
    active' = active;
    ns = [];
    marking = w;
    moved = λ q m t. let e = mem_one q p m in rw e (there (rw e at t));
    count = omega arith;
    same_color = refl;
  }

  go :
      (h.color p == h.current_color) ≡ false
      → R p
      → let moved = move_object_to_head p h in
        Moves R h active zs
          (p ∷ [])
          (record moved { color = update moved.color p moved.current_color })
  go c r =
      let inside : mem p active ≡ true = ground (arith, w.whole p r, w.black p) in
      let (xs, ys, e) = mem_split p active inside in
      record {
        active' = xs ++ ys;
        ns = p ∷ [];
        marking = take_white p h xs ys zs (rw e at w) r;
        moved = λ q m t. ground (arith, mem_one q p m);
        count = omega (arith, ap length e, length_middle p xs ys);
        same_color = (move_colors h p).1;
      }

  pub maybe_move-Moves : (tagged p ≡ false → R p) → Moves R h active zs (p ∷ []) (maybe_move p h)
  unfolding maybe_move
  maybe_move-Moves r = elim (Bool-cases (tagged p)) [
    | inl t ↦ rw t (stay (λ f. cc))
    | inr f ↦ rw f (elim (Bool-cases (h.color p == h.current_color)) [
      | inl c ↦ rw c (stay (λ _. ground (arith, w.white p (r f))))
      | inr c ↦ rw c (go c (r f))
    ])
  ]
