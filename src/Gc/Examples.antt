-- ===== src/Gc/Examples.antt =====
-- Tests of the model of gc.c, and its theorems at a heap of three objects.
use brianscheme.Base.{
  ◌≡◌, ◌∙◌, sym, ap, refl, true, false, none, some, List, ◌==◌, [], ◌∷◌, arith, if◌then◌else◌,
  ==→eq, Bool-cases, inl, inr,
}
use brianscheme.Base.Members.{mem}
use brianscheme.Object.{Ptr, null, fixnum, pair, string}
use brianscheme.StackSet.{make_stack_set, stack_set_push}
use brianscheme.Gc.{Heap, move_object_to_head}
use brianscheme.Gc.Move.{IsHeap, move-IsHeap}
use brianscheme.Gc.Collector.{Collector, baker_collect, extend_heap, alloc_object, free_string}
use brianscheme.Gc.Chain.{Chain, first_or}
use brianscheme.Gc.Extend.{extend_heap-IsHeap}
use brianscheme.Gc.HandOut.{IsSafe, IsSafeAlloc}
use brianscheme.Gc.Safety.{IsRoom, alloc_object-IsSafe}
use brianscheme.Gc.Validate.{debug_validate, debug_validate_lem}
use brianscheme.Gc.Collect.{
  Reachable, root, field, roots, IsReady, IsCollected, baker_collect-IsCollected,
}

-- Objects 8, 16 and 24 on the active list, 32 on the old one.
abbrev heap : Heap
heap = record {
  next = λ p. if p == 8 then 16 else if p == 16 then 24 else 0;
  prev = λ p. if p == 16 then 8 else if p == 24 then 16 else 0;
  color = λ p. 0;
  active = record { head = 8; tail = 24; num_objects = 3 };
  old = record { head = 32; tail = 32; num_objects = 1 };
  current_color = 0;
}

heap-IsHeap : IsHeap heap (8 ∷ 16 ∷ 24 ∷ []) (32 ∷ [])
heap-IsHeap = record {
  active_list = record {
    head = refl;
    tail = refl;
    count = refl;
    chain = (refl, refl, refl, (refl, refl, refl, (refl, refl, refl, tt)));
  };
  old_list = record { head = refl; tail = refl; count = refl; chain = (refl, refl, refl, tt) };
  active_distinct = (refl, (refl, (refl, tt)));
  old_distinct = (refl, tt);
  apart = λ b m. ground (arith, ==→eq b 8, ==→eq b 16, ==→eq b 24);
}

move-IsHeap_example : IsHeap (move_object_to_head 16 heap) (8 ∷ 24 ∷ []) (16 ∷ 32 ∷ [])
move-IsHeap_example = move-IsHeap heap (8 ∷ []) 16 (24 ∷ []) (32 ∷ []) heap-IsHeap

-- 8 is a pair of 32 and a small fixnum; 16 and 24 are strings, to be finalized. One variable is
-- rooted, and holds 8.
abbrev state : Collector
state = record {
  heap = heap;
  object = λ p. if p == 8 then pair 32 5 else if p == 32 then fixnum 1 else string (65 ∷ []);
  variable = λ v. 8;
  root_objects = stack_set_push (make_stack_set (λ i. 0) 4) 1;
  finalizable_objects = stack_set_push (stack_set_push (make_stack_set (λ i. 0) 4) 16) 24;
  finalizable_objects_next = make_stack_set (λ i. 0) 4;
  next_free_object = 0;
  next_heap_extension = 1000;
}

reaches : (a : Ptr) → Reachable state.object (roots state) a → mem a (8 ∷ 32 ∷ []) ≡ true
unfolding make_stack_set stack_set_push
reaches a (root _ m o) = ground (arith, ==→eq a 8)
reaches a (field p _ r m t) = elim (Bool-cases (p == 8)) [
  | inl e ↦
      let m' = rw (==→eq p 8 e) at m in
      elim m' [ inl u ↦ ground arith | inr u ↦ let t' = rw u at t in cc ]
  | inr e ↦
      let q : p ≡ 32 = ground (arith, reaches p r, ==→eq p 32) in let m' = rw q at m in elim m' [ ]
]

state-IsReady : IsReady state (8 ∷ 16 ∷ 24 ∷ []) (32 ∷ [])
state-IsReady = record {
  lists = heap-IsHeap;
  whole = λ a r. ground (arith, reaches a r);
  fresh = λ a r. refl;
  sound = λ a r. elim (Bool-cases (a == 8)) [
    | inl e ↦ rw e tt
    | inr e ↦ rw e (elim (Bool-cases (a == 32)) [ inl f ↦ rw f tt | inr f ↦ rw f tt ])
  ];
}

baker_collect-IsCollected_example :
    IsCollected state (8 ∷ 16 ∷ 24 ∷ []) (32 ∷ []) (baker_collect [] state)
baker_collect-IsCollected_example =
    baker_collect-IsCollected [] state (8 ∷ 16 ∷ 24 ∷ []) (32 ∷ []) state-IsReady

-- The two strings are freed, and the next object to hand out is the first of them.
collected :
    ((baker_collect [] state).released ≡ (16, free_string) ∷ (24, free_string) ∷ [])
    × ((baker_collect [] state).num_free ≡ 2)
    × ((baker_collect [] state).state.next_free_object ≡ 16)
    × ((baker_collect [] state).state.heap.old.head ≡ 32)
unfolding baker_collect make_stack_set
collected = (refl, refl, refl, refl)

-- A heap of one object, which is rooted: a collection frees nothing, so the heap is extended.
abbrev full_heap : Heap
full_heap = record {
  next = λ p. 0;
  prev = λ p. 0;
  color = λ p. 0;
  active = record { head = 8; tail = 8; num_objects = 1 };
  old = record { head = 0; tail = 0; num_objects = 0 };
  current_color = 0;
}

abbrev full : Collector
full = record {
  heap = full_heap;
  object = λ p. fixnum 1;
  variable = λ v. 8;
  root_objects = stack_set_push (make_stack_set (λ i. 0) 4) 1;
  finalizable_objects = make_stack_set (λ i. 0) 4;
  finalizable_objects_next = make_stack_set (λ i. 0) 4;
  next_free_object = 0;
  next_heap_extension = 2;
}

full_reaches : (a : Ptr) → Reachable full.object (roots full) a → mem a (8 ∷ []) ≡ true
unfolding make_stack_set stack_set_push
full_reaches a (root _ m o) = ground (arith, ==→eq a 8)
full_reaches a (field p _ r m t) = elim m [ ]

full-IsSafe : IsSafe full (8 ∷ []) [] []
full-IsSafe = record {
  lists = record {
    active_list = record { head = refl; tail = refl; count = refl; chain = (refl, refl, refl, tt) };
    old_list = record { head = refl; tail = refl; count = refl; chain = tt };
    active_distinct = (refl, tt);
    old_distinct = tt;
    apart = λ b m. refl;
  };
  next_free = refl;
  whole = λ a r. rw (full_reaches a r);
  painted = λ a r. refl;
  range = omega arith;
  sound = λ a r. tt;
}

-- After the collection nothing is free, and the object is on the old list.
full_after :
    ((baker_collect [] full).state.heap.active.head ≡ 0)
    × ((baker_collect [] full).state.heap.old.head ≡ 8)
    × ((baker_collect [] full).state.heap.next 8 ≡ 0)
    × ((baker_collect [] full).state.next_heap_extension ≡ 2)
unfolding baker_collect make_stack_set
full_after = (refl, refl, refl, refl)

no_object :
    (n m : Ptr → Ptr) (p : Ptr) (xs : List Ptr) → Chain n m p xs → first_or null xs ≡ null → xs ≡ []
no_object n m p [] c h = refl
no_object n m p (x ∷ xs) c h = absurd (let out = c.2 in let out' = rw h at out in cc)

one_object :
    (n m : Ptr → Ptr) (p x : Ptr) (xs : List Ptr)
    → Chain n m p xs
    → (x == null) ≡ false
    → first_or null xs ≡ x
    → n x ≡ null
    → xs ≡ x ∷ []
one_object n m p x [] c nn h e = absurd (let nn' = rw (sym h) at nn in cc)
one_object n m p x (y ∷ ys) c nn h e =
    let tail = no_object n m y ys c.3 (sym c.1 ∙ ap (λ (q : Ptr). n q) h ∙ e) in
    ap (λ (zs : List Ptr). y ∷ zs) tail ∙ ap (λ (q : Ptr). q ∷ []) h

full-IsRoom : IsRoom [] 48 full
full-IsRoom free live l e =
    let (head, old_head, next, extension) = full_after in
    let none : free ≡ [] =
      no_object _ _ null free l.active_list.chain (sym l.active_list.head ∙ head) in
    let one : live ≡ 8 ∷ [] =
      one_object _ _ null 8 live l.old_list.chain refl (sym l.old_list.head ∙ old_head) next in
    rw (extension, none, one)
      (record {
        two = omega arith;
        not_null = refl;
        apart_active = λ b m. refl;
        apart_old = λ b m. ground arith;
      })

alloc_object-IsSafe_example : IsSafeAlloc full (alloc_object [] 48 false full)
alloc_object-IsSafe_example =
    alloc_object-IsSafe [] 48 false full (8 ∷ []) [] [] full-IsSafe full-IsRoom

extend_heap-IsHeap_example : IsHeap (extend_heap 48 2 full).heap (48 ∷ 88 ∷ 8 ∷ []) []
extend_heap-IsHeap_example = extend_heap-IsHeap 48 2 full (8 ∷ []) [] full-IsSafe.lists (record {
  two = omega arith;
  not_null = refl;
  apart_active = λ b m. ground arith;
  apart_old = λ b m. refl;
})

debug_validate_lem_example : debug_validate 4 heap.next heap.prev heap.active ≡ some none
debug_validate_lem_example =
    debug_validate_lem 4 heap.next heap.prev heap.active (8 ∷ 16 ∷ 24 ∷ []) heap-IsHeap.active_list
      heap-IsHeap.active_distinct (omega arith)
