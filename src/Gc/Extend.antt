-- ===== src/Gc/Extend.antt =====
-- extend_heap of gc.c puts a new block in front of the active list.
use brianscheme.Base.{
  ℕ, zero, suc, ◌+◌, ◌-◌, ◌≤◌, ◌<◌, ◌≡◌, refl, ◌∙◌, sym, ap, inl, inr, true, false, List, [], ◌∷◌,
  ◌++◌, arith, ◌==◌, if◌then◌else◌, ==→eq, ==-self, Bool-cases, length-append,
}
use brianscheme.Base.Members.{mem, mem-append, Apart, Apart-symm}
use brianscheme.Object.{Ptr, null}
use brianscheme.Gc.{ObjectList, Heap, update}
use brianscheme.Gc.Chain.{first_or, last_or, last_or-append, Chain, Chain-frame, IsList}
use brianscheme.Gc.Move.{IsHeap}
use brianscheme.Gc.Append.{Nodup-append}
use brianscheme.Gc.Collector.{Collector, cell, place, attach, extend_heap}
use brianscheme.Gc.Block.{
  Chain-cells, IsBlock, Nodup-cells, cells, cells_has, inner_else, inner_heap, inner_next,
  inner_prev, length-cells, loop_lists, outside_cells,
}

Chain-count :
    (next prev : Ptr → Ptr) (block : Ptr) (rest : List Ptr) {m n : ℕ}
    → m ≡ n
    → Chain next prev null (cells block 0 m ++ rest)
    → Chain next prev null (cells block 0 n ++ rest)
Chain-count next prev block rest e c = rw e at c

pub first_or-cells :
    (block n : ℕ) (xs : List Ptr) → 1 ≤ n → first_or null (cells block 0 n ++ xs) ≡ block
first_or-cells block zero xs h = absurd (omega arith)
first_or-cells block (suc n) xs h = omega arith

last_or-cells :
    (block ii n : ℕ) (d : Ptr) → last_or d (cells block ii (suc n) ++ []) ≡ cell block (ii + n)
last_or-cells block ii zero d = omega arith
last_or-cells block ii (suc n) d = last_or-cells block (ii + 1) n (cell block ii) ∙ omega arith

last_block : (block n : ℕ) → 1 ≤ n → cell block (n - 1) ≡ last_or null (cells block 0 n ++ [])
last_block block zero h = absurd (omega arith)
last_block block (suc n) h =
    let e : suc n - 1 ≡ 0 + n = omega arith in
    ap (λ (j : ℕ). cell block j) e ∙ sym (last_or-cells block 0 n null)

apart_members : (a x : Ptr) (xs : List Ptr) → mem a xs ≡ true → mem x xs ≡ false → (a == x) ≡ false
apart_members a x xs m out = elim (Bool-cases (a == x)) [
  | inr e ↦ e
  | inl e ↦ let same : a ≡ x = ==→eq a x e in absurd (let m' = rw same at m in cc)
]

not_head : (a x : Ptr) (xs : List Ptr) → mem a (x ∷ xs) ≡ false → (a == x) ≡ false
not_head a x xs out = ground arith

Apart-append : (xs ys zs : List Ptr) → Apart xs zs → Apart ys zs → Apart (xs ++ ys) zs
Apart-append xs ys zs a b c m = ground (arith, mem-append c xs ys, a c, b c)

IsList-frame :
    (n m n' m' : Ptr → Ptr) (l l' : ObjectList) (xs : List Ptr)
    → l' ≡ l
    → IsList n m l xs
    → ((a : Ptr) → mem a xs ≡ true → (n' a ≡ n a) × (m' a ≡ m a))
    → IsList n' m' l' xs
IsList-frame n m n' m' l l' xs e w same = record {
  head = ap (λ (k : ObjectList). k.head) e ∙ w.head;
  tail = ap (λ (k : ObjectList). k.tail) e ∙ w.tail;
  count = ap (λ (k : ObjectList). k.num_objects) e ∙ w.count;
  chain = Chain-frame null xs w.chain same;
}

inner-IsHeap :
    (h : Heap) (block extension : ℕ) (active old : List Ptr)
    → IsHeap h active old
    → IsBlock block extension active old
    → IsHeap (inner_heap h block extension) active old
inner-IsHeap h block extension active old w b =
    let (e, f, _) = loop_lists (extension - 2) 1 block (place h block null (cell block 1)) in
    let out : (xs : List Ptr)
        → Apart (cells block 0 extension) xs
        → (a : Ptr) → mem a xs ≡ true
        → ((inner_heap h block extension).next a ≡ h.next a)
          × ((inner_heap h block extension).prev a ≡ h.prev a) =
      λ xs apart a m.
        let (n, p, _, _) =
          inner_else h block extension b.two a
            (Apart-symm (cells block 0 extension) xs apart a m) in
        (n, p) in
    record {
      active_list =
          IsList-frame h.next h.prev _ _ h.active _ active e w.active_list
            (out active b.apart_active);
      old_list = IsList-frame h.next h.prev _ _ h.old _ old f w.old_list (out old b.apart_old);
      active_distinct = w.active_distinct;
      old_distinct = w.old_distinct;
      apart = w.apart;
    }

-- The heap before the last object is placed: the others lead to one another.
module _ (h : Heap) (block extension : ℕ) (old : List Ptr)
    (hn : (j : ℕ) → j < extension - 1 → h.next (cell block j) ≡ cell block (j + 1))
    (hp : (j : ℕ)
      → j < extension - 1
      → h.prev (cell block j) ≡ (if j == 0 then null else cell block (j - 1))) where
  abbrev next_after : Ptr → Ptr
  next_after = λ p. if p == cell block (extension - 1) then h.active.head else h.next p

  abbrev prev_after : Ptr → Ptr
  prev_after =
      λ p. if p == cell block (extension - 1) then cell block (extension - 1 - 1) else h.prev p

  block_chain :
      (active : List Ptr) (prev : Ptr → Ptr)
      → IsHeap h active old
      → IsBlock block extension active old
      → ((j : ℕ) → j < extension → prev (cell block j) ≡ prev_after (cell block j))
      → Chain next_after prev (cell block (extension - 1)) active
      → Chain next_after prev null (cells block 0 extension ++ active)
  block_chain active prev v w same c =
      let two = w.two in
      let e : suc (extension - 1) ≡ extension = omega arith in
      let ends : (cell block 0 == cell block (extension - 1)) ≡ false = ground arith in
      Chain-count _ prev block active e (
        Chain-cells next_after prev block active (extension - 1) (extension - 1) 0 null
          (omega arith) w.not_null
          (λ j le. elim (Bool-cases (j == extension - 1)) [
            | inl q ↦
                let q' = ==→eq j (extension - 1) q in
                rw (q', ==-self (extension - 1), ==-self (cell block (extension - 1)))
                  v.active_list.head
            | inr q ↦
                let apart : (cell block j == cell block (extension - 1)) ≡ false = ground arith in
                rw (q, apart) (hn j (ground arith))
          ])
          (same 0 (omega arith) ∙ rw ends (hp 0 (omega arith)))
          (λ j pos le. same j (omega arith) ∙ elim (Bool-cases (j == extension - 1)) [
            | inl q ↦
                let q' = ==→eq j (extension - 1) q in rw (q', ==-self (cell block (extension - 1)))
            | inr q ↦
                let apart : (cell block j == cell block (extension - 1)) ≡ false = ground arith in
                let later : (j == 0) ≡ false = ground arith in
                rw apart (hp j (ground arith) ∙ rw later)
          ])
          c)

  -- An object of a list that has none of the block.
  away_from_last :
      (xs : List Ptr)
      → 2 ≤ extension
      → Apart (cells block 0 extension) xs
      → (a : Ptr) → mem a xs ≡ true
      → (a == cell block (extension - 1)) ≡ false
  away_from_last xs two apart a m =
      outside_cells a block (extension - 1) extension
        (Apart-symm (cells block 0 extension) xs apart a m) (omega arith)

  attach-IsHeap :
      (active : List Ptr)
      → IsHeap h active old
      → IsBlock block extension active old
      → IsHeap (attach block extension h) (cells block 0 extension ++ active) old
  unfolding attach update
  attach-IsHeap [] v w =
      let none_active : (h.active.head == null) ≡ true = rw v.active_list.head refl in
      let two = w.two in
      rw none_active (record {
        active_list = record {
          head = sym (first_or-cells block extension [] (omega arith));
          tail = last_block block extension (omega arith);
          count = omega (
            arith,
            v.active_list.count,
            length-append (cells block 0 extension) [],
            length-cells block 0 extension,
          );
          chain = block_chain [] prev_after v w (λ j lt. refl) tt;
        };
        old_list =
            IsList-frame h.next h.prev next_after prev_after h.old h.old old refl v.old_list
              (λ a m. let off = away_from_last old two w.apart_old a m in (rw off, rw off));
        active_distinct =
            Nodup-append (cells block 0 extension) [] (Nodup-cells block 0 extension) tt
              (λ a m. refl);
        old_distinct = v.old_distinct;
        apart = Apart-append (cells block 0 extension) [] old w.apart_old v.apart;
      })
  attach-IsHeap (x ∷ xs) v w =
      let two = w.two in
      let (back, forth, nn, chain) = v.active_list.chain in
      let live : (h.active.head == null) ≡ false = rw v.active_list.head nn in
      let prev : Ptr → Ptr =
        λ p. if p == h.active.head then cell block (extension - 1) else prev_after p in
      let off : (a : Ptr) → mem a (x ∷ xs) ≡ true → (a == cell block (extension - 1)) ≡ false =
        λ a m. away_from_last (x ∷ xs) two w.apart_active a m in
      let not_first : (j : ℕ) → mem (cell block j) (x ∷ xs) ≡ false → (cell block j == x) ≡ false =
        λ j out. not_head (cell block j) x xs out in
      let pointers : (a : Ptr)
          → (a == x) ≡ false
          → (a == cell block (extension - 1)) ≡ false
          → (next_after a ≡ h.next a) × (prev a ≡ h.prev a) =
        λ a first last. (rw last, rw (v.active_list.head, first, last)) in
      rw live (record {
        active_list = record {
          head = sym (first_or-cells block extension (x ∷ xs) (omega arith));
          tail = v.active_list.tail ∙ sym (last_or-append null (cells block 0 extension) x xs);
          count = omega (
            arith,
            v.active_list.count,
            length-append (cells block 0 extension) (x ∷ xs),
            length-cells block 0 extension,
          );
          chain =
              block_chain (x ∷ xs) prev v w
                (λ j lt.
                  let apart : (cell block j == x) ≡ false = not_first j (
                    w.apart_active (cell block j)
                      (cells_has block j 0 extension (omega arith) (omega arith))) in
                  rw (v.active_list.head, apart))
                (
                  rw (v.active_list.head, ==-self x),
                  rw (off x (rw (==-self x))) forth,
                  nn,
                  Chain-frame x xs chain (λ a m.
                      pointers a (apart_members a x xs m v.active_distinct.0)
                        (off a (ground arith))),
                );
        };
        old_list =
            IsList-frame h.next h.prev next_after prev h.old h.old old refl v.old_list (λ a m.
              pointers a (apart_members a x old m (v.apart x (rw (==-self x))))
                (away_from_last old two w.apart_old a m));
        active_distinct =
            Nodup-append (cells block 0 extension) (x ∷ xs) (Nodup-cells block 0 extension)
              v.active_distinct w.apart_active;
        old_distinct = v.old_distinct;
        apart = Apart-append (cells block 0 extension) (x ∷ xs) old w.apart_old v.apart;
      })

-- extend_heap with a new block of two objects or more puts the block in front of the active list.
pub extend_heap-IsHeap :
    (block extension : ℕ) (g : Collector) (active old : List Ptr)
    → IsHeap g.heap active old
    → IsBlock block extension active old
    → IsHeap (extend_heap block extension g).heap (cells block 0 extension ++ active) old
unfolding extend_heap
extend_heap-IsHeap block extension g active old w b =
    attach-IsHeap (inner_heap g.heap block extension) block extension old
      (inner_next g.heap block extension b.two) (inner_prev g.heap block extension b.two) active
      (inner-IsHeap g.heap block extension active old w b) b

attach_colors :
    (h : Heap) (block extension : ℕ)
    → ((attach block extension h).current_color ≡ h.current_color)
      × ((p : Ptr)
          → (p == cell block (extension - 1)) ≡ false
          → (attach block extension h).color p ≡ h.color p)
unfolding attach update
attach_colors h block extension = elim (Bool-cases (h.active.head == null)) [
  | inl e ↦ rw e (refl, λ p off. rw off)
  | inr e ↦ rw e (refl, λ p off. rw off)
]

-- It leaves the current colour, and the colours of other objects.
pub extend_heap_colors :
    (block extension : ℕ) (g : Collector)
    → 2 ≤ extension
    → ((extend_heap block extension g).heap.current_color ≡ g.heap.current_color)
      × ((p : Ptr)
          → mem p (cells block 0 extension) ≡ false
          → (extend_heap block extension g).heap.color p ≡ g.heap.color p)
unfolding extend_heap
extend_heap_colors block extension g two =
    let (_, _, k) = loop_lists (extension - 2) 1 block (place g.heap block null (cell block 1)) in
    let (k', c') = attach_colors (inner_heap g.heap block extension) block extension in
    (
      k' ∙ k,
      λ p out. let (_, _, c, off) = inner_else g.heap block extension two p out in c' p off ∙ c,
    )
