-- ===== src/Gc/Block.antt =====
-- extend_heap of gc.c: the objects of a new block, and the loop over them.
use brianscheme.Base.{
  ℕ, zero, suc, ◌+◌, ◌-◌, ◌≤◌, ◌<◌, ◌≡◌, refl, ◌∙◌, sym, ap, inl, inr, true, false, List, [], ◌∷◌,
  ◌++◌, arith, ◌==◌, if◌then◌else◌, ==→eq, ==-self, Bool-cases, length,
}
use brianscheme.Base.Members.{mem, Nodup, Apart}
use brianscheme.Object.{Ptr, null}
use brianscheme.Gc.{Heap, update}
use brianscheme.Gc.Chain.{first_or, Chain}
use brianscheme.Gc.Collector.{cell, place, extend_loop}

-- The objects of a block from the one at `ii` on.
abbrev pub cells : Ptr → ℕ → ℕ → List Ptr
cells block ii zero = []
cells block ii (suc n) = cell block ii ∷ cells block (ii + 1) n

pub mem-cells : (block j ii n : ℕ) → j < ii → mem (cell block j) (cells block ii n) ≡ false
mem-cells block j ii zero h = refl
mem-cells block j ii (suc n) h = ground (arith, mem-cells block j (ii + 1) n)

pub Nodup-cells : (block ii n : ℕ) → Nodup (cells block ii n)
Nodup-cells block ii zero = tt
Nodup-cells block ii (suc n) =
    (mem-cells block ii (ii + 1) n (omega arith), Nodup-cells block (ii + 1) n)

pub length-cells : (block ii n : ℕ) → length (cells block ii n) ≡ n
length-cells block ii zero = refl
length-cells block ii (suc n) = omega (arith, length-cells block (ii + 1) n)

-- The loop touches only the objects of its rounds.
loop_else :
    (n ii block : ℕ) (h : Heap) (p : Ptr)
    → mem p (cells block ii n) ≡ false
    → ((extend_loop n ii block h).next p ≡ h.next p)
      × ((extend_loop n ii block h).prev p ≡ h.prev p)
      × ((extend_loop n ii block h).color p ≡ h.color p)
unfolding extend_loop update
loop_else zero ii block h p out = (refl, refl, refl)
loop_else (suc n) ii block h p out =
    let apart : (p == cell block ii) ≡ false = ground arith in
    let (a, b, c) =
      loop_else n (ii + 1) block
        (place h (cell block ii) (cell block (ii - 1)) (cell block (ii + 1))) p (ground arith) in
    (a ∙ rw apart, b ∙ rw apart, c ∙ rw apart)

pub loop_lists :
    (n ii block : ℕ) (h : Heap)
    → ((extend_loop n ii block h).active ≡ h.active)
      × ((extend_loop n ii block h).old ≡ h.old)
      × ((extend_loop n ii block h).current_color ≡ h.current_color)
unfolding extend_loop
loop_lists zero ii block h = (refl, refl, refl)
loop_lists (suc n) ii block h =
    loop_lists n (ii + 1) block
      (place h (cell block ii) (cell block (ii - 1)) (cell block (ii + 1)))

-- It leads each of these objects to its two neighbours.
loop_inner :
    (n ii block j : ℕ) (h : Heap)
    → ii ≤ j
    → j < ii + n
    → ((extend_loop n ii block h).next (cell block j) ≡ cell block (j + 1))
      × ((extend_loop n ii block h).prev (cell block j) ≡ cell block (j - 1))
unfolding extend_loop update
loop_inner zero ii block j h le lt = absurd (omega arith)
loop_inner (suc n) ii block j h le lt = elim (Bool-cases (j == ii)) [
  | inl e ↦
      let same : j ≡ ii = ==→eq j ii e in
      let h' = place h (cell block ii) (cell block (ii - 1)) (cell block (ii + 1)) in
      let (a, b, _) =
        loop_else n (ii + 1) block h' (cell block j) (mem-cells block j (ii + 1) n (omega arith)) in
      (a ∙ rw (same, ==-self (cell block ii)), b ∙ rw (same, ==-self (cell block ii)))
  | inr e ↦
      loop_inner n (ii + 1) block j
        (place h (cell block ii) (cell block (ii - 1)) (cell block (ii + 1))) (ground arith)
        (omega arith)
]

pub cells_has :
    (block j ii n : ℕ) → ii ≤ j → j < ii + n → mem (cell block j) (cells block ii n) ≡ true
cells_has block j ii zero le lt = absurd (omega arith)
cells_has block j ii (suc n) le lt = elim (Bool-cases (cell block j == cell block ii)) [
  | inl e ↦ rw e
  | inr e ↦ rw e (cells_has block j (ii + 1) n (ground arith) (omega arith))
]

cells_prefix :
    (p block ii n m : ℕ)
    → n ≤ m
    → mem p (cells block ii m) ≡ false
    → mem p (cells block ii n) ≡ false
cells_prefix p block ii zero m le out = refl
cells_prefix p block ii (suc n) zero le out = absurd (omega arith)
cells_prefix p block ii (suc n) (suc m) le out = elim (Bool-cases (p == cell block ii)) [
  | inl e ↦ absurd (let out' = rw e at out in cc)
  | inr e ↦ rw e (cells_prefix p block (ii + 1) n m (omega arith) (rw e at out))
]

-- A block whose objects up to `last` lead to one another, in front of a list.
pub Chain-cells :
    (next prev : Ptr → Ptr) (block : Ptr) (rest : List Ptr) (last n ii : ℕ) (p : Ptr)
    → last ≡ ii + n
    → (block == null) ≡ false
    → ((j : ℕ)
        → j ≤ last
        → next (cell block j) ≡ (if j == last then first_or null rest else cell block (j + 1)))
    → prev (cell block ii) ≡ p
    → ((j : ℕ) → 0 < j → j ≤ last → prev (cell block j) ≡ cell block (j - 1))
    → Chain next prev (cell block last) rest
    → Chain next prev p (cells block ii (suc n) ++ rest)
Chain-cells next prev block rest last zero ii p e nn hn hp hm c =
    let same : ii ≡ last = omega arith in
    let here : (ii == last) ≡ true = ground arith in
    (hp, hn ii (omega arith) ∙ rw here, ground arith, rw same c)
Chain-cells next prev block rest last (suc n) ii p e nn hn hp hm c =
    let inner : (ii == last) ≡ false = ground arith in
    let back : ii + 1 - 1 ≡ ii = omega arith in
    (
      hp,
      hn ii (omega arith) ∙ rw inner,
      ground arith,
      Chain-cells next prev block rest last n (ii + 1) (cell block ii) (omega arith) nn hn
          (hm (ii + 1) (omega arith) (omega arith) ∙ rw back) hm c,
    )

pub outside_cells :
    (p block j n : ℕ) → mem p (cells block 0 n) ≡ false → j < n → (p == cell block j) ≡ false
outside_cells p block j n out lt = elim (Bool-cases (p == cell block j)) [
  | inr e ↦ e
  | inl e ↦
      let same : p ≡ cell block j = ==→eq p (cell block j) e in
      let inside = cells_has block j 0 n (omega arith) (omega arith) in
      absurd (let out' = rw same at out in cc)
]

after_first :
    (p block n : ℕ)
    → 1 ≤ n
    → mem p (cells block 0 n) ≡ false
    → mem p (cells block 1 (n - 1)) ≡ false
after_first p block n le out =
    let e : n ≡ suc (n - 1) = omega arith in
    let out' : mem p (cells block 0 (suc (n - 1))) ≡ false =
      ap (λ (m : ℕ). mem p (cells block 0 m)) (sym e) ∙ out in
    ground arith

-- A block that malloc may have returned: not NULL, and apart from both lists.
pub record IsBlock (block extension : ℕ) (active old : List Ptr) : Type 0 where
  pub two : 2 ≤ extension
  pub not_null : (block == null) ≡ false
  pub apart_active : Apart (cells block 0 extension) active
  pub apart_old : Apart (cells block 0 extension) old

-- The first object and the inner ones, before the last one is placed.
abbrev pub inner_heap : Heap → ℕ → ℕ → Heap
inner_heap h block extension =
    extend_loop (extension - 2) 1 block (place h block null (cell block 1))

module _ (h : Heap) (block extension : ℕ) (two : 2 ≤ extension) where
  pub inner_next :
      (j : ℕ)
      → j < extension - 1
      → (inner_heap h block extension).next (cell block j) ≡ cell block (j + 1)
  unfolding update
  inner_next j lt = elim (Bool-cases (j == 0)) [
    | inl e ↦
        let zero_th : j ≡ 0 = ==→eq j 0 e in
        let first : (cell block 0 == block) ≡ true = ground arith in
        let (a, _, _) =
          loop_else (extension - 2) 1 block (place h block null (cell block 1)) (cell block 0)
            (mem-cells block 0 1 (extension - 2) (omega arith)) in
        rw zero_th (a ∙ rw first)
    | inr e ↦
        (loop_inner (extension - 2) 1 block j (place h block null (cell block 1)) (ground arith)
          (omega arith)).0
  ]

  pub inner_prev :
      (j : ℕ)
      → j < extension - 1
      → (inner_heap h block extension).prev (cell block j)
        ≡ (if j == 0 then null else cell block (j - 1))
  unfolding update
  inner_prev j lt = elim (Bool-cases (j == 0)) [
    | inl e ↦
        let zero_th : j ≡ 0 = ==→eq j 0 e in
        let first : (cell block 0 == block) ≡ true = ground arith in
        let (_, a, _) =
          loop_else (extension - 2) 1 block (place h block null (cell block 1)) (cell block 0)
            (mem-cells block 0 1 (extension - 2) (omega arith)) in
        rw zero_th (a ∙ rw first)
    | inr e ↦
        rw e
          (loop_inner (extension - 2) 1 block j (place h block null (cell block 1)) (ground arith)
            (omega arith)).1
  ]

  pub inner_else :
      (p : Ptr)
      → mem p (cells block 0 extension) ≡ false
      → ((inner_heap h block extension).next p ≡ h.next p)
        × ((inner_heap h block extension).prev p ≡ h.prev p)
        × ((inner_heap h block extension).color p ≡ h.color p)
        × ((p == cell block (extension - 1)) ≡ false)
  unfolding update
  inner_else p out =
      let first = outside_cells p block 0 extension out (omega arith) in
      let away : (p == block) ≡ false = ground arith in
      let rest =
        cells_prefix p block 1 (extension - 2) (extension - 1) (omega arith)
          (after_first p block extension (omega arith) out) in
      let (a, b, c) =
        loop_else (extension - 2) 1 block (place h block null (cell block 1)) p rest in
      (
        a ∙ rw away,
        b ∙ rw away,
        c ∙ rw away,
        outside_cells p block (extension - 1) extension out (omega arith),
      )
