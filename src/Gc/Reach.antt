-- ===== src/Gc/Reach.antt =====
-- move_reachable of gc.c: after it the old list is closed under the fields of its objects.
use brianscheme.Base.{
  ℕ, zero, suc, ◌+◌, ◌≤◌, ◌<◌, ◌≡◌, refl, ◌∙◌, sym, ap, ◌⊎◌, inl, inr, true, false, List, [], ◌∷◌,
  ◌++◌, arith, ◌==◌, ==→eq, Bool-cases, length, length-append, append_assoc,
}
use brianscheme.Base.Members.{mem, mem_split, length_middle, mem_self}
use brianscheme.Object.{Ptr, null, tagged}
use brianscheme.Gc.{Heap, update, move_object_to_head, maybe_move, move_all, scan, move_reachable}
use brianscheme.Gc.Chain.{first_or}
use brianscheme.Gc.Move.{move_colors}
use brianscheme.Gc.Scan.{
  rev_onto, IsClosed, Marking, Moves, maybe_move-Moves, longer_queue, prev_in_queue, mem-rev_onto,
  mem_right, Chain_suffix, take_root, true-false,
}

module _ {R : Ptr → Type 0} where
  move_all-Moves :
      (ps : List Ptr) (h : Heap) (active zs : List Ptr)
      → Marking R h active zs
      → ((p : Ptr) → mem p ps ≡ true → tagged p ≡ false → R p)
      → Moves R h active zs ps (move_all ps h)
  unfolding move_all
  move_all-Moves [] h active zs w r = record {
    active' = active;
    ns = [];
    marking = w;
    moved = λ p m t. cc;
    count = omega arith;
    same_color = refl;
  }
  move_all-Moves (p ∷ ps) h active zs w r =
      let one = maybe_move-Moves p h active zs w (r p (mem_self p ps)) in
      let more =
        move_all-Moves ps (maybe_move p h) one.active' (one.ns ++ zs) one.marking
          (λ q m. r q (ground arith)) in
      let e = append_assoc more.ns one.ns zs in
      record {
        active' = more.active';
        ns = more.ns ++ one.ns;
        marking = rw e more.marking;
        moved = λ q m t. rw e (in_all q (Bool-cases (q == p)) m t one more);
        count = omega (arith, one.count, more.count, length-append more.ns one.ns);
        same_color = more.same_color ∙ one.same_color;
      }
    where
      in_all :
          (q : Ptr)
          → ((q == p) ≡ true) ⊎ ((q == p) ≡ false)
          → mem q (p ∷ ps) ≡ true
          → tagged q ≡ false
          → (one : Moves R h active zs (p ∷ []) (maybe_move p h))
          → (more : Moves R
              (maybe_move p h)
              one.active'
              (one.ns ++ zs)
              ps
              (move_all ps (maybe_move p h)))
          → mem q (more.ns ++ (one.ns ++ zs)) ≡ true
      in_all q (inl e) m t one more = mem_right q more.ns (one.ns ++ zs) (one.moved q (rw e) t)
      in_all q (inr e) m t one more = more.moved q (rw e at m) t

-- Every field of `bs` is tagged or in `zs`.
abbrev pub FieldsIn : (Ptr → List Ptr) → List Ptr → List Ptr → Type 0
FieldsIn kids bs zs =
    (b c : Ptr) → mem b bs ≡ true → mem c (kids b) ≡ true → tagged c ≡ false → mem c zs ≡ true

-- The end of a scan: the old list has grown and is closed under the fields of its objects.
pub record Scanned (R : Ptr → Type 0) (kids : Ptr → List Ptr) (h : Heap) (active zs : List Ptr)
    (h' : Heap) : Type 0 where
  pub active' : List Ptr
  pub zs' : List Ptr
  pub marking : Marking R h' active' zs'
  pub closed : FieldsIn kids zs' zs'
  pub kept : (a : Ptr) → mem a zs ≡ true → mem a zs' ≡ true
  pub count : length active' + length zs' ≡ length active + length zs
  pub shorter : length active' ≤ length active
  pub same_color : h'.current_color ≡ h.current_color

length-rev_onto : (q bs : List Ptr) → length (rev_onto q bs) ≡ length q + length bs
length-rev_onto [] bs = omega arith
length-rev_onto (x ∷ q) bs = omega (arith, length-rev_onto q (x ∷ bs))

-- A pointer to an object: not NULL and not a small fixnum.
pub record IsObject (p : Ptr) : Type 0 where
  pub not_null : (p == null) ≡ false
  pub plain : tagged p ≡ false

module _ {R : Ptr → Type 0} (kids : Ptr → List Ptr) (closed : IsClosed kids R) where
  scan-Scanned :
      (fuel : ℕ) (q bs : List Ptr) (h : Heap) (active : List Ptr)
      → Marking R h active (rev_onto q bs)
      → FieldsIn kids bs (rev_onto q bs)
      → length active + length q < fuel
      → Scanned R kids h active (rev_onto q bs) (scan fuel kids (first_or null q) h)
  unfolding scan
  scan-Scanned zero q bs h active w f enough = absurd (omega arith)
  scan-Scanned (suc fuel) [] bs h active w f enough = record {
    active' = active;
    zs' = bs;
    marking = w;
    closed = f;
    kept = λ a m. m;
    count = refl;
    shorter = omega arith;
    same_color = refl;
  }
  scan-Scanned (suc fuel) (x ∷ q) bs h active w f enough =
      let zs = rev_onto q (x ∷ bs) in
      let here : mem x zs ≡ true = mem-rev_onto x q (x ∷ bs) (mem_self x bs) in
      let rx = w.sound x here in
      let moves = move_all-Moves (kids x) h active zs w (λ p m t. closed.step x p rx m t) in
      let h' = move_all (kids x) h in
      let (q', e, l) = longer_queue moves.ns q (x ∷ bs) in
      let w' : Marking R h' moves.active' (rev_onto q' (x ∷ bs)) = rw e moves.marking in
      let rest =
        scan-Scanned fuel q' (x ∷ bs) h' moves.active' w'
          (λ b c m. fields_in moves q' e b c (Bool-cases (b == x)) m)
          (omega (arith, moves.count, l)) in
      rw
        (
          not_null w,
          closed.plain x rx,
          prev_in_queue h'.next h'.prev q' x bs w'.lists.old_list.chain,
        )
        (record {
          active' = rest.active';
          zs' = rest.zs';
          marking = rest.marking;
          closed = rest.closed;
          kept = λ a m. rest.kept a (rw e (mem_right a moves.ns zs m));
          count = omega (
            arith,
            rest.count,
            moves.count,
            ap length e,
            length-append moves.ns zs,
            length-rev_onto q (x ∷ bs),
          );
          shorter = omega (arith, rest.shorter, moves.count);
          same_color = rest.same_color ∙ moves.same_color;
        })
    where
      not_null : Marking R h active (rev_onto q (x ∷ bs)) → (x == null) ≡ false
      not_null v =
          let (_, c) = Chain_suffix h.next h.prev null q (x ∷ bs) v.lists.old_list.chain in c.2

      fields_in :
          (moves : Moves R h active (rev_onto q (x ∷ bs)) (kids x) (move_all (kids x) h))
          → (q' : List Ptr) → rev_onto q' (x ∷ bs) ≡ moves.ns ++ rev_onto q (x ∷ bs)
          → (b c : Ptr) → ((b == x) ≡ true) ⊎ ((b == x) ≡ false)
          → mem b (x ∷ bs) ≡ true
          → mem c (kids b) ≡ true
          → tagged c ≡ false
          → mem c (rev_onto q' (x ∷ bs)) ≡ true
      fields_in moves q' e b c (inl s) m k t =
          rw e (moves.moved c (let s' = ==→eq b x s in rw s' at k) t)
      fields_in moves q' e b c (inr s) m k t =
          rw e (mem_right c moves.ns (rev_onto q (x ∷ bs)) (f b c (rw s at m) k t))

  -- What move_reachable adds for one root.
  pub move_reachable-Scanned :
      (fuel : ℕ) (root : Ptr) (h : Heap) (active zs : List Ptr)
      → Marking R h active zs
      → FieldsIn kids zs zs
      → (IsObject root → R root)
      → length active < fuel
      → (s : Scanned R kids h active zs (move_reachable fuel kids root h)) × (IsObject root
          → mem root s.zs' ≡ true)
  unfolding move_reachable
  move_reachable-Scanned fuel root h active zs w f r enough = elim (Bool-cases (root == null)) [
    | inl n ↦ rw n (same, λ o. absurd (true-false (sym n ∙ o.not_null)))
    | inr n ↦ rw n (elim (Bool-cases (tagged root)) [
      | inl t ↦ rw t (same, λ o. absurd (true-false (sym t ∙ o.plain)))
      | inr t ↦ rw t (elim (Bool-cases (h.color root == h.current_color)) [
        | inl c ↦
            rw c (same, λ _. ground (arith, w.white root (r (record { not_null = n; plain = t }))))
        | inr c ↦ rw c (fresh c (r (record { not_null = n; plain = t })))
      ])
    ])
  ]
    where
      same : Scanned R kids h active zs h
      same = record {
        active' = active;
        zs' = zs;
        marking = w;
        closed = f;
        kept = λ a m. m;
        count = refl;
        shorter = omega arith;
        same_color = refl;
      }

      moved : Heap
      moved = move_object_to_head root (record h { color = update h.color root h.current_color })

      fresh :
          (h.color root == h.current_color) ≡ false
          → R root
          → (s : Scanned R kids h active zs (scan fuel kids moved.old.head moved)) × (IsObject root
              → mem root s.zs' ≡ true)
      fresh c rr =
          let inside : mem root active ≡ true = ground (arith, w.whole root rr, w.black root) in
          let (xs, ys, e) = mem_split root active inside in
          let w' = take_root root h xs ys zs (rw e at w) rr in
          let s =
            scan-Scanned fuel (root ∷ []) zs moved (xs ++ ys) w'
              (λ b c m k u. ground (arith, f b c m k u))
              (omega (arith, ap length e, length_middle root xs ys)) in
          rw (w'.lists.old_list.head) (
            record {
              active' = s.active';
              zs' = s.zs';
              marking = s.marking;
              closed = s.closed;
              kept = λ a m. s.kept a (ground arith);
              count = omega (arith, s.count, ap length e, length_middle root xs ys);
              shorter = omega (arith, s.shorter, ap length e, length_middle root xs ys);
              same_color =
                  s.same_color
                  ∙ (move_colors (record h { color = update h.color root h.current_color }) root).1;
            },
            λ _. s.kept root (mem_self root zs),
          )
