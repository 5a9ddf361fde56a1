-- ===== src/Gc/Unlink.antt =====
-- The first half of move_object_to_head of gc.c: what is left of a list when an object is taken out.
use brianscheme.Base.{
  ℕ, ◌-◌, ◌≡◌, refl, ◌∙◌, ap, inl, inr, true, false, List, [], ◌∷◌, ◌++◌, arith, ◌==◌,
  if◌then◌else◌, ==→eq, ==-comm, Bool-cases, append-nil,
}
use brianscheme.Base.Members.{mem, Nodup, mem-append, mem_middle, length_middle}
use brianscheme.Object.{Ptr, null}
use brianscheme.Gc.{ObjectList, Heap, unlink_before, unlink_behind, unlink}
use brianscheme.Gc.Chain.{
  first_or, last_or, Chain, Chain-frame, last_or-mem, last_or-append, Chain_middle, Chain-null,
  Chain-unlink, IsList,
}

module _ (a : Ptr) (h : Heap) where
  before_next :
      (b : Ptr)
      → (unlink_before a h).next b
        ≡ (if h.prev a == null then h.next b else if b == h.prev a then h.next a else h.next b)
  unfolding unlink_before
  before_next b = elim (Bool-cases (h.prev a == null)) [ inl e ↦ rw e | inr e ↦ rw e ]

  before_self : (unlink_before a h).next a ≡ h.next a
  before_self = ground (arith, before_next a)

  before_rest :
      ((unlink_before a h).prev ≡ h.prev)
      × ((unlink_before a h).old ≡ h.old)
      × ((unlink_before a h).color ≡ h.color)
      × ((unlink_before a h).current_color ≡ h.current_color)
      × ((unlink_before a h).active.tail ≡ h.active.tail)
      × ((unlink_before a h).active.num_objects ≡ h.active.num_objects)
      × ((unlink_before a h).active.head ≡ (if h.prev a == null then h.next a else h.active.head))
  unfolding unlink_before
  before_rest = elim (Bool-cases (h.prev a == null)) [
    | inl e ↦ rw e (refl, refl, refl, refl, refl, refl, refl)
    | inr e ↦ rw e (refl, refl, refl, refl, refl, refl, refl)
  ]

  behind_prev :
      (b : Ptr)
      → (unlink_behind a h).prev b
        ≡ (if h.next a == null then h.prev b else if b == h.next a then h.prev a else h.prev b)
  unfolding unlink_behind
  behind_prev b = elim (Bool-cases (h.next a == null)) [ inl e ↦ rw e | inr e ↦ rw e ]

  behind_rest :
      ((unlink_behind a h).next ≡ h.next)
      × ((unlink_behind a h).old ≡ h.old)
      × ((unlink_behind a h).color ≡ h.color)
      × ((unlink_behind a h).current_color ≡ h.current_color)
      × ((unlink_behind a h).active.head ≡ h.active.head)
      × ((unlink_behind a h).active.num_objects ≡ h.active.num_objects)
      × ((unlink_behind a h).active.tail ≡ (if h.next a == null then h.prev a else h.active.tail))
  unfolding unlink_behind
  behind_rest = elim (Bool-cases (h.next a == null)) [
    | inl e ↦ rw e (refl, refl, refl, refl, refl, refl, refl)
    | inr e ↦ rw e (refl, refl, refl, refl, refl, refl, refl)
  ]

module _ (a : Ptr) (h : Heap) where
  unlink_next :
      (b : Ptr)
      → (unlink a h).next b
        ≡ (if h.prev a == null then h.next b else if b == h.prev a then h.next a else h.next b)
  unfolding unlink
  unlink_next b = rw ((behind_rest a (unlink_before a h)).0) (before_next a h b)

  unlink_prev :
      (b : Ptr)
      → (unlink a h).prev b
        ≡ (if h.next a == null then h.prev b else if b == h.next a then h.prev a else h.prev b)
  unfolding unlink
  unlink_prev b = rw (behind_prev a (unlink_before a h) b, before_self a h, (before_rest a h).0)

  pub unlink_rest :
      ((unlink a h).old ≡ h.old)
      × ((unlink a h).color ≡ h.color)
      × ((unlink a h).current_color ≡ h.current_color)
      × ((unlink a h).active.num_objects ≡ h.active.num_objects - 1)
      × ((unlink a h).active.head ≡ (if h.prev a == null then h.next a else h.active.head))
      × ((unlink a h).active.tail ≡ (if h.next a == null then h.prev a else h.active.tail))
  unfolding unlink
  unlink_rest =
      let p = before_rest a h in
      let q = behind_rest a (unlink_before a h) in
      (
        q.1 ∙ p.1,
        q.2 ∙ p.2,
        q.3 ∙ p.3,
        ap (λ (n : ℕ). n - 1) (q.5 ∙ p.5),
        q.4 ∙ p.6,
        q.6 ∙ rw (before_self a h, p.0, p.4),
      )

last_or-null :
    (n m : Ptr → Ptr) (p x : Ptr) (xs ys : List Ptr)
    → Chain n m p (x ∷ (xs ++ ys))
    → (last_or x xs == null) ≡ false
last_or-null n m p x [] ys c = c.2
last_or-null n m p x (y ∷ xs) ys c = last_or-null n m x y xs ys c.3

-- What is left of the active list when `a` is unlinked.
module _ (h : Heap) (a : Ptr) (xs ys : List Ptr) where
  pub unlink-IsList :
      IsList h.next h.prev h.active (xs ++ a ∷ ys)
      → Nodup (xs ++ a ∷ ys)
      → IsList (unlink a h).next (unlink a h).prev (unlink a h).active (xs ++ ys)
  unlink-IsList l d =
      let (before, behind, nn, rest) = Chain_middle h.next h.prev null xs a ys l.chain in
      let (_, _, _, count, head, tail) = unlink_rest a h in
      record {
        head = head ∙ rw (before, behind) (head_of xs l.head l.chain);
        tail = tail ∙ rw (before, behind) (tail_of ys l.tail rest);
        count = count ∙ omega (arith, l.count, length_middle a xs ys);
        chain =
            Chain-unlink h.next h.prev (unlink a h).next (unlink a h).prev null xs a ys l.chain d
              (Chain-null h.next h.prev null (xs ++ a ∷ ys) l.chain)
              (λ b m. ground (arith, unlink_next a h b, ==→eq b null, not_null b m))
              (λ b m. ground (arith, unlink_prev a h b, ==→eq b null, not_null b m));
      }
    where
      not_null : (b : Ptr) → mem b (xs ++ ys) ≡ true → (b == null) ≡ false
      not_null b m = ground (
        arith,
        ==→eq b null,
        Chain-null h.next h.prev null (xs ++ a ∷ ys) l.chain,
        mem_middle null a xs ys,
      )

      head_of :
          (zs : List Ptr)
          → h.active.head ≡ first_or null (zs ++ a ∷ ys)
          → Chain h.next h.prev null (zs ++ a ∷ ys)
          → (if last_or null zs == null then first_or null ys else h.active.head)
            ≡ first_or null (zs ++ ys)
      head_of [] e c = refl
      head_of (z ∷ zs) e c = rw (last_or-null h.next h.prev null z zs (a ∷ ys) c) e

      tail_of :
          (zs : List Ptr)
          → h.active.tail ≡ last_or null (xs ++ a ∷ zs)
          → Chain h.next h.prev a zs
          → (if first_or null zs == null then last_or null xs else h.active.tail)
            ≡ last_or null (xs ++ zs)
      tail_of [] e c = rw (append-nil xs)
      tail_of (z ∷ zs) e c =
          rw (c.2, last_or-append null xs z zs) (e ∙ last_or-append null xs a (z ∷ zs))

  -- A list that shares no object with the active one keeps its pointers.
  pub unlink-frame :
      (l : ObjectList) (os : List Ptr)
      → IsList h.next h.prev h.active (xs ++ a ∷ ys)
      → IsList h.next h.prev l os
      → ((b : Ptr) → mem b os ≡ true → mem b (xs ++ a ∷ ys) ≡ false)
      → IsList (unlink a h).next (unlink a h).prev l os
  unlink-frame l os al ol apart =
      let (before, behind, nn, rest) = Chain_middle h.next h.prev null xs a ys al.chain in
      record {
        head = ol.head;
        tail = ol.tail;
        count = ol.count;
        chain = Chain-frame null os ol.chain (λ b m. (
          rw (unlink_next a h b, before) (no_last b xs m (apart b m)),
          rw (unlink_prev a h b, behind) (no_first b ys m (apart b m)),
        ));
      }
    where
      no_last :
          (b : Ptr) (zs : List Ptr)
          → mem b os ≡ true
          → mem b (zs ++ a ∷ ys) ≡ false
          → (if last_or null zs == null
              then h.next b
              else if b == last_or null zs
              then h.next a
              else h.next b)
            ≡ h.next b
      no_last b [] m o = refl
      no_last b (z ∷ zs) m o =
          ground
            (arith, last_or-mem z zs b, mem-append b (z ∷ zs) (a ∷ ys), ==-comm b (last_or z zs))

      no_first :
          (b : Ptr) (zs : List Ptr)
          → mem b os ≡ true
          → mem b (xs ++ a ∷ zs) ≡ false
          → (if first_or null zs == null
              then h.prev b
              else if b == first_or null zs
              then h.prev a
              else h.prev b)
            ≡ h.prev b
      no_first b [] m o = refl
      no_first b (z ∷ zs) m o = ground (arith, mem-append b xs (a ∷ z ∷ zs))
