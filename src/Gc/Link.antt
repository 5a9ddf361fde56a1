-- ===== src/Gc/Link.antt =====
-- The second half of move_object_to_head of gc.c: a list with an object put in front.
use brianscheme.Base.{
  ◌+◌, ◌≡◌, refl, inl, inr, true, false, List, [], ◌∷◌, arith, ◌==◌, if◌then◌else◌, ==→eq,
  Bool-cases,
}
use brianscheme.Base.Members.{mem, Nodup}
use brianscheme.Object.{Ptr, null}
use brianscheme.Gc.{ObjectList, Heap, link}
use brianscheme.Gc.Chain.{first_or, Chain-frame, IsList}

module _ (a : Ptr) (h : Heap) where
  link_next :
      (b : Ptr)
      → (link a h).next b
        ≡ (if b == a then (if h.old.head == null then null else h.old.head) else h.next b)
  unfolding link
  link_next b = elim (Bool-cases (h.old.head == null)) [ inl e ↦ rw e | inr e ↦ rw e ]

  link_prev :
      (b : Ptr)
      → (link a h).prev b ≡ (
          if h.old.head == null
          then (if b == a then null else h.prev b)
          else if b == h.old.head
          then a
          else if b == a
          then null
          else h.prev b)
  unfolding link
  link_prev b = elim (Bool-cases (h.old.head == null)) [ inl e ↦ rw e | inr e ↦ rw e ]

  pub link_rest :
      ((link a h).active ≡ h.active)
      × ((link a h).color ≡ h.color)
      × ((link a h).current_color ≡ h.current_color)
      × ((link a h).old.head ≡ a)
      × ((link a h).old.num_objects ≡ h.old.num_objects + 1)
      × ((link a h).old.tail ≡ (if h.old.head == null then a else h.old.tail))
  unfolding link
  link_rest = elim (Bool-cases (h.old.head == null)) [
    | inl e ↦ rw e (refl, refl, refl, refl, refl, refl)
    | inr e ↦ rw e (refl, refl, refl, refl, refl, refl)
  ]

-- The lists after `a` is put in front of the old one.
module _ (h : Heap) (a : Ptr) (nn : (a == null) ≡ false) where
  pub link-IsList :
      (os : List Ptr)
      → IsList h.next h.prev h.old os
      → mem a os ≡ false
      → Nodup os
      → IsList (link a h).next (link a h).prev (link a h).old (a ∷ os)
  link-IsList [] l out d =
      let (_, _, _, head, count, tail) = link_rest a h in
      record {
        head = head;
        tail = ground (arith, tail, l.head);
        count = omega (arith, count, l.count);
        chain = (
          ground (arith, link_prev a h a, l.head),
          ground (arith, link_next a h a, l.head),
          nn,
          tt,
        );
      }
  link-IsList (o ∷ os) l out d =
      let (_, _, _, head, count, tail) = link_rest a h in
      let (op, on, onn, rest) = l.chain in
      record {
        head = head;
        tail = ground (arith, tail, l.head, l.tail);
        count = omega (arith, count, l.count);
        chain = (
          ground (arith, link_prev a h a, l.head),
          ground (arith, link_next a h a, l.head),
          nn,
          (
            ground (arith, link_prev a h o, l.head),
            ground (arith, link_next a h o, l.head, ==→eq o a),
            onn,
            Chain-frame o os rest (λ b m. (
              ground (arith, link_next a h b, ==→eq b a),
              ground (arith, link_prev a h b, l.head, ==→eq b a, ==→eq b o),
            )),
          ),
        );
      }

  pub link-frame :
      (l : ObjectList) (xs os : List Ptr)
      → IsList h.next h.prev h.old os
      → IsList h.next h.prev l xs
      → mem a xs ≡ false
      → ((b : Ptr) → mem b xs ≡ true → mem b os ≡ false)
      → IsList (link a h).next (link a h).prev l xs
  link-frame l xs os ol xl out apart = record {
    head = xl.head;
    tail = xl.tail;
    count = xl.count;
    chain =
        Chain-frame null xs xl.chain
          (λ b m. (ground (arith, link_next a h b, ==→eq b a), not_old os ol.head b m (apart b m)));
  }
    where
      not_old :
          (zs : List Ptr)
          → h.old.head ≡ first_or null zs
          → (b : Ptr) → mem b xs ≡ true
          → mem b zs ≡ false
          → (link a h).prev b ≡ h.prev b
      not_old [] e b m o = ground (arith, link_prev a h b, ==→eq b a)
      not_old (z ∷ zs) e b m o = ground (arith, link_prev a h b, ==→eq b a, ==→eq b z)
