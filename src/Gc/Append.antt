-- ===== src/Gc/Append.antt =====
-- append_to_tail of gc.c joins the two lists.
use brianscheme.Base.{
  ℕ, ◌≡◌, refl, ◌∙◌, sym, inl, inr, true, false, List, [], ◌∷◌, ◌++◌, arith, ◌==◌, if◌then◌else◌,
  ==→eq, ==-comm, Bool-cases, length-append, append-nil,
}
use brianscheme.Base.Members.{Nodup, mem-append, Apart}
use brianscheme.Object.{Ptr, null}
use brianscheme.Gc.{Heap, update, append_to_tail}
use brianscheme.Gc.Chain.{last_or, Chain, Chain-frame, last_or-mem, last_or-append}
use brianscheme.Gc.Move.{IsHeap}

pub Nodup-append : (xs ys : List ℕ) → Nodup xs → Nodup ys → Apart xs ys → Nodup (xs ++ ys)
Nodup-append [] ys hx hy a = hy
Nodup-append (x ∷ xs) ys hx hy a = (
  ground (arith, mem-append x xs ys, a x),
  Nodup-append xs ys hx.1 hy (λ b m. a b (ground arith)),
)

-- The join, when the pointers at the seam lead across it.
Chain-append :
    (n m n' m' : Ptr → Ptr) (p : Ptr) (x : Ptr) (xs : List Ptr) (y : Ptr) (ys : List Ptr)
    → Chain n m p (x ∷ xs)
    → Chain n m null (y ∷ ys)
    → Nodup (x ∷ xs)
    → Nodup (y ∷ ys)
    → Apart (x ∷ xs) (y ∷ ys)
    → ((b : Ptr) → n' b ≡ (if b == last_or x xs then y else n b))
    → ((b : Ptr) → m' b ≡ (if b == y then last_or x xs else m b))
    → Chain n' m' p ((x ∷ xs) ++ y ∷ ys)
Chain-append n m n' m' p x [] y ys c d dx dy a hn hm =
    let xy : (x == y) ≡ false = ground (arith, a x) in
    (
      ground (arith, hm x),
      ground (arith, hn x),
      c.2,
      (
        ground (arith, hm y),
        ground (arith, hn y, ==-comm x y),
        d.2,
        Chain-frame y ys d.3
            (λ b k. (ground (arith, hn b, a x, ==→eq b x), ground (arith, hm b, ==→eq b y))),
      ),
    )
Chain-append n m n' m' p x (u ∷ xs) y ys c d dx dy a hn hm = (
  ground (arith, hm x, a x),
  ground (arith, hn x, last_or-mem u xs x, ==-comm x (last_or u xs)),
  c.2,
  Chain-append n m n' m' x u xs y ys c.3 d dx.1 dy (λ b k. a b (ground arith)) hn hm,
)

last_or-null :
    (n m : Ptr → Ptr) (p x : Ptr) (xs : List Ptr)
    → Chain n m p (x ∷ xs)
    → (last_or x xs == null) ≡ false
last_or-null n m p x [] c = c.2
last_or-null n m p x (y ∷ xs) c = last_or-null n m x y xs c.3

-- append_to_tail puts the old list behind the active one and empties it.
pub append-IsHeap :
    (h : Heap) (active old : List Ptr)
    → IsHeap h active old
    → IsHeap (append_to_tail h) (active ++ old) []
unfolding append_to_tail update
append-IsHeap h [] old w = rw (w.active_list.tail) (record {
  active_list = record {
    head = w.old_list.head;
    tail = w.old_list.tail;
    count = omega (arith, w.old_list.count, w.active_list.count);
    chain = w.old_list.chain;
  };
  old_list = record { head = refl; tail = refl; count = refl; chain = tt };
  active_distinct = w.old_distinct;
  old_distinct = tt;
  apart = λ b m. refl;
})
append-IsHeap h (x ∷ xs) [] w =
    let live : (h.active.tail == null) ≡ false =
      rw (w.active_list.tail) (last_or-null h.next h.prev null x xs w.active_list.chain) in
    let none_old : (h.old.head == null) ≡ true = rw (w.old_list.head) refl in
    rw (live, none_old, append-nil xs) w
append-IsHeap h (x ∷ xs) (y ∷ ys) w =
    let live : (h.active.tail == null) ≡ false =
      rw (w.active_list.tail) (last_or-null h.next h.prev null x xs w.active_list.chain) in
    let some_old : (h.old.head == null) ≡ false = rw (w.old_list.head) (w.old_list.chain.2) in
    rw (live, some_old)
      (record {
        active_list = record {
          head = w.active_list.head;
          tail = w.old_list.tail ∙ sym (last_or-append null (x ∷ xs) y ys);
          count =
              omega (arith, w.active_list.count, w.old_list.count, length-append (x ∷ xs) (y ∷ ys));
          chain =
              Chain-append h.next h.prev _ _ null x xs y ys w.active_list.chain w.old_list.chain
                w.active_distinct w.old_distinct w.apart
                (λ b. rw (w.active_list.tail, w.old_list.head))
                (λ b. rw (w.active_list.tail, w.old_list.head));
        };
        old_list = record { head = refl; tail = refl; count = refl; chain = tt };
        active_distinct = Nodup-append (x ∷ xs) (y ∷ ys) w.active_distinct w.old_distinct w.apart;
        old_distinct = tt;
        apart = λ b m. refl;
      })

pub append_colors :
    (h : Heap)
    → ((append_to_tail h).color ≡ h.color) × ((append_to_tail h).current_color ≡ h.current_color)
unfolding append_to_tail
append_colors h = elim (Bool-cases (h.active.tail == null)) [
  | inl e ↦ rw e (refl, refl)
  | inr e ↦ elim (Bool-cases (h.old.head == null)) [
    | inl o ↦ rw (e, o) (refl, refl)
    | inr o ↦ rw (e, o) (refl, refl)
  ]
]
