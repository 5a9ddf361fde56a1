-- ===== src/Gc/Chain.antt =====
-- The doubly linked lists of gc.c as lists of addresses.
use brianscheme.Base.{
  length, ◌≡◌, refl, ◌∙◌, true, false, List, [], ◌∷◌, ◌++◌, arith, ◌==◌, if◌then◌else◌, ==→eq,
  ==-self, ==-comm,
}
use brianscheme.Base.Members.{mem, Nodup, mem-append}
use brianscheme.Object.{Ptr, null}
use brianscheme.Gc.{ObjectList}

abbrev pub first_or : Ptr → List Ptr → Ptr
first_or d [] = d
first_or d (x ∷ xs) = x

abbrev pub last_or : Ptr → List Ptr → Ptr
last_or d [] = d
last_or d (x ∷ xs) = last_or x xs

-- `next` and `prev` run through the list, and `p` comes before it.
abbrev pub Chain : (next prev : Ptr → Ptr) → Ptr → List Ptr → Type 0
Chain next prev p [] = Unit
Chain next prev p (x ∷ xs) =
    (prev x ≡ p) × (next x ≡ first_or null xs) × ((x == null) ≡ false) × Chain next prev x xs

pub Chain-frame :
    {n m : Ptr → Ptr} {n' m' : Ptr → Ptr} (p : Ptr) (xs : List Ptr)
    → Chain n m p xs
    → ((a : Ptr) → mem a xs ≡ true → (n' a ≡ n a) × (m' a ≡ m a))
    → Chain n' m' p xs
Chain-frame p [] c same = tt
Chain-frame p (x ∷ xs) c same =
    let (e, f) = same x (rw (==-self x)) in
    (f ∙ c.0, e ∙ c.1, c.2, Chain-frame x xs c.3 (λ a h. same a (ground arith)))

pub last_or-mem :
    (d : Ptr) (xs : List Ptr) (a : Ptr) → mem a (d ∷ xs) ≡ false → (last_or d xs == a) ≡ false
last_or-mem d [] a h = ground (arith, ==-comm a d)
last_or-mem d (x ∷ xs) a h = last_or-mem x xs a (ground arith)

pub last_or-append :
    (d : Ptr) (xs : List Ptr) (a : Ptr) (ys : List Ptr) → last_or d (xs ++ a ∷ ys) ≡ last_or a ys
last_or-append d [] a ys = refl
last_or-append d (x ∷ xs) a ys = last_or-append x xs a ys

-- The neighbours of an element.
pub Chain_middle :
    (n m : Ptr → Ptr) (p : Ptr) (xs : List Ptr) (a : Ptr) (ys : List Ptr)
    → Chain n m p (xs ++ a ∷ ys)
    → (m a ≡ last_or p xs) × (n a ≡ first_or null ys) × ((a == null) ≡ false) × Chain n m a ys
Chain_middle n m p [] a ys c = c
Chain_middle n m p (x ∷ xs) a ys c = Chain_middle n m x xs a ys c.3

pub Chain-null : (n m : Ptr → Ptr) (p : Ptr) (xs : List Ptr) → Chain n m p xs → mem null xs ≡ false
Chain-null n m p [] c = refl
Chain-null n m p (x ∷ xs) c = rw (==-comm null x, c.2) (Chain-null n m x xs c.3)

ne_first :
    (u : Ptr) (xs : List Ptr) (a : Ptr) (ys : List Ptr)
    → mem u (xs ++ a ∷ ys) ≡ false
    → (u == null) ≡ false
    → (u == first_or null ys) ≡ false
ne_first u xs a [] out nn = nn
ne_first u xs a (y ∷ ys) out nn = ground (arith, mem-append u xs (a ∷ y ∷ ys))

-- Without `a`, when the pointers of its two neighbours lead round it.
pub Chain-unlink :
    (n m n' m' : Ptr → Ptr) (p : Ptr) (xs : List Ptr) (a : Ptr) (ys : List Ptr)
    → Chain n m p (xs ++ a ∷ ys)
    → Nodup (xs ++ a ∷ ys)
    → mem p (xs ++ a ∷ ys) ≡ false
    → ((b : Ptr)
        → mem b (xs ++ ys) ≡ true
        → n' b ≡ (if b == last_or p xs then first_or null ys else n b))
    → ((b : Ptr)
        → mem b (xs ++ ys) ≡ true
        → m' b ≡ (if b == first_or null ys then last_or p xs else m b))
    → Chain n' m' p (xs ++ ys)
Chain-unlink n m n' m' p [] a [] c d out hn hm = tt
Chain-unlink n m n' m' p [] a (y ∷ ys) c d out hn hm = (
  ground (arith, hm y),
  ground (arith, hn y, ==→eq p y),
  c.3.2,
  Chain-frame y ys c.3.3
      (λ b h. (ground (arith, hn b, ==→eq b p), ground (arith, hm b, ==→eq b y))),
)
Chain-unlink n m n' m' p (u ∷ xs) a ys c d out hn hm = (
  ground (arith, hm u, ne_first u xs a ys d.0 c.2),
  next_of xs (hn u (rw (==-self u))) c.1 d.0,
  c.2,
  Chain-unlink n m n' m' u xs a ys c.3 d.1 d.0 (λ b h. hn b (ground arith))
      (λ b h. hm b (ground arith)),
)
  where
    next_of :
        (zs : List Ptr)
        → n' u ≡ (if u == last_or u zs then first_or null ys else n u)
        → n u ≡ first_or null (zs ++ a ∷ ys)
        → mem u (zs ++ a ∷ ys) ≡ false
        → n' u ≡ first_or null (zs ++ ys)
    next_of [] h e o = ground arith
    next_of (z ∷ zs) h e o = ground (arith, last_or-mem z zs u, mem-append u (z ∷ zs) (a ∷ ys))

-- A list of the heap that holds the objects `xs`, head first.
pub record IsList (next prev : Ptr → Ptr) (l : ObjectList) (xs : List Ptr) : Type 0 where
  pub head : l.head ≡ first_or null xs
  pub tail : l.tail ≡ last_or null xs
  pub count : l.num_objects ≡ length xs
  pub chain : Chain next prev null xs
