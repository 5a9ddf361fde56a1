-- ===== src/Store/Lists.antt =====
-- types.c: the Scheme lists that a store holds, cons, list_to_vector and get_hashtab_keys.
use brianscheme.Base.{
  ℕ, zero, suc, ◌≤◌, ◌<◌, ◌≡◌, refl, ap, false, some, List, [], ◌∷◌, arith, ◌==◌, if◌then◌else◌,
  ==-self, length, uncons,
}
use brianscheme.Base.Members.{mem, Nodup}
use brianscheme.HashTab.{Bucket, HashTab, Iter, htb_iter_inc}
use brianscheme.HashTab.Buckets.{NoNull}
use brianscheme.HashTab.Count.{nodes}
use brianscheme.HashTab.Table.{IsTable}
use brianscheme.HashTab.Iterate.{
  IsAt, pending, flatten, htb_iter_init-pending, htb_iter_inc-pending, key_of_done,
}
use brianscheme.HashTab.Flatten.{NoNull-flatten}
use brianscheme.HashTab.Grow.{length-flatten}
use brianscheme.Object.{Ptr, Data, pair, vector}
use brianscheme.Store.{
  Store, both_of, write, alloc, car, cdr, cons, varray, htab, elements, list_to_vector, keys_loop,
  get_hashtab_keys,
}

-- The list at `p` has the elements `xs`, in cells that are not free.
abbrev pub IsListOf : Store → Ptr → List Ptr → Type 0
IsListOf s p [] = p ≡ s.empty_list
IsListOf s p (x ∷ xs) =
    (d : Ptr) × (mem p s.free ≡ false)
    × ((p == s.empty_list) ≡ false)
    × (both_of (s.object p) ≡ some (x, d))
    × IsListOf s d xs

-- The free objects are distinct, and the empty list is none of them.
pub record IsStore (s : Store) : Type 0 where
  pub distinct : Nodup s.free
  pub empty_kept : mem s.empty_list s.free ≡ false

abbrev pub allocated : Store → Ptr → List Ptr → Data → Store
allocated s q ps d = record s { object = λ p. if p == q then d else s.object p; free = ps }

pub alloc_at :
    (s : Store) (q : Ptr) (ps : List Ptr) (d : Data)
    → s.free ≡ q ∷ ps
    → alloc s d ≡ some (q, allocated s q ps d)
unfolding alloc write
alloc_at s q ps d e = rw e

pub alloc-IsListOf :
    (s : Store) (q : Ptr) (ps : List Ptr) (d : Data)
    → s.free ≡ q ∷ ps
    → (p : Ptr) (xs : List Ptr) → IsListOf s p xs
    → IsListOf (allocated s q ps d) p xs
alloc-IsListOf s q ps d e p [] l = l
alloc-IsListOf s q ps d e p (x ∷ xs) (next, out, ne, cell, rest) =
    let out' = rw e at out in
    (
      next,
      ground arith,
      ne,
      let apart : (p == q) ≡ false = ground arith in rw apart cell,
      alloc-IsListOf s q ps d e next xs rest,
    )

cons_at :
    (s : Store) (q : Ptr) (ps : List Ptr) (a d : Ptr) (xs : List Ptr)
    → s.free ≡ q ∷ ps
    → IsStore s
    → IsListOf s d xs
    → (cons s a d ≡ some (q, allocated s q ps (pair a d)))
      × IsStore (allocated s q ps (pair a d))
      × IsListOf (allocated s q ps (pair a d)) q (a ∷ xs)
unfolding cons
cons_at s q ps a d xs e w l =
    let distinct = rw e at w.distinct in
    let kept = rw e at w.empty_kept in
    (
      alloc_at s q ps (pair a d) e,
      record { distinct = distinct.1; empty_kept = ground arith },
      (d, distinct.0, ground arith, rw (==-self q), alloc-IsListOf s q ps (pair a d) e d xs l),
    )

elements-IsListOf :
    (fuel : ℕ) (s : Store) (p : Ptr) (xs : List Ptr)
    → IsListOf s p xs
    → length xs < fuel
    → elements fuel s p ≡ some xs
unfolding elements car cdr
elements-IsListOf zero s p xs l h = absurd (omega arith)
elements-IsListOf (suc fuel) s p [] l h = rw (l, ==-self s.empty_list)
elements-IsListOf (suc fuel) s p (x ∷ xs) (d, out, ne, cell, rest) h =
    rw (ne, cell, elements-IsListOf fuel s d xs rest (omega arith))

-- list_to_vector of a list of `xs`, one at least, with a free object and more fuel than elements,
-- gives a vector of `xs`.
pub list_to_vector_lem :
    (fuel : ℕ) (s : Store) (p x : Ptr) (xs : List Ptr)
    → IsListOf s p (x ∷ xs)
    → 0 < length s.free
    → length (x ∷ xs) < fuel
    → (q : Ptr) × (s' : Store) × (list_to_vector fuel s p ≡ some (q, s'))
      × (varray s' q ≡ some (x ∷ xs))
unfolding list_to_vector varray
list_to_vector_lem fuel s p x xs l room h =
    let (q, ps, e) = uncons s.free room in
    (
      q,
      allocated s q ps (vector (x ∷ xs)),
      rw (l.2, elements-IsListOf fuel s p (x ∷ xs) l h) (alloc_at s q ps (vector (x ∷ xs)) e),
      rw (==-self q),
    )

-- The keys of the nodes, the last first, in front of `xs`.
abbrev pub keys_onto : Bucket → List Ptr → List Ptr
keys_onto [] xs = xs
keys_onto ((k, v) ∷ b) xs = keys_onto b (k ∷ xs)

keys_loop_lem :
    (past : Bucket) {t : HashTab}
    → length t.arr ≡ t.size
    → (fuel : ℕ) (ii : Iter) (b : Bucket) (s : Store) (r : Ptr) (xs : List Ptr) → IsAt t ii
    → pending t ii ≡ b
    → NoNull b
    → IsStore s
    → IsListOf s r xs
    → length b ≤ length s.free
    → length b < fuel
    → (r' : Ptr) × (s' : Store) × (keys_loop fuel past t ii s r ≡ some (r', s'))
      × IsListOf s' r' (keys_onto b xs)
unfolding keys_loop
keys_loop_lem past slots zero ii b s r xs at p nn w l room h = absurd (omega arith)
keys_loop_lem past {t} slots (suc fuel) ii [] s r xs at p nn w l room h =
    (r, s, rw (key_of_done t ii at p), l)
keys_loop_lem past {t} slots (suc fuel) ii ((k, v) ∷ b) s r xs at p nn w l room h =
    let (key, _, next, rest) = htb_iter_inc-pending past slots ii k v b at p in
    let (q, ps, e) = uncons s.free (omega arith) in
    let (made, w', l') = cons_at s q ps k r xs e w l in
    let (r', s', run, done) =
      keys_loop_lem past slots fuel (htb_iter_inc past t ii) b (allocated s q ps (pair k r)) q
        (k ∷ xs) next rest nn.1 w' l'
        (let size = ap (λ (ys : List Ptr). length ys) e in omega arith) (omega arith) in
    (r', s', rw (key, nn.0, made) run, done)

-- get_hashtab_keys of a well-formed table, with a free object for each node and more fuel than
-- nodes, gives the list of the keys of all nodes, each as often as nodes have it.
pub get_hashtab_keys_lem :
    (fuel : ℕ) (past : Bucket) (s : Store) (table : Ptr) (t : HashTab)
    → htab s table ≡ some t
    → IsTable t
    → IsStore s
    → nodes t.arr ≤ length s.free
    → nodes t.arr < fuel
    → (r : Ptr) × (s' : Store) × (get_hashtab_keys fuel past s table ≡ some (r, s'))
      × IsListOf s' r (keys_onto (flatten t.arr) [])
unfolding get_hashtab_keys
get_hashtab_keys_lem fuel past s table t e w store room h =
    let (at, p) = htb_iter_init-pending {t = t} past w.slots in
    let (r, s', run, done) =
      keys_loop_lem past w.slots fuel _ (flatten t.arr) s s.empty_list [] at p (NoNull-flatten w)
        store refl (omega (arith, length-flatten t.arr)) (omega (arith, length-flatten t.arr)) in
    (r, s', rw e run, done)
