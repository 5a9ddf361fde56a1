-- ===== src/Gc/Fields.antt =====
-- The switch of move_reachable in gc.c hands over everything that an object holds: for a hash
-- table the walk of its iterator meets every key and every value.
use brianscheme.Base.{
  ℕ, zero, suc, ◌+◌, ◌<◌, ◌≡◌, ◌⊎◌, inl, inr, true, false, List, [], ◌∷◌, arith, ◌==◌, length,
  Bool-cases, ==→eq, ==-self, ==-comm,
}
use brianscheme.Base.Members.{mem}
use brianscheme.HashTab.{Bucket, HashTab, Iter, find_node, htb_search, htb_iter_inc, htb_iter_init}
use brianscheme.HashTab.Buckets.{IsDistinct, NoNull}
use brianscheme.HashTab.Count.{has_key, nodes}
use brianscheme.HashTab.Table.{IsTable}
use brianscheme.HashTab.Iterate.{
  IsAt, pending, flatten, htb_iter_init-pending, htb_iter_inc-pending, key_of_done,
}
use brianscheme.HashTab.Flatten.{IsDistinct-flatten, NoNull-flatten, find-flatten, has-Absent}
use brianscheme.HashTab.Grow.{length-flatten}
use brianscheme.Object.{
  Ptr, Data, pair, compound_proc, syntax_proc, compiled_syntax_proc, vector, compiled_proc,
  hash_table, meta_proc,
}
use brianscheme.Gc.{table_fields, fields}

-- The members of an object's union that point at Scheme objects; a table holds the keys of its
-- nodes and what a search gives for them.
abbrev pub Holds : Data → Ptr → Type 0
Holds (pair car cdr) q = (q ≡ car) ⊎ (q ≡ cdr)
Holds (compound_proc parms_and_env body) q = (q ≡ parms_and_env) ⊎ (q ≡ body)
Holds (syntax_proc parms_and_env body) q = (q ≡ parms_and_env) ⊎ (q ≡ body)
Holds (compiled_proc bytecode env) q = (q ≡ bytecode) ⊎ (q ≡ env)
Holds (compiled_syntax_proc bytecode env) q = (q ≡ bytecode) ⊎ (q ≡ env)
Holds (meta_proc proc data') q = (q ≡ proc) ⊎ (q ≡ data')
Holds (vector objects) q = mem q objects ≡ true
Holds (hash_table t) q =
    (k : Ptr) × (has_key (flatten t.arr) k ≡ true) × ((q ≡ k) ⊎ (q ≡ htb_search t k))
Holds _ q = ⊥

-- A hash table among the objects is well formed.
abbrev pub IsSound : Data → Type 0
IsSound (hash_table t) = IsTable t
IsSound _ = Unit

abbrev both : Bucket → List Ptr
both [] = []
both ((k, v) ∷ b) = k ∷ v ∷ both b

table_fields-both :
    (past : Bucket) {t : HashTab}
    → length t.arr ≡ t.size
    → (fuel : ℕ) (ii : Iter) (b : Bucket) → IsAt t ii
    → pending t ii ≡ b
    → NoNull b
    → length b < fuel
    → table_fields fuel past t ii ≡ both b
unfolding table_fields
table_fields-both past slots zero ii b at p nn h = absurd (omega arith)
table_fields-both past {t} slots (suc fuel) ii [] at p nn h = rw (key_of_done t ii at p)
table_fields-both past {t} slots (suc fuel) ii ((k, v) ∷ b) at p nn h =
    let (key, value, next, rest) = htb_iter_inc-pending past slots ii k v b at p in
    rw (
      key,
      value,
      nn.0,
      table_fields-both past slots fuel (htb_iter_inc past t ii) b next rest nn.1 (omega arith),
    )

abbrev InNode : Bucket → Ptr → Type 0
InNode b q = (k : Ptr) × (has_key b k ≡ true) × ((q ≡ k) ⊎ (q ≡ find_node b k))

InNode-both : (b : Bucket) (q : Ptr) → InNode b q → mem q (both b) ≡ true
unfolding find_node
InNode-both [] q (k, h, e) = cc
InNode-both ((j, v) ∷ b) q (k, h, e) = elim (Bool-cases (j == k)) [
  | inl f ↦ elim e [ inl u ↦ ground (arith, ==→eq j k) | inr u ↦ ground (arith, ==→eq j k) ]
  | inr f ↦ elim e [
    | inl u ↦ ground (arith, InNode-both b q (k, (ground arith), inl u))
    | inr u ↦ ground (arith, InNode-both b q (k, (ground arith), inr (ground arith)))
  ]
]

key_apart : (b : Bucket) (j k : ℕ) → has_key b j ≡ false → has_key b k ≡ true → (j == k) ≡ false
key_apart b j k out h = elim (Bool-cases (j == k)) [
  | inl e ↦ let out' = rw (==→eq j k e) at out in cc
  | inr e ↦ e
]

both-InNode : (b : Bucket) (q : Ptr) → IsDistinct b → mem q (both b) ≡ true → InNode b q
unfolding find_node
both-InNode [] q d m = cc
both-InNode ((j, v) ∷ b) q d m = elim (Bool-cases (q == j)) [
  | inl e ↦ (j, rw (==-self j), inl (==→eq q j e))
  | inr e ↦ elim (Bool-cases (q == v)) [
    | inl f ↦ (j, rw (==-self j), inr (rw (==-self j) (==→eq q v f)))
    | inr f ↦
        let (k, h, w) = both-InNode b q d.1 (ground arith) in
        let ne = key_apart b j k (has-Absent b j d.0) h in (k, rw ne h, rw (==-comm k j, ne) w)
  ]
]

module _ (past : Bucket) {t : HashTab} (w : IsTable t) where
  table_fields-flatten :
      table_fields (nodes t.arr + 1) past t (htb_iter_init past t) ≡ both (flatten t.arr)
  table_fields-flatten =
      let (at, p) = htb_iter_init-pending past w.slots in
      table_fields-both past w.slots (nodes t.arr + 1) (htb_iter_init past t) (flatten t.arr) at p
        (NoNull-flatten w) (omega (arith, length-flatten t.arr))

  table-Holds :
      (q : Ptr)
      → mem q (table_fields (nodes t.arr + 1) past t (htb_iter_init past t)) ≡ true
      → Holds (hash_table t) q
  table-Holds q m =
      let (k, h, e) =
        both-InNode (flatten t.arr) q (IsDistinct-flatten w) (rw table_fields-flatten at m) in
      (k, h, rw (find-flatten w k) at e)

  Holds-table :
      (q : Ptr)
      → Holds (hash_table t) q
      → mem q (table_fields (nodes t.arr + 1) past t (htb_iter_init past t)) ≡ true
  Holds-table q (k, h, e) =
      rw table_fields-flatten (InNode-both (flatten t.arr) q (k, h, rw (find-flatten w k) e))

two-Holds : (a b q : Ptr) → mem q (a ∷ b ∷ []) ≡ true → (q ≡ a) ⊎ (q ≡ b)
two-Holds a b q m = elim (Bool-cases (q == a)) [
  | inl e ↦ inl (==→eq q a e)
  | inr e ↦ inr (==→eq q b (ground arith))
]

Holds-two : (a b q : Ptr) → (q ≡ a) ⊎ (q ≡ b) → mem q (a ∷ b ∷ []) ≡ true
Holds-two a b q (inl e) = ground arith
Holds-two a b q (inr e) = ground arith

pub fields-Holds :
    (past : Bucket) (d : Data) (q : Ptr) → IsSound d → mem q (fields past d) ≡ true → Holds d q
unfolding fields
fields-Holds past (pair a b) q w m = two-Holds a b q m
fields-Holds past (compound_proc a b) q w m = two-Holds a b q m
fields-Holds past (syntax_proc a b) q w m = two-Holds a b q m
fields-Holds past (compiled_proc a b) q w m = two-Holds a b q m
fields-Holds past (compiled_syntax_proc a b) q w m = two-Holds a b q m
fields-Holds past (meta_proc a b) q w m = two-Holds a b q m
fields-Holds past (vector objects) q w m = m
fields-Holds past (hash_table t) q w m = table-Holds past w q m
fields-Holds past _ q w m = cc

pub Holds-fields :
    (past : Bucket) (d : Data) (q : Ptr) → IsSound d → Holds d q → mem q (fields past d) ≡ true
unfolding fields
Holds-fields past (pair a b) q w m = Holds-two a b q m
Holds-fields past (compound_proc a b) q w m = Holds-two a b q m
Holds-fields past (syntax_proc a b) q w m = Holds-two a b q m
Holds-fields past (compiled_proc a b) q w m = Holds-two a b q m
Holds-fields past (compiled_syntax_proc a b) q w m = Holds-two a b q m
Holds-fields past (meta_proc a b) q w m = Holds-two a b q m
Holds-fields past (vector objects) q w m = m
Holds-fields past (hash_table t) q w m = Holds-table past w q m
Holds-fields past _ q w m = elim m [ ]
