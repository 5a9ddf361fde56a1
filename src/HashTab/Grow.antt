-- ===== src/HashTab/Grow.antt =====
-- htb_grow of hashtab.c: the walk over the old table ends, and the new table is the same map.
use brianscheme.Base.{
  ℕ, zero, suc, ◌<◌, ◌≡◌, refl, ◌∙◌, sym, ◌⊎◌, inl, inr, true, false, some, List, [], ◌∷◌, arith,
  ◌==◌, if◌then◌else◌, length, length-append, Bool-cases, ==→eq, ==-self,
}
use brianscheme.HashTab.{
  Bucket, HashTab, Iter, find_node, htb_search, htb_init, htb_insert, htb_iter_inc, htb_iter_init,
  grow_loop, htb_grow,
}
use brianscheme.HashTab.Buckets.{IsDistinct, NoNull}
use brianscheme.HashTab.Count.{has_key, nodes}
use brianscheme.HashTab.Table.{IsTable, search-insert, insert-IsTable, htb_init-IsTable}
use brianscheme.HashTab.Iterate.{
  IsAt, pending, flatten, htb_iter_init-pending, htb_iter_inc-pending, key_of_done,
}
use brianscheme.HashTab.Flatten.{IsDistinct-flatten, NoNull-flatten, find-flatten, has-Absent}

abbrev pub insert_all : Bucket → HashTab → HashTab
insert_all [] t = t
insert_all ((k, v) ∷ b) t = insert_all b (htb_insert t k v).0

pub length-flatten : (bs : List Bucket) → length (flatten bs) ≡ nodes bs
length-flatten [] = refl
length-flatten (b ∷ bs) = length-append b (flatten bs) ∙ rw (length-flatten bs)

grow_loop-insert_all :
    (past : Bucket) {old : HashTab}
    → length old.arr ≡ old.size
    → (fuel : ℕ) (ii : Iter) (b : Bucket) (new : HashTab) → IsAt old ii
    → pending old ii ≡ b
    → NoNull b
    → length b < fuel
    → grow_loop fuel past old ii new ≡ some (insert_all b new)
unfolding grow_loop
grow_loop-insert_all past slots zero ii b new at p nn h = absurd (omega arith)
grow_loop-insert_all past {old} slots (suc fuel) ii [] new at p nn h = rw (key_of_done old ii at p)
grow_loop-insert_all past {old} slots (suc fuel) ii ((k, v) ∷ b) new at p nn h =
    let (key, value, next, rest) = htb_iter_inc-pending past slots ii k v b at p in
    rw (key, value, nn.0)
      (grow_loop-insert_all past slots fuel (htb_iter_inc past old ii) b _ next rest nn.1
        (omega arith))

insert_all-IsTable : (b : Bucket) {t : HashTab} → IsTable t → NoNull b → IsTable (insert_all b t)
insert_all-IsTable [] w nn = w
insert_all-IsTable ((k, v) ∷ b) w nn = insert_all-IsTable b (insert-IsTable w k v nn.0) nn.1

search-insert_all :
    (b : Bucket) {t : HashTab} (j : ℕ)
    → IsTable t
    → NoNull b
    → IsDistinct b
    → htb_search (insert_all b t) j ≡ (if has_key b j then find_node b j else htb_search t j)
unfolding find_node
search-insert_all [] j w nn d = refl
search-insert_all ((k, v) ∷ b) {t} j w nn d =
    search-insert_all b j (insert-IsTable w k v nn.0) nn.1 d.1 ∙ elim (Bool-cases (k == j)) [
      | inl e ↦
          let q = ==→eq k j e in rw (search-insert w k v j, e, ← q, has-Absent b k d.0, ==-self k)
      | inr e ↦ ground (arith, search-insert w k v j)
    ]

insert_all-size : (b : Bucket) (t : HashTab) → (insert_all b t).size ≡ t.size
unfolding htb_insert
insert_all-size [] t = refl
insert_all-size ((k, v) ∷ b) t = insert_all-size b (htb_insert t k v).0

find_of_not : (b : Bucket) (j : ℕ) → has_key b j ≡ false → find_node b j ≡ 0
unfolding find_node
find_of_not [] j h = refl
find_of_not ((k, v) ∷ b) j h = ground (arith, find_of_not b j)

-- With more fuel than the old table has nodes, htb_grow returns a table of the new size that is
-- well formed and in which every key has the value that it had.
pub htb_grow_lem :
    (fuel : ℕ) (past : Bucket) (t : HashTab) (size : ℕ)
    → IsTable t
    → 0 < size
    → nodes t.arr < fuel
    → (new : HashTab) × (htb_grow fuel past t size ≡ some new)
      × (new.size ≡ size)
      × IsTable new
      × ((j : ℕ) → htb_search new j ≡ htb_search t j)
unfolding htb_grow htb_init
htb_grow_lem fuel past t size w pos h =
    let all = flatten t.arr in
    let (at, p) = htb_iter_init-pending past w.slots in
    let (fresh, empty) = htb_init-IsTable size (some t.hash_func) pos in
    (
      insert_all all (htb_init size (some t.hash_func)),
      grow_loop-insert_all past w.slots fuel (htb_iter_init past t) all _ at p (NoNull-flatten w)
          (omega (arith, length-flatten t.arr)),
      insert_all-size all (htb_init size (some t.hash_func)),
      insert_all-IsTable all fresh (NoNull-flatten w),
      λ j.
          search-insert_all all j fresh (NoNull-flatten w) (IsDistinct-flatten w)
          ∙ kept j (empty j) (Bool-cases (has_key all j)),
    )
  where
    kept :
        (j : ℕ)
        → htb_search (htb_init size (some t.hash_func)) j ≡ 0
        → (has_key (flatten t.arr) j ≡ true) ⊎ (has_key (flatten t.arr) j ≡ false)
        → (if has_key (flatten t.arr) j
            then find_node (flatten t.arr) j
            else htb_search (htb_init size (some t.hash_func)) j)
          ≡ htb_search t j
    kept j none_yet (inl e) = rw e (find-flatten w j)
    kept j none_yet (inr e) =
        rw (e, none_yet) (sym (find_of_not (flatten t.arr) j e) ∙ find-flatten w j)
