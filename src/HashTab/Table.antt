-- ===== src/HashTab/Table.antt =====
-- The whole table of hashtab.c as a finite map: its invariant, and what search sees after insert
-- and remove.
use brianscheme.Base.{
  ℕ, ◌<◌, ◌≡◌, ◌∙◌, inl, inr, false, Option, List, [], arith, ◌==◌, if◌then◌else◌, length, get_or,
  set, length-set, length-replicate, get_or-set, get_or-replicate, ==→eq, Bool-cases,
}
use brianscheme.HashTab.{
  Bucket, HashTab, chain, htb_hash, htb_init, htb_search, htb_insert, htb_remove,
}
use brianscheme.HashTab.Buckets.{
  IsDistinct, HashesTo, NoNull, find-insert_node, find-remove_node, IsDistinct-insert_node,
  IsDistinct-remove_node, HashesTo-insert_node, HashesTo-remove_node, NoNull-insert_node,
  NoNull-remove_node,
}

pub record IsTable (t : HashTab) : Type 0 where
  pub nonempty : 0 < t.size
  pub slots : length t.arr ≡ t.size
  pub placed : (i : ℕ) → HashesTo t.size i (chain t i)
  pub distinct : (i : ℕ) → IsDistinct (chain t i)
  pub no_null : (i : ℕ) → NoNull (chain t i)

pub htb_hash-lt : (key size : ℕ) → 0 < size → htb_hash key size < size
unfolding htb_hash
htb_hash-lt key size h = omega arith

pub in_range : {t : HashTab} → IsTable t → (key : ℕ) → htb_hash key t.size < length t.arr
in_range {t} w key = omega (arith, w.slots, w.nonempty, htb_hash-lt key t.size)

-- A property of chains that the new chain has survives the write of it.
pub chains-set {ℓ} :
    (P : ℕ → Bucket → Type ℓ) (arr : List Bucket) (i : ℕ) (b : Bucket)
    → i < length arr
    → P i b
    → ((j : ℕ) → P j (get_or arr j []))
    → (j : ℕ) → P j (get_or (set arr i b) j [])
chains-set P arr i b h new old j = rw (get_or-set arr i j b [] h) (elim (Bool-cases (i == j)) [
  | inl e ↦ rw e (let q : i ≡ j = ==→eq i j e in rw (← q) new)
  | inr e ↦ rw e (old j)
])

-- A new table with at least one slot is well formed, and every search in it gives NULL.
pub htb_init-IsTable :
    (size : ℕ) (f : Option (ℕ → ℕ → ℕ))
    → 0 < size
    → IsTable (htb_init size f) × ((key : ℕ) → htb_search (htb_init size f) key ≡ 0)
unfolding htb_init htb_search
htb_init-IsTable size f h = (
  record {
    nonempty = h;
    slots = length-replicate {A = Bucket} size [];
    placed = λ i. rw (get_or-replicate {A = Bucket} size i []) tt;
    distinct = λ i. rw (get_or-replicate {A = Bucket} size i []) tt;
    no_null = λ i. rw (get_or-replicate {A = Bucket} size i []) tt;
  },
  λ key. rw (get_or-replicate {A = Bucket} size (htb_hash key size) []),
)

module _ {t : HashTab} (w : IsTable t) (key : ℕ) where
  -- In a well-formed table, after an insertion a search gives the value for the key, and for every
  -- other key what it gave before.
  pub search-insert :
      (value j : ℕ)
      → htb_search (htb_insert t key value).0 j ≡ (if key == j then value else htb_search t j)
  unfolding htb_search htb_insert
  search-insert value j =
      rw (get_or-set t.arr (htb_hash key t.size) (htb_hash j t.size) _ [] (in_range w key))
        (elim (Bool-cases (htb_hash key t.size == htb_hash j t.size)) [
          | inl e ↦ rw (e, find-insert_node _ key value j, ==→eq _ _ e)
          | inr e ↦ rw (e, other e)
        ])
    where
      other : (htb_hash key t.size == htb_hash j t.size) ≡ false → (key == j) ≡ false
      other e = ground (arith, ==→eq key j)

  -- In a well-formed table, after a removal a search gives NULL for the key, and for every other key
  -- what it gave before.
  pub search-remove :
      (j : ℕ) → htb_search (htb_remove t key) j ≡ (if key == j then 0 else htb_search t j)
  unfolding htb_search htb_remove
  search-remove j =
      rw (get_or-set t.arr (htb_hash key t.size) (htb_hash j t.size) _ [] (in_range w key))
        (elim (Bool-cases (htb_hash key t.size == htb_hash j t.size)) [
          | inl e ↦ rw (e, find-remove_node _ key j (w.distinct (htb_hash key t.size)), ==→eq _ _ e)
          | inr e ↦ rw (e, other e)
        ])
    where
      other : (htb_hash key t.size == htb_hash j t.size) ≡ false → (key == j) ≡ false
      other e = ground (arith, ==→eq key j)

  -- Insertion of a key that is not NULL keeps a table well formed: each key in the chain of its hash,
  -- no key twice in a chain, no NULL key.
  pub insert-IsTable : (value : ℕ) → (key == 0) ≡ false → IsTable (htb_insert t key value).0
  unfolding htb_insert
  insert-IsTable value ne = record {
    nonempty = w.nonempty;
    slots = length-set t.arr _ _ ∙ w.slots;
    placed =
        chains-set (HashesTo t.size) t.arr _ _ (in_range w key)
          (HashesTo-insert_node t.size _ key value (w.placed _)) w.placed;
    distinct =
        chains-set (λ _ b. IsDistinct b) t.arr _ _ (in_range w key)
          (IsDistinct-insert_node _ key value (w.distinct _)) w.distinct;
    no_null =
        chains-set (λ _ b. NoNull b) t.arr _ _ (in_range w key)
          (NoNull-insert_node _ key value ne (w.no_null _)) w.no_null;
  }

  -- Removal keeps a table well formed.
  pub remove-IsTable : IsTable (htb_remove t key)
  unfolding htb_remove
  remove-IsTable = record {
    nonempty = w.nonempty;
    slots = length-set t.arr _ _ ∙ w.slots;
    placed =
        chains-set (HashesTo t.size) t.arr _ _ (in_range w key)
          (HashesTo-remove_node t.size _ _ key (w.placed _)) w.placed;
    distinct =
        chains-set (λ _ b. IsDistinct b) t.arr _ _ (in_range w key)
          (IsDistinct-remove_node _ key (w.distinct _)) w.distinct;
    no_null =
        chains-set (λ _ b. NoNull b) t.arr _ _ (in_range w key)
          (NoNull-remove_node _ key (w.no_null _)) w.no_null;
  }
