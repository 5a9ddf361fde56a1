-- ===== src/HashTab/Count.antt =====
-- The counter of hashtab.c against the number of nodes in the chains.
use brianscheme.Base.{
  ℕ, zero, suc, ◌+◌, ◌<◌, ◌≡◌, refl, Bool, true, false, List, [], ◌∷◌, arith, ◌==◌, if◌then◌else◌,
  length, get_or, set,
}
use brianscheme.HashTab.{
  Bucket, HashTab, chain, htb_hash, insert_node, remove_node, htb_insert, htb_remove,
}
use brianscheme.HashTab.Buckets.{length-insert_node}
use brianscheme.HashTab.Table.{IsTable, in_range}

-- How many nodes the chains hold.
abbrev pub nodes : List Bucket → ℕ
nodes [] = 0
nodes (b ∷ bs) = length b + nodes bs

abbrev pub has_key : Bucket → ℕ → Bool
has_key [] key = false
has_key ((k, v) ∷ b) key = if k == key then true else has_key b key

nodes-set :
    (bs : List Bucket) (i : ℕ) (b : Bucket)
    → i < length bs
    → nodes (set bs i b) + length (get_or bs i []) ≡ nodes bs + length b
nodes-set [] i b h = elim h [ ]
nodes-set (c ∷ bs) zero b h = omega arith
nodes-set (c ∷ bs) (suc i) b h = omega (arith, nodes-set bs i b (omega arith))

has-insert_node :
    (b : Bucket) (key value : ℕ)
    → (insert_node b key value).1 ≡ (if has_key b key then false else true)
unfolding insert_node
has-insert_node [] key value = refl
has-insert_node ((k, v) ∷ b) key value = ground (arith, has-insert_node b key value)

length-remove_node :
    (b : Bucket) (key : ℕ)
    → length b
      ≡ (if has_key b key then length (remove_node b key) + 1 else length (remove_node b key))
unfolding remove_node
length-remove_node [] key = refl
length-remove_node ((k, v) ∷ b) key = ground (arith, length-remove_node b key)

module _ {t : HashTab} (w : IsTable t) (counted : t.count ≡ nodes t.arr) (key : ℕ) where
  -- In a well-formed table whose counter is right, it is right after an insertion.
  pub insert-counted :
      (value : ℕ) → (htb_insert t key value).0.count ≡ nodes (htb_insert t key value).0.arr
  unfolding htb_insert
  insert-counted value = ground (
    arith,
    nodes-set t.arr (htb_hash key t.size) (insert_node (chain t (htb_hash key t.size)) key value).0,
    length-insert_node (chain t (htb_hash key t.size)) key value,
    in_range w key,
  )

  -- In a well-formed table whose counter is right, after the removal of a stored key the counter is
  -- one more than the number of nodes: htb_remove leaves it as it is.
  pub remove_overcounts :
      has_key (chain t (htb_hash key t.size)) key ≡ true
      → (htb_remove t key).count ≡ nodes (htb_remove t key).arr + 1
  unfolding htb_remove
  remove_overcounts h = ground (
    arith,
    nodes-set t.arr (htb_hash key t.size) (remove_node (chain t (htb_hash key t.size)) key),
    length-remove_node (chain t (htb_hash key t.size)) key,
    in_range w key,
  )
