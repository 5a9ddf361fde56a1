-- ===== src/HashTab/Buckets.antt =====
-- One chain of hashtab.c: what the loops of search, insert and remove do to it.
use brianscheme.Base.{ℕ, ◌+◌, ◌≡◌, refl, false, [], ◌∷◌, arith, ◌==◌, if◌then◌else◌, length, ==→eq}
use brianscheme.HashTab.{Bucket, htb_hash, find_node, insert_node, remove_node}

-- No node has the key.
abbrev pub Absent : ℕ → Bucket → Type 0
Absent key [] = Unit
Absent key ((k, v) ∷ b) = ((k == key) ≡ false) × Absent key b

abbrev pub IsDistinct : Bucket → Type 0
IsDistinct [] = Unit
IsDistinct ((k, v) ∷ b) = Absent k b × IsDistinct b

-- Every key has the hash `i`.
abbrev pub HashesTo : ℕ → ℕ → Bucket → Type 0
HashesTo size i [] = Unit
HashesTo size i ((k, v) ∷ b) = (htb_hash k size ≡ i) × HashesTo size i b

-- No key is NULL.
abbrev pub NoNull : Bucket → Type 0
NoNull [] = Unit
NoNull ((k, v) ∷ b) = ((k == 0) ≡ false) × NoNull b

pub find-insert_node :
    (b : Bucket) (key value j : ℕ)
    → find_node (insert_node b key value).0 j ≡ (if key == j then value else find_node b j)
unfolding find_node insert_node
find-insert_node [] key value j = ground arith
find-insert_node ((k, v) ∷ b) key value j = ground (arith, find-insert_node b key value j)

pub find-Absent : (b : Bucket) (key : ℕ) → Absent key b → find_node b key ≡ 0
unfolding find_node
find-Absent [] key h = refl
find-Absent ((k, v) ∷ b) key h = ground (arith, find-Absent b key h.1)

pub find-remove_node :
    (b : Bucket) (key j : ℕ)
    → IsDistinct b
    → find_node (remove_node b key) j ≡ (if key == j then 0 else find_node b j)
unfolding find_node remove_node
find-remove_node [] key j h = ground arith
find-remove_node ((k, v) ∷ b) key j h =
    ground (arith, find-Absent b j, ==→eq k j, find-remove_node b key j h.1)

pub Absent-insert_node :
    (b : Bucket) (key value j : ℕ)
    → (key == j) ≡ false
    → Absent j b
    → Absent j (insert_node b key value).0
unfolding insert_node
Absent-insert_node [] key value j ne h = (ne, tt)
Absent-insert_node ((k, v) ∷ b) key value j ne h =
    ground (arith, Absent-insert_node b key value j ne h.1)

pub IsDistinct-insert_node :
    (b : Bucket) (key value : ℕ) → IsDistinct b → IsDistinct (insert_node b key value).0
unfolding insert_node
IsDistinct-insert_node [] key value h = (tt, tt)
IsDistinct-insert_node ((k, v) ∷ b) key value h =
    ground (arith, Absent-insert_node b key value k, IsDistinct-insert_node b key value h.1)

pub Absent-remove_node : (b : Bucket) (key j : ℕ) → Absent j b → Absent j (remove_node b key)
unfolding remove_node
Absent-remove_node [] key j h = tt
Absent-remove_node ((k, v) ∷ b) key j h = ground (arith, Absent-remove_node b key j h.1)

pub IsDistinct-remove_node : (b : Bucket) (key : ℕ) → IsDistinct b → IsDistinct (remove_node b key)
unfolding remove_node
IsDistinct-remove_node [] key h = tt
IsDistinct-remove_node ((k, v) ∷ b) key h =
    ground (arith, Absent-remove_node b key k, IsDistinct-remove_node b key h.1)

pub HashesTo-insert_node :
    (size : ℕ) (b : Bucket) (key value : ℕ)
    → HashesTo size (htb_hash key size) b
    → HashesTo size (htb_hash key size) (insert_node b key value).0
unfolding insert_node
HashesTo-insert_node size [] key value h = (refl, tt)
HashesTo-insert_node size ((k, v) ∷ b) key value h =
    ground (arith, HashesTo-insert_node size b key value h.1)

pub HashesTo-remove_node :
    (size i : ℕ) (b : Bucket) (key : ℕ) → HashesTo size i b → HashesTo size i (remove_node b key)
unfolding remove_node
HashesTo-remove_node size i [] key h = tt
HashesTo-remove_node size i ((k, v) ∷ b) key h =
    ground (arith, HashesTo-remove_node size i b key h.1)

pub NoNull-insert_node :
    (b : Bucket) (key value : ℕ)
    → (key == 0) ≡ false
    → NoNull b
    → NoNull (insert_node b key value).0
unfolding insert_node
NoNull-insert_node [] key value ne h = (ne, tt)
NoNull-insert_node ((k, v) ∷ b) key value ne h =
    ground (arith, NoNull-insert_node b key value ne h.1)

pub NoNull-remove_node : (b : Bucket) (key : ℕ) → NoNull b → NoNull (remove_node b key)
unfolding remove_node
NoNull-remove_node [] key h = tt
NoNull-remove_node ((k, v) ∷ b) key h = ground (arith, NoNull-remove_node b key h.1)

-- A chain grows by one node exactly when the flag says so.
pub length-insert_node :
    (b : Bucket) (key value : ℕ)
    → length (insert_node b key value).0
      ≡ (if (insert_node b key value).1 then length b + 1 else length b)
unfolding insert_node
length-insert_node [] key value = omega arith
length-insert_node ((k, v) ∷ b) key value = ground (arith, length-insert_node b key value)
