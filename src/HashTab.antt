-- ===== src/HashTab.antt =====
-- hashtab.c: the chained hash table behind environments and Scheme hash tables. A chain of
-- hashtab_node_t is the list of its (key, value) pairs; a pointer is a number and NULL is 0.
pub mod Buckets
pub mod Count
mod Examples
pub mod Flatten
pub mod Grow
pub mod Iterate
pub mod Table
use brianscheme.Base.{
  ℕ, zero, suc, ◌+◌, ◌/◌, ◌%◌, ◌^◌, Bool, true, false, ◌&&◌, Option, none, some, List, [], ◌∷◌,
  ◌==◌, ltb, if◌then◌else◌, get_elem?, get_or, set, replicate,
}

abbrev pub Bucket : Type 0
Bucket = List (ℕ × ℕ)

pub record HashTab : Type 0 where
  pub arr : List Bucket
  pub size : ℕ
  pub count : ℕ
  pub hash_func : ℕ → ℕ → ℕ

-- sizeof(key) on the platform modelled.
abbrev pub sizeof_key : ℕ
sizeof_key = 8

-- The shift of a `long` and the conversion to uint32_t.
unfoldable pub htb_hash : ℕ → ℕ → ℕ
htb_hash key hashtab_size =
    let hash = (if sizeof_key == 4 then key / 2 ^ 5 else key / 2 ^ 6) % 2 ^ 32 in
    hash % hashtab_size

-- `none` is a NULL hash_func.
unfoldable pub htb_init : ℕ → Option (ℕ → ℕ → ℕ) → HashTab
unfolding htb_hash
htb_init size hash_func = record {
  arr = replicate size [];
  size = size;
  count = 0;
  hash_func = elim hash_func [ none ↦ htb_hash | some f ↦ f ];
}

-- The chain at an index.
abbrev pub chain : HashTab → ℕ → Bucket
chain t i = get_or t.arr i []

-- The loop of htb_search.
unfoldable pub find_node : Bucket → ℕ → ℕ
find_node [] key = 0
find_node ((k, v) ∷ b) key = if key == k then v else find_node b key

unfoldable pub htb_search : HashTab → ℕ → ℕ
unfolding find_node htb_hash
htb_search t key = find_node (chain t (htb_hash key t.size)) key

-- The loop of htb_insert: an existing node gets the value, or a new node ends the chain. The flag
-- says that a node was made.
unfoldable pub insert_node : Bucket → ℕ → ℕ → Bucket × Bool
insert_node [] key value = ((key, value) ∷ [], true)
insert_node ((k, v) ∷ b) key value =
    let (b', made) = insert_node b key value in
    if key == k then ((k, value) ∷ b, false) else ((k, v) ∷ b', made)

unfoldable pub htb_insert : HashTab → ℕ → ℕ → HashTab × ℕ
unfolding insert_node htb_hash
htb_insert t key value =
    let index = htb_hash key t.size in
    let (b, made) = insert_node (chain t index) key value in
    (record t { arr = set t.arr index b; count = if made then t.count + 1 else t.count }, value)

-- The loop of htb_remove: the first node with the key is unlinked.
unfoldable pub remove_node : Bucket → ℕ → Bucket
remove_node [] key = []
remove_node ((k, v) ∷ b) key = if key == k then b else (k, v) ∷ remove_node b key

unfoldable pub htb_remove : HashTab → ℕ → HashTab
unfolding remove_node htb_hash
htb_remove t key =
    let index = htb_hash key t.size in
    record t { arr = set t.arr index (remove_node (chain t index) key) }

-- The iterator. `node` is the chain from internal.node on, empty for NULL, and `after` is
-- internal.index + 1, so that the -1 of htb_iter_init is 0.
pub record Iter : Type 0 where
  pub key : ℕ
  pub value : ℕ
  pub node : Bucket
  pub after : ℕ

-- A read of arr[i]. The search loop of htb_iter_inc reads one slot past the array; `past` is what
-- stands there.
unfoldable pub slot : Bucket → HashTab → ℕ → Bucket
slot past t i = elim (get_elem? t.arr i) [ none ↦ past | some b ↦ b ]

abbrev pub is_null : Bucket → Bool
is_null [] = true
is_null (n ∷ b) = false

-- while(arr[index] == NULL && index < size) index++, on fuel.
unfoldable pub skip_empty : ℕ → Bucket → HashTab → ℕ → ℕ
unfolding slot
skip_empty zero past t index = index
skip_empty (suc fuel) past t index =
    let more = skip_empty fuel past t (index + 1) in
    if is_null (slot past t index) && ltb index t.size then more else index

-- The iterator at the head of a chain that is not empty.
abbrev pub at_node : Bucket → ℕ → Iter
at_node [] after = record { key = 0; value = 0; node = []; after = after }
at_node ((k, v) ∷ b) after = record { key = k; value = v; node = (k, v) ∷ b; after = after }

-- The second half of htb_iter_inc: the search for the next chain from `index` on.
unfoldable pub next_chain : Bucket → HashTab → ℕ → Iter
unfolding skip_empty slot
next_chain past t start =
    let index = skip_empty (t.size + 1) past t start in
    if ltb index t.size
    then at_node (slot past t index) (index + 1)
    else record { key = 0; value = 0; node = []; after = t.size + 1 }

-- htb_iter_inc: the next node of the chain, or the next chain that is not empty.
unfoldable pub iter_step : Bucket → HashTab → Bucket → ℕ → Iter
unfolding next_chain
iter_step past t (n ∷ m ∷ b) after = at_node (m ∷ b) after
iter_step past t _ after = next_chain past t after

unfoldable pub htb_iter_inc : Bucket → HashTab → Iter → Iter
unfolding iter_step
htb_iter_inc past t ii = iter_step past t ii.node ii.after

unfoldable pub htb_iter_init : Bucket → HashTab → Iter
unfolding htb_iter_inc
htb_iter_init past t = htb_iter_inc past t (record { key = 0; value = 0; node = []; after = 0 })

-- for(; ii.key != NULL; htb_iter_inc(&ii)) htb_insert(new_ht, ii.key, ii.value), on fuel.
unfoldable pub grow_loop : ℕ → Bucket → HashTab → Iter → HashTab → Option HashTab
unfolding htb_iter_inc htb_insert
grow_loop zero past old ii new = none
grow_loop (suc fuel) past old ii new =
    let more =
      grow_loop fuel past old (htb_iter_inc past old ii) (htb_insert new ii.key ii.value).0 in
    if ii.key == 0 then some new else more

-- htb_grow, less htb_destroy of the old table, which only frees.
unfoldable pub htb_grow : ℕ → Bucket → HashTab → ℕ → Option HashTab
unfolding grow_loop htb_iter_init htb_init
htb_grow fuel past old new_size =
    grow_loop fuel past old (htb_iter_init past old) (htb_init new_size (some old.hash_func))
