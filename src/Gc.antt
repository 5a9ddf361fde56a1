-- ===== src/Gc.antt =====
-- gc.c: the heap of Scheme objects on two doubly linked lists, Baker's copying-free collector that
-- moves what is reachable from one list to the other, allocation, and the stacks of roots and of
-- finalizable objects.

pub mod Append
pub mod Chain
pub mod Collect
pub mod Collector
mod Examples
pub mod Block
pub mod Extend
pub mod Fields
pub mod Link
pub mod Move
pub mod HandOut
pub mod Reach
pub mod Safety
pub mod Scan
pub mod Unlink
pub mod Validate
use brianscheme.Base.{
  ℕ, zero, suc, ◌+◌, ◌-◌, ◌*◌, ◌/◌, ◌%◌, ◌<◌, Bool, true, false, ◌||◌, Option, none, some, List, [],
  ◌∷◌, ◌++◌, ◌==◌, ltb, if◌then◌else◌,
}
use brianscheme.HashTab.{Bucket, HashTab, Iter, htb_iter_inc, htb_iter_init}
use brianscheme.HashTab.Count.{nodes}
use brianscheme.Object.{
  Ptr, null, tagged, Data, symbol, string, pair, compound_proc, syntax_proc, compiled_syntax_proc,
  vector, compiled_proc, hash_table, alien, meta_proc,
}
use brianscheme.StackSet.{StackSet, stack_set_push, clear_stack_set}

-- doubly_linked_list.
pub record ObjectList : Type 0 where
  pub head : Ptr
  pub tail : Ptr
  pub num_objects : ℕ

-- The `next`, `prev` and `color` members of every object, the two lists and current_color.
pub record Heap : Type 0 where
  pub next : Ptr → Ptr
  pub prev : Ptr → Ptr
  pub color : Ptr → ℕ
  pub active : ObjectList
  pub old : ObjectList
  pub current_color : ℕ

-- A write to one object's member.
unfoldable pub update : (Ptr → ℕ) → Ptr → ℕ → Ptr → ℕ
update f p v q = if q == p then v else f q

-- The first half of move_object_to_head, out of the active list: the object before, the object
-- behind, and the counter.
unfoldable pub unlink_before : Ptr → Heap → Heap
unfolding update
unlink_before obj h =
    if h.prev obj == null
    then record h { active = record (h.active) { head = h.next obj } }
    else record h { next = update h.next (h.prev obj) (h.next obj) }

unfoldable pub unlink_behind : Ptr → Heap → Heap
unfolding update
unlink_behind obj h =
    if h.next obj == null
    then record h { active = record (h.active) { tail = h.prev obj } }
    else record h { prev = update h.prev (h.next obj) (h.prev obj) }

unfoldable pub unlink : Ptr → Heap → Heap
unfolding unlink_before unlink_behind
unlink obj h =
    let u = unlink_behind obj (unlink_before obj h) in
    record u { active = record (u.active) { num_objects = u.active.num_objects - 1 } }

-- The second half, into the old list.
unfoldable pub link : Ptr → Heap → Heap
unfolding update
link obj h =
    if h.old.head == null
    then record h {
      next = update h.next obj null;
      prev = update h.prev obj null;
      old = record { head = obj; tail = obj; num_objects = h.old.num_objects + 1 };
    }
    else record h {
      next = update h.next obj h.old.head;
      prev = update (update h.prev obj null) h.old.head obj;
      old = record (h.old) { head = obj; num_objects = h.old.num_objects + 1 };
    }

-- move_object_to_head(obj, &Active_Heap_Objects, &Old_Heap_Objects): the collector's only use.
unfoldable pub move_object_to_head : Ptr → Heap → Heap
unfolding unlink link
move_object_to_head obj h = link obj (unlink obj h)

-- append_to_tail(&Active_Heap_Objects, &Old_Heap_Objects).
abbrev pub no_objects : ObjectList
no_objects = record { head = null; tail = null; num_objects = 0 }

unfoldable pub append_to_tail : Heap → Heap
unfolding update
append_to_tail h =
    let total = h.active.num_objects + h.old.num_objects in
    if h.active.tail == null
    then record h {
      active = record { head = h.old.head; tail = h.old.tail; num_objects = total };
      old = no_objects;
    }
    else if h.old.head == null
    then h
    else record h {
      next = update h.next h.active.tail h.old.head;
      prev = update h.prev h.old.head h.active.tail;
      active = record { head = h.active.head; tail = h.old.tail; num_objects = total };
      old = no_objects;
    }

-- The macro maybe_move of move_reachable.
unfoldable pub maybe_move : Ptr → Heap → Heap
unfolding move_object_to_head update
maybe_move obj h =
    if tagged obj
    then h
    else if h.color obj == h.current_color
    then h
    else let moved = move_object_to_head obj h in
      record moved { color = update moved.color obj moved.current_color }

-- while(htab_iter.key != NULL): the keys and values that the iterator visits, on fuel.
unfoldable pub table_fields : ℕ → Bucket → HashTab → Iter → List Ptr
unfolding htb_iter_inc
table_fields zero past t ii = []
table_fields (suc fuel) past t ii =
    let more = table_fields fuel past t (htb_iter_inc past t ii) in
    if ii.key == null then [] else ii.key ∷ ii.value ∷ more

-- The switch of move_reachable: the fields that it hands to maybe_move, in order. A vector of
-- objects is its array. The walk over a hash table is given a round for each node and one more.
unfoldable pub fields : Bucket → Data → List Ptr
unfolding table_fields htb_iter_init
fields past (pair car cdr) = car ∷ cdr ∷ []
fields past (compound_proc parms_and_env body) = parms_and_env ∷ body ∷ []
fields past (syntax_proc parms_and_env body) = parms_and_env ∷ body ∷ []
fields past (vector objects) = objects
fields past (compiled_proc bytecode env) = bytecode ∷ env ∷ []
fields past (compiled_syntax_proc bytecode env) = bytecode ∷ env ∷ []
fields past (meta_proc proc data') = proc ∷ data' ∷ []
fields past (hash_table t) = table_fields (nodes t.arr + 1) past t (htb_iter_init past t)
fields past _ = []

unfoldable pub move_all : List Ptr → Heap → Heap
unfolding maybe_move
move_all [] h = h
move_all (p ∷ ps) h = move_all ps (maybe_move p h)

-- The loop of move_reachable over scan_iter, on fuel; `kids` gives the fields of an object.
unfoldable pub scan : ℕ → (Ptr → List Ptr) → Ptr → Heap → Heap
unfolding move_all
scan zero kids scan_iter h = h
scan (suc fuel) kids scan_iter h =
    let h' = if tagged scan_iter then h else move_all (kids scan_iter) h in
    let rest = scan fuel kids (h'.prev scan_iter) h' in if scan_iter == null then h else rest

unfoldable pub move_reachable : ℕ → (Ptr → List Ptr) → Ptr → Heap → Heap
unfolding scan move_object_to_head update
move_reachable fuel kids root h =
    let coloured = record h { color = update h.color root h.current_color } in
    let moved = move_object_to_head root coloured in
    if root == null
    then h
    else if tagged root
    then h
    else if h.color root == h.current_color
    then h
    else scan fuel kids moved.old.head moved
