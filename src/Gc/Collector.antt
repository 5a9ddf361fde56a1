-- ===== src/Gc/Collector.antt =====
-- The rest of gc.c: the collector's whole state, baker_collect, extend_heap and alloc_object.
use brianscheme.Base.{
  ℕ, zero, suc, ◌+◌, ◌-◌, ◌*◌, ◌/◌, ◌%◌, Bool, true, Option, none, some, List, [], ◌∷◌, ◌++◌, ◌==◌,
  ltb, if◌then◌else◌,
}
use brianscheme.HashTab.{Bucket}
use brianscheme.Object.{Ptr, null, Data, string, vector, hash_table, alien}
use brianscheme.StackSet.{StackSet, stack_set_push, clear_stack_set}
use brianscheme.Gc.{Heap, update, append_to_tail, fields, move_reachable}

-- The part of global_state that gc.c keeps, the objects' types and unions, and the C variables whose
-- addresses are on the root stack.
pub record Collector : Type 0 where
  pub heap : Heap
  pub object : Ptr → Data
  pub variable : ℕ → Ptr
  pub root_objects : StackSet
  pub finalizable_objects : StackSet
  pub finalizable_objects_next : StackSet
  pub next_free_object : Ptr
  pub next_heap_extension : ℕ

-- What finalize_object frees.
pub data Release : Type 0 where
  free_string free_vector destroy_table free_alien : Release

unfoldable pub finalize_object : Data → Option Release
finalize_object (string value) = some free_string
finalize_object (vector objects) = some free_vector
finalize_object (hash_table t) = some destroy_table
finalize_object (alien ptr releaser) = some free_alien
finalize_object _ = none

-- ++(g->current_color), a char.
unfoldable pub next_color : Heap → Heap
next_color h = record h { current_color = (h.current_color + 1) % 256 }

-- for(ii = 0; ii < Root_Objects->top; ++ii) move_reachable(*objs[ii]), from `ii` on for `n` rounds.
unfoldable pub mark_roots : ℕ → ℕ → ℕ → (Ptr → List Ptr) → Collector → Heap → Heap
unfolding move_reachable
mark_roots zero ii fuel kids g h = h
mark_roots (suc n) ii fuel kids g h =
    mark_roots n (ii + 1) fuel kids g
      (move_reachable fuel kids (g.variable (g.root_objects.objs ii)) h)

-- The finalization loop, from `idx` on for `n` rounds: the stack of survivors, and what was freed.
unfoldable pub finalize_dead :
    ℕ → ℕ → Heap → Collector → StackSet → List (Ptr × Release) → StackSet × List (Ptr × Release)
unfolding finalize_object stack_set_push
finalize_dead zero idx h g survivors released = (survivors, released)
finalize_dead (suc n) idx h g survivors released =
    let obj = g.finalizable_objects.objs idx in
    let live = h.color obj == h.current_color in
    finalize_dead n (idx + 1) h g (if live then stack_set_push survivors obj else survivors) (
      if live then released else elim (finalize_object (g.object obj)) [
        | none ↦ released
        | some r ↦ released ++ (obj, r) ∷ []
      ])

pub record Collected : Type 0 where
  pub state : Collector
  pub num_free : ℕ
  pub released : List (Ptr × Release)

-- The heap of baker_collect after marking. Marking gets a round for each object and one more.
unfoldable pub marked_heap : Bucket → Collector → Heap
unfolding append_to_tail next_color mark_roots fields
marked_heap past g =
    let merged = next_color (append_to_tail g.heap) in
    mark_roots g.root_objects.top 0 (merged.active.num_objects + 1) (λ p. fields past (g.object p))
      g merged

unfoldable pub baker_collect : Bucket → Collector → Collected
unfolding marked_heap finalize_dead clear_stack_set
baker_collect past g =
    let marked = marked_heap past g in
    let (survivors, released) =
      finalize_dead g.finalizable_objects.top 0 marked g g.finalizable_objects_next [] in
    record {
      state = record g {
        heap = next_color marked;
        finalizable_objects = survivors;
        finalizable_objects_next = clear_stack_set g.finalizable_objects;
        next_free_object = marked.active.head;
      };
      num_free = marked.active.num_objects;
      released = released;
    }

-- sizeof(object).
abbrev pub sizeof_object : ℕ
sizeof_object = 40

-- &new_heap[ii].
abbrev pub cell : Ptr → ℕ → Ptr
cell new_heap ii = new_heap + ii * sizeof_object

-- One object of the new block, with its two neighbours.
abbrev pub place : Heap → Ptr → Ptr → Ptr → Heap
place h obj prev next = record h {
  next = update h.next obj next;
  prev = update h.prev obj prev;
  color = update h.color obj h.current_color;
}

-- The loop over the inner objects of the block, from `ii` on for `n` rounds.
unfoldable pub extend_loop : ℕ → ℕ → Ptr → Heap → Heap
unfolding update
extend_loop zero ii new_heap h = h
extend_loop (suc n) ii new_heap h =
    extend_loop n (ii + 1) new_heap
      (place h (cell new_heap ii) (cell new_heap (ii - 1)) (cell new_heap (ii + 1)))

-- The last object of the block, and the head of the active list.
unfoldable pub attach : Ptr → ℕ → Heap → Heap
unfolding update
attach new_heap extension h =
    let last = extension - 1 in
    let h' = place h (cell new_heap last) (cell new_heap (last - 1)) h.active.head in
    let total = h.active.num_objects + extension in
    if h.active.head == null
    then record h' {
      active = record { head = new_heap; tail = cell new_heap last; num_objects = total };
    }
    else record h' {
      prev = update h'.prev h.active.head (cell new_heap last);
      active = record (h.active) { head = new_heap; num_objects = total };
    }

-- extend_heap(extension), 2 ≤ extension; `new_heap` is what MALLOC returned.
unfoldable pub extend_heap : Ptr → ℕ → Collector → Collector
extend_heap new_heap extension g =
    let first = place g.heap new_heap null (cell new_heap 1) in
    record g {
      heap = attach new_heap extension (extend_loop (extension - 2) 1 new_heap first);
      next_free_object = new_heap;
    }

-- freed == 0 || g->Next_Heap_Extension / freed > 2.
unfoldable pub is_scarce : ℕ → ℕ → Bool
is_scarce freed extension = if freed == 0 then true else ltb 2 (extension / freed)

-- The state after a collection that freed too little.
unfoldable pub extended : Ptr → Collector → Collector
extended new_heap g =
    let grown = extend_heap new_heap g.next_heap_extension g in
    record grown { next_heap_extension = grown.next_heap_extension * 3 }

-- The first half of alloc_object: a collection, and more heap, when there is nothing to hand out.
unfoldable pub refill : Bucket → Ptr → Collector → Collector
refill past new_heap g =
    let collected = baker_collect past g in
    let g' = collected.state in
    if g.next_free_object == null
    then (if is_scarce collected.num_free g'.next_heap_extension then extended new_heap g' else g')
    else g

-- The second half: the state and the object, or `none` where throw_gc ends the program.
unfoldable pub hand_out : Bool → Collector → Option (Collector × Ptr)
unfolding update stack_set_push
hand_out needs_finalization g =
    let obj = g.next_free_object in
    if obj == null
    then none
    else some (
      record g {
        heap = record (g.heap) { color = update g.heap.color obj g.heap.current_color };
        finalizable_objects =
            if needs_finalization
            then stack_set_push g.finalizable_objects obj
            else g.finalizable_objects;
        next_free_object = g.heap.next obj;
      },
      obj,
    )

unfoldable pub alloc_object : Bucket → Ptr → Bool → Collector → Option (Collector × Ptr)
alloc_object past new_heap needs_finalization g =
    hand_out needs_finalization (refill past new_heap g)
