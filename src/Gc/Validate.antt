-- ===== src/Gc/Validate.antt =====
-- gc.c: debug_validate, as DEBUG_GC compiles it, on the lists that the pointers represent. Its loop
-- takes fuel, since a damaged list may be cyclic.
use brianscheme.Base.{
  ℕ, zero, suc, ◌+◌, ◌-◌, ◌<◌, ◌≡◌, refl, ◌∙◌, Bool, true, false, not, ◌&&◌, ◌||◌, Option, none,
  some, List, [], ◌∷◌, arith, ◌==◌, if◌then◌else◌, length, ==-self, ==-comm, ne→==, ◌>>=◌,
}
use brianscheme.Base.Members.{Nodup}
use brianscheme.Object.{Ptr, null}
use brianscheme.Gc.{ObjectList}
use brianscheme.Gc.Chain.{Chain, IsList, Chain-null, last_or, last_or-mem}

-- The messages of assert_gc, in their order.
pub data Complaint : Type 0 where
  null_apart null_count : Complaint
  head_prev : Complaint
  single_count single_next single_prev : Complaint
  head_next : Complaint
  central_prev_null central_next_null central_prev : Complaint
  tail_next tail_prev_null tail_prev count_wrong : Complaint

-- assert_gc, with what follows it; no complaint is a list that passes.
abbrev pub assert_gc : Bool → Complaint → Option (Option Complaint) → Option (Option Complaint)
assert_gc test c rest = if test then rest else some (some c)

-- What the loop leaves, or the complaint that ends it.
pub data Walk : Type 0 where
  complained : Complaint → Walk
  reached : (iter last : Ptr) → (idx : ℕ) → Walk

unfoldable pub validate_loop : ℕ → (Ptr → Ptr) → (Ptr → Ptr) → Ptr → Ptr → Ptr → ℕ → Option Walk
validate_loop zero next prev tail iter last idx = none
validate_loop (suc fuel) next prev tail iter last idx =
    let more = validate_loop fuel next prev tail (next iter) iter (idx + 1) in
    let body =
      (if prev iter == null
        then some (complained central_prev_null)
        else if next iter == null
        then some (complained central_next_null)
        else if not (last == null) && not (prev iter == last)
        then some (complained central_prev)
        else more) in
    if iter == tail then some (reached iter last idx) else body

-- The assertions behind the loop.
unfoldable pub validate_tail : (Ptr → Ptr) → (Ptr → Ptr) → ℕ → Walk → Option (Option Complaint)
validate_tail next prev count (complained c) = some (some c)
validate_tail next prev count (reached iter last idx) = assert_gc (next iter == null) tail_next (
    assert_gc (not (prev iter == null)) tail_prev_null (
      assert_gc (prev iter == last) tail_prev
        (assert_gc (idx + 1 == count) count_wrong (some none))))

unfoldable pub debug_validate :
    ℕ → (Ptr → Ptr) → (Ptr → Ptr) → ObjectList → Option (Option Complaint)
unfolding validate_tail
debug_validate fuel next prev list =
    let walked = (do
      w ← validate_loop fuel next prev list.tail (next list.head) null 1
      validate_tail next prev list.num_objects w) in
    let long = assert_gc (not (next list.head == null)) head_next walked in
    let single = assert_gc (list.num_objects == 1) single_count (
      assert_gc (next list.head == null) single_next
        (assert_gc (prev list.tail == null) single_prev (some none))) in
    let present =
      assert_gc (prev list.head == null) head_prev
        (if list.head == list.tail then single else long) in
    let empty =
      assert_gc ((list.head == null) && (list.tail == null)) null_apart
        (assert_gc (list.num_objects == 0) null_count (some none)) in
    if list.head == null || list.tail == null then empty else present

-- debug_list_contains: the place of the object, or no place where the assertion fails.
unfoldable pub contains_loop : ℕ → (Ptr → Ptr) → ObjectList → Ptr → Ptr → ℕ → Option (Option ℕ)
contains_loop zero next list obj iter pos = none
contains_loop (suc fuel) next list obj iter pos =
    let more = contains_loop fuel next list obj (next iter) (pos + 1) in
    let body = (if iter == obj then some (some pos) else more) in
    let last = (if iter == obj then some (some (list.num_objects - 1)) else some none) in
    if iter == list.tail then last else body

unfoldable pub debug_list_contains : ℕ → (Ptr → Ptr) → ObjectList → Ptr → Option (Option ℕ)
unfolding contains_loop
debug_list_contains fuel next list obj =
    let single = (if list.head == obj then some (some 0) else some none) in
    if list.head == list.tail then single else contains_loop fuel next list obj list.head 0

-- `last` when the loop ends.
before_last : Ptr → Ptr → List Ptr → Ptr
before_last p y [] = p
before_last p y (z ∷ zs) = before_last y z zs

prev_last :
    (n m : Ptr → Ptr) (p y : Ptr) (ys : List Ptr)
    → Chain n m p (y ∷ ys)
    → (m (last_or y ys) ≡ before_last p y ys) × (n (last_or y ys) ≡ null)
unfolding before_last
prev_last n m p y [] c = (c.0, c.1)
prev_last n m p y (z ∷ zs) c = prev_last n m y z zs c.3

before_last_kept :
    (n m : Ptr → Ptr) (p y : Ptr) (ys : List Ptr)
    → Chain n m p (y ∷ ys)
    → (p == null) ≡ false
    → (before_last p y ys == null) ≡ false
unfolding before_last
before_last_kept n m p y [] c h = h
before_last_kept n m p y (z ∷ zs) c h = before_last_kept n m y z zs c.3 c.2

validate_loop_lem :
    (fuel : ℕ) (n m : Ptr → Ptr) (p last y : Ptr) (ys : List Ptr) (idx : ℕ)
    → Chain n m p (y ∷ ys)
    → Nodup (y ∷ ys)
    → (p == null) ≡ false
    → (if last == null then true else last == p) ≡ true
    → length ys < fuel
    → validate_loop fuel n m (last_or y ys) y last idx
      ≡ some (reached (last_or y ys) (before_last last y ys) (idx + length ys))
unfolding validate_loop before_last
validate_loop_lem zero n m p last y ys idx c d nn l h = elim h [ ]
validate_loop_lem (suc fuel) n m p last y [] idx c d nn l h =
    let e : idx + 0 ≡ idx = omega arith in rw (==-self y, e)
validate_loop_lem (suc fuel) n m p last y (z ∷ zs) idx c d nn l h =
    let linked : (not (last == null) && not (p == last)) ≡ false = ground (arith, ==-comm last p) in
    let own : (if y == null then true else y == y) ≡ true = rw (c.2) (==-self y) in
    let rest = validate_loop_lem fuel n m y y z zs (idx + 1) c.3 d.1 c.2 own (omega arith) in
    let e : idx + 1 + length zs ≡ idx + suc (length zs) = omega arith in
    rw (==-comm y (last_or z zs), last_or-mem z zs y d.0, c.0, nn, c.1, c.3.2, linked, rest, e)

-- debug_validate of a well-formed list, with more fuel than objects, ends; it finds nothing wrong,
-- unless the list has exactly two objects: then it says that the tail's prev is wrong.
pub debug_validate_lem :
    (fuel : ℕ) (n m : Ptr → Ptr) (l : ObjectList) (xs : List Ptr)
    → IsList n m l xs
    → Nodup xs
    → length xs < fuel
    → debug_validate fuel n m l ≡ some (if length xs == 2 then some tail_prev else none)
unfolding debug_validate before_last
debug_validate_lem fuel n m l [] w d h = simp (w.head, w.tail, w.count)
debug_validate_lem fuel n m l (x ∷ []) w d h =
    let (no_prev, no_next, here, _) = w.chain in
    simp (w.head, w.tail, w.count, no_prev, no_next, here, ==-self x)
debug_validate_lem fuel n m l (x ∷ y ∷ []) w d h =
    let (no_prev, linked, here, rest) = w.chain in
    let (back, ends, there, _) = rest in
    let apart : (x == y) ≡ false = ground arith in
    let walked = validate_loop_lem fuel n m x null y [] 1 rest d.1 here refl (omega arith) in
    simp (w.head, w.tail, w.count, no_prev, linked, here, there, apart, walked, back, ends)
debug_validate_lem fuel n m l (x ∷ y ∷ z ∷ zs) w d h =
    let (no_prev, linked, here, more) = w.chain in
    let apart : (x == last_or z zs) ≡ false =
      ==-comm x (last_or z zs) ∙ last_or-mem z zs x (ground arith) in
    let kept : (last_or z zs == null) ≡ false =
      last_or-mem z zs null (Chain-null n m y (z ∷ zs) more.3) in
    let walked = validate_loop_lem fuel n m x null y (z ∷ zs) 1 more d.1 here refl (omega arith) in
    let (back, ends) = prev_last n m x y (z ∷ zs) more in
    let kept_last = before_last_kept n m y z zs more.3 more.2 in
    let sum : 1 + suc (length zs) + 1 ≡ suc (suc (suc (length zs))) = omega arith in
    let three : (suc (suc (suc (length zs))) == 2) ≡ false = ne→== _ 2 (omega arith) in
    simp (
      w.head,
      w.tail,
      w.count,
      no_prev,
      linked,
      here,
      apart,
      kept,
      more.2,
      walked,
      back,
      ends,
      kept_last,
      ==-self (before_last y z zs),
      sum,
      ==-self (suc (suc (suc (length zs)))),
      three,
    )
