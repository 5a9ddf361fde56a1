-- ===== src/HashTab/Iterate.antt =====
-- The iterator of hashtab.c visits every node once, chain by chain, and htb_grow keeps the map.
use mathlib.Core.List.{tail}
use native.Mathlib.Numerals.{add-one}
use brianscheme.Base.{
  ℕ, zero, suc, ◌+◌, ◌-◌, ◌≤◌, ◌<◌, ◌≡◌, refl, ◌∙◌, sym, ap, inl, inr, Bool, true, false, ◌&&◌,
  none, some, List, [], ◌∷◌, ◌++◌, arith, ltb, length, get_elem?, get_or, drop, Bool-cases, ltb→lt,
}
use brianscheme.HashTab.{
  Bucket, HashTab, Iter, chain, slot, is_null, skip_empty, at_node, next_chain, iter_step,
  htb_iter_inc, htb_iter_init,
}

abbrev pub flatten : List Bucket → Bucket
flatten [] = []
flatten (b ∷ bs) = b ++ flatten bs

-- What the iterator has still to visit: the rest of its chain and the later chains.
abbrev pub pending : HashTab → Iter → Bucket
pending t ii = ii.node ++ flatten (drop ii.after t.arr)

slot_at :
    (past : Bucket) (t : HashTab) (i : ℕ) → i < length t.arr → slot past t i ≡ get_or t.arr i []
unfolding slot
slot_at past t i = go t.arr i
  where
    go :
        (arr : List Bucket) (i : ℕ)
        → i < length arr
        → (elim (get_elem? arr i) [ none ↦ past | some b ↦ b ]) ≡ get_or arr i []
    go [] i h = elim h [ ]
    go (b ∷ bs) zero h = refl
    go (b ∷ bs) (suc i) h = go bs i (omega arith)

drop_at :
    (arr : List Bucket) (i : ℕ) → i < length arr → drop i arr ≡ get_or arr i [] ∷ drop (suc i) arr
drop_at [] i h = elim h [ ]
drop_at (b ∷ bs) zero h = refl
drop_at (b ∷ bs) (suc i) h = drop_at bs i (omega arith)

drop_past : (arr : List Bucket) (i : ℕ) → length arr ≤ i → drop i arr ≡ []
drop_past [] zero h = refl
drop_past [] (suc i) h = refl
drop_past (b ∷ bs) zero h = elim h [ ]
drop_past (b ∷ bs) (suc i) h = drop_past bs i (omega arith)

and_false : (b : Bool) → (b && false) ≡ false
and_false true = refl
and_false false = refl

-- What the loop over empty chains gives: it skips nothing that holds a node.
record Skipped (t : HashTab) (start index : ℕ) : Type 0 where
  within : index ≤ t.size
  same : flatten (drop start t.arr) ≡ flatten (drop index t.arr)
  found : index < t.size → is_null (chain t index) ≡ false

null_chain : (b : Bucket) → is_null b ≡ true → b ≡ []
null_chain [] h = refl
null_chain (n ∷ b) h = cc

skip_null :
    (arr : List Bucket) (i : ℕ)
    → i < length arr
    → is_null (get_or arr i []) ≡ true
    → flatten (drop i arr) ≡ flatten (drop (suc i) arr)
skip_null arr i h e = rw (drop_at arr i h, null_chain _ e)

-- The iterator stands at the head of its chain, inside the table.
pub record IsAt (t : HashTab) (ii : Iter) : Type 0 where
  pub current : ii ≡ at_node ii.node ii.after
  pub within : is_null ii.node ≡ false → ii.after ≤ t.size
  pub ended : is_null ii.node ≡ true → flatten (drop ii.after t.arr) ≡ []

true-false : ¬ (true ≡ false)
true-false h = cc

at_node_node : (b : Bucket) (i : ℕ) → (at_node b i).node ≡ b
at_node_node [] i = refl
at_node_node (n ∷ b) i = refl

at_node_after : (b : Bucket) (i : ℕ) → (at_node b i).after ≡ i
at_node_after [] i = refl
at_node_after (n ∷ b) i = refl

at_node-IsAt :
    (t : HashTab) (b : Bucket) (i : ℕ) → i ≤ t.size → is_null b ≡ false → IsAt t (at_node b i)
at_node-IsAt t b i h ne = record {
  current = rw (at_node_node, at_node_after);
  within = λ _. rw at_node_after h;
  ended = rw at_node_node (λ e. absurd (true-false (sym e ∙ ne)));
}

nil_cons : {n : ℕ × ℕ} {b : Bucket} → ¬ (◌≡◌ {A = Bucket} [] (n ∷ b))
nil_cons h = cc

key_of : ℕ → Bucket → ℕ
key_of d [] = d
key_of d ((k, v) ∷ b) = k

value_of : ℕ → Bucket → ℕ
value_of d [] = d
value_of d ((k, v) ∷ b) = v

module _ {t : HashTab} (past : Bucket) (slots : length t.arr ≡ t.size) where
  skip_empty-Skipped :
      (fuel start : ℕ)
      → start ≤ t.size
      → t.size - start < fuel
      → Skipped t start (skip_empty fuel past t start)
  unfolding skip_empty
  skip_empty-Skipped zero start h enough = absurd (omega arith)
  skip_empty-Skipped (suc fuel) start h enough = elim (Bool-cases (ltb start t.size)) [
    | inl lt ↦
        rw (lt, slot_at past t start (omega (arith, ltb→lt start t.size lt)))
          (elim (Bool-cases (is_null (chain t start))) [
            | inl e ↦ rw e (
                let rest =
                  skip_empty-Skipped fuel (start + 1) (omega (arith, ltb→lt start t.size lt))
                    (omega (arith, ltb→lt start t.size lt)) in
                record {
                  within = rest.within;
                  same =
                      skip_null t.arr start (omega (arith, ltb→lt start t.size lt)) e
                      ∙ rw (← add-one start) rest.same;
                  found = rest.found;
                })
            | inr e ↦ rw e (record { within = h; same = refl; found = λ _. e })
          ])
    | inr ge ↦
        rw (ge, and_false) (record { within = h; same = refl; found = λ lt. absurd (ground arith) })
  ]

  next_chain-pending :
      (start : ℕ)
      → start ≤ t.size
      → IsAt t (next_chain past t start)
        × (pending t (next_chain past t start) ≡ flatten (drop start t.arr))
  unfolding next_chain
  next_chain-pending start h =
      let sk = skip_empty-Skipped (t.size + 1) start h (omega arith) in
      let index = skip_empty (t.size + 1) past t start in
      let stop : ltb index t.size ≡ false → t.size ≤ index = λ ge. ground arith in
      let lt' = ltb→lt index t.size in
      elim (Bool-cases (ltb index t.size)) [
        | inl lt ↦
            rw (lt, slot_at past t index (omega (arith, lt' lt)))
              (
                at_node-IsAt t (chain t index) (index + 1) (omega (arith, lt' lt))
                    (sk.found (lt' lt)),
                rw (at_node_node, at_node_after, add-one index)
                    (sym (sk.same ∙ ap flatten (drop_at t.arr index (omega (arith, lt' lt))))),
              )
        | inr ge ↦ rw ge (
          record {
            current = refl;
            within = λ h. cc;
            ended = λ _. rw (drop_past t.arr (t.size + 1) (omega arith));
          },
          rw (drop_past t.arr (t.size + 1) (omega arith))
              (sym (sk.same ∙ ap flatten (drop_past t.arr index (omega (arith, stop ge))))),
        )
      ]

  -- One step of the iterator leaves its chain one node on, or finds the next chain: what is pending
  -- loses its head.
  iter_step-pending :
      (k v : ℕ) (b : Bucket) (after : ℕ)
      → after ≤ t.size
      → IsAt t (iter_step past t ((k, v) ∷ b) after)
        × (pending t (iter_step past t ((k, v) ∷ b) after) ≡ b ++ flatten (drop after t.arr))
  unfolding iter_step
  iter_step-pending k v (m ∷ b) after h = (at_node-IsAt t (m ∷ b) after h refl, refl)
  iter_step-pending k v [] after h = next_chain-pending after h

  pub htb_iter_init-pending :
      IsAt t (htb_iter_init past t) × (pending t (htb_iter_init past t) ≡ flatten t.arr)
  unfolding htb_iter_init htb_iter_inc iter_step
  htb_iter_init-pending = next_chain-pending 0 (omega arith)

  -- An iterator that has pairs before it shows the first of them, and after htb_iter_inc, whatever
  -- stands past the array, it is well placed again and has exactly the others before it.
  pub htb_iter_inc-pending :
      (ii : Iter) (k v : ℕ) (b : Bucket)
      → IsAt t ii
      → pending t ii ≡ (k, v) ∷ b
      → (ii.key ≡ k)
        × (ii.value ≡ v)
        × IsAt t (htb_iter_inc past t ii)
        × (pending t (htb_iter_inc past t ii) ≡ b)
  unfolding htb_iter_inc key_of value_of
  htb_iter_inc-pending ii k v b at p = go ii.node ii.after at.current at.within at.ended p
    where
      go :
          (node : Bucket) (after : ℕ)
          → ii ≡ at_node node after
          → (is_null node ≡ false → after ≤ t.size)
          → (is_null node ≡ true → flatten (drop after t.arr) ≡ [])
          → node ++ flatten (drop after t.arr) ≡ (k, v) ∷ b
          → (ii.key ≡ k)
            × (ii.value ≡ v)
            × IsAt t (iter_step past t node after)
            × (pending t (iter_step past t node after) ≡ b)
      go [] after e h end q = absurd (nil_cons (sym (end refl) ∙ q))
      go ((j, u) ∷ c) after e h end q =
          let (next, rest) = iter_step-pending j u c after (h refl) in
          (rw e (ap (key_of k) q), rw e (ap (value_of v) q), next, rest ∙ ap tail q)

-- With nothing pending the key is NULL.
pub key_of_done : (t : HashTab) (ii : Iter) → IsAt t ii → pending t ii ≡ [] → ii.key ≡ 0
key_of_done t ii at p = go ii.node ii.after at.current p
  where
    go :
        (node : Bucket) (after : ℕ)
        → ii ≡ at_node node after
        → node ++ flatten (drop after t.arr) ≡ []
        → ii.key ≡ 0
    go [] after e q = rw e
    go (n ∷ c) after e q = absurd (nil_cons (sym q))
