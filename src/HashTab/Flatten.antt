-- ===== src/HashTab/Flatten.antt =====
-- All nodes of a table of hashtab.c in one list: distinct, no NULL key, and searched like the table.
use brianscheme.Base.{
  ℕ, suc, ◌+◌, ◌-◌, ◌≤◌, ◌<◌, ◌≡◌, ◌≢◌, refl, ◌∙◌, ◌⊎◌, inl, inr, true, false, List, [], ◌∷◌, ◌++◌,
  arith, ◌==◌, if◌then◌else◌, get_or, Bool-cases, ==→eq, ==-self,
}
use brianscheme.HashTab.{Bucket, HashTab, htb_hash, find_node, htb_search}
use brianscheme.HashTab.Buckets.{Absent, IsDistinct, HashesTo, NoNull, find-Absent}
use brianscheme.HashTab.Count.{has_key}
use brianscheme.HashTab.Table.{IsTable}
use brianscheme.HashTab.Iterate.{flatten}

-- Chain number `i` of the list holds distinct keys that hash to `s + i`.
abbrev Placed : ℕ → ℕ → List Bucket → Type 0
Placed size s [] = Unit
Placed size s (b ∷ bs) = HashesTo size s b × IsDistinct b × NoNull b × Placed size (suc s) bs

Placed-of :
    (size : ℕ) (bs : List Bucket) (s : ℕ)
    → ((i : ℕ) → HashesTo size (s + i) (get_or bs i []))
    → ((i : ℕ) → IsDistinct (get_or bs i []))
    → ((i : ℕ) → NoNull (get_or bs i []))
    → Placed size s bs
Placed-of size [] s h d n = tt
Placed-of size (b ∷ bs) s h d n = (
  let e : s + 0 ≡ s = omega arith in rw e at (h 0),
  d 0,
  n 0,
  Placed-of size bs (suc s)
      (λ i. let e : s + suc i ≡ suc s + i = omega arith in rw e at (h (suc i))) (λ i. d (suc i))
      (λ i. n (suc i)),
)

find_append :
    (b c : Bucket) (j : ℕ)
    → find_node (b ++ c) j ≡ (if has_key b j then find_node b j else find_node c j)
unfolding find_node
find_append [] c j = refl
find_append ((k, v) ∷ b) c j = ground (arith, find_append b c j)

has_of_hash :
    (size i : ℕ) (b : Bucket) (j : ℕ) → HashesTo size i b → htb_hash j size ≢ i → Absent j b
has_of_hash size i [] j h ne = tt
has_of_hash size i ((k, v) ∷ b) j h ne =
    (ground (arith, ==→eq k j, h.0), has_of_hash size i b j h.1 ne)

pub has-Absent : (b : Bucket) (j : ℕ) → Absent j b → has_key b j ≡ false
has-Absent [] j h = refl
has-Absent ((k, v) ∷ b) j h = rw (h.0, has-Absent b j h.1)

Absent-of_not : (b : Bucket) (j : ℕ) → has_key b j ≡ false → Absent j b
Absent-of_not [] j h = tt
Absent-of_not ((k, v) ∷ b) j h = ground (arith, Absent-of_not b j)

Absent-append : (b c : Bucket) (j : ℕ) → Absent j b → Absent j c → Absent j (b ++ c)
Absent-append [] c j hb hc = hc
Absent-append ((k, v) ∷ b) c j hb hc = (hb.0, Absent-append b c j hb.1 hc)

-- A key that hashes below the first chain is in none.
Absent-flatten :
    (size : ℕ) (bs : List Bucket) (s j : ℕ)
    → Placed size s bs
    → htb_hash j size < s
    → Absent j (flatten bs)
Absent-flatten size [] s j h lt = tt
Absent-flatten size (b ∷ bs) s j h lt =
    Absent-append b (flatten bs) j (has_of_hash size s b j h.0 (λ e. absurd (omega arith)))
      (Absent-flatten size bs (suc s) j h.3 (omega arith))

hash_of_has :
    (size i : ℕ) (b : Bucket) (j : ℕ) → HashesTo size i b → has_key b j ≡ true → htb_hash j size ≡ i
hash_of_has size i [] j h e = cc
hash_of_has size i ((k, v) ∷ b) j h e = ground (arith, ==→eq k j, hash_of_has size i b j h.1)

find-flatten_at :
    (size : ℕ) (bs : List Bucket) (s j : ℕ)
    → Placed size s bs
    → s ≤ htb_hash j size
    → find_node (flatten bs) j ≡ find_node (get_or bs (htb_hash j size - s) []) j
find-flatten_at size [] s j h le = refl
find-flatten_at size (b ∷ bs) s j h le =
    rw (find_append b (flatten bs) j) (elim (Bool-cases (htb_hash j size == s)) [
      | inl e ↦
          let here : htb_hash j size - s ≡ 0 = omega (arith, ==→eq (htb_hash j size) s e) in
          let later =
            Absent-flatten size bs (suc s) j h.3 (omega (arith, ==→eq (htb_hash j size) s e)) in
          rw here (in_chain (Bool-cases (has_key b j)) later)
      | inr e ↦
          let ne : htb_hash j size ≢ s = λ q. absurd (ground arith) in
          let next : htb_hash j size - s ≡ suc (htb_hash j size - suc s) = omega arith in
          rw (next, has-Absent b j (has_of_hash size s b j h.0 ne))
            (find-flatten_at size bs (suc s) j h.3 (omega arith))
    ])
  where
    in_chain :
        (has_key b j ≡ true) ⊎ (has_key b j ≡ false)
        → Absent j (flatten bs)
        → (if has_key b j then find_node b j else find_node (flatten bs) j) ≡ find_node b j
    in_chain (inl e) later = rw e
    in_chain (inr e) later =
        rw (e, find-Absent (flatten bs) j later, find-Absent b j (Absent-of_not b j e))

IsDistinct-append :
    (b c : Bucket)
    → IsDistinct b
    → IsDistinct c
    → ((k : ℕ) → has_key b k ≡ true → Absent k c)
    → IsDistinct (b ++ c)
IsDistinct-append [] c hb hc apart = hc
IsDistinct-append ((k, v) ∷ b) c hb hc apart = (
  Absent-append b c k hb.0 (apart k (rw (==-self k))),
  IsDistinct-append b c hb.1 hc (λ j e. apart j (ground arith)),
)

NoNull-append : (b c : Bucket) → NoNull b → NoNull c → NoNull (b ++ c)
NoNull-append [] c hb hc = hc
NoNull-append ((k, v) ∷ b) c hb hc = (hb.0, NoNull-append b c hb.1 hc)

IsDistinct-flatten_at :
    (size : ℕ) (bs : List Bucket) (s : ℕ) → Placed size s bs → IsDistinct (flatten bs)
IsDistinct-flatten_at size [] s h = tt
IsDistinct-flatten_at size (b ∷ bs) s h =
    IsDistinct-append b (flatten bs) h.1 (IsDistinct-flatten_at size bs (suc s) h.3)
      λ k e. Absent-flatten size bs (suc s) k h.3 (omega (arith, hash_of_has size s b k h.0 e))

NoNull-flatten_at : (size : ℕ) (bs : List Bucket) (s : ℕ) → Placed size s bs → NoNull (flatten bs)
NoNull-flatten_at size [] s h = tt
NoNull-flatten_at size (b ∷ bs) s h =
    NoNull-append b (flatten bs) h.2 (NoNull-flatten_at size bs (suc s) h.3)

module _ {t : HashTab} (w : IsTable t) where
  placed : Placed t.size 0 t.arr
  placed =
      Placed-of t.size t.arr 0 (λ i. let e : 0 + i ≡ i = omega arith in rw e (w.placed i))
        w.distinct w.no_null

  pub IsDistinct-flatten : IsDistinct (flatten t.arr)
  IsDistinct-flatten = IsDistinct-flatten_at t.size t.arr 0 placed

  pub NoNull-flatten : NoNull (flatten t.arr)
  NoNull-flatten = NoNull-flatten_at t.size t.arr 0 placed

  pub find-flatten : (j : ℕ) → find_node (flatten t.arr) j ≡ htb_search t j
  unfolding htb_search
  find-flatten j =
      let e : htb_hash j t.size - 0 ≡ htb_hash j t.size = omega arith in
      find-flatten_at t.size t.arr 0 j placed (omega arith) ∙ rw e
