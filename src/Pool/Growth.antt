-- ===== src/Pool/Growth.antt =====
-- pool.c: the subpools that pool_alloc adds, each twice as large as the one before, serve every
-- request in the end.
use native.Mathlib.Nat.{pow-suc}
use brianscheme.Base.{
  ℕ, zero, suc, ◌+◌, ◌-◌, ◌*◌, ◌%◌, ◌^◌, ◌<◌, ◌≤◌, ◌≡◌, ◌≢◌, ◌⊎◌, inl, inr, refl, ◌∙◌, Bool, true,
  false, Option, none, some, ◌==◌, arith, Bool-cases, ne→==,
}
use brianscheme.Pool.Memory.{Memory, put_word, within, word_at-put_word, word_at-put_word_else}
use brianscheme.Pool.Image.{size}
use brianscheme.Pool.Alloc.{
  Tlsf, System, World, Outcome, exited, returned, aligned, free_start, free_end, last_node,
  init_node, create_subpool_node, grown, pool_alloc, pool_scale,
}

doubled_once : (s k : ℕ) → s * 2 ^ suc k ≡ s * 2 * 2 ^ k
doubled_once s k = let e : 2 ^ suc k ≡ 2 ^ k * 2 = pow-suc 2 k in rw e (omega arith)

le-doubled : (s k : ℕ) → s ≤ s * 2 ^ k
le-doubled s zero = omega arith
le-doubled s (suc k) = omega (arith, le-doubled (s * 2) k, doubled_once s k)

ne_of_test : (a : ℕ) → (a == 0) ≡ false → a ≢ 0
ne_of_test a h = ground arith

aligned-le : (amount : ℕ) → amount ≤ 2 ^ 63 → aligned amount ≤ 2 ^ 63
unfolding aligned
aligned-le amount h = omega arith

aligned-aligned : (amount : ℕ) → amount ≤ 2 ^ 63 → aligned (aligned amount) ≡ aligned amount
unfolding aligned
aligned-aligned amount h = omega arith

-- The members of a new node.
pub record IsNode (m : Memory) (block n : ℕ) : Type 0 where
  pub starts : free_start m (block + 16) ≡ block + 56
  pub ends : free_end m (block + 16) ≡ block + n
  pub sized : size m (block + 16) ≡ n

pub init_node-IsNode :
    (block n : ℕ) (m : Memory) → block + n < 2 ^ 64 → 56 ≤ n → IsNode (init_node block n m) block n
unfolding init_node
init_node-IsNode block n m fits room = record {
  starts =
      word_at-put_word_else _ _ (block + 16 + 32) 0 (inl (omega arith))
      ∙ word_at-put_word_else _ _ (block + 16 + 24) n (inl (omega arith))
      ∙ word_at-put_word_else _ _ (block + 16 + 16) (block + n) (inl (omega arith))
      ∙ word_at-put_word _ (block + 16 + 8) (block + 16 + 40) (omega arith)
      ∙ omega arith;
  ends =
      word_at-put_word_else _ _ (block + 16 + 32) 0 (inl (omega arith))
      ∙ word_at-put_word_else _ _ (block + 16 + 24) n (inl (omega arith))
      ∙ word_at-put_word _ (block + 16 + 16) (block + n) fits;
  sized =
      word_at-put_word_else _ _ (block + 16 + 32) 0 (inl (omega arith))
      ∙ word_at-put_word _ (block + 16 + 24) n (omega arith);
}

-- A word put outside the block leaves the members.
IsNode-put_word :
    (m : Memory) (block n a v : ℕ)
    → 56 ≤ n
    → IsNode m block n
    → (a + 8 ≤ block) ⊎ (block + n ≤ a)
    → IsNode (put_word m a v) block n
IsNode-put_word m block n a v room k apart = record {
  starts = word_at-put_word_else m (block + 16 + 8) a v (ground arith) ∙ k.starts;
  ends = word_at-put_word_else m (block + 16 + 16) a v (ground arith) ∙ k.ends;
  sized = word_at-put_word_else m (block + 16 + 24) a v (ground arith) ∙ k.sized;
}

-- A mapping is new: it shares no address with what is mapped already.
pub record IsMmap {O : Type 0} (sys : System O) (mapped : O → ℕ → Bool) : Type 0 where
  pub fresh :
      (n : ℕ) (os : O) (block : ℕ) (os' : O)
      → sys.mmap n os ≡ some (block, os')
      → (q : ℕ) → mapped os q ≡ true
      → (q < block) ⊎ (block + n ≤ q)
  pub maps :
      (n : ℕ) (os : O) (block : ℕ) (os' : O)
      → sys.mmap n os ≡ some (block, os')
      → (q : ℕ) → (mapped os q ≡ true) ⊎ (within block n q ≡ true)
      → mapped os' q ≡ true
  pub fits :
      (n : ℕ) (os : O) (block : ℕ) (os' : O)
      → sys.mmap n os ≡ some (block, os')
      → block + n < 2 ^ 64

-- An area of `needs n` bytes serves a request for n.
pub record IsTlsf {A : Type 0} (tlsf : Tlsf A) (needs : ℕ → ℕ) (largest : ℕ) : Type 0 where
  pub serves :
      (n start len : ℕ) (h : A)
      → needs n ≤ len
      → len ≤ largest
      → (tlsf.malloc_ex n (tlsf.add_new_area start len h)).0 ≢ 0

-- Every byte of a word is mapped.
abbrev pub WordMapped : (ℕ → Bool) → ℕ → Type 0
WordMapped mapped a = (i : ℕ) → i < 8 → mapped (a + i) ≡ true

-- The pool's member and its last node's are mapped.
pub record IsReady {O : Type 0} (mapped : O → ℕ → Bool) (os : O) (m : Memory) (pool : ℕ)
    : Type 0 where
  pub member : WordMapped (mapped os) (pool + 8)
  pub linked : WordMapped (mapped os) (last_node m pool + 32)

-- A mapped word lies before a new block or behind it.
word_apart :
    (mapped : ℕ → Bool) (a block n : ℕ)
    → 8 ≤ n
    → WordMapped mapped a
    → ((q : ℕ) → mapped q ≡ true → (q < block) ⊎ (block + n ≤ q))
    → (a + 8 ≤ block) ⊎ (block + n ≤ a)
word_apart mapped a block n room all fresh = elim (fresh (a + 0) (all 0 (omega arith))) [
  | inr behind ↦ inr (omega arith)
  | inl before ↦ elim (fresh (a + 7) (all 7 (omega arith))) [
    | inl before' ↦ inl (omega arith)
    | inr behind ↦ absurd (omega arith)
  ]
]

-- An address for the request, or the exit of new_mmap.
abbrev pub IsAnswered : {A O : Type 0} → Option (Outcome A O) → Type 0
IsAnswered none = ⊥
IsAnswered (some exited) = Unit
IsAnswered (some (returned p w)) = p ≢ 0

module _ {A O : Type 0} (tlsf : Tlsf A) (sys : System O) (mapped : O → ℕ → Bool)
    (mmaps : IsMmap sys mapped) where
  -- What a new subpool of twice the size makes of the world.
  pub record IsGrown (w w'' : World A O) (pool s : ℕ) : Type 0 where
    pub ready : IsReady mapped w''.os w''.memory pool
    pub doubled : size w''.memory (last_node w''.memory pool) ≡ s * 2
    pub start : ℕ
    pub area : w''.heap ≡ tlsf.add_new_area start (s * 2 - 56) w.heap

  grown_lem :
      (w : World A O) (pool s : ℕ)
      → IsReady mapped w.os w.memory pool
      → size w.memory (last_node w.memory pool) ≡ s
      → 28 ≤ s
      → s * 2 < 2 ^ 64
      → (grown tlsf sys w pool ≡ none)
        ⊎ ((w'' : World A O) × (grown tlsf sys w pool ≡ some w'') × IsGrown w w'' pool s)
  unfolding grown create_subpool_node
  grown_lem w pool s ready sized low high = go (sys.mmap (s * 2) w.os) refl
    where
      last : ℕ
      last = last_node w.memory pool

      amount : size w.memory last * pool_scale % 2 ^ 64 ≡ s * 2
      amount = rw sized (omega arith)

      go :
          (r : Option (ℕ × O))
          → sys.mmap (s * 2) w.os ≡ r
          → (grown tlsf sys w pool ≡ none)
            ⊎ ((w'' : World A O) × (grown tlsf sys w pool ≡ some w'') × IsGrown w w'' pool s)
      go none e = inl (rw (amount, e))
      go (some (block, os')) e = inr (w₂, rw (amount, e, node.starts, node.ends, left) refl, result)
        where
          m₁ : Memory
          m₁ = put_word (init_node block (s * 2) w.memory) (last + 32) (block + 16)

          m₂ : Memory
          m₂ = put_word m₁ (pool + 8) (block + 16)

          apart : (a : ℕ) → WordMapped (mapped w.os) a → (a + 8 ≤ block) ⊎ (block + s * 2 ≤ a)
          apart a all =
              word_apart (mapped w.os) a block (s * 2) (omega arith) all
                (mmaps.fresh (s * 2) w.os block os' e)

          fits : block + s * 2 < 2 ^ 64
          fits = mmaps.fits (s * 2) w.os block os' e

          node : IsNode m₂ block (s * 2)
          node =
              IsNode-put_word m₁ block (s * 2) (pool + 8) (block + 16) (omega arith)
                (IsNode-put_word _ block (s * 2) (last + 32) (block + 16) (omega arith)
                  (init_node-IsNode block (s * 2) w.memory fits (omega arith))
                  (apart (last + 32) ready.linked))
                (apart (pool + 8) ready.member)

          left : block + s * 2 - (block + 56) ≡ s * 2 - 56
          left = omega arith

          w₂ : World A O
          w₂ = record {
            memory = m₂;
            heap = tlsf.add_new_area (block + 56) (s * 2 - 56) w.heap;
            os = os';
          }

          here : last_node m₂ pool ≡ block + 16
          here = word_at-put_word m₁ (pool + 8) (block + 16) (omega (arith, fits))

          covers :
              (q : ℕ)
              → (mapped w.os q ≡ true) ⊎ (within block (s * 2) q ≡ true)
              → mapped os' q ≡ true
          covers = mmaps.maps (s * 2) w.os block os' e

          linked : WordMapped (mapped os') (last_node m₂ pool + 32)
          linked = rw here (λ i h. covers (block + 16 + 32 + i) (inr (ground arith)))

          result : IsGrown w w₂ pool s
          result = record {
            ready = record {
              member = λ i h. covers (pool + 8 + i) (inl (ready.member i h));
              linked = linked;
            };
            doubled = rw here node.sized;
            start = block + 56;
            area = refl;
          }

  module _ (needs : ℕ → ℕ) (largest : ℕ) (serving : IsTlsf tlsf needs largest) where
    -- A call in which malloc_ex succeeds.
    served_at_once :
        (fuel : ℕ) (w : World A O) (pool amount : ℕ)
        → (tlsf.malloc_ex (aligned amount) w.heap).0 ≢ 0
        → IsAnswered (pool_alloc tlsf sys (suc fuel) w pool amount)
    unfolding pool_alloc
    served_at_once fuel w pool amount h =
        rw (ne→== (tlsf.malloc_ex (aligned amount) w.heap).0 0 h) h

    -- One in which it fails is a call in the world with one more subpool.
    served_grown :
        (fuel : ℕ) (w : World A O) (pool amount s : ℕ)
        → IsReady mapped w.os w.memory pool
        → size w.memory (last_node w.memory pool) ≡ s
        → 28 ≤ s
        → s * 2 < 2 ^ 64
        → ((w'' : World A O) (h : A)
            → IsGrown (record w { heap = h }) w'' pool s
            → IsAnswered (pool_alloc tlsf sys fuel w'' pool (aligned amount)))
        → IsAnswered (pool_alloc tlsf sys (suc fuel) w pool amount)
    unfolding pool_alloc
    served_grown fuel w pool amount s ready sized low high rest =
        elim (Bool-cases ((tlsf.malloc_ex (aligned amount) w.heap).0 == 0)) [
          | inr found ↦ rw found (ne_of_test _ found)
          | inl failed ↦
              rw failed
                (elim (grown_lem (record w { heap = (tlsf.malloc_ex (aligned amount) w.heap).1 })
                  pool s ready sized low high) [
                    | inl exits ↦ rw (exits, pool_alloc) tt
                    | inr (w'', more, grows) ↦ rw (more, pool_alloc) (rest w'' _ grows)
                  ])
        ]

    -- pool_alloc, on a request of at most 2 ^ 63 bytes, ends after at most k + 2 calls of malloc_ex,
    -- with an address or with the exit of new_mmap, if the last subpool doubled k + 1 times has room
    -- for what serves the request and is no larger than the allocator takes. The pool's own member
    -- and the last node are mapped memory, and mmap gives new memory.
    pub pool_alloc_total :
        (k : ℕ) (w : World A O) (pool amount s : ℕ)
        → IsReady mapped w.os w.memory pool
        → size w.memory (last_node w.memory pool) ≡ s
        → 28 ≤ s
        → amount ≤ 2 ^ 63
        → needs (aligned amount) + 56 ≤ s * 2 ^ suc k
        → s * 2 ^ suc k ≤ largest
        → largest < 2 ^ 64
        → IsAnswered (pool_alloc tlsf sys (suc (suc k)) w pool amount)
    pool_alloc_total zero w pool amount s ready sized low small enough room large =
        served_grown 1 w pool amount s ready sized low (omega arith) λ w'' h grows.
          served_at_once 0 w'' pool (aligned amount) (
            rw (aligned-aligned amount small, grows.area)
              (serving.serves (aligned amount) grows.start (s * 2 - 56) h (omega arith)
                (omega arith)))
    pool_alloc_total (suc k) w pool amount s ready sized low small enough room large =
        served_grown (suc (suc k)) w pool amount s ready sized low
          (omega (arith, le-doubled (s * 2) (suc k), doubled_once s (suc k)))
          λ w'' h grows.
            pool_alloc_total k w'' pool (aligned amount) (s * 2) grows.ready grows.doubled
              (omega arith) (aligned-le amount small)
              (rw (aligned-aligned amount small, ← doubled_once s (suc k)) enough)
              (rw (← doubled_once s (suc k)) room) large
