-- ===== src/Pool/Memory.antt =====
-- The bytes of the process's memory, and the 8-byte words that pool.c reads and writes through
-- pointers. The least significant byte comes first.
use mathlib.Core.Path.{ap₂}
use brianscheme.Base.{
  ℕ, zero, suc, ◌+◌, ◌-◌, ◌*◌, ◌/◌, ◌%◌, ◌^◌, ◌<◌, ◌≤◌, ◌≡◌, refl, ap, ◌∙◌, ◌⊎◌, List, [], ◌∷◌,
  ◌++◌, Bool, ◌&&◌, arith, leb, ltb, ◌==◌, if◌then◌else◌, length, drop, ==→eq, ==-self, ne→==,
}

abbrev pub Memory : Type 0
Memory = ℕ → ℕ

-- n bytes from an address on.
unfoldable pub bytes_at : Memory → ℕ → ℕ → List ℕ
bytes_at m a zero = []
bytes_at m a (suc n) = m a ∷ bytes_at m (a + 1) n

-- memcpy of bytes to an address.
unfoldable pub put_bytes : Memory → ℕ → List ℕ → Memory
put_bytes m a [] = m
put_bytes m a (b ∷ bs) = λ q. if q == a then b else put_bytes m (a + 1) bs q

-- The number that the first k bytes stand for.
unfoldable pub little : ℕ → List ℕ → ℕ
little zero bs = 0
little (suc k) [] = 0
little (suc k) (b ∷ bs) = b + 256 * little k bs

unfoldable pub word_bytes : ℕ → ℕ → List ℕ
word_bytes zero v = []
word_bytes (suc k) v = v % 256 ∷ word_bytes k (v / 256)

unfoldable pub word_at : Memory → ℕ → ℕ
word_at m a = little 8 (bytes_at m a 8)

unfoldable pub put_word : Memory → ℕ → ℕ → Memory
put_word m a v = put_bytes m a (word_bytes 8 v)

abbrev pub within : ℕ → ℕ → ℕ → Bool
within a n q = leb a q && ltb q (a + n)

pub length-bytes_at : (m : Memory) (a n : ℕ) → length (bytes_at m a n) ≡ n
unfolding bytes_at
length-bytes_at m a zero = refl
length-bytes_at m a (suc n) = ap suc (length-bytes_at m (a + 1) n)

pub length-word_bytes : (k v : ℕ) → length (word_bytes k v) ≡ k
unfolding word_bytes
length-word_bytes zero v = refl
length-word_bytes (suc k) v = ap suc (length-word_bytes k (v / 256))

-- Bytes outside those written stay.
pub put_bytes_else :
    (m : Memory) (a : ℕ) (bs : List ℕ) (q : ℕ)
    → (q < a) ⊎ (a + length bs ≤ q)
    → put_bytes m a bs q ≡ m q
unfolding put_bytes
put_bytes_else m a [] q h = refl
put_bytes_else m a (b ∷ bs) q h = ground (arith, put_bytes_else m (a + 1) bs q)

-- A copy of the bytes of another memory holds them.
pub put_bytes-bytes_at :
    (m m' : Memory) (a n q : ℕ)
    → put_bytes m' a (bytes_at m a n) q ≡ (if within a n q then m q else m' q)
unfolding put_bytes bytes_at
put_bytes-bytes_at m m' a zero q = ground arith
put_bytes-bytes_at m m' a (suc n) q = ground (arith, put_bytes-bytes_at m m' (a + 1) n q, ==→eq q a)

-- Bytes are read from their own addresses only.
pub bytes_at_eq :
    (m m' : Memory) (a n : ℕ)
    → ((q : ℕ) → a ≤ q → q < a + n → m q ≡ m' q)
    → bytes_at m a n ≡ bytes_at m' a n
unfolding bytes_at
bytes_at_eq m m' a zero h = refl
bytes_at_eq m m' a (suc n) h =
    ap₂ (λ (x : ℕ) (xs : List ℕ). x ∷ xs) (h a (omega arith) (omega arith))
      (bytes_at_eq m m' (a + 1) n (λ q lo hi. h q (omega arith) (omega arith)))

-- The bytes read back are the bytes put.
pub bytes_at-put_bytes :
    (m : Memory) (a : ℕ) (bs : List ℕ) → bytes_at (put_bytes m a bs) a (length bs) ≡ bs
unfolding put_bytes bytes_at
bytes_at-put_bytes m a [] = refl
bytes_at-put_bytes m a (b ∷ bs) =
    let stays =
      bytes_at_eq (put_bytes m a (b ∷ bs)) (put_bytes m (a + 1) bs) (a + 1) (length bs)
        (λ q lo hi. rw (ne→== q a (omega arith)) refl) in
    ap₂ (λ (x : ℕ) (xs : List ℕ). x ∷ xs) (rw (==-self a) refl)
      (stays ∙ bytes_at-put_bytes m (a + 1) bs)

pub little-word_bytes : (k v : ℕ) → v < 256 ^ k → little k (word_bytes k v) ≡ v
unfolding little word_bytes
little-word_bytes zero v h = omega arith
little-word_bytes (suc k) v h =
    let rest = little-word_bytes k (v / 256) (omega arith) in omega (arith, rest)

pub little-bytes_at :
    (m : Memory) (a k n : ℕ) (r : List ℕ)
    → k ≤ n
    → little k (bytes_at m a n ++ r) ≡ little k (bytes_at m a k)
unfolding little bytes_at
little-bytes_at m a zero n r h = refl
little-bytes_at m a (suc k) zero r h = elim h [ ]
little-bytes_at m a (suc k) (suc n) r h =
    ap (λ (x : ℕ). m a + 256 * x) (little-bytes_at m (a + 1) k n r (omega arith))

pub drop-bytes_at :
    (m : Memory) (a k n : ℕ) (r : List ℕ)
    → k ≤ n
    → drop k (bytes_at m a n ++ r) ≡ bytes_at m (a + k) (n - k) ++ r
unfolding bytes_at
drop-bytes_at m a zero n r h =
    let e : a + 0 ≡ a = omega arith in let f : n - 0 ≡ n = omega arith in rw (e, f)
drop-bytes_at m a (suc k) zero r h = elim h [ ]
drop-bytes_at m a (suc k) (suc n) r h =
    let e : a + suc k ≡ a + 1 + k = omega arith in
    let f : suc n - suc k ≡ n - k = omega arith in
    rw (e, f) (drop-bytes_at m (a + 1) k n r (omega arith))

-- A word is read from its own bytes only.
pub word_at_eq :
    (m m' : Memory) (a : ℕ)
    → ((q : ℕ) → a ≤ q → q < a + 8 → m q ≡ m' q)
    → word_at m a ≡ word_at m' a
unfolding word_at
word_at_eq m m' a h = ap (little 8) (bytes_at_eq m m' a 8 h)

pub word_at-put_word : (m : Memory) (a v : ℕ) → v < 2 ^ 64 → word_at (put_word m a v) a ≡ v
unfolding word_at put_word
word_at-put_word m a v h =
    let read = bytes_at-put_bytes m a (word_bytes 8 v) in
    let eight = rw (length-word_bytes 8 v) at read in
    ap (little 8) eight ∙ little-word_bytes 8 v (omega arith)

-- A word stays where another is put beside it.
pub word_at-put_word_else :
    (m : Memory) (a b v : ℕ) → (a + 8 ≤ b) ⊎ (b + 8 ≤ a) → word_at (put_word m b v) a ≡ word_at m a
unfolding put_word
word_at-put_word_else m a b v h =
    word_at_eq (put_word m b v) m a
      λ q lo hi. put_bytes_else m b (word_bytes 8 v) q (omega (arith, length-word_bytes 8 v))
