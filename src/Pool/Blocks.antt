-- ===== src/Pool/Blocks.antt =====
-- The blocks of a pool: what pool_dump writes for one, and a round of the loops that load one.
use mathlib.Core.Path.{fun_ext}
use brianscheme.Base.{
  ℕ, zero, suc, ◌+◌, ◌-◌, ◌%◌, ◌^◌, ◌<◌, ◌≤◌, ◌≡◌, refl, ap, ◌∙◌, Bool, true, false, ◌||◌, some,
  List, [], ◌∷◌, ◌++◌, arith, if◌then◌else◌, length, take, drop, replicate, ne→==, ==-self,
  length-append, length-replicate,
}
use brianscheme.Base.Slices.{drop_front}
use brianscheme.Pool.Memory.{
  Memory, bytes_at, put_bytes, little, word_at, within, length-bytes_at, put_bytes_else,
  put_bytes-bytes_at, little-bytes_at, drop-bytes_at,
}
use brianscheme.Pool.Image.{
  Files, word, dump_loop, next_word, padded, load_loop, unpacked, loadz_loop, hdr, first_of_image,
}

pub drop_nil : (k : ℕ) → drop {A = ℕ} k [] ≡ []
drop_nil zero = refl
drop_nil (suc k) = refl

pub drop-drop : (i k : ℕ) (xs : List ℕ) → drop (i + k) xs ≡ drop k (drop i xs)
drop-drop zero k xs = let e : 0 + k ≡ k = omega arith in rw e
drop-drop (suc i) k [] = rw (drop_nil (suc i + k), drop_nil k)
drop-drop (suc i) k (x ∷ xs) =
    let e : suc i + k ≡ suc (i + k) = omega arith in rw e (drop-drop i k xs)

-- A block of whole pages at `b`, with its header and its node.
pub record IsBlock (m : Memory) (b : ℕ) : Type 0 where
  pub sized : word_at m (b + 40) ≡ word_at m b
  pub placed : word_at m (b + 8) ≡ b
  pub starts : word_at m (b + 16) ≡ b
  pub room : 56 ≤ word_at m b
  pub fits : word_at m b < 2 ^ 64
  pub paged : word_at m b % 4096 ≡ 0

-- The nodes from `cur` on are those of the blocks.
abbrev pub IsChain : Memory → ℕ → List ℕ → Type 0
IsChain m cur [] = cur ≡ 0
IsChain m cur (b ∷ bs) = (cur ≡ b + 16) × IsBlock m b × IsChain m (word_at m (b + 48)) bs

-- The system takes and gives all of the block.
pub record IsServed (fs : Files) (m : Memory) (b : ℕ) : Type 0 where
  pub writes : fs.write (word_at m b) ≡ word_at m b
  pub gzwrites : fs.gzwrite (word_at m b) ≡ word_at m b
  pub gzreads : fs.gzread (word_at m b - 16) ≡ word_at m b - 16
  pub maps : (loc : ℕ) → loc % 4096 ≡ 0 → fs.mmap b (word_at m b) loc ≡ true
  pub maps_anon : fs.mmap_anon b (word_at m b) ≡ true

abbrev pub AreServed : Files → Memory → List ℕ → Type 0
AreServed fs m [] = Unit
AreServed fs m (b ∷ bs) = IsServed fs m b × AreServed fs m bs

-- gzip: inflate undoes deflate, and a file starts with 1f 8b.
pub record IsGzip (fs : Files) : Type 0 where
  pub inflated : (level : ℕ) (xs : List ℕ) → fs.inflate (fs.deflate level xs) ≡ xs
  pub magic : (level : ℕ) (xs : List ℕ) → (ys : List ℕ) × (fs.deflate level xs ≡ 31 ∷ 139 ∷ ys)

-- An address in one of the blocks.
abbrev pub held : Memory → List ℕ → ℕ → Bool
held m [] q = false
held m (b ∷ bs) q = within b (word_at m b) q || held m bs q

abbrev pub block_bytes : Memory → ℕ → List ℕ
block_bytes m b = bytes_at m b (word_at m b)

unfoldable pub all_bytes : Memory → List ℕ → List ℕ
all_bytes m [] = []
all_bytes m (b ∷ bs) = block_bytes m b ++ all_bytes m bs

-- `m'` with the blocks of `m` put back in order.
unfoldable pub restored : Memory → List ℕ → Memory → Memory
restored m [] m' = m'
restored m (b ∷ bs) m' = restored m bs (put_bytes m' b (block_bytes m b))

pub restored_lem :
    (m : Memory) (bs : List ℕ) (m' : Memory) (q : ℕ)
    → restored m bs m' q ≡ (if held m bs q then m q else m' q)
unfolding restored
restored_lem m [] m' q = refl
restored_lem m (b ∷ bs) m' q = ground (
  arith,
  restored_lem m bs (put_bytes m' b (block_bytes m b)) q,
  put_bytes-bytes_at m m' b (word_at m b) q,
)

abbrev pub AllTaken : (ℕ → ℕ) → Memory → List ℕ → Type 0
AllTaken taken m [] = Unit
AllTaken taken m (b ∷ bs) = (taken (word_at m b) ≡ word_at m b) × AllTaken taken m bs

abbrev pub AllBlocks : Memory → List ℕ → Type 0
AllBlocks m [] = Unit
AllBlocks m (b ∷ bs) = IsBlock m b × AllBlocks m bs

-- `first` after the loop.
abbrev pub image_start : ℕ → List ℕ → ℕ
image_start first [] = first
image_start first (b ∷ bs) = image_start (first_of_image first b) bs

-- The dump, where each write takes the whole block.
pub dump_loop_lem :
    (taken : ℕ → ℕ) (fuel : ℕ) (m : Memory) (cur : ℕ) (bs : List ℕ)
    → IsChain m cur bs
    → AllTaken taken m bs
    → length bs < fuel
    → dump_loop taken fuel m cur ≡ some (all_bytes m bs)
unfolding dump_loop all_bytes
dump_loop_lem taken zero m cur bs c t h = elim h [ ]
dump_loop_lem taken (suc fuel) m cur [] c t h = rw c
dump_loop_lem taken (suc fuel) m cur (b ∷ bs) c t h =
    let at_size : b + 16 + 24 ≡ b + 40 = omega arith in
    let at_next : b + 16 + 32 ≡ b + 48 = omega arith in
    let rest = dump_loop_lem taken fuel m (word_at m (b + 48)) bs c.2 t.1 (omega arith) in
    rw (c.0, ne→== (b + 16) 0 (omega arith), at_size, at_next, c.1.starts, c.1.sized, t.0, rest)

pub next_word_lem : (xs : List ℕ) → 8 ≤ length xs → next_word xs ≡ word (little 8 xs)
unfolding next_word
next_word_lem [] h = elim h [ ]
next_word_lem (x ∷ xs) h = ground arith

pub next_word-bytes_at :
    (m : Memory) (a n : ℕ) (r : List ℕ)
    → 8 ≤ n
    → next_word (bytes_at m a n ++ r) ≡ word (word_at m a)
unfolding word_at
next_word-bytes_at m a n r h =
    let long : 8 ≤ length (bytes_at m a n ++ r) =
      omega (arith, length-append (bytes_at m a n) r, length-bytes_at m a n) in
    next_word_lem (bytes_at m a n ++ r) long ∙ ap word (little-bytes_at m a 8 n r h)

pub padded-bytes_at :
    (m : Memory) (a n : ℕ) (r : List ℕ) → padded n (bytes_at m a n ++ r) ≡ bytes_at m a n
unfolding padded bytes_at
padded-bytes_at m a zero r = refl
padded-bytes_at m a (suc n) r = ap (λ (xs : List ℕ). m a ∷ xs) (padded-bytes_at m (a + 1) n r)

pub second_word :
    (m : Memory) (b n : ℕ) (r : List ℕ)
    → 16 ≤ n
    → word_at m (b + 8) ≡ b
    → next_word (drop 8 (bytes_at m b n ++ r)) ≡ word b
second_word m b n r h placed =
    rw (drop-bytes_at m b 8 n r (omega arith))
      (next_word-bytes_at m (b + 8) (n - 8) r (omega arith) ∙ ap word placed)

pub take-bytes_at :
    (m : Memory) (a k n : ℕ) (r : List ℕ) → k ≤ n → take k (bytes_at m a n ++ r) ≡ bytes_at m a k
unfolding bytes_at
take-bytes_at m a zero n r h = refl
take-bytes_at m a (suc k) zero r h = elim h [ ]
take-bytes_at m a (suc k) (suc n) r h =
    ap (λ (xs : List ℕ). m a ∷ xs) (take-bytes_at m (a + 1) k n r (omega arith))

-- Zeros, the two words of the header and the rest, one over another, make up the block.
pub put_in_parts :
    (m m' : Memory) (b n q : ℕ)
    → 16 ≤ n
    → put_bytes
        (put_bytes
          (put_bytes (put_bytes m' b (replicate n 0)) b (bytes_at m b 8))
          (b + 8)
          (bytes_at m (b + 8) 8))
        (b + 16)
        (bytes_at m (b + 16) (n - 16))
        q
      ≡ put_bytes m' b (bytes_at m b n) q
put_in_parts m m' b n q h = ground (
  arith,
  put_bytes-bytes_at m
      (put_bytes (put_bytes (put_bytes m' b (replicate n 0)) b (bytes_at m b 8)) (b + 8)
        (bytes_at m (b + 8) 8))
      (b + 16) (n - 16) q,
  put_bytes-bytes_at m (put_bytes (put_bytes m' b (replicate n 0)) b (bytes_at m b 8)) (b + 8) 8 q,
  put_bytes-bytes_at m (put_bytes m' b (replicate n 0)) b 8 q,
  put_bytes-bytes_at m m' b n q,
  put_bytes_else m' b (replicate n 0) q,
  length-replicate {A = ℕ} n 0,
)

pub eight : (m : Memory) (b : ℕ) → IsBlock m b → 8 ≤ word_at m b
eight m b k = omega arith

pub sixteen : (m : Memory) (b : ℕ) → IsBlock m b → 16 ≤ word_at m b
sixteen m b k = omega arith

pub unpacked_lem :
    (fs : Files) (m : Memory) (b : ℕ) (r : List ℕ) (m' : Memory)
    → IsBlock m b
    → fs.gzread (word_at m b - 16) ≡ word_at m b - 16
    → unpacked fs (block_bytes m b ++ r) (word_at m b) b m'
      ≡ (bytes_at m (b + 16) (word_at m b - 16), put_bytes m' b (block_bytes m b))
unfolding unpacked
unpacked_lem fs m b r m' k reads =
    let n = word_at m b in
    let amt : (n + (2 ^ 64 - hdr)) % 2 ^ 64 ≡ n - 16 = omega arith in
    rw
      (
        amt,
        reads,
        drop-bytes_at m b 16 n r (sixteen m b k),
        drop-bytes_at m b 8 n r (eight m b k),
        take-bytes_at m (b + 16) (n - 16) (n - 16) r (omega arith),
        take-bytes_at m b 8 n r (eight m b k),
        take-bytes_at m (b + 8) 8 (n - 8) r (omega arith),
      )
      (ap (λ (mem : Memory). (bytes_at m (b + 16) (n - 16), mem))
        (fun_ext λ q. put_in_parts m m' b n q (sixteen m b k)))

-- A round of load_loop: the file from `pos` on starts with the block.
pub load_loop_step :
    (fs : Files) (m : Memory) (b : ℕ) (file r : List ℕ) (fuel first loc : ℕ) (m' : Memory)
    → IsBlock m b
    → fs.mmap b (word_at m b) loc ≡ true
    → drop loc file ≡ block_bytes m b ++ r
    → load_loop fs file (suc fuel) first loc loc m'
      ≡ load_loop fs file fuel
          (first_of_image first b)
          (loc + word_at m b)
          (loc + word_at m b)
          (put_bytes m' b (block_bytes m b))
unfolding load_loop
load_loop_step fs m b file r fuel first loc m' k maps at =
    let n = word_at m b in
    let read_size : next_word (drop loc file) ≡ word n =
      rw at (next_word-bytes_at m b n r (omega arith)) in
    let read_address : next_word (drop (loc + 8) file) ≡ word b =
      rw (drop-drop loc 8 file, at) (second_word m b n r (omega arith) k.placed) in
    let shown : padded n (drop loc file) ≡ bytes_at m b n = rw at (padded-bytes_at m b n r) in
    rw (read_size, load_loop, read_address, maps, shown)

pub loadz_loop_step :
    (fs : Files) (m : Memory) (b : ℕ) (r : List ℕ) (fuel first : ℕ) (m' : Memory)
    → IsBlock m b
    → IsServed fs m b
    → loadz_loop fs (suc fuel) first (block_bytes m b ++ r) m'
      ≡ loadz_loop fs fuel (first_of_image first b) r (put_bytes m' b (block_bytes m b))
unfolding loadz_loop
loadz_loop_step fs m b r fuel first m' k served =
    let n = word_at m b in
    let read_size = next_word-bytes_at m b n r (eight m b k) in
    let read_address = second_word m b n r (sixteen m b k) k.placed in
    let amt : (n + (2 ^ 64 - hdr)) % 2 ^ 64 ≡ n - 16 = omega arith in
    let rest : drop (n - 16) (bytes_at m (b + 16) (n - 16) ++ r) ≡ r =
      rw (length-bytes_at m (b + 16) (n - 16)) at (drop_front (bytes_at m (b + 16) (n - 16)) r) in
    rw
      (
        read_size,
        loadz_loop,
        read_address,
        served.maps_anon,
        unpacked_lem fs m b r m' k served.gzreads,
        amt,
        length-bytes_at m (b + 16) (n - 16),
        ==-self (n - 16),
        drop-bytes_at m b 16 n r (sixteen m b k),
      )
      (rw (unpacked_lem fs m b r m' k served.gzreads, length-bytes_at m (b + 16) (n - 16), rest))
