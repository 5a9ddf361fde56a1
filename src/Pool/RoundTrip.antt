-- ===== src/Pool/RoundTrip.antt =====
-- pool.c: what pool_load makes of what pool_dump wrote, block by block.
use brianscheme.Base.{
  ℕ, zero, suc, ◌+◌, ◌%◌, ◌<◌, ◌≤◌, ◌≡◌, ◌≢◌, refl, ◌∙◌, true, false, some, List, [], ◌∷◌, ◌++◌,
  arith, ◌==◌, if◌then◌else◌, length, drop, ne→==, Bool-cases, length-append, inl, inr,
}
use brianscheme.Base.Slices.{drop_front}
use brianscheme.Pool.Memory.{
  Memory, bytes_at, put_bytes, little, word_at, length-bytes_at, little-bytes_at,
}
use brianscheme.Pool.Image.{
  Files, written, pools, pool_dump, next_word, load_loop, loadz_loop, pool_loadz, zheader,
  pool_load, hdr, first_of_image, finish,
}
use brianscheme.Pool.Blocks.{
  drop-drop, IsBlock, IsChain, AreServed, IsGzip, held, block_bytes, all_bytes, restored,
  restored_lem, AllTaken, AllBlocks, image_start, dump_loop_lem, eight, load_loop_step,
  loadz_loop_step,
}

drop_block : (m : Memory) (b : ℕ) (r : List ℕ) → drop (word_at m b) (block_bytes m b ++ r) ≡ r
drop_block m b r =
    rw (length-bytes_at m b (word_at m b)) at (drop_front (bytes_at m b (word_at m b)) r)

load_loop_ended :
    (fs : Files) (file : List ℕ) (fuel first loc : ℕ) (m' : Memory)
    → drop loc file ≡ []
    → load_loop fs file (suc fuel) first loc loc m' ≡ finish first m'
unfolding load_loop next_word
load_loop_ended fs file fuel first loc m' at = rw (at, load_loop)

-- The loops, over a file that ends with the blocks.
load_loop_blocks :
    (fs : Files) (m : Memory) (bs : List ℕ) (file : List ℕ) (fuel first loc : ℕ) (m' : Memory)
    → AllBlocks m bs
    → AreServed fs m bs
    → loc % 4096 ≡ 0
    → drop loc file ≡ all_bytes m bs
    → length bs < fuel
    → load_loop fs file fuel first loc loc m' ≡ finish (image_start first bs) (restored m bs m')
unfolding all_bytes restored
load_loop_blocks fs m bs file zero first loc m' ks served paged at h = elim h [ ]
load_loop_blocks fs m [] file (suc fuel) first loc m' ks served paged at h =
    load_loop_ended fs file fuel first loc m' at
load_loop_blocks fs m (b ∷ bs) file (suc fuel) first loc m' ks served paged at h =
    let n = word_at m b in
    load_loop_step fs m b file (all_bytes m bs) fuel first loc m' ks.0 (served.0.maps loc paged) at
    ∙ load_loop_blocks fs m bs file fuel (first_of_image first b) (loc + n)
        (put_bytes m' b (block_bytes m b)) ks.1 served.1 (omega (arith, ks.0.paged))
        (rw (drop-drop loc n file, at) (drop_block m b (all_bytes m bs))) (omega arith)

loadz_loop_blocks :
    (fs : Files) (m : Memory) (bs : List ℕ) (fuel first : ℕ) (m' : Memory)
    → AllBlocks m bs
    → AreServed fs m bs
    → length bs < fuel
    → loadz_loop fs fuel first (all_bytes m bs) m'
      ≡ finish (image_start first bs) (restored m bs m')
unfolding all_bytes restored
loadz_loop_blocks fs m bs zero first m' ks served h = elim h [ ]
loadz_loop_blocks fs m [] (suc fuel) first m' ks served h = unfold loadz_loop next_word in refl
loadz_loop_blocks fs m (b ∷ bs) (suc fuel) first m' ks served h =
    loadz_loop_step fs m b (all_bytes m bs) fuel first m' ks.0 served.0
    ∙ loadz_loop_blocks fs m bs fuel (first_of_image first b) (put_bytes m' b (block_bytes m b))
        ks.1 served.1 (omega arith)

image_start_lem : (b : ℕ) (bs : List ℕ) → b ≢ 0 → image_start b bs ≡ b
image_start_lem b [] h = refl
image_start_lem b (c ∷ bs) h = rw (ne→== b 0 h) (image_start_lem b bs h)

IsChain-AllBlocks : (m : Memory) (cur : ℕ) (bs : List ℕ) → IsChain m cur bs → AllBlocks m bs
IsChain-AllBlocks m cur [] c = tt
IsChain-AllBlocks m cur (b ∷ bs) c = (c.1, IsChain-AllBlocks m (word_at m (b + 48)) bs c.2)

all_written : (fs : Files) (m : Memory) (bs : List ℕ) → AreServed fs m bs → AllTaken fs.write m bs
all_written fs m [] s = tt
all_written fs m (b ∷ bs) s = (s.0.writes, all_written fs m bs s.1)

all_gzwritten :
    (fs : Files) (m : Memory) (bs : List ℕ) → AreServed fs m bs → AllTaken fs.gzwrite m bs
all_gzwritten fs m [] s = tt
all_gzwritten fs m (b ∷ bs) s = (s.0.gzwrites, all_gzwritten fs m bs s.1)

-- The first two bytes of a plain image are those of a size in whole pages.
plain_header :
    (xs : List ℕ)
    → 8 ≤ length xs
    → little 8 xs % 4096 ≡ 0
    → (zheader xs ≡ some (little 2 xs)) × ((little 2 xs == 0x8b1f) ≡ false)
unfolding little zheader
plain_header [] h paged = elim h [ ]
plain_header (x ∷ []) h paged = absurd (omega arith)
plain_header (x ∷ y ∷ zs) h paged = (ground arith, ne→== _ _ (omega arith))

gzip_header : (ys : List ℕ) → zheader (31 ∷ 139 ∷ ys) ≡ some 0x8b1f
unfolding zheader little
gzip_header ys = ground arith

block_header :
    (m : Memory) (b : ℕ) (r : List ℕ)
    → IsBlock m b
    → (zheader (block_bytes m b ++ r) ≡ some (little 2 (block_bytes m b ++ r)))
      × ((little 2 (block_bytes m b ++ r) == 0x8b1f) ≡ false)
unfolding word_at
block_header m b r k =
    plain_header (block_bytes m b ++ r)
      (omega
        (arith, length-append (block_bytes m b) r, length-bytes_at m b (word_at m b), eight m b k))
      (rw (little-bytes_at m b 8 (word_at m b) r (eight m b k)) k.paged)

finish_lem :
    (b : ℕ) (bs : List ℕ) (m : Memory)
    → b ≢ 0
    → finish (image_start 0 (b ∷ bs)) m ≡ some (b + 72, m)
finish_lem b bs m h =
    let sum : b + hdr + 40 + 16 ≡ b + 72 = omega arith in
    rw (image_start_lem b bs h, ne→== b 0 h, sum)

module _ (fs : Files) (m m' : Memory) (b : ℕ) (bs before : List ℕ) (fuel : ℕ)
    (ks : AllBlocks m (b ∷ bs)) (served : AreServed fs m (b ∷ bs)) (again : fs.reopens ≡ true)
    (start : b ≢ 0) (h : suc (length bs) < fuel) where
  load_plain :
      length before % 4096 ≡ 0
      → pool_load fs (some (before ++ all_bytes m (b ∷ bs))) (length before) fuel m'
        ≡ some (b + 72, restored m (b ∷ bs) m')
  unfolding pool_load all_bytes
  load_plain paged =
      let (header, differs) = block_header m b (all_bytes m bs) ks.0 in
      let all =
        load_loop_blocks fs m (b ∷ bs) (before ++ all_bytes m (b ∷ bs)) fuel 0 (length before) m' ks
          served paged (drop_front before _) h in
      rw (drop_front before (all_bytes m (b ∷ bs)), header, differs)
        (simp again (all ∙ finish_lem b bs (restored m (b ∷ bs) m') start))

  load_packed :
      (level : ℕ)
      → IsGzip fs
      → pool_load fs
          (some (before ++ fs.deflate level (all_bytes m (b ∷ bs))))
          (length before)
          fuel
          m'
        ≡ some (b + 72, restored m (b ∷ bs) m')
  unfolding pool_load pool_loadz
  load_packed level gz =
      let (ys, magic) = gz.magic level (all_bytes m (b ∷ bs)) in
      let header : zheader (fs.deflate level (all_bytes m (b ∷ bs))) ≡ some 0x8b1f =
        rw magic (gzip_header ys) in
      rw (drop_front before (fs.deflate level (all_bytes m (b ∷ bs))), header)
        (simp (again, gz.inflated)
          (loadz_loop_blocks fs m (b ∷ bs) fuel 0 m' ks served h
            ∙ finish_lem b bs (restored m (b ∷ bs) m') start))

-- pool_load of a file whose pages from an offset on are what pool_dump wrote for a pool, at any
-- level of compression, with the pool's blocks of whole pages, a system that writes, reads and
-- maps each block whole, and more fuel than blocks, gives the pointer that create_pool put
-- behind the pool's node, and memory in which every block is as it was, and nothing else changed.
pub pool_load-pool_dump :
    (fs : Files) (m m' : Memory) (pool b : ℕ) (bs before : List ℕ) (compress fuel : ℕ)
    → IsChain m (pools m pool) (b ∷ bs)
    → AreServed fs m (b ∷ bs)
    → IsGzip fs
    → fs.reopens ≡ true
    → b ≢ 0
    → length before % 4096 ≡ 0
    → suc (length bs) < fuel
    → (bytes : List ℕ) × (m'' : Memory) × (pool_dump fs true fuel m pool compress
        ≡ some (written bytes))
      × (pool_load fs (some (before ++ bytes)) (length before) fuel m' ≡ some (b + 72, m''))
      × ((q : ℕ) → m'' q ≡ (if held m (b ∷ bs) q then m q else m' q))
unfolding pool_dump
pool_load-pool_dump fs m m' pool b bs before compress fuel c served gz again start paged h =
    elim (Bool-cases (compress == 0)) [
      | inl plain ↦ (
        all_bytes m (b ∷ bs),
        restored m (b ∷ bs) m',
        rw (
          plain,
          dump_loop_lem fs.write fuel m (pools m pool) (b ∷ bs) c (all_written fs m (b ∷ bs) served)
              h,
        ),
        load_plain fs m m' b bs before fuel (IsChain-AllBlocks m (pools m pool) (b ∷ bs) c) served
            again start h paged,
        restored_lem m (b ∷ bs) m',
      )
      | inr packed ↦ (
        fs.deflate compress (all_bytes m (b ∷ bs)),
        restored m (b ∷ bs) m',
        rw (
          packed,
          dump_loop_lem fs.gzwrite fuel m (pools m pool) (b ∷ bs) c
              (all_gzwritten fs m (b ∷ bs) served) h,
        ),
        load_packed fs m m' b bs before fuel (IsChain-AllBlocks m (pools m pool) (b ∷ bs) c) served
            again start h compress gz,
        restored_lem m (b ∷ bs) m',
      )
    ]
