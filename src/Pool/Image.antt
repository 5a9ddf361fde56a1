-- ===== src/Pool/Image.antt =====
-- pool.c: pool_dump, pool_load and pool_loadz. A file is the list of its bytes. No result stands for
-- a variable that is read before it is set, as when a file ends within a word, and for no fuel.
use brianscheme.Base.{
  ℕ, zero, suc, ◌+◌, ◌-◌, ◌%◌, ◌^◌, Bool, true, false, not, Option, none, some, List, [], ◌∷◌, ◌++◌,
  ltb, ◌==◌, if◌then◌else◌, ◌>>=◌, length, take, drop, replicate,
}
use brianscheme.Pool.Memory.{Memory, bytes_at, put_bytes, little, word_at}

-- The operating system and zlib. Of n bytes, write and gzwrite take a number, and gzread gives a
-- number where it has as many; deflate is the file that gzwrite and gzclose make at a level, inflate
-- what gzread reads of one. mmap succeeds or not for an address, a size and a place in the file.
pub record Files : Type 0 where
  pub write : ℕ → ℕ
  pub gzwrite : ℕ → ℕ
  pub gzread : ℕ → ℕ
  pub deflate : ℕ → List ℕ → List ℕ
  pub inflate : List ℕ → List ℕ
  pub mmap : ℕ → ℕ → ℕ → Bool
  pub mmap_anon : ℕ → ℕ → Bool
  pub reopens : Bool

abbrev pub hdr : ℕ
hdr = 16

abbrev pub sizeof_subpool : ℕ
sizeof_subpool = 40

abbrev pub sizeof_pool : ℕ
sizeof_pool = 16

-- The members of subpool_t and pool_t.
abbrev pub mem_block : Memory → ℕ → ℕ
mem_block m cur = word_at m cur

abbrev pub size : Memory → ℕ → ℕ
size m cur = word_at m (cur + 24)

abbrev pub next : Memory → ℕ → ℕ
next m cur = word_at m (cur + 32)

abbrev pub pools : Memory → ℕ → ℕ
pools m pool = word_at m pool

pub data Saved : Type 0 where
  not_opened : Saved
  written : List ℕ → Saved

-- The loop over the subpools, with what one write takes.
unfoldable pub dump_loop : (ℕ → ℕ) → ℕ → Memory → ℕ → Option (List ℕ)
dump_loop taken zero m cur = none
dump_loop taken (suc fuel) m cur =
    let more = (do
      rest ← dump_loop taken fuel m (next m cur)
      some (bytes_at m (mem_block m cur) (taken (size m cur)) ++ rest)) in
    if cur == 0 then some [] else more

unfoldable pub pool_dump : Files → Bool → ℕ → Memory → ℕ → ℕ → Option Saved
pool_dump fs opened fuel m pool compress =
    let plain = (do bytes ← dump_loop fs.write fuel m (pools m pool); some (written bytes)) in
    let packed = (do
      bytes ← dump_loop fs.gzwrite fuel m (pools m pool)
      some (written (fs.deflate compress bytes))) in
    if opened then (if compress == 0 then plain else packed) else some not_opened

-- What read gives of the bytes left for a variable of 8 bytes.
pub data Chunk : Type 0 where
  ended short : Chunk
  word : ℕ → Chunk

unfoldable pub next_word : List ℕ → Chunk
next_word [] = ended
next_word (b ∷ bs) = if ltb (length (b ∷ bs)) 8 then short else word (little 8 (b ∷ bs))

-- The bytes that a mapping shows: those of the file, and zeros behind its end.
unfoldable pub padded : ℕ → List ℕ → List ℕ
padded zero xs = []
padded (suc n) [] = 0 ∷ padded n []
padded (suc n) (x ∷ xs) = x ∷ padded n xs

abbrev pub finish : ℕ → Memory → Option (ℕ × Memory)
finish first m = some (if first == 0 then 0 else first + hdr + sizeof_subpool + sizeof_pool, m)

abbrev pub first_of_image : ℕ → ℕ → ℕ
first_of_image first address = if first == 0 then address else first

-- The loop of pool_load: `first` and `loc` are its variables, `pos` is where the file is read.
unfoldable pub load_loop : Files → List ℕ → ℕ → ℕ → ℕ → ℕ → Memory → Option (ℕ × Memory)
load_loop fs file zero first loc pos m = none
load_loop fs file (suc fuel) first loc pos m = elim (next_word (drop pos file)) [
  | ended ↦ finish first m
  | short ↦ none
  | word size ↦ elim (next_word (drop (pos + 8) file)) [
    | ended ↦ finish first m
    | short ↦ none
    | word address ↦ elim (fs.mmap address size loc) [
      | false ↦ some (0, m)
      | true ↦
          load_loop fs file fuel (first_of_image first address) (loc + size) (pos + size)
            (put_bytes m address (padded size (drop loc file)))
    ]
  ]
]

-- A block of the stream `xs`, as pool_loadz writes it. The bytes of `size` and `address` are those
-- read.
unfoldable pub unpacked : Files → List ℕ → ℕ → ℕ → Memory → List ℕ × Memory
unpacked fs xs size address m =
    let amt = (size + (2 ^ 64 - hdr)) % 2 ^ 64 in
    let cleared = put_bytes m address (replicate size 0) in
    let sized = put_bytes cleared address (take 8 xs) in
    let placed = put_bytes sized (address + 8) (take 8 (drop 8 xs)) in
    let got = take (fs.gzread amt) (drop hdr xs) in (got, put_bytes placed (address + hdr) got)

-- The loop of pool_loadz, over what is left of the stream.
unfoldable pub loadz_loop : Files → ℕ → ℕ → List ℕ → Memory → Option (ℕ × Memory)
loadz_loop fs zero first xs m = none
loadz_loop fs (suc fuel) first xs m = elim (next_word xs) [
  | ended ↦ finish first m
  | short ↦ none
  | word size ↦ elim (next_word (drop 8 xs)) [
    | ended ↦ finish first m
    | short ↦ none
    | word address ↦ elim (fs.mmap_anon address size) [
      | false ↦ some (0, m)
      | true ↦
          let block = unpacked fs xs size address m in
          elim (length block.0 == (size + (2 ^ 64 - hdr)) % 2 ^ 64) [
            | false ↦ some (0, block.1)
            | true ↦
                loadz_loop fs fuel (first_of_image first address)
                  (drop (length block.0) (drop hdr xs)) block.1
          ]
    ]
  ]
]

unfoldable pub pool_loadz : Files → List ℕ → ℕ → ℕ → Memory → Option (ℕ × Memory)
pool_loadz fs file offset fuel m =
    if fs.reopens then loadz_loop fs fuel 0 (fs.inflate (drop offset file)) m else some (0, m)

-- The two bytes of zheader, if the file has them.
unfoldable pub zheader : List ℕ → Option ℕ
zheader bytes = if ltb (length bytes) 2 then none else some (little 2 bytes)

unfoldable pub pool_load : Files → Option (List ℕ) → ℕ → ℕ → Memory → Option (ℕ × Memory)
pool_load fs none offset fuel m = some (0, m)
pool_load fs (some file) offset fuel m =
    let plain = (if fs.reopens then load_loop fs file fuel 0 offset offset m else some (0, m)) in
    do
      h ← zheader (drop offset file)
      if h == 0x8b1f then pool_loadz fs file offset fuel m else plain

-- gc.c: save_image and load_image. -1 of the C code is the result false; `g` is the pointer.
abbrev pub save_image : Files → Bool → ℕ → Memory → ℕ → ℕ → Option Saved
save_image = pool_dump

unfoldable pub load_image : Files → Option (List ℕ) → ℕ → ℕ → Memory → Option (Bool × ℕ × Memory)
load_image fs file offset fuel m = do
  r ← pool_load fs file offset fuel m
  some (not (r.0 == 0), r.0, r.1)
