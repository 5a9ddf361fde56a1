-- ===== src/Pool/Alloc.antt =====
-- pool.c: create_pool, pool_alloc, pool_realloc and pool_free, and gc.c's calls of them. What tlsf.c
-- and mmap do is an argument. The allocator keeps its own data in the areas that it is given, which
-- no function here reads; the handle pools->free_start that each call passes it stays the same.
use brianscheme.Base.{
  ℕ, zero, suc, ◌+◌, ◌-◌, ◌*◌, ◌/◌, ◌%◌, ◌^◌, Bool, false, Option, none, some, ltb, leb, ◌==◌,
  if◌then◌else◌, ◌>>=◌,
}
use brianscheme.Pool.Memory.{Memory, bytes_at, put_bytes, word_at, put_word}
use brianscheme.Pool.Image.{hdr, sizeof_subpool, sizeof_pool, size}

-- malloc_ex gives an address, or 0; header is the word that stands before a block.
pub record Tlsf (A : Type 0) : Type 0 where
  pub malloc_ex : ℕ → A → ℕ × A
  pub free_ex : ℕ → A → A
  pub add_new_area : ℕ → ℕ → A → A
  pub init_memory_pool : ℕ → ℕ → A → A
  pub header : ℕ → A → ℕ

-- The address of a new mapping, unless mmap fails, and what sysconf gives.
pub record System (O : Type 0) : Type 0 where
  pub mmap : ℕ → O → Option (ℕ × O)
  pub page_size : ℕ

pub record World (A O : Type 0) : Type 0 where
  pub memory : Memory
  pub heap : A
  pub os : O

abbrev pub default_pool_size : ℕ
default_pool_size = 1048576

abbrev pub pool_scale : ℕ
pool_scale = 2

abbrev pub free_start : Memory → ℕ → ℕ
free_start m node = word_at m (node + 8)

abbrev pub free_end : Memory → ℕ → ℕ
free_end m node = word_at m (node + 16)

abbrev pub last_node : Memory → ℕ → ℕ
last_node m pool = word_at m (pool + 8)

-- pool_alloc's result: exit(1), or an address.
pub data Outcome (A O : Type 0) : Type 0 where
  exited : Outcome A O
  returned : ℕ → World A O → Outcome A O

-- The next 8 byte aligned size.
unfoldable pub aligned : ℕ → ℕ
aligned size = let up = (size + 7) % 2 ^ 64 in up - up % 8

-- The writes of create_subpool_node to a block.
unfoldable pub init_node : ℕ → ℕ → Memory → Memory
init_node block n m =
    let node = block + hdr in
    let m₁ = put_word m node block in
    let m₂ = put_word m₁ block n in
    let m₃ = put_word m₂ (block + 8) block in
    let m₄ = put_word m₃ (node + 8) (block + hdr + sizeof_subpool) in
    let m₅ = put_word m₄ (node + 16) (block + n) in
    let m₆ = put_word m₅ (node + 24) n in put_word m₆ (node + 32) 0

module _ {A O : Type 0} (tlsf : Tlsf A) (sys : System O) where
  -- No result is new_mmap's exit.
  unfoldable pub create_subpool_node : ℕ → World A O → Option (ℕ × World A O)
  create_subpool_node n w = do
    r ← sys.mmap n w.os
    some (r.0 + hdr, record w { memory = init_node r.0 n w.memory; os = r.1 })

  -- The pool, the memory for *init if that is asked for, and the world.
  unfoldable pub create_pool : ℕ → Bool → World A O → Option (ℕ × Option ℕ × World A O)
  create_pool init_alloc wants_init w = do
    r ← create_subpool_node (default_pool_size / sys.page_size * sys.page_size) w
    let first = r.0
    let pool = free_start r.1.memory first
    let m₁ = put_word r.1.memory (first + 8) (pool + sizeof_pool)
    let m₂ = put_word m₁ pool first
    let m₃ = put_word m₂ (pool + 8) first
    let wants = (if ltb 0 init_alloc then wants_init else false)
    let init = free_start m₃ first
    let m₄ = (if wants then put_word m₃ (first + 8) (init + init_alloc) else m₃)
    let start = free_start m₄ first
    let heap = tlsf.init_memory_pool (free_end m₄ first - start) start r.1.heap
    some (pool, (if wants then some init else none), record r.1 { memory = m₄; heap = heap })

  -- The second branch of pool_alloc, up to its call of itself.
  unfoldable pub grown : World A O → ℕ → Option (World A O)
  grown w pool =
      let last = last_node w.memory pool in
      do
        r ← create_subpool_node (size w.memory last * pool_scale % 2 ^ 64) w
        let m₁ = put_word r.1.memory (last + 32) r.0
        let m₂ = put_word m₁ (pool + 8) r.0
        let start = free_start m₂ r.0
        let heap = tlsf.add_new_area start (free_end m₂ r.0 - start) r.1.heap
        some (record r.1 { memory = m₂; heap = heap })

  -- No result is the end of the fuel.
  unfoldable pub pool_alloc : ℕ → World A O → ℕ → ℕ → Option (Outcome A O)
  pool_alloc zero w pool amount = none
  pool_alloc (suc fuel) w pool amount =
      let r = tlsf.malloc_ex (aligned amount) w.heap in
      let w' = record w { heap = r.1 } in
      let more : Option (Outcome A O) = elim (grown w' pool) [
        | none ↦ some exited
        | some w'' ↦ pool_alloc fuel w'' pool (aligned amount)
      ] in
      if r.0 == 0 then more else some (returned r.0 w')

  unfoldable pub pool_free : World A O → ℕ → World A O
  pool_free w p = record w { heap = tlsf.free_ex p w.heap }

  unfoldable pub pool_realloc : ℕ → World A O → ℕ → ℕ → ℕ → Option (Outcome A O)
  pool_realloc fuel w pool p new =
      let old = tlsf.header p w.heap in
      let moved = (do
        o ← pool_alloc fuel w pool new
        some (elim o [
          | exited ↦ exited
          | returned np w' ↦ returned np (
              pool_free (record w' { memory = put_bytes w'.memory np (bytes_at w'.memory p old) })
                p)
        ])) in
      if leb new old then some (returned p w) else moved

  -- MALLOC of gc.c; REALLOC is pool_realloc and FREE is pool_free of the global pool.
  unfoldable pub malloc : ℕ → World A O → ℕ → ℕ → Option (Outcome A O)
  malloc fuel w pool amount = do
    o ← pool_alloc fuel w pool amount
    some (elim o [
      | exited ↦ exited
      | returned obj w' ↦ if obj == 0 then exited else returned obj w'
    ])
