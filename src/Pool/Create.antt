-- ===== src/Pool/Create.antt =====
-- pool.c: create_pool makes a pool of one block, whose image has the pointer that it gives.
use brianscheme.Base.{
  ℕ, ◌+◌, ◌-◌, ◌<◌, ◌≤◌, ◌^◌, ◌≡◌, refl, ◌∙◌, true, some, inl, inr, arith, ◌⊎◌, sym, [], ◌∷◌, ◌%◌,
  lt→ltb,
}
use brianscheme.Pool.Memory.{Memory, word_at, put_word, word_at-put_word, word_at-put_word_else}
use brianscheme.Pool.Image.{pools}
use brianscheme.Pool.Blocks.{IsBlock, IsChain}
use brianscheme.Pool.Alloc.{
  Tlsf, System, World, create_pool, create_subpool_node, init_node, free_start, free_end, last_node,
}
use brianscheme.Pool.Growth.{init_node-IsNode, IsNode}

-- The memory when create_pool has set the pool's members, and when it has set free_start again.
abbrev with_pool : ℕ → Memory → Memory
with_pool b m =
    put_word (put_word (put_word m (b + 16 + 8) (b + 56 + 16)) (b + 56) (b + 16)) (b + 56 + 8)
      (b + 16)

abbrev pool_memory : ℕ → ℕ → Memory → Memory
pool_memory b init_alloc m = put_word (with_pool b m) (b + 16 + 8) (b + 72 + init_alloc)

-- A place among the first 56 bytes of a block, but free_start.
abbrev IsHeader : ℕ → ℕ → Type 0
IsHeader b a = (a + 8 ≤ b + 24) ⊎ ((b + 32 ≤ a) × (a + 8 ≤ b + 56))

pool_memory_else :
    (b init_alloc a : ℕ) (m : Memory)
    → IsHeader b a
    → word_at (pool_memory b init_alloc m) a ≡ word_at m a
pool_memory_else b init_alloc a m h =
    word_at-put_word_else _ a (b + 16 + 8) (b + 72 + init_alloc) (ground arith)
    ∙ word_at-put_word_else _ a (b + 56 + 8) (b + 16) (ground arith)
    ∙ word_at-put_word_else _ a (b + 56) (b + 16) (ground arith)
    ∙ word_at-put_word_else m a (b + 16 + 8) (b + 56 + 16) (ground arith)

-- The header of the block and the first member of its node.
header_writes : ℕ → ℕ → Memory → Memory
header_writes b n m = put_word (put_word (put_word m (b + 16) b) b n) (b + 8) b

header_writes_lem :
    (b n : ℕ) (m : Memory)
    → b + n < 2 ^ 64
    → (word_at (header_writes b n m) (b + 16) ≡ b)
      × (word_at (header_writes b n m) b ≡ n)
      × (word_at (header_writes b n m) (b + 8) ≡ b)
unfolding header_writes
header_writes_lem b n m fits = (
  word_at-put_word_else _ (b + 16) (b + 8) b (inr (omega arith))
      ∙ word_at-put_word_else _ (b + 16) b n (inr (omega arith))
      ∙ word_at-put_word m (b + 16) b (omega arith),
  word_at-put_word_else _ b (b + 8) b (inl (omega arith)) ∙ word_at-put_word _ b n (omega arith),
  word_at-put_word _ (b + 8) b (omega arith),
)

init_node_header :
    (b n a : ℕ) (m : Memory)
    → a + 8 ≤ b + 24
    → word_at (init_node b n m) a ≡ word_at (header_writes b n m) a
unfolding init_node header_writes
init_node_header b n a m h =
    word_at-put_word_else _ a (b + 16 + 32) 0 (inl (omega arith))
    ∙ word_at-put_word_else _ a (b + 16 + 24) n (inl (omega arith))
    ∙ word_at-put_word_else _ a (b + 16 + 16) (b + n) (inl (omega arith))
    ∙ word_at-put_word_else _ a (b + 16 + 8) (b + 16 + 40) (inl (omega arith))

init_node_next : (b n : ℕ) (m : Memory) → word_at (init_node b n m) (b + 16 + 32) ≡ 0
unfolding init_node
init_node_next b n m = word_at-put_word _ (b + 16 + 32) 0 (omega arith)

-- The block after create_pool.
pool_memory-IsBlock :
    (b n init_alloc : ℕ) (m : Memory)
    → b + n < 2 ^ 64
    → 56 ≤ n
    → n % 4096 ≡ 0
    → IsBlock (pool_memory b init_alloc (init_node b n m)) b
pool_memory-IsBlock b n init_alloc m fits room paged =
    let (first, sized, placed) = header_writes_lem b n m fits in
    let node = init_node-IsNode b n m fits room in
    let at = λ (a : ℕ) (h : IsHeader b a). pool_memory_else b init_alloc a (init_node b n m) h in
    let size_of_block : word_at (pool_memory b init_alloc (init_node b n m)) b ≡ n =
      at b (inl (omega arith)) ∙ init_node_header b n b m (omega arith) ∙ sized in
    let e : b + 16 + 24 ≡ b + 40 = omega arith in
    record {
      sized =
          at (b + 40) (inr (omega arith, omega arith)) ∙ (rw e at node.sized) ∙ sym size_of_block;
      placed =
          at (b + 8) (inl (omega arith)) ∙ init_node_header b n (b + 8) m (omega arith) ∙ placed;
      starts =
          at (b + 16) (inl (omega arith)) ∙ init_node_header b n (b + 16) m (omega arith) ∙ first;
      room = rw size_of_block room;
      fits = rw size_of_block (omega arith);
      paged = rw size_of_block paged;
    }

-- create_pool that is asked for some memory, where pages are of 4096 bytes and mmap gives a block,
-- puts the pool's node behind the block's and the memory behind that, and leaves a chain of the
-- one block.
pub create_pool-IsChain :
    {A O : Type 0} (tlsf : Tlsf A) (sys : System O) (w : World A O) (init_alloc b : ℕ) (os' : O)
    → sys.page_size ≡ 4096
    → sys.mmap 1048576 w.os ≡ some (b, os')
    → b + 1048576 < 2 ^ 64
    → 0 < init_alloc
    → (w' : World A O) × (create_pool tlsf sys init_alloc true w ≡ some (b + 56, some (b + 72), w'))
      × IsChain w'.memory (pools w'.memory (b + 56)) (b ∷ [])
      × (last_node w'.memory (b + 56) ≡ b + 16)
unfolding create_pool create_subpool_node
create_pool-IsChain {A} {O} tlsf sys w init_alloc b os' page mapped fits some_bytes = (
  w',
  simp (page, mapped, node.starts, lt→ltb 0 init_alloc some_bytes, init),
  (pools_first, pool_memory-IsBlock b 1048576 init_alloc w.memory fits (omega arith) refl, ends),
  last,
)
  where
    m : Memory
    m = init_node b 1048576 w.memory

    node : IsNode m b 1048576
    node = init_node-IsNode b 1048576 w.memory fits (omega arith)

    init : free_start (with_pool b m) (b + 16) ≡ b + 72
    init =
        word_at-put_word_else _ (b + 16 + 8) (b + 56 + 8) (b + 16) (inl (omega arith))
        ∙ word_at-put_word_else _ (b + 16 + 8) (b + 56) (b + 16) (inl (omega arith))
        ∙ word_at-put_word m (b + 16 + 8) (b + 56 + 16) (omega arith)
        ∙ omega arith

    m' : Memory
    m' = pool_memory b init_alloc m

    w' : World A O
    w' = record {
      memory = m';
      heap =
          tlsf.init_memory_pool (free_end m' (b + 16) - free_start m' (b + 16))
            (free_start m' (b + 16)) w.heap;
      os = os';
    }

    pools_first : pools m' (b + 56) ≡ b + 16
    pools_first =
        word_at-put_word_else _ (b + 56) (b + 16 + 8) (b + 72 + init_alloc) (inr (omega arith))
        ∙ word_at-put_word_else _ (b + 56) (b + 56 + 8) (b + 16) (inl (omega arith))
        ∙ word_at-put_word _ (b + 56) (b + 16) (omega arith)

    last : last_node m' (b + 56) ≡ b + 16
    last =
        word_at-put_word_else _ (b + 56 + 8) (b + 16 + 8) (b + 72 + init_alloc) (inr (omega arith))
        ∙ word_at-put_word _ (b + 56 + 8) (b + 16) (omega arith)

    ends : word_at m' (b + 48) ≡ 0
    ends =
        let e : b + 16 + 32 ≡ b + 48 = omega arith in
        pool_memory_else b init_alloc (b + 48) m (inr (omega arith, omega arith))
        ∙ (rw e at (init_node_next b 1048576 w.memory))
