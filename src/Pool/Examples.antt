-- ===== src/Pool/Examples.antt =====
-- A pool of one block of a page at 4096, and a system that does all it is asked for: it maps memory
-- behind all that is mapped, and the allocator hands out what its last area has left.
use brianscheme.Base.{
  ℕ, ◌+◌, ◌-◌, ◌^◌, ◌≡◌, refl, Bool, true, some, none, ltb, leb, List, [], ◌∷◌, ◌++◌, arith, ◌==◌,
  ◌||◌, if◌then◌else◌, drop,
}
use brianscheme.Pool.Memory.{Memory, word_at, bytes_at, little}
use brianscheme.Pool.Image.{Files, pools, pool_dump, pool_load, written}
use brianscheme.Pool.Blocks.{IsBlock, IsChain, IsServed, IsGzip, held}
use brianscheme.Pool.Alloc.{Tlsf, System, World, pool_alloc, aligned, create_pool, last_node}
use brianscheme.Pool.Growth.{IsMmap, IsTlsf, IsReady, IsAnswered, pool_alloc_total}
use brianscheme.Pool.Create.{create_pool-IsChain}
use brianscheme.Pool.RoundTrip.{pool_load-pool_dump}

abbrev files : Files
files = record {
  write = λ n. n;
  gzwrite = λ n. n;
  gzread = λ n. n;
  deflate = λ level xs. 31 ∷ 139 ∷ xs;
  inflate = drop 2;
  mmap = λ address size loc. true;
  mmap_anon = λ address size. true;
  reopens = true;
}

abbrev page : Memory
page q =
    if q == 4097
      || (q == 4105
          || (q == 4113 || (q == 4137 || (q == 4152 || (q == 4153 || (q == 4160 || q == 4161))))))
    then 16
    else 0

size_word : word_at page 4096 ≡ 4096
unfolding word_at bytes_at little
size_word = refl

page-IsBlock : IsBlock page 4096
unfolding word_at bytes_at little
page-IsBlock = record {
  sized = refl;
  placed = refl;
  starts = refl;
  room = omega (arith, size_word);
  fits = omega (arith, size_word);
  paged = refl;
}

page-IsChain : IsChain page (pools page 4152) (4096 ∷ [])
unfolding word_at bytes_at little
page-IsChain = (refl, page-IsBlock, refl)

files-IsServed : IsServed files page 4096
files-IsServed = record {
  writes = refl;
  gzwrites = refl;
  gzreads = refl;
  maps = λ loc h. refl;
  maps_anon = refl;
}

files-IsGzip : IsGzip files
files-IsGzip = record { inflated = λ level xs. refl; magic = λ level xs. (xs, refl) }

pool_load-pool_dump_example :
    (bytes : List ℕ) × (m : Memory) × (pool_dump files true 2 page 4152 6 ≡ some (written bytes))
    × (pool_load files (some ([] ++ bytes)) 0 2 (λ q. 7) ≡ some (4168, m))
    × ((q : ℕ) → m q ≡ (if held page (4096 ∷ []) q then page q else 7))
pool_load-pool_dump_example =
    pool_load-pool_dump files page (λ q. 7) 4152 4096 [] [] 6 2 page-IsChain (files-IsServed, tt)
      files-IsGzip refl (omega arith) refl (omega arith)

abbrev tlsf : Tlsf ℕ
tlsf = record {
  malloc_ex = λ n left. if leb n left then (8192, left - n) else (0, left);
  free_ex = λ p left. left;
  add_new_area = λ start len left. len;
  init_memory_pool = λ len start left. len;
  header = λ p left. 8;
}

abbrev system : System ℕ
system = record {
  mmap = λ n os. if ltb (os + n) (2 ^ 64) then some (os, os + n) else none;
  page_size = 4096;
}

abbrev world : World ℕ ℕ
world = record { memory = page; heap = 0; os = 8192 }

abbrev mapped : ℕ → ℕ → Bool
mapped os q = ltb q os

system-IsMmap : IsMmap system mapped
system-IsMmap = record {
  fresh = λ n os block os' e q h. ground arith;
  maps = λ n os block os' e q h. ground arith;
  fits = λ n os block os' e. ground arith;
}

tlsf-IsTlsf : IsTlsf tlsf (λ n. n) (2 ^ 40)
tlsf-IsTlsf = record { serves = λ n start len h enough small. ground arith }

world-IsReady : IsReady mapped 8192 page 4152
unfolding word_at bytes_at little
world-IsReady = record { member = λ i h. ground arith; linked = λ i h. ground arith }

page_size : word_at page 4136 ≡ 4096
unfolding word_at bytes_at little
page_size = refl

page_last : word_at page 4160 ≡ 4112
unfolding word_at bytes_at little
page_last = refl

pool_alloc_total_example : IsAnswered (pool_alloc tlsf system 3 world 4152 10000)
unfolding aligned
pool_alloc_total_example =
    pool_alloc_total tlsf system mapped system-IsMmap (λ n. n) (2 ^ 40) tlsf-IsTlsf 1 world 4152
      10000 4096 world-IsReady (rw page_last page_size) (omega arith) (omega arith) (omega arith)
      (omega arith) (omega arith)

create_pool-IsChain_example :
    (w : World ℕ ℕ) × (create_pool tlsf system 800 true world ≡ some (8248, some (8264), w))
    × IsChain w.memory (pools w.memory 8248) (8192 ∷ [])
    × (last_node w.memory 8248 ≡ 8208)
create_pool-IsChain_example =
    create_pool-IsChain tlsf system world 800 8192 1056768 refl refl (omega arith) (omega arith)
