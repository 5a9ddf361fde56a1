-- ===== src/Pool.antt =====
-- pool.c and pool.h over the memory of the process, with gc.c's calls of them. The nodes of the
-- pool stand in the memory that they describe, so an image of the memory holds them too.
pub mod Alloc
pub mod Blocks
pub mod Create
pub mod Examples
pub mod Growth
pub mod Image
pub mod Memory
pub mod RoundTrip
