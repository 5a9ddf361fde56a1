-- ===== src/Lib.antt =====
-- A model of BrianScheme, a Scheme system in C: an interpreter and a bytecode machine over a heap of
-- objects that its own collector manages.
--
-- The parts and how they meet. types.h gives an object its tag and its union, types.c and interp.c
-- make and read objects, hashtab.c is the table behind environments and Scheme hash tables, gc.c
-- owns every object: alloc_object hands out the next object of the active list, and when there is
-- none left baker_collect moves what the root stack reaches to the old list, walking pairs,
-- procedures, vectors and, with the iterator of hashtab.c, tables. A stack_set (gc.c) holds the
-- addresses of the rooted C variables and, in two more, the objects that must be finalized. The
-- memory that gc.c asks for with MALLOC comes from pool.c, which gets it from the system in a chain
-- of blocks, so that save_image can write all of it to a file and load_image can read it back.
--
-- Which file models what.
--   Base         what the files share: tests on ℕ, lists over the native ℕ, membership, integers.
--   HashTab      hashtab.c and hashtab.h. A chain of hashtab_node_t is the list of its (key, value)
--                pairs; htb_hash, htb_init, htb_search, htb_insert, htb_remove, htb_iter_init,
--                htb_iter_inc and htb_grow keep their names, and find_node, insert_node,
--                remove_node, skip_empty and grow_loop are their loops.
--                Buckets, Table: chains and the table as a finite map. Count: the counter.
--                Iterate, Flatten, Grow: the walk over all nodes, and growth.
--   Object       types.h: Data has a constructor for each tag; an object* is a number.
--   StackSet     stack_set of gc.c: make_stack_set, stack_set_push, stack_set_pop, clear_stack_set.
--   Gc           gc.c: the two doubly linked lists as maps next, prev and color over addresses.
--                move_object_to_head is unlink, then link; maybe_move, scan and move_reachable are
--                the marking; Gc/Collector has finalize_object, baker_collect (mark_roots and
--                finalize_dead are its two loops), extend_heap and alloc_object.
--                Chain, Unlink, Link, Move, Append: the lists. Scan, Reach, Fields, Collect: marking
--                against reachability. Block, Extend: a new block. HandOut, Safety: alloc_object,
--                which is refill, then hand_out. Validate: debug_validate, as DEBUG_GC compiles it.
--   Pool         pool.c and pool.h, with malloc, save_image and load_image of gc.c. Memory: bytes and
--                words. Image: pool_dump, pool_load and pool_loadz, whose loops are dump_loop and
--                load_loop, loadz_loop. Alloc: create_pool, pool_alloc, pool_realloc and pool_free.
--                Blocks, RoundTrip: the image of a chain. Growth, Create: allocation.
--   Store        types.c: constructors, predicates and accessors over a store of objects, by their names
--                in the source. has_type is the test of a tag; elements and keys_loop are loops,
--                intern the second half of make_symbol. `free` is what alloc_object hands out.
--                Lists, Symbols: Scheme lists and the symbol table.
--                Types: the types that only primitives use.
--   Env          interp.c: frames, lookup_variable_value and define_variable; find_slot is the loop over
--                one frame that both have, lookup_local and assign_local those over the frames.
--                Rest: the frame of `(lambda foo …)`. Frames, Assign: one frame, and a chain of them.
--   Vm           vm.c: vector_push, vector_pop, the packed operands, load and begin (vm_fn_begin),
--                error_restart, fail (VM_ASSERT) and return; Vm/Frame, Vm/Call, Vm/Global and Vm/Step
--                have a function for each opcode, dispatch, and vm_execute. The stack is the list of
--                its slots, since only the machine writes them.
--                Stack, EndFrame: the stack as a list of values. Variables: local variables. Bytecode:
--                the primitives on arrays of code words. Opcodes: symbol_to_code and code_to_symbol_proc.
--   Read         read.c: a FILE is the list of the bytes left in it. eat_whitespace, scan_symbol,
--                scan_string and scan_number are the loops; Read/Datum has lisp_read, read_pair,
--                read_vector, read_character and read_number, each as a body that takes the functions
--                it calls, and one block that ties them together.
--                Bounds: the buffers of the loops.
--   Print        interp.c: owrite and write_pair, built in the same way; the result has the bytes that
--                are written.
--   Interp       interp.c: interp1, expand_macro, interp and apply. eval_form has a function for each
--                special form, eval_call those for macros, native and compound procedures; the loops
--                over arguments and sequences are push_arguments, list_arguments and eval_sequence.
--                Choices: conditionals. Primitives, Pairs, Vectors, Numbers, Texts, Tables, Objects and
--                Ports: the C functions of primitives, by their names. Numbers/Division: division.
--                Texts/Decimals: numbers as texts. Ports/Dump: port_dump_proc, whose loop is
--                dump_chunks.
--   Bsch         bsch.c: split_path, pathcat, insert_strlist, load_library, compile_library and find_image,
--                with interp_definer and vm_definer. SearchPath, ImageSearch: two of their loops.
--   Syntax       the data that Read and Print both know, as terms, and what objects and texts stand for one: empty
--                lists, symbols, strings, fixnums and pairs.
--                Numbers, Scans: digits, and the loops of the reader on what the printer writes.
--                Stores, Symbols: allocation and the symbol table. Atoms, Steps, Reads: the reader on
--                the text of a term. Forms, Writes: the printer on an object of it. RoundTrip: both.
--                Errors: an input that ends in a list.
--
-- Numbers. An object*, a key or a size is a ℕ; NULL is 0 and a pointer with its low bit set is a
-- small fixnum. Where the C type wraps, the model says so: the hash is taken modulo 2 ^ 32, the
-- colour, a char, modulo 256. A long is 8 bytes. An operand of an instruction is its 64-bit pattern;
-- callj tests for the -1 that stands for apply, and any other negative one counts as a large number.
--
-- Fuel. The walk over a table gets a round for each node and one more; marking from a root gets a
-- round for each object of both lists and one more, and each round of its loop scans one object
-- that was moved; the search for a chain gets size + 1 rounds. htb_grow takes its fuel as an
-- argument and gives `none` when it runs out, which more fuel than nodes excludes; so do the loops of
-- Store over Scheme lists, which may be cyclic, those of pool_dump and pool_load, for which more fuel
-- than blocks is enough, and vm_execute, which need not end. pool_alloc gets a new block and tries
-- again until the request fits, as many rounds as its argument allows.
-- find_image gets a round for each page and one more, port_dump_proc one for each 4096 bytes. lisp_read, owrite and
-- interp1 take the depth of their recursion; `rounds` of a term is enough for it. A datum cyclic
-- through its cdrs has no such bound, and the C code does not end on it either.
--
-- What is not modelled. tlsf.c is a copy of another project's allocator: what MALLOC returns is an
-- argument, and what REALLOC leaves in new slots is arbitrary. The slot that htb_iter_inc reads past
-- the array is the argument `past`. The system's memory and files, zlib's streams and the calls of
-- tlsf.c that pool.c makes are arguments too. htb_destroy, patch_object and collector statistics
-- have no definition. The words of code and the texts of messages are arguments of the machine, and
-- so are the C functions of primitives, which are modelled by themselves. A read through the wrong
-- member of a union or outside an array has no result, and neither has a division that traps. atof,
-- what fprintf makes of a double or a pointer, and the arithmetic of doubles are arguments. The store
-- of objects does not collect: the root stack calls of read.c have no counterpart. Making, opening
-- and closing ports, the primitives that call the operating system, the definitions of the global
-- environment in init and vm_init, main, ffi.c and socket.c are not covered.

pub mod Base
pub mod Bsch
pub mod Env
pub mod Gc
pub mod HashTab
pub mod Interp
pub mod Object
pub mod Pool
pub mod Print
pub mod Read
pub mod StackSet
pub mod Store
pub mod Syntax
pub mod Vm
