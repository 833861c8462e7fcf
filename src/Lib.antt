-- ===== src/Lib.antt =====
-- A verification library for lralloc.rs (the crate apfmalloc_lib), a lock-free memory allocator.
--
-- A thread allocates from the bins of its cache, one bin for each size class. An empty bin is filled
-- from a super block: a partly used one from the list that the heap of the class keeps, or a new
-- one from the kernel. A super block has a descriptor, whose anchor packs the state of the block, the
-- index of its first free block and the number of free blocks. The page map leads from the address
-- of a block to its descriptor. Sizes above the largest class get a super block of their own.
--
-- The files, and the code each models (paths from the repository's root):
-- - MemInfo: src/mem_info.rs and the macro page_ceiling! of src/macros.rs, the constants and the
--   functions that round sizes and addresses; MemInfo/Align compares them with the least multiple.
-- - SizeClasses: src/size_classes.rs and the macro sc!, the table of classes, init_size_class and
--   get_size_class; Lookup is about the lookup table, Blocks about the classes.
-- - AllocationData: src/allocation_data.rs, the anchor; Anchor has the laws of its fields.
--   AllocationData/Desc is src/allocation_data/desc.rs, descriptors, tagged pointers and the free
--   list: Nodes is about tagged pointers and lists that they link, Free about the free list, Block
--   about a fresh block of descriptors.
-- - ThreadCache: the bins of src/thread_cache.rs; Stack has the invariant that a bin is a stack of
--   blocks, Refine compares runs of a bin and of a list.
-- - PageMap: src/page_map.rs and update_page_map of src/alloc.rs; Update shows which addresses lead
--   to a descriptor.
-- - Alloc: src/alloc.rs and src/allocation_data/proc_heap.rs, the heaps with their lists of partly used
--   super blocks and the allocation of blocks from them and from new super blocks; Counted has the
--   allocations of a given number of blocks, Partial is about the lists, Taking about what a bin takes
--   from them, Fresh about new super blocks.
-- - Reserve: fill_cache, flush_cache and ThreadCache of src/thread_cache.rs; Fill is about filling a bin,
--   Flush about the steps of a flush, Back about bins that go back whole, Emptied about
--   super blocks that go back to the kernel, Compressed about bins with a compressed link.
-- - Bootstrap: src/bootstrap.rs, the reserve that serves allocations while the bootstrap is in use;
--   Regions shows where its allocations lie.
-- - Malloc: src/lib.rs, malloc, aligned malloc, realloc and free; Init is init_malloc, State has the state
--   of a thread, Hooks is what the tuners call in src/thread_cache.rs and where they are called: Fetched is
--   about the loop of fetch, Returned about ret; Small is about the size classes, Aligned about
--   aligned allocations, Large about sizes above the classes, Power about the test for powers of two.
-- - SingleAccess: src/single_access.rs, the barrier as a step relation; Once has its invariants.
-- - Apf: src/apf, the counters behind the tuner. Apf/Histogram is histogram.rs, its Reads compares a
--   histogram with a function; Apf/Liveness is liveness_counter.rs, its Counts and Runs
--   compare the counts with the list of events; Apf/Trace is trace.rs, its Valid compares valid with an automaton for each
--   slot, its Add is about the events that a trace goes on with; Apf/Reuse is the ReuseCounter of
--   reuse_counter.rs, its Burst is about what a burst samples, its Offline is the function reuse with
--   the vectors as sums over intervals (Columns), against a count in windows (Windows), and how
--   large they are (Bounds). Apf/Tuner is mod.rs, its Demand is about the demand for blocks.
-- - Collections: src/independent_collections/array.rs, the array; Slots relates it to a list, Remove is
--   about its remove. Its Loops holds what an array does in a loop (Filled, Elements) and its bits (Bits).
--   Its Deque is ArrayDeque: Window relates it to a list, Runs is about sequences of operations, Collect
--   about making one from an array. Its Ranges is range_mapping.rs, of which Twice is about two insertions.
--   Its HashMap is hash_map.rs: Chain is about the buckets of one array, Table about the table as a function
--   from keys, Growth about growing, Update about insertion and removal.
-- - AutoPtr: src/ptr/auto_ptr.rs, the owned pointer over aligned malloc and free; Taken is about its life.
-- - Pages: src/pages.rs and src/pages/external_mem_reservation.rs, pages from the kernel; Sizes is about the
--   sizes that a hash map keeps for page_free.
-- - Bindings: apfmalloc/src/lib.rs, the functions of the C library; Calloc and Aligned are about those
--   that it names.
-- - Common: the names all files share, the outcome of a function that can panic, Boolean tests,
--   lists over native numbers, and bit masks as arithmetic.
-- A file called Tests holds runs of the definitions and the theorems at concrete inputs.
--
-- Conventions. A usize is a number below 2 ^ 64, and a sum or a complement that the code lets wrap has
-- its modulus written out. A pointer is its address, null is 0. Memory is a function from addresses
-- to words, a static array is a function from its indices. assert!, panic! and unwrap become
-- `panicked`. Loops run on fuel that bounds their rounds: the difference that the loop
-- closes for the loops of init_size_class, the blocks of a bin for those of flush_cache, two rounds for
-- fetch, where fetch_loop says without a value that the fuel has run out. So do the loop and the
-- recursion of a range mapping. The fuel of
-- malloc_from_partial is the depth of its recursion, one call for each empty super block in a list;
-- the theorems ask for more fuel than there are such super blocks, and then it returns.
-- A descriptor operation runs under a lock and a bin belongs to one thread, so each is one step.
--
-- Parameters: the answers of the page allocator and of the segment allocator, which a record `Call`
-- brings to an allocation, and what the build's environment sets: TARGET_APF and the lengths of bursts and
-- hibernations. A float is the pair of the parts of its quotient; rounding to f32 is left out.
--
-- Not modelled: interleavings of the compare-exchange loops on anchors and partial lists, the calls of the
-- kernel and the branches for windows, the tuner's own allocations, PageInfoHolder of src/pages.rs, which
-- nothing calls, benchmarks and tests.
pub mod Alloc
pub mod AllocationData
pub mod Apf
pub mod AutoPtr
pub mod Bindings
pub mod Bootstrap
pub mod Collections
pub mod Common
pub mod Malloc
pub mod MemInfo
pub mod PageMap
pub mod Pages
pub mod Reserve
pub mod SingleAccess
pub mod SizeClasses
pub mod ThreadCache
