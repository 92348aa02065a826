-- ===== src/Lib.antt =====
-- CacheFlow: a KV cache and a scheduler for serving language models.
--
-- The parts. A `Scheduler` holds the requests of its callers, and at every step decides which
-- groups of sequences run: it lets running groups grow, admits waiting groups and swaps groups
-- in, and preempts the last running group when the budget or the blocks run out. Blocks come from
-- a `BlockManager`, which counts references to the physical blocks of two devices and remembers
-- which sequence owns which. A `BatchManager` turns the scheduled groups into a batch, which a
-- `BatchDecodeEngine` lays out for the attention kernel, and writes the sampled tokens back. A
-- `PrefixCache` keeps the blocks of common prompts in a trie and holds references to them. A
-- `MemoryPool` cuts one allocation into slots. A `Profiler` counts tokens, steps and requests,
-- reads the usage of the other parts, and writes events to a `TraceWriter`.
--
-- The files, and the code of the repository that they model:
--   Base             shared lists, counts, signed integers, association lists and tests
--   Common           src/cacheflow/common.h
--   MemoryPool       src/cacheflow/kv_cache/memory_pool.h and memory_pool.cpp
--   BlockManager     src/cacheflow/kv_cache/block_manager.h and block_manager.cpp; its children
--                    Refs, Balance and Accounts define the books, and Init, Claim, Release,
--                    Copy and Fragmentation follow them through the operations
--   PrefixCache      src/cacheflow/kv_cache/prefix_cache.h and prefix_cache.cpp; View, Lookup and
--                    Insert see the trie as a map from paths to blocks, Books and Evict follow
--                    the references of the cache
--   Request          src/cacheflow/scheduler/request.h
--   Scheduler        src/cacheflow/scheduler/scheduler.h and scheduler.cpp; State, Sequences,
--                    Phases and Api are the code, the other children the proofs
--   BatchManager     src/cacheflow/scheduler/batch_manager.h and batch_manager.cpp
--   Decode           src/cacheflow/decode/batch_decode.h and batch_decode.cpp
--   Sampling         `sample` of src/cacheflow/decode/batch_decode.cpp; Vocabulary bounds its tokens
--   Histogram        the bins of the histogram of src/cacheflow/profiler/metrics.h
--   Platform         the arithmetic of floats, the clock and the printing of numbers, a parameter
--   Metrics          src/cacheflow/profiler/metrics.h; Running, Throughput and Latency are its
--                    classes
--   Trace            src/cacheflow/profiler/trace.h and trace.cpp; Calls lists the calls, Document
--                    and Buffer follow the file and the buffer through them
--   Profiler         src/cacheflow/profiler/profiler.h and profiler.cpp; Usage and Report are what
--                    it reports, Calls lists the calls, Tracks, Traced and Fresh follow them
--   Kernels          src/cacheflow/cuda/kv_cache_kernels.cu and memory_utils.cu; Moves and Grid run
--                    the assignments of the threads, Reshape and Blocks are the kernels
--   Attention        src/cacheflow/cuda/paged_attention.cu and execute_attention of batch_decode.cpp:
--                    the positions that the kernels read, and in Hits, Visits and Reads the
--                    proofs; Warp and Softmax are the arithmetic of the first kernel, which Exact
--                    compares to Reference, and Running that of the second, for Merge; Race is
--                    the order in which the lanes of a warp touch an element
--   Lifetime         the calls of the parts in any order
--   Examples         small states on which the functions run
--
-- How the code is read. A method is a function from the state to the new state and the result,
-- and keeps its name; a loop is a recursion over the list it walks, or on the number of rounds
-- left, so no loop needs fuel. An index out of the range of a vector is undefined behaviour and
-- gives `none`, as a division by zero, a write past an array, a sort without a strict weak order and
-- the use of a deleted group do. A queue holds the addresses of groups, which stand in a memory that is a function
-- from addresses, since the caller, the queues, the request map and the output share them. A
-- mutex is held during each call, so calls are atomic. Reference counts are integers, and sizes
-- are natural numbers where the code cannot overflow them; conversions to `int32_t` and `size_t`,
-- differences of budgets and the address arithmetic wrap around.
--
-- The books. Callers may take references of their own with `increment_ref`, of which the manager
-- keeps no record. The invariant `Accounts ext` has them as a parameter `ext`: every reference
-- count is the number of times that sequences own the block and the references in `ext`, and a
-- block is on the free list, once, if and only if the count is 0.
--
-- Kernels. An array of the device is a function from the index to the element. A launch is the
-- list of the assignments of all its threads, and a run of it is any permutation of that list. The
-- lanes of a warp of an attention kernel go in step, but where they write what others read: there
-- the order of the accesses is an argument (Attention/Race).
--
-- Floats and clocks. `Platform` is a record of the operations on `double` (`float` is not told
-- from it) and of the formatting of numbers. Nothing is assumed of them, but where a theorem has
-- the hypothesis `IsCommutative` or `IsExact`, which leave rounding out, and where sampling needs a
-- strict weak order, which leaves NaN out. `IsExact` asks nothing of exponentials of differences
-- from -FLT_MAX, which floats make 0. What a call reads of the
-- clock and of its thread is an argument. A file is the list of the strings written to it.
--
-- Not modelled: the arithmetic of `execute_attention_cpu`, which computes nothing that is used; the
-- contents of the memory pools.
pub mod Base
pub mod Common
pub mod MemoryPool
pub mod BlockManager
pub mod Request
pub mod Scheduler
pub mod BatchManager
pub mod PrefixCache
pub mod Histogram
pub mod Platform
pub mod Trace
pub mod Metrics
pub mod Profiler
pub mod Decode
pub mod Kernels
pub mod Attention
pub mod Sampling
pub mod Lifetime
mod Examples
