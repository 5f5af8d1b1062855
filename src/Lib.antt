-- ===== src/Lib.antt =====
-- vmkit-core is a library for virtual machines on top of the garbage collector mmtk
-- (vmkit/src). This is a model of its core with proofs.
--
-- The program's parts and their models (paths from the repository's root):
-- - vmkit/src/mm/align.rs, alignment of addresses and gaps: Align. An `isize` is its two's
--   complement pattern; the operations wrap at 2^64 where the source's do.
-- - vmkit/src/mm/tlab.rs, the buffer from which a thread allocates by moving a cursor: Tlab. The
--   operations are functions from a buffer to a buffer.
-- - vmkit/src/mm.rs, `MemoryManager`: Heap. An allocation takes the state of a mutator (memory, the
--   buffer, the bump pointer of mmtk's allocator) to an object and the state afterwards. The
--   allocators of mmtk are arbitrary functions on this state. Heap.Manage, values moved to the heap
--   and written references; Heap.Disabling, regions in which collections are disabled.
-- - vmkit/src/object_model/header.rs, the header word with metadata and hash state: Header. The
--   crate `easy_bitfield` is a record of functions with the laws it documents; Header.Digits has
--   functions that satisfy them.
-- - vmkit/src/object_model/object.rs, metadata.rs and vmkit/src/object_model.rs, sizes, hash codes,
--   fields and moves of objects: Object, on byte memory (Memory). `none` is a panic. Object.CopyTo,
--   the moves to a place that mmtk has chosen, with mmtk's filling of gaps as a parameter.
-- - vmkit/src/object_model/object.rs, `SimpleMemorySlice`, ranges of slots: Slice.
-- - vmkit/src/object_model/compression.rs, compressed pointers: Compression.
-- - vmkit/src/object_model/finalization.rs, finalizers: Finalization.
-- - vmkit/src/mm/conservative_roots.rs, conservative scans of memory: Roots.
-- - vmkit/src/mm/stack_bounds.rs, limits of stacks: Stack; Stack.Threads, how those of a thread are
--   found, from what Unix or Windows says of its stack.
-- - vmkit/src/sync/monitor.rs, the recursive lock: Sync, with all threads' steps as a relation;
--   Sync.Handshake, the operations that let the thread be blocked meanwhile, in rounds, each with
--   what other threads do in it.
-- - vmkit/src/threading.rs, `Thread`: Thread, the operations of one thread as functions, with what
--   other threads do in a wait as an argument; Handshake, the steps of a mutator and of the
--   threads that ask it to block as a relation, in every interleaving, and Handshake.Pause those
--   of all mutators; Thread.Suspension, the counts of suspensions by signals; Thread.Handler, the
--   signal handler, with the semaphore of vmkit/src/sync/semaphore.rs; Sync.Pairing, the
--   communication locks.
-- - vmkit/src/threading.rs, `ThreadManager`: Manager, the registry of threads and the loop that
--   stops all mutators, with what other threads do in each round, between the listing of the threads
--   and their tests included, as an argument; Manager.Signals, the same by signals; Manager.Handshakes, soft handshakes, whose counter only they write; Manager.Lifecycle,
--   the start, the registration and the end of a thread, with its thread-local variables.
-- - vmkit/src/mm/collection.rs and vmkit/src/mm/active_plan.rs: Collection, the stop of the world
--   with the buffers of the mutators, and whether collections are enabled.
-- - vmkit/src/mm/scanning.rs, scans of objects and of the roots of threads: Scanning, over a state
--   and a VM that are arbitrary.
-- - vmkit/src/mm/traits.rs, the tracing of references and pointers: Tracing; Tracing.Values, the
--   tracing and the scan of values that consist of them, as trees with addresses.
-- - vmkit/src/bdwgc_shim.rs, the interface for C programs written for BDWGC: Bdwgc. Words has the
--   metadata word of an object, Registry the kinds and mark procedures, Descriptor the descriptors
--   made from bitmaps, Marking the tracing callback, Allocation the allocation functions, Links the
--   root ranges, disappearing links and finalizers, Startup the static variables and GC_init, Settings
--   the options and statistics, Threads the registration of threads, and Creation the interleavings of
--   GC_pthread_create. A hash set is a list without repetitions.
-- - vmkit/src/platform/dynload.rs, the writable segments of libraries: Libraries.
-- - vmkit-proc/src/lib.rs, the macro that derives `GCMetadata`: Derive. Attributes has the closures
--   that parse the attributes, over an arbitrary parser of `syn`; Output the emitted code, as data;
--   Runs what this code computes, as metadata of Object and as the values that are visited.
--
-- They interact as in the source: the manager stops threads by the requests of Thread, whose
-- effect on a mutator Handshake follows; the heap allocates through Tlab, which uses Align; moves
-- of Object rewrite the words of Header; Bdwgc allocates through the heap, scans its root ranges
-- with Roots, and reads the sizes that Object computes from its metadata; the metadata that Derive
-- makes is read by Object, and the segments of Libraries are roots of Bdwgc.
--
-- Loops without a bound on their length take fuel or a list of waits. `fill_loop` and `span_loop`
-- get the number of bytes that are left, of which each round uses at least one; `process_loop`
-- gets the number of entries in `about_to_terminate`, of which each restart removes one.
-- `mark_range_loop` gets the number of bytes too. `bitmap_loop` and `descr_loop` may run for ever,
-- and give `none` on every fuel then. Loops that wait for other threads take the list of what
-- happens in each wait, and give `none` while they still wait.
--
-- Not modelled: memory orders (an atomic access is one step), the code that calls the operating
-- system or only calls libc or mmtk, the stack bounds on Apple and OpenBSD, the trait
-- implementations that only forward to mmtk or to the VM, the example program, and the bytecode
-- macro of vmkit-proc, which is not compiled.
mod Prelude
pub mod Memory
pub mod Align
pub mod Tlab
pub mod Header
pub mod Object
pub mod Thread
pub mod Handshake
pub mod Manager
pub mod Compression
pub mod Finalization
pub mod Roots
pub mod Stack
pub mod Heap
pub mod Sync
pub mod Slice
pub mod Bdwgc
pub mod Scanning
pub mod Collection
pub mod Tracing
pub mod Derive
pub mod Libraries
