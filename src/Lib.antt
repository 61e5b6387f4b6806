-- ===== src/Lib.antt =====
-- The memory and kernel runtime of Parallax, modelled from its C++ sources.
--
-- The program and how its parts meet. A program that is compiled for Parallax allocates through the
-- heap capture (src/memory/heap_capture.cpp), which serves operator new, malloc and their kin from
-- one process-wide pool (src/memory/heap_pool.cpp) and falls back to glibc. On first use the runtime
-- (src/memory/unified_allocator.cpp) builds a Vulkan backend (src/backend/vulkan/device.cpp), a table
-- of mapped buffers (src/memory/unified_buffer.cpp) and an arena (src/memory/arena.cpp). The arena
-- either adopts the pool's reservation as a device buffer or holds a buffer of its own, from which it
-- allocates blocks and which it migrates around launches. The C entry points of src/kernel/cache.cpp
-- load kernels on their first look-up, launch them through the kernel launcher, and then mark the
-- output's blocks in the table of buffers. An algorithm of include/parallax/stdpar.hpp calls these entry
-- points on its range, where the arena has it, or on a copy in the arena, and otherwise runs its loop.
--
-- Which file models what:
--   Prelude       tests on numbers, lists, maps, 64-bit words with their wrap-around, and align_up
--                 as the mask of the source with what it computes
--   Vulkan        the driver: what a call answers is an argument of the model (a record Answers per
--                 component), what the runtime asks of it is a list of commands, oldest first;
--                 find_memory_type of arena.cpp and unified_buffer.cpp
--   Backend       VulkanBackend of include/parallax/vulkan_backend.hpp and device.cpp
--   Arena         UnifiedArena of include/parallax/arena.hpp and arena.cpp: allocate, deallocate,
--                 contains, offset_of; Arena.Setup: initialize and destroy; Arena.Import:
--                 initialize_from_pool; Arena.Migrate: the copies between staging and device
--   UnifiedBuffer DirtyBlock and UnifiedBuffer of include/parallax/unified_buffer.hpp
--   MemoryManager the table of buffers of unified_buffer.cpp; MemoryManager.Lifetime is the relation
--                 of the states that its calls reach
--   HeapPool      heap_pool.cpp on a memory of words: the layout of blocks and payloads and the tiling
--                 check; HeapPool.Bins: the free lists, block_alloc, block_free and the set-up;
--                 HeapPool.Interface is what the pool's clients call
--   HeapCapture   heap_capture.cpp, over the pool's interface and glibc's allocator as arguments
--   Runtime       the globals of unified_allocator.cpp and its C entry points
--   Kernels       cache.cpp over the launcher as an interface, Kernels.Launcher, of what its entry
--                 points call
--   Launcher      KernelLauncher of include/parallax/kernel_launcher.hpp and kernel_launcher.cpp: the
--                 migration scopes; Launcher.Push: the push-constant block; Launcher.Device: the
--                 members, the events that a method causes and the methods' monad; Launcher.Steps and
--                 Launcher.Dispatch: what the methods share; Launcher.Pipelines: the constructor, the
--                 destructor, load_kernel and initialize; Launcher.Single, Search, Reduce, Scan, Sort
--                 and Compact: the launches; Launcher.Calls: sequences of calls on one launcher, with
--                 the turns of others between them; Launcher.Keeps: how a predicate is carried through
--                 the methods; Launcher.Quiet: which steps leave the descriptor pool as it is. The other
--                 modules are on one question each
--   Stdpar        include/parallax/stdpar.hpp over the C entry points as an interface, Entries: the
--                 funnels in Stdpar.Maps, Folds, Sorts, Compactions and Counts, the algorithms in
--                 Stdpar.Algorithms; Stdpar.Ranges and Overwrites are about ranges of elements,
--                 Stdpar.Staging about a kernel between its copies, and Stdpar.Simulated is a runtime
--                 that does on the host what the kernels are to do, for runs. A law of a kernel is
--                 one of the launch that an algorithm makes, at the state and the pointers that it is
--                 made with, since the entry points report no failure
--
-- Representation. Addresses, handles and sizes are natural numbers, 0 is null; arithmetic that can
-- wrap keeps its `% 2 ^ 64`. An unordered_map is an association list, since the source never depends
-- on its order. A function that changes members returns the changed record. Strings that only serve
-- as keys or names are numbers. Logging is left out. The launcher's events stand newest first, since
-- what the driver answers, and what the host reads in mapped memory, are functions of the events so
-- far; the doubles of launch_argminmax are a record of their comparisons. A method that returns early
-- with a failure returns `none`, and keeps what it did before. In the front end the memory maps the
-- address of an element to the element, an iterator is an address, and copies are by elements.
--
-- Bounds and fuel. The arena's invariant keeps the capacity at or below 2^62, and requests, with
-- their alignment, at or below 2^62 as well, far from the end of the words. The search of
-- the lowest memory type has the 32 rounds of the source. The tiling check of the pool takes one
-- round per block; a block has at least 32 bytes, so that a round for every byte of the reservation
-- is enough, unless an offset wraps and comes twice: then the check never ends, and gives `none`. The search of a bin takes one round per block of the bin, and a reservation of n bytes
-- has at most n / 32 blocks. The loop of launch_reduce and the recursion of launch_scan get one round
-- for each element and one more, since 2 elements or more become fewer in each round. The loop of
-- launch_sort over k gets 33 rounds and its inner loop 32, where a word of 32 bits that is shifted to
-- the left is 0 by the 33rd; a loop over k that has not ended by then never ends, and is modelled as a
-- result of its own. The loop of device_sort over powers of two gets 64 tests, after which the word is
-- 0 for ever. The loop that rounds an alignment up gets 60 tests, enough for an alignment of at most
-- 2^63. All other recursion is on a list or on a count of elements.
--
-- Not modelled: what a kernel computes, since the compiler makes its SPIR-V; what vkCreate* is given
-- beside the handles and sizes that depend on the launcher's state; the template of
-- include/parallax/allocator.hpp; iterators of stdpar.hpp that are not contiguous; the validation layer
-- and the macOS branches of device.cpp; the shaders, which are generated; and concurrency, which the
-- pool handles with one lock around each call.
pub mod Prelude
pub mod Vulkan
pub mod HeapPool
pub mod Arena
pub mod UnifiedBuffer
pub mod MemoryManager
pub mod Backend
pub mod HeapCapture
pub mod Runtime
pub mod Stdpar
pub mod Kernels
pub mod Launcher
