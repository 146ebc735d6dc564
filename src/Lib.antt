-- ===== src/Lib.antt =====
-- Verification of memory3d, a virtual machine with a three-dimensional memory: addresses are (X,
-- Y, Z) for a region, a plane of the region and a byte of the plane. The allocator places blocks
-- in planes by a bitmap for each plane, splits large blocks over planes, and opens new regions.
-- The machine fetches and decodes instructions, charges gas for them, and executes them on its
-- registers, on memory through a cache, and on a Merkle tree of what was stored.
--
-- - Prelude and its children: tests, lists, association lists and words of w bits, with the bit
--   lemmas.
-- - Types: internal/types. Types/Bitmap (bitmap.go) with the search in Types/Bitmap/Finding and
--   the counts in Types/Bitmap/Counting; Types/Plane (plane.go); Types/Allocation
--   (allocation.go); Types/Region (region.go); Types/Permissions (permissions.go); Types/Address
--   (address.go), its String and ParseAddress in Types/Address/Text; Types/Constants
--   (constants.go). Types/Fragmentation has the measures in floating point of bitmap.go,
--   plane.go, region.go and allocation.go, over the interface of Types/Float.
-- - Allocator: internal/allocator/allocator.go. State is the struct Allocator3D with the heap of
--   Allocation objects, Fast is tryFastAllocation and AllocateInRegion, Promotion is
--   tryYPromotion, Sync is allocateSync with allocateNewRegion, and Release is freeSync.
--   Placing, Validity, Preservation and Reachability hold the proofs. Ownership and its children
--   hold the invariant that ties a plane's bitmap to the objects entered in it, and what callers
--   may rely on while Y-promotion serves no request. It is for planes of up to 2 ^ 15 bytes,
--   where no search wraps; the machine's own planes have 65535. Workers is the channel and the
--   worker goroutines, with any interleaving of their steps as a relation. Allocator/Compaction
--   is the analysis for compaction, and Allocator/Promoter is ypromotion.go.
-- - Vm: internal/vm. Vm/Gas (gas.go), Vm/Registers (registers.go), Vm/Instructions (opcodes.go,
--   instructions.go and fetchInstruction of vm.go), Vm/Cache (spatial.go) with prefetchSpatial
--   in Vm/Cache/Prefetch, Vm/Memory (memory_manager.go, its tracking in Vm/Memory/Tracking).
-- - Vm/Machine: internal/vm/vm.go and executor.go. Machine is the struct VM3D, as the core that
--   the instructions work on, the gas account and the program counter; Machine/Operations has
--   the instructions of executor.go, Machine/Queries MQUERY3D and MCOMPACT3D, Machine/Loop the
--   gas table, executeInstruction and Execute, Machine/Api the methods for callers. The
--   allocator, the memory manager, the cache, the tree, the registers and the gas account are
--   parts of the machine and change only through the functions of their own modules.
--   Machine/Walk, Keeping, Holding, Settling, Rounds and Invariant hold the lemmas on all
--   instructions, on one round of the loop and on every method; Ending, Charging, Failing,
--   Storing, Reachability and Visiting the results on them. Machine/Arithmetic has the programs
--   that only calculate, with what they mean for the numbers in the registers; one of them is
--   built by cmd/vm3d/main.go.
-- - Command: the scenario of cmd/vm3d/main.go.
-- - Merkle: internal/merkle/tree.go, with the hash function and the order of visiting the map as
--   parameters.
-- - Tests: runs at concrete inputs, and instances of the theorems.
--
-- A Go function is the function of the same name in snake case. Integers are natural numbers
-- with the wrap of their width written out. An error or a second result is an Option or a data
-- type, and a run-time panic is a constructor of its own. Pointers to Allocation objects are
-- indices into a heap that is passed along; the other objects are records, and a change made
-- through a pointer is written back to the list it stands in. A Go map is an association list,
-- whose order is the order in which range happens to visit it. The map of allocations of the
-- memory manager is visited in an order of its own by every call, the field `visits`. Allocate
-- and Free hold the allocator's mutex from beginning to end, so each is one step;
-- AllocateInRegion takes no lock, and is a step where its caller lets no other call run beside
-- it. A worker takes a request in one step and runs it in another, and its run-time panic ends
-- the process. The clock is an argument; the machine's instructions take theirs from Host, with
-- the hash function and the orders of visiting the maps of tree nodes and of allocations, and
-- read it once each. Numbers of type float64 are those of an interface, FloatOps, of which
-- nothing is assumed.
--
-- Loops are structural: over the words of a bitmap, over the positions of a range, over lists.
-- The loop over the free bits of a word has fuel 65, for 64 bits and the last test; the theorems
-- on the search show that it suffices, since a search that stopped short would miss a run. The
-- loop of Execute has fuel one more than the length of the program, since each round moves the
-- counter on; the theorem on its end shows that this is enough. The digits of a printed uint64
-- have fuel 20. The loops of the prefetch take their fuel as an argument, and running out is a
-- result of its own.
--
-- Not modelled: the results of floating-point arithmetic, logging, the times in the statistics
-- and the metrics of the machine, the pause that nothing sets, the channel for frees that
-- nothing uses, and the profiles, the HTTP server and the sleep of cmd.
pub mod Allocator
pub mod Command
pub mod Merkle
pub mod Prelude
pub mod Tests
pub mod Types
pub mod Vm
