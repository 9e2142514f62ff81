-- ===== src/Lib.antt =====
-- A verification library for the carpincho operating system: three servers in C that schedule
-- processes, page their memory and keep swap files.
--
-- The kernel (kernel/src) accepts processes, schedules them (kernel.c), runs their semaphores and
-- devices (petitionHandlers.c, mateSem.c) and looks for deadlocks (deadlockDetector.c,
-- deadlockResolver.c). The memory (memory/src) assigns frames to pages, replaces them (memory.c) and
-- caches translations (tlb.c). The swap server (swamp/src) stores pages in files (swapFile.c, swap.c,
-- petitionHandlers.c). They talk in packets whose payload is a byte buffer (shared/src/serialize.c)
-- and hand processes over in queues with a counting semaphore (shared/src/pQueue.c).
--
-- Files and code:
--   Prelude and below: tests, lists, searches, byte blocks and integers over the native numbers.
--   Shared/Commons: the so-commons library, which is not part of the repository, as records of
--     operations with the laws the code relies on; insertion sort and the like show that they hold.
--   Shared/Stream: serialize.c (streamAdd, streamTake and what is built on them).
--   Shared/Queue: pQueue.c. Shared/Networking: networking.h, and in Sockets networking.c.
--   Swamp/SwapFile: swapFile.c. Swamp/Swap: swap.c and the requests of petitionHandlers.c, and in
--     Serving the loop that serves the memory.
--   Kernel/Detector: deadlockDetector.c. Kernel/Resolver: deadlockResolver.c.
--   Kernel/State: process.h, mateSem.c, IODevice.h and the variables of kernel.h.
--   Kernel/Petitions: petitionHandlers.c. Kernel/Scheduler: the threads of kernel.c.
--   Memory/Tlb: tlb.c. Memory/Frames and Memory/Clock: the frames, assignments and replacement
--     algorithms of memory.c.
--   Memory/Paging: pageTable.c and the replacement of a page, replace of memory.c.
--   Memory/Access: getFrame and swapPage of memory.c.
--   Memory/SwapInterface: swapInterface.c, in Protocol and Remote against the swap server.
--   Memory/Heap: heap_read and heap_write of petitionHandlers.c, over a pager whose promises are
--     IsPaging in Flat; Memory/Petitions: the handlers of petitionHandlers.c, whose pager is getFrame,
--     in Resident where all pages of a process are in memory, and Accesses its reads and writes then;
--     in Allocator memalloc and memfree, whose search is in FirstFit.
--   Memory/Serving: petitionHandler of memory.c, in Replies and Sessions over a connection.
--   Tests: every theorem at a concrete input.
--
-- Correspondence: a struct is a record and a pointer to a shared struct an address into a store; an
-- operation is a function from state to state that has the name of the C function. Each function
-- runs under the mutexes the C code takes, so it is one step, and a thread is the step that its loop
-- repeats. A wait on a semaphore without permits is `none`, and so is a search that leaves its array.
-- -1 and NULL are `none`. Unsigned arithmetic keeps its wrap-around; `int` counters are integers.
--
-- Fuel: the growth of a buffer runs on as many rounds as it needs bytes, 64 being added in each; the
-- nested calls of the search for a circular wait run on one more than the number of processes, since
-- each adds a process to `seen`; the chunk loops of the swap server on one more than the number of
-- pages; `clock_m` on rounds of both its loops, of which two are enough; the loop that resolves
-- deadlocks on any fuel. `recv_all` and `send_all` run on as many rounds as they move bytes, one at
-- least in each; the search of memalloc on a number of blocks that the caller gives, and is `none`
-- where the chain is longer; `serve`, the loop over the petitions of a client, on any fuel.
--
-- Connections: `recv` and `send` are arguments, with what the system documents of them as the laws
-- IsDelivering and IsAccepting of Shared/Networking/Delivery: bytes come in any pieces, in order.
--
-- Not modelled: the opening of connections, the loop of the kernel over the packets of a process,
-- the client library libmate, configuration, logs and delays. The replacement of a page
-- takes the swap server as operations; reads and writes of a heap are followed only
-- while its pages stay in memory. The dictionaries of serialize.c are left out because their order is not documented.
pub mod Prelude
pub mod Swamp
pub mod Shared
pub mod Kernel
pub mod Memory
mod Tests
