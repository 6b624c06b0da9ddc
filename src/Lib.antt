-- ===== src/Lib.antt =====
-- vgc-malloc: a memory allocator on anonymous shared mappings, with guard pages and robust mutexes
-- shared between processes.
--
-- The program keeps a shared record (VGC_shared) with the page size, the size of an MMAP block and the
-- list of MMAP blocks. An MMAP block starts with a header (VGC_mmapHeader) and is filled with a
-- doubly linked chain of blocks, each behind its own header (VGC_mallocHeader). vgc_malloc walks the
-- MMAP blocks and takes the first free block with enough room, splits it, and makes a new MMAP block
-- where none has room; vgc_free joins a block with its free neighbours and unmaps an MMAP block that
-- is free as a whole. Each header carries a page that mprotect closes. All locks are taken through
-- the pthread wrappers, which print a message for each failure.
--
-- Which file models what:
--   Base      native numbers, tests, arithmetic modulo 2 ^ 64, lemmas that the parts share
--   Errno     the error codes that the wrappers tell apart, and a printed message
--   Pthread   src/vgc_pthread.c: PTHREAD_mutexLock is mutex_lock, and so on; a wrapper is a function
--             of the answers of its calls into a result and the messages printed. Rwlock and Thread
--             hold the wrappers of those names, Laws what they return
--   Network   src/vgc_network.c: do_bind, do_listen, do_accept, do_read, do_write, do_socket and
--             do_connect, likewise; Laws what they return
--   Memory    src/vgc_malloc_private.h: the headers as records, the memory as maps from addresses to
--             headers, the locks held, the messages printed, and the monad of the allocator; a load or
--             store at an address that is not mapped, or that holds no header, is a fault, and so is a
--             memset or memcpy on a page that is closed. Ends: a run that ends without one; Where:
--             what holds where a run ends; Locking: the locks held
--   System    the calls of the operating system, as a parameter: an answer for each numbered call;
--             Locking: the locks that the wrappers take and give back
--   Mprotect  src/vgc_mprotect.c: do_mprotect, VGC_mprotect (mprotect), VGC_munprotect (munprotect)
--   Malloc    src/vgc_malloc.c. Sizes, Check: checkMmapBlock, isInMmapBlock; Region: allocMMAP,
--             mmapBlockAllocate, freeMMAP; Block: allocMallocBlock, freeBlocksNext, freeBlocksPrev;
--             Release: vgc_free; Api: vgc_malloc (here malloc), vgc_calloc, vgc_realloc; Locks: an
--             unlock with its message; Address: the address handed out against the header; Start:
--             initializeShared; Balance: the locks on every path; Entry, Alone: two threads in
--             vgc_malloc, in steps; Faults: after a failed mmap, and after the first MMAP block is
--             unmapped; Dump: dumpMmapBlock; Shown, Quiet: what the dump needs and keeps; CheckMmap:
--             vgc_mallocCheckMMAP; Stop: my_init, my_fini, mallocCleanup
--   Chain     what the theorems rest on. The headers of an MMAP block are seen as a list of cells (a
--             size and a status), and Chain says that memory holds this list; Mmap is the invariant of
--             an MMAP block. Frame and Patch: a part of a chain is changed. Search, Take, Carve,
--             FirstFit, Alloc, Grant: allocMallocBlock and its specification. Join, Coalesce, Free:
--             the joining of vgc_free and its specification. RoundTrip, Undo: both, one after the
--             other. Printed: dumpMmapBlock ends. Check, Silent, Judged: checkMmapBlock. Guard: the
--             page of a block that is used again. Fresh, First: a new MMAP block. Given, Released,
--             Freed, Regain, Started: vgc_malloc and vgc_free as a whole. Dump: dumpMmapBlock
--   Heap      the list of MMAP blocks as an invariant of the memory. Frame: what a change in one block
--             keeps of the others. Walk, Serve, Link, Grow, Malloc: vgc_malloc over the list, with a
--             new MMAP block where none has room. Inside: isInMmapBlock. Free: vgc_free while the
--             block stays in use; Unlink, Release, Unmap: where it is free as a whole. Full:
--             vgc_malloc where mmap fails; Torn: vgc_free where a lock is refused; Made, Race: two
--             threads in vgc_malloc on an empty heap. Dump: vgc_mallocCheckMMAP
--   Children  src/vgc_mprotect_mp.c: the table of child processes and the events outside of it. Table:
--             findFreeChild, countChildren; Thread: startChildThread, removeChildThread; Distribute:
--             mprotectDistribute; Server: manageCorruptionThread; Lifecycle: the others. Unique,
--             Entry, Deliver, Count, Spin hold the theorems
--   Message   src/vgc_message.c: vgc_messageInit and vgc_message on texts, lists of character codes;
--             Layout holds the theorems
--   Stacktrace  src/vgc_stacktrace.c: the frames that are shown, and the signals
--   Pkey      src/vgc_mprotect_pkey.c: do_mprotect with protection keys (here pkey_do_mprotect); Laws
--   Tests     runs of the model, and the theorems at concrete inputs
--
-- Bounds and fuel: the loop of a function runs on fuel. The chain of an MMAP block has at most as many
-- blocks as the block has bytes, so the loops over it get one more than shared->mmapBlockSize; the
-- loops over MMAP blocks get one more than the counter of blocks. Running out of fuel is an outcome of
-- its own, and a theorem that a function ends excludes it, and a fault. Sizes wrap at 2 ^ 64
-- as size_t does, and lengthOrig is an int. An MMAP header is 4096 bytes long and a malloc header 8192,
-- as the build with guard pages lays them out. The loops of manageCorruptionThread are meant to run for
-- ever; their fuel is the number of calls, and a theorem about them speaks of every amount.
--
-- Not modelled: the text of formatted arguments and, outside of Message, the messages below
-- ERROR_LEVEL (a log has the title, subtitle and status of the others); what addr2line answers, but
-- that it is a line; the registers that the signal handler changes; the stack traces of a dump
-- without a buffer, which checkMmapBlock and vgc_free make of a block that they find wrong (quiet
-- takes them to be shown without a fault); VGC_mprotect and VGC_munprotect of
-- src/vgc_mprotect_pkey.c, which do not compile; the C++ operators, which only call the allocator;
-- other threads, which act between the steps: a run is that of one thread that holds the locks it is
-- granted, but for the two threads of Malloc/Entry.antt, which take turns at four steps each, with
-- mmapBlockAllocate as one of them, and the thread that startChildThread starts, which enters its
-- socket in the table at once. An MMAP block that is unmapped is gone for all, and memory that the
-- user writes is not related to the headers.
pub mod Base
pub mod Errno
pub mod Pthread
pub mod Network
pub mod Memory
pub mod System
pub mod Mprotect
pub mod Malloc
pub mod Chain
pub mod Children
pub mod Pkey
pub mod Message
pub mod Stacktrace
pub mod Heap
mod Tests
