-- ===== src/Lib.antt =====
-- Verification of tinySTM, the software transactional memory of this repository, in its default
-- configuration (tinySTM/Makefile: write-back with commit-time locking, suicide contention
-- manager, invisible reads, internal statistics; 64-bit words).
--
-- The program. Application threads run transactions over shared words. Each word is covered by an
-- entry of a table of versioned locks. A transaction remembers what it has read with the version
-- of its lock, records its writes, and at commit takes the locks of what it writes, draws a time
-- from the global clock, validates its reads, installs the writes and gives the locks the new
-- version. All of this is tinySTM/src/stm.c, with the types of tinySTM/include/stm.h.
--
-- The model. `Machine` has the shared state (memory, locks, clock) and one thread's atomic
-- accesses to it; before each of them the other threads may change the shared state in any way
-- that the environment says, so every function below is a run of one thread among others. `Word`
-- has the macros on lock words, `Descriptor` the descriptor `stm_tx_t` and how calls end (a
-- return, a jump back by siglongjmp, exit, or waiting without end), `Sets` the read and write
-- sets. `Validate` is stm_validate and stm_extend, `Restart` stm_prepare, stm_check_quiesce and
-- stm_rollback, `Read` stm_read_invisible (stm_load), `Write` stm_write (stm_store, stm_store2),
-- `Commit` stm_commit, `Api` the other calls, `Unit` the unit transactions, `Registry` callbacks
-- and slots, `Threads` the list of descriptors (stm_quiesce_enter_thread,
-- stm_quiesce_exit_thread), and `Barrier` stm_quiesce_barrier for all threads, as states that
-- they reach.
--
-- Beside the core, `ModLog` is the undo log of tinySTM/src/mod_log.c over memory of bytes,
-- `ModMem` the dynamic memory of tinySTM/src/mod_mem.c, which writes through `Write`, `ModCb` the
-- callbacks of one transaction of tinySTM/src/mod_cb.c, and `SlidingWindow` the windows of
-- samples of tinySTM/include/sliding-window.h. `Wrappers` has the loads and stores of bytes and
-- of typed values of tinySTM/src/wrappers.c, over `Read` and `Write`. `Gc` is the epoch-based
-- collector of tinySTM/src/gc.c, whose operations run one at a time, and `HashTable` the table of
-- revalidation times of tinySTM/src/mb-hash-table.c. What malloc and realloc give is an argument
-- in the modules of tinySTM, does not fail in `Gc` and is no part of `HashTable`; calls of free
-- are recorded, and doubles are a parameter. `NbbList` is the lock-free queue of
-- TPCC/Server/core/nbblist.c, which the server of the benchmark keeps its tasks in: a call is a
-- state of its thread, one step is one access to the list, and a schedule lets the threads take
-- their turns. `MemAlloc` is the node allocator of the same file, in the same form; the queue's
-- values are its node numbers.
--
-- The proofs. `Snapshot` says what the other threads keep, as a history of committed values with
-- which memory, locks and clock agree, and follows a read through its loop. `Quiet` has the
-- thread that is alone; the modules below `Commit` follow a commit of such a thread through its
-- phases. `Read.Alone`, `Write.Alone` and `Unit.Alone` have its loads and writes, `Write.Lookup`
-- and `Write.RoundTrip` what a transaction finds of its own writes, `Word.Bits` the laws of
-- masks, the modules `Bounds` the sizes of arrays, and `Threads.Chain` the list of descriptors as
-- a sequence. `Barrier.Blocked` and `Gc.History` are inductions over the states that threads
-- reach, `ModLog.Undo` follows the log through a transaction, `HashTable.Memo` compares the table
-- with the calculation, and `SlidingWindow.LastTen` the window with the samples. `Word.Digits`
-- has the laws of bitwise operations digit by digit. `NbbList.Fifo` relates the ring to a
-- sequence, `NbbList.Insert` and `NbbList.Remove` follow each access, and `NbbList.Linear` and
-- `NbbList.Answers` the schedule, `NbbList.Alone` and `NbbList.Progress` a call that goes on
-- alone; `MemAlloc.Bitmap` has single bits of a chunk, and `MemAlloc.Held` the schedule of the
-- allocator. `Wrappers.Store` has the bytes that a transaction has written itself,
-- `Wrappers.Written`, `Wrappers.Fill` and `Wrappers.Load` follow the loops over words, and
-- `Wrappers.Typed` the widths. `Tests` has concrete runs, and the theorems at concrete inputs.
--
-- Bounds and fuel. A loop that waits for another thread, or starts over because another thread
-- got in between, is given up after `spins` rounds, a number of the environment, and ends in
-- `spinning`; one round is enough for a thread that is alone. The walk through the list of
-- descriptors is looked at for a number of steps that is an argument, and as many as the list is
-- long are enough. The search of mb_calculate has 64 rounds, and gc_init_thread looks at each
-- slot once. A schedule of `NbbList` is any list of turns; round numbers have 32 bits, and the
-- theorem bounds the schedule so that they do not wrap. Other loops are recursions on the
-- entries. Words are numbers, and additions that can wrap are written modulo 2 ^ 64. The sizes of
-- the read set, the write set and the undo log are C ints: doubling one is written modulo 2 ^ 32,
-- and from 2 ^ 31 on it is negative.
--
-- Not modelled: other designs, contention managers and configurations, set-up and tear-down of
-- the library and of threads, what registered callbacks do (their calls are recorded), the kernel
-- module, and the benchmarks except for that queue and its allocator. The priorities of
-- TPCC/Server/core/priority.c, which use both, are left out. The build of tinySTM defines NDEBUG;
-- the assertions of stm_quiesce_exit_thread and of the commit and abort of the undo log are
-- executed all the same, and no others. What a write leaves unset in its entry is what the
-- environment says it held before. Of the table of revalidation times the set-up and the pool of
-- blocks are left out, and of the modules their registration. The transactions see the barrier at
-- which the clock starts again from one thread, and `Barrier` has a fixed set of threads. A lock
-- is named by its index, an allocation that fails ends in `exited`.
pub mod Prelude
pub mod Word
pub mod Machine
pub mod Descriptor
pub mod Sets
pub mod Validate
pub mod Restart
pub mod Read
pub mod Write
pub mod Commit
pub mod Api
pub mod Snapshot
pub mod Quiet
pub mod Registry
pub mod Unit
pub mod Threads
pub mod ModLog
pub mod ModMem
pub mod ModCb
pub mod SlidingWindow
mod Tests
pub mod Gc
pub mod HashTable
pub mod Barrier
pub mod NbbList
pub mod Wrappers
pub mod MemAlloc
