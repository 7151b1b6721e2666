-- ===== src/Lib.antt =====
-- tlstm, a software transactional memory with thread-level speculation: a program thread's
-- transactions are split into tasks that run in parallel and commit in the order of their serials.
--
-- The parts and how they interact. A task's descriptor (`TxMixinv` of src/stm/transaction_mixinv.h)
-- logs its reads and writes in logs (src/stm/common/log.h). An address maps to a stripe with two locks
-- in `version_lock_table`: the read lock holds a version word (src/stm/common/version_lock.h), the
-- write lock points to the write log entry of the task that has it, and that entry's `old_entry` to the
-- entry of the past task below it. Commits take their timestamps from a global counter
-- (src/stm/common/timestamp.h); a validation thread for each program thread extends the timestamp to
-- which its read logs are valid; a contention manager decides who gives way at a write lock.
--
-- The files:
-- - Prelude and its children: what all modules share, among them words as sequences of bits.
-- - Common/*: constants.h, version_lock.h, timestamp.h, large_lock_set.h and sampling.h of src/stm.
-- - Log: the operations of log.h; Log/Contents has the log as a list, Log/Iterate the iterator,
--   Log/Size `get_size` and `get`.
-- - Tx/State: the records of transaction_mixinv.h, and one record of all that the threads share.
-- - Tx/WordLog: the words logged under one lock; Tx/WordLog/Store relates them to direct stores.
-- - Tx/Locks: the map from addresses to locks. Tx/Control: how an operation leaves.
-- - Tx/Rollback: `Rollback`, `RollbackTransaction`, `ReadyToAbortTransaction`, `TxRestart`, `TxAbort`.
-- - Tx/Validate: `Validate`, `ValidateTx`, `ValidateTLS`, `ValidateCommit`, the `Extend` functions and
--   `validate_transaction`. Tx/Contention: `ShouldAbortWrite`, `CmStartTx`, `CmOnAccess`.
--   Tx/Validate/Chain: the walks along `old_entry`.
-- - Tx/Write: `WriteWord`, `LockMemoryStripe`, `TxFree`; Tx/Write/Chained: the chain of entries under a lock. Tx/Read: `ReadWord`.
-- - Tx/Commit: `TxCommit`, `TxTryCommit`. Tx/Start: `GlobalInit`, `ThreadInit`, `TxStart`.
-- - ReadWrite: read_write.h. ReadWrite/Union: `read_write_conv_t` and the transaction as bytes;
--   ReadWrite/Read and ReadWrite/Write: accesses of 1, 2, 4 and 8 bytes; ReadWrite/Float: floating-point
--   numbers as bit patterns; ReadWrite/Region: `read_region`, `write_region`, `memmove_tx`;
--   ReadWrite/Memset and ReadWrite/Strings: `memset_tx`, `strcmp_tx`, `strncmp_tx`.
-- - Memory: `MemoryManager` of memory/memory_impl.h. Memory/Chain has the lists of buffers;
--   Memory/Allocations, Memory/Abort, Memory/Commit, Memory/Dominated and Memory/DoubleFree are about
--   `TxMalloc`, `TxAbort`, `TxCommit`, `FreeDominated` and two aborts in a row.
-- - PrivatizationTree: privatization_tree.h, which the build with privatization uses.
--   PrivatizationTree/Index: the indices; PrivatizationTree/Consistent, PrivatizationTree/Attained and
--   PrivatizationTree/Wait: what a call leaves, the root's timestamp, and the test of `wait`.
-- - The children of these hold the theorems, Tests their examples.
--
-- How the code is modelled. The build is the default one for 64 bits: CHUNKED_LOG, COMMIT_TS_INC,
-- MM_EPOCH, WAIT_ON_SUCC_ABORTS, two-phase greedy contention management, and none of ADAPTIVE_LOCKING,
-- privatization, signals or local writes. Functions are in the source's words with underscores. State
-- is passed explicitly. Descriptors are numbered by `tid`, addresses and locks are numbers, a pointer
-- to a write log entry is a descriptor and a place in its log. `Word` and `unsigned` keep their
-- wrap-around where the source can reach it. An operation is one step up to the loop in which it waits
-- for another thread: the result `again` names that loop, with the state at its head, and the pass
-- after it is a function of its own. A jump to the start of the task is the result `restarted`. So the
-- interleavings that the model has are those at waits, and between operations.
--
-- Bounds and fuel. The walk along `old_entry` has no bound in the code; here it has the first entry's
-- serial and one as its fuel, which is enough for a chain along which the serials fall; a write keeps
-- them falling, under the conditions stated at Tx/Write/Chained. The loops that set the lock
-- table have its size as their fuel, twice what they need. The loop of
-- `get_size` runs on a fuel that is an argument, and the theorem about it holds for every fuel. The loops over the words of a region have one more
-- than its bytes as their fuel; the theorems show that this is enough. The comparison of strings runs on
-- a fuel that is an argument: two rounds for each byte are enough. The
-- loops over lists of buffers need one round more than there are buffers. A call on the
-- privatization tree goes up at most 6 levels, with fuel for one more.
-- All other loops are recursions on what they run over.
--
-- The descriptor records its calls of the memory manager, and its own reads and writes of words; the
-- memory manager and the accesses of other sizes are models of their own, with the descriptor's part as
-- arguments.
--
-- Not modelled: the variant of the memory manager for MM_PRIVATIZATION, calls on the
-- privatization tree that overlap, 128-bit accesses and `qsort_tx`, statistics
-- beyond their counts, the platform layer, the interfaces to compilers, the older variants of the descriptor and the benchmarks.
pub mod Prelude
pub mod Common
pub mod Log
pub mod Tx
pub mod PrivatizationTree
pub mod ReadWrite
pub mod Memory
pub mod Tests
