-- ===== src/Lib.antt =====
-- The relativistic hash table of this repository (Relativistic_Hash_Table/LibSource): a chained hash
-- table that many readers walk without a lock while one writer inserts, removes, doubles and halves,
-- under the protection of epoch-based read-copy-update.
--
-- The parts, and where they are modelled:
-- - Memory: the cells that all lists are made of, and programs as trees of atomic accesses. An
--   RcuSlistHead is an address with an atomic `next`; the `hash` of an RNode stands at the address of
--   its `head`, so that YJ_CONTAINER_OF is the identity. Memory/Ensures is the logic: total
--   correctness of a run, with a condition on every single access. Memory/Chain says what a list is
--   in memory, Memory/Leads what a reader can still reach and what a write must not take away.
-- - Slist: include/RcuSinglyLinkedListApi.h, a function each (insert_after for rcuSlistInsertAfter).
-- - Dlist: include/RcuDoublyLinkedListApi.h, with the `prev` of a head in the cell behind its `next`;
--   Dlist/Iter has the iterators. Dlist/Ring says what a list with its two directions is in memory,
--   and Dlist/Edit, Dlist/Remove, Dlist/Erase and Dlist/EraseBack are about the removals, over the
--   writes that Memory/Edit composes. Dlist/Client has the loops of RcuDlistTest
--   (Relativistic_Hash_Table/TestsAndExamples/RCUTableTests.cpp), which use the list as a client, and
--   Dlist/Verify, Dlist/Walk, Dlist/Check and Dlist/Fill are about them.
-- - Rcu: RCU.cpp with include/RCUTypes.h. Rcu/System has the accesses of rcuReadLock, rcuReadUnlock
--   and rcuSynchronize as steps of threads that interleave in any order; Rcu/Invariant and Rcu/Grace
--   are about the grace period, Rcu/Progress about its end. Rcu/Storage, Rcu/Stored and Rcu/Release
--   have the array that the counts of a zone stand in, with its set-up and its release. Rcu/Setup and
--   Rcu/Register are the sizes and the registry.
-- - Buckets, Resize: the bucket arrays of RCUHashTable.cpp, and the programs that double and halve
--   them. Table/Halving, Table/Shrink and Table/Reclaim are about the halving of a table,
--   Table/Remove about a removal that may halve it, and Table/Settle and Table/Synchronize, over the
--   accesses of a run that Memory/Trace lists, about the grace period behind a removal.
--   Table/Unreached, Table/Replace and Table/Retire are about the readers of the time after it, over
--   Memory/Sessions, Memory/Retires and Memory/Retired, which let readers run beside a writer;
--   Table/Sets and Table/Removal about what a removal does to the table as a set of nodes.
-- - Unzip: what an old bucket and its two new ones are while a table is doubled, and what it means
--   that a store of unzipOneSegment or findFirstUnzipPoint serves the readers. Unzip/Settled to
--   Unzip/OneSegment are about one segment, Unzip/Array to Unzip/Starts about the loops over all
--   buckets, and Unzip/Reader about a reader that walks in between. Table/Twice to Table/Expand put
--   the doubling of a table together, Table/Grow frees the old array, Table/TryInsert has the
--   insertion that may double and Table/Lookup the search behind it. Table/Contents forgets the
--   array: a table is the set of its nodes.
-- - Memory/Faults and Table/Exhausted are about a malloc that fails.
-- - Table: include/RCUHashTableCoreApi.h and the insertions of RCUHashTable.cpp. Table/Shape is the
--   invariant that ties a memory to the lists of its buckets.
-- - RTable: include/RCUHashTableApi.h, a table that owns its zone; RTable/Setup and RTable/Life are
--   about its set-up, its first insertion and its destruction.
-- - Tests: small memories and runs to which the theorems are applied.
--
-- Bounds and conventions. Words are numbers with their wrap-around written out. A loop over a list
-- takes fuel, and each theorem says how much is enough: more rounds than the list has nodes. A fault
-- is undefined behaviour: a null or dangling pointer, also behind a `hash` or in a `free`, a counter
-- of type int that overflows, or a failing assert; the theorems exclude it, but for Table/Exhausted.
-- An array has at most 2 ^ 30 buckets, since allocateAndInitBuckets counts them with an int; so a
-- table with as many cannot be doubled. The results of malloc and of new are arguments, and the
-- caller's predicates are functions of addresses. Floats are the record Resize.Load of the operations
-- that the resize tests use.
--
-- A theorem that says "Ensures (Keeps new gone)" speaks of every single store: between any two
-- accesses of the writer, a reader that does not stand at the cell `new` can reach all cells that it
-- could reach before, but for the cell `gone`; null stands for no cell.
--
-- A doubling or a halving waits for readers in between, so each of its accesses is judged against the
-- memory at the last grace period: "Watched (KeepsOrServes ..)" (Memory/Watched) says that an access
-- keeps what every reader can reach, or (Unzip.Serves) that a reader at a place that some new bucket
-- led to at that time can still reach every node of that bucket that it could reach. A reader that
-- has entered a new bucket before that time has left, since rcuSynchronize waits for it. The old
-- array may only be freed if it was not that of the table at that time.
--
-- Not modelled: the weak memory orders (all accesses are sequentially consistent), the wrap of the
-- int64_t epoch after 2 ^ 63 calls of rcuSynchronize, several writers at once (the library asks the
-- caller to serialise them), a `new` that throws, the read locks and the RTableReadLockGuard of
-- RCUHashTableApi.h, which only pass on to the zone, and rTableTryDetachNoShrink, which calls a
-- function that does not exist. The readers of RcuDlistTest are modelled one at a time; its threads,
-- the other tests, the benchmarks and the example program are not modelled.
mod Base
mod Bits
pub mod Memory
pub mod Slist
pub mod Dlist
pub mod Rcu
pub mod Buckets
pub mod Resize
pub mod Unzip
pub mod Table
pub mod RTable
pub mod Tests
