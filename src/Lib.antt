-- ===== src/Lib.antt =====
-- The crate read-write-store is a concurrent collection: `RwStore` gives every element an ID and a
-- read-write lock. An element lives in a slot of a block; a slot has a 64-bit header word that
-- holds the slot's ordinal, its lock and a mark for waiting threads, all changed by atomic
-- operations. A store has sixteen buckets, each a chain of blocks that doubles in size, and a
-- queue of erasures, the slots that removals have freed. `insert` takes an erasure or asks a
-- bucket for the next unused slot, and occupies it; `remove`, `read` and `write` go by the ID
-- straight to the slot's header.
--
-- Files, and the code that they are about:
--
-- - Header: src/header.rs. Word has the bit functions under their names, with their debug
--   assertions. Code has the methods of `Header`, cut at their atomic operations: a `Pc` is a
--   place in the code with its live locals, `advance` does one atomic operation and computes up to
--   the next. System interleaves any number of threads on one header and adds `Park` of
--   src/util/sync/park.rs, with what the rest of the crate keeps to: IDs come from the slot, a
--   lock is released by its holder, a vacated slot is offered to one insertion. Abstract says on
--   plain numbers what the steps mean, Invariant has the invariant of the system, Safety what
--   follows from it, Solo runs a call with no other thread about, Exclusive has the methods of a
--   thread that has the slot to itself.
-- - Park: `Park::park` of src/util/sync/park.rs as it is built on parking_lot, whose `park` is a
--   parameter. DebugCheck: src/util/debug_check.rs in builds with and without debug assertions,
--   with the unchecked functions of the standard library as parameters.
-- - Id: src/id.rs and src/rwstore_id.rs. Timeout: src/timeout.rs.
-- - Slot and Block: src/block.rs. Slot has what `Block` does with one slot, Block the heap of
--   blocks and the scrambled addresses, Block.Layout the layout arithmetic of `Block::new` on
--   64-bit numbers, with the sizes and alignments that the compiler chose as parameters.
-- - Bucket: src/bucket.rs. Bucket.Sharing has any number of threads in `next_insert_location` of
--   one bucket: a `Place` is a place in the code, `lookup_step` a lookup (one `fetch_add`) or an
--   expansion, `Move` what a thread does to the lock of src/util/sync/rwlock.rs, which has readers
--   or one writer; Given and Stock say which slots were handed out and which are left, Exclusion
--   and Invariant what holds between steps, Kept that it does, Safety what follows. Queue:
--   src/util/sync/concurrent_queue.rs. Lock: src/lock.rs.
-- - Store: src/lib.rs. View has the map from IDs to elements that a store stands for; Insertion,
--   Removal, Access and Guards say what the methods do to it, Blocking compares the methods with
--   and without a timeout, Capacities bounds what `capacity` returns. Invariant says when a whole
--   store is in order: its buckets, its slots and its queue of erasures. Spec has the calls, the
--   replies and the abstract state of a specification, Client what each call does in the code and
--   whole programs of calls, Refines that they do what the specification says.
-- - Iter: src/iter.rs, Iter.Yields what a whole iteration gives, Iter.Contents and Iter.Stores
--   what that is for a whole store, Iter.Sizes what `size_hint` is, Iter.Places and Iter.Drains an
--   iteration that changes the slots that it visits, Iter.Once that no ID comes twice, Iter.Owned
--   `into_iter` over a whole store. Store.Sharing has any number of threads with calls on all the
--   slots of a store: a `SharedStep` is a step of a call on one slot's header, or takes a slot
--   from the queue of erasures, or one from a bucket that was not handed out before, or queues a
--   slot again. Store.Whole puts the buckets of Bucket.Sharing, all sixteen on one heap, in the
--   place of that condition: a `WholeStep` is a step on the slots, or of a lookup in a bucket, or
--   of an insertion at the location that a lookup has returned; Apart and Lookups say that what
--   the buckets hand out is apart, Safety what follows for insertions. Slots is about each slot by
--   itself, as a system of Header, Safety about all of them. Store.Dropping and Store.Dropped are
--   about what is dropped with a store, `drop_store`: Rust drops the fields of a struct in order,
--   so the buckets one after the other, the chain behind a block before its slots. Tests: samples,
--   and the theorems at concrete inputs; HeaderTests, BlockTests, StoreTests and IterTests are the
--   unit tests of src/header.rs, src/block.rs, src/lib.rs and src/iter.rs, run on the model.
-- - Prelude: shared names, panics, lists, counting, and the bit operations as arithmetic. `unwrap`
--   is the checked accessor of src/util/debug_check.rs.
--
-- The model is of a build with debug assertions: a failed assertion, a checked overflow or an
-- unwrap of nothing is a `panicked` result. Numbers are natural numbers, with the wrap-around
-- written where the code wraps. A pointer to a slot is an allocation, numbered by a counter of the
-- heap, with an index. Dropping a slot casts a pointer to its cell, an `Option` in such a build,
-- to a pointer to the element: what is found there is up to the compiler's representation of the
-- option, and a parameter. Atomics are sequentially consistent; a weak exchange may fail without
-- reason. `Park` is the lock with a condition variable that src/util/sync/park.rs implements for
-- loom, with a deadline for sleepers that have one. The header is run by any number of threads, of
-- which at most `max_concurrent_reads` for the theorems. A bucket is run by any number of threads,
-- of which at most `2 ^ 30` for the theorems, so that the counter of slots asked for does not
-- wrap. So is a store as far as its headers and its queue go, of which at most
-- `max_concurrent_reads` threads for the theorems, and `2 ^ 30` with the buckets, of which each
-- may have handed out fewer than `2 ^ 31 - 1` slots. The elements, the blocks and whole methods of
-- the store are run by one thread: a header call is then run for eight steps: a call that does not
-- wait makes at most two atomic operations and an unpark; one that waits makes one, takes the
-- queue, runs its closure, marks the word, goes to sleep and may wake up by its deadline. A weak
-- exchange of a thread that is alone is taken to succeed where the word is the expected one: in
-- the code it may fail for no reason, and is tried again, which changes the number of steps and
-- not the result. A program on a store makes at most `max_concurrent_reads` calls, so that neither
-- the reader count of a slot nor the size of a block can pass its bound. The loop of
-- `head_size_to_total_size` has 33 rounds, enough for the size that it doubles to leave 32 bits.
--
-- Not modelled: memory orderings, deallocation, the variant of the queue that calls crossbeam, the
-- wrappers of src/util/sync around std and loom, trait implementations without behaviour of their
-- own (Debug, Send, Sync, UnwindSafe), the tests of these, the tests under loom, and
-- benches/bench.rs.
mod Prelude
pub mod Park
pub mod DebugCheck
pub mod Timeout
pub mod Header
pub mod Id
pub mod Slot
pub mod Block
pub mod Bucket
pub mod Queue
pub mod Lock
pub mod Store
pub mod Iter
mod Tests
