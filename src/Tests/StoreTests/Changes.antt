-- ===== src/Tests/StoreTests/Changes.antt =====
-- src/lib.rs, its tests of `insert` and of the removals.
use read_write_store.Prelude.{
  ℕ, ◌≡◌, refl, Bool, true, not, Option, List, [], ◌∷◌, ◌++◌, Check, ok, ◌>>=◌, ◌==◌, unwrap,
}
use read_write_store.Prelude.Panic.{unwrap_none}
use read_write_store.Timeout.{dont_block}
use read_write_store.Id.{ElementId, same_address, generate}
use read_write_store.Slot.{Wait, returns, never}
use read_write_store.Block.{Heap}
use read_write_store.Lock.{ReadLock, WriteLock, deref, drop_read, drop_write}
use read_write_store.Store.{
  Store, new, insert, remove, remove_with_timeout, remove_locked, read, write, read_with_timeout,
  write_with_timeout, get_mut, get_mut_unchecked, capacity,
}
use read_write_store.Tests.Samples.{all_pass}
use read_write_store.Tests.StoreTests.{
  new_store, finished, is_err, is_none, is_some, removed, write_locked, drop_write_lock,
  read_operation,
}

abbrev insert_creates_disparate_ids : ℕ → Check Bool
insert_creates_disparate_ids state = do
  (state1, (s1, id_a)) ← insert state 42 new_store
  (state2, (s2, id_b)) ← insert state1 42 s1
  ok (not (same_address id_a.slot_address id_b.slot_address))

abbrev insert_reuses_space_after_removal : ℕ → Check Bool
insert_reuses_space_after_removal state = do
  (state1, (s1, id_a)) ← insert state 42 new_store
  (s2, e) ← removed id_a s1
  (state2, (s3, id_b)) ← insert state1 42 s2
  ok (same_address id_a.slot_address id_b.slot_address)

abbrev insert_reuses_space_after_locked_removal : ℕ → Check Bool
insert_reuses_space_after_locked_removal state = do
  (state1, (s1, id_a)) ← insert state 42 new_store
  (s2, lock) ← write_locked id_a s1
  (s3, e) ← remove_locked lock s2
  (state2, (s4, id_b)) ← insert state1 42 s3
  ok (same_address id_a.slot_address id_b.slot_address)

abbrev insert_doesnt_reuse_id_ordinals : ℕ → Check Bool
insert_doesnt_reuse_id_ordinals state = do
  (state1, (s1, id_a)) ← insert state 42 new_store
  (s2, e) ← removed id_a s1
  (state2, (s3, id_b)) ← insert state1 42 s2
  ok (not (id_a.ordinal == id_b.ordinal))

-- The removers that the tests are generic in
abbrev Remover : Type 0
Remover = ElementId → Store ℕ → Check (Store ℕ × Wait (Option ℕ))

abbrev remove_now : Remover
remove_now id = remove_with_timeout id dont_block

abbrev gen_remove_returns_the_element : Remover → ℕ → Check Bool
gen_remove_returns_the_element remover state = do
  (state1, (s1, id)) ← insert state 42 new_store
  (s2, w) ← remover id s1
  found ← finished w
  ok (is_some found 42)

abbrev gen_remove_returns_none_after_removal : Remover → ℕ → Check Bool
gen_remove_returns_none_after_removal remover state = do
  (state1, (s1, id)) ← insert state 42 new_store
  (s2, w) ← remove id s1
  (s3, v) ← remover id s2
  found ← finished v
  ok (is_none found)

abbrev remove_with_timeout_fails_when_read_locked : ℕ → Check Bool
remove_with_timeout_fails_when_read_locked state = do
  (state1, (s1, id)) ← insert state 42 new_store
  (s2, w) ← read_operation.access id s1
  found ← finished w
  lock ← unwrap found unwrap_none
  (s3, v) ← remove_with_timeout id dont_block s2
  s4 ← read_operation.release lock s3
  ok (is_err v)

abbrev remove_with_timeout_fails_when_write_locked : ℕ → Check Bool
remove_with_timeout_fails_when_write_locked state = do
  (state1, (s1, id)) ← insert state 42 new_store
  (s2, lock) ← write_locked id s1
  (s3, v) ← remove_with_timeout id dont_block s2
  s4 ← drop_write_lock lock.id s3
  ok (is_err v)

abbrev remove_locked_returns_the_element : ℕ → Check Bool
remove_locked_returns_the_element state = do
  (state1, (s1, id)) ← insert state 42 new_store
  (s2, lock) ← write_locked id s1
  (s3, e) ← remove_locked lock s2
  ok (e == 42)

abbrev remove_locked_removes_the_element : ℕ → Check Bool
remove_locked_removes_the_element state = do
  (state1, (s1, id)) ← insert state 42 new_store
  (s2, lock) ← write_locked id s1
  (s3, e) ← remove_locked lock s2
  (s4, w) ← read id s3
  found ← finished w
  ok (is_none found)

abbrev tests : ℕ → List (Check Bool)
tests state =
    insert_creates_disparate_ids state
    ∷ insert_reuses_space_after_removal state
    ∷ insert_reuses_space_after_locked_removal state
    ∷ insert_doesnt_reuse_id_ordinals state
    ∷ gen_remove_returns_the_element remove state
    ∷ gen_remove_returns_none_after_removal remove state
    ∷ gen_remove_returns_the_element remove_now state
    ∷ gen_remove_returns_none_after_removal remove_now state
    ∷ remove_with_timeout_fails_when_read_locked state
    ∷ remove_with_timeout_fails_when_write_locked state
    ∷ remove_locked_returns_the_element state
    ∷ remove_locked_removes_the_element state
    ∷ []

changes_tests : all_pass (tests 0 ++ tests 4242) ≡ true
unfolding read_write_store.Store.insert read_write_store.Store.location read_write_store.Store.new
    read_write_store.Store.arbitrary_bucket_id read_write_store.Store.remove
    read_write_store.Store.remove_with_timeout read_write_store.Store.remove_locked
    read_write_store.Store.read read_write_store.Store.write
    read_write_store.Store.read_with_timeout read_write_store.Store.write_with_timeout
    read_write_store.Store.get_mut read_write_store.Store.get_mut_unchecked
    read_write_store.Store.capacity read_write_store.Store.total_capacity
    read_write_store.Store.push_erasure read_write_store.Queue.pop read_write_store.Queue.push
    read_write_store.Bucket.next_insert_location read_write_store.Bucket.try_location
    read_write_store.Bucket.new read_write_store.Bucket.next_insert_location_slow
    read_write_store.Bucket.expand read_write_store.Bucket.capacity
    read_write_store.Bucket.head_size_to_total_size read_write_store.Bucket.total_loop
    read_write_store.Block.new read_write_store.Block.slot_address
    read_write_store.Block.scramble_slot read_write_store.Block.insert
    read_write_store.Block.on_slot read_write_store.Slot.insert read_write_store.Slot.remove
    read_write_store.Slot.remove_locked_slot read_write_store.Slot.lock_read
    read_write_store.Slot.lock_write read_write_store.Slot.unlock_read_slot
    read_write_store.Slot.unlock_write_slot read_write_store.Slot.get_unchecked
    read_write_store.Slot.get_exclusive read_write_store.Slot.new read_write_store.Lock.deref
    read_write_store.Lock.drop_read read_write_store.Lock.drop_write read_write_store.Lock.forget
    read_write_store.Id.generate read_write_store.Header.Solo.solo
    read_write_store.Header.Solo.solo_step read_write_store.Header.Code.add_u32
    read_write_store.Header.Code.advance read_write_store.Header.Code.after_write_swap
    read_write_store.Header.Code.block_result_to_park_result
    read_write_store.Header.Code.compare_exchange read_write_store.Header.Code.compare_exchange_weak
    read_write_store.Header.Code.lock_read_slow read_write_store.Header.Code.lock_read_with_current
    read_write_store.Header.Code.run_attempt read_write_store.Header.Code.transition_failed
    read_write_store.Header.Code.transition_slow
    read_write_store.Header.Code.unlock_read_with_current
    read_write_store.Header.Code.start_lock_read read_write_store.Header.Code.start_lock_write
    read_write_store.Header.Code.start_remove read_write_store.Header.Code.current_id
    read_write_store.Header.Word.decrement_readers read_write_store.Header.Word.has_thread_blocking
    read_write_store.Header.Word.id_from_bits read_write_store.Header.Word.increment_readers
    read_write_store.Header.Word.is_occupied read_write_store.Header.Word.is_write_locked
    read_write_store.Header.Word.mark_thread_blocking
    read_write_store.Header.Word.occupied_unlocked_bits
    read_write_store.Header.Word.readers_from_bits
    read_write_store.Header.Word.unmark_thread_blocking read_write_store.Header.Word.unoccupied_bits
    read_write_store.Header.Word.write_locked_bits
changes_tests = refl
