-- ===== src/Tests/StoreTests/Accesses.antt =====
-- src/lib.rs, its tests of `read`, `write`, `get_mut` and `capacity`.
use read_write_store.Prelude.{
  ℕ, ◌≡◌, refl, Bool, true, ◌&&◌, List, [], ◌∷◌, ◌++◌, Check, ok, ◌>>=◌, ◌==◌, leb, unwrap,
}
use read_write_store.Prelude.Panic.{unwrap_none}
use read_write_store.Id.{ElementId, same_address, generate}
use read_write_store.Slot.{Wait, returns, never}
use read_write_store.Block.{Heap}
use read_write_store.Lock.{ReadLock, WriteLock, deref, drop_read, drop_write}
use read_write_store.Store.{
  Store, new, insert, remove, remove_with_timeout, remove_locked, read, write, read_with_timeout,
  write_with_timeout, get_mut, get_mut_unchecked, capacity,
}
use read_write_store.Tests.Samples.{all_pass}
use read_write_store.Tests.StoreTests.{
  new_store, finished, is_err, is_ok, is_none, is_some, removed, write_locked, AccessOperation,
  read_operation, write_operation, read_with_timeout_operation, write_with_timeout_operation,
}

abbrev access_references_the_element : AccessOperation → ℕ → Check Bool
access_references_the_element op state = do
  (state1, (s1, id)) ← insert state 42 new_store
  (s2, w) ← op.access id s1
  found ← finished w
  lock ← unwrap found unwrap_none
  e ← deref lock s2.heap
  s3 ← op.release lock s2
  ok (e == 42)

abbrev access_returns_none_after_removal : AccessOperation → ℕ → Check Bool
access_returns_none_after_removal op state = do
  (state1, (s1, id)) ← insert state 42 new_store
  (s2, e) ← removed id s1
  (s3, w) ← op.access id s2
  found ← finished w
  ok (is_none found)

abbrev access_fails_when_locked : AccessOperation → AccessOperation → ℕ → Check Bool
access_fails_when_locked holder op state = do
  (state1, (s1, id)) ← insert state 42 new_store
  (s2, w) ← holder.access id s1
  found ← finished w
  lock ← unwrap found unwrap_none
  (s3, v) ← op.access id s2
  s4 ← holder.release lock s3
  ok (is_err v)

abbrev access_succeeds_when_locked : AccessOperation → AccessOperation → ℕ → Check Bool
access_succeeds_when_locked holder op state = do
  (state1, (s1, id)) ← insert state 42 new_store
  (s2, w) ← holder.access id s1
  found ← finished w
  lock ← unwrap found unwrap_none
  (s3, v) ← op.access id s2
  found' ← finished v
  lock' ← unwrap found' unwrap_none
  s4 ← op.release lock' s3
  s5 ← holder.release lock s4
  ok (is_ok v)

abbrev get_mut_references_the_element : ℕ → Check Bool
get_mut_references_the_element state = do
  (state1, (s1, id)) ← insert state 42 new_store
  found ← get_mut id s1
  ok (is_some found 42)

abbrev get_mut_returns_none_after_removal : ℕ → Check Bool
get_mut_returns_none_after_removal state = do
  (state1, (s1, id)) ← insert state 42 new_store
  (s2, e) ← removed id s1
  found ← get_mut id s2
  ok (is_none found)

abbrev get_mut_unchecked_references_the_element : ℕ → Check Bool
get_mut_unchecked_references_the_element state = do
  (state1, (s1, id)) ← insert state 42 new_store
  e ← get_mut_unchecked id s1
  ok (e == 42)

-- The first component of the capacity is a number, and the second is at least that.
abbrev has_capacity : ℕ → Store ℕ → Check Bool
has_capacity n s = do (touched, allocated) ← capacity s; ok ((touched == n) && leb n allocated)

abbrev capacity_returns_zeroes_initially : ℕ → Check Bool
capacity_returns_zeroes_initially state = do
  (touched, allocated) ← capacity new_store
  ok ((touched == 0) && (allocated == 0))

abbrev capacity_increases_on_first_insertion : ℕ → Check Bool
capacity_increases_on_first_insertion state = do
  (state1, (s1, id)) ← insert state 42 new_store
  has_capacity 1 s1

abbrev capacity_increases_on_second_insertion : ℕ → Check Bool
capacity_increases_on_second_insertion state = do
  (state1, (s1, id)) ← insert state 42 new_store
  (state2, (s2, id')) ← insert state1 42 s1
  has_capacity 2 s2

abbrev capacity_doesnt_decrease_after_removal : ℕ → Check Bool
capacity_doesnt_decrease_after_removal state = do
  (state1, (s1, id)) ← insert state 42 new_store
  (s2, e) ← removed id s1
  has_capacity 1 s2

abbrev capacity_doesnt_increase_on_insertion_after_removal : ℕ → Check Bool
capacity_doesnt_increase_on_insertion_after_removal state = do
  (state1, (s1, id)) ← insert state 42 new_store
  (s2, e) ← removed id s1
  (state2, (s3, id')) ← insert state1 42 s2
  has_capacity 1 s3

abbrev capacity_doesnt_increase_on_insertion_after_locked_removal : ℕ → Check Bool
capacity_doesnt_increase_on_insertion_after_locked_removal state = do
  (state1, (s1, id)) ← insert state 42 new_store
  (s2, lock) ← write_locked id s1
  (s3, e) ← remove_locked lock s2
  (state2, (s4, id')) ← insert state1 42 s3
  has_capacity 1 s4

abbrev tests : ℕ → List (Check Bool)
tests state =
    access_references_the_element read_operation state
    ∷ access_references_the_element write_operation state
    ∷ access_references_the_element read_with_timeout_operation state
    ∷ access_references_the_element write_with_timeout_operation state
    ∷ access_returns_none_after_removal read_operation state
    ∷ access_returns_none_after_removal write_operation state
    ∷ access_returns_none_after_removal read_with_timeout_operation state
    ∷ access_returns_none_after_removal write_with_timeout_operation state
    ∷ access_fails_when_locked write_operation write_with_timeout_operation state
    ∷ access_fails_when_locked read_operation write_with_timeout_operation state
    ∷ access_fails_when_locked write_operation read_with_timeout_operation state
    ∷ access_succeeds_when_locked read_operation read_operation state
    ∷ access_succeeds_when_locked read_with_timeout_operation read_operation state
    ∷ get_mut_references_the_element state
    ∷ get_mut_returns_none_after_removal state
    ∷ get_mut_unchecked_references_the_element state
    ∷ capacity_returns_zeroes_initially state
    ∷ capacity_increases_on_first_insertion state
    ∷ capacity_increases_on_second_insertion state
    ∷ capacity_doesnt_decrease_after_removal state
    ∷ capacity_doesnt_increase_on_insertion_after_removal state
    ∷ capacity_doesnt_increase_on_insertion_after_locked_removal state
    ∷ []

accesses_tests : all_pass (tests 0 ++ tests 4242) ≡ true
unfolding read_write_store.Store.insert read_write_store.Store.location read_write_store.Store.new
    read_write_store.Store.arbitrary_bucket_id read_write_store.Store.remove
    read_write_store.Store.remove_with_timeout read_write_store.Store.remove_locked
    read_write_store.Store.read read_write_store.Store.write
    read_write_store.Store.read_with_timeout read_write_store.Store.write_with_timeout
    read_write_store.Store.get_mut read_write_store.Store.get_mut_unchecked
    read_write_store.Store.capacity read_write_store.Store.total_capacity
    read_write_store.Store.push_erasure read_write_store.Queue.pop read_write_store.Queue.push
    read_write_store.Bucket.next_insert_location read_write_store.Bucket.try_location
    read_write_store.Bucket.new read_write_store.Bucket.next_insert_location_slow
    read_write_store.Bucket.expand read_write_store.Bucket.capacity
    read_write_store.Bucket.head_size_to_total_size read_write_store.Bucket.total_loop
    read_write_store.Block.new read_write_store.Block.slot_address
    read_write_store.Block.scramble_slot read_write_store.Block.insert
    read_write_store.Block.on_slot read_write_store.Slot.insert read_write_store.Slot.remove
    read_write_store.Slot.remove_locked_slot read_write_store.Slot.lock_read
    read_write_store.Slot.lock_write read_write_store.Slot.unlock_read_slot
    read_write_store.Slot.unlock_write_slot read_write_store.Slot.get_unchecked
    read_write_store.Slot.get_exclusive read_write_store.Slot.new read_write_store.Lock.deref
    read_write_store.Lock.drop_read read_write_store.Lock.drop_write read_write_store.Lock.forget
    read_write_store.Id.generate read_write_store.Header.Solo.solo
    read_write_store.Header.Solo.solo_step read_write_store.Header.Code.add_u32
    read_write_store.Header.Code.advance read_write_store.Header.Code.after_write_swap
    read_write_store.Header.Code.block_result_to_park_result
    read_write_store.Header.Code.compare_exchange read_write_store.Header.Code.compare_exchange_weak
    read_write_store.Header.Code.lock_read_slow read_write_store.Header.Code.lock_read_with_current
    read_write_store.Header.Code.run_attempt read_write_store.Header.Code.transition_failed
    read_write_store.Header.Code.transition_slow
    read_write_store.Header.Code.unlock_read_with_current
    read_write_store.Header.Code.start_lock_read read_write_store.Header.Code.start_lock_write
    read_write_store.Header.Code.start_remove read_write_store.Header.Code.current_id
    read_write_store.Header.Word.decrement_readers read_write_store.Header.Word.has_thread_blocking
    read_write_store.Header.Word.id_from_bits read_write_store.Header.Word.increment_readers
    read_write_store.Header.Word.is_occupied read_write_store.Header.Word.is_write_locked
    read_write_store.Header.Word.mark_thread_blocking
    read_write_store.Header.Word.occupied_unlocked_bits
    read_write_store.Header.Word.readers_from_bits
    read_write_store.Header.Word.unmark_thread_blocking read_write_store.Header.Word.unoccupied_bits
    read_write_store.Header.Word.write_locked_bits
accesses_tests = refl
