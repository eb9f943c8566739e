-- ===== src/Tests/IterTests.antt =====
-- src/iter.rs, its tests: each is run on the model, and gives the value of its assertions.
use read_write_store.Prelude.{
  ℕ, zero, suc, ◌+◌, ◌≡◌, refl, Bool, true, ◌&&◌, Option, List, [], ◌∷◌, Check, ok, ◌>>=◌, ◌==◌,
}
use read_write_store.Id.{ElementId}
use read_write_store.Block.{Block, Heap}
use read_write_store.Store.{Store, insert}
use read_write_store.Iter.{new_iter, owned_take, mut_take}
use read_write_store.Iter.Yields.{collect}
use read_write_store.Tests.Samples.{all_pass}
use read_write_store.Tests.StoreTests.{new_store, removed}

-- The trackers' ways to take an element.
abbrev Take : Type 0
Take = Block → ℕ → Heap ℕ → Check (Heap ℕ × Option (ElementId × ℕ))

-- All that an iteration over a store yields.
abbrev elements : Take → Store ℕ → Check (List (ElementId × ℕ))
elements take s = collect take 64 (new_iter s.buckets) s.heap

abbrev count : List (ElementId × ℕ) → ℕ
count [] = 0
count (x ∷ xs) = 1 + count xs

abbrev sum : List (ElementId × ℕ) → ℕ
sum [] = 0
sum (x ∷ xs) = x.1 + sum xs

-- Insertions of `first` and the numbers after it.
abbrev insert_range : ℕ → ℕ → ℕ → Store ℕ → Check (Store ℕ)
insert_range zero first state s = ok s
insert_range (suc n) first state s = do
  (state', (s', id)) ← insert state first s
  insert_range n (first + 1) state' s'

abbrev iter_has_correct_size : Take → ℕ → Check Bool
iter_has_correct_size take state = do
  s ← insert_range 42 0 state new_store
  many ← elements take s
  (state', (s', id)) ← insert state 42 new_store
  one ← elements take s'
  nothing ← elements take new_store
  ok ((count many == 42) && ((count one == 1) && (count nothing == 0)))

abbrev iter_has_correct_elements : Take → ℕ → Check Bool
iter_has_correct_elements take state = do
  (state1, (s1, a)) ← insert state 1 new_store
  (state2, (s2, b)) ← insert state1 2 s1
  (state3, (s3, c)) ← insert state2 4 s2
  three ← elements take s3
  s ← insert_range 42 1 state new_store
  many ← elements take s
  nothing ← elements take new_store
  ok ((sum three == 7) && ((sum many == 903) && (sum nothing == 0)))

abbrev iter_skips_removed_elements : Take → ℕ → Check Bool
iter_skips_removed_elements take state = do
  (state1, (s1, a)) ← insert state 1 new_store
  (state2, (s2, id)) ← insert state1 2 s1
  (state3, (s3, c)) ← insert state2 4 s2
  (s4, e) ← removed id s3
  left ← elements take s4
  ok (sum left == 5)

iter_tests :
    all_pass (
      iter_has_correct_size owned_take 3
      ∷ iter_has_correct_size mut_take 3
      ∷ iter_has_correct_elements owned_take 3
      ∷ iter_has_correct_elements mut_take 3
      ∷ iter_skips_removed_elements owned_take 3
      ∷ iter_skips_removed_elements mut_take 3
      ∷ [])
    ≡ true
unfolding read_write_store.Store.insert read_write_store.Store.location read_write_store.Store.new
    read_write_store.Store.arbitrary_bucket_id read_write_store.Store.remove
    read_write_store.Store.remove_with_timeout read_write_store.Store.remove_locked
    read_write_store.Store.read read_write_store.Store.write
    read_write_store.Store.read_with_timeout read_write_store.Store.write_with_timeout
    read_write_store.Store.get_mut read_write_store.Store.get_mut_unchecked
    read_write_store.Store.capacity read_write_store.Store.total_capacity
    read_write_store.Store.push_erasure read_write_store.Queue.pop read_write_store.Queue.push
    read_write_store.Bucket.next_insert_location read_write_store.Bucket.try_location
    read_write_store.Bucket.new read_write_store.Bucket.next_insert_location_slow
    read_write_store.Bucket.expand read_write_store.Bucket.capacity
    read_write_store.Bucket.head_size_to_total_size read_write_store.Bucket.total_loop
    read_write_store.Block.new read_write_store.Block.slot_address
    read_write_store.Block.scramble_slot read_write_store.Block.insert
    read_write_store.Block.on_slot read_write_store.Slot.insert read_write_store.Slot.remove
    read_write_store.Slot.remove_locked_slot read_write_store.Slot.lock_read
    read_write_store.Slot.lock_write read_write_store.Slot.unlock_read_slot
    read_write_store.Slot.unlock_write_slot read_write_store.Slot.get_unchecked
    read_write_store.Slot.get_exclusive read_write_store.Slot.new read_write_store.Lock.deref
    read_write_store.Lock.drop_read read_write_store.Lock.drop_write read_write_store.Lock.forget
    read_write_store.Id.generate read_write_store.Header.Solo.solo
    read_write_store.Header.Solo.solo_step read_write_store.Header.Code.add_u32
    read_write_store.Header.Code.advance read_write_store.Header.Code.after_write_swap
    read_write_store.Header.Code.block_result_to_park_result
    read_write_store.Header.Code.compare_exchange read_write_store.Header.Code.compare_exchange_weak
    read_write_store.Header.Code.lock_read_slow read_write_store.Header.Code.lock_read_with_current
    read_write_store.Header.Code.run_attempt read_write_store.Header.Code.transition_failed
    read_write_store.Header.Code.transition_slow
    read_write_store.Header.Code.unlock_read_with_current
    read_write_store.Header.Code.start_lock_read read_write_store.Header.Code.start_lock_write
    read_write_store.Header.Code.start_remove read_write_store.Header.Code.current_id
    read_write_store.Header.Word.decrement_readers read_write_store.Header.Word.has_thread_blocking
    read_write_store.Header.Word.id_from_bits read_write_store.Header.Word.increment_readers
    read_write_store.Header.Word.is_occupied read_write_store.Header.Word.is_write_locked
    read_write_store.Header.Word.mark_thread_blocking
    read_write_store.Header.Word.occupied_unlocked_bits
    read_write_store.Header.Word.readers_from_bits
    read_write_store.Header.Word.unmark_thread_blocking read_write_store.Header.Word.unoccupied_bits
    read_write_store.Header.Word.write_locked_bits read_write_store.Iter.new_bucket_iter
    read_write_store.Iter.new_iter read_write_store.Iter.bucket_next read_write_store.Iter.next
    read_write_store.Iter.Yields.collect read_write_store.Block.take
    read_write_store.Block.slot_contents read_write_store.Slot.take
    read_write_store.Slot.slot_contents read_write_store.Header.Code.reset
    read_write_store.Header.Code.id_if_occupied
iter_tests = refl
