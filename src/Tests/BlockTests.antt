-- ===== src/Tests/BlockTests.antt =====
-- src/block.rs, its tests: each is run on the model, and gives the value of its last assertion.
use read_write_store.Prelude.{
  ℕ, ◌+◌, ◌≡◌, refl, Bool, true, false, not, ◌&&◌, Option, none, some, List, [], ◌∷◌, Check, ok,
  ◌>>=◌, ◌==◌,
}
use read_write_store.Prelude.{unwrap}
use read_write_store.Prelude.Panic.{uninitialized}
use read_write_store.Timeout.{dont_block, done}
use read_write_store.Id.{RwStoreId, ElementId, generate}
use read_write_store.Slot.{Wait, returns, RemoveResult}
use read_write_store.Slot
use read_write_store.Block.{Block, Heap, slot_address, on_slot}
use read_write_store.Block
use read_write_store.Tests.Samples.{all_pass}

abbrev empty_heap : Heap ℕ
empty_heap = record { next_base = 0; cell = λ base index. none }

abbrev some_store_id : RwStoreId
some_store_id = (generate 0).1

-- `Ok(None)`, and the element of a result whose slot may be reused
abbrev is_absent : Wait (Option (RemoveResult ℕ)) → Bool
is_absent (returns (done none)) = true
is_absent w = false

abbrev is_element : Wait (Option (RemoveResult ℕ)) → ℕ → Bool
is_element (returns (done (some r))) e = r.may_reuse && (r.element == e)
is_element w e = false

abbrev is_done : Wait Bool → Bool → Bool
is_done (returns (done true)) b = b
is_done (returns (done false)) b = not b
is_done w b = false

abbrev singleton_block : Check (Heap ℕ × ElementId)
singleton_block = do
  (h, block) ← Block.new 1 some_store_id empty_heap
  slot ← slot_address block 0
  Block.insert slot 24 some_store_id h

abbrev create_mismatching_id : ElementId → ElementId
create_mismatching_id id = record id { ordinal = id.ordinal + 1 }

-- `Block::remove`, `lock_read` and `unlock_read`, by the ID
abbrev removed : ElementId → Heap ℕ → Check (Heap ℕ × Wait (Option (RemoveResult ℕ)))
removed id = on_slot id.slot_address (Slot.remove id.ordinal dont_block)

abbrev read_locked : ElementId → Heap ℕ → Check (Heap ℕ × Wait Bool)
read_locked id = on_slot id.slot_address (Slot.lock_read id.ordinal dont_block)

abbrev len_returns_the_size : Check Bool
len_returns_the_size = do (h, block) ← Block.new 32 some_store_id empty_heap; ok (block.len == 32)

abbrev removal_fails_on_an_empty_slot : Check Bool
removal_fails_on_an_empty_slot = do
  (h, block) ← Block.new 1 some_store_id empty_heap
  slot ← slot_address block 0
  (h', w) ← removed (record { ordinal = 42; slot_address = slot; store_id = some_store_id }) h
  ok (is_absent w)

abbrev removal_succeeds_when_id_matches : Check Bool
removal_succeeds_when_id_matches = do
  (h, id) ← singleton_block
  (h', w) ← removed id h
  ok (is_element w 24)

abbrev removal_fails_when_id_doesnt_match : Check Bool
removal_fails_when_id_doesnt_match = do
  (h, id) ← singleton_block
  (h', w) ← removed (create_mismatching_id id) h
  ok (is_absent w)

abbrev lock_read_succeeds_when_id_matches : Check Bool
lock_read_succeeds_when_id_matches = do
  (h, id) ← singleton_block
  (h1, w) ← read_locked id h
  (h2, u) ← on_slot id.slot_address (Slot.unlock_read_slot id.ordinal) h1
  ok (is_done w true)

abbrev lock_read_fails_when_id_doesnt_match : Check Bool
lock_read_fails_when_id_doesnt_match = do
  (h, id) ← singleton_block
  (h1, w) ← read_locked (create_mismatching_id id) h
  ok (is_done w false)

-- What is dropped is what a call gives up, and what the block still holds at its end.
abbrev is_only : List (ElementId × ℕ) → ℕ → Bool
is_only ((id, element) ∷ []) e = element == e
is_only elements e = false

abbrev one_element : Check (Heap ℕ × (Block × ElementId))
one_element = do
  (h, block) ← Block.new 1 some_store_id empty_heap
  slot ← slot_address block 0
  (h', id) ← Block.insert slot 24 some_store_id h
  ok (h', (block, id))

abbrev is_nothing : List (ElementId × ℕ) → Bool
is_nothing [] = true
is_nothing elements = false

-- An element whose option has its representation.
abbrev as_element : Option ℕ → Check ℕ
as_element value = unwrap value uninitialized

abbrev removal_drops_the_element : Check Bool
removal_drops_the_element = do
  (h, (block, id)) ← one_element
  (h', w) ← removed id h
  left ← Block.drop_blocks as_element (block ∷ []) h'
  ok (is_element w 24 && is_nothing left)

abbrev locked_removal_drops_the_element : Check Bool
locked_removal_drops_the_element = do
  (h, (block, id)) ← one_element
  (h1, w) ← on_slot id.slot_address (Slot.lock_write id.ordinal dont_block) h
  (h2, r) ← on_slot id.slot_address (Slot.remove_locked_slot id.ordinal) h1
  left ← Block.drop_blocks as_element (block ∷ []) h2
  ok ((r.element == 24) && is_nothing left)

abbrev dropping_the_block_drops_all_elements : Check Bool
dropping_the_block_drops_all_elements = do
  (h, (block, id)) ← one_element
  dropped ← Block.drop_blocks as_element (block ∷ []) h
  ok (is_only dropped 24)

block_tests :
    all_pass (
      len_returns_the_size ∷ removal_fails_on_an_empty_slot ∷ removal_succeeds_when_id_matches
      ∷ removal_fails_when_id_doesnt_match ∷ lock_read_succeeds_when_id_matches
      ∷ lock_read_fails_when_id_doesnt_match ∷ removal_drops_the_element
      ∷ locked_removal_drops_the_element ∷ dropping_the_block_drops_all_elements ∷ [])
    ≡ true
unfolding read_write_store.Store.insert read_write_store.Store.location read_write_store.Store.new
    read_write_store.Store.arbitrary_bucket_id read_write_store.Store.remove
    read_write_store.Store.remove_with_timeout read_write_store.Store.remove_locked
    read_write_store.Store.read read_write_store.Store.write
    read_write_store.Store.read_with_timeout read_write_store.Store.write_with_timeout
    read_write_store.Store.get_mut read_write_store.Store.get_mut_unchecked
    read_write_store.Store.capacity read_write_store.Store.total_capacity
    read_write_store.Store.push_erasure read_write_store.Queue.pop read_write_store.Queue.push
    read_write_store.Bucket.next_insert_location read_write_store.Bucket.try_location
    read_write_store.Bucket.new read_write_store.Bucket.next_insert_location_slow
    read_write_store.Bucket.expand read_write_store.Bucket.capacity
    read_write_store.Bucket.head_size_to_total_size read_write_store.Bucket.total_loop
    read_write_store.Block.new read_write_store.Block.slot_address
    read_write_store.Block.scramble_slot read_write_store.Block.insert
    read_write_store.Block.on_slot read_write_store.Slot.insert read_write_store.Slot.remove
    read_write_store.Slot.remove_locked_slot read_write_store.Slot.lock_read
    read_write_store.Slot.lock_write read_write_store.Slot.unlock_read_slot
    read_write_store.Slot.unlock_write_slot read_write_store.Slot.get_unchecked
    read_write_store.Slot.get_exclusive read_write_store.Slot.new read_write_store.Lock.deref
    read_write_store.Lock.drop_read read_write_store.Lock.drop_write read_write_store.Lock.forget
    read_write_store.Id.generate read_write_store.Header.Solo.solo
    read_write_store.Header.Solo.solo_step read_write_store.Header.Code.add_u32
    read_write_store.Header.Code.advance read_write_store.Header.Code.after_write_swap
    read_write_store.Header.Code.block_result_to_park_result
    read_write_store.Header.Code.compare_exchange read_write_store.Header.Code.compare_exchange_weak
    read_write_store.Header.Code.lock_read_slow read_write_store.Header.Code.lock_read_with_current
    read_write_store.Header.Code.run_attempt read_write_store.Header.Code.transition_failed
    read_write_store.Header.Code.transition_slow
    read_write_store.Header.Code.unlock_read_with_current
    read_write_store.Header.Code.start_lock_read read_write_store.Header.Code.start_lock_write
    read_write_store.Header.Code.start_remove read_write_store.Header.Code.current_id
    read_write_store.Header.Word.decrement_readers read_write_store.Header.Word.has_thread_blocking
    read_write_store.Header.Word.id_from_bits read_write_store.Header.Word.increment_readers
    read_write_store.Header.Word.is_occupied read_write_store.Header.Word.is_write_locked
    read_write_store.Header.Word.mark_thread_blocking
    read_write_store.Header.Word.occupied_unlocked_bits
    read_write_store.Header.Word.readers_from_bits
    read_write_store.Header.Word.unmark_thread_blocking read_write_store.Header.Word.unoccupied_bits
    read_write_store.Header.Word.write_locked_bits read_write_store.Block.drop_blocks
    read_write_store.Block.drop_slots read_write_store.Slot.drop_slot
    read_write_store.Header.Code.needs_drop read_write_store.Header.Code.drop_header
block_tests = refl
