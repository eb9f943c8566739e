-- ===== src/Tests/Programs.antt =====
-- src/lib.rs and src/lock.rs: programs of calls on a store.
use read_write_store.Prelude.{
  ◌+◌, Check, panicked, ℕ, ◌≡◌, refl, inl, inr, ok, some, none, true, List, [], ◌∷◌, arith,
}
use read_write_store.Timeout.{dont_block, block_indefinitely}
use read_write_store.Id.{ElementId}
use read_write_store.Slot.{Slot}
use read_write_store.Block.{Heap}
use read_write_store.Store.{capacity, Store, new}
use read_write_store.Iter.Sizes.{size_hint-capacity}
use read_write_store.Iter.{size_hint, mut_take, new_iter}
use read_write_store.Iter.Yields.{collect, count}
use read_write_store.Iter.Contents.{lookup}
use read_write_store.Iter.Stores.{collect-new_iter}
use read_write_store.Store.View.{view, same_id}
use read_write_store.Store.Spec.{Model, Call, Reply, IsGiven, empty_model, inserted, locked}
use read_write_store.Store.Spec
use read_write_store.Store.Client.{Program, stop, ask, run, IsSound}
use read_write_store.Store.Refines.Programs.{Conforms, run-new, perform-IsDone}
use read_write_store.Id.{Address}
use read_write_store.Block.{Block, scramble_slot}
use read_write_store.Bucket.{Bucket}
use read_write_store.Store.Look.{look}
use read_write_store.Store.Refines.{IsDone}
use read_write_store.Store.Refines.Stale.{run_stale}
use read_write_store.Tests.Filled.{
  filled_buckets, filled_store, model_of, unlocked-IsStore, vacated-IsStore, unlocked-Refines,
  vacated-Refines,
}
use read_write_store.Tests.Samples.{address, id_of, store_of, unlocked, vacated}

abbrev no_heap : Heap ℕ
no_heap = record { next_base = 0; cell = λ base index. none }

-- An insertion, a read lock, a removal that the lock prevents, the unlock, and a removal.
abbrev unlocks : ElementId → Reply ℕ → Program ℕ
unlocks id reply =
    ask (Spec.drop_read id) (λ r. ask (Spec.remove id block_indefinitely) (λ q. stop))

abbrev locks : ElementId → Reply ℕ → Program ℕ
locks id (locked true) = ask (Spec.remove id dont_block) (unlocks id)
locks id reply = stop

abbrev inserts : Reply ℕ → Program ℕ
inserts (inserted id) = ask (Spec.read id dont_block) (locks id)
inserts reply = stop

abbrev program : Program ℕ
program = ask (Spec.insert 7) inserts

same_id_refl : (id : ElementId) → same_id id id ≡ true
same_id_refl id = ground arith

program-IsSound : IsSound 5 empty_model program
program-IsSound = (
  tt,
  λ id fresh. rw (same_id_refl id) (
    (inl refl, tt),
    λ a b. rw (same_id_refl id) (
      (inl refl, tt),
      λ c d. (
        (inl refl, (7, 1, rw (same_id_refl id) refl, omega arith, omega arith)),
        λ e f. ((inl refl, tt), λ g h. tt),
      ),
    ),
  ),
)

-- The program's replies, run.
abbrev replies_of : Check (Store ℕ × List (Reply ℕ)) → List (Reply ℕ)
replies_of (ok (s, replies)) = replies
replies_of (panicked p) = []

abbrev first_id : ElementId
first_id = record {
  ordinal = 0;
  slot_address = record { base = 0; index = 0 };
  store_id = record { value = 0 };
}

program_test :
    replies_of (run program 3 (new 0 no_heap).1)
    ≡ inserted first_id ∷ locked true ∷ Spec.timed_out ∷ Spec.nothing ∷ Spec.found (some 7) ∷ []
unfolding run read_write_store.Store.Client.perform read_write_store.Store.Client.is_never
    read_write_store.Store.insert read_write_store.Store.location read_write_store.Store.new
    read_write_store.Store.arbitrary_bucket_id read_write_store.Store.remove
    read_write_store.Store.remove_with_timeout read_write_store.Store.remove_locked
    read_write_store.Store.read read_write_store.Store.write
    read_write_store.Store.read_with_timeout read_write_store.Store.write_with_timeout
    read_write_store.Store.get_mut read_write_store.Store.get_mut_unchecked
    read_write_store.Store.capacity read_write_store.Store.total_capacity
    read_write_store.Store.push_erasure read_write_store.Queue.pop read_write_store.Queue.push
    read_write_store.Bucket.next_insert_location read_write_store.Bucket.try_location
    read_write_store.Bucket.new read_write_store.Bucket.next_insert_location_slow
    read_write_store.Bucket.expand read_write_store.Bucket.capacity
    read_write_store.Bucket.head_size_to_total_size read_write_store.Bucket.total_loop
    read_write_store.Block.new read_write_store.Block.slot_address
    read_write_store.Block.scramble_slot read_write_store.Block.insert
    read_write_store.Block.on_slot read_write_store.Slot.insert read_write_store.Slot.remove
    read_write_store.Slot.remove_locked_slot read_write_store.Slot.lock_read
    read_write_store.Slot.lock_write read_write_store.Slot.unlock_read_slot
    read_write_store.Slot.unlock_write_slot read_write_store.Slot.get_unchecked
    read_write_store.Slot.get_exclusive read_write_store.Slot.new read_write_store.Lock.deref
    read_write_store.Lock.drop_read read_write_store.Lock.drop_write read_write_store.Lock.forget
    read_write_store.Id.generate read_write_store.Header.Solo.solo
    read_write_store.Header.Solo.solo_step read_write_store.Header.Code.add_u32
    read_write_store.Header.Code.advance read_write_store.Header.Code.after_write_swap
    read_write_store.Header.Code.block_result_to_park_result
    read_write_store.Header.Code.compare_exchange read_write_store.Header.Code.compare_exchange_weak
    read_write_store.Header.Code.lock_read_slow read_write_store.Header.Code.lock_read_with_current
    read_write_store.Header.Code.run_attempt read_write_store.Header.Code.transition_failed
    read_write_store.Header.Code.transition_slow
    read_write_store.Header.Code.unlock_read_with_current
    read_write_store.Header.Code.start_lock_read read_write_store.Header.Code.start_lock_write
    read_write_store.Header.Code.start_remove read_write_store.Header.Code.current_id
    read_write_store.Header.Word.decrement_readers read_write_store.Header.Word.has_thread_blocking
    read_write_store.Header.Word.id_from_bits read_write_store.Header.Word.increment_readers
    read_write_store.Header.Word.is_occupied read_write_store.Header.Word.is_write_locked
    read_write_store.Header.Word.mark_thread_blocking
    read_write_store.Header.Word.occupied_unlocked_bits
    read_write_store.Header.Word.readers_from_bits
    read_write_store.Header.Word.unmark_thread_blocking read_write_store.Header.Word.unoccupied_bits
    read_write_store.Header.Word.write_locked_bits
program_test = refl

run-new_example : Conforms empty_model program 3 (new 0 no_heap).1
run-new_example = run-new 5 3 0 no_heap program (λ base index. refl) (omega arith) program-IsSound

perform-IsDone_example :
    IsDone 4
      (model_of (look (filled_store unlocked [])))
      (Spec.write (id_of 5) dont_block)
      9
      (filled_store unlocked [])
perform-IsDone_example =
    perform-IsDone 4 9 (filled_store unlocked []) (model_of (look (filled_store unlocked [])))
      (Spec.write (id_of 5) dont_block) unlocked-IsStore unlocked-Refines (omega arith)
      (inl refl, tt)

-- The slot is used again, and then read with the old ID.
abbrev reuses : Program ℕ
reuses = ask (Spec.insert 9) (λ r. ask (Spec.read (id_of 5) dont_block) (λ q. stop))

reuses-IsSound : IsSound 2 (model_of (look (filled_store vacated (address ∷ [])))) reuses
reuses-IsSound = (tt, λ id fresh. ((inr (inl refl), tt), λ a b. tt))

run_stale_example :
    (s' : Store ℕ) × (replies : List (Reply ℕ)) × (run reuses 9
        (filled_store vacated (address ∷ []))
      ≡ ok (s', replies))
    × (look s' (id_of 5) ≡ none)
run_stale_example =
    run_stale 2 4 9 (filled_store vacated (address ∷ []))
      (model_of (look (filled_store vacated (address ∷ [])))) reuses (id_of 5) vacated-IsStore
      vacated-Refines (omega arith) reuses-IsSound (inl refl) refl

collect-new_iter_example :
    (es : List (ElementId × ℕ)) × (collect mut_take
        (count es + 1)
        (new_iter filled_buckets)
        (store_of unlocked).heap
      ≡ ok es)
    × ((id : ElementId) → lookup es id ≡ view (filled_store unlocked []) id)
collect-new_iter_example = collect-new_iter unlocked-IsStore

size_hint-capacity_example :
    (t : ℕ) × (a : ℕ) × (capacity (filled_store unlocked []) ≡ ok (t, a))
    × (size_hint (new_iter filled_buckets) 0 ≡ ok t)
size_hint-capacity_example =
    size_hint-capacity 4 (filled_store unlocked []) unlocked-IsStore (omega arith)
