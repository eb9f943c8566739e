-- ===== src/Tests/Insertions.antt =====
-- Two threads on one store: the first has a new slot from a bucket.
use read_write_store.Prelude.{
  ℕ, ◌+◌, ◌^◌, ◌<◌, ◌≡◌, ◌≢◌, refl, ◌⊎◌, true, some, none, arith, ℕ_discrete,
}
use read_write_store.Id.{Address}
use read_write_store.Header.Code.{occupy}
use read_write_store.Header.Invariant.{reads, writes, owns}
use read_write_store.Block.{Heap, scramble_slot, slot_address}
use read_write_store.Block
use read_write_store.Bucket.{try_location, expand}
use read_write_store.Bucket
use read_write_store.Bucket.Sharing.{lookup_step, take_read, drop_read, take_write, return_write}
use read_write_store.Store.Sharing.{SharedReach, empty, occurs, is_listed}
use read_write_store.Store.Whole.{
  Whole, WholeReach, IsSmall, new_whole, look, lock, insert_at, start, later,
}
use read_write_store.Store.Whole.Apart.{carries}
use read_write_store.Store.Whole.Safety.{slots_apart, WholeReach-SharedReach}

abbrev no_slots : Heap ℕ
no_slots = record { next_base = 0; cell = λ base index. none }

abbrev first_slot : Address
first_slot = record { base = 0; index = 0 }

-- the first thread has found nothing in bucket 3, and waits for the write lock
missed_one : (s : Whole ℕ) × WholeReach 2 s
unfolding new_whole Bucket.new ℕ_discrete lookup_step try_location empty
missed_one = (
  _,
  later
      (later
        (later (start (record { value = 0 }) no_slots)
          (lock 3 0 (omega arith) (omega arith) (take_read (λ j lt. refl))))
        (look 3 0 (omega arith) (omega arith) refl refl))
      (lock 3 0 (omega arith) (omega arith) drop_read),
)

-- it has added a block, and begins to occupy its slot
inserting : (s : Whole ℕ) × WholeReach 2 s × (s.shared.pc first_slot 0 ≡ occupy)
unfolding missed_one expand Block.new scramble_slot slot_address
inserting = (
  _,
  later
      (later
        (later
          (later
            (later
              (later missed_one.1
                (lock 3 0 (omega arith) (omega arith) (take_write (λ j lt. ground arith))))
              (look 3 0 (omega arith) (omega arith) refl refl))
            (look 3 0 (omega arith) (omega arith) refl refl))
          (look 3 0 (omega arith) (omega arith) refl refl))
        (lock 3 0 (omega arith) (omega arith) return_write))
      (insert_at 3 0 {a = first_slot} (omega arith) (omega arith) refl refl),
  refl,
)

inserting-IsSmall : IsSmall inserting.0
unfolding inserting
inserting-IsSmall k = ground arith

slots_apart_example :
    (inserting.0.shared.word first_slot < 2 ^ 32)
    × (occurs first_slot inserting.0.shared.erasures ≡ 0)
    × ((k : ℕ) × (is_listed first_slot (inserting.0.given k) ≡ true))
    × ((k j : ℕ) → j < 2 → carries (inserting.0.place k j) ≢ some first_slot)
    × ((j : ℕ)
        → j < 2
        → (reads (inserting.0.shared.pc first_slot j) + writes (inserting.0.shared.pc first_slot j)
            ≡ 0)
          × ((◌≡◌ {A = ℕ} 0 j) ⊎ (owns (inserting.0.shared.pc first_slot j) ≡ 0)))
slots_apart_example =
    slots_apart (omega arith) inserting-IsSmall inserting.1 first_slot 0 (omega arith) inserting.2

WholeReach-SharedReach_example : SharedReach 2 inserting.0.shared
WholeReach-SharedReach_example = WholeReach-SharedReach (omega arith) inserting-IsSmall inserting.1
