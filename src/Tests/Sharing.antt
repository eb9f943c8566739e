-- ===== src/Tests/Sharing.antt =====
-- Two threads that look for slots in one bucket, run to states in which the theorems apply.
use read_write_store.Prelude.{
  ℕ, ◌+◌, ◌-◌, ◌^◌, ◌<◌, ◌≡◌, refl, Option, some, none, ◌∷◌, ok, arith, ℕ_discrete, tally, tally-le,
  length,
}
use read_write_store.Id.{Address, RwStoreId}
use read_write_store.Slot
use read_write_store.Block.{Heap, scramble_slot, slot_address}
use read_write_store.Block
use read_write_store.Bucket.{Bucket, try_location, expand, next_insert_location}
use read_write_store.Bucket
use read_write_store.Bucket.Sharing.{
  Place, outside, lookup_step, note, take_read, drop_read, take_write, return_write, AllDistinct,
  IsNew, IsNewest, Sharing, new_sharing, act, move, Reach, start, later, Run,
}
use read_write_store.Bucket.Sharing.Invariant.{pending}
use read_write_store.Bucket.Sharing.Safety.{locations_distinct, lookup_succeeds, calls_end}

abbrev no_slots : Heap ℕ
no_slots = record { next_base = 0; cell = λ base index. none }

abbrev first_store : RwStoreId
first_store = record { value = 0 }

-- both threads have found nothing in the empty bucket
missed_both : (s : Sharing ℕ) × Reach 2 s
unfolding new_sharing Bucket.new ℕ_discrete lookup_step try_location
missed_both = (
  _,
  later
      (later
        (later
          (later (start first_store no_slots) (move 0 (omega arith) (take_read (λ j lt. refl))))
          (move 1 (omega arith) (take_read (λ j lt. ground arith))))
        (act 0 (omega arith) refl refl))
      (act 1 (omega arith) refl refl),
)

-- the first has added a block and taken its slot
grown_once : (s : Sharing ℕ) × Reach 2 s
unfolding missed_both expand Block.new scramble_slot slot_address
grown_once = (
  _,
  later
      (later
        (later
          (later
            (later
              (later (later missed_both.1 (move 0 (omega arith) drop_read))
                (move 1 (omega arith) drop_read))
              (move 0 (omega arith) (take_write (λ j lt. ground arith))))
            (act 0 (omega arith) refl refl))
          (act 0 (omega arith) refl refl))
        (act 0 (omega arith) refl refl))
      (move 0 (omega arith) return_write),
)

-- the second has found that slot taken, and is about to add the next block
second_expands : (s : Sharing ℕ) × Reach 2 s
unfolding grown_once
second_expands = (
  _,
  later (later grown_once.1 (move 1 (omega arith) (take_write (λ j lt. ground arith))))
      (act 1 (omega arith) refl refl),
)

-- and has taken a slot of the block that it added
second_leaves : (s : Sharing ℕ) × Reach 2 s
unfolding second_expands
second_leaves = (
  _,
  later (later second_expands.1 (act 1 (omega arith) refl refl)) (act 1 (omega arith) refl refl),
)

two_given : length second_leaves.0.given ≡ 2
unfolding second_leaves
two_given = refl

locations_distinct_example : AllDistinct second_leaves.0.given
unfolding second_leaves
locations_distinct_example = locations_distinct (omega arith) (omega arith) second_leaves.1

lookup_succeeds_example :
    (h : Heap ℕ) × (b : Bucket) × (p : Place) × (lookup_step
        (second_expands.0.place 1)
        second_expands.0.bucket
        second_expands.0.heap
      ≡ ok (h, (b, p)))
    × ((a : Address)
        → note p second_expands.0.given ≡ a ∷ second_expands.0.given
        → (second_expands.0.heap.cell a.base a.index ≡ some Slot.new)
          × IsNew a second_expands.0.given
          × IsNewest second_expands.0.bucket.blocks a.base)
unfolding second_expands
lookup_succeeds_example =
    lookup_succeeds (omega arith) (omega arith) second_expands.1 1 (omega arith) refl

few_pending : (place : ℕ → Place) → 1 + tally pending 2 place < 2 ^ 31 - 1
few_pending place = omega (arith, tally-le pending 2 place (λ j. ground arith))

calls_end_example :
    (t : Sharing ℕ) × Run 2 t second_expands.0
    × ((i : ℕ) → i < 2 → (last : Option Address) × (t.place i ≡ outside last))
    × (length t.given ≡ length second_expands.0.given + tally pending 2 second_expands.0.place)
unfolding second_expands
calls_end_example =
    calls_end second_expands.0 (omega arith) second_expands.1 (few_pending second_expands.0.place)
