-- ===== src/Tests/Parts.antt =====
-- The smaller parts at concrete inputs: src/block.rs, src/bucket.rs, `arbitrary_bucket_id` of src/lib.rs,
-- src/timeout.rs and the queue of erasures.
use read_write_store.Prelude.{ℕ, ◌<◌, ◌≡◌, refl, ok, some, none, List, [], ◌∷◌, arith}
use read_write_store.Id.{Address}
use read_write_store.Block.{Block, Heap, scramble_slot}
use read_write_store.Block.Scramble.{scramble_slot-injective}
use read_write_store.Block.Layout.{Sizes}
use read_write_store.Bucket.{Bucket, next_insert_location, capacity, head_size_to_total_size}
use read_write_store.Bucket.Capacity.{capacity_lem, head_size_to_total_size_lem}
use read_write_store.Bucket.Unused.{no_block}
use read_write_store.Bucket.Locations.{IsHandedOut, next_insert_location_lem}
use read_write_store.Queue.{push_all, pop_all, pop_all-push_all}
use read_write_store.Store.{arbitrary_bucket_id}
use read_write_store.Store.Spread.{state_after, arbitrary_bucket_id_covers}

-- Slot 5 of a block of 8 is scrambled to 7, and 7 is the image of 5 only.
scramble_slot-injective_example : ◌≡◌ {A = ℕ} 5 5
unfolding scramble_slot
scramble_slot-injective_example =
    scramble_slot-injective 3 (omega arith) 5 5 (omega arith) (omega arith) refl

abbrev sizes : Sizes
sizes = record { header_size = 20; header_align = 4; slot_size = 24; slots_align = 8 }

abbrev no_slots : Heap ℕ
no_slots = record { next_base = 0; cell = λ base index. none }

abbrev empty_bucket : Bucket
empty_bucket = record { blocks = []; next_unused_slot = 0; store_id = record { value = 0 } }

next_insert_location_lem_example :
    (h : Heap ℕ) × (b : Bucket) × (a : Address) × (next_insert_location empty_bucket no_slots
      ≡ ok (h, (b, a)))
    × IsHandedOut no_slots h empty_bucket b a 0
next_insert_location_lem_example =
    next_insert_location_lem no_slots empty_bucket 0 (no_block (record { value = 0 })) (omega arith)

abbrev block_of_4 : Block
block_of_4 = record { base = 2; len = 4; store_id = record { value = 0 } }

capacity_lem_example :
    capacity
      (record { blocks = block_of_4 ∷ []; next_unused_slot = 3; store_id = record { value = 0 } })
    ≡ ok (6, 7)
capacity_lem_example = capacity_lem 2 block_of_4 [] 3 (record { value = 0 }) (omega arith) refl

head_size_to_total_size_lem_example : head_size_to_total_size 8 ≡ ok 15
head_size_to_total_size_lem_example = head_size_to_total_size_lem 3 (omega arith)

arbitrary_bucket_id_covers_example :
    (n : ℕ) × (n < 16) × ((arbitrary_bucket_id (state_after n 7)).1 ≡ 11)
arbitrary_bucket_id_covers_example = arbitrary_bucket_id_covers 7 11 (omega arith)

abbrev pushed : List ℕ
pushed = 3 ∷ 1 ∷ 2 ∷ []

pop_all-push_all_example : pop_all pushed (push_all pushed []) ≡ some ([], pushed)
pop_all-push_all_example = pop_all-push_all pushed
