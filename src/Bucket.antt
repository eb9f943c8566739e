-- ===== src/Bucket.antt =====
-- src/bucket.rs: a list of blocks, newest first, each twice as long as the one before, and the
-- number of slots of the newest that have been asked for.
pub mod Capacity
pub mod Unused
pub mod Chains
pub mod Growth
pub mod Locations
pub mod Sharing
use read_write_store.Prelude.{
  ℕ, zero, suc, ◌+◌, ◌*◌, ◌%◌, ◌^◌, ◌-◌, Bool, true, false, Option, none, some, List, [], ◌∷◌,
  Check, ok, panicked, ◌>>=◌, ◌>>◌, unwrap, ltb, leb, if◌then◌else◌,
}
use read_write_store.Prelude.Panic.{overflow, unwrap_none, out_of_fuel}
use read_write_store.Id.{Address, RwStoreId}
use read_write_store.Block.{Block, Heap}
use read_write_store.Block

abbrev pub initial_block_size : ℕ
initial_block_size = 1

abbrev pub resize_factor : ℕ
resize_factor = 2

-- `BucketInner`; the whole of a `Bucket` is this under a lock.
pub record Bucket : Type 0 where
  pub blocks : List Block
  pub next_unused_slot : ℕ
  pub store_id : RwStoreId

unfoldable pub new : RwStoreId → Bucket
new store_id = record { blocks = []; next_unused_slot = 0; store_id = store_id }

-- `BucketInner::next_insert_location`; `fetch_add` wraps.
abbrev pub location_in : List Block → ℕ → Check (Option Address)
location_in [] slot = ok none
location_in (head ∷ rest) slot =
    if ltb slot head.len then (do a ← Block.slot_address head slot; ok (some a)) else ok none

abbrev pub bump : List Block → ℕ → ℕ
bump [] slot = slot
bump (head ∷ rest) slot = (slot + 1) % 2 ^ 32

unfoldable pub try_location : Bucket → Check (Bucket × Option Address)
try_location b = do
  found ← location_in b.blocks b.next_unused_slot
  ok (record b { next_unused_slot = bump b.blocks b.next_unused_slot }, found)

abbrev pub mul_u32 : ℕ → ℕ → Check ℕ
mul_u32 a b = if ltb (a * b) (2 ^ 32) then ok (a * b) else panicked overflow

abbrev pub add_u32 : ℕ → ℕ → Check ℕ
add_u32 a b = if ltb (a + b) (2 ^ 32) then ok (a + b) else panicked overflow

abbrev pub sub_u32 : ℕ → ℕ → Check ℕ
sub_u32 a b = if leb b a then ok (a - b) else panicked overflow

abbrev pub next_size : List Block → Check ℕ
next_size [] = ok initial_block_size
next_size (head ∷ rest) = mul_u32 head.len resize_factor

module _ {ℓ} {A : Type ℓ} where
  unfoldable pub expand : Bucket → Heap A → Check (Heap A × Bucket)
  expand b h = do
    size ← next_size b.blocks
    (h', block) ← Block.new size b.store_id h
    ok (h', record b { blocks = block ∷ b.blocks; next_unused_slot = 0 })

  unfoldable pub next_insert_location_slow : Bucket → Heap A → Check (Heap A × (Bucket × Address))
  next_insert_location_slow b h = do
    (b', found) ← try_location b
    elim found [
      | some a ↦ ok (h, (b', a))
      | none ↦ do
        (h', b'') ← expand b' h
        (b''', found') ← try_location b''
        a ← unwrap found' unwrap_none
        ok (h', (b''', a))
    ]

  unfoldable pub next_insert_location : Bucket → Heap A → Check (Heap A × (Bucket × Address))
  next_insert_location b h = do
    (b', found) ← try_location b
    elim found [ some a ↦ ok (h, (b', a)) | none ↦ next_insert_location_slow b' h ]

-- The loop of `head_size_to_total_size`. The size considered doubles, so 33 rounds see it past any
-- 32-bit number.
unfoldable pub total_loop : ℕ → ℕ → ℕ → ℕ → Check ℕ
total_loop zero total considered head_size = panicked out_of_fuel
total_loop (suc fuel) total considered head_size = elim (leb considered head_size) [
  | false ↦ ok total
  | true ↦ do
    total' ← add_u32 total considered
    considered' ← mul_u32 considered resize_factor
    total_loop fuel total' considered' head_size
]

unfoldable pub head_size_to_total_size : ℕ → Check ℕ
head_size_to_total_size = total_loop 33 0 initial_block_size

abbrev pub head_size : List Block → ℕ
head_size [] = 0
head_size (head ∷ rest) = head.len

-- `Bucket::capacity`: touched, then allocated.
unfoldable pub capacity : Bucket → Check (ℕ × ℕ)
capacity b = do
  allocated ← head_size_to_total_size (head_size b.blocks)
  total ← head_size_to_total_size (head_size b.blocks)
  unused ← sub_u32 (head_size b.blocks) b.next_unused_slot
  touched ← sub_u32 total unused
  ok (touched, allocated)
