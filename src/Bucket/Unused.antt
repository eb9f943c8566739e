-- ===== src/Bucket/Unused.antt =====
-- src/bucket.rs, the slots of a bucket that were not handed out, and the lookups of the next one.
use read_write_store.Prelude.{
  bit_and, and-false, ℕ, ◌+◌, ◌-◌, ◌%◌, ◌^◌, ◌≤◌, ◌<◌, ◌≡◌, refl, arith, true, false, ok, some,
  none, List, [], ◌∷◌, ltb, ◌==◌,
}
use native.Mathlib.Nat.{one-le-pow, pow-le-pow_right}
use read_write_store.Prelude.Bits.{bit_and_low}
use native.Mathlib.Nat.{mod_self}
use read_write_store.Id.{RwStoreId}
use read_write_store.Slot.{Slot}
use read_write_store.Slot
use read_write_store.Block.{Block, Heap, scramble_slot, slot_address, put, is_power_of_two}
use read_write_store.Block.Scramble.{scramble_slot-lt, scramble_slot-injective}
use read_write_store.Bucket.{Bucket, try_location}

pub slot_address_lem :
    (head : Block) (k slot : ℕ)
    → k ≤ 30
    → head.len ≡ 2 ^ k
    → slot < 2 ^ k
    → slot_address head slot ≡ ok (record { base = head.base; index = scramble_slot (2 ^ k) slot })
unfolding slot_address
slot_address_lem head k slot small len h =
    let lt = scramble_slot-lt k small slot h in rw len (ground arith)

pub power-is_power_of_two : (k : ℕ) → is_power_of_two (2 ^ k) ≡ true
power-is_power_of_two k =
    let low : bit_and (2 ^ k) (2 ^ k - 1) ≡ 2 ^ k % 2 ^ k = bit_and_low k (2 ^ k) in
    let one : 1 ≤ 2 ^ k = one-le-pow k 2 (omega arith) in
    let self : 2 ^ k % 2 ^ k ≡ 0 = mod_self (2 ^ k) in ground arith

pub power_small : (k : ℕ) → k ≤ 30 → (1 ≤ 2 ^ k) × (2 ^ k ≤ 2 ^ 30)
power_small k h = (one-le-pow k 2 (omega arith), pow-le-pow_right (omega arith) h)

-- When it is full, the lookups find nothing, and only count.
pub try_location-full :
    (head : Block) (k used : ℕ) (rest : List Block) (store_id : RwStoreId)
    → k ≤ 30
    → head.len ≡ 2 ^ k
    → 2 ^ k ≤ used
    → used ≤ 2 ^ k + 1
    → try_location (record { blocks = head ∷ rest; next_unused_slot = used; store_id = store_id })
      ≡ ok (record { blocks = head ∷ rest; next_unused_slot = used + 1; store_id = store_id }, none)
unfolding try_location
try_location-full head k used rest store_id small len full few =
    let bounds = power_small k small in
    let none_left : ltb used head.len ≡ false = ground arith in
    let bumped : (used + 1) % 2 ^ 32 ≡ used + 1 = omega arith in rw (none_left, bumped) refl

module _ {ℓ} {A : Type ℓ} where
  -- The slots of a block from `used` on have not been touched.
  pub record IsUnused (head : Block) (used k : ℕ) (h : Heap A) : Type ℓ where
    pub small : k ≤ 30
    pub len : head.len ≡ 2 ^ k
    pub known : head.base < h.next_base
    pub within : used ≤ 2 ^ k
    pub untouched :
        (i : ℕ) → used ≤ i → i < 2 ^ k → h.cell head.base (scramble_slot (2 ^ k) i) ≡ some Slot.new

  -- A bucket between two calls, with the number of slots that it has handed out: it has no block
  -- yet, or its newest one has `2 ^ k` slots and the part that was not handed out is untouched.
  pub data IsReady (h : Heap A) : Bucket → ℕ → Type ℓ where
    no_block :
        (store_id : RwStoreId)
        → IsReady h (record { blocks = []; next_unused_slot = 0; store_id = store_id }) 0
    in_block :
        {head : Block} {rest : List Block} {used k touched : ℕ} {store_id : RwStoreId}
        → IsUnused head used k h
        → touched ≡ 2 ^ k - 1 + used
        → IsReady h
            (record { blocks = head ∷ rest; next_unused_slot = used; store_id = store_id })
            touched

  -- While the newest block has room, its next slot is handed out.
  pub try_location-room :
      {head : Block} {used k : ℕ} {h : Heap A} (rest : List Block) (store_id : RwStoreId)
      → IsUnused head used k h
      → used < 2 ^ k
      → try_location (record { blocks = head ∷ rest; next_unused_slot = used; store_id = store_id })
        ≡ ok (
          record { blocks = head ∷ rest; next_unused_slot = used + 1; store_id = store_id },
          some (record { base = head.base; index = scramble_slot (2 ^ k) used }),
        )
  unfolding try_location
  try_location-room {head} {used} {k} rest store_id u lt =
      let len = u.len in
      let bounds = power_small k u.small in
      let room : ltb used head.len ≡ true = ground arith in
      let bumped : (used + 1) % 2 ^ 32 ≡ used + 1 = omega arith in
      rw (room, slot_address_lem head k used u.small u.len lt, bumped) refl

  -- Writing to the slot that was handed out leaves the others untouched.
  pub IsUnused-put :
      {head : Block} {used k : ℕ} {h : Heap A}
      → IsUnused head used k h
      → used < 2 ^ k
      → (s : Slot A)
      → IsUnused head (used + 1) k (record h {
        cell = put (record { base = head.base; index = scramble_slot (2 ^ k) used }) s h.cell;
      })
  IsUnused-put {head} {used} {k} {h} u lt s = record {
    small = u.small;
    len = u.len;
    known = u.known;
    within = omega arith;
    untouched = λ i le i_lt.
        let apart : (scramble_slot (2 ^ k) used == scramble_slot (2 ^ k) i) ≡ false =
          ground (arith, scramble_slot-injective k u.small used i lt i_lt) in
        rw (apart, and-false (head.base == head.base)) (u.untouched i (omega arith) i_lt);
  }
