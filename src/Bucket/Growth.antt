-- ===== src/Bucket/Growth.antt =====
-- src/bucket.rs, a bucket and its heap once a block was added.
use read_write_store.Prelude.{
  ℕ, ◌+◌, ◌⊎◌, inl, inr, Bool-cases, ◌^◌, ◌≤◌, ◌<◌, ◌≡◌, refl, arith, ◌&&◌, true, false, ok, some,
  List, ◌∷◌, ltb, ◌==◌, if◌then◌else◌, dec_lt,
}
use native.Mathlib.Nat.{one-le-pow, pow-le-pow_right}
use read_write_store.Id.{RwStoreId}
use read_write_store.Slot.{Slot}
use read_write_store.Slot
use read_write_store.Block.{Block, Heap, scramble_slot, slot_address, put, is_power_of_two}
use read_write_store.Block
use read_write_store.Block.Scramble.{scramble_slot-lt}
use read_write_store.Bucket
use read_write_store.Bucket.{
  Bucket, next_insert_location, next_insert_location_slow, try_location, expand, head_size,
}
use read_write_store.Bucket.Chains.{AllBlocks, AllBlocks-kept, Keeps}
use read_write_store.Bucket.Unused.{IsUnused, power-is_power_of_two}

-- A power of two that a 31-bit count bounds.
pub power_bound : (k : ℕ) → 2 ^ k < 2 ^ 30 → k < 30
power_bound k h = elim (dec_lt k 30) [
  | yes lt ↦ lt
  | no ge ↦
      let large : 30 ≤ k = omega arith in
      let le : 2 ^ 30 ≤ 2 ^ k = pow-le-pow_right (omega arith) large in absurd (omega arith)
]

module _ {ℓ} {A : Type ℓ} where
  unfoldable pub grown : ℕ → Heap A → Heap A
  grown size h = record {
    next_base = h.next_base + 1;
    cell = λ base index.
        if (base == h.next_base) && ltb index size then some Slot.new else h.cell base index;
  }

  pub expand_lem :
      (b : Bucket) (h : Heap A) (k : ℕ)
      → Bucket.next_size b.blocks ≡ ok (2 ^ k)
      → expand b h
        ≡ ok (
          grown (2 ^ k) h,
          record b {
            blocks = record { base = h.next_base; len = 2 ^ k; store_id = b.store_id } ∷ b.blocks;
            next_unused_slot = 0;
          },
        )
  unfolding expand Block.new grown
  expand_lem b h k size =
      let one : 1 ≤ 2 ^ k = one-le-pow k 2 (omega arith) in
      let some_slots : (2 ^ k == 0) ≡ false = ground arith in
      rw (size, power-is_power_of_two k, some_slots) refl

  pub grown-IsUnused :
      (h : Heap A) (k : ℕ) (store_id : RwStoreId)
      → k ≤ 30
      → IsUnused
          (record { base = h.next_base; len = 2 ^ k; store_id = store_id })
          0
          k
          (grown (2 ^ k) h)
  unfolding grown
  grown-IsUnused h k store_id small = record {
    small = small;
    len = refl;
    known = omega arith;
    within = omega arith;
    untouched = λ i le lt.
        let inside = scramble_slot-lt k small i lt in
        let yes_inside : ltb (scramble_slot (2 ^ k) i) (2 ^ k) ≡ true = ground arith in
        let same : (h.next_base == h.next_base) ≡ true = ground arith in rw (same, yes_inside) refl;
  }

  pub grown-old :
      (h : Heap A) (size base index : ℕ)
      → base < h.next_base
      → (grown size h).cell base index ≡ h.cell base index
  unfolding grown
  grown-old h size base index lt =
      let other : (base == h.next_base) ≡ false = ground arith in rw other refl

  pub grown-cells :
      (h : Heap A) (size base index : ℕ) (slot : Slot A)
      → (grown size h).cell base index ≡ some slot
      → (h.cell base index ≡ some slot) ⊎ ((slot ≡ Slot.new) × (base < h.next_base + 1))
  unfolding grown
  grown-cells h size base index slot e =
      elim (Bool-cases ((base == h.next_base) && ltb index size)) [
        | inl t ↦ inr (ground arith, ground arith)
        | inr t ↦ inl (rw t at e)
      ]

  pub grown-Keeps : (size : ℕ) (h : Heap A) → Keeps h (grown size h)
  unfolding grown
  grown-Keeps size h base index slot at =
      elim (Bool-cases ((base == h.next_base) && ltb index size)) [
        | inl t ↦ (Slot.new, rw t refl)
        | inr t ↦ (slot, rw t at)
      ]

  pub grown-AllBlocks :
      (h : Heap A) (k : ℕ) (store_id : RwStoreId) (bs : List Block)
      → k ≤ 30
      → AllBlocks h bs
      → AllBlocks
          (grown (2 ^ k) h)
          (record { base = h.next_base; len = 2 ^ k; store_id = store_id } ∷ bs)
  unfolding grown
  grown-AllBlocks h k store_id bs small all = (
    record {
      k = k;
      small = small;
      len = refl;
      filled = λ i lt.
          let inside : ltb i (2 ^ k) ≡ true = ground arith in
          let same : (h.next_base == h.next_base) ≡ true = ground arith in
          (Slot.new, rw (same, inside) refl);
    },
    AllBlocks-kept h (grown (2 ^ k) h) bs (grown-Keeps (2 ^ k) h) all,
  )
