-- ===== src/Block/Layout.antt =====
-- src/block.rs, the memory layout of a block: header, padding, slots, padding.
use read_write_store.Prelude.{
  ℕ, ◌+◌, ◌-◌, ◌*◌, ◌%◌, ◌^◌, ◌≤◌, ◌<◌, ◌≡◌, arith, ◌==◌, if◌then◌else◌, ◌&&◌, ltb, leb, Check, ok,
  panicked, ◌>>=◌, unwrap, Option, none, some, ℕ_discrete,
}
use read_write_store.Prelude.Panic.{overflow, unwrap_none}
use read_write_store.Block.{is_power_of_two}
use Prim.Native.Nat.{max, ◌/◌}
use native.Mathlib.Nat.{mod-lt, mod-add-div, mul-mod_right}

-- Sums and products of `usize`, of 64 bits, in a build with overflow checks.
abbrev pub add_usize : ℕ → ℕ → Check ℕ
add_usize a b = if ltb (a + b) (2 ^ 64) then ok (a + b) else panicked overflow

abbrev pub mul_usize : ℕ → ℕ → Check ℕ
mul_usize a b = if ltb (a * b) (2 ^ 64) then ok (a * b) else panicked overflow

unfoldable pub next_multiple_of : ℕ → ℕ → Check ℕ
next_multiple_of number multiple =
    if number % multiple == 0
    then ok number
    else let excess = number % multiple in
      let padding = multiple - excess in add_usize number padding

-- The sizes and alignments that the compiler chose for `BlockHeader` and `Slot`.
pub record Sizes : Type 0 where
  pub header_size : ℕ
  pub header_align : ℕ
  pub slot_size : ℕ
  pub slots_align : ℕ

unfoldable pub slots_offset : Sizes → Check ℕ
unfolding next_multiple_of
slots_offset z = next_multiple_of z.header_size z.slots_align

unfoldable pub block_align : Sizes → ℕ
block_align z = max z.header_align z.slots_align

unfoldable pub block_size : Sizes → ℕ → Check ℕ
unfolding next_multiple_of slots_offset block_align
block_size z size = do
  slots_size ← mul_usize z.slot_size size
  offset ← slots_offset z
  sum ← add_usize offset slots_size
  next_multiple_of sum (block_align z)

-- `std::alloc::Layout` and `Layout::from_size_align`: the alignment is a power of two, and the size
-- that is rounded up to it fits an `isize`.
pub record Layout : Type 0 where
  pub size : ℕ
  pub align : ℕ

abbrev pub from_size_align : ℕ → ℕ → Option Layout
from_size_align size align =
    if is_power_of_two align && leb (size + align) (2 ^ 63)
    then some (record { size = size; align = align })
    else none

unfoldable pub block_layout : Sizes → ℕ → Check Layout
unfolding block_size block_align
block_layout z size = do
  bytes ← block_size z size
  unwrap (from_size_align bytes (block_align z)) unwrap_none

-- where `Block::new` writes slot `i`, from the begin of the allocation
unfoldable pub slot_offset : Sizes → ℕ → Check ℕ
unfolding slots_offset
slot_offset z i = do offset ← slots_offset z; scaled ← mul_usize z.slot_size i; ok (offset + scaled)

-- For a positive multiple, and a number that leaves room for one, the next multiple of the number
-- does not overflow, is a multiple, is not below the number, and is less than one multiple above
-- it.
pub next_multiple_of_lem :
    (number multiple : ℕ)
    → 0 < multiple
    → number + multiple ≤ 2 ^ 64
    → (m : ℕ) × (next_multiple_of number multiple ≡ ok m)
      × (m % multiple ≡ 0)
      × (number ≤ m)
      × (m < number + multiple)
unfolding next_multiple_of
next_multiple_of_lem number multiple h room =
    let below : number % multiple < multiple = mod-lt number h in
    let up : number + (multiple - number % multiple) ≡ multiple * (number / multiple + 1) =
      omega (arith, mod-add-div number multiple) in
    let whole : (number + (multiple - number % multiple)) % multiple ≡ 0 =
      rw up (mul-mod_right multiple (number / multiple + 1)) in
    elim (ℕ_discrete (number % multiple) 0) [
      | yes even ↦ (number, ground arith, even, omega arith, omega arith)
      | no odd ↦
          (number + (multiple - number % multiple), ground arith, whole, omega arith, omega arith)
    ]
