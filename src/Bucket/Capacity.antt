-- ===== src/Bucket/Capacity.antt =====
-- src/bucket.rs, the capacity that a bucket reports.
use read_write_store.Prelude.{
  List, ◌∷◌, leb, if◌then◌else◌, ℕ, zero, suc, ◌+◌, ◌*◌, ◌-◌, ◌^◌, ◌≤◌, ◌<◌, ◌≡◌, refl, ap, ◌∙◌,
  arith, ok, panicked,
}
use native.Mathlib.Nat.{pow-suc, one-le-pow, pow-le-pow_right}
use read_write_store.Prelude.Panic.{overflow}
use read_write_store.Id.{RwStoreId}
use read_write_store.Block.{Block}
use read_write_store.Bucket.{capacity, total_loop, head_size_to_total_size}

-- From a size considered to the head's size, `j` doublings later.
total_loop_lem :
    (j fuel total considered head : ℕ)
    → head ≡ considered * 2 ^ j
    → j + 1 < fuel
    → 0 < considered
    → head ≤ 2 ^ 30
    → total < considered
    → total_loop fuel total considered head ≡ ok (total + (2 * head - considered))
unfolding total_loop
total_loop_lem zero zero total considered head e f pos small below = absurd (omega arith)
total_loop_lem zero (suc zero) total considered head e f pos small below = absurd (omega arith)
total_loop_lem zero (suc (suc fuel)) total considered head e f pos small below = ground arith
total_loop_lem (suc j) zero total considered head e f pos small below = absurd (omega arith)
total_loop_lem (suc j) (suc fuel) total considered head e f pos small below =
    let e' : head ≡ considered * 2 * 2 ^ j =
      omega (arith, e, ap (λ (t : ℕ). considered * t) (pow-suc 2 j)) in
    let one : 1 ≤ 2 ^ j = one-le-pow j 2 (omega arith) in
    let more : considered * 2 ≤ considered * 2 * 2 ^ j = grind arith in
    ground (
      arith,
      total_loop_lem j fuel (total + considered) (considered * 2) head e' (omega arith)
          (omega arith) small (omega arith),
    )

-- With a newest block of `2 ^ k` slots, `k` at most 30, the loop that adds up the sizes of a
-- bucket's blocks ends, no sum overflows, and the result is `2 ^ (k + 1) - 1`.
pub head_size_to_total_size_lem :
    (k : ℕ) → k ≤ 30 → head_size_to_total_size (2 ^ k) ≡ ok (2 * 2 ^ k - 1)
unfolding head_size_to_total_size
head_size_to_total_size_lem k small =
    let le : 2 ^ k ≤ 2 ^ 30 = pow-le-pow_right (omega arith) small in
    total_loop_lem k 33 0 1 (2 ^ k) (omega arith) (omega arith) (omega arith) le (omega arith)
    ∙ ap ok (omega arith)

pub head_size_to_total_size-zero : head_size_to_total_size 0 ≡ ok 0
unfolding head_size_to_total_size total_loop
head_size_to_total_size-zero = refl

-- A newest block of `2 ^ 31` slots is beyond the function: the size that it considers next overflows.
pub head_size_to_total_size_overflow : head_size_to_total_size (2 ^ 31) ≡ panicked overflow
unfolding head_size_to_total_size total_loop
head_size_to_total_size_overflow = refl

-- With a newest block of `2 ^ k` slots, `k` at most 30, of which `used` have been asked for, a
-- bucket reports the slots handed out and the slots allocated, unless more have been asked for
-- than there are: then the subtraction panics.
pub capacity_lem :
    (k : ℕ) (head : Block) (rest : List Block) (used : ℕ) (store_id : RwStoreId)
    → k ≤ 30
    → head.len ≡ 2 ^ k
    → capacity (record { blocks = head ∷ rest; next_unused_slot = used; store_id = store_id })
      ≡ (if leb used (2 ^ k) then ok (2 ^ k - 1 + used, 2 * 2 ^ k - 1) else panicked overflow)
unfolding capacity
capacity_lem k head rest used store_id small len =
    let total = head_size_to_total_size_lem k small in
    let one : 1 ≤ 2 ^ k = one-le-pow k 2 (omega arith) in rw (len, total) (ground arith)
