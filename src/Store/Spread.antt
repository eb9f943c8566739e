-- ===== src/Store/Spread.antt =====
-- src/lib.rs, `arbitrary_bucket_id`: the buckets that a thread's insertions go to.
use read_write_store.Prelude.{
  ℕ, zero, suc, ◌+◌, ◌*◌, ◌%◌, ◌<◌, ◌≡◌, refl, true, arith, ◌==◌, every, exists, every-lt,
  exists_witness,
}
use read_write_store.Store.{bucket_count, arbitrary_bucket_id}

-- The state after `n` calls.
unfoldable pub state_after : ℕ → ℕ → ℕ
state_after zero state = state
state_after (suc n) state = (arbitrary_bucket_id (state_after n state)).0

-- The low four bits of the generator go by themselves.
turns : ℕ → ℕ → ℕ
turns zero b = b
turns (suc n) b = (turns n b * 13 + 9) % 16

state_after-turns : (n state : ℕ) → state_after n state % 16 ≡ turns n (state % 16)
unfolding state_after arbitrary_bucket_id turns
state_after-turns zero state = refl
state_after-turns (suc n) state = omega (arith, state_after-turns n state)

bucket-turns :
    (n state : ℕ) → (arbitrary_bucket_id (state_after n state)).1 ≡ turns (suc n) (state % 16)
unfolding arbitrary_bucket_id turns
bucket-turns n state = omega (arith, state_after-turns n state)

turns_table : every 16 (λ b. every 16 (λ t. exists 16 (λ n. turns (suc n) b == t))) ≡ true
unfolding turns every exists
turns_table = refl

-- Among any 16 calls of a thread's bucket generator in a row, for every bucket one names it.
pub arbitrary_bucket_id_covers :
    (state bucket : ℕ)
    → bucket < bucket_count
    → (n : ℕ) × (n < 16) × ((arbitrary_bucket_id (state_after n state)).1 ≡ bucket)
arbitrary_bucket_id_covers state bucket h =
    let row = every-lt 16 (state % 16) _ turns_table (omega arith) in
    let (n, lt, e) = exists_witness 16 _ (every-lt 16 bucket _ row h) in
    (n, lt, ground (arith, bucket-turns n state))
