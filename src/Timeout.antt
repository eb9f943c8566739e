-- ===== src/Timeout.antt =====
-- src/timeout.rs: how long a blocking operation may wait, and its result. An `Instant` is a number
-- of clock ticks.
use read_write_store.Prelude.{ℕ, ◌+◌, Bool, true, false, ltb, ◌≡◌, refl, ap, ◌⊎◌, inl, inr, arith}

pub data Timeout : Type 0 where
  dont_block : Timeout
  block_until : ℕ → Timeout
  block_indefinitely : Timeout

-- `Timeout::block_for`; `now` is what `Instant::now` returns.
unfoldable pub block_for : ℕ → ℕ → Timeout
block_for now duration = block_until (now + duration)

-- The derived `Ord`: by constructor, then by instant.
unfoldable pub lt : Timeout → Timeout → Bool
lt dont_block dont_block = false
lt dont_block _ = true
lt (block_until a) (block_until b) = ltb a b
lt (block_until a) block_indefinitely = true
lt (block_until a) dont_block = false
lt block_indefinitely _ = false

-- `Result<T, TimedOut>`
pub data BlockResult {ℓ} (A : Type ℓ) : Type ℓ where
  done : A → BlockResult A
  timed_out : BlockResult A

irreflexive : (a : Timeout) → lt a a ≡ false
unfolding lt
irreflexive dont_block = refl
irreflexive (block_until a) = ground arith
irreflexive block_indefinitely = refl

transitive : (a b c : Timeout) → lt a b ≡ true → lt b c ≡ true → lt a c ≡ true
unfolding lt
transitive dont_block dont_block c h k = k
transitive dont_block (block_until b) dont_block h k = k
transitive dont_block (block_until b) (block_until c) h k = refl
transitive dont_block (block_until b) block_indefinitely h k = refl
transitive dont_block block_indefinitely c h k = ground arith
transitive (block_until a) dont_block c h k = ground arith
transitive (block_until a) (block_until b) dont_block h k = k
transitive (block_until a) (block_until b) (block_until c) h k = ground arith
transitive (block_until a) (block_until b) block_indefinitely h k = refl
transitive (block_until a) block_indefinitely c h k = ground arith
transitive block_indefinitely b c h k = ground arith

total : (a b : Timeout) → (lt a b ≡ true) ⊎ ((a ≡ b) ⊎ (lt b a ≡ true))
unfolding lt
total dont_block dont_block = inr (inl refl)
total dont_block (block_until b) = inl refl
total dont_block block_indefinitely = inl refl
total (block_until a) dont_block = inr (inr refl)
total (block_until a) (block_until b) = elim (trichotomous a b) [
  | inl h ↦ inl h
  | inr (inl e) ↦ inr (inl (ap block_until e))
  | inr (inr h) ↦ inr (inr h)
]
  where
    trichotomous : (m n : ℕ) → (ltb m n ≡ true) ⊎ ((m ≡ n) ⊎ (ltb n m ≡ true))
    trichotomous m n = ground arith
total (block_until a) block_indefinitely = inl refl
total block_indefinitely dont_block = inr (inr refl)
total block_indefinitely (block_until b) = inr (inr refl)
total block_indefinitely block_indefinitely = inr (inl refl)

-- The order on timeouts is a strict total order: no timeout is before itself, it is transitive,
-- and of two timeouts one is before the other or they are equal.
pub lt-IsStrictTotal :
    (a b c : Timeout)
    → (lt a a ≡ false)
      × (lt a b ≡ true → lt b c ≡ true → lt a c ≡ true)
      × ((lt a b ≡ true) ⊎ ((a ≡ b) ⊎ (lt b a ≡ true)))
lt-IsStrictTotal a b c = (irreflexive a, transitive a b c, total a b)
