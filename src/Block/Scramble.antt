-- ===== src/Block/Scramble.antt =====
-- src/block.rs, `scramble_slot`: the logical slots of a block and its physical ones.
use read_write_store.Prelude.{
  ℕ, zero, suc, ◌+◌, ◌*◌, ◌-◌, ◌/◌, ◌%◌, ◌^◌, ◌≤◌, ◌<◌, ◌≡◌, ◌≢◌, ◌⊎◌, inl, inr, ◌∙◌, dec_lt,
  ℕ_discrete, arith,
}
use native.Mathlib.Nat.{pow-suc, one-le-pow, pow-le-pow_right, mod-eq_of_lt, mod-eq-sub-mod}
use read_write_store.Prelude.Bits.{bit_and_low}
use read_write_store.Block.{scramble_slot}

two_pow_mod_three : (k : ℕ) → 2 ^ k % 3 ≢ 0
two_pow_mod_three zero = omega arith
two_pow_mod_three (suc k) = omega (arith, two_pow_mod_three k, pow-suc 2 k)

-- Three times a number below `n`, modulo `n`.
mod_thrice :
    (x n : ℕ)
    → x < n
    → ((x * 3 < n) × (x * 3 % n ≡ x * 3))
      ⊎ ((n ≤ x * 3) × (x * 3 < n + n) × (x * 3 % n ≡ x * 3 - n))
      ⊎ ((n + n ≤ x * 3) × (x * 3 % n ≡ x * 3 - n - n))
mod_thrice x n h = elim (dec_lt (x * 3) n) [
  | yes p ↦ inl (p, mod-eq_of_lt p)
  | no p ↦ elim (dec_lt (x * 3) (n + n)) [
    | yes q ↦ inr (inl (omega arith, q, mod-eq-sub-mod (omega arith) ∙ mod-eq_of_lt (omega arith)))
    | no q ↦ inr (
        inr (
          omega arith,
          mod-eq-sub-mod (omega arith) ∙ mod-eq-sub-mod (omega arith) ∙ mod-eq_of_lt (omega arith),
        ))
  ]
]

module _ (k : ℕ) (small : k ≤ 30) where
  -- For a block of `2 ^ k` slots the product does not leave 32 bits, and the mask is a remainder.
  two_pow_le : 2 ^ k ≤ 2 ^ 30
  two_pow_le = pow-le-pow_right (omega arith) small

  scramble_slot_lem : (slot : ℕ) → slot < 2 ^ k → scramble_slot (2 ^ k) slot ≡ slot * 3 % 2 ^ k
  unfolding scramble_slot
  scramble_slot_lem slot h =
      let e : slot * 3 % 2 ^ 32 ≡ slot * 3 = omega (arith, two_pow_le) in
      rw e (bit_and_low k (slot * 3))

  -- The physical slot lies in the block.
  pub scramble_slot-lt : (slot : ℕ) → slot < 2 ^ k → scramble_slot (2 ^ k) slot < 2 ^ k
  scramble_slot-lt slot h = rw (scramble_slot_lem slot h) (omega (arith, one-le-pow k 2))

  -- In a block of `2 ^ k` slots, `k` at most 30, two logical slots with the same physical one are
  -- the same.
  pub scramble_slot-injective :
      (a b : ℕ) → a < 2 ^ k → b < 2 ^ k → scramble_slot (2 ^ k) a ≡ scramble_slot (2 ^ k) b → a ≡ b
  scramble_slot-injective a b ha hb e =
      let e' : a * 3 % 2 ^ k ≡ b * 3 % 2 ^ k =
        rw (scramble_slot_lem a ha, scramble_slot_lem b hb) at e in
      omega (arith, e', mod_thrice a (2 ^ k) ha, mod_thrice b (2 ^ k) hb, two_pow_mod_three k)

  -- In a block of `2 ^ k` slots, `k` at most 30, every physical slot is that of some logical one.
  pub scramble_slot-surjective :
      (r : ℕ) → r < 2 ^ k → (a : ℕ) × (a < 2 ^ k) × (scramble_slot (2 ^ k) a ≡ r)
  scramble_slot-surjective r h = elim (ℕ_discrete (r % 3) 0) [
    | yes e ↦ found (r / 3) (omega arith) (omega arith)
    | no e ↦ elim (ℕ_discrete ((r + 2 ^ k) % 3) 0) [
      | yes e' ↦ found ((r + 2 ^ k) / 3) (omega arith) (omega arith)
      | no e' ↦
          let ne = two_pow_mod_three k in
          found ((r + 2 ^ k + 2 ^ k) / 3) (omega arith) (omega arith)
    ]
  ]
    where
      found :
          (a : ℕ)
          → a < 2 ^ k
          → (a * 3 ≡ r) ⊎ (a * 3 ≡ r + 2 ^ k) ⊎ (a * 3 ≡ r + 2 ^ k + 2 ^ k)
          → (a : ℕ) × (a < 2 ^ k) × (scramble_slot (2 ^ k) a ≡ r)
      found a lt e = (a, lt, scramble_slot_lem a lt ∙ omega (arith, e, mod_thrice a (2 ^ k) lt))
