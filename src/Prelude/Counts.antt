-- ===== src/Prelude/Counts.antt =====
-- Families indexed by thread: replacing one member, and counting the first `n` by a weight.
use Prim.Native.Nat.{ℕ, zero, suc, ◌+◌, ◌*◌, ◌≤◌, ◌<◌}
use mathlib.Core.Path.{◌≡◌, refl}
use mathlib.Core.Logic.{ite, if_pos, if_neg}
use native.Mathlib.Decide.{dec_lt, ℕ_discrete}
use native.Mathlib.Omega.{arith}

abbrev pub replace {ℓ} : {A : Type ℓ} → ℕ → A → (ℕ → A) → ℕ → A
replace i a f j = ite (ℕ_discrete i j) a (f j)

module _ {ℓ} {A : Type ℓ} (weight : A → ℕ) where
  pub tally : ℕ → (ℕ → A) → ℕ
  tally zero f = 0
  tally (suc n) f = weight (f n) + tally n f

  tally-replace_outside :
      (n i : ℕ) (a : A) (f : ℕ → A) → n ≤ i → tally n (replace i a f) ≡ tally n f
  unfolding tally
  tally-replace_outside zero i a f h = refl
  tally-replace_outside (suc n) i a f h = ground (arith, tally-replace_outside n i a f)

  -- One member less and one member more.
  pub tally-replace :
      (n i : ℕ) (a : A) (f : ℕ → A)
      → i < n
      → tally n (replace i a f) + weight (f i) ≡ weight a + tally n f
  unfolding tally
  tally-replace zero i a f h = absurd (omega arith)
  tally-replace (suc n) i a f h = elim (dec_lt i n) [
    | yes inside ↦ ground (arith, tally-replace n i a f inside)
    | no at_end ↦ ground (arith, tally-replace_outside n i a f)
  ]

  pub tally-le : (n : ℕ) (f : ℕ → A) → ((i : ℕ) → weight (f i) ≤ 1) → tally n f ≤ n
  unfolding tally
  tally-le zero f h = omega arith
  tally-le (suc n) f h = omega (arith, h n, tally-le n f h)

  pub tally-le_twice : (n : ℕ) (f : ℕ → A) → ((i : ℕ) → weight (f i) ≤ 2) → tally n f ≤ 2 * n
  unfolding tally
  tally-le_twice zero f h = omega arith
  tally-le_twice (suc n) f h = omega (arith, h n, tally-le_twice n f h)

  pub tally-ge : (n i : ℕ) (f : ℕ → A) → i < n → weight (f i) ≤ tally n f
  unfolding tally
  tally-ge zero i f h = absurd (omega arith)
  tally-ge (suc n) i f h = elim (dec_lt i n) [
    | yes inside ↦ omega (arith, tally-ge n i f inside)
    | no at_end ↦ ground arith
  ]

  pub tally-eq-zero : (n : ℕ) (f : ℕ → A) → ((i : ℕ) → weight (f i) ≡ 0) → tally n f ≡ 0
  unfolding tally
  tally-eq-zero zero f h = refl
  tally-eq-zero (suc n) f h = omega (arith, h n, tally-eq-zero n f h)

  pub tally-lt :
      (n i : ℕ) (f : ℕ → A)
      → i < n
      → ((j : ℕ) → weight (f j) ≤ 1)
      → weight (f i) ≡ 0
      → tally n f < n
  unfolding tally
  tally-lt zero i f h small e = absurd (omega arith)
  tally-lt (suc n) i f h small e = elim (dec_lt i n) [
    | yes inside ↦ omega (arith, small n, tally-lt n i f inside small e)
    | no at_end ↦ ground (arith, tally-le n f small)
  ]

  pub tally-map :
      (n : ℕ) (g : A → A) (f : ℕ → A)
      → ((a : A) → weight (g a) ≡ weight a)
      → tally n (λ j. g (f j)) ≡ tally n f
  unfolding tally
  tally-map zero g f same = refl
  tally-map (suc n) g f same = omega (arith, same (f n), tally-map n g f same)

pub replace_eq {ℓ} : {A : Type ℓ} (i j : ℕ) (a : A) (f : ℕ → A) → i ≡ j → replace i a f j ≡ a
replace_eq i j a f e = if_pos (ℕ_discrete i j) e a (f j)

pub replace_ne {ℓ} : {A : Type ℓ} (i j : ℕ) (a : A) (f : ℕ → A) → ¬ (i ≡ j) → replace i a f j ≡ f j
replace_ne i j a f e = if_neg (ℕ_discrete i j) e a (f j)

module _ {ℓ} {A : Type ℓ} (weight : A → ℕ) where
  -- Two members count together.
  pub tally-pair :
      (n i j : ℕ) (f : ℕ → A)
      → i < n
      → j < n
      → ¬ (i ≡ j)
      → weight (f i) + weight (f j) ≤ tally weight n f
  unfolding tally
  tally-pair zero i j f hi hj ne = absurd (omega arith)
  tally-pair (suc n) i j f hi hj ne = elim (dec_lt i n) [
    | yes i_in ↦ elim (dec_lt j n) [
      | yes j_in ↦ omega (arith, tally-pair n i j f i_in j_in ne)
      | no j_end ↦ let e : j ≡ n = omega arith in rw e (omega (arith, tally-ge weight n i f i_in))
    ]
    | no i_end ↦
        let e : i ≡ n = omega arith in
        let j_in : j < n = elim (dec_lt j n) [ yes h ↦ h | no h ↦ absurd (ne (omega arith)) ] in
        rw e (omega (arith, tally-ge weight n j f j_in))
  ]

  -- Where something is counted, some member counts.
  pub tally_witness :
      (n : ℕ) (f : ℕ → A) → 0 < tally weight n f → (i : ℕ) × (i < n) × (0 < weight (f i))
  unfolding tally
  tally_witness zero f h = absurd (omega arith)
  tally_witness (suc n) f h = elim (dec_lt 0 (weight (f n))) [
    | yes here ↦ (n, omega arith, here)
    | no before ↦ let (i, lt, w) = tally_witness n f (omega arith) in (i, omega arith, w)
  ]
