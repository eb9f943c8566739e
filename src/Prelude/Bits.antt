-- ===== src/Prelude/Bits.antt =====
-- `&` and `|` of machine words as arithmetic, for masks at every bit.
use Prim.Native.Nat.{
  ℕ, zero, suc, ◌+◌, ◌-◌, ◌*◌, ◌/◌, ◌%◌, ◌^◌, ◌≤◌, ◌<◌, min, max, bit_and, bit_or, digits,
  bit_and-bitwise, bit_or-bitwise,
}
use mathlib.Core.Path.{◌≡◌, refl, ap, sym, ◌∙◌}
use native.Mathlib.Nat.{pow-suc, one-le-pow}
use native.Mathlib.Omega.{arith}

-- `!x` on a word of `w` bits
abbrev pub bit_not : ℕ → ℕ → ℕ
bit_not w x = 2 ^ w - 1 - x

-- The digit recursion has a count of digits that may be larger than needed.
module _ (on_zero : ℕ → ℕ) (op : ℕ → ℕ → ℕ) where
  no_digit : (count b : ℕ) → digits on_zero op count 0 b ≡ on_zero b
  no_digit zero b = refl
  no_digit (suc count) b = refl

  enough_digits : (a b k l : ℕ) → a ≤ k → a ≤ l → digits on_zero op k a b ≡ digits on_zero op l a b
  enough_digits zero b k l h g = no_digit k b ∙ sym (no_digit l b)
  enough_digits (suc a) b zero l h g = absurd (omega arith)
  enough_digits (suc a) b (suc k) zero h g = absurd (omega arith)
  enough_digits (suc a) b (suc k) (suc l) h g =
      ap (λ (rest : ℕ). rest * 2 + op (suc a % 2) (b % 2))
        (enough_digits (suc a / 2) (b / 2) k l (omega arith) (omega arith))

-- Both operations, digit by digit.
and_lowest : (b a : ℕ) → min (a % 2) (b % 2) + 2 * bit_and (a / 2) (b / 2) ≡ bit_and a b
and_lowest b zero = omega (arith, bit_and-bitwise 0 (b / 2), bit_and-bitwise 0 b)
and_lowest b (suc a) =
    let half = suc a / 2 in
    let known = enough_digits (λ _. 0) min half (b / 2) half a (omega arith) (omega arith) in
    omega (arith, known, bit_and-bitwise half (b / 2), bit_and-bitwise (suc a) b)

or_lowest : (b a : ℕ) → max (a % 2) (b % 2) + 2 * bit_or (a / 2) (b / 2) ≡ bit_or a b
or_lowest b zero = omega (arith, bit_or-bitwise 0 (b / 2), bit_or-bitwise 0 b)
or_lowest b (suc a) =
    let half = suc a / 2 in
    let known = enough_digits (λ y. y) max half (b / 2) half a (omega arith) (omega arith) in
    omega (arith, known, bit_or-bitwise half (b / 2), bit_or-bitwise (suc a) b)

double_pow : (q k : ℕ) → q * 2 ^ suc k ≡ 2 * (q * 2 ^ k)
double_pow q k = omega (arith, ap (λ (t : ℕ). q * t) (pow-suc 2 k))

-- `|` works on the fields above and below any bit by themselves.
bit_or_fields :
    (k q p r s : ℕ)
    → r < 2 ^ k
    → s < 2 ^ k
    → bit_or (q * 2 ^ k + r) (p * 2 ^ k + s) ≡ bit_or q p * 2 ^ k + bit_or r s
bit_or_fields zero q p r s h g =
    let e : r ≡ 0 = omega arith in
    let d : s ≡ 0 = omega arith in
    let l : q * 1 + 0 ≡ q = omega arith in
    let m : p * 1 + 0 ≡ p = omega arith in rw (e, d, l, m) (omega arith)
bit_or_fields (suc k) q p r s h g = ground (
  arith,
  or_lowest (p * 2 ^ suc k + s) (q * 2 ^ suc k + r),
  or_lowest s r,
  double_pow q k,
  double_pow p k,
  double_pow (bit_or q p) k,
  pow-suc 2 k,
  bit_or_fields k q p (r / 2) (s / 2),
)

or-zero_bounded : (n a : ℕ) → a ≤ n → bit_or a 0 ≡ a
or-zero_bounded zero zero h = refl
or-zero_bounded zero (suc a) h = absurd (omega arith)
or-zero_bounded (suc n) zero h = refl
or-zero_bounded (suc n) (suc a) h =
    omega (arith, or_lowest 0 (suc a), or-zero_bounded n (suc a / 2) (omega arith))

-- A mask with no bit below `k` leaves the low field of an `|` as it is, and clears that of an `&`.
pub bit_or_high :
    (k q p r : ℕ) → r < 2 ^ k → bit_or (q * 2 ^ k + r) (p * 2 ^ k) ≡ bit_or q p * 2 ^ k + r
bit_or_high k q p r h = ground (arith, one-le-pow k 2, bit_or_fields k q p r 0, or-zero_bounded r r)

-- Fields that do not overlap are added, on either side.
pub bit_or_disjoint :
    (k p r : ℕ)
    → r < 2 ^ k
    → (bit_or (p * 2 ^ k) r ≡ p * 2 ^ k + r) × (bit_or r (p * 2 ^ k) ≡ p * 2 ^ k + r)
bit_or_disjoint k p r h = ground (
  arith,
  one-le-pow k 2,
  bit_or_fields k p 0 0 r,
  bit_or_fields k 0 p r 0,
  or-zero_bounded r r,
  or-zero_bounded p p,
  bit_or-bitwise 0 r,
  bit_or-bitwise 0 p,
)

pub bit_and_high :
    (k q p r : ℕ) → r < 2 ^ k → bit_and (q * 2 ^ k + r) (p * 2 ^ k) ≡ bit_and q p * 2 ^ k
bit_and_high zero q p r h =
    let e : r ≡ 0 = omega arith in
    let l : q * 1 + r ≡ q = omega arith in
    let m : p * 1 ≡ p = omega arith in rw (l, m) (omega arith)
bit_and_high (suc k) q p r h = ground (
  arith,
  and_lowest (p * 2 ^ suc k) (q * 2 ^ suc k + r),
  double_pow q k,
  double_pow p k,
  double_pow (bit_and q p) k,
  pow-suc 2 k,
  bit_and_high k q p (r / 2),
)

and-zero_bounded : (n a : ℕ) → a ≤ n → bit_and a 0 ≡ 0
and-zero_bounded zero zero h = refl
and-zero_bounded zero (suc a) h = absurd (omega arith)
and-zero_bounded (suc n) zero h = refl
and-zero_bounded (suc n) (suc a) h =
    omega (arith, and_lowest 0 (suc a), and-zero_bounded n (suc a / 2) (omega arith))

and-low_field : (k q r : ℕ) → r < 2 ^ k → bit_and (q * 2 ^ k + r) (2 ^ k - 1) ≡ r
and-low_field zero q r h = rw (and-zero_bounded (q * 1 + r) (q * 1 + r) (omega arith)) (omega arith)
and-low_field (suc k) q r h = ground (
  arith,
  and_lowest (2 ^ suc k - 1) (q * 2 ^ suc k + r),
  double_pow q k,
  pow-suc 2 k,
  one-le-pow k 2,
  and-low_field k q (r / 2),
)

-- `& (2 ^ k - 1)` is the remainder by `2 ^ k`.
pub bit_and_low : (k a : ℕ) → bit_and a (2 ^ k - 1) ≡ a % 2 ^ k
bit_and_low k a = ground (arith, one-le-pow k 2, and-low_field k (a / 2 ^ k) (a % 2 ^ k))
