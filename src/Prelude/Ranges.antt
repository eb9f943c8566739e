-- ===== src/Prelude/Ranges.antt =====
-- Tests over all numbers below a bound, by evaluation.
use Prim.Native.Nat.{ℕ, zero, suc, ◌<◌}
use mathlib.Core.Path.{◌≡◌}
use mathlib.Core.Logic.{inl, inr}
use mathlib.Core.Bool.{Bool, true, false, ◌&&◌, ◌||◌}
use native.Mathlib.Decide.{dec_lt}
use native.Mathlib.Omega.{arith}
use read_write_store.Prelude.Tests.{Bool-cases}

unfoldable pub every : ℕ → (ℕ → Bool) → Bool
every zero test = true
every (suc n) test = every n test && test n

unfoldable pub exists : ℕ → (ℕ → Bool) → Bool
exists zero test = false
exists (suc n) test = exists n test || test n

pub every-lt : (n x : ℕ) (test : ℕ → Bool) → every n test ≡ true → x < n → test x ≡ true
unfolding every
every-lt zero x test h lt = absurd (omega arith)
every-lt (suc n) x test h lt = elim (dec_lt x n) [
  | yes below ↦ ground (arith, every-lt n x test)
  | no last ↦ let e : x ≡ n = omega arith in rw e (ground arith)
]

pub exists_witness :
    (n : ℕ) (test : ℕ → Bool) → exists n test ≡ true → (x : ℕ) × (x < n) × (test x ≡ true)
unfolding exists
exists_witness zero test h = cc
exists_witness (suc n) test h = elim (Bool-cases (test n)) [
  | inl here ↦ (n, omega arith, here)
  | inr not_here ↦ let (x, lt, e) = exists_witness n test (ground arith) in (x, omega arith, e)
]
