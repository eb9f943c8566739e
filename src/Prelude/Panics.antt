-- ===== src/Prelude/Panics.antt =====
-- Code that may panic: a failed `debug_assert!`, `unwrap` or `panic!` ends in `panicked`.
use mathlib.Core.Bool.{Bool, true, false}
use mathlib.Core.Option.{Option, none, some}

-- The panics of the crate, by the message of the assertion that fails.
pub data Panic : Type 0 where
  reserved_id not_read_locked write_locked wrong_id not_write_locked : Panic
  still_occupied unoccupied unlocked no_readers too_many_readers : Panic
  overflow out_of_bounds uninitialized foreign_id unwrap_none timed_out_unwrap : Panic
  bad_size still_locked out_of_fuel entered_unreachable : Panic

pub data Check {ℓ} (A : Type ℓ) : Type ℓ where
  ok : A → Check A
  panicked : Panic → Check A

-- `debug_assert!(b, "…")`
abbrev pub debug_assert : Bool → Panic → Check (Unit {0})
debug_assert false e = panicked e
debug_assert true e = ok tt

-- `unwrap` and the unchecked variant that checks in debug builds
abbrev pub unwrap {ℓ} : {A : Type ℓ} → Option A → Panic → Check A
unwrap none e = panicked e
unwrap (some a) e = ok a

-- The code after a call that may panic, with its result or without.
infixl 5 ◌>>◌ ◌>>=◌
abbrev pub ◌>>=◌ {κ ℓ} : {B : Type κ} {A : Type ℓ} → Check B → (B → Check A) → Check A
panicked why >>= rest = panicked why
ok result >>= rest = rest result

abbrev pub ◌>>◌ {κ} : {A : Type κ} → Check (Unit {0}) → Check A → Check A
first >> second = first >>= (λ done. second)
