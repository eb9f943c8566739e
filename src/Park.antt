-- ===== src/Park.antt =====
-- src/util/sync/park.rs, `park` as built without loom, on the queues of parking_lot.
use read_write_store.Prelude.{
  ℕ, Bool, true, false, ◌≡◌, ◌≢◌, refl, ◌⊎◌, inl, inr, Option, none, some, Check, ok, panicked,
  ◌>>=◌, unwrap,
}
use read_write_store.Prelude.Panic.{uninitialized, entered_unreachable}

module _ {ℓ} (T : Type ℓ) where
  pub data ParkChoice : Type ℓ where
    park_now : ParkChoice
    dont_park : T → ParkChoice

  pub data ParkResult : Type ℓ where
    waited timed_out : ParkResult
    didnt_park : T → ParkResult

-- `parking_lot::park`, as its documentation has it, on the state `S` that the closures change.
-- `validate` runs while the queue is locked. If it returns false the thread does not sleep; if it
-- returns true `before_sleep` runs, and the thread sleeps until it is unparked or, if there is a
-- timeout, until that passes, when `timed_out` runs.
pub record ParkingLot {ℓ} (S : Type ℓ) : Type ℓ where
  pub park :
      (validate : S → Check (S × Bool)) (before_sleep timed_out : S → Check S)
      → Option ℕ
      → S
      → Check S
  pub invalid :
      (validate : S → Check (S × Bool)) (before_sleep timed_out : S → Check S) (timeout : Option ℕ)
      (s s' : S)
      → validate s ≡ ok (s', false)
      → park validate before_sleep timed_out timeout s ≡ ok s'
  pub valid :
      (validate : S → Check (S × Bool)) (before_sleep timed_out : S → Check S) (timeout : Option ℕ)
      (s s' : S)
      → validate s ≡ ok (s', true)
      → (park validate before_sleep timed_out timeout s ≡ before_sleep s')
        ⊎ ((timeout ≢ none)
            × (park validate before_sleep timed_out timeout s ≡ (before_sleep s' >>= timed_out)))

-- The cell `result`, uninitialized at first, is what the closures share.
abbrev pub Cell {ℓ} : Type ℓ → Type ℓ
Cell T = Option (ParkResult T)

module _ {ℓ} {T : Type ℓ} where
  abbrev pub store_choice : ParkChoice T → Cell T × Bool
  store_choice park_now = (some waited, true)
  store_choice (dont_park value) = (some (didnt_park value), false)

  -- The closures, where `f` is what the caller's closure returns.
  unfoldable pub validate : Check (ParkChoice T) → Cell T → Check (Cell T × Bool)
  validate f cell = do choice ← f; ok (store_choice choice)

  abbrev pub replace_waited : ParkResult T → Check (Cell T)
  replace_waited waited = ok (some timed_out)
  replace_waited r = panicked entered_unreachable

  unfoldable pub when_timed_out : Cell T → Check (Cell T)
  when_timed_out cell = do r ← unwrap cell uninitialized; replace_waited r

  unfoldable pub park : ParkingLot (Cell T) → Option ℕ → Check (ParkChoice T) → Check (ParkResult T)
  park lot timeout f = do
    cell ← lot.park (validate f) ok when_timed_out timeout none
    unwrap cell uninitialized

  -- On a parking lot that does what parking_lot documents, `park` returns what the closure
  -- returned with when that was not to park; otherwise it reports that it waited, or, only if
  -- there is a timeout, that it timed out. The result is always initialized and the unreachable
  -- arm is never entered.
  pub park_lem :
      (lot : ParkingLot (Cell T)) (timeout : Option ℕ)
      → ((value : T) → park lot timeout (ok (dont_park value)) ≡ ok (didnt_park value))
        × ((park lot timeout (ok park_now) ≡ ok waited)
            ⊎ ((timeout ≢ none) × (park lot timeout (ok park_now) ≡ ok timed_out)))
  unfolding park validate when_timed_out
  park_lem lot timeout = (
    λ value.
        rw (lot.invalid (validate (ok (dont_park value))) ok when_timed_out timeout none _ refl)
          refl,
    elim (lot.valid (validate (ok park_now)) ok when_timed_out timeout none _ refl) [
      | inl woken ↦ inl (rw woken refl)
      | inr (has, late) ↦ inr (has, rw late refl)
    ],
  )
