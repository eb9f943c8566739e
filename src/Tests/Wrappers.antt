-- ===== src/Tests/Wrappers.antt =====
-- src/util, on a standard library and a parking lot that are as documented.
use read_write_store.Prelude.{
  ℕ, ◌≡◌, ◌≢◌, refl, ◌⊎◌, inl, inr, Bool, true, false, Option, none, some, Check, ok, ◌>>=◌,
  get_elem?, set, arith,
}
use read_write_store.Park.{
  ParkingLot, dont_park, park_now, waited, timed_out, didnt_park, Cell, park, park_lem,
}
use read_write_store.DebugCheck.{Unchecked}

-- A thread with a timeout sleeps until then, the others are woken.
sleep : {S : Type 0} → (S → Check S) → (S → Check S) → Option ℕ → S → Check S
sleep before late none s = before s
sleep before late (some deadline) s = before s >>= late

sleep_if : {S : Type 0} → (S → Check S) → (S → Check S) → Option ℕ → S × Bool → Check S
sleep_if before late timeout (s, false) = ok s
sleep_if before late timeout (s, true) = sleep before late timeout s

sleep_valid :
    {S : Type 0} (before late : S → Check S) (timeout : Option ℕ) (s : S)
    → (sleep before late timeout s ≡ before s)
      ⊎ ((timeout ≢ none) × (sleep before late timeout s ≡ (before s >>= late)))
unfolding sleep
sleep_valid before late none s = inl refl
sleep_valid before late (some deadline) s = inr (λ e. ground arith, refl)

sleepy_lot : (S : Type 0) → ParkingLot S
unfolding sleep_if
sleepy_lot S = record {
  park = λ validate before late timeout s. do
    checked ← validate s
    sleep_if before late timeout checked;
  invalid = λ validate before late timeout s s' e. rw e refl;
  valid = λ validate before late timeout s s' e. rw e (sleep_valid before late timeout s');
}

park_lem_example :
    ((value : ℕ)
      → park (sleepy_lot (Cell ℕ)) (some 9) (ok (dont_park value)) ≡ ok (didnt_park value))
    × ((park (sleepy_lot (Cell ℕ)) (some 9) (ok park_now) ≡ ok waited)
        ⊎ ((◌≢◌ {A = Option ℕ} (some 9) none)
            × (park (sleepy_lot (Cell ℕ)) (some 9) (ok park_now) ≡ ok timed_out)))
park_lem_example = park_lem (sleepy_lot (Cell ℕ)) (some 9)

or_zero : Option ℕ → Check ℕ
or_zero none = ok 0
or_zero (some n) = ok n

or_zero-some : (o : Option ℕ) (n : ℕ) → o ≡ some n → or_zero o ≡ ok n
unfolding or_zero
or_zero-some o n e = rw e refl

left_or_zero : ℕ ⊎ Unit {0} → Check ℕ
left_or_zero (inl n) = ok n
left_or_zero (inr u) = ok 0

-- Where the documentation says nothing this library gives 0, or leaves all as it is.
lenient : Unchecked ℕ (Unit {0}) (Option ℕ)
unfolding left_or_zero or_zero
lenient = record {
  get_unchecked = λ xs index. or_zero (get_elem? xs index);
  get_unchecked-some = λ xs index n e. or_zero-some (get_elem? xs index) n e;
  set_unchecked = λ xs index n. ok (set xs index n);
  set_unchecked-lt = λ xs index n lt. refl;
  unwrap_unchecked = or_zero;
  unwrap_unchecked-some = λ n. refl;
  unwrap_result_unchecked = left_or_zero;
  unwrap_result_unchecked-inl = λ n. refl;
  new_unchecked = ok;
  new_unchecked-ne = λ pointer ne. refl;
  uninit_memory = none;
  new_memory = some;
  assume_init_memory = or_zero;
  assume_init_memory-new = λ n. refl;
  read_memory = or_zero;
  read_memory-new = λ n. refl;
}
