-- ===== src/Tests/HeaderTests.antt =====
-- src/header.rs, its tests: each is run on the model, and gives the value of its last assertion.
use read_write_store.Prelude.{
  ℕ, ◌+◌, ◌≡◌, refl, Bool, true, false, not, ◌&&◌, Option, none, some, [], ◌∷◌, Check, ok, ◌>>=◌,
  ◌==◌,
}
use read_write_store.Timeout.{dont_block}
use read_write_store.Header.Word.{
  unoccupied_bits, readers_from_bits, is_occupied, id_from_bits, has_thread_blocking,
  occupied_unlocked_bits, write_locked_bits, is_write_locked, increment_readers, decrement_readers,
  mark_thread_blocking, unmark_thread_blocking,
}
use read_write_store.Header.Code.{
  Pc, returned, mismatch, timed_out, removed, read_held, write_held, occupy, unlock_read,
  unlock_write, remove_locked, start_lock_read, start_lock_write, start_remove, reset, needs_drop,
  advance, after_write_swap, compare_exchange, compare_exchange_weak, lock_read_slow,
  lock_read_with_current, run_attempt, transition_failed, transition_slow, unlock_read_with_current,
  block_result_to_park_result, add_u32,
}
use read_write_store.Header.Solo.{alone, solo, solo_step}
use read_write_store.Slot.{occupy_outcome}
use read_write_store.Tests.Samples.{all_pass}

-- The calls that the tests make: the word after the call, and what it returned.
abbrev occupied : ℕ → Check (ℕ × ℕ)
occupied w = do (w', p) ← alone occupy w; id ← occupy_outcome p; ok (w', id)

abbrev read_locked : ℕ → ℕ → Check (ℕ × Pc)
read_locked id w = do start ← start_lock_read id dont_block; alone start w

abbrev write_locked : ℕ → ℕ → Check (ℕ × Pc)
write_locked id w = do start ← start_lock_write id dont_block; alone start w

abbrev without : ℕ → ℕ → Check (ℕ × Pc)
without id w = do start ← start_remove id dont_block; alone start w

-- `Ok(true)`, `Ok(false)`, `Err(TimedOut)`, and the results of a removal
abbrev is_locked : Pc → Bool
is_locked (read_held id) = true
is_locked (write_held id) = true
is_locked p = false

abbrev is_mismatch : Pc → Bool
is_mismatch (returned mismatch) = true
is_mismatch p = false

abbrev is_timed_out : Pc → Bool
is_timed_out (returned timed_out) = true
is_timed_out p = false

abbrev is_reusable : Pc → Bool
is_reusable (removed may_reuse) = may_reuse
is_reusable p = false

abbrev is_some : Option ℕ → ℕ → Bool
is_some none id = false
is_some (some x) id = x == id

abbrev is_none : Option ℕ → Bool
is_none none = true
is_none (some x) = false

-- `Header::new`
abbrev new_word : ℕ
new_word = unoccupied_bits 0

abbrev reset_initially_returns_none : Check Bool
reset_initially_returns_none = do (w, found) ← reset new_word; ok (is_none found)

abbrev reset_returns_the_tracked_id : Check Bool
reset_returns_the_tracked_id = do
  (w, id) ← occupied new_word
  (w', found) ← reset w
  (v, first) ← occupied new_word
  (v1, p) ← without first v
  (v2, second) ← occupied v1
  (v3, found') ← reset v2
  ok (is_some found id && (is_reusable p && is_some found' second))

abbrev reset_returns_none_after_double_invocation : Check Bool
reset_returns_none_after_double_invocation = do
  (w, id) ← occupied new_word
  (w', found) ← reset w
  (w'', found') ← reset w'
  ok (is_none found')

abbrev needs_drop_is_false_initially : Check Bool
needs_drop_is_false_initially = ok (not (needs_drop new_word))

abbrev needs_drop_is_true_after_occupation : Check Bool
needs_drop_is_true_after_occupation = do (w, id) ← occupied new_word; ok (needs_drop w)

abbrev needs_drop_is_false_after_removal : Check Bool
needs_drop_is_false_after_removal = do
  (w, id) ← occupied new_word
  (w', p) ← without id w
  ok (not (is_timed_out p) && not (needs_drop w'))

abbrev needs_drop_is_false_after_locked_removal : Check Bool
needs_drop_is_false_after_locked_removal = do
  (w, id) ← occupied new_word
  (w1, p) ← write_locked id w
  (w2, q) ← alone (remove_locked id) w1
  ok (not (is_timed_out p) && not (needs_drop w2))

abbrev lock_read_succeeds_when_id_matches : Check Bool
lock_read_succeeds_when_id_matches = do
  (w, id) ← occupied new_word
  (w1, p) ← read_locked id w
  (w2, q) ← alone (unlock_read id) w1
  ok (is_locked p)

abbrev lock_write_succeeds_when_id_matches : Check Bool
lock_write_succeeds_when_id_matches = do
  (w, id) ← occupied new_word
  (w1, p) ← write_locked id w
  (w2, q) ← alone (unlock_write id) w1
  ok (is_locked p)

abbrev lock_read_fails_when_id_doesnt_match : Check Bool
lock_read_fails_when_id_doesnt_match = do
  (w, id) ← occupied new_word
  (w1, p) ← read_locked (id + 1) w
  ok (is_mismatch p)

abbrev lock_write_fails_when_id_doesnt_match : Check Bool
lock_write_fails_when_id_doesnt_match = do
  (w, id) ← occupied new_word
  (w1, p) ← write_locked (id + 1) w
  ok (is_mismatch p)

abbrev double_read_lock_succeeds : Check Bool
double_read_lock_succeeds = do
  (w, id) ← occupied new_word
  (w1, p) ← read_locked id w
  (w2, q) ← read_locked id w1
  (w3, r) ← alone (unlock_read id) w2
  (w4, r') ← alone (unlock_read id) w3
  ok (not (is_timed_out p) && is_locked q)

abbrev remove_succeeds_when_id_matches : Check Bool
remove_succeeds_when_id_matches = do
  (w, id) ← occupied new_word
  (w1, p) ← without id w
  ok (is_reusable p)

abbrev remove_fails_when_id_doesnt_match : Check Bool
remove_fails_when_id_doesnt_match = do
  (w, id) ← occupied new_word
  (w1, p) ← without (id + 1) w
  ok (is_mismatch p)

abbrev remove_fails_before_occupation : Check Bool
remove_fails_before_occupation = do (w, p) ← without 42 new_word; ok (is_mismatch p)

abbrev remove_fails_after_double_invocation : Check Bool
remove_fails_after_double_invocation = do
  (w, id) ← occupied new_word
  (w1, p) ← without id w
  (w2, q) ← without id w1
  ok (not (is_timed_out p) && is_mismatch q)

abbrev cannot_lock_read_when_locking_write : Check Bool
cannot_lock_read_when_locking_write = do
  (w, id) ← occupied new_word
  (w1, p) ← write_locked id w
  (w2, q) ← read_locked id w1
  (w3, r) ← alone (unlock_write id) w2
  ok (not (is_timed_out p) && is_timed_out q)

abbrev cannot_lock_write_when_locking_read : Check Bool
cannot_lock_write_when_locking_read = do
  (w, id) ← occupied new_word
  (w1, p) ← read_locked id w
  (w2, q) ← write_locked id w1
  (w3, r) ← alone (unlock_read id) w2
  ok (not (is_timed_out p) && is_timed_out q)

abbrev cannot_remove_when_locking_read : Check Bool
cannot_remove_when_locking_read = do
  (w, id) ← occupied new_word
  (w1, p) ← read_locked id w
  (w2, q) ← without id w1
  (w3, r) ← alone (unlock_read id) w2
  ok (not (is_timed_out p) && is_timed_out q)

abbrev cannot_remove_when_locking_write : Check Bool
cannot_remove_when_locking_write = do
  (w, id) ← occupied new_word
  (w1, p) ← write_locked id w
  (w2, q) ← without id w1
  (w3, r) ← alone (unlock_write id) w2
  ok (not (is_timed_out p) && is_timed_out q)

header_tests :
    all_pass (
      reset_initially_returns_none ∷ reset_returns_the_tracked_id
      ∷ reset_returns_none_after_double_invocation ∷ needs_drop_is_false_initially
      ∷ needs_drop_is_true_after_occupation ∷ needs_drop_is_false_after_removal
      ∷ needs_drop_is_false_after_locked_removal ∷ lock_read_succeeds_when_id_matches
      ∷ lock_write_succeeds_when_id_matches ∷ lock_read_fails_when_id_doesnt_match
      ∷ lock_write_fails_when_id_doesnt_match ∷ double_read_lock_succeeds
      ∷ remove_succeeds_when_id_matches ∷ remove_fails_when_id_doesnt_match
      ∷ remove_fails_before_occupation ∷ remove_fails_after_double_invocation
      ∷ cannot_lock_read_when_locking_write ∷ cannot_lock_write_when_locking_read
      ∷ cannot_remove_when_locking_read ∷ cannot_remove_when_locking_write ∷ [])
    ≡ true
unfolding unoccupied_bits reset needs_drop start_remove start_lock_read start_lock_write solo
    advance solo_step after_write_swap compare_exchange compare_exchange_weak lock_read_slow
    lock_read_with_current run_attempt transition_failed transition_slow unlock_read_with_current
    block_result_to_park_result add_u32 readers_from_bits is_occupied id_from_bits
    has_thread_blocking occupied_unlocked_bits write_locked_bits is_write_locked increment_readers
    decrement_readers mark_thread_blocking unmark_thread_blocking
header_tests = refl
