-- ===== src/Header/Abstract/Refines.antt =====
-- The code of `Header` and the abstract steps.
use read_write_store.Prelude.{
  ℕ, ◌+◌, ◌-◌, ◌^◌, ◌<◌, ◌≡◌, refl, ◌⊎◌, Bool, false, not, ok, ltb, ◌==◌, arith,
}
use read_write_store.Timeout.{Timeout}
use read_write_store.Header.Word.{reserved, max_concurrent_reads}
use read_write_store.Header.Word.Laws.{
  id_from_bits_lem, readers_from_bits_lem, is_write_locked_lem, is_occupied_lem,
  has_thread_blocking_lem, mark_thread_blocking_lem, unmark_thread_blocking_lem,
  unoccupied_bits_lem, occupied_unlocked_bits_lem, increment_readers_lem, decrement_readers_lem,
  or_top,
}
use read_write_store.Header.Code.{
  Purpose, locking, removing, Attempt, reading, changing, nothing, Pc, returned, lock_read,
  read_cas, transition, attempt, mark, unlock_read, unread_cas, unlock_write, remove_locked,
  removed, occupy, then_unpark, advance, lock_read_with_current, unlock_read_with_current,
  transition_failed, run_attempt, block_result_to_park_result, after_write_swap, add_u32,
}
use read_write_store.Header.Abstract.{
  ident, readers, all_ones, saw, saw_held, refused, tried, ideal, issued, IsAttempt, IsLocal,
  IsAllowed, IsWord,
}

saw_lem :
    (id w : ℕ) (t : Timeout)
    → id < issued w
    → IsWord w
    → (readers w < max_concurrent_reads) ⊎ (readers w ≡ all_ones)
    → lock_read_with_current id w t ≡ ok (saw id w t)
unfolding lock_read_with_current
saw_lem id w t called good room =
    ground (arith, id_from_bits_lem w, is_write_locked_lem w, increment_readers_lem w good.fits)

saw_held_lem :
    (id w : ℕ)
    → ident w ≡ id
    → w < 2 ^ 64
    → 0 < readers w
    → readers w < all_ones
    → unlock_read_with_current id w ≡ ok (saw_held id w)
unfolding unlock_read_with_current
saw_held_lem id w e fits some_readers no_writer = ground (
  arith,
  id_from_bits_lem w,
  readers_from_bits_lem w,
  is_write_locked_lem w,
  has_thread_blocking_lem w fits,
  decrement_readers_lem w some_readers,
  unmark_thread_blocking_lem (w - 2 ^ 32),
)

refused_lem :
    (why : Purpose) (expected new w : ℕ) (t : Timeout)
    → transition_failed why expected new t w ≡ refused why expected new t w
unfolding transition_failed
refused_lem why expected new w t =
    ground (arith, id_from_bits_lem w, id_from_bits_lem expected, readers_from_bits_lem w)

-- Blocked by a lock of the same element: the word has readers, and its ID is not the reserved one.
tried_lem :
    (a : Attempt) (w : ℕ)
    → IsAttempt w a
    → IsWord w
    → (readers w < max_concurrent_reads) ⊎ (readers w ≡ all_ones)
    → advance false (attempt a) w ≡ ok (tried a w)
unfolding advance run_attempt block_result_to_park_result
tried_lem (reading id t) w called good room = ground (
  arith,
  id_from_bits_lem w,
  is_write_locked_lem w,
  increment_readers_lem w good.fits,
  mark_thread_blocking_lem w,
)
tried_lem (changing (locking id) expected new t) w called good room =
    ground (arith, id_from_bits_lem w, id_from_bits_lem expected, mark_thread_blocking_lem w)
tried_lem (changing (removing id next_id) expected new t) w called good room =
    ground (arith, id_from_bits_lem w, id_from_bits_lem expected, mark_thread_blocking_lem w)

swap_lem :
    (id w : ℕ) (p : Pc)
    → ident w ≡ id
    → w < 2 ^ 64
    → readers w ≡ all_ones
    → after_write_swap id w p ≡ ok (then_unpark (ltb w (2 ^ 63)) p)
unfolding after_write_swap
swap_lem id w p e fits locked =
    ground (arith, id_from_bits_lem w, is_write_locked_lem w, has_thread_blocking_lem w fits)

add_u32-one : (id : ℕ) → id < reserved → add_u32 id 1 ≡ ok (id + 1)
unfolding add_u32
add_u32-one id h = ground arith

-- The bit-level code of an atomic operation computes the abstract step and does not panic, for a
-- word that the header can reach, locals that agree with the word, and a reader count that fits
-- what the thread holds.
pub advance-ideal :
    (spurious : Bool) (p : Pc) (w : ℕ)
    → IsWord w
    → IsLocal w p
    → IsAllowed w p
    → advance spurious p w ≡ ok (ideal spurious p w)
unfolding advance
advance-ideal b (lock_read id t) w good loc room = rw (saw_lem id w t loc good room)
advance-ideal b (read_cas id current new t) w good loc room =
    ground (arith, saw_lem id w t loc.0 good room)
advance-ideal b (transition why expected new t) w good loc room =
    ground (arith, refused_lem why expected new w t)
advance-ideal b (attempt a) w good loc room = tried_lem a w loc good room
advance-ideal b (mark a expected new) w good loc room = ground arith
advance-ideal b (unlock_read id) w good loc room =
    rw (saw_held_lem id w loc good.fits room.0 room.1)
advance-ideal b (unread_cas id current new last) w good loc room =
    ground (arith, saw_held_lem id w loc.0 good.fits room.0 room.1)
advance-ideal b (unlock_write id) w good loc room =
    ground
      (arith, swap_lem id w (returned nothing) loc good.fits room, occupied_unlocked_bits_lem id)
advance-ideal b (remove_locked id) w good loc room = ground (
  arith,
  add_u32-one id,
  unoccupied_bits_lem (id + 1),
  swap_lem id w (removed (not (id + 1 == reserved))) loc good.fits room,
)
advance-ideal b occupy w good loc room =
    ground (arith, id_from_bits_lem w, is_occupied_lem w, or_top w good.fits)
advance-ideal b p w good loc room = refl
