-- ===== src/Header/Code.antt =====
-- src/header.rs, the methods of `Header`, cut at their atomic operations. A thread's position is a
-- `Pc` with the local variables that are live there; the functions named as in the source compute
-- what stands between one atomic operation and the next.
use read_write_store.Prelude.{
  ℕ, ◌+◌, ◌^◌, Bool, not, ◌&&◌, Check, ok, panicked, ◌>>=◌, ◌>>◌, debug_assert, ltb, ◌==◌,
  if◌then◌else◌, Option, none, some,
}
use read_write_store.Prelude.Panic.{
  reserved_id, not_read_locked, write_locked, wrong_id, not_write_locked, still_occupied,
  still_locked, overflow,
}
use read_write_store.Timeout.{Timeout, dont_block}
use read_write_store.Header.Word.{
  reserved, unoccupied_bits, occupied_unlocked_bits, is_occupied, write_locked_bits, id_from_bits,
  readers_from_bits, is_write_locked, has_thread_blocking, mark_thread_blocking,
  unmark_thread_blocking, increment_readers, decrement_readers, thread_notification_mask,
}
use Prim.Native.Nat.{bit_or}

-- Who called `transition`: `lock_write` with its ID, or `remove` with the next ID.
pub data Purpose : Type 0 where
  locking : (id : ℕ) → Purpose
  removing : (id next_id : ℕ) → Purpose

-- The closure that `block` runs, with the timeout that its caller has.
pub data Attempt : Type 0 where
  reading : (id : ℕ) → (t : Timeout) → Attempt
  changing : (why : Purpose) → (expected new : ℕ) → (t : Timeout) → Attempt

pub data Reply : Type 0 where
  nothing mismatch timed_out : Reply
  occupied : (id : ℕ) → Reply

pub data Pc : Type 0 where
  returned : (r : Reply) → Pc
  lock_read : (id : ℕ) → (t : Timeout) → Pc  -- before the load
  read_cas : (id current new : ℕ) → (t : Timeout) → Pc
  transition : (why : Purpose) → (expected new : ℕ) → (t : Timeout) → Pc  -- before its exchange
  block : (a : Attempt) → Pc  -- before `Park::park` has the queue
  attempt : (a : Attempt) → Pc  -- with the queue, before the closure's atomic operation
  mark : (a : Attempt) → (expected new : ℕ) → Pc  -- in `block_result_to_park_result`
  queued : (a : Attempt) → Pc  -- with the queue, about to sleep
  parked : (a : Attempt) → Pc
  read_held : (id : ℕ) → Pc
  unlock_read : (id : ℕ) → Pc  -- before the load
  unread_cas : (id current new : ℕ) → (must_unpark : Bool) → Pc
  write_held : (id : ℕ) → Pc
  unlock_write : (id : ℕ) → Pc  -- before the swap
  remove_locked : (id : ℕ) → Pc  -- before the swap
  unpark : (p : Pc) → Pc  -- before `Park::unpark`, then `p`
  removed : (may_reuse : Bool) → Pc
  occupy : Pc  -- before the fetch_or

pub data Exchange : Type 0 where
  swapped : Exchange
  differs : (actual : ℕ) → Exchange

unfoldable pub compare_exchange : ℕ → ℕ → Exchange
compare_exchange expected w = if w == expected then swapped else differs w

-- The weak form may fail although the word is the expected one.
unfoldable pub compare_exchange_weak : Bool → ℕ → ℕ → Exchange
unfolding compare_exchange
compare_exchange_weak spurious expected w =
    if spurious then differs w else compare_exchange expected w

unfoldable pub lock_read_slow : ℕ → Timeout → Pc
lock_read_slow id dont_block = returned timed_out
lock_read_slow id t = block (reading id t)

unfoldable pub lock_read_with_current : ℕ → ℕ → Timeout → Check Pc
lock_read_with_current id current t =
    if not (id_from_bits current == id)
    then ok (returned mismatch)
    else if is_write_locked current
    then ok (lock_read_slow id t)
    else do new ← increment_readers current; ok (read_cas id current new t)

-- `Header::lock_read`, `lock_write` and `remove` up to their first atomic operation.
unfoldable pub start_lock_read : ℕ → Timeout → Check Pc
start_lock_read id t = do debug_assert (not (id == reserved)) reserved_id; ok (lock_read id t)

unfoldable pub start_lock_write : ℕ → Timeout → Check Pc
start_lock_write id t = do
  debug_assert (not (id == reserved)) reserved_id
  ok (transition (locking id) (occupied_unlocked_bits id) (write_locked_bits id) t)

unfoldable pub add_u32 : ℕ → ℕ → Check ℕ
add_u32 a b = if ltb (a + b) (2 ^ 32) then ok (a + b) else panicked overflow

unfoldable pub start_remove : ℕ → Timeout → Check Pc
start_remove id t = do
  debug_assert (not (id == reserved)) reserved_id
  next_id ← add_u32 id 1
  ok (transition (removing id next_id) (occupied_unlocked_bits id) (unoccupied_bits next_id) t)

unfoldable pub unlock_read_with_current : ℕ → ℕ → Check Pc
unlock_read_with_current id current = do
  debug_assert (not (readers_from_bits current == 0)) not_read_locked
  debug_assert (not (is_write_locked current)) write_locked
  debug_assert (id_from_bits current == id) wrong_id
  blocking ← has_thread_blocking current
  let must_unpark = blocking && readers_from_bits current == 1
  fewer ← decrement_readers current
  let new = if must_unpark then unmark_thread_blocking fewer else fewer
  ok (unread_cas id current new must_unpark)

-- What the callers of `transition` make of `Ok(true)`.
abbrev pub succeeded : Purpose → Pc
succeeded (locking id) = write_held id
succeeded (removing id next_id) = removed (not (next_id == reserved))

unfoldable pub transition_slow : Purpose → ℕ → ℕ → Timeout → Pc
transition_slow why expected new dont_block = returned timed_out
transition_slow why expected new t = block (changing why expected new t)

-- The exchange of `transition` has failed, and the word was `actual`.
unfoldable pub transition_failed : Purpose → ℕ → ℕ → Timeout → ℕ → Pc
transition_failed why expected new t actual =
    if id_from_bits actual == id_from_bits expected
    then if ltb 0 (readers_from_bits actual)
      then transition_slow why expected new t
      else transition why expected new t
    else returned mismatch

-- `BlockChoice`; a result that does not block goes on with what its caller does.
pub data BlockChoice : Type 0 where
  block_on : (expected_state : ℕ) → BlockChoice
  dont_park : (p : Pc) → BlockChoice

-- The closures of `lock_read_slow` and `transition_slow`: the word that they leave, their choice.
unfoldable pub run_attempt : Attempt → ℕ → Check (ℕ × BlockChoice)
unfolding compare_exchange
run_attempt (reading id t) w =
    if not (id_from_bits w == id)
    then ok (w, dont_park (returned mismatch))
    else if is_write_locked w
    then ok (w, block_on w)
    else do new ← increment_readers w; ok (w, dont_park (read_cas id w new t))
run_attempt (changing why expected new t) w = elim (compare_exchange expected w) [
  | swapped ↦ ok (new, dont_park (succeeded why))
  | differs actual ↦
      if id_from_bits actual == id_from_bits expected
      then ok (w, block_on actual)
      else ok (w, dont_park (returned mismatch))
]

unfoldable pub block_result_to_park_result : Attempt → BlockChoice → Check Pc
block_result_to_park_result a (dont_park p) = ok p
block_result_to_park_result a (block_on expected) = do
  new ← mark_thread_blocking expected
  ok (mark a expected new)

abbrev pub then_unpark : Bool → Pc → Pc
then_unpark b p = if b then unpark p else p

-- The swaps of `unlock_write` and `remove_locked`, from the word that they replace.
unfoldable pub after_write_swap : ℕ → ℕ → Pc → Check Pc
after_write_swap id old p = do
  debug_assert (id_from_bits old == id) wrong_id
  debug_assert (is_write_locked old) not_write_locked
  blocking ← has_thread_blocking old
  ok (then_unpark blocking p)

-- One atomic operation of a thread, and what it computes up to the next: the new word, the new place.
-- The places where a thread waits for the queue, sleeps, holds a lock or has returned are no steps
-- of the header's code: there nothing moves.
unfoldable pub advance : Bool → Pc → ℕ → Check (ℕ × Pc)
unfolding compare_exchange_weak
advance spurious (lock_read id t) w = do p ← lock_read_with_current id w t; ok (w, p)
advance spurious (read_cas id current new t) w = elim (compare_exchange_weak spurious current w) [
  | swapped ↦ ok (new, read_held id)
  | differs actual ↦ do p ← lock_read_with_current id actual t; ok (w, p)
]
advance spurious (transition why expected new t) w =
    elim (compare_exchange_weak spurious expected w) [
      | swapped ↦ ok (new, succeeded why)
      | differs actual ↦ ok (w, transition_failed why expected new t actual)
    ]
advance spurious (attempt a) w = do
  (w', choice) ← run_attempt a w
  p ← block_result_to_park_result a choice
  ok (w', p)
advance spurious (mark a expected new) w = elim (compare_exchange expected w) [
  | swapped ↦ ok (new, queued a)
  | differs _ ↦ ok (w, attempt a)
]
advance spurious (unlock_read id) w = do p ← unlock_read_with_current id w; ok (w, p)
advance spurious (unread_cas id current new must_unpark) w =
    elim (compare_exchange_weak spurious current w) [
      | swapped ↦ ok (new, then_unpark must_unpark (returned nothing))
      | differs actual ↦ do p ← unlock_read_with_current id actual; ok (w, p)
    ]
advance spurious (unlock_write id) w = do
  p ← after_write_swap id w (returned nothing)
  ok (occupied_unlocked_bits id, p)
advance spurious (remove_locked id) w = do
  next_id ← add_u32 id 1
  p ← after_write_swap id w (removed (not (next_id == reserved)))
  ok (unoccupied_bits next_id, p)
advance spurious occupy w = do
  debug_assert (not (is_occupied w)) still_occupied
  debug_assert (not (id_from_bits w == reserved)) reserved_id
  ok (bit_or w thread_notification_mask, returned (occupied (id_from_bits w)))
advance spurious p w = ok (w, p)

-- The methods with exclusive access: `needs_drop`, `id`, `id_if_occupied`, `reset`, and the checks
-- of `Drop for Header`.
unfoldable pub needs_drop : ℕ → Bool
needs_drop w = is_occupied w

unfoldable pub current_id : ℕ → ℕ
current_id w = id_from_bits w

unfoldable pub id_if_occupied : ℕ → Option ℕ
id_if_occupied w = if is_occupied w then some (id_from_bits w) else none

unfoldable pub reset : ℕ → Check (ℕ × Option ℕ)
reset w = do
  debug_assert (readers_from_bits w == 0) still_locked
  if is_occupied w
      then (do
        blocking ← has_thread_blocking w
        debug_assert (not blocking) still_locked
        ok (unoccupied_bits (id_from_bits w), some (id_from_bits w)))
      else ok (w, none)

unfoldable pub drop_header : ℕ → Check (Unit {0})
drop_header w = do
  debug_assert (readers_from_bits w == 0) still_locked
  if is_occupied w
      then (do blocking ← has_thread_blocking w; debug_assert (not blocking) still_locked)
      else ok tt
