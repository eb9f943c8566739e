-- ===== src/Header/Solo/Results.antt =====
-- The methods of `Header` when no other thread is about, step by step as in `solo_step`: a weak
-- exchange fails only on another word, so that eight steps are enough.
use read_write_store.Prelude.{
  ℕ, ◌+◌, ◌-◌, ◌*◌, ◌%◌, ◌^◌, ◌<◌, ◌≡◌, ◌⊎◌, false, not, ok, ◌==◌, arith,
}
use read_write_store.Timeout.{Timeout, dont_block, block_until, block_indefinitely}
use read_write_store.Header.Word.{reserved, max_concurrent_reads}
use read_write_store.Header.Code.{
  reading, changing, locking, removing, returned, nothing, occupied, lock_read, read_cas,
  transition, attempt, mark, unlock_read, unread_cas, unlock_write, remove_locked, removed, occupy,
  lock_read_slow, transition_slow,
}
use read_write_store.Header.Abstract.{ident, readers, all_ones, issued, fewer, last_waited, IsWord}
use read_write_store.Header.Abstract.Refines.{advance-ideal}
use read_write_store.Header.Solo.{solo, alone, read_result, transition_result}

module _ (id w : ℕ) (good : IsWord w) where
  -- Alone, `lock_read` of an ID that the slot has given out, on a word that the header can reach
  -- and that has room for a reader or has a writer, comes to its end within eight steps: with one
  -- reader more, with a mismatch on another ID, or, when a writer has the slot, timed out or
  -- asleep.
  pub alone-lock_read :
      (t : Timeout)
      → id < issued w
      → (readers w < max_concurrent_reads) ⊎ (readers w ≡ all_ones)
      → alone (lock_read id t) w ≡ ok (read_result id t w)
  unfolding solo lock_read_slow
  alone-lock_read dont_block given room = ground (
    arith,
    advance-ideal false (lock_read id dont_block) w good given room,
    advance-ideal false (read_cas id w (w + 2 ^ 32) dont_block) w good,
  )
  alone-lock_read (block_until d) given room = ground (
    arith,
    advance-ideal false (lock_read id (block_until d)) w good given room,
    advance-ideal false (read_cas id w (w + 2 ^ 32) (block_until d)) w good,
    advance-ideal false (attempt (reading id (block_until d))) w good given room,
    advance-ideal false (mark (reading id (block_until d)) w (w % 2 ^ 63)) w good,
  )
  alone-lock_read block_indefinitely given room = ground (
    arith,
    advance-ideal false (lock_read id block_indefinitely) w good given room,
    advance-ideal false (read_cas id w (w + 2 ^ 32) block_indefinitely) w good,
    advance-ideal false (attempt (reading id block_indefinitely)) w good given room,
    advance-ideal false (mark (reading id block_indefinitely) w (w % 2 ^ 63)) w good,
  )

  -- Alone, the transition of `lock_write` with an ID that the slot has given out, on a word that
  -- the header can reach and that has room for a reader or has a writer, comes to its end within
  -- eight steps: write locked, with a mismatch on another ID, or, when the slot is locked, timed
  -- out or asleep.
  pub alone-lock_write :
      (t : Timeout)
      → id < issued w
      → (readers w < max_concurrent_reads) ⊎ (readers w ≡ all_ones)
      → alone (transition (locking id) (2 ^ 63 + id) ((2 ^ 32 - 1) * 2 ^ 32 + id) t) w
        ≡ ok (transition_result id (locking id) ((2 ^ 32 - 1) * 2 ^ 32 + id) t w)
  unfolding solo transition_slow
  alone-lock_write dont_block given room = ground (
    arith,
    advance-ideal false
        (transition (locking id) (2 ^ 63 + id) ((2 ^ 32 - 1) * 2 ^ 32 + id) dont_block) w good,
  )
  alone-lock_write (block_until d) given room = ground (
    arith,
    advance-ideal false
        (transition (locking id) (2 ^ 63 + id) ((2 ^ 32 - 1) * 2 ^ 32 + id) (block_until d)) w good,
    advance-ideal false
        (attempt (changing (locking id) (2 ^ 63 + id) ((2 ^ 32 - 1) * 2 ^ 32 + id) (block_until d)))
        w good,
    advance-ideal false
        (mark (changing (locking id) (2 ^ 63 + id) ((2 ^ 32 - 1) * 2 ^ 32 + id) (block_until d)) w
          (w % 2 ^ 63))
        w good,
  )
  alone-lock_write block_indefinitely given room = ground (
    arith,
    advance-ideal false
        (transition (locking id) (2 ^ 63 + id) ((2 ^ 32 - 1) * 2 ^ 32 + id) block_indefinitely) w
        good,
    advance-ideal false
        (attempt
          (changing (locking id) (2 ^ 63 + id) ((2 ^ 32 - 1) * 2 ^ 32 + id) block_indefinitely))
        w good,
    advance-ideal false
        (mark (changing (locking id) (2 ^ 63 + id) ((2 ^ 32 - 1) * 2 ^ 32 + id) block_indefinitely)
          w (w % 2 ^ 63))
        w good,
  )

  -- Alone, the transition of `remove` with an ID that the slot has given out, on a word that the
  -- header can reach and that has room for a reader or has a writer, comes to its end within eight
  -- steps: vacated under the next ID, with a mismatch on another ID, or, when the slot is locked,
  -- timed out or asleep.
  pub alone-remove :
      (t : Timeout)
      → id < issued w
      → (readers w < max_concurrent_reads) ⊎ (readers w ≡ all_ones)
      → alone (transition (removing id (id + 1)) (2 ^ 63 + id) (id + 1) t) w
        ≡ ok (transition_result id (removing id (id + 1)) (id + 1) t w)
  unfolding solo transition_slow
  alone-remove dont_block given room = ground (
    arith,
    advance-ideal false (transition (removing id (id + 1)) (2 ^ 63 + id) (id + 1) dont_block) w
        good,
  )
  alone-remove (block_until d) given room = ground (
    arith,
    advance-ideal false (transition (removing id (id + 1)) (2 ^ 63 + id) (id + 1) (block_until d)) w
        good,
    advance-ideal false
        (attempt (changing (removing id (id + 1)) (2 ^ 63 + id) (id + 1) (block_until d))) w good,
    advance-ideal false
        (mark (changing (removing id (id + 1)) (2 ^ 63 + id) (id + 1) (block_until d)) w
          (w % 2 ^ 63))
        w good,
  )
  alone-remove block_indefinitely given room = ground (
    arith,
    advance-ideal false
        (transition (removing id (id + 1)) (2 ^ 63 + id) (id + 1) block_indefinitely) w good,
    advance-ideal false
        (attempt (changing (removing id (id + 1)) (2 ^ 63 + id) (id + 1) block_indefinitely)) w
        good,
    advance-ideal false
        (mark (changing (removing id (id + 1)) (2 ^ 63 + id) (id + 1) block_indefinitely) w
          (w % 2 ^ 63))
        w good,
  )

  -- Alone, `unlock_read` of a slot that readers and no writer have comes to its end within eight
  -- steps, on a word that the header can reach: it takes one reader off, and the last reader also
  -- clears the mark of waiting threads.
  pub alone-unlock_read :
      ident w ≡ id
      → 0 < readers w
      → readers w < all_ones
      → alone (unlock_read id) w ≡ ok (fewer w, returned nothing)
  unfolding solo
  alone-unlock_read e some_readers no_writer = ground (
    arith,
    advance-ideal false (unlock_read id) w good e (some_readers, no_writer),
    advance-ideal false (unread_cas id w (fewer w) (last_waited w)) w good,
  )

  -- Alone, `unlock_write` of a slot that a writer has, on a word that the header can reach, comes
  -- to its end within eight steps and leaves the slot unlocked under its ID.
  pub alone-unlock_write :
      ident w ≡ id
      → readers w ≡ all_ones
      → alone (unlock_write id) w ≡ ok (2 ^ 63 + id, returned nothing)
  unfolding solo
  alone-unlock_write e locked =
      ground (arith, advance-ideal false (unlock_write id) w good e locked)

  -- Alone, `remove_locked` of a slot that a writer has, on a word that the header can reach, comes
  -- to its end within eight steps, leaves the slot vacant under the next ID, and says that it may
  -- be reused unless that ID is the reserved one.
  pub alone-remove_locked :
      ident w ≡ id
      → readers w ≡ all_ones
      → alone (remove_locked id) w ≡ ok (id + 1, removed (not (id + 1 == reserved)))
  unfolding solo
  alone-remove_locked e locked =
      ground (arith, advance-ideal false (remove_locked id) w good e locked)

-- Alone, `occupy` of a vacant slot whose ordinal is not the reserved one comes to its end within
-- eight steps, leaves the slot occupied and unlocked under the ordinal, and returns it.
pub alone-occupy : (w : ℕ) → w < reserved → alone occupy w ≡ ok (2 ^ 63 + w, returned (occupied w))
unfolding solo
alone-occupy w free = ground (arith, advance-ideal false occupy w)
