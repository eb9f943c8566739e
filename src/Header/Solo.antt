-- ===== src/Header/Solo.antt =====
-- A call of `Header` with no other thread about: every method run to its end, and what it returns.
pub mod Results
use read_write_store.Prelude.{
  ℕ, zero, suc, ◌+◌, ◌*◌, ◌-◌, ◌%◌, ◌^◌, Bool, false, not, Check, ok, ◌>>=◌, ◌==◌, if◌then◌else◌,
}
use read_write_store.Timeout.{Timeout, dont_block, block_until, block_indefinitely}
use read_write_store.Header.Word.{reserved}
use read_write_store.Header.Code.{
  Purpose, Attempt, reading, changing, locking, removing, Pc, returned, timed_out, mismatch, block,
  attempt, queued, parked, unpark, read_held, write_held, removed, advance, succeeded,
}
use read_write_store.Header.Abstract.{ident, readers, all_ones}
use read_write_store.Header.System.{has_deadline}

-- The queue of `Park` is free, a sleeper with a deadline wakes up by it, one without sleeps on. A weak
-- exchange fails only on another word: in the code it may fail for no reason, and is tried again,
-- which adds steps and does not change what the call returns.
unfoldable pub solo_step : Pc → ℕ → Check (ℕ × Pc)
unfolding advance
solo_step (block a) w = ok (w, attempt a)
solo_step (queued a) w = ok (w, parked a)
solo_step (parked a) w = ok (w, if has_deadline a then returned timed_out else parked a)
solo_step (unpark p) w = ok (w, p)
solo_step p w = advance false p w

unfoldable pub solo : ℕ → Pc → ℕ → Check (ℕ × Pc)
unfolding solo_step
solo zero p w = ok (w, p)
solo (suc rounds) p w = do (w', p') ← solo_step p w; solo rounds p' w'

-- The steps for a method that is alone.
abbrev pub alone : Pc → ℕ → Check (ℕ × Pc)
alone = solo 8

-- What a call finds that has to wait: the closure of `block`, the word.
abbrev pub waits : Attempt → Timeout → ℕ → ℕ × Pc
waits a dont_block w = (w, returned timed_out)
waits a (block_until deadline) w = (w % 2 ^ 63, returned timed_out)
waits a block_indefinitely w = (w % 2 ^ 63, parked a)

abbrev pub read_result : ℕ → Timeout → ℕ → ℕ × Pc
read_result id t w =
    if ident w == id
    then if readers w == all_ones then waits (reading id t) t w else (w + 2 ^ 32, read_held id)
    else (w, returned mismatch)

-- `transition` from the unlocked word under `id` to `new`
abbrev pub transition_result : ℕ → Purpose → ℕ → Timeout → ℕ → ℕ × Pc
transition_result id why new t w =
    if ident w == id
    then if w == 2 ^ 63 + id
      then (new, succeeded why)
      else waits (changing why (2 ^ 63 + id) new t) t w
    else (w, returned mismatch)
