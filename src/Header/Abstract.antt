-- ===== src/Header/Abstract.antt =====
-- What the methods of `Header` mean, without masks, shifts or assertions: the ID, the reader count
-- and the blocking mark are parts of a number; and what a thread's locals say about the word.
pub mod Refines
use read_write_store.Prelude.{
  ℕ, ◌+◌, ◌-◌, ◌*◌, ◌/◌, ◌%◌, ◌^◌, ◌<◌, ◌≤◌, ◌≡◌, ◌⊎◌, Bool, not, ◌&&◌, ◌||◌, ltb, ◌==◌,
  if◌then◌else◌,
}
use read_write_store.Timeout.{Timeout}
use read_write_store.Header.Word.{reserved, max_concurrent_reads}
use read_write_store.Header.Code.{
  Purpose, locking, removing, Attempt, reading, changing, nothing, mismatch, occupied, Pc, returned,
  lock_read, read_cas, transition, block, attempt, mark, queued, parked, read_held, unlock_read,
  unread_cas, write_held, unlock_write, remove_locked, unpark, removed, occupy, lock_read_slow,
  succeeded, transition_slow, then_unpark,
}

abbrev pub ident : ℕ → ℕ
ident w = w % 2 ^ 32

abbrev pub readers : ℕ → ℕ
readers w = w / 2 ^ 32 % 2 ^ 31

-- the reader count of a write lock
abbrev pub all_ones : ℕ
all_ones = 2 ^ 31 - 1

abbrev pub saw : ℕ → ℕ → Timeout → Pc
saw id w t =
    if ident w == id
    then if readers w == all_ones then lock_read_slow id t else read_cas id w (w + 2 ^ 32) t
    else returned mismatch

-- the last reader, with threads blocking
abbrev pub last_waited : ℕ → Bool
last_waited w = ltb w (2 ^ 63) && readers w == 1

abbrev pub fewer : ℕ → ℕ
fewer w = if last_waited w then w - 2 ^ 32 + 2 ^ 63 else w - 2 ^ 32

abbrev pub saw_held : ℕ → ℕ → Pc
saw_held id w = unread_cas id w (fewer w) (last_waited w)

abbrev pub refused : Purpose → ℕ → ℕ → Timeout → ℕ → Pc
refused why expected new t w =
    if ident w == ident expected
    then if ltb 0 (readers w)
      then transition_slow why expected new t
      else transition why expected new t
    else returned mismatch

abbrev pub tried : Attempt → ℕ → ℕ × Pc
tried (reading id t) w =
    if ident w == id
    then if readers w == all_ones
      then (w, mark (reading id t) w (w % 2 ^ 63))
      else (w, read_cas id w (w + 2 ^ 32) t)
    else (w, returned mismatch)
tried (changing why expected new t) w =
    if w == expected
    then (new, succeeded why)
    else if ident w == ident expected
    then (w, mark (changing why expected new t) w (w % 2 ^ 63))
    else (w, returned mismatch)

abbrev pub ideal : Bool → Pc → ℕ → ℕ × Pc
ideal spurious (lock_read id t) w = (w, saw id w t)
ideal spurious (read_cas id current new t) w =
    if spurious || not (w == current) then (w, saw id w t) else (new, read_held id)
ideal spurious (transition why expected new t) w =
    if spurious || not (w == expected)
    then (w, refused why expected new t w)
    else (new, succeeded why)
ideal spurious (attempt a) w = tried a w
ideal spurious (mark a expected new) w = if w == expected then (new, queued a) else (w, attempt a)
ideal spurious (unlock_read id) w = (w, saw_held id w)
ideal spurious (unread_cas id current new last) w =
    if spurious || not (w == current)
    then (w, saw_held id w)
    else (new, then_unpark last (returned nothing))
ideal spurious (unlock_write id) w = (2 ^ 63 + id, then_unpark (ltb w (2 ^ 63)) (returned nothing))
ideal spurious (remove_locked id) w =
    (id + 1, then_unpark (ltb w (2 ^ 63)) (removed (not (id + 1 == reserved))))
ideal spurious occupy w = (2 ^ 63 + w, returned (occupied w))
ideal spurious p w = (w, p)

abbrev pub is_live : ℕ → Bool
is_live w = ltb (2 ^ 32 - 1) w

-- How many ordinals the slot has given out.
abbrev pub issued : ℕ → ℕ
issued w = ident w + (if is_live w then 1 else 0)

-- What `transition` was called with, and that its ID had been given out.
abbrev pub IsCall : ℕ → Purpose → ℕ → ℕ → Type 0
IsCall w (locking id) expected new =
    (id < issued w) × (expected ≡ 2 ^ 63 + id) × (new ≡ (2 ^ 32 - 1) * 2 ^ 32 + id)
IsCall w (removing id next_id) expected new =
    (id < issued w) × (expected ≡ 2 ^ 63 + id) × (next_id ≡ id + 1) × (new ≡ id + 1)

abbrev pub IsAttempt : ℕ → Attempt → Type 0
IsAttempt w (reading id t) = id < issued w
IsAttempt w (changing why expected new t) = IsCall w why expected new

abbrev pub IsDone : Pc → Type 0
IsDone (returned r) = Unit
IsDone (removed may_reuse) = Unit
IsDone _ = ⊥

-- What the locals of a thread say about the word, now and for good.
abbrev pub IsLocal : ℕ → Pc → Type 0
IsLocal w (lock_read id t) = id < issued w
IsLocal w (read_cas id current new t) =
    (id < issued w)
    × (ident current ≡ id)
    × (2 ^ 32 ≤ current)
    × (current < 2 ^ 64)
    × (readers current < max_concurrent_reads)
    × (new ≡ current + 2 ^ 32)
IsLocal w (transition why expected new t) = IsCall w why expected new
IsLocal w (block a) = IsAttempt w a
IsLocal w (attempt a) = IsAttempt w a
IsLocal w (mark a expected new) =
    IsAttempt w a × (expected < 2 ^ 64) × (0 < readers expected) × (new ≡ expected % 2 ^ 63)
IsLocal w (queued a) = IsAttempt w a
IsLocal w (parked a) = IsAttempt w a
IsLocal w (read_held id) = ident w ≡ id
IsLocal w (unlock_read id) = ident w ≡ id
IsLocal w (unread_cas id current new last) =
    (ident w ≡ id)
    × (current < 2 ^ 64)
    × (0 < readers current)
    × (readers current < all_ones)
    × (last ≡ last_waited current)
    × (new ≡ fewer current)
IsLocal w (write_held id) = ident w ≡ id
IsLocal w (unlock_write id) = ident w ≡ id
IsLocal w (remove_locked id) = ident w ≡ id
IsLocal w (unpark p) = IsDone p
IsLocal w _ = Unit

-- What the other threads leave true of the reader count, by what this one holds.
abbrev pub IsAllowed : ℕ → Pc → Type 0
IsAllowed w (read_held id) = (0 < readers w) × (readers w < all_ones)
IsAllowed w (unlock_read id) = (0 < readers w) × (readers w < all_ones)
IsAllowed w (unread_cas id current new last) = (0 < readers w) × (readers w < all_ones)
IsAllowed w (write_held id) = readers w ≡ all_ones
IsAllowed w (unlock_write id) = readers w ≡ all_ones
IsAllowed w (remove_locked id) = readers w ≡ all_ones
IsAllowed w occupy = w < reserved
IsAllowed w _ = (readers w < max_concurrent_reads) ⊎ (readers w ≡ all_ones)

-- A state of the word that the header can reach.
pub record IsWord (w : ℕ) : Type 0 where
  pub fits : w < 2 ^ 64
  pub live : (w < 2 ^ 32) ⊎ (ident w < reserved)
