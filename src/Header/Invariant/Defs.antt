-- ===== src/Header/Invariant/Defs.antt =====
-- The invariant of the threads on one `Header`.
use read_write_store.Prelude.{
  ℕ, ◌+◌, ◌*◌, ◌^◌, ◌≤◌, ◌<◌, ◌≡◌, ◌⊎◌, Bool, true, false, ltb, if◌then◌else◌, tally,
}
use read_write_store.Header.Word.{reserved, max_concurrent_reads}
use read_write_store.Header.Code.{
  Pc, read_held, unlock_read, unread_cas, write_held, unlock_write, remove_locked, unpark, removed,
  occupy, queued, parked,
}
use read_write_store.Header.Abstract.{readers, all_ones, IsLocal, IsWord}
use read_write_store.Header.System.{System}

-- a read lock held
abbrev pub reads : Pc → ℕ
reads (read_held id) = 1
reads (unlock_read id) = 1
reads (unread_cas id current new last) = 1
reads _ = 0

-- a write lock held
abbrev pub writes : Pc → ℕ
writes (write_held id) = 1
writes (unlock_write id) = 1
writes (remove_locked id) = 1
writes _ = 0

abbrev pub one_if : Bool → ℕ
one_if b = if b then 1 else 0

-- the vacated slot held, for reuse
abbrev pub owns : Pc → ℕ
owns (removed may_reuse) = one_if may_reuse
owns (unpark (removed may_reuse)) = one_if may_reuse
owns occupy = 1
owns _ = 0

abbrev pub asleep : Pc → Bool
asleep (queued a) = true
asleep (parked a) = true
asleep _ = false

abbrev pub unparks : Pc → Bool
unparks (unpark p) = true
unparks _ = false

-- Occupied and marked: whoever releases the lock last must unpark.
abbrev pub IsMarked : ℕ → Type 0
IsMarked w = (2 ^ 32 ≤ w) × (w < 2 ^ 63)

abbrev pub can_occupy : ℕ → ℕ
can_occupy w = one_if (ltb w reserved)

pub record Inv (n : ℕ) (s : System) : Type 0 where
  pub few : n ≤ max_concurrent_reads
  pub word : IsWord s.word
  pub counted : readers s.word ≡ tally reads n s.pc + all_ones * tally writes n s.pc
  pub vacancy : s.vacant + tally owns n s.pc ≡ can_occupy s.word
  pub local : (i : ℕ) → i < n → IsLocal s.word (s.pc i)
  pub awaited :
      (i : ℕ)
      → i < n
      → asleep (s.pc i) ≡ true
      → IsMarked s.word ⊎ ((j : ℕ) × (j < n) × (unparks (s.pc j) ≡ true))
