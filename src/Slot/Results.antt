-- ===== src/Slot/Results.antt =====
-- The operations on a slot, against its word.
use read_write_store.Prelude.{
  ℕ, ◌+◌, ◌-◌, ◌*◌, ◌%◌, ◌^◌, ◌≤◌, ◌<◌, ◌≡◌, ◌≢◌, refl, ◌∙◌, ◌⊎◌, Bool, true, false, not, Option,
  none, some, ok, ◌==◌, if◌then◌else◌, arith,
}
use read_write_store.Timeout.{Timeout, dont_block, block_until, block_indefinitely, done}
use read_write_store.Timeout
use read_write_store.Header.Word.{reserved, max_concurrent_reads}
use read_write_store.Header.Abstract.{ident, readers, all_ones, issued, fewer, IsWord}
use read_write_store.Header.Invariant.{starts}
use read_write_store.Header.Solo.Results.{
  alone-lock_read, alone-lock_write, alone-remove, alone-unlock_read, alone-unlock_write,
  alone-remove_locked, alone-occupy,
}
use read_write_store.Slot.{
  Slot, RemoveResult, Wait, returns, never, insert, remove, remove_locked_slot, lock_read,
  lock_write, unlock_read_slot, unlock_write_slot,
}

-- A slot whose call with the ID `id` is legal: the ID was given out, and the count has room.
pub record IsCallable {ℓ} {A : Type ℓ} (id : ℕ) (s : Slot A) : Type ℓ where
  pub word : IsWord s.header
  pub given : id < issued s.header
  pub room : (readers s.header < max_concurrent_reads) ⊎ (readers s.header ≡ all_ones)

-- How long a call that has to wait takes: not at all, until its deadline, or for ever.
abbrev pub gives_up {ℓ} : {B : Type ℓ} → Timeout → Wait B
gives_up dont_block = returns Timeout.timed_out
gives_up (block_until deadline) = returns Timeout.timed_out
gives_up block_indefinitely = never

-- It leaves its mark on the word, unless it does not wait at all.
abbrev pub marked : Timeout → ℕ → ℕ
marked dont_block w = w
marked t w = w % 2 ^ 63

module _ {ℓ} {A : Type ℓ} where
  pub insert_lem :
      (element : A) (s : Slot A)
      → s.header < reserved
      → insert element s
        ≡ ok (record { header = 2 ^ 63 + s.header; value = some element }, s.header)
  unfolding insert
  insert_lem element s free = rw (alone-occupy s.header free) refl

  -- `remove`: of an element that is gone, unlocked or locked.
  abbrev pub remove_result : ℕ → Timeout → A → Slot A → Slot A × Wait (Option (RemoveResult A))
  remove_result id t element s =
      if ident s.header == id
      then if s.header == 2 ^ 63 + id
        then (
          record s { header = id + 1 },
          returns
              (done (some (record { element = element; may_reuse = not (id + 1 == reserved) }))),
        )
        else (record s { header = marked t s.header }, gives_up t)
      else (s, returns (done none))

  pub remove_lem :
      (id : ℕ) (t : Timeout) (element : A) (s : Slot A)
      → IsCallable id s
      → s.value ≡ some element
      → remove id t s ≡ ok (remove_result id t element s)
  unfolding remove
  remove_lem id dont_block element s c e =
      rw
        (
          (starts s.header id dont_block c.word c.given).2,
          alone-remove id s.header c.word dont_block c.given c.room,
        )
        (ground (arith, e))
  remove_lem id (block_until d) element s c e =
      rw
        (
          (starts s.header id (block_until d) c.word c.given).2,
          alone-remove id s.header c.word (block_until d) c.given c.room,
        )
        (ground (arith, e))
  remove_lem id block_indefinitely element s c e =
      rw
        (
          (starts s.header id block_indefinitely c.word c.given).2,
          alone-remove id s.header c.word block_indefinitely c.given c.room,
        )
        (ground (arith, e))

  -- `lock_read`: one reader more, unless a writer has the slot.
  abbrev pub lock_read_result : ℕ → Timeout → Slot A → Slot A × Wait Bool
  lock_read_result id t s =
      if ident s.header == id
      then if readers s.header == all_ones
        then (record s { header = marked t s.header }, gives_up t)
        else (record s { header = s.header + 2 ^ 32 }, returns (done true))
      else (s, returns (done false))

  pub lock_read_lem :
      (id : ℕ) (t : Timeout) (s : Slot A)
      → IsCallable id s
      → lock_read id t s ≡ ok (lock_read_result id t s)
  unfolding lock_read
  lock_read_lem id dont_block s c =
      rw
        (
          (starts s.header id dont_block c.word c.given).0,
          alone-lock_read id s.header c.word dont_block c.given c.room,
        )
        (ground arith)
  lock_read_lem id (block_until d) s c =
      rw
        (
          (starts s.header id (block_until d) c.word c.given).0,
          alone-lock_read id s.header c.word (block_until d) c.given c.room,
        )
        (ground arith)
  lock_read_lem id block_indefinitely s c =
      rw
        (
          (starts s.header id block_indefinitely c.word c.given).0,
          alone-lock_read id s.header c.word block_indefinitely c.given c.room,
        )
        (ground arith)

  -- `lock_write`: the whole lock, unless anyone has the slot.
  abbrev pub lock_write_result : ℕ → Timeout → Slot A → Slot A × Wait Bool
  lock_write_result id t s =
      if ident s.header == id
      then if s.header == 2 ^ 63 + id
        then (record s { header = (2 ^ 32 - 1) * 2 ^ 32 + id }, returns (done true))
        else (record s { header = marked t s.header }, gives_up t)
      else (s, returns (done false))

  pub lock_write_lem :
      (id : ℕ) (t : Timeout) (s : Slot A)
      → IsCallable id s
      → lock_write id t s ≡ ok (lock_write_result id t s)
  unfolding lock_write
  lock_write_lem id dont_block s c =
      rw
        (
          (starts s.header id dont_block c.word c.given).1,
          alone-lock_write id s.header c.word dont_block c.given c.room,
        )
        (ground arith)
  lock_write_lem id (block_until d) s c =
      rw
        (
          (starts s.header id (block_until d) c.word c.given).1,
          alone-lock_write id s.header c.word (block_until d) c.given c.room,
        )
        (ground arith)
  lock_write_lem id block_indefinitely s c =
      rw
        (
          (starts s.header id block_indefinitely c.word c.given).1,
          alone-lock_write id s.header c.word block_indefinitely c.given c.room,
        )
        (ground arith)

  -- The guards give back what they took.
  pub unlock_read_slot_lem :
      (id : ℕ) (s : Slot A)
      → IsWord s.header
      → ident s.header ≡ id
      → 0 < readers s.header
      → readers s.header < all_ones
      → unlock_read_slot id s ≡ ok (record s { header = fewer s.header }, tt)
  unfolding unlock_read_slot
  unlock_read_slot_lem id s good e some_readers no_writer =
      rw (alone-unlock_read id s.header good e some_readers no_writer) refl

  pub unlock_write_slot_lem :
      (id : ℕ) (s : Slot A)
      → IsWord s.header
      → ident s.header ≡ id
      → readers s.header ≡ all_ones
      → unlock_write_slot id s ≡ ok (record s { header = 2 ^ 63 + id }, tt)
  unfolding unlock_write_slot
  unlock_write_slot_lem id s good e locked = rw (alone-unlock_write id s.header good e locked) refl

  -- Removing through a write lock returns the element, leaves the slot vacant under the next ID,
  -- and says that the slot may be reused unless that ID is the reserved one.
  pub remove_locked_slot_lem :
      (id : ℕ) (element : A) (s : Slot A)
      → IsWord s.header
      → ident s.header ≡ id
      → readers s.header ≡ all_ones
      → s.value ≡ some element
      → remove_locked_slot id s
        ≡ ok (
          record s { header = id + 1 },
          record { element = element; may_reuse = not (id + 1 == reserved) },
        )
  unfolding remove_locked_slot
  remove_locked_slot_lem id element s good e locked v =
      rw (v, alone-remove_locked id s.header good e locked) refl

  lock_read_granted :
      (id : ℕ) (t : Timeout) (s s' : Slot A)
      → lock_read_result id t s ≡ (s', returns (done true))
      → (ident s.header ≡ id)
        × (readers s.header ≢ all_ones)
        × (record s { header = s.header + 2 ^ 32 } ≡ s')
  lock_read_granted id dont_block s s' e = ground arith
  lock_read_granted id (block_until d) s s' e = ground arith
  lock_read_granted id block_indefinitely s s' e = ground arith

  -- A read lock that was granted and is released leaves the slot as it was, if no thread was
  -- waiting on it, for an ID that the slot has given out and a word that the header can reach with
  -- room for a reader.
  pub unlock_read_slot-lock_read :
      (id : ℕ) (t : Timeout) (s s' : Slot A)
      → IsCallable id s
      → 2 ^ 63 ≤ s.header
      → lock_read id t s ≡ ok (s', returns (done true))
      → unlock_read_slot id s' ≡ ok (s, tt)
  unlock_read_slot-lock_read id t s s' c quiet e =
      let (live, no_writer, same) = lock_read_granted id t s s' (cc (lock_read_lem id t s c)) in
      let release =
        unlock_read_slot_lem id (record s { header = s.header + 2 ^ 32 }) (ground arith)
          (omega arith) (omega arith) (omega arith) in
      rw (← same) (release ∙ ground arith)
