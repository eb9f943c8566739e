-- ===== src/Slot.antt =====
-- src/block.rs, a slot and what the functions of `Block` do with the slot that an ID points to.
-- The value is `DebugCheckedMaybeUninit` of src/util/debug_check.rs with debug assertions: reading
-- an element out leaves the memory as it is.
pub mod Results
use read_write_store.Prelude.{
  ℕ, Bool, true, false, Option, none, some, Check, ok, panicked, ◌>>=◌, ◌>>◌, unwrap, ◌==◌,
  if◌then◌else◌,
}
use read_write_store.Prelude.Panic.{uninitialized, unwrap_none}
use read_write_store.Timeout.{Timeout, BlockResult, done}
use read_write_store.Timeout
use read_write_store.Header.Word.{unoccupied_bits}
use read_write_store.Header.Code.{
  Pc, returned, occupied, mismatch, nothing, parked, read_held, write_held, unlock_read,
  unlock_write, remove_locked, removed, occupy, start_lock_read, start_lock_write, start_remove,
  current_id, id_if_occupied, needs_drop, drop_header, reset,
}
use read_write_store.Header.Code
use read_write_store.Header.Solo.{alone, solo}

-- What becomes of a call that may block, in a program with no other thread.
pub data Wait {ℓ} (A : Type ℓ) : Type ℓ where
  returns : BlockResult A → Wait A
  never : Wait A

module _ {ℓ} (A : Type ℓ) where
  pub record Slot : Type ℓ where
    pub header : ℕ
    pub value : Option A

  -- `block::RemoveResult`
  pub record RemoveResult : Type ℓ where
    pub element : A
    pub may_reuse : Bool

-- `Slot::new`
unfoldable pub new {ℓ} : {A : Type ℓ} → Slot A
unfolding unoccupied_bits
new = record { header = unoccupied_bits 0; value = none }

-- How the header's call came out, for a caller of `lock_read` and `lock_write`.
abbrev pub lock_outcome : Pc → Check (Wait Bool)
lock_outcome (read_held id) = ok (returns (done true))
lock_outcome (write_held id) = ok (returns (done true))
lock_outcome (returned mismatch) = ok (returns (done false))
lock_outcome (returned Code.Reply.timed_out) = ok (returns Timeout.timed_out)
lock_outcome (parked a) = ok never
lock_outcome p = panicked unwrap_none

abbrev pub occupy_outcome : Pc → Check ℕ
occupy_outcome (returned (occupied id)) = ok id
occupy_outcome p = panicked unwrap_none

abbrev pub removed_outcome : Pc → Check Bool
removed_outcome (removed may_reuse) = ok may_reuse
removed_outcome p = panicked unwrap_none

module _ {ℓ} {A : Type ℓ} where
  -- `Block::insert` up to the ID: the value is written, then the header is occupied.
  unfoldable pub insert : A → Slot A → Check (Slot A × ℕ)
  insert element s = do
    (header, p) ← alone occupy s.header
    ordinal ← occupy_outcome p
    ok (record { header = header; value = some element }, ordinal)

  abbrev pub remove_outcome : Pc → Option A → Check (Wait (Option (RemoveResult A)))
  remove_outcome (removed may_reuse) value = do
    element ← unwrap value uninitialized
    ok (returns (done (some (record { element = element; may_reuse = may_reuse }))))
  remove_outcome (returned mismatch) value = ok (returns (done none))
  remove_outcome (returned Code.Reply.timed_out) value = ok (returns Timeout.timed_out)
  remove_outcome (parked a) value = ok never
  remove_outcome p value = panicked unwrap_none

  -- `Block::remove`
  unfoldable pub remove : ℕ → Timeout → Slot A → Check (Slot A × Wait (Option (RemoveResult A)))
  remove ordinal timeout s = do
    start ← start_remove ordinal timeout
    (header, p) ← alone start s.header
    result ← remove_outcome p s.value
    ok (record s { header = header }, result)

  -- `Block::remove_locked`
  unfoldable pub remove_locked_slot : ℕ → Slot A → Check (Slot A × RemoveResult A)
  remove_locked_slot ordinal s = do
    element ← unwrap s.value uninitialized
    (header, p) ← alone (remove_locked ordinal) s.header
    may_reuse ← removed_outcome p
    ok (record s { header = header }, record { element = element; may_reuse = may_reuse })

  unfoldable pub lock_read : ℕ → Timeout → Slot A → Check (Slot A × Wait Bool)
  lock_read ordinal timeout s = do
    start ← start_lock_read ordinal timeout
    (header, p) ← alone start s.header
    result ← lock_outcome p
    ok (record s { header = header }, result)

  unfoldable pub lock_write : ℕ → Timeout → Slot A → Check (Slot A × Wait Bool)
  lock_write ordinal timeout s = do
    start ← start_lock_write ordinal timeout
    (header, p) ← alone start s.header
    result ← lock_outcome p
    ok (record s { header = header }, result)

  unfoldable pub unlock_read_slot : ℕ → Slot A → Check (Slot A × Unit {0})
  unlock_read_slot ordinal s = do
    (header, p) ← alone (unlock_read ordinal) s.header
    ok (record s { header = header }, tt)

  unfoldable pub unlock_write_slot : ℕ → Slot A → Check (Slot A × Unit {0})
  unlock_write_slot ordinal s = do
    (header, p) ← alone (unlock_write ordinal) s.header
    ok (record s { header = header }, tt)

  -- `Block::get_unchecked`, and a write through the pointer
  unfoldable pub get_unchecked : Slot A → Check A
  get_unchecked s = unwrap s.value uninitialized

  unfoldable pub write_unchecked : A → Slot A → Check (Slot A × Unit {0})
  write_unchecked element s = do
    old ← unwrap s.value uninitialized
    ok (record s { value = some element }, tt)

  -- `Block::get_exclusive`
  unfoldable pub get_exclusive : ℕ → Slot A → Check (Option A)
  get_exclusive ordinal s =
      if current_id s.header == ordinal
      then (do element ← unwrap s.value uninitialized; ok (some element))
      else ok none

  -- `Block::take` and `slot_contents`, without the address: the ordinal and the element.
  unfoldable pub take : Slot A → Check (Slot A × Option (ℕ × A))
  take s = do
    (header, found) ← reset s.header
    elim found [
      | none ↦ ok (record s { header = header }, none)
      | some id ↦ do
        element ← unwrap s.value uninitialized
        ok (record s { header = header }, some (id, element))
    ]

  unfoldable pub slot_contents : Slot A → Check (Option (ℕ × A))
  slot_contents s = elim (id_if_occupied s.header) [
    | none ↦ ok none
    | some id ↦ do element ← unwrap s.value uninitialized; ok (some (id, element))
  ]

  -- `Drop for Slot`. `cast` is what a pointer to the cell, an `Option` in a build with debug
  -- assertions, finds when it is used as a pointer to `Element`: that is up to the representation
  -- that the compiler chose for the option.
  abbrev pub dropped_value : (Option A → Check A) → ℕ → Option A → Check (Option (ℕ × A))
  dropped_value cast header value =
      if needs_drop header
      then (do element ← cast value; ok (some (current_id header, element)))
      else ok none

  -- `Drop for Slot`, and then that of its `Header`: the element that is dropped, with its ordinal.
  unfoldable pub drop_slot : (Option A → Check A) → Slot A → Check (Option (ℕ × A))
  drop_slot cast s = do
    dropped ← dropped_value cast s.header s.value
    drop_header s.header
    ok dropped
