-- ===== src/Lock.antt =====
-- src/lock.rs: the guards that `read` and `write` hand out. A guard is the ID of its element; what
-- it does acts on the slot that the ID points to.
use read_write_store.Prelude.{Check, ◌>>=◌, unwrap}
use read_write_store.Prelude.Panic.{out_of_bounds}
use read_write_store.Id.{ElementId}
use read_write_store.Slot
use read_write_store.Block.{Heap, on_slot}

pub record ReadLock : Type 0 where
  pub id : ElementId

pub record WriteLock : Type 0 where
  pub id : ElementId

-- `WriteLock::forget`: the lock stays taken.
unfoldable pub forget : WriteLock → ElementId
forget lock = lock.id

module _ {ℓ} {A : Type ℓ} where
  -- `Deref` of either guard
  unfoldable pub deref : ElementId → Heap A → Check A
  deref id h = do
    s ← unwrap (h.cell id.slot_address.base id.slot_address.index) out_of_bounds
    Slot.get_unchecked s

  -- an assignment through `DerefMut`
  unfoldable pub assign : WriteLock → A → Heap A → Check (Heap A × Unit {0})
  assign lock element = on_slot lock.id.slot_address (Slot.write_unchecked element)

  -- `Drop` of either guard
  unfoldable pub drop_read : ReadLock → Heap A → Check (Heap A × Unit {0})
  drop_read lock = on_slot lock.id.slot_address (Slot.unlock_read_slot lock.id.ordinal)

  unfoldable pub drop_write : WriteLock → Heap A → Check (Heap A × Unit {0})
  drop_write lock = on_slot lock.id.slot_address (Slot.unlock_write_slot lock.id.ordinal)
