-- ===== src/Id.antt =====
-- src/id.rs and src/rwstore_id.rs: the handle of an element, as in a build with debug assertions.
use read_write_store.Prelude.{ℕ, ◌+◌, ◌%◌, ◌^◌, ◌==◌, ◌&&◌, Bool}

-- A pointer to a slot: the allocation that it points into, and the slot's index there.
pub record Address : Type 0 where
  pub base : ℕ
  pub index : ℕ

pub record RwStoreId : Type 0 where
  pub value : ℕ

pub record ElementId : Type 0 where
  pub ordinal : ℕ
  pub slot_address : Address
  pub store_id : RwStoreId

-- `RwStoreId::generate`: the counter `NEXT_RWSTORE_ID` before and after, and the new ID.
unfoldable pub generate : ℕ → ℕ × RwStoreId
generate next = ((next + 1) % 2 ^ 64, record { value = next })

abbrev pub same_store : RwStoreId → RwStoreId → Bool
same_store a b = a.value == b.value

abbrev pub same_address : Address → Address → Bool
same_address a b = (a.base == b.base) && (a.index == b.index)
