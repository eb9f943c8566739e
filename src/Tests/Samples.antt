-- ===== src/Tests/Samples.antt =====
-- A store of one slot, as the theorems on a single ID see it, and the slots of the examples.
use read_write_store.Prelude.{
  ℕ, ◌+◌, ◌*◌, ◌-◌, ◌^◌, ◌&&◌, some, none, List, [], ◌∷◌, ◌==◌, if◌then◌else◌, Bool, true, false,
  Check, ok, panicked,
}
use read_write_store.Id.{Address, ElementId}
use read_write_store.Slot.{Slot}
use read_write_store.Store.{Store}

abbrev pub address : Address
address = record { base = 0; index = 0 }

abbrev pub id_of : ℕ → ElementId
id_of ordinal = record {
  ordinal = ordinal;
  slot_address = address;
  store_id = record { value = 0 };
}

abbrev pub store_of : Slot ℕ → Store ℕ
store_of slot = record {
  buckets = [];
  erasures = [];
  store_id = record { value = 0 };
  heap = record {
    next_base = 1;
    cell = λ base index. if (0 == base) && (0 == index) then some slot else none;
  };
}

-- Under ID 5: nobody has a lock, two readers do, a writer does; and the slot after a removal.
abbrev pub unlocked : Slot ℕ
unlocked = record { header = 2 ^ 63 + 5; value = some 42 }

abbrev pub read_twice : Slot ℕ
read_twice = record { header = 2 ^ 63 + 2 * 2 ^ 32 + 5; value = some 42 }

abbrev pub written : Slot ℕ
written = record { header = (2 ^ 32 - 1) * 2 ^ 32 + 5; value = some 42 }

abbrev pub vacated : Slot ℕ
vacated = record { header = 6; value = some 42 }

-- A store whose queue of erasures holds the slot.
abbrev pub store_to_fill : Store ℕ
store_to_fill = record (store_of vacated) { erasures = address ∷ [] }

-- Every test of a list runs to its end with its assertions true.
abbrev pub all_pass : List (Check Bool) → Bool
all_pass [] = true
all_pass (ok b ∷ rest) = b && all_pass rest
all_pass (panicked why ∷ rest) = false
