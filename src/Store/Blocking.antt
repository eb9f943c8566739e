-- ===== src/Store/Blocking.antt =====
-- src/lib.rs: `remove`, `read` and `write`, which wait for as long as it takes.
use read_write_store.Slot.{Slot}
use read_write_store.Store.{Store}
