-- ===== src/Tests/Threads.antt =====
-- Two threads on one store: the first inserts an element and removes it, the second reuses its slot.
use read_write_store.Prelude.{
  ℕ, ◌+◌, ◌^◌, ◌≤◌, ◌<◌, ◌≡◌, refl, true, false, arith, ℕ_discrete, replace,
}
use read_write_store.Timeout.{block_indefinitely}
use read_write_store.Header.Word.{
  unoccupied_bits, occupied_unlocked_bits, is_occupied, id_from_bits,
}
use read_write_store.Header.Code.{
  returned, occupied, occupy, advance, compare_exchange, compare_exchange_weak, start_remove,
  add_u32,
}
use read_write_store.Header.System.{act, call, remove}
use read_write_store.Header.Invariant.{reads, writes, owns}
use read_write_store.Queue.{push, pop}
use read_write_store.Store.Sharing.{
  Shared, occurs, is_listed, changed, empty, SharedReach, SharedRun, on_slot, reuse, take_new,
  give_back, start, later, here, more,
}
use read_write_store.Store.Sharing.Safety.{queued_once, ids_unique}
use read_write_store.Tests.Samples.{address}

-- the first thread has been given a new slot
given_new : (s : Shared) × SharedReach 2 s
unfolding empty
given_new = (_, later start (take_new 0 {a = address} (omega arith) refl refl))

abbrev inserted : Shared
inserted = record (given_new.0) {
  word = changed address (2 ^ 63) given_new.0.word;
  pc = changed address (replace 0 (returned (occupied 0)) (given_new.0.pc address)) given_new.0.pc;
}

-- it has inserted an element, removed it, and queued the slot
queued_again : (s : Shared) × SharedRun 2 inserted s
unfolding given_new empty start_remove add_u32 ℕ_discrete advance compare_exchange_weak
    compare_exchange occupied_unlocked_bits unoccupied_bits push
queued_again = (
  _,
  more
      (more
        (more here (
          on_slot address (call 0 (omega arith) (remove 0 block_indefinitely (omega arith) refl))
            refl))
        (on_slot address (act false 0 (omega arith) refl) refl))
      (give_back 0 {a = address} (omega arith) refl),
)

-- and the second thread has taken it from the queue
reused : (s : Shared) × SharedRun 2 inserted s × (s.pc address 1 ≡ occupy)
unfolding queued_again pop
reused = (_, more queued_again.1 (reuse 1 {a = address} (omega arith) refl refl), refl)

first_occupied : SharedReach 2 inserted
unfolding given_new empty ℕ_discrete advance is_occupied id_from_bits unoccupied_bits
    occupied_unlocked_bits
first_occupied = later given_new.1 (on_slot address (act false 0 (omega arith) refl) refl)

SharedReach-SharedRun : {s t : Shared} → SharedReach 2 s → SharedRun 2 s t → SharedReach 2 t
SharedReach-SharedRun r here = r
SharedReach-SharedRun r (more q st) = later (SharedReach-SharedRun r q) st

queued_once_example :
    (occurs address queued_again.0.erasures ≤ 1)
    × (0 < occurs address queued_again.0.erasures
        → (queued_again.0.word address < 2 ^ 32)
          × (is_listed address queued_again.0.given ≡ true)
          × ((j : ℕ)
              → j < 2
              → (reads (queued_again.0.pc address j) + writes (queued_again.0.pc address j) ≡ 0)
                × (owns (queued_again.0.pc address j) ≡ 0)))
queued_once_example =
    queued_once (omega arith) (SharedReach-SharedRun first_occupied queued_again.1) address

ids_unique_example : 0 < 1
unfolding given_new empty reused queued_again ℕ_discrete advance is_occupied id_from_bits
    occupied_unlocked_bits unoccupied_bits
ids_unique_example =
    ids_unique (omega arith) given_new.1 address 0 0 (2 ^ 63) 1 1 (2 ^ 63 + 1) false false
      (omega arith) (omega arith) refl refl reused.1 reused.2 refl
