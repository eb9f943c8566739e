-- ===== src/Tests/Slots.antt =====
-- src/header.rs and src/block.rs: the calls of one thread, on concrete words and slots.
use read_write_store.Prelude.{false, none, ℕ, ◌+◌, ◌*◌, ◌^◌, ◌≡◌, refl, inl, inr, ok, arith}
use read_write_store.Header.Exclusive.{reset-reset}
use read_write_store.Header.Code.{reset, id_if_occupied, needs_drop, drop_header}
use read_write_store.Header.Abstract.{IsWord}
use read_write_store.Slot.Results.{IsCallable}
use read_write_store.Tests.Samples.{read_twice}

abbrev two_readers : ℕ
two_readers = 2 ^ 63 + 2 * 2 ^ 32 + 5

two_readers_good : IsWord two_readers
two_readers_good = record { fits = omega arith; live = inr (omega arith) }

read_twice-IsCallable : IsCallable 5 read_twice
read_twice-IsCallable = record {
  word = two_readers_good;
  given = omega arith;
  room = inl (omega arith);
}

reset-reset_example :
    (reset (2 ^ 63 + 5) ≡ ok (5, id_if_occupied (2 ^ 63 + 5)))
    × (reset 5 ≡ ok (5, none))
    × (needs_drop 5 ≡ false)
    × (drop_header (2 ^ 63 + 5) ≡ ok tt)
reset-reset_example = reset-reset (2 ^ 63 + 5) (omega arith) (inr refl)
