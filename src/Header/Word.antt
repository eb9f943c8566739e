-- ===== src/Header/Word.antt =====
-- src/header.rs, the layout of the 64-bit state and the functions that read and build it. Shifts are
-- products and quotients by powers of two, casts are remainders; `&`, `|` and `!` are the bit
-- operations. Additions are checked for overflow, as in a build with debug assertions.
pub mod Laws
use read_write_store.Prelude.{
  ℕ, ◌+◌, ◌-◌, ◌*◌, ◌/◌, ◌%◌, ◌^◌, bit_and, bit_or, Bool, not, Check, ok, panicked, ◌>>=◌, ◌>>◌,
  debug_assert, Panic, ltb, leb, ◌==◌, if◌then◌else◌,
}
use read_write_store.Prelude.Panic.{
  unoccupied, unlocked, reserved_id, too_many_readers, write_locked, no_readers, overflow,
}
use read_write_store.Prelude.Bits.{bit_not}

abbrev pub reserved : ℕ
reserved = 2 ^ 32 - 1

abbrev pub max_concurrent_reads : ℕ
max_concurrent_reads = 2 ^ 31 - 2

-- `+` and `-` on u64 with overflow checks
abbrev pub add_u64 : ℕ → ℕ → Check ℕ
add_u64 a b = if ltb (a + b) (2 ^ 64) then ok (a + b) else panicked overflow

abbrev pub sub_u64 : ℕ → ℕ → Check ℕ
sub_u64 a b = if leb b a then ok (a - b) else panicked overflow

unfoldable pub unoccupied_bits : ℕ → ℕ
unoccupied_bits id = id

abbrev pub thread_notification_mask : ℕ
thread_notification_mask = 1 * 2 ^ 63

unfoldable pub occupied_unlocked_bits : ℕ → ℕ
unfolding unoccupied_bits
occupied_unlocked_bits id = bit_or thread_notification_mask (unoccupied_bits id)

unfoldable pub is_occupied : ℕ → Bool
is_occupied state = not (state / 2 ^ 32 == 0)

unfoldable pub write_locked_bits : ℕ → ℕ
write_locked_bits id = bit_or id ((2 ^ 32 - 1) * 2 ^ 32)

unfoldable pub id_from_bits : ℕ → ℕ
id_from_bits bits = bits % 2 ^ 32

unfoldable pub readers_from_bits : ℕ → ℕ
readers_from_bits bits = bit_and (bits / 2 ^ 32 % 2 ^ 32) (bit_not 32 (1 * 2 ^ 31))

unfoldable pub is_write_locked : ℕ → Bool
unfolding readers_from_bits
is_write_locked bits = readers_from_bits bits == bit_not 32 (1 * 2 ^ 31)

unfoldable pub has_thread_blocking : ℕ → Check Bool
unfolding is_occupied
has_thread_blocking bits = do
  debug_assert (is_occupied bits) unoccupied
  ok (bit_and bits thread_notification_mask == 0)

unfoldable pub mark_thread_blocking : ℕ → Check ℕ
unfolding readers_from_bits id_from_bits
mark_thread_blocking bits = do
  debug_assert (ltb 0 (readers_from_bits bits)) unlocked
  debug_assert (not (id_from_bits bits == reserved)) reserved_id
  ok (bit_and bits (bit_not 64 thread_notification_mask))

unfoldable pub unmark_thread_blocking : ℕ → ℕ
unmark_thread_blocking bits = bit_or bits thread_notification_mask

unfoldable pub increment_readers : ℕ → Check ℕ
unfolding readers_from_bits is_write_locked id_from_bits
increment_readers bits = do
  debug_assert (not (readers_from_bits bits == max_concurrent_reads)) too_many_readers
  debug_assert (not (is_write_locked bits)) write_locked
  debug_assert (not (id_from_bits bits == reserved)) reserved_id
  add_u64 bits (1 * 2 ^ 32)

unfoldable pub decrement_readers : ℕ → Check ℕ
unfolding readers_from_bits
decrement_readers bits = do
  debug_assert (not (readers_from_bits bits == 0)) no_readers
  sub_u64 bits (1 * 2 ^ 32)
