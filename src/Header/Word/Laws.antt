-- ===== src/Header/Word/Laws.antt =====
-- The functions on the state word as arithmetic: bit 63 is `w / 2 ^ 63`, the reader count is
-- `w / 2 ^ 32 % 2 ^ 31`, the ID is `w % 2 ^ 32`.
use read_write_store.Prelude.{
  ℕ, zero, suc, ◌+◌, ◌-◌, ◌*◌, ◌/◌, ◌%◌, ◌^◌, ◌≤◌, ◌<◌, bit_and, bit_or, ◌≡◌, refl, ◌≢◌, ok, ltb,
  ◌==◌, arith,
}
use read_write_store.Prelude.Bits.{bit_or_high, bit_or_disjoint, bit_and_high, bit_and_low}
use read_write_store.Header.Word.{
  reserved, max_concurrent_reads, unoccupied_bits, thread_notification_mask, occupied_unlocked_bits,
  is_occupied, write_locked_bits, id_from_bits, readers_from_bits, is_write_locked,
  has_thread_blocking, mark_thread_blocking, unmark_thread_blocking, increment_readers,
  decrement_readers,
}

pub id_from_bits_lem : (w : ℕ) → id_from_bits w ≡ w % 2 ^ 32
unfolding id_from_bits
id_from_bits_lem w = refl

pub readers_from_bits_lem : (w : ℕ) → readers_from_bits w ≡ w / 2 ^ 32 % 2 ^ 31
unfolding readers_from_bits
readers_from_bits_lem w = omega (arith, bit_and_low 31 (w / 2 ^ 32 % 2 ^ 32))

pub is_write_locked_lem : (w : ℕ) → is_write_locked w ≡ (w / 2 ^ 32 % 2 ^ 31 == 2 ^ 31 - 1)
unfolding is_write_locked
is_write_locked_lem w = rw readers_from_bits_lem

pub is_occupied_lem : (w : ℕ) → is_occupied w ≡ ltb (2 ^ 32 - 1) w
unfolding is_occupied
is_occupied_lem w = ground arith

-- The top bit alone, and the word with the top bit set.
and_top : (w : ℕ) → w < 2 ^ 64 → bit_and w thread_notification_mask ≡ w / 2 ^ 63 * 2 ^ 63
and_top w h =
    ground (arith, bit_and_high 63 (w / 2 ^ 63) 1 (w % 2 ^ 63), bit_and_low 1 (w / 2 ^ 63))

or_one : (q : ℕ) → q < 2 → bit_or q 1 ≡ 1
or_one zero h = refl
or_one (suc zero) h = refl
or_one (suc (suc q)) h = absurd (omega arith)

pub or_top : (w : ℕ) → w < 2 ^ 64 → bit_or w thread_notification_mask ≡ 2 ^ 63 + w % 2 ^ 63
or_top w h = ground (arith, bit_or_high 63 (w / 2 ^ 63) 1 (w % 2 ^ 63), or_one (w / 2 ^ 63))

pub has_thread_blocking_lem :
    (w : ℕ) → w < 2 ^ 64 → 2 ^ 32 ≤ w → has_thread_blocking w ≡ ok (ltb w (2 ^ 63))
unfolding has_thread_blocking
has_thread_blocking_lem w h k = ground (arith, and_top w h)

pub mark_thread_blocking_lem :
    (w : ℕ)
    → 0 < w / 2 ^ 32 % 2 ^ 31
    → w % 2 ^ 32 ≢ reserved
    → mark_thread_blocking w ≡ ok (w % 2 ^ 63)
unfolding mark_thread_blocking
mark_thread_blocking_lem w h k =
    ground (arith, readers_from_bits_lem w, id_from_bits_lem w, bit_and_low 63 w)

pub unmark_thread_blocking_lem :
    (w : ℕ) → w < 2 ^ 64 → unmark_thread_blocking w ≡ 2 ^ 63 + w % 2 ^ 63
unfolding unmark_thread_blocking
unmark_thread_blocking_lem w h = or_top w h

pub unoccupied_bits_lem : (id : ℕ) → unoccupied_bits id ≡ id
unfolding unoccupied_bits
unoccupied_bits_lem id = refl

pub occupied_unlocked_bits_lem : (id : ℕ) → id < 2 ^ 32 → occupied_unlocked_bits id ≡ 2 ^ 63 + id
unfolding occupied_unlocked_bits
occupied_unlocked_bits_lem id h = (bit_or_disjoint 63 1 id (omega arith)).0

pub write_locked_bits_lem :
    (id : ℕ) → id < 2 ^ 32 → write_locked_bits id ≡ (2 ^ 32 - 1) * 2 ^ 32 + id
unfolding write_locked_bits
write_locked_bits_lem id h = (bit_or_disjoint 32 (2 ^ 32 - 1) id h).1

pub increment_readers_lem :
    (w : ℕ)
    → w < 2 ^ 64
    → w / 2 ^ 32 % 2 ^ 31 < max_concurrent_reads
    → w % 2 ^ 32 ≢ reserved
    → increment_readers w ≡ ok (w + 2 ^ 32)
unfolding increment_readers
increment_readers_lem w f h k =
    ground (arith, readers_from_bits_lem w, is_write_locked_lem w, id_from_bits_lem w)

pub decrement_readers_lem :
    (w : ℕ) → 0 < w / 2 ^ 32 % 2 ^ 31 → decrement_readers w ≡ ok (w - 2 ^ 32)
unfolding decrement_readers
decrement_readers_lem w h = ground (arith, readers_from_bits_lem w)
