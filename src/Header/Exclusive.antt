-- ===== src/Header/Exclusive.antt =====
-- src/header.rs, the methods with exclusive access: `reset`, `id_if_occupied`, `needs_drop`, `Drop`.
use read_write_store.Prelude.{
  ℕ, ◌+◌, ◌^◌, ◌≡◌, ◌<◌, false, some, none, ok, if◌then◌else◌, arith, ◌⊎◌,
}
use read_write_store.Header.Code.{reset, id_if_occupied, needs_drop, drop_header}
use read_write_store.Header.Abstract.{ident, is_live}
use read_write_store.Header.Word.Laws.{
  id_from_bits_lem, readers_from_bits_lem, is_occupied_lem, has_thread_blocking_lem,
  unoccupied_bits_lem,
}

pub reset_lem :
    (w : ℕ)
    → w < 2 ^ 64
    → (w < 2 ^ 32) ⊎ (w ≡ 2 ^ 63 + ident w)
    → reset w ≡ ok (ident w, if is_live w then some (ident w) else none)
unfolding reset
reset_lem w fits unlocked = ground (
  arith,
  id_from_bits_lem w,
  readers_from_bits_lem w,
  is_occupied_lem w,
  has_thread_blocking_lem w,
  unoccupied_bits_lem (ident w),
)

pub drop_header_lem :
    (w : ℕ) → w < 2 ^ 64 → (w < 2 ^ 32) ⊎ (w ≡ 2 ^ 63 + ident w) → drop_header w ≡ ok tt
unfolding drop_header
drop_header_lem w fits unlocked =
    ground (arith, readers_from_bits_lem w, is_occupied_lem w, has_thread_blocking_lem w)

-- For an unlocked 64-bit word, occupied or not, `reset` leaves the slot vacant with its ordinal
-- and returns what `id_if_occupied` does; a second `reset` then returns nothing and changes
-- nothing, `needs_drop` is false, and the header may be dropped before as well.
pub reset-reset :
    (w : ℕ)
    → w < 2 ^ 64
    → (w < 2 ^ 32) ⊎ (w ≡ 2 ^ 63 + ident w)
    → (reset w ≡ ok (ident w, id_if_occupied w))
      × (reset (ident w) ≡ ok (ident w, none))
      × (needs_drop (ident w) ≡ false)
      × (drop_header w ≡ ok tt)
unfolding needs_drop id_if_occupied
reset-reset w fits unlocked = (
  rw (is_occupied_lem w, id_from_bits_lem w) (reset_lem w fits unlocked),
  ground (arith, reset_lem (ident w)),
  ground (arith, is_occupied_lem (ident w)),
  drop_header_lem w fits unlocked,
)
