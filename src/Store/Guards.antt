-- ===== src/Store/Guards.antt =====
-- src/lib.rs `remove_locked` and the drops of src/lock.rs, against the map from IDs to elements.
use read_write_store.Prelude.{
  ◌+◌, ◌^◌, ◌≡◌, ◌<◌, refl, ◌∙◌, Bool, true, not, none, some, ok, ◌==◌, arith, if◌then◌else◌,
}
use read_write_store.Header.Word.{reserved}
use read_write_store.Header.Abstract.{ident, readers, all_ones, is_live, fewer, IsWord}
use read_write_store.Id.{ElementId, same_store}
use read_write_store.Slot.{Slot}
use read_write_store.Slot
use read_write_store.Slot.Results.{
  remove_locked_slot_lem, unlock_read_slot_lem, unlock_write_slot_lem,
}
use read_write_store.Store.{Store, remove_locked, push_erasure}
use read_write_store.Store.View.{
  updated, contents-put, contents-put_same, element-relocked, element-gone, on_slot_lem, with_slot,
  view, view-queued, same_address_refl,
}
use read_write_store.Lock
use read_write_store.Lock.{drop_read, drop_write}

module _ {ℓ} {A : Type ℓ} (s : Store A) (id : ElementId) (slot : Slot A)
    (at : s.heap.cell id.slot_address.base id.slot_address.index ≡ some slot)
    (word : IsWord slot.header) (live : ident slot.header ≡ id.ordinal) where
  -- Removing through a write lock on an element of this store returns the element and takes its
  -- ID, and nothing else, out of the map. The slot is under the guard's ID, in a state that the
  -- header can reach, with the reader bits all set.
  pub remove_locked_present :
      (element : A)
      → same_store s.store_id id.store_id ≡ true
      → readers slot.header ≡ all_ones
      → slot.value ≡ some element
      → (t : Store A) × (remove_locked (record { id = id }) s ≡ ok (t, element))
        × (view s id ≡ some element)
        × ((other : ElementId) → view t other ≡ updated id none (view s) other)
  unfolding remove_locked Lock.forget push_erasure
  remove_locked_present element native locked v =
      let same : (ident slot.header == id.ordinal) ≡ true = ground arith in
      let seen : is_live slot.header ≡ true = ground arith in
      let small : id.ordinal + 1 < 2 ^ 32 = ground (arith, word) in
      let gone : Store A = with_slot s id (record slot { header = id.ordinal + 1 }) in
      let reuse : Bool = not (id.ordinal + 1 == reserved) in
      (
        (if reuse then push_erasure id gone else gone),
        rw
            (
              native,
              on_slot_lem id.slot_address (Slot.remove_locked_slot id.ordinal) s.heap slot
                  (record slot { header = id.ordinal + 1 })
                  (record { element = element; may_reuse = reuse }) at
                  (remove_locked_slot_lem id.ordinal element slot word live locked v),
            )
            refl,
        rw (at, seen, same) v,
        λ other.
            view-queued id reuse gone other
            ∙ contents-put s.heap.cell id other slot (record slot { header = id.ordinal + 1 }) none
                at (element-gone slot (id.ordinal + 1) id.ordinal (ground arith) live),
      )

  -- Dropping a write guard, whose slot is under the guard's ID, in a state that the header can
  -- reach, with the reader bits all set, succeeds, leaves the slot unlocked, and does not change
  -- the map.
  pub drop_write_lem :
      readers slot.header ≡ all_ones
      → (t : Store A) × (drop_write (record { id = id }) s.heap ≡ ok (t.heap, tt))
        × (t.heap.cell id.slot_address.base id.slot_address.index
            ≡ some (record slot { header = 2 ^ 63 + id.ordinal }))
        × ((other : ElementId) → view t other ≡ view s other)
  unfolding drop_write
  drop_write_lem locked =
      let released : Slot A = record slot { header = 2 ^ 63 + id.ordinal } in
      (
        with_slot s id released,
        on_slot_lem id.slot_address (Slot.unlock_write_slot id.ordinal) s.heap slot released tt at
            (unlock_write_slot_lem id.ordinal slot word live locked),
        rw (same_address_refl id.slot_address) refl,
        λ other. contents-put_same s.heap.cell id other slot released at (
            element-relocked slot (2 ^ 63 + id.ordinal) (ground (arith, word))
              (ground (arith, word))),
      )

  -- Dropping a read guard, whose slot is under the guard's ID, in a state that the header can
  -- reach, with readers and no writer, succeeds, takes one reader off the slot's word, and does
  -- not change the map.
  pub drop_read_lem :
      0 < readers slot.header
      → readers slot.header < all_ones
      → (t : Store A) × (drop_read (record { id = id }) s.heap ≡ ok (t.heap, tt))
        × (t.heap.cell id.slot_address.base id.slot_address.index
            ≡ some (record slot { header = fewer slot.header }))
        × ((other : ElementId) → view t other ≡ view s other)
  unfolding drop_read
  drop_read_lem some_readers no_writer =
      let released : Slot A = record slot { header = fewer slot.header } in
      (
        with_slot s id released,
        on_slot_lem id.slot_address (Slot.unlock_read_slot id.ordinal) s.heap slot released tt at
            (unlock_read_slot_lem id.ordinal slot word live some_readers no_writer),
        rw (same_address_refl id.slot_address) refl,
        λ other. contents-put_same s.heap.cell id other slot released at (
            element-relocked slot (fewer slot.header) (ground (arith, word))
              (ground (arith, word))),
      )
