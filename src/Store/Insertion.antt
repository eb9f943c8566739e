-- ===== src/Store/Insertion.antt =====
-- src/lib.rs, `insert` against the map from IDs to elements.
use read_write_store.Prelude.{
  ℕ, ◌+◌, ◌^◌, ◌<◌, ◌≡◌, refl, true, false, none, some, ok, ◌==◌, if◌then◌else◌, arith,
}
use read_write_store.Header.Word.{reserved}
use read_write_store.Header.Abstract.{ident, is_live}
use read_write_store.Id.{Address, ElementId}
use read_write_store.Slot.{Slot, RemoveResult, Wait, returns, never}
use read_write_store.Slot
use read_write_store.Slot.Results.{insert_lem}
use read_write_store.Block.{Heap, put, on_slot}
use read_write_store.Block
use read_write_store.Store.{Store, insert, location}
use read_write_store.Store.View.{updated, contents-put, on_slot_lem, with_slot, view, element_of}

module _ {ℓ} {A : Type ℓ} (state state' : ℕ) (s s' : Store A) (a : Address) (slot : Slot A)
    (located : location state s ≡ ok (state', (s', a)))
    (at : s'.heap.cell a.base a.index ≡ some slot) (vacant : slot.header < reserved) where
  abbrev inserted : ElementId
  inserted = record { ordinal = slot.header; slot_address = a; store_id = s.store_id }

  occupied_element :
      (element : A) (ordinal : ℕ)
      → element_of (some (record { header = 2 ^ 63 + slot.header; value = some element })) ordinal
        ≡ (if slot.header == ordinal then some element else element_of (some slot) ordinal)
  occupied_element element ordinal =
      let live : is_live (2 ^ 63 + slot.header) ≡ true = ground arith in
      let dead : is_live slot.header ≡ false = ground arith in
      let same : ident (2 ^ 63 + slot.header) ≡ slot.header = omega arith in
      rw (live, dead, same) refl

  -- An insertion that is put at a vacant slot whose ordinal is not the reserved one returns an ID
  -- with that ordinal, under which the store had nothing, and puts the element into the map under
  -- it; the map is otherwise as it was once the location was found.
  pub insert_present :
      (element : A)
      → (t : Store A) × (insert state element s ≡ ok (state', (t, inserted)))
        × (view s' inserted ≡ none)
        × ((other : ElementId) → view t other ≡ updated inserted (some element) (view s') other)
  unfolding insert Block.insert
  insert_present element = (
    with_slot s' inserted (record { header = 2 ^ 63 + slot.header; value = some element }),
    rw
        (
          located,
          on_slot_lem a (Slot.insert element) s'.heap slot
              (record { header = 2 ^ 63 + slot.header; value = some element }) slot.header at
              (insert_lem element slot vacant),
        )
        refl,
    rw (at, dead) refl,
    λ other.
        contents-put s'.heap.cell inserted other slot
          (record { header = 2 ^ 63 + slot.header; value = some element }) (some element) at
          (occupied_element element),
  )
    where
      dead : is_live slot.header ≡ false
      dead = ground arith
