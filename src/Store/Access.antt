-- ===== src/Store/Access.antt =====
-- src/lib.rs, `read_with_timeout` and `write_with_timeout` against the map from IDs to elements.
use read_write_store.Prelude.{
  and-false, ◌+◌, ◌-◌, ◌*◌, ◌^◌, ◌≡◌, ◌≢◌, refl, ◌∙◌, true, false, none, some, ok, ◌==◌, arith,
}
use read_write_store.Timeout.{Timeout, done}
use read_write_store.Header.Abstract.{ident, readers, all_ones, is_live}
use read_write_store.Id.{ElementId, same_store}
use read_write_store.Slot.{Slot, RemoveResult, Wait, returns, never}
use read_write_store.Slot
use read_write_store.Slot.Results.{
  IsCallable, lock_read_result, lock_read_lem, lock_write_result, lock_write_lem, gives_up, marked,
}
use read_write_store.Store.{Store, read_with_timeout, write_with_timeout, guarded}
use read_write_store.Store.View.{
  contents-put_same, element-relocked, on_slot_lem, with_slot, view, marked-live, same_address_refl,
  guarded-gives_up,
}

module _ {ℓ} {A : Type ℓ} (s : Store A) (id : ElementId) (slot : Slot A)
    (at : s.heap.cell id.slot_address.base id.slot_address.index ≡ some slot)
    (native : same_store s.store_id id.store_id ≡ true) (call : IsCallable id.ordinal slot) where
  pub read-runs :
      (t : Timeout)
      → read_with_timeout id t s
        ≡ ok (
            let (slot', w) = lock_read_result id.ordinal t slot in
            (with_slot s id slot', guarded (record { id = id }) w))
  unfolding read_with_timeout
  read-runs t =
      let (slot', w) = lock_read_result id.ordinal t slot in
      rw
        (
          native,
          on_slot_lem id.slot_address (Slot.lock_read id.ordinal t) s.heap slot slot' w at
              (lock_read_lem id.ordinal t slot call),
        )
        refl

  -- Reading an element that no writer has returns a guard for the ID, adds one reader to the
  -- slot's word and does not change the map. This holds for an ID of this store whose ordinal the
  -- slot has given out, when the slot's word is one that the header can reach and has room for one
  -- more reader, or a writer.
  pub read_granted :
      (t : Timeout)
      → ident slot.header ≡ id.ordinal
      → readers slot.header ≢ all_ones
      → (s' : Store A) × (read_with_timeout id t s
          ≡ ok (s', returns (done (some (record { id = id })))))
        × (s'.heap.cell id.slot_address.base id.slot_address.index
            ≡ some (record slot { header = slot.header + 2 ^ 32 }))
        × ((other : ElementId) → view s' other ≡ view s other)
  read_granted t live free =
      let same : (ident slot.header == id.ordinal) ≡ true = ground arith in
      let test : (readers slot.header == all_ones) ≡ false = ground arith in
      (
        with_slot s id (record slot { header = slot.header + 2 ^ 32 }),
        read-runs t ∙ rw (same, test) refl,
        rw (same_address_refl id.slot_address) refl,
        λ other.
            contents-put_same s.heap.cell id other slot
              (record slot { header = slot.header + 2 ^ 32 }) at
              (element-relocked slot (slot.header + 2 ^ 32) (ground (arith, call.word, call.given))
                (ground (arith, call.word, call.given))),
      )

  -- Reading an element that a writer has times out at once or by the deadline, or never returns if
  -- there is none, and does not change the map. This holds for an ID of this store whose ordinal
  -- the slot has given out, when the slot's word is one that the header can reach and has room for
  -- one more reader, or a writer.
  pub read_busy :
      (t : Timeout)
      → ident slot.header ≡ id.ordinal
      → readers slot.header ≡ all_ones
      → (s' : Store A) × (read_with_timeout id t s ≡ ok (s', gives_up t))
        × ((other : ElementId) → view s' other ≡ view s other)
  read_busy t live busy =
      let same : (ident slot.header == id.ordinal) ≡ true = ground arith in
      let locked : (readers slot.header == all_ones) ≡ true = ground arith in
      let m = marked-live t id.ordinal slot call live (ground arith) in
      (
        with_slot s id (record slot { header = marked t slot.header }),
        read-runs t ∙ rw (same, locked, guarded-gives_up t _) refl,
        λ other.
            contents-put_same s.heap.cell id other slot
              (record slot { header = marked t slot.header }) at
              (element-relocked slot (marked t slot.header) m.0 m.1),
      )

  -- Reading with an ID that is not the slot's current one gives no guard; the map had nothing
  -- under the ID and does not change. This holds for an ID of this store whose ordinal the slot
  -- has given out, when the slot's word is one that the header can reach and has room for one more
  -- reader, or a writer.
  pub read_absent :
      (t : Timeout)
      → ident slot.header ≢ id.ordinal
      → (s' : Store A) × (read_with_timeout id t s ≡ ok (s', returns (done none)))
        × (view s id ≡ none)
        × ((other : ElementId) → view s' other ≡ view s other)
  read_absent t other_id =
      let differs : (ident slot.header == id.ordinal) ≡ false = ground arith in
      (
        with_slot s id slot,
        read-runs t ∙ rw differs refl,
        rw (at, differs, and-false (is_live slot.header)) refl,
        λ other. contents-put_same s.heap.cell id other slot slot at (λ ordinal. refl),
      )

  pub write-runs :
      (t : Timeout)
      → write_with_timeout id t s
        ≡ ok (
            let (slot', w) = lock_write_result id.ordinal t slot in
            (with_slot s id slot', guarded (record { id = id }) w))
  unfolding write_with_timeout
  write-runs t =
      let (slot', w) = lock_write_result id.ordinal t slot in
      rw
        (
          native,
          on_slot_lem id.slot_address (Slot.lock_write id.ordinal t) s.heap slot slot' w at
              (lock_write_lem id.ordinal t slot call),
        )
        refl

  -- Writing to an element that nobody has locked returns a guard for the ID, sets all the reader
  -- bits of the slot's word and does not change the map. This holds for an ID of this store whose
  -- ordinal the slot has given out, when the slot's word is one that the header can reach and has
  -- room for one more reader, or a writer.
  pub write_granted :
      (t : Timeout)
      → ident slot.header ≡ id.ordinal
      → slot.header ≡ 2 ^ 63 + id.ordinal
      → (s' : Store A) × (write_with_timeout id t s
          ≡ ok (s', returns (done (some (record { id = id })))))
        × (s'.heap.cell id.slot_address.base id.slot_address.index
            ≡ some (record slot { header = (2 ^ 32 - 1) * 2 ^ 32 + id.ordinal }))
        × ((other : ElementId) → view s' other ≡ view s other)
  write_granted t live free =
      let same : (ident slot.header == id.ordinal) ≡ true = ground arith in
      let test : (slot.header == 2 ^ 63 + id.ordinal) ≡ true = ground arith in
      (
        with_slot s id (record slot { header = (2 ^ 32 - 1) * 2 ^ 32 + id.ordinal }),
        write-runs t ∙ rw (same, test) refl,
        rw (same_address_refl id.slot_address) refl,
        λ other.
            contents-put_same s.heap.cell id other slot
              (record slot { header = (2 ^ 32 - 1) * 2 ^ 32 + id.ordinal }) at
              (element-relocked slot ((2 ^ 32 - 1) * 2 ^ 32 + id.ordinal)
                (ground (arith, call.word, call.given)) (ground (arith, call.word, call.given))),
      )

  -- Writing to an element that anyone has locked times out at once or by the deadline, or never
  -- returns if there is none, and does not change the map. This holds for an ID of this store
  -- whose ordinal the slot has given out, when the slot's word is one that the header can reach
  -- and has room for one more reader, or a writer.
  pub write_busy :
      (t : Timeout)
      → ident slot.header ≡ id.ordinal
      → slot.header ≢ 2 ^ 63 + id.ordinal
      → (s' : Store A) × (write_with_timeout id t s ≡ ok (s', gives_up t))
        × ((other : ElementId) → view s' other ≡ view s other)
  write_busy t live busy =
      let same : (ident slot.header == id.ordinal) ≡ true = ground arith in
      let locked : (slot.header == 2 ^ 63 + id.ordinal) ≡ false = ground arith in
      let m = marked-live t id.ordinal slot call live (ground arith) in
      (
        with_slot s id (record slot { header = marked t slot.header }),
        write-runs t ∙ rw (same, locked, guarded-gives_up t _) refl,
        λ other.
            contents-put_same s.heap.cell id other slot
              (record slot { header = marked t slot.header }) at
              (element-relocked slot (marked t slot.header) m.0 m.1),
      )

  -- Writing with an ID that is not the slot's current one gives no guard; the map had nothing
  -- under the ID and does not change. This holds for an ID of this store whose ordinal the slot
  -- has given out, when the slot's word is one that the header can reach and has room for one more
  -- reader, or a writer.
  pub write_absent :
      (t : Timeout)
      → ident slot.header ≢ id.ordinal
      → (s' : Store A) × (write_with_timeout id t s ≡ ok (s', returns (done none)))
        × (view s id ≡ none)
        × ((other : ElementId) → view s' other ≡ view s other)
  write_absent t other_id =
      let differs : (ident slot.header == id.ordinal) ≡ false = ground arith in
      (
        with_slot s id slot,
        write-runs t ∙ rw differs refl,
        rw (at, differs, and-false (is_live slot.header)) refl,
        λ other. contents-put_same s.heap.cell id other slot slot at (λ ordinal. refl),
      )
