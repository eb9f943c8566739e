-- ===== src/Store/Removal.antt =====
-- src/lib.rs, `remove_with_timeout` against the map from IDs to elements.
use read_write_store.Prelude.{
  and-false, ◌+◌, ◌^◌, ◌<◌, ◌≡◌, ◌≢◌, refl, ◌∙◌, true, false, not, Option, none, some, ok, ◌==◌,
  if◌then◌else◌, arith,
}
use read_write_store.Timeout.{Timeout, dont_block, block_until, block_indefinitely, done}
use read_write_store.Header.Word.{reserved}
use read_write_store.Header.Abstract.{ident, is_live}
use read_write_store.Id.{ElementId, same_store}
use read_write_store.Slot.{Slot, RemoveResult, Wait, returns, never}
use read_write_store.Slot
use read_write_store.Slot.Results.{IsCallable, remove_result, remove_lem, gives_up, marked}
use read_write_store.Store.{Store, after_removal, push_erasure, remove_with_timeout}
use read_write_store.Store.View.{
  view-queued, updated, contents-put, contents-put_same, element-relocked, element-gone,
  on_slot_lem, with_slot, view, marked-live,
}

module _ {ℓ} {A : Type ℓ} (s : Store A) (id : ElementId) (slot : Slot A)
    (at : s.heap.cell id.slot_address.base id.slot_address.index ≡ some slot)
    (native : same_store s.store_id id.store_id ≡ true) (call : IsCallable id.ordinal slot) where
  pub remove-runs :
      (t : Timeout) (element : A)
      → slot.value ≡ some element
      → remove_with_timeout id t s
        ≡ ok (
            let (slot', w) = remove_result id.ordinal t element slot in
            after_removal id (with_slot s id slot') w)
  unfolding remove_with_timeout
  remove-runs t element v =
      let (slot', w) = remove_result id.ordinal t element slot in
      rw
        (
          native,
          on_slot_lem id.slot_address (Slot.remove id.ordinal t) s.heap slot slot' w at
              (remove_lem id.ordinal t element slot call v),
        )
        refl

  -- Removing an element that nobody has locked returns it, whatever the timeout, and takes its ID
  -- out of the map and nothing else. This holds for an ID of this store whose ordinal the slot has
  -- given out, when the slot's word is one that the header can reach and has room for one more
  -- reader, or a writer.
  pub remove_present :
      (t : Timeout) (element : A)
      → slot.value ≡ some element
      → slot.header ≡ 2 ^ 63 + id.ordinal
      → (s' : Store A) × (remove_with_timeout id t s ≡ ok (s', returns (done (some element))))
        × (view s id ≡ some element)
        × ((other : ElementId) → view s' other ≡ updated id none (view s) other)
  remove_present t element v free =
      let live : (ident slot.header == id.ordinal) ≡ true = ground (arith, call.word, call.given) in
      let unlocked : (slot.header == 2 ^ 63 + id.ordinal) ≡ true = ground arith in
      let seen : is_live slot.header ≡ true = ground arith in
      let small : id.ordinal + 1 < 2 ^ 32 = ground (arith, call.word, call.given) in
      (
        (if not (id.ordinal + 1 == reserved) then push_erasure id gone else gone),
        remove-runs t element v ∙ rw (live, unlocked) refl,
        rw (at, seen, live) v,
        λ other.
            view-queued id (not (id.ordinal + 1 == reserved)) gone other
            ∙ contents-put s.heap.cell id other slot (record slot { header = id.ordinal + 1 }) none
                at
                (element-gone slot (id.ordinal + 1) id.ordinal (ground arith)
                  (ground (arith, call.word, call.given))),
      )
    where
      gone : Store A
      gone = with_slot s id (record slot { header = id.ordinal + 1 })

  -- Removing with an ID that is not the slot's current one returns nothing; the map had nothing
  -- under the ID and does not change. This holds for an ID of this store whose ordinal the slot
  -- has given out, when the slot's word is one that the header can reach and has room for one more
  -- reader, or a writer.
  pub remove_absent :
      (t : Timeout) (element : A)
      → slot.value ≡ some element
      → ident slot.header ≢ id.ordinal
      → (s' : Store A) × (remove_with_timeout id t s ≡ ok (s', returns (done none)))
        × (view s id ≡ none)
        × ((other : ElementId) → view s' other ≡ view s other)
  remove_absent t element v other_id =
      let differs : (ident slot.header == id.ordinal) ≡ false = ground arith in
      (
        with_slot s id slot,
        remove-runs t element v ∙ rw differs refl,
        rw (at, differs, and-false (is_live slot.header)) refl,
        λ other. contents-put_same s.heap.cell id other slot slot at (λ ordinal. refl),
      )

  -- Removing an element that is locked times out at once or by the deadline, or never returns if
  -- there is none, and does not change the map. This holds for an ID of this store whose ordinal
  -- the slot has given out, when the slot's word is one that the header can reach and has room for
  -- one more reader, or a writer.
  pub remove_busy :
      (t : Timeout) (element : A)
      → slot.value ≡ some element
      → ident slot.header ≡ id.ordinal
      → slot.header ≢ 2 ^ 63 + id.ordinal
      → (s' : Store A) × (remove_with_timeout id t s ≡ ok (s', gives_up t))
        × ((other : ElementId) → view s' other ≡ view s other)
  remove_busy t element v live busy =
      let same : (ident slot.header == id.ordinal) ≡ true = ground arith in
      let locked : (slot.header == 2 ^ 63 + id.ordinal) ≡ false = ground arith in
      let m = marked-live t id.ordinal slot call live busy in
      (
        with_slot s id (record slot { header = marked t slot.header }),
        remove-runs t element v ∙ rw (same, locked) (ended t),
        λ other.
            contents-put_same s.heap.cell id other slot
              (record slot { header = marked t slot.header }) at
              (element-relocked slot (marked t slot.header) m.0 m.1),
      )
    where
      ended :
          (t : Timeout)
          → ok (
              after_removal id
                (with_slot s id (record slot { header = marked t slot.header }))
                (gives_up t))
            ≡ ok (
              with_slot s id (record slot { header = marked t slot.header }),
              gives_up {B = Option A} t,
            )
      ended dont_block = refl
      ended (block_until d) = refl
      ended block_indefinitely = refl
