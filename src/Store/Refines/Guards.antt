-- ===== src/Store/Refines/Guards.antt =====
-- src/lib.rs, `remove_locked` and `get_mut`, and the guards of src/lock.rs, against the specification.
use read_write_store.Prelude.{
  ℕ, ◌+◌, ◌-◌, ◌^◌, ◌≤◌, ◌<◌, ◌≡◌, refl, ◌∙◌, inl, inr, true, false, not, some, none, ◌==◌, arith,
}
use read_write_store.Header.Word.{reserved, id_from_bits}
use read_write_store.Header.Abstract.{ident, readers, all_ones, is_live, fewer, IsWord}
use read_write_store.Header.Code.{current_id}
use read_write_store.Id.{ElementId}
use read_write_store.Slot.{Slot, RemoveResult}
use read_write_store.Slot
use read_write_store.Slot.Results.{
  unlock_read_slot_lem, unlock_write_slot_lem, remove_locked_slot_lem,
}
use read_write_store.Lock.{forget}
use read_write_store.Lock
use read_write_store.Store.{Store, remove_locked, get_mut}
use read_write_store.Store.View.{on_slot_lem}
use read_write_store.Store.Spec.{
  Model, Call, Reply, found, nothing, ReadHeld, WriteHeld, with_entry,
}
use read_write_store.Store.Spec
use read_write_store.Store.Client.{perform}
use read_write_store.Store.Invariant.{IsStore}
use read_write_store.Store.Invariant.Puts.{with_cell, IsStore-same}
use read_write_store.Store.Refines.{IsKnown, Refines, IsDone}
use read_write_store.Store.Refines.Changes.{
  IsDone-by, relocked-IsDone, entry-IsEntry, entry_cases, slot_good, entry_good, entry-Refines,
  vacated_store, vacated_good, vacated-Refines,
}

module _ {ℓ} {A : Type ℓ} {calls : ℕ} {s : Store A} {m : Model A} (i : IsStore calls s)
    (r : Refines s m) (id : ElementId) (k : IsKnown s id) (state : ℕ) where
  pub drop_read-IsDone : ReadHeld m id → IsDone calls m (Spec.drop_read id) state s
  unfolding perform Lock.drop_read
  drop_read-IsDone (e, n, entry, some_readers, no_writer) =
      let at = entry-IsEntry i r id k e n entry in
      let live = at.live in
      let same = at.same in
      let count = at.count in
      let good = slot_good i r id k in
      let lt : n ≤ calls = omega (arith, good.few) in
      let (word, alive, ids, counts) = fewer_word n good.word live count some_readers in
      relocked-IsDone i r id k e n at (fewer k.slot.header) (n - 1) (Spec.drop_read id) nothing word
        alive (ids ∙ same) counts (omega arith) tt (rw entry refl)
        (rw
          (on_slot_lem id.slot_address (Slot.unlock_read_slot id.ordinal) s.heap k.slot
            (record (k.slot) { header = fewer k.slot.header }) tt k.at
            (unlock_read_slot_lem id.ordinal k.slot good.word same (omega arith) (omega arith)))
          refl)
    where
      fewer_word :
          (n : ℕ)
          → IsWord k.slot.header
          → is_live k.slot.header ≡ true
          → readers k.slot.header ≡ n
          → 0 < n
          → IsWord (fewer k.slot.header)
            × (is_live (fewer k.slot.header) ≡ true)
            × (ident (fewer k.slot.header) ≡ ident k.slot.header)
            × (readers (fewer k.slot.header) ≡ n - 1)
      fewer_word n word live count positive = (
        record { fits = ground (arith, word); live = ground (arith, word) },
        ground arith,
        ground arith,
        ground arith,
      )

  pub drop_write-IsDone : WriteHeld m id → IsDone calls m (Spec.drop_write id) state s
  unfolding perform Lock.drop_write
  drop_write-IsDone (e, entry) =
      let at = entry-IsEntry i r id k e all_ones entry in
      let live = at.live in
      let same = at.same in
      let count = at.count in
      let good = slot_good i r id k in
      let small : id.ordinal < 2 ^ 32 - 1 = ground (arith, good.word) in
      relocked-IsDone i r id k e all_ones at (2 ^ 63 + id.ordinal) 0 (Spec.drop_write id) nothing
        (record { fits = omega arith; live = omega arith }) (ground arith) (omega arith)
        (omega arith) (inl (omega arith)) tt (rw entry refl)
        (rw
          (on_slot_lem id.slot_address (Slot.unlock_write_slot id.ordinal) s.heap k.slot
            (record (k.slot) { header = 2 ^ 63 + id.ordinal }) tt k.at
            (unlock_write_slot_lem id.ordinal k.slot good.word same count))
          refl)

  pub remove_locked-IsDone : WriteHeld m id → IsDone calls m (Spec.remove_locked id) state s
  unfolding perform remove_locked forget
  remove_locked-IsDone (e, entry) =
      let at = entry-IsEntry i r id k e all_ones entry in
      let good = slot_good i r id k in
      IsDone-by (Spec.remove_locked id) id (vacated_store i r id k e all_ones at)
        (with_entry m id none) (found (some e)) tt (rw entry refl)
        (rw
          (
            k.native,
            on_slot_lem id.slot_address (Slot.remove_locked_slot id.ordinal) s.heap k.slot
                (record (k.slot) { header = id.ordinal + 1 })
                (record { element = e; may_reuse = not (id.ordinal + 1 == reserved) }) k.at
                (remove_locked_slot_lem id.ordinal e k.slot good.word at.same at.count at.value),
          )
          refl)
        (vacated_good i r id k e all_ones at) (vacated-Refines i r id k e all_ones at)

  pub assign-IsDone : (e' : A) → WriteHeld m id → IsDone calls m (Spec.assign id e') state s
  unfolding perform Lock.assign Slot.write_unchecked
  assign-IsDone e' (e, entry) =
      let at = entry-IsEntry i r id k e all_ones entry in
      let good = slot_good i r id k in
      let slot' : Slot A = record (k.slot) { value = some e' } in
      IsDone-by (Spec.assign id e') id (with_cell s id.slot_address slot')
        (with_entry m id (some (e', all_ones))) nothing tt (rw entry refl)
        (rw
          (on_slot_lem id.slot_address (Slot.write_unchecked e') s.heap k.slot slot' tt k.at
            (rw (at.value) refl))
          refl)
        (entry_good i r id k e all_ones at slot'
          (record { word = good.word; written = λ lt. (e', refl); few = omega (arith, good.few) }))
        (entry-Refines i r id k e all_ones at slot' e' all_ones at.live at.same refl at.count)

  pub deref-IsDone :
      (e : A) (n : ℕ) → m.entry id ≡ some (e, n) → IsDone calls m (Spec.deref id) state s
  unfolding perform Lock.deref Slot.get_unchecked
  deref-IsDone e n entry =
      let at = entry-IsEntry i r id k e n entry in
      IsDone-by (Spec.deref id) id s m (found (some e)) tt (rw entry refl)
        (rw (k.at, at.value) refl) (IsStore-same i) r

  pub get_mut-IsDone : IsDone calls m (Spec.get_mut id) state s
  unfolding perform get_mut Slot.get_exclusive current_id id_from_bits
  get_mut-IsDone = elim (entry_cases i r id k) [
    | inl (gone, other_id) ↦
        let differs : (ident k.slot.header == id.ordinal) ≡ false = ground arith in
        IsDone-by (Spec.get_mut id) id s m (found none) tt (rw gone refl)
          (rw (k.native, k.at, differs) refl) (IsStore-same i) r
    | inr (e, n, at) ↦
        let same : (ident k.slot.header == id.ordinal) ≡ true = ground (arith, at.same) in
        IsDone-by (Spec.get_mut id) id s m (found (some e)) tt (rw (at.entry) refl)
          (rw (k.native, k.at, same, at.value) refl) (IsStore-same i) r
  ]
