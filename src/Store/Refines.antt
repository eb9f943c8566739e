-- ===== src/Store/Refines.antt =====
-- src/lib.rs and src/lock.rs, a store against the specification: the states that correspond.
pub mod Insertion
pub mod Changes
pub mod Ids
pub mod Guards
pub mod Programs
pub mod Stale
use read_write_store.Prelude.{
  ℕ, ◌+◌, ◌^◌, ◌≤◌, ◌<◌, ◌≡◌, ◌≢◌, refl, ap, subst, sym, ◌∙◌, ◌⊎◌, inl, inr, Bool, true, false,
  Option, none, some, List, [], ◌∷◌, Check, ok, ◌==◌, if◌then◌else◌, arith, Bool-cases,
  Option-cases,
}
use read_write_store.Header.Word.{reserved, max_concurrent_reads}
use read_write_store.Header.Abstract.{ident, readers, all_ones, is_live, issued, IsWord}
use read_write_store.Id.{Address, ElementId, same_address, same_store}
use read_write_store.Slot.{Slot}
use read_write_store.Slot.Results.{IsCallable}
use read_write_store.Block.{Heap, put}
use read_write_store.Store.{Store}
use read_write_store.Store.Look.{look, seen, look-put, seen-some, seen-none, changed}
use read_write_store.Store.Spec.{
  Model, Call, Reply, IsGiven, IsFresh, IsLegal, expected, with_entry,
}
use read_write_store.Store.Client.{perform}
use read_write_store.Store.Invariant.{IsStore, IsSlot, put_other, put_same, IsOther}
use read_write_store.Store.Invariant.Puts.{
  with_cell, IsStore-put, IsStore-same, AllErased-elsewhere,
}

module _ {ℓ} {A : Type ℓ} where
  -- An ID that the store gave out: its slot has given out the ordinal.
  pub record IsKnown (s : Store A) (id : ElementId) : Type ℓ where
    pub slot : Slot A
    pub at : s.heap.cell id.slot_address.base id.slot_address.index ≡ some slot
    pub issued_id : id.ordinal < issued slot.header
    pub native : same_store s.store_id id.store_id ≡ true

  pub IsKnown-put :
      {s : Store A} (a : Address) (other : ElementId) (slot slot' : Slot A)
      → s.heap.cell a.base a.index ≡ some slot
      → issued slot.header ≤ issued slot'.header
      → IsKnown s other
      → IsKnown (with_cell s a slot') other
  IsKnown-put {s} a other slot slot' at grows k =
      elim (Bool-cases (same_address a other.slot_address)) [
        | inr no_match ↦ record {
          slot = k.slot;
          at = rw no_match k.at;
          issued_id = k.issued_id;
          native = k.native;
        }
        | inl e ↦
            let base : a.base ≡ other.slot_address.base = ground arith in
            let index : a.index ≡ other.slot_address.index = ground arith in
            let same : some k.slot ≡ some slot = rw (base, index, k.at) at at in
            let more : other.ordinal < issued slot'.header = ground (arith, k.issued_id) in
            record { slot = slot'; at = rw e refl; issued_id = more; native = k.native }
      ]

  pub record Refines (s : Store A) (m : Model A) : Type ℓ where
    pub entries : (id : ElementId) → look s id ≡ m.entry id
    pub known : (id : ElementId) → IsGiven id m.given → IsKnown s id

  -- What a call must have done.
  pub record IsDone (calls : ℕ) (m : Model A) (c : Call A) (state : ℕ) (s : Store A) : Type ℓ where
    pub state' : ℕ
    pub store' : Store A
    pub id : ElementId
    pub fresh : IsFresh m c id
    pub run : perform c state s ≡ ok (state', (store', (expected m c id).1))
    pub good : IsStore (calls + 1) store'
    pub refines : Refines store' (expected m c id).0

  -- A change of the slot behind an ID, as a change of the ID's entry.
  pub Refines-put :
      {s : Store A} {m : Model A} (id : ElementId) (slot slot' : Slot A) (entry : Option (A × ℕ))
      → Refines s m
      → s.heap.cell id.slot_address.base id.slot_address.index ≡ some slot
      → issued slot.header ≤ issued slot'.header
      → ((ordinal : ℕ)
          → seen (some slot') ordinal
            ≡ (if id.ordinal == ordinal then entry else seen (some slot) ordinal))
      → Refines (with_cell s id.slot_address slot') (with_entry m id entry)
  Refines-put {s} {m} id slot slot' entry r at grows change = record {
    entries =
        λ other. look-put s.heap.cell id other slot slot' entry at change ∙ changed_entries other;
    known = λ other g. IsKnown-put id.slot_address other slot slot' at grows (r.known other g);
  }
    where
      changed_entries :
          (other : ElementId) → changed id entry (look s) other ≡ changed id entry m.entry other
      changed_entries other = rw (r.entries other) refl

  -- Nothing changes.
  pub with_cell_same :
      (s : Store A) (a : Address) (slot : Slot A)
      → s.heap.cell a.base a.index ≡ some slot
      → with_cell s a slot ≡ s
  with_cell_same s a slot at =
      ap (λ (c : ℕ → ℕ → Option (Slot A)). record s { heap = record (s.heap) { cell = c } })
        (put_same a slot s.heap.cell at)

  -- The slot behind an ID that was given out, and that a call with it is in order.
  pub IsKnown-IsCallable :
      {calls : ℕ} {s : Store A} {id : ElementId}
      → IsStore calls s
      → calls < max_concurrent_reads
      → (k : IsKnown s id) → IsCallable id.ordinal k.slot
  IsKnown-IsCallable {calls} {s} {id} i few k =
      let (known, good) = i.slots id.slot_address.base id.slot_address.index k.slot k.at in
      record { word = good.word; given = k.issued_id; room = omega (arith, good.few) }
