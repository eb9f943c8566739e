-- ===== src/Store/Look.antt =====
-- What a store holds under an ID: the element and how many readers it has, the count of a write lock
-- included.
use read_write_store.Prelude.{
  ℕ, ◌<◌, ◌≡◌, ◌≢◌, refl, inl, inr, true, false, ◌&&◌, Option, none, some, ◌==◌, if◌then◌else◌,
  arith, Bool-cases,
}
use read_write_store.Header.Abstract.{ident, readers, is_live, issued}
use read_write_store.Id.{ElementId, same_address}
use read_write_store.Slot.{Slot}
use read_write_store.Block.{put}
use read_write_store.Store.{Store}
use read_write_store.Store.View.{same_id}
use read_write_store.Store.Invariant.{IsSlot}

module _ {ℓ} {A : Type ℓ} where
  abbrev pub with_count : Option A → ℕ → Option (A × ℕ)
  with_count none n = none
  with_count (some e) n = some (e, n)

  abbrev pub seen : Option (Slot A) → ℕ → Option (A × ℕ)
  seen none ordinal = none
  seen (some slot) ordinal =
      if is_live slot.header && (ident slot.header == ordinal)
      then with_count slot.value (readers slot.header)
      else none

  abbrev pub look : Store A → ElementId → Option (A × ℕ)
  look s id = seen (s.heap.cell id.slot_address.base id.slot_address.index) id.ordinal

  abbrev pub changed :
      ElementId → Option (A × ℕ) → (ElementId → Option (A × ℕ)) → ElementId → Option (A × ℕ)
  changed id entry m other = if same_id id other then entry else m other

  -- A change of the slot behind an ID, by what the slot shows under each ordinal.
  pub look-put :
      (cell : ℕ → ℕ → Option (Slot A)) (id other : ElementId) (slot slot' : Slot A)
      (entry : Option (A × ℕ))
      → cell id.slot_address.base id.slot_address.index ≡ some slot
      → ((ordinal : ℕ)
          → seen (some slot') ordinal
            ≡ (if id.ordinal == ordinal then entry else seen (some slot) ordinal))
      → seen
          (put id.slot_address slot' cell other.slot_address.base other.slot_address.index)
          other.ordinal
        ≡ changed id entry
            (λ i. seen (cell i.slot_address.base i.slot_address.index) i.ordinal)
            other
  look-put cell id other slot slot' entry at change =
      elim (Bool-cases (same_address id.slot_address other.slot_address)) [
        | inl e ↦
            let eb : id.slot_address.base ≡ other.slot_address.base = ground arith in
            let ei : id.slot_address.index ≡ other.slot_address.index = ground arith in
            rw (e, ← eb, ← ei, at) (change other.ordinal)
        | inr e ↦ rw e refl
      ]

  -- What a slot shows under its own ordinal, and under any other.
  pub seen_live :
      (slot : Slot A) (ordinal : ℕ) (e : A)
      → is_live slot.header ≡ true
      → ident slot.header ≡ ordinal
      → slot.value ≡ some e
      → (other : ℕ)
      → seen (some slot) other ≡ (if ordinal == other then some (e, readers slot.header) else none)
  seen_live slot ordinal e live same v other = rw (live, same, v) refl

  pub seen_dead :
      (slot : Slot A) → is_live slot.header ≡ false → (other : ℕ) → seen (some slot) other ≡ none
  seen_dead slot dead other = rw dead refl

  -- An entry comes from a slot that is occupied under the ID; no entry, from one that is not.
  pub seen-some :
      (slot : Slot A) (ordinal n : ℕ) (e : A)
      → seen (some slot) ordinal ≡ some (e, n)
      → (is_live slot.header ≡ true)
        × (ident slot.header ≡ ordinal)
        × (slot.value ≡ some e)
        × (readers slot.header ≡ n)
  seen-some slot ordinal n e h = shown slot.value h
    where
      shown :
          (v : Option A)
          → (if is_live slot.header && (ident slot.header == ordinal)
              then with_count v (readers slot.header)
              else none)
            ≡ some (e, n)
          → (is_live slot.header ≡ true)
            × (ident slot.header ≡ ordinal)
            × (v ≡ some e)
            × (readers slot.header ≡ n)
      shown none h = absurd (ground arith)
      shown (some x) h = ground arith

  pub seen-none :
      {calls : ℕ} (slot : Slot A) (ordinal : ℕ)
      → IsSlot calls slot
      → ordinal < issued slot.header
      → seen (some slot) ordinal ≡ none
      → ident slot.header ≢ ordinal
  seen-none slot ordinal good given h = λ same.
      let (e, v) = good.written (omega arith) in
      let live : is_live slot.header ≡ true = ground arith in
      absurd (ground (arith, seen_live slot ordinal e live same v ordinal))
