-- ===== src/Store/View.antt =====
-- What the store holds, as a map from IDs to elements, and what the operations on an ID do to it.
use read_write_store.Prelude.{
  and-false, ℕ, ◌+◌, ◌^◌, ◌≡◌, ◌≢◌, refl, inl, inr, Bool, true, false, ◌&&◌, Option, none, some,
  Check, ok, ◌==◌, if◌then◌else◌, arith, Bool-cases,
}
use read_write_store.Timeout.{Timeout, dont_block, block_until, block_indefinitely}
use read_write_store.Header.Abstract.{ident, is_live}
use read_write_store.Id.{Address, ElementId, same_address}
use read_write_store.Slot.{Slot}
use read_write_store.Slot.Results.{IsCallable, gives_up, marked}
use read_write_store.Block.{Heap, put, on_slot}
use read_write_store.Store.{push_erasure, Store, guarded}

abbrev pub same_id : ElementId → ElementId → Bool
same_id a b = same_address a.slot_address b.slot_address && (a.ordinal == b.ordinal)

pub guarded-gives_up {κ} :
    {L : Type κ} (t : Timeout) (lock : L) → guarded lock (gives_up t) ≡ gives_up t
guarded-gives_up dont_block lock = refl
guarded-gives_up (block_until d) lock = refl
guarded-gives_up block_indefinitely lock = refl

pub same_address_refl : (a : Address) → same_address a a ≡ true
same_address_refl a = ground arith

same_address_eq :
    (a b : Address) → same_address a b ≡ true → (a.base ≡ b.base) × (a.index ≡ b.index)
same_address_eq a b h = ground arith

module _ {ℓ} {A : Type ℓ} where
  -- The element of a slot under an ordinal.
  abbrev pub element_of : Option (Slot A) → ℕ → Option A
  element_of none ordinal = none
  element_of (some slot) ordinal =
      if is_live slot.header && (ident slot.header == ordinal) then slot.value else none

  abbrev pub contents : (ℕ → ℕ → Option (Slot A)) → ElementId → Option A
  contents cell id = element_of (cell id.slot_address.base id.slot_address.index) id.ordinal

  abbrev pub updated : ElementId → Option A → (ElementId → Option A) → ElementId → Option A
  updated id element m other = if same_id id other then element else m other

  -- A change of one slot changes the map at its address only.
  pub contents-put :
      (cell : ℕ → ℕ → Option (Slot A)) (id other : ElementId) (slot slot' : Slot A)
      (element : Option A)
      → cell id.slot_address.base id.slot_address.index ≡ some slot
      → ((ordinal : ℕ)
          → element_of (some slot') ordinal
            ≡ (if id.ordinal == ordinal then element else element_of (some slot) ordinal))
      → contents (put id.slot_address slot' cell) other ≡ updated id element (contents cell) other
  contents-put cell id other slot slot' element at change =
      elim (Bool-cases (same_address id.slot_address other.slot_address)) [
        | inl e ↦
            let (eb, ei) = same_address_eq id.slot_address other.slot_address e in
            rw (e, ← eb, ← ei, at) (change other.ordinal)
        | inr e ↦ rw e refl
      ]

  -- An operation on the slot of an ID, from what it does to the slot.
  pub on_slot_lem {κ} :
      {B : Type κ} (a : Address) (f : Slot A → Check (Slot A × B)) (h : Heap A)
      (slot slot' : Slot A) (b : B)
      → h.cell a.base a.index ≡ some slot
      → f slot ≡ ok (slot', b)
      → on_slot a f h ≡ ok (record h { cell = put a slot' h.cell }, b)
  unfolding on_slot
  on_slot_lem a f h slot slot' b at e = rw (at, e) refl

  pub contents-put_same :
      (cell : ℕ → ℕ → Option (Slot A)) (id other : ElementId) (slot slot' : Slot A)
      → cell id.slot_address.base id.slot_address.index ≡ some slot
      → ((ordinal : ℕ) → element_of (some slot') ordinal ≡ element_of (some slot) ordinal)
      → contents (put id.slot_address slot' cell) other ≡ contents cell other
  contents-put_same cell id other slot slot' at change =
      elim (Bool-cases (same_address id.slot_address other.slot_address)) [
        | inl e ↦
            let (eb, ei) = same_address_eq id.slot_address other.slot_address e in
            rw (e, ← eb, ← ei, at) (change other.ordinal)
        | inr e ↦ rw e refl
      ]

  -- A lock or a mark on the word is not seen in the map.
  pub element-relocked :
      (slot : Slot A) (header : ℕ)
      → is_live header ≡ is_live slot.header
      → ident header ≡ ident slot.header
      → (ordinal : ℕ)
      → element_of (some (record slot { header = header })) ordinal ≡ element_of (some slot) ordinal
  element-relocked slot header live same ordinal = rw (live, same) refl

  pub element-gone :
      (slot : Slot A) (header id : ℕ)
      → is_live header ≡ false
      → ident slot.header ≡ id
      → (ordinal : ℕ)
      → element_of (some (record slot { header = header })) ordinal
        ≡ (if id == ordinal then none else element_of (some slot) ordinal)
  element-gone slot header id dead same ordinal = elim (Bool-cases (id == ordinal)) [
    | inl e ↦ rw (dead, e) refl
    | inr e ↦ rw (dead, e, same, e, and-false (is_live slot.header)) refl
  ]

module _ {ℓ} {A : Type ℓ} where
  -- The store with another slot behind an ID.
  abbrev pub with_slot : Store A → ElementId → Slot A → Store A
  with_slot s id slot = record s {
    heap = record (s.heap) { cell = put id.slot_address slot s.heap.cell };
  }

  abbrev pub view : Store A → ElementId → Option A
  view s = contents s.heap.cell

  -- Queueing a slot for reuse is not seen in the map.
  pub view-queued :
      (id : ElementId) (may_reuse : Bool) (x : Store A) (other : ElementId)
      → view (if may_reuse then push_erasure id x else x) other ≡ view x other
  unfolding push_erasure
  view-queued id true x other = refl
  view-queued id false x other = refl

  -- A word that is only marked is of the same element.
  pub marked-live :
      (t : Timeout) (id : ℕ) (slot : Slot A)
      → IsCallable id slot
      → ident slot.header ≡ id
      → slot.header ≢ 2 ^ 63 + id
      → (is_live (marked t slot.header) ≡ is_live slot.header)
        × (ident (marked t slot.header) ≡ ident slot.header)
  marked-live dont_block id slot call e busy = (refl, refl)
  marked-live (block_until d) id slot call e busy = ground (arith, call.word, call.given)
  marked-live block_indefinitely id slot call e busy = ground (arith, call.word, call.given)
