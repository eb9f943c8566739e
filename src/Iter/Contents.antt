-- ===== src/Iter/Contents.antt =====
-- src/iter.rs, an iteration over a store in order, against the map from IDs to elements.
use read_write_store.Prelude.{
  ℕ, zero, suc, ◌^◌, ◌<◌, ◌≡◌, refl, sym, ap, ◌∙◌, ◌⊎◌, inl, inr, true, false, ◌&&◌, Option, none,
  some, List, [], ◌∷◌, ok, ◌==◌, if◌then◌else◌, arith, Bool-cases, Option-cases, dec_lt,
}
use read_write_store.Header.Abstract.{ident, is_live, issued}
use read_write_store.Header.Code.{id_if_occupied}
use read_write_store.Header.Word.Laws.{is_occupied_lem, id_from_bits_lem}
use read_write_store.Id.{ElementId}
use read_write_store.Slot.{Slot}
use read_write_store.Slot
use read_write_store.Block.{Block, Heap, scramble_slot}
use read_write_store.Block
use read_write_store.Block.Scramble.{scramble_slot-lt}
use read_write_store.Bucket.{head_size}
use read_write_store.Bucket.Chains.{InChain, IsBlock}
use read_write_store.Bucket.Unused.{slot_address_lem}
use read_write_store.Iter.{mut_take}
use read_write_store.Iter.Yields.{with_option, held}
use read_write_store.Store.View.{same_id, contents, element_of}

pub no_element {κ} : {B : Type κ} {b : B} → none ≡ some b → ⊥
no_element e = ground arith

pub some_eq {κ} : {B : Type κ} {x y : B} → some x ≡ some y → x ≡ y
some_eq e = cc

module _ {ℓ} {A : Type ℓ} where
  -- What an iteration yields under an ID first.
  abbrev pub lookup : List (ElementId × A) → ElementId → Option A
  lookup [] id = none
  lookup ((id', e) ∷ es) id = if same_id id' id then some e else lookup es id

  -- What the iterator finds at a logical slot of a block.
  abbrev pub named : Block → ℕ → ℕ → Option A → Option (ElementId × A)
  named b index ordinal none = none
  named b index ordinal (some e) = some (
    record {
      ordinal = ordinal;
      slot_address = record { base = b.base; index = index };
      store_id = b.store_id;
    },
    e,
  )

  abbrev pub found_at : Block → ℕ → Option (Slot A) → Option (ElementId × A)
  found_at b index none = none
  found_at b index (some slot) =
      if is_live slot.header then named b index (ident slot.header) slot.value else none

  abbrev pub content : Heap A → Block → ℕ → Option (ElementId × A)
  content h b l = found_at b (scramble_slot b.len l) (h.cell b.base (scramble_slot b.len l))

  occupied_contents :
      (slot : Slot A) (e : A)
      → is_live slot.header ≡ true
      → slot.value ≡ some e
      → Slot.slot_contents slot ≡ ok (some (ident slot.header, e))
  unfolding Slot.slot_contents id_if_occupied
  occupied_contents slot e live v =
      rw (Slot.slot_contents, is_occupied_lem slot.header, live, v, id_from_bits_lem slot.header)
        refl

  slot_contents_lem :
      (slot : Slot A)
      → (0 < issued slot.header → (e : A) × (slot.value ≡ some e))
      → (b : Block) (index : ℕ)
      → ((is_live slot.header ≡ false) × (Slot.slot_contents slot ≡ ok none))
        ⊎ ((is_live slot.header ≡ true)
            × (e : A) × (slot.value ≡ some e)
            × (Slot.slot_contents slot ≡ ok (some (ident slot.header, e))))
  unfolding Slot.slot_contents id_if_occupied
  slot_contents_lem slot written b index = elim (Bool-cases (is_live slot.header)) [
    | inr dead ↦ inl (dead, rw (Slot.slot_contents, is_occupied_lem slot.header, dead) refl)
    | inl live ↦
        let (e, v) = written (ground arith) in inr (live, e, v, occupied_contents slot e live v)
  ]

  take_found :
      (h : Heap A) (b : Block) (l index : ℕ) (slot : Slot A)
      → Block.slot_address b l ≡ ok (record { base = b.base; index = index })
      → scramble_slot b.len l ≡ index
      → h.cell b.base index ≡ some slot
      → (0 < issued slot.header → (e : A) × (slot.value ≡ some e))
      → mut_take b l h ≡ ok (h, content h b l)
  unfolding Block.slot_contents
  take_found h b l index slot address same at written =
      elim (slot_contents_lem slot written b index) [
        | inl (dead, none_there) ↦ rw (address, same, at, none_there, dead) refl
        | inr (live, e, v, there) ↦ rw (address, same, at, there, live, v) refl
      ]

  pub mut_take_lem :
      (h : Heap A) (b : Block) (l : ℕ)
      → IsBlock h b
      → ((base index : ℕ) (slot : Slot A)
          → h.cell base index ≡ some slot
          → 0 < issued slot.header
          → (e : A) × (slot.value ≡ some e))
      → l < b.len
      → mut_take b l h ≡ ok (h, content h b l)
  mut_take_lem h b l one written lt =
      let len = one.len in
      let inside : l < 2 ^ one.k = omega arith in
      let (slot, at) =
        one.filled (scramble_slot (2 ^ one.k) l) (scramble_slot-lt one.k one.small l inside) in
      take_found h b l (scramble_slot (2 ^ one.k) l) slot
        (slot_address_lem b one.k l one.small one.len inside) (rw len refl) at
        (written b.base (scramble_slot (2 ^ one.k) l) slot at)

  -- An element is among those that were yielded, under an ID.
  abbrev pub IsYielded : ElementId → A → List (ElementId × A) → Type ℓ
  IsYielded id e [] = ⊥ × Unit {ℓ}
  IsYielded id e (x ∷ xs) = ((same_id x.0 id ≡ true) × (x.1 ≡ e)) ⊎ IsYielded id e xs

  pub IsYielded-with_option :
      (id : ElementId) (e : A) (o : Option (ElementId × A)) (xs : List (ElementId × A))
      → IsYielded id e xs
      → IsYielded id e (with_option o xs)
  IsYielded-with_option id e none xs y = y
  IsYielded-with_option id e (some x) xs y = inr y

  named_found :
      (b : Block) (index ordinal : ℕ) (v : Option A) (x : ElementId × A)
      → named b index ordinal v ≡ some x
      → (v ≡ some x.1)
        × (x.0 ≡ record {
          ordinal = ordinal;
          slot_address = record { base = b.base; index = index };
          store_id = b.store_id;
        })
  named_found b index ordinal none x e = absurd (no_element e)
  named_found b index ordinal (some v) x e = (
    ap (λ (y : ElementId × A). some y.1) (some_eq e),
    sym (ap (λ (y : ElementId × A). y.0) (some_eq e)),
  )

  -- What is found at a slot is the map's element.
  pub content_found :
      (b : Block) (index : ℕ) (o : Option (Slot A)) (x : ElementId × A) (id : ElementId)
      → found_at b index o ≡ some x
      → same_id x.0 id ≡ true
      → (b.base ≡ id.slot_address.base)
        × (index ≡ id.slot_address.index)
        × (element_of o id.ordinal ≡ some x.1)
  content_found b index none x id e same = cc
  content_found b index (some slot) x id e same = elim (Bool-cases (is_live slot.header)) [
    | inr dead ↦ absurd (ground (arith, e))
    | inl live ↦
        let shown : named b index (ident slot.header) slot.value ≡ some x = rw live at e in
        let (value, name) = named_found b index (ident slot.header) slot.value x shown in
        let base : b.base ≡ x.0.slot_address.base = rw name refl in
        let place : index ≡ x.0.slot_address.index = rw name refl in
        let ordinal : ident slot.header ≡ x.0.ordinal = rw name refl in
        let own : (ident slot.header == id.ordinal) ≡ true = ground arith in
        (ground arith, ground arith, rw (live, own) value)
  ]

  -- What the map has is found at its slot.
  pub content_there :
      (b : Block) (index ordinal : ℕ) (o : Option (Slot A)) (e : A)
      → element_of o ordinal ≡ some e
      → found_at b index o ≡ named b index ordinal (some e)
  content_there b index ordinal none e h = cc
  content_there b index ordinal (some slot) e h =
      elim (Bool-cases (is_live slot.header && (ident slot.header == ordinal))) [
        | inr other ↦ absurd (no_element (rw other at h))
        | inl own ↦
            let live : is_live slot.header ≡ true = ground arith in
            let same : ident slot.header ≡ ordinal = ground arith in
            let value : slot.value ≡ some e = rw own at h in rw (live, same, value) refl
      ]

  pub held_sound :
      (h : Heap A) (bs : List Block) (last : ℕ) (id : ElementId) (e : A)
      → IsYielded id e (held (content h) bs last)
      → contents h.cell id ≡ some e
  unfolding held
  held_sound h [] last id e y = absurd y.0
  held_sound h (b ∷ rest) zero id e y = held_sound h rest (head_size rest) id e y
  held_sound h (b ∷ rest) (suc l) id e y = elim (Option-cases (content h b l)) [
    | inl nothing ↦ held_sound h (b ∷ rest) l id e (rw nothing at y)
    | inr (x, at) ↦
        let y' : IsYielded id e (x ∷ held (content h) (b ∷ rest) l) = rw at at y in
        elim y' [
          | inr older ↦ held_sound h (b ∷ rest) l id e older
          | inl (same, value) ↦
              let (base, index, element) =
                content_found b (scramble_slot b.len l) (h.cell b.base (scramble_slot b.len l)) x id
                  at same in
              rw (← base, ← index) (element ∙ rw value refl)
        ]
  ]

  pub held_complete :
      (h : Heap A) (bs : List Block) (last : ℕ) (id : ElementId) (e : A)
      → InChain bs last id.slot_address.base id.slot_address.index
      → contents h.cell id ≡ some e
      → IsYielded id e (held (content h) bs last)
  unfolding held
  held_complete h [] last id e inside there = absurd inside
  held_complete h (b ∷ rest) zero id e (inl (base, l, lt, same)) there = absurd (omega arith)
  held_complete h (b ∷ rest) zero id e (inr older) there =
      held_complete h rest (head_size rest) id e older there
  held_complete h (b ∷ rest) (suc last) id e (inr older) there =
      IsYielded-with_option id e _ _ (held_complete h (b ∷ rest) last id e (inr older) there)
  held_complete h (b ∷ rest) (suc last) id e (inl (base, l, lt, same)) there =
      elim (dec_lt l last) [
        | yes less ↦
            IsYielded-with_option id e _ _
              (held_complete h (b ∷ rest) last id e (inl (base, l, less, same)) there)
        | no ge ↦
            let here : l ≡ last = omega arith in
            let same_last : scramble_slot b.len last ≡ id.slot_address.index = rw (← here) same in
            let at =
              content_there b (scramble_slot b.len last) id.ordinal
                (h.cell b.base (scramble_slot b.len last)) e (rw (base, same_last) there) in
            rw at (inl (ground arith, refl))
      ]
