-- ===== src/Store/Invariant/Puts.antt =====
-- src/lib.rs, the state of a store when one of its slots changes.
use read_write_store.Prelude.{
  ℕ, ◌+◌, ◌≤◌, ◌<◌, ◌≡◌, ◌≢◌, ◌⊎◌, inl, inr, false, ◌&&◌, some, List, [], ◌∷◌, ◌==◌, arith,
  Bool-cases,
}
use read_write_store.Header.Word.{reserved}
use read_write_store.Id.{Address, same_address}
use read_write_store.Slot.{Slot}
use read_write_store.Slot
use read_write_store.Block.{Heap, put}
use read_write_store.Bucket.{Bucket}
use read_write_store.Bucket.Chains.{AllBlocks-kept}
use read_write_store.Bucket.Unused.{IsReady}
use read_write_store.Store.{Store}
use read_write_store.Store.Invariant.{
  IsOther, IsSlot, IsErased, AllErased, IsStore, IsReady-kept, put_other, put-Keeps,
}

module _ {ℓ} {A : Type ℓ} where
  pub IsSlot-mono : {calls : ℕ} {s : Slot A} → IsSlot calls s → IsSlot (calls + 1) s
  IsSlot-mono i = record { word = i.word; written = i.written; few = omega (arith, i.few) }

  -- A slot that is live, or was never used, is not in the queue of erasures.
  pub erased_elsewhere :
      {h : Heap A} {b : Address} (a : Address) (slot : Slot A)
      → h.cell a.base a.index ≡ some slot
      → (slot.header ≡ 0) ⊎ (reserved ≤ slot.header)
      → IsErased h b
      → same_address a b ≡ false
  erased_elsewhere {h} {b} a slot at out er = elim (Bool-cases (same_address a b)) [
    | inr no_match ↦ no_match
    | inl e ↦
        let base : a.base ≡ b.base = ground arith in
        let index : a.index ≡ b.index = ground arith in
        let same : some er.slot ≡ some slot = rw (base, index, er.at) at at in
        absurd (ground (arith, er.used, er.reusable))
  ]

  pub AllErased-elsewhere :
      (h : Heap A) (a : Address) (slot : Slot A)
      → h.cell a.base a.index ≡ some slot
      → (slot.header ≡ 0) ⊎ (reserved ≤ slot.header)
      → (bs : List Address) → AllErased h bs
      → IsOther a bs
  AllErased-elsewhere h a slot at out [] er = tt
  AllErased-elsewhere h a slot at out (b ∷ bs) er =
      (erased_elsewhere a slot at out er.0, AllErased-elsewhere h a slot at out bs er.1)

  -- The erasures of a heap that has the same slots at their addresses.
  pub AllErased-kept :
      (h h' : Heap A) (bs : List Address)
      → AllErased h bs
      → ((b : Address) → IsErased h b → h'.cell b.base b.index ≡ h.cell b.base b.index)
      → AllErased h' bs
  AllErased-kept h h' [] er kept = tt
  AllErased-kept h h' (b ∷ bs) er kept = (
    record {
      slot = er.0.slot;
      at = rw (kept b er.0) er.0.at;
      used = er.0.used;
      reusable = er.0.reusable;
    },
    AllErased-kept h h' bs er.1 kept,
  )

  pub AllErased-put :
      (h : Heap A) (a : Address) (slot' : Slot A) (bs : List Address)
      → IsOther a bs
      → AllErased h bs
      → AllErased (record h { cell = put a slot' h.cell }) bs
  AllErased-put h a slot' [] other er = tt
  AllErased-put h a slot' (b ∷ bs) other er = (
    record {
      slot = er.0.slot;
      at = rw (other.0) er.0.at;
      used = er.0.used;
      reusable = er.0.reusable;
    },
    AllErased-put h a slot' bs other.1 er.1,
  )

  pub IsReady-put :
      {h : Heap A} {b : Bucket} {touched : ℕ} (a : Address) (slot slot' : Slot A)
      → h.cell a.base a.index ≡ some slot
      → slot.header ≢ 0
      → IsReady h b touched
      → IsReady (record h { cell = put a slot' h.cell }) b touched
  unfolding Slot.new
  IsReady-put {h} a slot slot' at ne ready =
      IsReady-kept ready (omega arith) (λ base index head known e. kept base index e)
    where
      kept :
          (base index : ℕ)
          → h.cell base index ≡ some Slot.new
          → put a slot' h.cell base index ≡ some Slot.new
      kept base index e = elim (Bool-cases ((a.base == base) && (a.index == index))) [
        | inr no_match ↦ rw no_match e
        | inl t ↦
            let same_base : a.base ≡ base = ground arith in
            let same_index : a.index ≡ index = ground arith in
            let same : some Slot.new ≡ some slot = rw (same_base, same_index, e) at at in
            absurd (ground (arith, ne))
      ]

  -- The store with another slot at an address.
  abbrev pub with_cell : Store A → Address → Slot A → Store A
  with_cell s a slot = record s { heap = record (s.heap) { cell = put a slot s.heap.cell } }

  -- A change of a slot that is not unused, nor in the queue.
  pub IsStore-put :
      {calls : ℕ} {s : Store A} (a : Address) (slot slot' : Slot A)
      → IsStore calls s
      → s.heap.cell a.base a.index ≡ some slot
      → slot.header ≢ 0
      → IsOther a s.erasures
      → IsSlot (calls + 1) slot'
      → IsStore (calls + 1) (with_cell s a slot')
  IsStore-put {calls} {s} a slot slot' i at ne other good = record {
    size = i.size;
    ready = λ j b e.
        let (touched, le, r) = i.ready j b e in
        (touched, omega arith, IsReady-put a slot slot' at ne r);
    apart = i.apart;
    linear = i.linear;
    slots = λ base index found e. elim (put_other a found slot' s.heap.cell base index e) [
      | inl (eb, ei, same) ↦ rw (← eb, same) ((i.slots a.base a.index slot at).0, good)
      | inr old ↦ let (known, g) = i.slots base index found old in (known, IsSlot-mono g)
    ];
    erased = AllErased-put s.heap a slot' s.erasures other i.erased;
    distinct = i.distinct;
    chains = λ j b e. AllBlocks-kept s.heap _ b.blocks (put-Keeps a slot' s.heap) (i.chains j b e);
    owned = λ base index found e used. elim (put_other a found slot' s.heap.cell base index e) [
      | inl (eb, ei, same) ↦ rw (← eb, ← ei) (i.owned a.base a.index slot at (ground (arith, ne)))
      | inr old ↦ i.owned base index found old used
    ];
  }

  pub IsStore-same : {calls : ℕ} {s : Store A} → IsStore calls s → IsStore (calls + 1) s
  IsStore-same i = record {
    size = i.size;
    ready = λ j b e. let (touched, le, r) = i.ready j b e in (touched, omega arith, r);
    apart = i.apart;
    linear = i.linear;
    slots =
        λ base index found e. let (known, g) = i.slots base index found e in (known, IsSlot-mono g);
    erased = i.erased;
    distinct = i.distinct;
    chains = i.chains;
    owned = i.owned;
  }

  -- A slot that was vacated, and not for good, is put into the queue.
  pub IsStore-push :
      {calls : ℕ} {s : Store A} (a : Address) (slot : Slot A)
      → IsStore calls s
      → s.heap.cell a.base a.index ≡ some slot
      → 0 < slot.header
      → slot.header < reserved
      → IsOther a s.erasures
      → IsStore calls (record s { erasures = a ∷ s.erasures })
  IsStore-push a slot i at used reusable other = record {
    size = i.size;
    ready = i.ready;
    apart = i.apart;
    linear = i.linear;
    slots = i.slots;
    erased = (record { slot = slot; at = at; used = used; reusable = reusable }, i.erased);
    distinct = (other, i.distinct);
    chains = i.chains;
    owned = i.owned;
  }
