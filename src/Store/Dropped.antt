-- ===== src/Store/Dropped.antt =====
-- src/lib.rs: dropping a store drops its elements, each once.
use read_write_store.Prelude.{
  ℕ, zero, suc, ◌+◌, ◌^◌, ◌≤◌, ◌<◌, ◌≡◌, ◌≢◌, refl, sym, ◌∙◌, inl, inr, some, List, [], ◌∷◌, Option,
  Check, ok, arith, Option-cases, get_elem?, ℕ_discrete,
}
use read_write_store.Id.{ElementId}
use read_write_store.Block.{Block, Heap, scramble_slot}
use read_write_store.Block.Scramble.{scramble_slot-lt}
use read_write_store.Bucket.{Bucket, head_size}
use read_write_store.Bucket.Chains.{AllBlocks, Descending, HasBlock, HasBlock-lt, InChain}
use read_write_store.Bucket.Unused.{IsReady, no_block, in_block}
use read_write_store.Iter.Contents.{
  IsYielded, IsYielded-with_option, lookup, found_at, content_found, content_there,
}
use read_write_store.Iter.Stores.{
  IsYielded-left, IsYielded-right, IsYielded-split, lookup-IsYielded, lookup_nothing,
  element_issued,
}
use read_write_store.Iter.Once.{NoTwice, NoTwice-append}
use read_write_store.Iter.Owned.{IsUnlocked}
use read_write_store.Store.{Store, drop_store}
use read_write_store.Store.View.{contents, view}
use read_write_store.Store.Dropping.{
  slots_hold, blocks_hold, buckets_hold, IsTransparent, drop_buckets_lem,
}
use read_write_store.Store.Invariant.{IsStore, Apart}

module _ {ℓ} {A : Type ℓ} where
  -- What is logged for a slot, or for one behind it, belongs to the map, in that block.
  slots_sound :
      (h : Heap A) (b : Block) (slots index : ℕ) (id : ElementId) (e : A)
      → IsYielded id e (slots_hold h b slots index)
      → (b.base ≡ id.slot_address.base)
        × (index ≤ id.slot_address.index)
        × (contents h.cell id ≡ some e)
  unfolding slots_hold
  slots_sound h b zero index id e y = absurd y.0
  slots_sound h b (suc slots) index id e y =
      elim (Option-cases (found_at b index (h.cell b.base index))) [
        | inl nothing ↦
            let (base, le, there) = slots_sound h b slots (index + 1) id e (rw nothing at y) in
            (base, omega arith, there)
        | inr (x, at) ↦
            let y' : IsYielded id e (x ∷ slots_hold h b slots (index + 1)) = rw at at y in
            elim y' [
              | inr later ↦
                  let (base, le, there) = slots_sound h b slots (index + 1) id e later in
                  (base, omega arith, there)
              | inl (same, value) ↦
                  let (base, place, element) =
                    content_found b index (h.cell b.base index) x id at same in
                  (base, omega arith, rw (← base, ← place) (element ∙ rw value refl))
            ]
      ]

  slots_complete :
      (h : Heap A) (b : Block) (slots index : ℕ) (id : ElementId) (e : A)
      → b.base ≡ id.slot_address.base
      → index ≤ id.slot_address.index
      → id.slot_address.index < index + slots
      → contents h.cell id ≡ some e
      → IsYielded id e (slots_hold h b slots index)
  unfolding slots_hold
  slots_complete h b zero index id e base le lt there = absurd (omega arith)
  slots_complete h b (suc slots) index id e base le lt there =
      elim (ℕ_discrete index id.slot_address.index) [
        | no ne ↦
            IsYielded-with_option id e _ _
              (slots_complete h b slots (index + 1) id e base (omega arith) (omega arith) there)
        | yes here ↦
            let at =
              content_there b index id.ordinal (h.cell b.base index) e (rw (base, here) there) in
            rw at (inl (ground arith, refl))
      ]

  slots-NoTwice : (h : Heap A) (b : Block) (slots index : ℕ) → NoTwice (slots_hold h b slots index)
  unfolding slots_hold
  slots-NoTwice h b zero index = tt
  slots-NoTwice h b (suc slots) index =
      let others = slots-NoTwice h b slots (index + 1) in
      elim (Option-cases (found_at b index (h.cell b.base index))) [
        | inl nothing ↦ rw nothing others
        | inr (x, at) ↦ rw at (
            (
              λ e y.
                  let (base, place, element) =
                    content_found b index (h.cell b.base index) x x.0 at (ground arith) in
                  let (base', le, there) = slots_sound h b slots (index + 1) x.0 e y in
                  absurd (omega arith),
              others,
            ))
      ]

  blocks_sound :
      (h : Heap A) (bs : List Block) (id : ElementId) (e : A)
      → IsYielded id e (blocks_hold h bs)
      → HasBlock bs id.slot_address.base × (contents h.cell id ≡ some e)
  unfolding blocks_hold
  blocks_sound h [] id e y = absurd y.0
  blocks_sound h (b ∷ rest) id e y = elim (IsYielded-split id e (blocks_hold h rest) _ y) [
    | inl older ↦ let (has, there) = blocks_sound h rest id e older in (inr has, there)
    | inr own ↦ let (base, le, there) = slots_sound h b b.len 0 id e own in (inl base, there)
  ]

  blocks_complete :
      (h : Heap A) (bs : List Block) (last : ℕ) (id : ElementId) (e : A)
      → AllBlocks h bs
      → last ≤ head_size bs
      → InChain bs last id.slot_address.base id.slot_address.index
      → contents h.cell id ≡ some e
      → IsYielded id e (blocks_hold h bs)
  unfolding blocks_hold
  blocks_complete h [] last id e all le inside there = absurd inside
  blocks_complete h (b ∷ rest) last id e (one, all) le (inr older) there =
      IsYielded-left id e (blocks_hold h rest) _
        (blocks_complete h rest (head_size rest) id e all (omega arith) older there)
  blocks_complete h (b ∷ rest) last id e (one, all) le (inl (base, l, lt, same)) there =
      let len = one.len in
      let inside = scramble_slot-lt one.k one.small l (omega arith) in
      let index : scramble_slot (2 ^ one.k) l ≡ id.slot_address.index = rw (← len) same in
      IsYielded-right id e (blocks_hold h rest) _
        (slots_complete h b b.len 0 id e base (omega arith) (omega arith) there)

  blocks-NoTwice :
      (h : Heap A) (bs : List Block) (bound : ℕ) → Descending bound bs → NoTwice (blocks_hold h bs)
  unfolding blocks_hold
  blocks-NoTwice h [] bound d = tt
  blocks-NoTwice h (b ∷ rest) bound (below, d) =
      NoTwice-append (blocks_hold h rest) _ (blocks-NoTwice h rest b.base d)
        (slots-NoTwice h b b.len 0)
        (λ id e e' older own.
          let (has, there) = blocks_sound h rest id e older in
          let (base, le, there') = slots_sound h b b.len 0 id e' own in
          let less = HasBlock-lt b.base id.slot_address.base rest d has in absurd (omega arith))

  buckets_sound :
      (h : Heap A) (bs : List Bucket) (id : ElementId) (e : A)
      → IsYielded id e (buckets_hold h bs)
      → ((j : ℕ) × (b : Bucket) × (get_elem? bs j ≡ some b)
          × HasBlock b.blocks id.slot_address.base)
        × (contents h.cell id ≡ some e)
  unfolding buckets_hold
  buckets_sound h [] id e y = absurd y.0
  buckets_sound h (b ∷ rest) id e y = elim (IsYielded-split id e (blocks_hold h b.blocks) _ y) [
    | inl here ↦ let (has, there) = blocks_sound h b.blocks id e here in ((0, b, refl, has), there)
    | inr later ↦
        let ((j, c, at, has), there) = buckets_sound h rest id e later in
        ((suc j, c, at, has), there)
  ]

  buckets_complete :
      (h : Heap A) (bs : List Bucket) (j : ℕ) (b : Bucket) (id : ElementId) (e : A)
      → get_elem? bs j ≡ some b
      → IsYielded id e (blocks_hold h b.blocks)
      → IsYielded id e (buckets_hold h bs)
  unfolding buckets_hold
  buckets_complete h [] j b id e at y = cc
  buckets_complete h (c ∷ rest) zero b id e at y =
      let same : c ≡ b = cc in IsYielded-left id e (blocks_hold h c.blocks) _ (rw same y)
  buckets_complete h (c ∷ rest) (suc j) b id e at y =
      IsYielded-right id e (blocks_hold h c.blocks) _ (buckets_complete h rest j b id e at y)

  buckets-NoTwice :
      (h : Heap A) (bs : List Bucket) (bound : ℕ)
      → ((j : ℕ) (b : Bucket) → get_elem? bs j ≡ some b → Descending bound b.blocks)
      → ((j k : ℕ) (b c : Bucket)
          → get_elem? bs j ≡ some b
          → get_elem? bs k ≡ some c
          → j ≢ k
          → Apart b c)
      → NoTwice (buckets_hold h bs)
  unfolding buckets_hold
  buckets-NoTwice h [] bound linear apart = tt
  buckets-NoTwice h (b ∷ rest) bound linear apart =
      NoTwice-append (blocks_hold h b.blocks) _ (blocks-NoTwice h b.blocks bound (linear 0 b refl))
        (buckets-NoTwice h rest bound (λ j c at. linear (suc j) c at)
          (λ j k c d at at' ne. apart (suc j) (suc k) c d at at' (λ e. ne (omega arith))))
        (λ id e e' here later.
          let (has, there) = blocks_sound h b.blocks id e here in
          let ((j, c, at, has'), there') = buckets_sound h rest id e' later in
          apart 0 (suc j) b c refl at (λ z. absurd (omega arith)) id.slot_address.base has has')

  last-le :
      (h : Heap A) (b : Bucket) (touched : ℕ)
      → IsReady h b touched
      → b.next_unused_slot ≤ head_size b.blocks
  last-le h b touched (no_block store_id) = omega arith
  last-le h b touched (in_block u count) = omega (arith, u.within, u.len)

  module _ {calls : ℕ} {s : Store A} (i : IsStore calls s) (unlocked : IsUnlocked s.heap) where
    dropped_complete :
        (id : ElementId) (e : A)
        → view s id ≡ some e
        → IsYielded id e (buckets_hold s.heap s.buckets)
    dropped_complete id e there =
        let (slot, here, used) =
          element_issued (s.heap.cell id.slot_address.base id.slot_address.index) id.ordinal e
            there in
        let (j, b, at, inside) =
          i.owned id.slot_address.base id.slot_address.index slot here used in
        let (touched, le, r) = i.ready j b at in
        buckets_complete s.heap s.buckets j b id e at (
          blocks_complete s.heap b.blocks b.next_unused_slot id e (i.chains j b at)
            (last-le s.heap b touched r) inside there)

    -- For elements that are found through a pointer to an `Option` that holds them, dropping a
    -- store that is in order and of which no slot is locked does not panic, and drops the elements
    -- of the map that the store stands for, each once, and nothing else: under every ID the first
    -- element dropped is the map's, none is where the map has none, and no ID comes twice.
    pub drop_store-view :
        (cast : Option A → Check A)
        → IsTransparent cast
        → (es : List (ElementId × A)) × (drop_store cast s ≡ ok es)
          × ((id : ElementId) → lookup es id ≡ view s id)
          × NoTwice es
    unfolding drop_store
    drop_store-view cast found =
        let all = buckets_hold s.heap s.buckets in
        (
          all,
          drop_buckets_lem cast found s.heap s.buckets
              (λ base index slot at.
                let good = (i.slots base index slot at).1 in
                let word = good.word in (word.fits, unlocked base index slot at, good.written))
              i.chains,
          λ id. elim (Option-cases (lookup all id)) [
            | inr (e, at) ↦
                at ∙ sym (buckets_sound s.heap s.buckets id e (lookup-IsYielded id e all at)).1
            | inl nothing ↦ elim (Option-cases (view s id)) [
              | inl gone ↦ nothing ∙ sym gone
              | inr (e, there) ↦
                  absurd (lookup_nothing id e all nothing (dropped_complete id e there))
            ]
          ],
          buckets-NoTwice s.heap s.buckets s.heap.next_base i.linear i.apart,
        )
