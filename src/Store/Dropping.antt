-- ===== src/Store/Dropping.antt =====
-- src/block.rs and src/lib.rs: what is dropped with a store.
use read_write_store.Prelude.{
  ℕ, zero, suc, ◌+◌, ◌^◌, ◌<◌, ◌≡◌, refl, ◌⊎◌, inl, inr, Option, none, some, List, [], ◌∷◌, ◌++◌,
  Check, ok, arith, Bool-cases, get_elem?,
}
use read_write_store.Header.Abstract.{ident, is_live, issued}
use read_write_store.Header.Code.{needs_drop, current_id}
use read_write_store.Header.Exclusive.{drop_header_lem}
use read_write_store.Header.Word.Laws.{is_occupied_lem, id_from_bits_lem}
use read_write_store.Id.{ElementId}
use read_write_store.Slot.{Slot}
use read_write_store.Slot
use read_write_store.Block.{Block, Heap, drop_slots, drop_blocks, logged}
use read_write_store.Bucket.{Bucket}
use read_write_store.Bucket.Chains.{AllBlocks}
use read_write_store.Iter.Yields.{with_option}
use read_write_store.Iter.Contents.{found_at}
use read_write_store.Store.{drop_buckets}

module _ {ℓ} {A : Type ℓ} where
  -- A slot that may be dropped: nobody has a lock, and it holds an element if it is occupied.
  abbrev pub CanDrop : Slot A → Type ℓ
  CanDrop slot =
      (slot.header < 2 ^ 64)
      × ((slot.header < 2 ^ 32) ⊎ (slot.header ≡ 2 ^ 63 + ident slot.header))
      × (0 < issued slot.header → (e : A) × (slot.value ≡ some e))

  -- An element is found through a pointer to an `Option` that holds it, as for the types for which
  -- Rust says that their `Option` has their representation: references, `Box`, `NonNull`.
  abbrev pub IsTransparent : (Option A → Check A) → Type ℓ
  IsTransparent cast = (e : A) → cast (some e) ≡ ok e

  -- What dropping a slot logs is what an iteration would have found there.
  drop_slot_lem :
      (cast : Option A → Check A)
      → IsTransparent cast
      → (b : Block) (index : ℕ) (slot : Slot A) (rest : List (ElementId × A)) → CanDrop slot
      → (dropped : Option (ℕ × A)) × (Slot.drop_slot cast slot ≡ ok dropped)
        × (logged b index dropped rest ≡ with_option (found_at b index (some slot)) rest)
  unfolding Slot.drop_slot needs_drop current_id
  drop_slot_lem cast found b index slot rest (fits, unlocked, written) =
      let header = drop_header_lem slot.header fits unlocked in
      elim (Bool-cases (is_live slot.header)) [
        | inr dead ↦ (none, rw (is_occupied_lem slot.header, dead, header) refl, rw dead refl)
        | inl live ↦
            let (e, v) = written (ground arith) in
            (
              some (ident slot.header, e),
              rw
                  (
                    is_occupied_lem slot.header,
                    live,
                    v,
                    found e,
                    header,
                    id_from_bits_lem slot.header,
                  )
                  refl,
              rw (live, v) refl,
            )
      ]

  -- What stands in the slots of a block from `index` on, and in a chain, the oldest block first.
  unfoldable pub slots_hold : Heap A → Block → ℕ → ℕ → List (ElementId × A)
  slots_hold h b zero index = []
  slots_hold h b (suc slots) index =
      with_option (found_at b index (h.cell b.base index)) (slots_hold h b slots (index + 1))

  unfoldable pub blocks_hold : Heap A → List Block → List (ElementId × A)
  blocks_hold h [] = []
  blocks_hold h (b ∷ rest) = blocks_hold h rest ++ slots_hold h b b.len 0

  unfoldable pub buckets_hold : Heap A → List Bucket → List (ElementId × A)
  buckets_hold h [] = []
  buckets_hold h (b ∷ rest) = blocks_hold h b.blocks ++ buckets_hold h rest

  abbrev pub AllCanDrop : Heap A → Type ℓ
  AllCanDrop h = (base index : ℕ) (slot : Slot A) → h.cell base index ≡ some slot → CanDrop slot

  drop_slots_lem :
      (cast : Option A → Check A)
      → IsTransparent cast
      → (h : Heap A) (b : Block) (k slots index : ℕ) → AllCanDrop h
      → ((i : ℕ) → i < 2 ^ k → (slot : Slot A) × (h.cell b.base i ≡ some slot))
      → index + slots ≡ 2 ^ k
      → drop_slots cast b slots index h ≡ ok (slots_hold h b slots index)
  unfolding drop_slots slots_hold
  drop_slots_lem cast found h b k zero index can filled e = refl
  drop_slots_lem cast found h b k (suc slots) index can filled e =
      let (slot, at) = filled index (omega arith) in
      let (dropped, runs, logs) =
        drop_slot_lem cast found b index slot (slots_hold h b slots (index + 1))
          (can b.base index slot at) in
      rw
        (at, runs, drop_slots_lem cast found h b k slots (index + 1) can filled (omega arith), logs)
        refl

  drop_blocks_lem :
      (cast : Option A → Check A)
      → IsTransparent cast
      → (h : Heap A) (bs : List Block) → AllCanDrop h
      → AllBlocks h bs
      → drop_blocks cast bs h ≡ ok (blocks_hold h bs)
  unfolding drop_blocks blocks_hold
  drop_blocks_lem cast found h [] can all = refl
  drop_blocks_lem cast found h (b ∷ rest) can (one, all) =
      let len = one.len in
      rw
        (
          drop_blocks_lem cast found h rest can all,
          drop_slots_lem cast found h b one.k b.len 0 can one.filled (omega arith),
        )
        refl

  pub drop_buckets_lem :
      (cast : Option A → Check A)
      → IsTransparent cast
      → (h : Heap A) (bs : List Bucket) → AllCanDrop h
      → ((j : ℕ) (b : Bucket) → get_elem? bs j ≡ some b → AllBlocks h b.blocks)
      → drop_buckets cast bs h ≡ ok (buckets_hold h bs)
  unfolding drop_buckets buckets_hold
  drop_buckets_lem cast found h [] can all = refl
  drop_buckets_lem cast found h (b ∷ rest) can all =
      rw
        (
          drop_blocks_lem cast found h b.blocks can (all 0 b refl),
          drop_buckets_lem cast found h rest can (λ j c at. all (suc j) c at),
        )
        refl
