-- ===== src/Iter/Stores.antt =====
-- src/iter.rs, `IterMut` over a whole store.
use read_write_store.Prelude.{
  ℕ, zero, suc, ◌+◌, ◌<◌, ◌≡◌, refl, sym, ◌∙◌, ◌⊎◌, inl, inr, ◌&&◌, Option, none, some, List, [],
  ◌∷◌, ◌++◌, map, ok, ◌==◌, arith, Bool-cases, Option-cases, min, get_elem?,
}
use mathlib.Core.List.{reverse_aux}
use read_write_store.Header.Abstract.{ident, is_live, issued}
use read_write_store.Id.{ElementId}
use read_write_store.Slot.{Slot}
use read_write_store.Block.{Block, Heap}
use read_write_store.Bucket.{Bucket, head_size}
use read_write_store.Bucket.Chains.{AllBlocks}
use read_write_store.Bucket.Unused.{IsReady, no_block, in_block}
use read_write_store.Iter.{BucketIter, new_bucket_iter, new_iter, mut_take}
use read_write_store.Iter.Yields.{
  collect, collect_lem, held, all_held, count, AllTaken, IsTaken, IsWithin,
}
use read_write_store.Iter.Contents.{
  IsYielded, lookup, content, mut_take_lem, held_sound, held_complete,
}
use read_write_store.Store.{Store}
use read_write_store.Store.View.{same_id, contents, element_of, view}
use read_write_store.Store.Invariant.{IsStore}

abbrev pub iter_of : Bucket → BucketIter
iter_of b = new_bucket_iter b.next_unused_slot b.blocks

-- `IterMut::new` of a store, and `RwStore::into_iter`
abbrev pub iter_mut {ℓ} : {A : Type ℓ} → Store A → List BucketIter
iter_mut s = new_iter s.buckets

abbrev pub into_iter {ℓ} : {A : Type ℓ} → Store A → List BucketIter
into_iter s = new_iter s.buckets

module _ {ℓ} {A : Type ℓ} where
  -- A slot with an element under an ordinal has given that ordinal out.
  pub element_issued :
      (o : Option (Slot A)) (ordinal : ℕ) (e : A)
      → element_of o ordinal ≡ some e
      → (slot : Slot A) × (o ≡ some slot) × (0 < issued slot.header)
  element_issued none ordinal e h = absurd (ground arith)
  element_issued (some slot) ordinal e h =
      elim (Bool-cases (is_live slot.header && (ident slot.header == ordinal))) [
        | inr other ↦ let gone : none ≡ some e = rw other at h in absurd (ground arith)
        | inl own ↦ (slot, refl, ground arith)
      ]

  pub IsYielded-left :
      (id : ElementId) (e : A) (xs ys : List (ElementId × A))
      → IsYielded id e xs
      → IsYielded id e (xs ++ ys)
  IsYielded-left id e [] ys y = absurd y.0
  IsYielded-left id e (x ∷ xs) ys (inl y) = inl y
  IsYielded-left id e (x ∷ xs) ys (inr y) = inr (IsYielded-left id e xs ys y)

  pub IsYielded-right :
      (id : ElementId) (e : A) (xs ys : List (ElementId × A))
      → IsYielded id e ys
      → IsYielded id e (xs ++ ys)
  IsYielded-right id e [] ys y = y
  IsYielded-right id e (x ∷ xs) ys y = inr (IsYielded-right id e xs ys y)

  pub IsYielded-split :
      (id : ElementId) (e : A) (xs ys : List (ElementId × A))
      → IsYielded id e (xs ++ ys)
      → IsYielded id e xs ⊎ IsYielded id e ys
  IsYielded-split id e [] ys y = inr y
  IsYielded-split id e (x ∷ xs) ys (inl y) = inl (inl y)
  IsYielded-split id e (x ∷ xs) ys (inr y) = elim (IsYielded-split id e xs ys y) [
    | inl l ↦ inl (inr l)
    | inr r ↦ inr r
  ]

  pub lookup-IsYielded :
      (id : ElementId) (e : A) (es : List (ElementId × A))
      → lookup es id ≡ some e
      → IsYielded id e es
  lookup-IsYielded id e [] h = absurd (ground arith)
  lookup-IsYielded id e ((id', e') ∷ es) h = elim (Bool-cases (same_id id' id)) [
    | inl same ↦ let here : some e' ≡ some e = rw same at h in inl (same, cc)
    | inr other ↦ inr (lookup-IsYielded id e es (rw other at h))
  ]

  pub lookup_nothing :
      (id : ElementId) (e : A) (es : List (ElementId × A))
      → lookup es id ≡ none
      → IsYielded id e es
      → ⊥
  lookup_nothing id e [] h y = y.0
  lookup_nothing id e ((id', e') ∷ es) h (inl (same, value)) =
      let here : some e' ≡ none = rw same at h in ground arith
  lookup_nothing id e ((id', e') ∷ es) h (inr y) = elim (Bool-cases (same_id id' id)) [
    | inl same ↦ let here : some e' ≡ none = rw same at h in ground arith
    | inr other ↦ lookup_nothing id e es (rw other at h) y
  ]

  pub all_held_sound :
      (h : Heap A) (iters : List BucketIter) (id : ElementId) (e : A)
      → IsYielded id e (all_held (content h) iters)
      → contents h.cell id ≡ some e
  unfolding all_held
  all_held_sound h [] id e y = absurd y.0
  all_held_sound h (it ∷ iters) id e y =
      elim (IsYielded-split id e (held (content h) it.blocks it.last_slot) _ y) [
        | inl here ↦ held_sound h it.blocks it.last_slot id e here
        | inr later ↦ all_held_sound h iters id e later
      ]

  -- A bucket that has the element is reached.
  reversed_complete :
      (h : Heap A) (bs : List Bucket) (done : List BucketIter) (id : ElementId) (e : A)
      → IsYielded id e (all_held (content h) done)
        ⊎ ((i : ℕ) × (b : Bucket) × (get_elem? bs i ≡ some b)
            × IsYielded id e (held (content h) (iter_of b).blocks (iter_of b).last_slot))
      → IsYielded id e (all_held (content h) (reverse_aux (map iter_of bs) done))
  unfolding all_held
  reversed_complete h [] done id e (inl y) = y
  reversed_complete h [] done id e (inr (i, b, at, y)) = absurd (ground arith)
  reversed_complete h (c ∷ cs) done id e (inl y) =
      reversed_complete h cs (iter_of c ∷ done) id e
        (inl (IsYielded-right id e (held (content h) (iter_of c).blocks (iter_of c).last_slot) _ y))
  reversed_complete h (c ∷ cs) done id e (inr (zero, b, at, y)) =
      let same : c ≡ b = cc in
      reversed_complete h cs (iter_of c ∷ done) id e (
        inl (
          IsYielded-left id e (held (content h) (iter_of c).blocks (iter_of c).last_slot) _
            (rw same y)))
  reversed_complete h (c ∷ cs) done id e (inr (suc i, b, at, y)) =
      reversed_complete h cs (iter_of c ∷ done) id e (inr (i, b, at, y))

  reversed-AllTaken :
      (h : Heap A) (bs : List Bucket) (done : List BucketIter)
      → AllTaken mut_take (content h) h done
      → ((i : ℕ) (b : Bucket) → get_elem? bs i ≡ some b → IsTaken mut_take (content h) h b.blocks)
      → AllTaken mut_take (content h) h (reverse_aux (map iter_of bs) done)
  unfolding new_bucket_iter
  reversed-AllTaken h [] done all each = all
  reversed-AllTaken h (c ∷ cs) done all each =
      reversed-AllTaken h cs (iter_of c ∷ done) (within c.blocks, each 0 c refl, all)
        (λ i b at. each (suc i) b at)
    where
      within : (bs : List Block) → IsWithin bs (min c.next_unused_slot (head_size bs))
      within [] = omega arith
      within (b ∷ rest) = omega arith

  module _ {calls : ℕ} {s : Store A} (i : IsStore calls s) where
    blocks-IsTaken :
        (bs : List Block) → AllBlocks s.heap bs → IsTaken mut_take (content s.heap) s.heap bs
    blocks-IsTaken [] all = tt
    blocks-IsTaken (b ∷ rest) (one, all) = (
      λ l lt.
          mut_take_lem s.heap b l one
            (λ base index slot at used. (i.slots base index slot at).1.written used) lt,
      blocks-IsTaken rest all,
    )

    pub last_slot_ready :
        (b : Bucket) (touched : ℕ)
        → IsReady s.heap b touched
        → min b.next_unused_slot (head_size b.blocks) ≡ b.next_unused_slot
    last_slot_ready b touched (no_block store_id) = omega arith
    last_slot_ready b touched (in_block u count) = omega (arith, u.within, u.len)

    abbrev pub yielded : List (ElementId × A)
    yielded = all_held (content s.heap) (new_iter s.buckets)

    yielded_complete : (id : ElementId) (e : A) → view s id ≡ some e → IsYielded id e yielded
    unfolding new_iter new_bucket_iter
    yielded_complete id e there =
        let (slot, here, used) =
          element_issued (s.heap.cell id.slot_address.base id.slot_address.index) id.ordinal e
            there in
        let (j, b, at, inside) =
          i.owned id.slot_address.base id.slot_address.index slot here used in
        let (touched, le, r) = i.ready j b at in
        reversed_complete s.heap s.buckets [] id e (
          inr (
            j,
            b,
            at,
            rw (last_slot_ready b touched r)
                (held_complete s.heap b.blocks b.next_unused_slot id e inside there),
          ))

    pub collect-yielded :
        collect mut_take (count yielded + 1) (new_iter s.buckets) s.heap ≡ ok yielded
    unfolding new_iter
    collect-yielded =
        collect_lem mut_take (content s.heap) s.heap (count yielded + 1) (new_iter s.buckets)
          (reversed-AllTaken s.heap s.buckets [] tt
            (λ j b at. blocks-IsTaken b.blocks (i.chains j b at)))
          (omega arith)

    pub lookup-yielded : (id : ElementId) → lookup yielded id ≡ view s id
    lookup-yielded id = elim (Option-cases (lookup yielded id)) [
      | inr (e, at) ↦
          at
          ∙ sym (all_held_sound s.heap (new_iter s.buckets) id e (lookup-IsYielded id e yielded at))
      | inl nothing ↦ elim (Option-cases (view s id)) [
        | inl gone ↦ nothing ∙ sym gone
        | inr (e, there) ↦
            absurd (lookup_nothing id e yielded nothing (yielded_complete id e there))
      ]
    ]

    -- Iterating over a store that is in order ends and does not panic, and what it yields is the
    -- map that the store stands for: the first pair yielded under an ID holds the ID's element,
    -- and there is none under an ID that has no element. The iteration is that of `iter_mut`, one
    -- call of `next` for each element and a last one.
    pub collect-new_iter :
        (es : List (ElementId × A)) × (collect mut_take (count es + 1) (iter_mut s) s.heap ≡ ok es)
        × ((id : ElementId) → lookup es id ≡ view s id)
    collect-new_iter = (yielded, collect-yielded, lookup-yielded)
