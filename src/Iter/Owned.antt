-- ===== src/Iter/Owned.antt =====
-- src/iter.rs, `IntoIter` over a whole store, which nobody else has: it moves the elements out.
use read_write_store.Prelude.{
  ℕ, suc, ◌+◌, ◌^◌, ◌<◌, ◌≡◌, ◌≢◌, refl, ◌∙◌, ◌⊎◌, inl, inr, ◌&&◌, true, false, none, some, List,
  [], ◌∷◌, map, ok, ◌==◌, arith, Bool-cases, min, get_elem?,
}
use mathlib.Core.List.{reverse_aux}
use read_write_store.Header.Abstract.{ident, is_live, issued}
use read_write_store.Header.Exclusive.{reset_lem}
use read_write_store.Id.{ElementId}
use read_write_store.Slot.{Slot}
use read_write_store.Slot
use read_write_store.Block.{Block, Heap, put, scramble_slot}
use read_write_store.Block
use read_write_store.Block.Scramble.{scramble_slot-lt}
use read_write_store.Bucket.{Bucket, head_size}
use read_write_store.Bucket.Chains.{AllBlocks, IsBlock, Descending, HasBlock}
use read_write_store.Bucket.Unused.{slot_address_lem}
use read_write_store.Iter.{BucketIter, new_bucket_iter, new_iter, owned_take, mut_take}
use read_write_store.Iter.Yields.{collect, count, IsWithin}
use read_write_store.Iter.Contents.{lookup, content, found_at}
use read_write_store.Iter.Stores.{
  iter_of, iter_mut, into_iter, yielded, collect-yielded, lookup-yielded,
}
use read_write_store.Iter.Once.{AllSized, ItersSized, NoTwice, all_held-NoTwice}
use read_write_store.Iter.Places.{Separate, HasIter}
use read_write_store.Iter.Drains.{IsDrained, AllDrained, SameIn, collect-drained}
use read_write_store.Store.{Store}
use read_write_store.Store.View.{view}
use read_write_store.Store.Invariant.{IsStore, Apart}

IsWithin-newest : (last : ℕ) (bs : List Block) → IsWithin bs (min last (head_size bs))
IsWithin-newest last [] = omega arith
IsWithin-newest last (b ∷ rest) = omega arith

module _ {ℓ} {A : Type ℓ} where
  -- Nobody has a lock, as when the store is moved.
  abbrev pub IsUnlocked : Heap A → Type ℓ
  IsUnlocked h =
      (base index : ℕ) (slot : Slot A)
      → h.cell base index ≡ some slot
      → (slot.header < 2 ^ 32) ⊎ (slot.header ≡ 2 ^ 63 + ident slot.header)

  abbrev vacated : Slot A → Slot A
  vacated slot = record slot { header = ident slot.header }

  take_dead :
      (slot : Slot A)
      → slot.header < 2 ^ 64
      → (slot.header < 2 ^ 32) ⊎ (slot.header ≡ 2 ^ 63 + ident slot.header)
      → is_live slot.header ≡ false
      → Slot.take slot ≡ ok (vacated slot, none)
  unfolding Slot.take
  take_dead slot fits unlocked dead = rw (reset_lem slot.header fits unlocked, dead) refl

  take_live :
      (slot : Slot A) (e : A)
      → slot.header < 2 ^ 64
      → (slot.header < 2 ^ 32) ⊎ (slot.header ≡ 2 ^ 63 + ident slot.header)
      → is_live slot.header ≡ true
      → slot.value ≡ some e
      → Slot.take slot ≡ ok (vacated slot, some (ident slot.header, e))
  unfolding Slot.take
  take_live slot e fits unlocked live v = rw (reset_lem slot.header fits unlocked, live, v) refl

  put_elsewhere :
      (h : Heap A) (b : Block) (index : ℕ) (slot : Slot A)
      → SameIn
          (λ base i. (b.base ≡ base) × (index ≡ i) → ⊥)
          h
          (record h { cell = put (record { base = b.base; index = index }) slot h.cell })
  put_elsewhere h b index slot base i out = elim (Bool-cases ((b.base == base) && (index == i))) [
    | inl here ↦ absurd (out (ground arith, ground arith))
    | inr there ↦ rw there refl
  ]

  owned_take_at :
      (h : Heap A) (b : Block) (l index : ℕ) (slot : Slot A)
      → Block.slot_address b l ≡ ok (record { base = b.base; index = index })
      → h.cell b.base index ≡ some slot
      → slot.header < 2 ^ 64
      → (slot.header < 2 ^ 32) ⊎ (slot.header ≡ 2 ^ 63 + ident slot.header)
      → (0 < issued slot.header → (e : A) × (slot.value ≡ some e))
      → owned_take b l h
        ≡ ok (
          record h { cell = put (record { base = b.base; index = index }) (vacated slot) h.cell },
          found_at b index (some slot),
        )
  unfolding Block.take Block.on_slot
  owned_take_at h b l index slot address at fits unlocked written =
      elim (Bool-cases (is_live slot.header)) [
        | inr dead ↦ rw (address, at, take_dead slot fits unlocked dead, dead) refl
        | inl live ↦
            let (e, v) = written (ground arith) in
            rw (address, at, take_live slot e fits unlocked live v, live, v) refl
      ]

  owned_take_lem :
      (origin : Heap A) (b : Block)
      → IsBlock origin b
      → IsUnlocked origin
      → ((base index : ℕ) (slot : Slot A)
          → origin.cell base index ≡ some slot
          → (slot.header < 2 ^ 64) × (0 < issued slot.header → (e : A) × (slot.value ≡ some e)))
      → (l : ℕ) → l < b.len
      → (h : Heap A)
      → h.cell b.base (scramble_slot b.len l) ≡ origin.cell b.base (scramble_slot b.len l)
      → (h' : Heap A) × (owned_take b l h ≡ ok (h', content origin b l))
        × SameIn (λ base index. (b.base ≡ base) × (scramble_slot b.len l ≡ index) → ⊥) h h'
  owned_take_lem origin b one unlocked good l lt h same =
      let len = one.len in
      let inside : l < 2 ^ one.k = omega arith in
      let address = slot_address_lem b one.k l one.small one.len inside in
      let (slot, at) =
        one.filled (scramble_slot (2 ^ one.k) l) (scramble_slot-lt one.k one.small l inside) in
      let index : scramble_slot b.len l ≡ scramble_slot (2 ^ one.k) l = rw len refl in
      let at_origin : origin.cell b.base (scramble_slot b.len l) ≡ some slot = rw index at in
      let (fits, written) = good b.base (scramble_slot b.len l) slot at_origin in
      let runs =
        owned_take_at h b l (scramble_slot b.len l) slot (rw index address) (same ∙ at_origin) fits
          (unlocked b.base (scramble_slot b.len l) slot at_origin) written in
      (
        record h {
          cell =
              put (record { base = b.base; index = scramble_slot b.len l }) (vacated slot) h.cell;
        },
        rw at_origin runs,
        put_elsewhere h b (scramble_slot b.len l) (vacated slot),
      )

  module _ {calls : ℕ} {s : Store A} (i : IsStore calls s) (unlocked : IsUnlocked s.heap) where
    blocks-IsDrained :
        (bs : List Block) → AllBlocks s.heap bs → IsDrained owned_take (content s.heap) s.heap bs
    blocks-IsDrained [] all = tt
    blocks-IsDrained (b ∷ rest) (one, all) = (
      (one.k, one.small, one.len),
      owned_take_lem s.heap b one unlocked (λ base index slot at.
          let good = (i.slots base index slot at).1 in
          let word = good.word in (word.fits, good.written)),
      blocks-IsDrained rest all,
    )

  reversed-AllDrained :
      (h : Heap A) (bs : List Bucket) (done : List BucketIter)
      → AllDrained owned_take (content h) h done
      → ((j : ℕ) (b : Bucket)
          → get_elem? bs j ≡ some b
          → IsDrained owned_take (content h) h b.blocks)
      → AllDrained owned_take (content h) h (reverse_aux (map iter_of bs) done)
  unfolding new_bucket_iter
  reversed-AllDrained h [] done all each = all
  reversed-AllDrained h (c ∷ cs) done all each =
      reversed-AllDrained h cs (iter_of c ∷ done)
        (IsWithin-newest c.next_unused_slot c.blocks, each 0 c refl, all)
        (λ j b at. each (suc j) b at)

-- The iterators of the buckets, the last bucket's first.
reversed-Separate :
    (bound : ℕ) (bs : List Bucket) (done : List BucketIter)
    → Separate bound done
    → ((j : ℕ) (b : Bucket) → get_elem? bs j ≡ some b → Descending bound b.blocks)
    → ((j : ℕ) (b : Bucket)
        → get_elem? bs j ≡ some b
        → (base : ℕ) → HasBlock b.blocks base
        → HasIter done base
        → ⊥)
    → ((j k : ℕ) (b c : Bucket)
        → get_elem? bs j ≡ some b
        → get_elem? bs k ≡ some c
        → j ≢ k
        → Apart b c)
    → Separate bound (reverse_aux (map iter_of bs) done)
unfolding new_bucket_iter
reversed-Separate bound [] done separate linear out apart = separate
reversed-Separate bound (c ∷ cs) done separate linear out apart =
    reversed-Separate bound cs (iter_of c ∷ done) (linear 0 c refl, out 0 c refl, separate)
      (λ j b at. linear (suc j) b at)
      (λ j b at base has taken. elim taken [
        | inl first ↦ apart (suc j) 0 b c at refl (λ e. absurd (omega arith)) base has first
        | inr later ↦ out (suc j) b at base has later
      ])
      (λ j k b d at_b at_d ne. apart (suc j) (suc k) b d at_b at_d (λ e. ne (omega arith)))

module _ {ℓ} {A : Type ℓ} where
  IsDrained-AllSized :
      (h : Heap A) (bs : List Block) → IsDrained owned_take (content h) h bs → AllSized bs
  IsDrained-AllSized h [] d = tt
  IsDrained-AllSized h (b ∷ rest) (one, takes, d) = (one, IsDrained-AllSized h rest d)

  AllDrained-ItersSized :
      (h : Heap A) (iters : List BucketIter)
      → AllDrained owned_take (content h) h iters
      → ItersSized iters
  AllDrained-ItersSized h [] d = tt
  AllDrained-ItersSized h (it ∷ iters) (within, d, ds) =
      (within, IsDrained-AllSized h it.blocks d, AllDrained-ItersSized h iters ds)

module _ {ℓ} {A : Type ℓ} {calls : ℕ} {s : Store A} (i : IsStore calls s)
    (unlocked : IsUnlocked s.heap) where
  -- Iterating by `into_iter` over a store that is in order and of which no slot is locked, to the
  -- end, does not panic, and yields the same pairs in the same order as `iter_mut`: those of the
  -- map that the store stands for, and no ID twice. Moving an element out of its slot does not
  -- disturb the slots that are still to be visited.
  pub into_iter-iter_mut :
      (es : List (ElementId × A)) × (collect owned_take (count es + 1) (into_iter s) s.heap ≡ ok es)
      × (collect mut_take (count es + 1) (iter_mut s) s.heap ≡ ok es)
      × ((id : ElementId) → lookup es id ≡ view s id)
      × NoTwice es
  unfolding new_iter
  into_iter-iter_mut =
      let separate : Separate s.heap.next_base (new_iter s.buckets) =
        reversed-Separate s.heap.next_base s.buckets [] tt i.linear
          (λ j b at base has none_done. none_done) i.apart in
      let drained : AllDrained owned_take (content s.heap) s.heap (new_iter s.buckets) =
        reversed-AllDrained s.heap s.buckets [] tt
          (λ j b at. blocks-IsDrained i unlocked b.blocks (i.chains j b at)) in
      (
        yielded i,
        collect-drained owned_take (content s.heap) s.heap (count (yielded i) + 1)
            (new_iter s.buckets) s.heap.next_base drained separate (omega arith),
        collect-yielded i,
        lookup-yielded i,
        all_held-NoTwice s.heap (new_iter s.buckets) s.heap.next_base
            (AllDrained-ItersSized s.heap (new_iter s.buckets) drained) separate,
      )
