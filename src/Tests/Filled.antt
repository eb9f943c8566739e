-- ===== src/Tests/Filled.antt =====
-- A store in order, for the theorems on whole stores.
use read_write_store.Prelude.{
  get_elem?, zero, suc, ◌≤◌, ◌<◌, ◌⊎◌, ◌≢◌, sym, ◌∙◌, ℕ, ◌<◌, ◌≡◌, refl, inl, inr, some, Option,
  List, [], ◌∷◌, replicate, get_elem?-replicate, arith,
}
use read_write_store.Id.{ElementId}
use read_write_store.Slot.{Slot}
use read_write_store.Store.{Store}
use read_write_store.Store.Spec.{Model, IsGiven}
use read_write_store.Header.Abstract.{issued}
use read_write_store.Id.{Address}
use read_write_store.Block.{Block, scramble_slot}
use read_write_store.Bucket.{Bucket}
use read_write_store.Bucket.Chains.{Descending, AllBlocks}
use read_write_store.Bucket.Unused.{IsUnused, IsReady, no_block, in_block}
use read_write_store.Store.Invariant.{Apart, IsStore, IsSlot, AllErased, IsDistinct}
use read_write_store.Store.Look.{look}
use read_write_store.Store.Refines.{IsKnown, Refines}
use read_write_store.Tests.Samples.{address, id_of, store_of, unlocked, vacated}

-- A store with one slot that was handed out, after four calls, and its model.
abbrev first_block : Block
first_block = record { base = 0; len = 1; store_id = record { value = 0 } }

abbrev first_bucket : Bucket
first_bucket = record {
  blocks = first_block ∷ [];
  next_unused_slot = 1;
  store_id = record { value = 0 };
}

abbrev empty_bucket : Bucket
empty_bucket = record { blocks = []; next_unused_slot = 0; store_id = record { value = 0 } }

abbrev pub filled_buckets : List Bucket
filled_buckets = first_bucket ∷ replicate 15 empty_bucket

abbrev pub filled_store : Slot ℕ → List Address → Store ℕ
filled_store slot erasures = record (store_of slot) {
  buckets = filled_buckets;
  erasures = erasures;
}

bucket_cases :
    (i : ℕ) (b : Bucket)
    → get_elem? filled_buckets i ≡ some b
    → ((i ≡ 0) × (first_bucket ≡ b)) ⊎ (empty_bucket ≡ b)
bucket_cases zero b e = inl (refl, cc)
bucket_cases (suc i) b e = inr (get_elem?-replicate 15 i empty_bucket b e)

pub one_slot :
    (slot s' : Slot ℕ) (base index : ℕ)
    → (store_of slot).heap.cell base index ≡ some s'
    → (base < 1) × (base ≡ 0) × (index ≡ 0) × (slot ≡ s')
one_slot slot s' base index e = ground (arith, e)

first_cell : (slot : Slot ℕ) (i : ℕ) → i < 1 → (store_of slot).heap.cell 0 i ≡ some slot
first_cell slot i lt = ground arith

filled_store-IsReady :
    (slot : Slot ℕ) (i : ℕ) (b : Bucket)
    → get_elem? filled_buckets i ≡ some b
    → (touched : ℕ) × (touched ≤ 4) × IsReady (store_of slot).heap b touched
filled_store-IsReady slot i b e = elim (bucket_cases i b e) [
  | inr empty ↦ (0, omega arith, rw (← empty) (no_block _))
  | inl (at, first) ↦
      let unused : IsUnused first_block 1 0 (store_of slot).heap = record {
        small = omega arith;
        len = refl;
        known = omega arith;
        within = omega arith;
        untouched = λ j le lt. absurd (omega arith);
      } in
      (1, omega arith, rw (← first) (in_block unused refl))
]

filled_store-chains :
    (slot : Slot ℕ) (i : ℕ) (b : Bucket)
    → get_elem? filled_buckets i ≡ some b
    → AllBlocks (store_of slot).heap b.blocks
filled_store-chains slot i b e = elim (bucket_cases i b e) [
  | inr empty ↦ rw (← empty) tt
  | inl (at, first) ↦ rw (← first) (
      (
        record {
          k = 0;
          small = omega arith;
          len = refl;
          filled = λ j lt. (slot, first_cell slot j (omega arith));
        },
        tt,
      ))
]

filled_store-linear :
    (slot : Slot ℕ) (i : ℕ) (b : Bucket)
    → get_elem? filled_buckets i ≡ some b
    → Descending (store_of slot).heap.next_base b.blocks
filled_store-linear slot i b e = elim (bucket_cases i b e) [
  | inr empty ↦ rw (← empty) tt
  | inl (at, first) ↦ rw (← first) (omega arith, tt)
]

filled_store-Apart :
    (i j : ℕ) (b c : Bucket)
    → get_elem? filled_buckets i ≡ some b
    → get_elem? filled_buckets j ≡ some c
    → i ≢ j
    → Apart b c
filled_store-Apart i j b c ei ej ne base hb hc = elim (bucket_cases i b ei) [
  | inr empty ↦ absurd (rw (← empty) at hb)
  | inl (at, first) ↦ elim (bucket_cases j c ej) [
    | inr empty ↦ absurd (rw (← empty) at hc)
    | inl (at', first') ↦ absurd (ne (at ∙ sym at'))
  ]
]

filled_store-IsStore :
    (slot : Slot ℕ) (erasures : List Address)
    → IsSlot 4 slot
    → AllErased (store_of slot).heap erasures
    → IsDistinct erasures
    → IsStore 4 (filled_store slot erasures)
unfolding scramble_slot
filled_store-IsStore slot erasures good erased distinct = record {
  size = refl;
  ready = filled_store-IsReady slot;
  apart = filled_store-Apart;
  linear = filled_store-linear slot;
  slots = λ base index s' e.
      let (known, eb, ei, same) = one_slot slot s' base index e in (known, rw (← same) good);
  erased = erased;
  distinct = distinct;
  chains = filled_store-chains slot;
  owned = λ base index s' e used.
      let (known, eb, ei, same) = one_slot slot s' base index e in
      rw (eb, ei) (0, first_bucket, refl, inl (refl, 0, omega arith, refl));
}

abbrev pub model_of : (ElementId → Option (ℕ × ℕ)) → Model ℕ
model_of entry = record { entry = entry; given = id_of 5 ∷ [] }

pub unlocked-IsStore : IsStore 4 (filled_store unlocked [])
unlocked-IsStore =
    filled_store-IsStore unlocked []
      (record {
        word = record { fits = omega arith; live = inr (omega arith) };
        written = λ lt. (42, refl);
        few = inl (omega arith);
      })
      tt tt

pub vacated-IsStore : IsStore 4 (filled_store vacated (address ∷ []))
vacated-IsStore =
    filled_store-IsStore vacated (address ∷ [])
      (record {
        word = record { fits = omega arith; live = inl (omega arith) };
        written = λ lt. (42, refl);
        few = inl (omega arith);
      })
      (record { slot = vacated; at = refl; used = omega arith; reusable = omega arith }, tt)
      (tt, tt)

five-IsKnown :
    (slot : Slot ℕ) (erasures : List Address)
    → 5 < issued slot.header
    → (id : ElementId) → IsGiven id (id_of 5 ∷ [])
    → IsKnown (filled_store slot erasures) id
five-IsKnown slot erasures lt id (inl e) =
    rw e (record { slot = slot; at = refl; issued_id = lt; native = refl })
five-IsKnown slot erasures lt id (inr g) = absurd g

pub unlocked-Refines :
    Refines (filled_store unlocked []) (model_of (look (filled_store unlocked [])))
unlocked-Refines = record { entries = λ id. refl; known = five-IsKnown unlocked [] (omega arith) }

pub vacated-Refines :
    Refines
      (filled_store vacated (address ∷ []))
      (model_of (look (filled_store vacated (address ∷ []))))
vacated-Refines = record {
  entries = λ id. refl;
  known = five-IsKnown vacated (address ∷ []) (omega arith);
}
