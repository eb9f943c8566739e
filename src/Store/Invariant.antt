-- ===== src/Store/Invariant.antt =====
-- src/lib.rs, the state of a whole store: its buckets, its slots and its queue of erasures.
pub mod Puts
pub mod Erasure
pub mod Fresh
pub mod Located
use read_write_store.Prelude.{
  ℕ, zero, suc, ◌+◌, ◌-◌, ◌^◌, ◌≤◌, ◌<◌, ◌≡◌, ◌≢◌, refl, fun_ext, ◌∙◌, sym, ◌⊎◌, inl, inr, Bool,
  true, false, ◌&&◌, Option, none, some, List, [], ◌∷◌, length, get_elem?, set, ◌==◌, if◌then◌else◌,
  arith, Bool-cases, and-false,
}
use read_write_store.Header.Word.{reserved, max_concurrent_reads}
use read_write_store.Header.Abstract.{ident, readers, all_ones, is_live, issued, IsWord}
use read_write_store.Id.{Address, ElementId, same_address, same_store}
use read_write_store.Slot.{Slot}
use read_write_store.Slot
use read_write_store.Slot.Results.{IsCallable}
use read_write_store.Block.{Block, Heap, put}
use read_write_store.Bucket.{Bucket}
use read_write_store.Bucket.Chains.{HasBlock, Descending, InChain, AllBlocks, Keeps}
use read_write_store.Bucket.Unused.{IsUnused, IsReady, no_block, in_block}
use read_write_store.Bucket.Locations.{HasHead}
use read_write_store.Store.{Store}

-- Two buckets do not share a block.
abbrev pub Apart : Bucket → Bucket → Type 0
Apart b c = (base : ℕ) → HasBlock b.blocks base → HasBlock c.blocks base → ⊥

abbrev pub IsOther : Address → List Address → Type 0
IsOther a [] = Unit
IsOther a (b ∷ bs) = (same_address a b ≡ false) × IsOther a bs

abbrev pub IsDistinct : List Address → Type 0
IsDistinct [] = Unit
IsDistinct (a ∷ bs) = IsOther a bs × IsDistinct bs

-- A slot that a bucket of the store has handed out.
abbrev pub IsOwned : List Bucket → ℕ → ℕ → Type 0
IsOwned buckets base index =
    (i : ℕ) × (b : Bucket) × (get_elem? buckets i ≡ some b)
    × InChain b.blocks b.next_unused_slot base index

module _ {ℓ} {A : Type ℓ} where
  -- A slot, after `calls` calls: its word, that it holds an element once it gave out an ordinal, and
  -- that no more threads read it than there were calls.
  pub record IsSlot (calls : ℕ) (s : Slot A) : Type ℓ where
    pub word : IsWord s.header
    pub written : 0 < issued s.header → (element : A) × (s.value ≡ some element)
    pub few : (readers s.header ≤ calls) ⊎ (readers s.header ≡ all_ones)

  -- The slot at an address in the queue: vacated, and not for good.
  pub record IsErased (h : Heap A) (a : Address) : Type ℓ where
    pub slot : Slot A
    pub at : h.cell a.base a.index ≡ some slot
    pub used : 0 < slot.header
    pub reusable : slot.header < reserved

  abbrev pub AllErased : Heap A → List Address → Type ℓ
  AllErased h [] = Unit
  AllErased h (a ∷ bs) = IsErased h a × AllErased h bs

  -- A store after `calls` calls.
  pub record IsStore (calls : ℕ) (s : Store A) : Type ℓ where
    pub size : length s.buckets ≡ 16
    pub ready :
        (i : ℕ) (b : Bucket)
        → get_elem? s.buckets i ≡ some b
        → (touched : ℕ) × (touched ≤ calls) × IsReady s.heap b touched
    pub apart :
        (i j : ℕ) (b c : Bucket)
        → get_elem? s.buckets i ≡ some b
        → get_elem? s.buckets j ≡ some c
        → i ≢ j
        → Apart b c
    pub linear :
        (i : ℕ) (b : Bucket) → get_elem? s.buckets i ≡ some b → Descending s.heap.next_base b.blocks
    pub slots :
        (base index : ℕ) (slot : Slot A)
        → s.heap.cell base index ≡ some slot
        → (base < s.heap.next_base) × IsSlot calls slot
    pub erased : AllErased s.heap s.erasures
    pub distinct : IsDistinct s.erasures
    pub chains : (i : ℕ) (b : Bucket) → get_elem? s.buckets i ≡ some b → AllBlocks s.heap b.blocks
    pub owned :
        (base index : ℕ) (slot : Slot A)
        → s.heap.cell base index ≡ some slot
        → 0 < issued slot.header
        → IsOwned s.buckets base index

  -- A write to a slot that was handed out leaves the rest of the buckets untouched.
  IsUnused-kept :
      {head : Block} {used k : ℕ} {h h' : Heap A}
      → IsUnused head used k h
      → h.next_base ≤ h'.next_base
      → ((index : ℕ)
          → h.cell head.base index ≡ some Slot.new
          → h'.cell head.base index ≡ some Slot.new)
      → IsUnused head used k h'
  IsUnused-kept u grows kept = record {
    small = u.small;
    len = u.len;
    known = omega (arith, u.known);
    within = u.within;
    untouched = λ i le lt. kept _ (u.untouched i le lt);
  }

  pub IsReady-kept :
      {b : Bucket} {touched : ℕ} {h h' : Heap A}
      → IsReady h b touched
      → h.next_base ≤ h'.next_base
      → ((base index : ℕ)
          → HasHead b.blocks base
          → base < h.next_base
          → h.cell base index ≡ some Slot.new
          → h'.cell base index ≡ some Slot.new)
      → IsReady h' b touched
  IsReady-kept (no_block store_id) grows kept = no_block store_id
  IsReady-kept (in_block {head = head} u count) grows kept =
      in_block (IsUnused-kept u grows (λ index e. kept head.base index refl u.known e)) count

  -- The value of a cell once a slot is put somewhere.
  pub put_other :
      (a : Address) (slot slot' : Slot A) (cell : ℕ → ℕ → Option (Slot A)) (base index : ℕ)
      → put a slot' cell base index ≡ some slot
      → ((a.base ≡ base) × (a.index ≡ index) × (slot ≡ slot')) ⊎ (cell base index ≡ some slot)
  put_other a slot slot' cell base index e = ground (arith, e)

  -- Every cell that was there still is.
  pub put-Keeps :
      (a : Address) (slot' : Slot A) (h : Heap A) → Keeps h (record h { cell = put a slot' h.cell })
  put-Keeps a slot' h base index slot at =
      elim (Bool-cases ((a.base == base) && (a.index == index))) [
        | inl t ↦ (slot', rw t refl)
        | inr t ↦ (slot, rw t at)
      ]

  pub put_self :
      (a : Address) (slot : Slot A) (cell : ℕ → ℕ → Option (Slot A))
      → put a slot cell a.base a.index ≡ some slot
  put_self a slot cell = ground arith

  -- Writing back what is there changes nothing.
  pub put_same :
      (a : Address) (slot : Slot A) (cell : ℕ → ℕ → Option (Slot A))
      → cell a.base a.index ≡ some slot
      → put a slot cell ≡ cell
  put_same a slot cell e = fun_ext (λ base. fun_ext (λ index. ground (arith, e)))
