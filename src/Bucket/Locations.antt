-- ===== src/Bucket/Locations.antt =====
-- src/bucket.rs, the slots that a bucket hands out for insertions.
use read_write_store.Prelude.{
  ℕ, suc, ◌+◌, ◌-◌, ◌*◌, ◌⊎◌, inl, inr, ◌^◌, ◌≤◌, ◌<◌, ◌≡◌, refl, arith, ok, some, none, List, [],
  ◌∷◌, dec_lt,
}
use native.Mathlib.Nat.{pow-suc, one-le-pow}
use read_write_store.Id.{Address, RwStoreId}
use read_write_store.Slot.{Slot}
use read_write_store.Slot
use read_write_store.Block.{Block, Heap, scramble_slot, put}
use read_write_store.Bucket
use read_write_store.Bucket.{
  Bucket, next_insert_location, next_insert_location_slow, try_location, expand, head_size,
}
use read_write_store.Bucket.Chains.{InChain, InChain-mono, AllBlocks, Extends}
use read_write_store.Bucket.Unused.{
  IsUnused, IsReady, no_block, in_block, try_location-room, try_location-full, IsUnused-put,
  power_small,
}
use read_write_store.Bucket.Growth.{
  power_bound, grown, expand_lem, grown-IsUnused, grown-old, grown-cells, grown-AllBlocks,
}

-- The newest block of a chain is in the allocation `base`.
abbrev pub HasHead : List Block → ℕ → Type 0
HasHead [] base = ⊥
HasHead (head ∷ rest) base = head.base ≡ base

module _ {ℓ} {A : Type ℓ} where
  -- What a call gives: a slot that nobody has had, in the newest block, which the bucket will not
  -- give again, and a heap whose old allocations are as they were. The newest block is the one of
  -- before, or new to the heap.
  pub record IsHandedOut (h h' : Heap A) (b b' : Bucket) (a : Address) (touched : ℕ) : Type ℓ where
    pub vacant : h'.cell a.base a.index ≡ some Slot.new
    pub ready_again : (s : Slot A) → IsReady (record h' { cell = put a s h'.cell }) b' (touched + 1)
    pub kept : (base index : ℕ) → base < h.next_base → h'.cell base index ≡ h.cell base index
    pub grows : h.next_base ≤ h'.next_base
    pub cells :
        (base index : ℕ) (slot : Slot A)
        → h'.cell base index ≡ some slot
        → (h.cell base index ≡ some slot) ⊎ ((slot ≡ Slot.new) × (base < h'.next_base))
    pub newest : HasHead b'.blocks a.base
    pub origin : HasHead b.blocks a.base ⊎ (h.next_base ≤ a.base)
    pub extends : Extends h.next_base h'.next_base b.blocks b'.blocks
    pub chain : AllBlocks h b.blocks → AllBlocks h' b'.blocks
    pub covers :
        (base index : ℕ)
        → InChain b.blocks b.next_unused_slot base index
        → InChain b'.blocks b'.next_unused_slot base index
    pub mine : InChain b'.blocks b'.next_unused_slot a.base a.index

  handed_out :
      {head : Block} {used k : ℕ} {h h' : Heap A} (b : Bucket) (touched : ℕ) (rest : List Block)
      (store_id : RwStoreId)
      → IsUnused head used k h'
      → used < 2 ^ k
      → touched ≡ 2 ^ k - 1 + used
      → ((base index : ℕ) → base < h.next_base → h'.cell base index ≡ h.cell base index)
      → h.next_base ≤ h'.next_base
      → ((base index : ℕ) (slot : Slot A)
          → h'.cell base index ≡ some slot
          → (h.cell base index ≡ some slot) ⊎ ((slot ≡ Slot.new) × (base < h'.next_base)))
      → HasHead b.blocks head.base ⊎ (h.next_base ≤ head.base)
      → Extends h.next_base h'.next_base b.blocks (head ∷ rest)
      → (AllBlocks h b.blocks → AllBlocks h' (head ∷ rest))
      → ((base index : ℕ)
          → InChain b.blocks b.next_unused_slot base index
          → InChain (head ∷ rest) (used + 1) base index)
      → IsHandedOut h h' b
          (record { blocks = head ∷ rest; next_unused_slot = used + 1; store_id = store_id })
          (record { base = head.base; index = scramble_slot (2 ^ k) used })
          touched
  handed_out {used = used} {k = k} b touched rest store_id u lt count kept grows cells origin
        extends chain covers =
      record {
        vacant = u.untouched used (omega arith) lt;
        ready_again = λ s. in_block (IsUnused-put u lt s) (omega arith);
        kept = kept;
        grows = grows;
        cells = cells;
        newest = refl;
        origin = origin;
        extends = extends;
        chain = chain;
        covers = covers;
        mine = inl (refl, used, omega arith, rw (u.len) refl);
      }

  -- A bucket whose lookups fail gets a new block, and the first slot of it is handed out.
  next_insert_location-grows :
      (h : Heap A) (b b1 b2 : Bucket) (k touched : ℕ)
      → try_location b ≡ ok (b1, none)
      → try_location b1 ≡ ok (b2, none)
      → Bucket.next_size b2.blocks ≡ ok (2 ^ k)
      → k ≤ 30
      → touched ≡ 2 ^ k - 1
      → b2.blocks ≡ b.blocks
      → ((base index : ℕ)
          → InChain b.blocks b.next_unused_slot base index
          → InChain b2.blocks (head_size b2.blocks) base index)
      → (h' : Heap A) × (b' : Bucket) × (a : Address) × (next_insert_location b h
          ≡ ok (h', (b', a)))
        × IsHandedOut h h' b b' a touched
  unfolding next_insert_location next_insert_location_slow grown
  next_insert_location-grows h b b1 b2 k touched first second size small count same covers =
      let u = grown-IsUnused h k b2.store_id small in
      let one : 1 ≤ 2 ^ k = one-le-pow k 2 (omega arith) in
      (
        _,
        _,
        _,
        rw (first, second, expand_lem b2 h k size, try_location-room b2.blocks b2.store_id u one)
            refl,
        handed_out b touched b2.blocks b2.store_id u one (omega arith) (grown-old h (2 ^ k))
            (omega arith) (grown-cells h (2 ^ k)) (inr (omega arith))
            (inr (
              record { base = h.next_base; len = 2 ^ k; store_id = b2.store_id },
              rw same refl,
              omega arith,
              omega arith,
            ))
            (λ all. grown-AllBlocks h k b2.store_id b2.blocks small (rw same all))
            (λ base index old. inr (covers base index old)),
      )

  -- A bucket that is ready and has handed out `touched` slots, fewer than `2 ^ 31 - 1`, finds a
  -- location for the next element: a vacant slot of the heap. Whatever is then stored there, the
  -- bucket is ready again, with one slot more handed out; slots of the allocations that were there
  -- before the call are not changed by it.
  pub next_insert_location_lem :
      (h : Heap A) (b : Bucket) (touched : ℕ)
      → IsReady h b touched
      → touched < 2 ^ 31 - 1
      → (h' : Heap A) × (b' : Bucket) × (a : Address) × (next_insert_location b h
          ≡ ok (h', (b', a)))
        × IsHandedOut h h' b b' a touched
  unfolding next_insert_location try_location
  next_insert_location_lem h b touched (no_block store_id) few =
      let empty : Bucket = record { blocks = []; next_unused_slot = 0; store_id = store_id } in
      next_insert_location-grows h empty empty empty 0 0 refl refl refl (omega arith) (omega arith)
        refl (λ base index old. absurd old)
  next_insert_location_lem h b touched
        (in_block {head = head} {rest = rest} {used = used} {k = k} {store_id = store_id} u count)
        few =
      elim (dec_lt used (2 ^ k)) [
        | yes lt ↦ (
          _,
          _,
          _,
          rw (try_location-room rest store_id u lt) refl,
          handed_out (record { blocks = head ∷ rest; next_unused_slot = used; store_id = store_id })
              touched rest store_id u lt count (λ base index known. refl) (omega arith)
              (λ base index slot e. inl e) (inl refl) (inl refl) (λ all. all)
              (λ base index old.
                InChain-mono (head ∷ rest) used (used + 1) base index (omega arith) old),
        )
        | no full ↦
            let len = u.len in
            let within = u.within in
            let doubled : head.len * 2 ≡ 2 ^ suc k = omega (arith, pow-suc 2 k) in
            let smaller : k < 30 = power_bound k (omega (arith, pow-suc 2 k)) in
            let bounds = power_small (suc k) (omega arith) in
            next_insert_location-grows h
              (record { blocks = head ∷ rest; next_unused_slot = used; store_id = store_id }) _ _
              (suc k) touched
              (try_location-full head k used rest store_id u.small len (omega arith) (omega arith))
              (try_location-full head k (used + 1) rest store_id u.small len (omega arith)
                (omega arith))
              (ground arith) (omega arith) (omega (arith, pow-suc 2 k)) refl
              (λ base index old.
                InChain-mono (head ∷ rest) used head.len base index (omega arith) old)
      ]
