-- ===== src/Bucket/Chains.antt =====
-- src/bucket.rs, the blocks of a bucket: every slot of them is there, and which slots were handed out.
use read_write_store.Prelude.{ℕ, ◌^◌, ◌≤◌, ◌<◌, ◌≡◌, ◌⊎◌, inl, inr, some, List, [], ◌∷◌, arith}
use read_write_store.Slot.{Slot}
use read_write_store.Block.{Block, Heap, scramble_slot}
use read_write_store.Bucket.{head_size}

-- The slots with the logical numbers below `last` in the newest block, and all in the older ones.
abbrev pub InChain : List Block → ℕ → ℕ → ℕ → Type 0
InChain [] last base index = ⊥
InChain (b ∷ rest) last base index =
    ((b.base ≡ base) × (l : ℕ) × (l < last) × (scramble_slot b.len l ≡ index))
    ⊎ InChain rest (head_size rest) base index

pub InChain-mono :
    (bs : List Block) (last last' base index : ℕ)
    → last ≤ last'
    → InChain bs last base index
    → InChain bs last' base index
InChain-mono [] last last' base index le h = absurd h
InChain-mono (b ∷ rest) last last' base index le (inl (at, l, lt, same)) =
    inl (at, l, omega arith, same)
InChain-mono (b ∷ rest) last last' base index le (inr h) = inr h

-- A block of the chain is in the allocation `base`.
abbrev pub HasBlock : List Block → ℕ → Type 0
HasBlock [] base = ⊥
HasBlock (b ∷ rest) base = (b.base ≡ base) ⊎ HasBlock rest base

-- The allocations of a chain, the newest first, are below a bound and each below the one before.
abbrev pub Descending : ℕ → List Block → Type 0
Descending bound [] = Unit
Descending bound (b ∷ rest) = (b.base < bound) × Descending b.base rest

pub Descending-mono :
    (bound bound' : ℕ) (bs : List Block)
    → bound ≤ bound'
    → Descending bound bs
    → Descending bound' bs
Descending-mono bound bound' [] le d = tt
Descending-mono bound bound' (b ∷ rest) le (lt, d) = (omega arith, d)

pub HasBlock-lt :
    (bound base : ℕ) (bs : List Block) → Descending bound bs → HasBlock bs base → base < bound
HasBlock-lt bound base [] d has = absurd has
HasBlock-lt bound base (b ∷ rest) (lt, d) (inl here) = omega arith
HasBlock-lt bound base (b ∷ rest) (lt, d) (inr older) =
    omega (arith, HasBlock-lt b.base base rest d older)

pub InChain-HasBlock :
    (bs : List Block) (last base index : ℕ) → InChain bs last base index → HasBlock bs base
InChain-HasBlock [] last base index inside = absurd inside
InChain-HasBlock (b ∷ rest) last base index (inl (at, l, lt, same)) = inl at
InChain-HasBlock (b ∷ rest) last base index (inr older) =
    inr (InChain-HasBlock rest (head_size rest) base index older)

-- A chain as it was, or with one block more, from an allocation of its own.
abbrev pub Extends : ℕ → ℕ → List Block → List Block → Type 0
Extends bound bound' bs bs' =
    (bs' ≡ bs) ⊎ ((head : Block) × (bs' ≡ head ∷ bs) × (bound ≤ head.base) × (head.base < bound'))

pub Extends-Descending :
    (bound bound' : ℕ) (bs bs' : List Block)
    → bound ≤ bound'
    → Extends bound bound' bs bs'
    → Descending bound bs
    → Descending bound' bs'
Extends-Descending bound bound' bs bs' le (inl same) d =
    rw same (Descending-mono bound bound' bs le d)
Extends-Descending bound bound' bs bs' le (inr (head, added, ge, lt)) d =
    rw added (lt, Descending-mono bound head.base bs ge d)

pub Extends-HasBlock :
    (bound bound' base : ℕ) (bs bs' : List Block)
    → Extends bound bound' bs bs'
    → HasBlock bs' base
    → HasBlock bs base ⊎ (bound ≤ base)
Extends-HasBlock bound bound' base bs bs' (inl same) has = inl (rw same at has)
Extends-HasBlock bound bound' base bs bs' (inr (head, added, ge, lt)) has =
    let has' : (head.base ≡ base) ⊎ HasBlock bs base = rw added at has in
    elim has' [ inl new ↦ inr (omega arith) | inr old ↦ inl old ]

module _ {ℓ} {A : Type ℓ} where
  -- A block whose slots are all in the heap.
  pub record IsBlock (h : Heap A) (b : Block) : Type ℓ where
    pub k : ℕ
    pub small : k ≤ 30
    pub len : b.len ≡ 2 ^ k
    pub filled : (i : ℕ) → i < 2 ^ k → (slot : Slot A) × (h.cell b.base i ≡ some slot)

  abbrev pub AllBlocks : Heap A → List Block → Type ℓ
  AllBlocks h [] = Unit
  AllBlocks h (b ∷ rest) = IsBlock h b × AllBlocks h rest

  -- A heap that has at least the same slots.
  abbrev pub Keeps : Heap A → Heap A → Type ℓ
  Keeps h h' =
      (base index : ℕ) (slot : Slot A)
      → h.cell base index ≡ some slot
      → (slot' : Slot A) × (h'.cell base index ≡ some slot')

  pub AllBlocks-kept :
      (h h' : Heap A) (bs : List Block) → Keeps h h' → AllBlocks h bs → AllBlocks h' bs
  AllBlocks-kept h h' [] kept all = tt
  AllBlocks-kept h h' (b ∷ rest) kept (one, all) = (
    record {
      k = one.k;
      small = one.small;
      len = one.len;
      filled = λ i lt. let (slot, at) = one.filled i lt in kept b.base i slot at;
    },
    AllBlocks-kept h h' rest kept all,
  )
