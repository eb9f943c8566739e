-- ===== src/Iter/Places.antt =====
-- src/iter.rs: the slots that the iterators have yet to visit.
use read_write_store.Prelude.{ℕ, ◌^◌, ◌≤◌, ◌<◌, ◌≡◌, sym, ◌∙◌, arith, ◌⊎◌, inl, inr, List, [], ◌∷◌}
use read_write_store.Block.{Block, scramble_slot}
use read_write_store.Block.Scramble.{scramble_slot-injective}
use read_write_store.Bucket.{head_size}
use read_write_store.Bucket.Chains.{InChain, HasBlock, Descending, HasBlock-lt, InChain-HasBlock}
use read_write_store.Iter.{BucketIter}

-- A block's number of slots.
abbrev pub IsSized : Block → Type 0
IsSized b = (k : ℕ) × (k ≤ 30) × (b.len ≡ 2 ^ k)

-- A slot that the iterators have yet to visit.
abbrev pub InIters : List BucketIter → ℕ → ℕ → Type 0
InIters [] base index = ⊥
InIters (it ∷ iters) base index =
    InChain it.blocks it.last_slot base index ⊎ InIters iters base index

abbrev pub HasIter : List BucketIter → ℕ → Type 0
HasIter [] base = ⊥
HasIter (it ∷ iters) base = HasBlock it.blocks base ⊎ HasIter iters base

pub InIters-HasIter :
    (iters : List BucketIter) (base index : ℕ) → InIters iters base index → HasIter iters base
InIters-HasIter [] base index inside = absurd inside
InIters-HasIter (it ∷ iters) base index (inl here) =
    inl (InChain-HasBlock it.blocks it.last_slot base index here)
InIters-HasIter (it ∷ iters) base index (inr later) = inr (InIters-HasIter iters base index later)

-- No allocation is in two blocks.
abbrev pub Separate : ℕ → List BucketIter → Type 0
Separate bound [] = Unit
Separate bound (it ∷ iters) =
    Descending bound it.blocks
    × ((base : ℕ) → HasBlock it.blocks base → HasIter iters base → ⊥)
    × Separate bound iters

-- The next slots are others than the one that was visited.
pub rest_apart :
    (b : Block) (rest : List Block) (bound slot base index : ℕ)
    → IsSized b
    → slot < b.len
    → Descending bound (b ∷ rest)
    → InChain (b ∷ rest) slot base index
    → (b.base ≡ base) × (scramble_slot b.len slot ≡ index)
    → ⊥
rest_apart b rest bound slot base index (k, small, len) lt d (inl (at, l, before, same)) (eb, ei) =
    let equal : scramble_slot (2 ^ k) l ≡ scramble_slot (2 ^ k) slot = rw (← len) (same ∙ sym ei) in
    let same_slot : l ≡ slot =
      scramble_slot-injective k small l slot (omega arith) (omega arith) equal in
    absurd (omega arith)
rest_apart b rest bound slot base index sized lt (below, d) (inr older) (eb, ei) =
    let less =
      HasBlock-lt b.base base rest d (InChain-HasBlock rest (head_size rest) base index older) in
    absurd (omega arith)
