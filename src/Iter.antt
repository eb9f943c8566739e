-- ===== src/Iter.antt =====
-- src/iter.rs: the iterators over a store. A tracker of a block is the block with the chain behind
-- it; `GenIter` keeps the buckets that are left, the last of its vector first.
pub mod Yields
pub mod Contents
pub mod Stores
pub mod Sizes
pub mod Places
pub mod Drains
pub mod Once
pub mod Owned
use read_write_store.Prelude.{
  ℕ, zero, suc, ◌+◌, min, Option, none, some, List, [], ◌∷◌, map, Check, ok, panicked, ◌>>=◌,
}
use mathlib.Core.List.{reverse}
use read_write_store.Prelude.Panic.{unwrap_none}
use read_write_store.Id.{ElementId}
use read_write_store.Block.{Block, Heap}
use read_write_store.Block
use read_write_store.Bucket.{Bucket, head_size, head_size_to_total_size, sub_u32}

pub record BucketIter : Type 0 where
  pub last_slot : ℕ
  pub blocks : List Block

-- `GenBucketIter::new`
unfoldable pub new_bucket_iter : ℕ → List Block → BucketIter
new_bucket_iter last_slot blocks = record {
  last_slot = min last_slot (head_size blocks);
  blocks = blocks;
}

-- `IntoIter::new` and `IterMut::new`, by the buckets of the store
unfoldable pub new_iter : List Bucket → List BucketIter
unfolding new_bucket_iter
new_iter buckets = reverse (map (λ b. new_bucket_iter b.next_unused_slot b.blocks) buckets)

-- `BlockTracker::take` is a parameter of the iterators: for `IntoIter` it moves the element out, for
-- `IterMut` it borrows it.
module _ {ℓ κ} {A : Type ℓ} {E : Type κ}
    (take : Block → ℕ → Heap A → Check (Heap A × Option E)) where
  -- `GenBucketIter::next`: the position after the call, and what it yields.
  unfoldable pub bucket_next : List Block → ℕ → Heap A → Check (Heap A × (BucketIter × Option E))
  bucket_next [] zero h = ok (h, (record { last_slot = 0; blocks = [] }, none))
  bucket_next [] (suc slot) h = panicked unwrap_none
  bucket_next (block ∷ rest) zero h = bucket_next rest (head_size rest) h
  bucket_next (block ∷ rest) (suc slot) h = do
    (h', contents) ← take block slot h
    elim contents [
      | some result ↦ ok (h', (record { last_slot = slot; blocks = block ∷ rest }, some result))
      | none ↦ bucket_next (block ∷ rest) slot h'
    ]

  -- `GenIter::next`
  unfoldable pub next : List BucketIter → Heap A → Check (Heap A × (List BucketIter × Option E))
  next [] h = ok (h, ([], none))
  next (current ∷ iters) h = do
    (h', found) ← bucket_next current.blocks current.last_slot h
    elim found.1 [ some result ↦ ok (h', (found.0 ∷ iters, some result)) | none ↦ next iters h' ]

-- The two trackers.
module _ {ℓ} {A : Type ℓ} where
  abbrev pub owned_take : Block → ℕ → Heap A → Check (Heap A × Option (ElementId × A))
  owned_take = Block.take

  abbrev pub mut_take : Block → ℕ → Heap A → Check (Heap A × Option (ElementId × A))
  mut_take b slot h = do found ← Block.slot_contents b slot h; ok (h, found)

-- `GenBucketIter::size_hint`, its upper bound
unfoldable pub bucket_size_hint : BucketIter → Check ℕ
bucket_size_hint it = do
  allocated ← head_size_to_total_size (head_size it.blocks)
  unseen ← sub_u32 (head_size it.blocks) it.last_slot
  sub_u32 allocated unseen

-- `GenIter::size_hint`: the upper bounds added up.
unfoldable pub size_hint : List BucketIter → ℕ → Check ℕ
size_hint [] total = ok total
size_hint (it ∷ iters) total = do upper ← bucket_size_hint it; size_hint iters (total + upper)
