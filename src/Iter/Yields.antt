-- ===== src/Iter/Yields.antt =====
-- src/iter.rs: what the iterators yield, in which order.
use read_write_store.Prelude.{
  ℕ, zero, suc, ◌≤◌, ◌<◌, ◌≡◌, refl, arith, Option, none, some, Option-cases, ◌⊎◌, inl, inr, List,
  [], ◌∷◌, ◌++◌, Check, ok, ◌>>=◌,
}
use read_write_store.Block.{Block, Heap}
use read_write_store.Bucket.{head_size}
use read_write_store.Iter.{BucketIter, bucket_next, next}

module _ {ℓ κ} {A : Type ℓ} {E : Type κ} where
  -- `while let Some(e) = iter.next()`
  unfoldable pub collect :
      (Block → ℕ → Heap A → Check (Heap A × Option E))
      → ℕ
      → List BucketIter
      → Heap A
      → Check (List E)
  collect take zero iters h = ok []
  collect take (suc rounds) iters h = do
    (h', found) ← next take iters h
    elim found.1 [ none ↦ ok [] | some e ↦ do rest ← collect take rounds found.0 h'; ok (e ∷ rest) ]

module _ {κ} {E : Type κ} where
  abbrev pub with_option : Option E → List E → List E
  with_option none es = es
  with_option (some e) es = e ∷ es

  abbrev pub first : List E → Option E
  first [] = none
  first (e ∷ es) = some e

  abbrev pub others : List E → List E
  others [] = []
  others (e ∷ es) = es

  abbrev pub count : List E → ℕ
  count [] = 0
  count (e ∷ es) = suc (count es)

  -- What the slots of a chain of blocks hold, from slot `last` of the newest block down.
  unfoldable pub held : (Block → ℕ → Option E) → List Block → ℕ → List E
  held content [] last = []
  held content (b ∷ rest) zero = held content rest (head_size rest)
  held content (b ∷ rest) (suc slot) = with_option (content b slot) (held content (b ∷ rest) slot)

  unfoldable pub all_held : (Block → ℕ → Option E) → List BucketIter → List E
  all_held content [] = []
  all_held content (it ∷ iters) = held content it.blocks it.last_slot ++ all_held content iters

  pub list_cases : (es : List E) → (es ≡ []) ⊎ ((e : E) × (rest : List E) × (es ≡ e ∷ rest))
  list_cases [] = inl refl
  list_cases (e ∷ es) = inr (e, es, refl)

-- The last slot lies in the newest block.
abbrev pub IsWithin : List Block → ℕ → Type 0
IsWithin [] last = last ≡ 0
IsWithin (b ∷ rest) last = last ≤ b.len

pub start-IsWithin : (rest : List Block) → IsWithin rest (head_size rest)
start-IsWithin [] = refl
start-IsWithin (b ∷ rest) = omega arith

module _ {ℓ κ} {A : Type ℓ} {E : Type κ} (take : Block → ℕ → Heap A → Check (Heap A × Option E))
    (content : Block → ℕ → Option E) (h : Heap A) where
  -- Taking from the slots of the blocks yields their content, and leaves the heap.
  abbrev pub IsTaken : List Block → Type (ℓ ⊔ κ)
  IsTaken [] = Unit
  IsTaken (b ∷ rest) =
      ((slot : ℕ) → slot < b.len → take b slot h ≡ ok (h, content b slot)) × IsTaken rest

  abbrev pub AllTaken : List BucketIter → Type (ℓ ⊔ κ)
  AllTaken [] = Unit
  AllTaken (it ∷ iters) = IsWithin it.blocks it.last_slot × IsTaken it.blocks × AllTaken iters

  bucket_next_lem :
      (blocks : List Block) (last : ℕ)
      → IsWithin blocks last
      → IsTaken blocks
      → (it : BucketIter) × (bucket_next take blocks last h
          ≡ ok (h, (it, first (held content blocks last))))
        × (held content it.blocks it.last_slot ≡ others (held content blocks last))
        × IsWithin it.blocks it.last_slot
        × IsTaken it.blocks
  unfolding bucket_next held
  bucket_next_lem [] zero w k = (record { last_slot = 0; blocks = [] }, refl, refl, refl, tt)
  bucket_next_lem [] (suc slot) w k = absurd (omega arith)
  bucket_next_lem (b ∷ rest) zero w (k, ks) =
      bucket_next_lem rest (head_size rest) (start-IsWithin rest) ks
  bucket_next_lem (b ∷ rest) (suc slot) w (k, ks) =
      let now = k slot (omega arith) in
      elim (Option-cases (content b slot)) [
        | inl e ↦
            let (it, run, after, good, known) =
              bucket_next_lem (b ∷ rest) slot (omega arith) (k, ks) in
            (it, rw (now, e) run, rw e after, good, known)
        | inr (x, e) ↦ (
          record { last_slot = slot; blocks = b ∷ rest },
          rw (now, e) refl,
          rw e refl,
          omega arith,
          (k, ks),
        )
      ]

  next_lem :
      (iters : List BucketIter)
      → AllTaken iters
      → (iters' : List BucketIter) × (next take iters h
          ≡ ok (h, (iters', first (all_held content iters))))
        × (all_held content iters' ≡ others (all_held content iters))
        × AllTaken iters'
  unfolding next all_held
  next_lem [] w = ([], refl, refl, tt)
  next_lem (it ∷ iters) (w, k, ws) =
      let (it', run, after, within, known) = bucket_next_lem it.blocks it.last_slot w k in
      elim (list_cases (held content it.blocks it.last_slot)) [
        | inl e ↦
            let (iters', run', after', within') = next_lem iters ws in
            (iters', rw (run, e) run', rw e after', within')
        | inr (x, xs, e) ↦
            let rest : held content it'.blocks it'.last_slot ≡ xs = rw e at after in
            (it' ∷ iters, rw (run, e) refl, rw (e, rest) refl, (within, known, ws))
      ]

  collect_held :
      (rounds : ℕ) (iters : List BucketIter) (es : List E)
      → AllTaken iters
      → all_held content iters ≡ es
      → count es < rounds
      → collect take rounds iters h ≡ ok es
  unfolding collect
  collect_held zero iters es w e lt = absurd (omega arith)
  collect_held (suc rounds) iters [] w e lt =
      let (iters', run, after, within) = next_lem iters w in rw (run, e) refl
  collect_held (suc rounds) iters (x ∷ es) w e lt =
      let (iters', run, after, within) = next_lem iters w in
      let rest : all_held content iters' ≡ es = rw e at after in
      rw (run, e, collect_held rounds iters' es within rest (omega arith)) refl

  -- Calling `next` of an iterator until it returns nothing ends after one call more than there are
  -- elements, and yields what the slots of its buckets hold, each slot once: bucket by bucket, in
  -- each from the newest block to the oldest, in a block from the last slot to be visited down.
  -- The last slot of each bucket lies in its newest block, and the tracker's `take` gives what a
  -- slot of these blocks holds and leaves the heap as it is.
  pub collect_lem :
      (rounds : ℕ) (iters : List BucketIter)
      → AllTaken iters
      → count (all_held content iters) < rounds
      → collect take rounds iters h ≡ ok (all_held content iters)
  collect_lem rounds iters w lt = collect_held rounds iters (all_held content iters) w refl lt
