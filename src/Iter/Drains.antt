-- ===== src/Iter/Drains.antt =====
-- src/iter.rs: an iteration whose `take` changes the slot that it visits, and no other.
use read_write_store.Prelude.{
  ℕ, zero, suc, ◌<◌, ◌≡◌, refl, ◌∙◌, arith, Option, none, some, Option-cases, inl, inr, List, [],
  ◌∷◌, Check, ok,
}
use read_write_store.Block.{Block, Heap, scramble_slot}
use read_write_store.Bucket.{head_size}
use read_write_store.Bucket.Chains.{InChain, HasBlock, Descending, Descending-mono, InChain-mono}
use read_write_store.Iter.{BucketIter, bucket_next, next}
use read_write_store.Iter.Yields.{
  collect, first, others, count, held, all_held, list_cases, IsWithin, start-IsWithin,
}
use read_write_store.Iter.Places.{IsSized, InIters, InIters-HasIter, Separate, rest_apart}

module _ {ℓ} {A : Type ℓ} where
  -- The slots that are left are as they were.
  abbrev pub SameIn : (ℕ → ℕ → Type 0) → Heap A → Heap A → Type ℓ
  SameIn P h h' = (base index : ℕ) → P base index → h'.cell base index ≡ h.cell base index

module _ {ℓ κ} {A : Type ℓ} {E : Type κ} (take : Block → ℕ → Heap A → Check (Heap A × Option E))
    (content : Block → ℕ → Option E) (origin : Heap A) where
  -- Taking from a slot that is as it was yields its content, and changes that slot at most.
  abbrev pub IsDrained : List Block → Type (ℓ ⊔ κ)
  IsDrained [] = Unit
  IsDrained (b ∷ rest) =
      IsSized b
      × ((slot : ℕ)
          → slot < b.len
          → (h : Heap A)
          → h.cell b.base (scramble_slot b.len slot) ≡ origin.cell b.base (scramble_slot b.len slot)
          → (h' : Heap A) × (take b slot h ≡ ok (h', content b slot))
            × SameIn (λ base index. (b.base ≡ base) × (scramble_slot b.len slot ≡ index) → ⊥) h h')
      × IsDrained rest

  abbrev pub AllDrained : List BucketIter → Type (ℓ ⊔ κ)
  AllDrained [] = Unit
  AllDrained (it ∷ iters) = IsWithin it.blocks it.last_slot × IsDrained it.blocks × AllDrained iters

  -- The iterator's new position, with what is left of its chain.
  pub record Visited (blocks : List Block) (last bound : ℕ) (h : Heap A) : Type (ℓ ⊔ κ) where
    pub heap : Heap A
    pub it : BucketIter
    pub runs : bucket_next take blocks last h ≡ ok (heap, (it, first (held content blocks last)))
    pub after : held content it.blocks it.last_slot ≡ others (held content blocks last)
    pub within : IsWithin it.blocks it.last_slot
    pub drained : IsDrained it.blocks
    pub linear : Descending bound it.blocks
    pub smaller : (base : ℕ) → HasBlock it.blocks base → HasBlock blocks base
    pub left : SameIn (InChain it.blocks it.last_slot) origin heap
    pub elsewhere : SameIn (λ base index. HasBlock blocks base → ⊥) h heap

  stopped :
      (b : Block) (rest : List Block) (slot bound : ℕ) (h h' : Heap A) (e : E)
      → content b slot ≡ some e
      → take b slot h ≡ ok (h', content b slot)
      → slot < b.len
      → IsDrained (b ∷ rest)
      → Descending bound (b ∷ rest)
      → SameIn (InChain (b ∷ rest) slot) origin h'
      → SameIn (λ base index. HasBlock (b ∷ rest) base → ⊥) h h'
      → Visited (b ∷ rest) (suc slot) bound h
  unfolding bucket_next held
  stopped b rest slot bound h h' e found runs lt drained linear left elsewhere = record {
    heap = h';
    it = record { last_slot = slot; blocks = b ∷ rest };
    runs = rw (runs, found) refl;
    after = rw found refl;
    within = omega arith;
    drained = drained;
    linear = linear;
    smaller = λ base has. has;
    left = left;
    elsewhere = elsewhere;
  }

  passed :
      (b : Block) (rest : List Block) (slot bound : ℕ) (h h' : Heap A)
      → content b slot ≡ none
      → take b slot h ≡ ok (h', content b slot)
      → SameIn (λ base index. HasBlock (b ∷ rest) base → ⊥) h h'
      → Visited (b ∷ rest) slot bound h'
      → Visited (b ∷ rest) (suc slot) bound h
  unfolding bucket_next held
  passed b rest slot bound h h' nothing runs same v = record {
    heap = v.heap;
    it = v.it;
    runs = rw (runs, nothing) v.runs;
    after = rw nothing v.after;
    within = v.within;
    drained = v.drained;
    linear = v.linear;
    smaller = v.smaller;
    left = v.left;
    elsewhere = λ base index out. v.elsewhere base index out ∙ same base index out;
  }

  visit :
      (blocks : List Block) (last bound : ℕ) (h : Heap A)
      → IsWithin blocks last
      → IsDrained blocks
      → Descending bound blocks
      → SameIn (InChain blocks last) origin h
      → Visited blocks last bound h
  unfolding bucket_next held
  visit [] zero bound h w drained linear left = record {
    heap = h;
    it = record { last_slot = 0; blocks = [] };
    runs = refl;
    after = refl;
    within = refl;
    drained = tt;
    linear = tt;
    smaller = λ base has. has;
    left = left;
    elsewhere = λ base index out. refl;
  }
  visit [] (suc slot) bound h w drained linear left = absurd (omega arith)
  visit (b ∷ rest) zero bound h w (sized, takes, drained) (below, linear) left =
      let v =
        visit rest (head_size rest) b.base h (start-IsWithin rest) drained linear
          (λ base index inside. left base index (inr inside)) in
      record {
        heap = v.heap;
        it = v.it;
        runs = v.runs;
        after = v.after;
        within = v.within;
        drained = v.drained;
        linear = Descending-mono b.base bound v.it.blocks (omega arith) v.linear;
        smaller = λ base has. inr (v.smaller base has);
        left = v.left;
        elsewhere = λ base index out. v.elsewhere base index (λ has. out (inr has));
      }
  visit (b ∷ rest) (suc slot) bound h w (sized, takes, drained) linear left =
      let (h', runs, same) =
        takes slot (omega arith) h
          (left b.base (scramble_slot b.len slot) (inl (refl, slot, omega arith, refl))) in
      let left' : SameIn (InChain (b ∷ rest) slot) origin h' = λ base index inside.
        same base index (rest_apart b rest bound slot base index sized (omega arith) linear inside)
        ∙ left base index
            (InChain-mono (b ∷ rest) slot (suc slot) base index (omega arith) inside) in
      let elsewhere : SameIn (λ base index. HasBlock (b ∷ rest) base → ⊥) h h' =
        λ base index out. same base index (λ at. out (inl at.0)) in
      elim (Option-cases (content b slot)) [
        | inl nothing ↦
            passed b rest slot bound h h' nothing runs elsewhere
              (visit (b ∷ rest) slot bound h' (omega arith) (sized, takes, drained) linear left')
        | inr (e, found) ↦
            stopped b rest slot bound h h' e found runs (omega arith) (sized, takes, drained) linear
              left' elsewhere
      ]

  pub record NextVisited (iters : List BucketIter) (bound : ℕ) (h : Heap A) : Type (ℓ ⊔ κ) where
    pub heap : Heap A
    pub iters' : List BucketIter
    pub runs : next take iters h ≡ ok (heap, (iters', first (all_held content iters)))
    pub after : all_held content iters' ≡ others (all_held content iters)
    pub drained : AllDrained iters'
    pub separate : Separate bound iters'
    pub left : SameIn (InIters iters') origin heap

  next_visit :
      (iters : List BucketIter) (bound : ℕ) (h : Heap A)
      → AllDrained iters
      → Separate bound iters
      → SameIn (InIters iters) origin h
      → NextVisited iters bound h
  unfolding next all_held
  next_visit [] bound h drained separate left = record {
    heap = h;
    iters' = [];
    runs = refl;
    after = refl;
    drained = tt;
    separate = tt;
    left = left;
  }
  next_visit (it ∷ iters) bound h (within, d, ds) (linear, apart, separate) left =
      let v =
        visit it.blocks it.last_slot bound h within d linear
          (λ base index inside. left base index (inl inside)) in
      let run = v.runs in
      let after = v.after in
      let others_left : SameIn (InIters iters) origin v.heap = λ base index inside.
        v.elsewhere base index (λ has. apart base has (InIters-HasIter iters base index inside))
        ∙ left base index (inr inside) in
      elim (list_cases (held content it.blocks it.last_slot)) [
        | inl e ↦
            let n = next_visit iters bound v.heap ds separate others_left in
            record {
              heap = n.heap;
              iters' = n.iters';
              runs = rw (run, e) n.runs;
              after = rw e n.after;
              drained = n.drained;
              separate = n.separate;
              left = n.left;
            }
        | inr (x, xs, e) ↦
            let rest : held content v.it.blocks v.it.last_slot ≡ xs = rw e at after in
            record {
              heap = v.heap;
              iters' = v.it ∷ iters;
              runs = rw (run, e) refl;
              after = rw (e, rest) refl;
              drained = (v.within, v.drained, ds);
              separate =
                  (v.linear, λ base has later. apart base (v.smaller base has) later, separate);
              left = λ base index inside. elim inside [
                | inl here ↦ v.left base index here
                | inr later ↦ others_left base index later
              ];
            }
      ]

  drain_held :
      (rounds : ℕ) (iters : List BucketIter) (es : List E) (bound : ℕ) (h : Heap A)
      → AllDrained iters
      → Separate bound iters
      → SameIn (InIters iters) origin h
      → all_held content iters ≡ es
      → count es < rounds
      → collect take rounds iters h ≡ ok es
  unfolding collect
  drain_held zero iters es bound h drained separate left e lt = absurd (omega arith)
  drain_held (suc rounds) iters [] bound h drained separate left e lt =
      let n = next_visit iters bound h drained separate left in let run = n.runs in rw (run, e) refl
  drain_held (suc rounds) iters (x ∷ es) bound h drained separate left e lt =
      let n = next_visit iters bound h drained separate left in
      let run = n.runs in
      let after = n.after in
      let rest : all_held content n.iters' ≡ es = rw e at after in
      rw
        (
          run,
          e,
          drain_held rounds n.iters' es bound n.heap n.drained n.separate n.left rest (omega arith),
        )
        refl

  -- The iteration yields what the slots held at first.
  pub collect-drained :
      (rounds : ℕ) (iters : List BucketIter) (bound : ℕ)
      → AllDrained iters
      → Separate bound iters
      → count (all_held content iters) < rounds
      → collect take rounds iters origin ≡ ok (all_held content iters)
  collect-drained rounds iters bound drained separate lt =
      drain_held rounds iters (all_held content iters) bound origin drained separate
        (λ base index inside. refl) refl lt
