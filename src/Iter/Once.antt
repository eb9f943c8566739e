-- ===== src/Iter/Once.antt =====
-- src/iter.rs, an iteration over a store in order yields no ID twice.
use read_write_store.Prelude.{
  ℕ, zero, suc, refl, inl, inr, List, [], ◌∷◌, ◌++◌, arith, Option-cases,
}
use read_write_store.Id.{ElementId}
use read_write_store.Block.{Block, Heap, scramble_slot}
use read_write_store.Bucket.{head_size}
use read_write_store.Bucket.Chains.{InChain, InChain-mono, Descending, InChain-HasBlock}
use read_write_store.Iter.{BucketIter}
use read_write_store.Iter.Yields.{held, all_held, IsWithin, start-IsWithin}
use read_write_store.Iter.Contents.{IsYielded, content, content_found}
use read_write_store.Iter.Stores.{IsYielded-split}
use read_write_store.Iter.Places.{IsSized, InIters, InIters-HasIter, Separate, rest_apart}

abbrev pub AllSized : List Block → Type 0
AllSized [] = Unit
AllSized (b ∷ rest) = IsSized b × AllSized rest

abbrev pub ItersSized : List BucketIter → Type 0
ItersSized [] = Unit
ItersSized (it ∷ iters) = IsWithin it.blocks it.last_slot × AllSized it.blocks × ItersSized iters

module _ {ℓ} {A : Type ℓ} where
  -- No ID is yielded twice.
  abbrev pub NoTwice : List (ElementId × A) → Type ℓ
  NoTwice [] = Unit
  NoTwice (x ∷ xs) = ((e : A) → IsYielded x.0 e xs → ⊥) × NoTwice xs

  pub NoTwice-append :
      (xs ys : List (ElementId × A))
      → NoTwice xs
      → NoTwice ys
      → ((id : ElementId) (e e' : A) → IsYielded id e xs → IsYielded id e' ys → ⊥)
      → NoTwice (xs ++ ys)
  NoTwice-append [] ys nx ny apart = ny
  NoTwice-append (x ∷ xs) ys (first, nx) ny apart = (
    λ e y. elim (IsYielded-split x.0 e xs ys y) [
      | inl early ↦ first e early
      | inr late ↦ apart x.0 x.1 e (inl (ground arith, refl)) late
    ],
    NoTwice-append xs ys nx ny (λ id e e' early late. apart id e e' (inr early) late),
  )

  -- What is yielded stands at a slot that was visited.
  held_inside :
      (h : Heap A) (bs : List Block) (last : ℕ) (id : ElementId) (e : A)
      → IsYielded id e (held (content h) bs last)
      → InChain bs last id.slot_address.base id.slot_address.index
  unfolding held
  held_inside h [] last id e y = absurd y.0
  held_inside h (b ∷ rest) zero id e y = inr (held_inside h rest (head_size rest) id e y)
  held_inside h (b ∷ rest) (suc l) id e y = elim (Option-cases (content h b l)) [
    | inl nothing ↦
        InChain-mono (b ∷ rest) l (suc l) id.slot_address.base id.slot_address.index (omega arith)
          (held_inside h (b ∷ rest) l id e (rw nothing at y))
    | inr (x, at) ↦
        let y' : IsYielded id e (x ∷ held (content h) (b ∷ rest) l) = rw at at y in
        elim y' [
          | inr older ↦
              InChain-mono (b ∷ rest) l (suc l) id.slot_address.base id.slot_address.index
                (omega arith) (held_inside h (b ∷ rest) l id e older)
          | inl (same, value) ↦
              let (base, index, element) =
                content_found b (scramble_slot b.len l) (h.cell b.base (scramble_slot b.len l)) x id
                  at same in
              inl (base, l, omega arith, index)
        ]
  ]

  held-NoTwice :
      (h : Heap A) (bs : List Block) (last bound : ℕ)
      → IsWithin bs last
      → AllSized bs
      → Descending bound bs
      → NoTwice (held (content h) bs last)
  unfolding held
  held-NoTwice h [] last bound w sized d = tt
  held-NoTwice h (b ∷ rest) zero bound w (one, sized) (below, d) =
      held-NoTwice h rest (head_size rest) b.base (start-IsWithin rest) sized d
  held-NoTwice h (b ∷ rest) (suc l) bound w (one, sized) d =
      let others = held-NoTwice h (b ∷ rest) l bound (omega arith) (one, sized) d in
      elim (Option-cases (content h b l)) [
        | inl nothing ↦ rw nothing others
        | inr (x, at) ↦ rw at (
            (
              λ e y.
                  let (base, index, element) =
                    content_found b (scramble_slot b.len l) (h.cell b.base (scramble_slot b.len l))
                      x x.0 at (ground arith) in
                  rest_apart b rest bound l x.0.slot_address.base x.0.slot_address.index one
                    (omega arith) d (held_inside h (b ∷ rest) l x.0 e y) (base, index),
              others,
            ))
      ]

  all_held_inside :
      (h : Heap A) (iters : List BucketIter) (id : ElementId) (e : A)
      → IsYielded id e (all_held (content h) iters)
      → InIters iters id.slot_address.base id.slot_address.index
  unfolding all_held
  all_held_inside h [] id e y = absurd y.0
  all_held_inside h (it ∷ iters) id e y =
      elim (IsYielded-split id e (held (content h) it.blocks it.last_slot) _ y) [
        | inl here ↦ inl (held_inside h it.blocks it.last_slot id e here)
        | inr later ↦ inr (all_held_inside h iters id e later)
      ]

  pub all_held-NoTwice :
      (h : Heap A) (iters : List BucketIter) (bound : ℕ)
      → ItersSized iters
      → Separate bound iters
      → NoTwice (all_held (content h) iters)
  unfolding all_held
  all_held-NoTwice h [] bound sized separate = tt
  all_held-NoTwice h (it ∷ iters) bound (within, sized, others) (linear, apart, separate) =
      NoTwice-append (held (content h) it.blocks it.last_slot) _
        (held-NoTwice h it.blocks it.last_slot bound within sized linear)
        (all_held-NoTwice h iters bound others separate)
        (λ id e e' here later.
          apart id.slot_address.base
            (InChain-HasBlock it.blocks it.last_slot id.slot_address.base id.slot_address.index
              (held_inside h it.blocks it.last_slot id e here))
            (InIters-HasIter iters id.slot_address.base id.slot_address.index
              (all_held_inside h iters id e' later)))
