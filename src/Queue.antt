-- ===== src/Queue.antt =====
-- src/util/sync/concurrent_queue.rs: the queue of erasures, in the form that the file itself
-- implements (a vector, pushed in front and popped at the end).
use read_write_store.Prelude.{Option, none, some, List, [], ◌∷◌, ◌++◌, ◌≡◌, refl, ◌∙◌}

module _ {ℓ} {A : Type ℓ} where
  unfoldable pub push : A → List A → List A
  push value inner = value ∷ inner

  -- `Vec::pop`: the last element and the rest.
  unfoldable pub pop : List A → Option (List A × A)
  pop [] = none
  pop (x ∷ []) = some ([], x)
  pop (x ∷ y ∷ rest) = elim (pop (y ∷ rest)) [
    | none ↦ none
    | some (inner, value) ↦ some (x ∷ inner, value)
  ]

  -- Many pushes, the first of the list first, and many pops.
  unfoldable pub push_all : List A → List A → List A
  push_all [] inner = inner
  push_all (x ∷ xs) inner = push_all xs (push x inner)

  unfoldable pub pop_all : List A → List A → Option (List A × List A)
  pop_all [] inner = some (inner, [])
  pop_all (x ∷ xs) inner = elim (pop inner) [
    | none ↦ none
    | some (rest, value) ↦ elim (pop_all xs rest) [
      | none ↦ none
      | some (end, values) ↦ some (end, value ∷ values)
    ]
  ]

  pop-snoc : (xs : List A) (x : A) → pop (xs ++ (x ∷ [])) ≡ some (xs, x)
  unfolding pop
  pop-snoc [] x = refl
  pop-snoc (y ∷ []) x = refl
  pop-snoc (y ∷ z ∷ xs) x = rw (pop-snoc (z ∷ xs) x) refl

  append_assoc : (xs ys zs : List A) → (xs ++ ys) ++ zs ≡ xs ++ (ys ++ zs)
  append_assoc [] ys zs = refl
  append_assoc (x ∷ xs) ys zs = rw (append_assoc xs ys zs) refl

  -- The vector that a row of pushes leaves behind.
  backwards : List A → List A
  backwards [] = []
  backwards (x ∷ xs) = backwards xs ++ (x ∷ [])

  push_all_lem : (xs inner : List A) → push_all xs inner ≡ backwards xs ++ inner
  unfolding push_all push backwards
  push_all_lem [] inner = refl
  push_all_lem (x ∷ xs) inner =
      push_all_lem xs (x ∷ inner) ∙ rw (append_assoc (backwards xs) (x ∷ []) inner) refl

  append_nil : (xs : List A) → xs ++ [] ≡ xs
  append_nil [] = refl
  append_nil (x ∷ xs) = rw (append_nil xs) refl

  pop_all-step :
      (x value : A) (xs inner rest end values : List A)
      → pop inner ≡ some (rest, value)
      → pop_all xs rest ≡ some (end, values)
      → pop_all (x ∷ xs) inner ≡ some (end, value ∷ values)
  unfolding pop_all
  pop_all-step x value xs inner rest end values one others = rw (pop_all, one, others) refl

  pop_all-backwards : (xs : List A) → pop_all xs (backwards xs) ≡ some ([], xs)
  unfolding pop_all backwards
  pop_all-backwards [] = refl
  pop_all-backwards (x ∷ xs) =
      pop_all-step x x xs (backwards xs ++ (x ∷ [])) (backwards xs) [] xs
        (pop-snoc (backwards xs) x) (pop_all-backwards xs)

  -- The queue is first in, first out: as many pops as there were pushes onto the empty queue give
  -- the pushed values in the order of the pushes, and leave the queue empty.
  pub pop_all-push_all : (xs : List A) → pop_all xs (push_all xs []) ≡ some ([], xs)
  pop_all-push_all xs = rw (push_all_lem xs [], append_nil (backwards xs)) (pop_all-backwards xs)
