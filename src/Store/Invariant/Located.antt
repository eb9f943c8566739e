-- ===== src/Store/Invariant/Located.antt =====
-- src/lib.rs, the location that `insert` finds.
use read_write_store.Prelude.{
  ℕ, ◌-◌, ◌^◌, ◌<◌, ◌≡◌, refl, ap, ◌∙◌, ◌⊎◌, inl, inr, none, some, List, [], ◌∷◌, get_elem?,
  get_elem?-some, set, ok, arith,
}
use read_write_store.Id.{Address}
use read_write_store.Block.{Heap}
use read_write_store.Bucket.{Bucket, next_insert_location}
use read_write_store.Bucket.Locations.{next_insert_location_lem}
use read_write_store.Queue.{pop}
use read_write_store.Store.{Store, location, arbitrary_bucket_id}
use read_write_store.Store.Invariant.{IsStore}
use read_write_store.Store.Invariant.Erasure.{IsLocated, pop-some, taken}
use read_write_store.Store.Invariant.Fresh.{fresh}

list_cases :
    (xs : List Address) → (xs ≡ []) ⊎ ((x : Address) × (rest : List Address) × (xs ≡ x ∷ rest))
list_cases [] = inl refl
list_cases (x ∷ xs) = inr (x, xs, refl)

arbitrary_bucket_id-lt : (state : ℕ) → (arbitrary_bucket_id state).1 < 16
unfolding arbitrary_bucket_id
arbitrary_bucket_id-lt state = omega arith

module _ {ℓ} {A : Type ℓ} where
  location-popped :
      (s : Store A) (state : ℕ) (rest : List Address) (a : Address)
      → pop s.erasures ≡ some (rest, a)
      → location state s ≡ ok (state, (record s { erasures = rest }, a))
  unfolding location
  location-popped s state rest a e = rw (e, location) refl

  location-asked :
      (s : Store A) (state bucket_id : ℕ) (b b' : Bucket) (h' : Heap A) (a : Address)
      → pop s.erasures ≡ none
      → (arbitrary_bucket_id state).1 ≡ bucket_id
      → get_elem? s.buckets bucket_id ≡ some b
      → next_insert_location b s.heap ≡ ok (h', (b', a))
      → location state s
        ≡ ok (
          (arbitrary_bucket_id state).0,
          (record s { buckets = set s.buckets bucket_id b'; heap = h' }, a),
        )
  unfolding location
  location-asked s state bucket_id b b' h' a empty at here run =
      rw (empty, at, here, run, location) refl

  pub location_lem :
      (calls : ℕ) (s : Store A) (state : ℕ)
      → IsStore calls s
      → calls < 2 ^ 31 - 1
      → (state' : ℕ) × (s' : Store A) × (a : Address) × (location state s ≡ ok (state', (s', a)))
        × IsLocated calls s s' a
  unfolding pop
  location_lem calls s state i few = elim (list_cases s.erasures) [
    | inr (x, xs, e) ↦
        let (rest, a, run, ers, ds, ea, oa, keeps) =
          pop-some s.heap x xs (rw e at i.erased) (rw e at i.distinct) in
        (
          state,
          record s { erasures = rest },
          a,
          location-popped s state rest a (ap pop e ∙ run),
          taken rest a i ers ds ea oa,
        )
    | inl e ↦
        let id = (arbitrary_bucket_id state).1 in
        let size = i.size in
        let (b, here) = get_elem?-some s.buckets id (omega (arith, arbitrary_bucket_id-lt state)) in
        let (touched, le, r) = i.ready id b here in
        let (h', b', a, run, out) = next_insert_location_lem s.heap b touched r (omega arith) in
        (
          (arbitrary_bucket_id state).0,
          record s { buckets = set s.buckets id b'; heap = h' },
          a,
          location-asked s state id b b' h' a (ap pop e) refl here run,
          fresh i id touched b b' h' a here le out,
        )
  ]
