-- ===== src/Iter/Sizes.antt =====
-- src/iter.rs, `size_hint` of a new iterator, against `capacity` of src/lib.rs.
use read_write_store.Prelude.{
  ℕ, suc, ◌+◌, ◌-◌, ◌^◌, ◌≤◌, ◌≡◌, refl, sym, ap, subst, Check, ◌>>=◌, ◌∙◌, List, [], ◌∷◌,
  get_elem?, map, some, ok, arith, min,
}
use mathlib.Core.List.{reverse_aux}
use native.Mathlib.Nat.{one-le-pow}
use read_write_store.Block.{Heap}
use read_write_store.Bucket.{Bucket, head_size, head_size_to_total_size, sub_u32}
use read_write_store.Bucket
use read_write_store.Bucket.Capacity.{head_size_to_total_size_lem}
use read_write_store.Bucket.Unused.{IsReady, no_block, in_block}
use read_write_store.Iter.{BucketIter, new_iter, new_bucket_iter, bucket_size_hint, size_hint}
use read_write_store.Iter.Stores.{iter_of}
use read_write_store.Store.{Store, capacity}
use read_write_store.Store.Capacities.{bucket-IsReported, IsCounted, capacity-IsCounted}
use read_write_store.Store.Invariant.{IsStore}

-- The hints of the iterators add up to `n`.
abbrev IsHinted : List BucketIter → ℕ → Type 0
IsHinted [] n = n ≡ 0
IsHinted (it ∷ iters) n =
    (t : ℕ) × (rest : ℕ) × (bucket_size_hint it ≡ ok t) × IsHinted iters rest × (n ≡ t + rest)

size_hint-IsHinted :
    (iters : List BucketIter) (n total : ℕ)
    → IsHinted iters n
    → size_hint iters total ≡ ok (total + n)
unfolding size_hint
size_hint-IsHinted [] n total h = rw h (ap ok (omega arith))
size_hint-IsHinted (it ∷ iters) n total (t, rest, one, others, sum) =
    let later = size_hint-IsHinted iters rest (total + t) others in
    rw (one, later) (ap ok (omega (arith, sum)))

hint_lem :
    (k len last used : ℕ)
    → k ≤ 30
    → len ≡ 2 ^ k
    → used ≤ 2 ^ k
    → min used len ≡ last
    → (head_size_to_total_size len >>= λ allocated.
        sub_u32 len last >>= λ unseen. sub_u32 allocated unseen)
      ≡ ok (2 ^ k - 1 + used)
hint_lem k len last used small same within least =
    let total = head_size_to_total_size_lem k small in
    let one : 1 ≤ 2 ^ k = one-le-pow k 2 (omega arith) in
    let at : used ≡ last = omega arith in rw (same, total, ← at) (ground arith)

bucket_hint {ℓ} :
    {A : Type ℓ} (h : Heap A) (b : Bucket) (touched : ℕ)
    → IsReady h b touched
    → bucket_size_hint (iter_of b) ≡ ok touched
unfolding bucket_size_hint new_bucket_iter head_size_to_total_size Bucket.total_loop
bucket_hint h b touched (no_block store_id) = refl
bucket_hint h b touched
      (in_block {head = head} {rest = rest} {used = used} {k = k} {store_id = store_id} u count) =
    hint_lem k head.len (min used head.len) used u.small u.len u.within refl ∙ rw count refl

first_eq : {t t' a a' : ℕ} → ◌≡◌ {A = Check (ℕ × ℕ)} (ok (t, a)) (ok (t', a')) → t ≡ t'
first_eq e = cc

-- A bucket's hint is the number of slots that its capacity counts.
hint-capacity {ℓ} :
    {A : Type ℓ} (h : Heap A) (b : Bucket) (touched t a : ℕ)
    → IsReady h b touched
    → Bucket.capacity b ≡ ok (t, a)
    → bucket_size_hint (iter_of b) ≡ ok t
hint-capacity h b touched t a r e =
    let c = bucket-IsReported h b touched touched r (omega arith) in
    let both : touched ≡ t = first_eq (sym c.outcome ∙ e) in bucket_hint h b touched r ∙ ap ok both

reversed-IsHinted :
    (bs : List Bucket) (done : List BucketIter) (n sum : ℕ)
    → ((i : ℕ) (b : Bucket) (t a : ℕ)
        → get_elem? bs i ≡ some b
        → Bucket.capacity b ≡ ok (t, a)
        → bucket_size_hint (iter_of b) ≡ ok t)
    → IsHinted done n
    → IsCounted bs sum
    → IsHinted (reverse_aux (map iter_of bs) done) (n + sum)
reversed-IsHinted [] done n sum each h c = subst (λ m. IsHinted done m) (omega arith) h
reversed-IsHinted (b ∷ bs) done n sum each h (t, a, rest, one, others, adds) =
    let next =
      reversed-IsHinted bs (iter_of b ∷ done) (t + n) rest (λ i c. each (suc i) c)
        (t, n, each 0 b t a refl one, h, refl) others in
    subst (λ m. IsHinted (reverse_aux (map iter_of bs) (iter_of b ∷ done)) m) (omega (arith, adds))
      next

-- On a store that is in order after at most `2 ^ 26` calls, the upper bound that `size_hint` of a
-- new iterator gives is the touched capacity of the store, and neither computation overflows.
pub size_hint-capacity {ℓ} :
    {A : Type ℓ} (calls : ℕ) (s : Store A)
    → IsStore calls s
    → calls ≤ 2 ^ 26
    → (t : ℕ) × (a : ℕ) × (capacity s ≡ ok (t, a)) × (size_hint (new_iter s.buckets) 0 ≡ ok t)
unfolding new_iter
size_hint-capacity calls s i few =
    let (t, a, run, room, dense, sum, counts, adds) = capacity-IsCounted calls s i few in
    (
      t,
      a,
      run,
      size_hint-IsHinted (new_iter s.buckets) (0 + sum) 0 (
            reversed-IsHinted s.buckets [] 0 sum
              (λ j b t a at one.
                let (touched, le, r) = i.ready j b at in hint-capacity s.heap b touched t a r one)
              refl counts)
          ∙ ap ok (omega (arith, adds)),
    )
