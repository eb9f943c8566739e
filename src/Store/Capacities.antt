-- ===== src/Store/Capacities.antt =====
-- src/lib.rs, `capacity` of a store in order.
use read_write_store.Prelude.{
  panicked, Check, ◌∙◌, ℕ, suc, ◌+◌, ◌*◌, ◌-◌, ◌^◌, ◌≤◌, ◌≡◌, refl, List, [], ◌∷◌, length,
  get_elem?, some, true, ok, ltb, leb, if◌then◌else◌, arith,
}
use read_write_store.Prelude.Panic.{overflow}
use native.Mathlib.Nat.{one-le-pow, suc-mul}
use read_write_store.Block.{Heap}
use read_write_store.Bucket.{Bucket}
use read_write_store.Bucket
use read_write_store.Bucket.Capacity.{capacity_lem}
use read_write_store.Bucket.Unused.{IsReady, no_block, in_block}
use read_write_store.Store.{Store, capacity, total_capacity}
use read_write_store.Store.Invariant.{IsStore}

-- What a bucket that has handed out `touched` slots reports.
pub record IsReported (b : Bucket) (calls touched : ℕ) : Type 0 where
  pub allocated : ℕ
  pub outcome : Bucket.capacity b ≡ ok (touched, allocated)
  pub few : touched ≤ calls
  pub room : touched ≤ allocated
  pub dense : allocated ≤ 2 * touched + 1

pub bucket-IsReported {ℓ} :
    {A : Type ℓ} (h : Heap A) (b : Bucket) (touched calls : ℕ)
    → IsReady h b touched
    → touched ≤ calls
    → IsReported b calls touched
unfolding Bucket.capacity Bucket.head_size_to_total_size Bucket.total_loop
bucket-IsReported h b touched calls (no_block store_id) le = record {
  allocated = 0;
  outcome = refl;
  few = omega arith;
  room = omega arith;
  dense = omega arith;
}
bucket-IsReported h b touched calls
      (in_block {head = head} {rest = rest} {used = used} {k = k} {store_id = store_id} u count)
      le =
    record {
      allocated = 2 * 2 ^ k - 1;
      outcome = capacity_lem k head rest used store_id u.small u.len ∙ counted;
      few = le;
      room = omega (arith, one-le-pow k 2, u.within);
      dense = omega (arith, one-le-pow k 2, u.within);
    }
  where
    counted :
        if◌then◌else◌ {A = Check (ℕ × ℕ)}
          (leb used (2 ^ k))
          (ok (2 ^ k - 1 + used, 2 * 2 ^ k - 1))
          (panicked overflow)
        ≡ ok (touched, 2 * 2 ^ k - 1)
    counted = rw count (ground (arith, u.within))

-- What the buckets have handed out, added up.
abbrev pub IsCounted : List Bucket → ℕ → Type 0
IsCounted [] n = n ≡ 0
IsCounted (b ∷ bs) n =
    (t : ℕ) × (a : ℕ) × (rest : ℕ) × (Bucket.capacity b ≡ ok (t, a))
    × IsCounted bs rest
    × (n ≡ t + rest)

-- The sums over the buckets.
pub total_reported :
    (bs : List Bucket) (calls t a n : ℕ)
    → ((i : ℕ) (b : Bucket) → get_elem? bs i ≡ some b → (touched : ℕ) × IsReported b calls touched)
    → t ≤ a
    → a ≤ 2 * t + n
    → t + length bs * calls ≤ 2 ^ 30
    → n + length bs ≤ 16
    → (t' : ℕ) × (a' : ℕ) × (total_capacity bs t a ≡ ok (t', a'))
      × (t' ≤ a')
      × (a' ≤ 2 * t' + 16)
      × (sum : ℕ) × IsCounted bs sum
      × (t' ≡ t + sum)
unfolding total_capacity
total_reported [] calls t a n each room dense few short =
    (t, a, refl, room, omega arith, 0, refl, omega arith)
total_reported (b ∷ bs) calls t a n each room dense few short =
    let (tb, r) = each 0 b refl in
    let next : t + tb + length bs * calls ≤ 2 ^ 30 =
      omega (arith, r.few, suc-mul (length bs) calls) in
    let fits : ltb (t + tb) (2 ^ 32) ≡ true = ground (arith, r.dense, r.room) in
    let fits' : ltb (a + r.allocated) (2 ^ 32) ≡ true = ground (arith, r.dense, r.room) in
    let (t', a', run, room', dense', sum, counts, adds) =
      total_reported bs calls (t + tb) (a + r.allocated) (n + 1) (λ i c at. each (suc i) c at)
        (omega (arith, r.room)) (omega (arith, r.dense)) next (omega arith) in
    (
      t',
      a',
      rw (r.outcome, fits, fits') run,
      room',
      dense',
      tb + sum,
      (tb, r.allocated, sum, r.outcome, counts, refl),
      omega arith,
    )

-- The capacity of a store, with the sum that its first number is.
pub capacity-IsCounted {ℓ} :
    {A : Type ℓ} (calls : ℕ) (s : Store A)
    → IsStore calls s
    → calls ≤ 2 ^ 26
    → (t : ℕ) × (a : ℕ) × (capacity s ≡ ok (t, a))
      × (t ≤ a)
      × (a ≤ 2 * t + 16)
      × (sum : ℕ) × IsCounted s.buckets sum
      × (t ≡ 0 + sum)
unfolding capacity
capacity-IsCounted calls s i few =
    total_reported s.buckets calls 0 0 0
      (λ j b at.
        let (touched, le, r) = i.ready j b at in
        (touched, bucket-IsReported s.heap b touched calls r le))
      (omega arith) (omega arith) (rw (i.size) (omega arith)) (omega (arith, i.size))

-- On a store that is in order after at most `2 ^ 26` calls, `capacity` does not overflow; the
-- touched slots are among the allocated ones, which are at most twice as many and one more for
-- each of the sixteen buckets.
pub capacity_bounds {ℓ} :
    {A : Type ℓ} (calls : ℕ) (s : Store A)
    → IsStore calls s
    → calls ≤ 2 ^ 26
    → (t : ℕ) × (a : ℕ) × (capacity s ≡ ok (t, a)) × (t ≤ a) × (a ≤ 2 * t + 16)
capacity_bounds calls s i few =
    let (t, a, run, room, dense, sum, counts, adds) = capacity-IsCounted calls s i few in
    (t, a, run, room, dense)
