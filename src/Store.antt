-- ===== src/Store.antt =====
-- src/lib.rs: the store. Its methods are run by one thread; a thread's generator of bucket IDs is an
-- argument and a result of `insert`.
pub mod Spread
pub mod View
pub mod Removal
pub mod Access
pub mod Invariant
pub mod Look
pub mod Spec
pub mod Client
pub mod Refines
pub mod Insertion
pub mod Guards
pub mod Blocking
pub mod Capacities
pub mod Dropping
pub mod Dropped
pub mod Sharing
pub mod Whole
use read_write_store.Prelude.{
  ℕ, ◌+◌, ◌*◌, ◌%◌, ◌^◌, Bool, true, false, Option, none, some, List, [], ◌∷◌, ◌++◌, Check, ok,
  panicked, ◌>>=◌, ◌>>◌, debug_assert, unwrap, get_elem?, set, replicate, if◌then◌else◌,
}
use read_write_store.Prelude.Panic.{foreign_id, out_of_bounds, timed_out_unwrap}
use read_write_store.Timeout.{Timeout, BlockResult, done, timed_out, block_indefinitely}
use read_write_store.Id.{Address, RwStoreId, ElementId, generate, same_store}
use read_write_store.Slot.{Wait, returns, never, RemoveResult}
use read_write_store.Slot
use read_write_store.Block.{Block, Heap, on_slot}
use read_write_store.Block
use read_write_store.Bucket.{Bucket, add_u32}
use read_write_store.Bucket
use read_write_store.Queue
use read_write_store.Lock.{ReadLock, WriteLock, forget}

abbrev pub bucket_count : ℕ
bucket_count = 16

pub record Store {ℓ} (A : Type ℓ) : Type ℓ where
  pub buckets : List Bucket
  pub erasures : List Address
  pub store_id : RwStoreId
  pub heap : Heap A

-- `arbitrary_bucket_id`: the generator's next state and the bucket that it names.
unfoldable pub arbitrary_bucket_id : ℕ → ℕ × ℕ
arbitrary_bucket_id state =
    let state' = (state * 1103515245 % 2 ^ 32 + 12345) % 2 ^ 32 in (state', state' % bucket_count)

-- What a call without a timeout makes of the result: a timeout would be a panic.
abbrev pub unwrap_wait {ℓ} : {A : Type ℓ} → Wait A → Check (Wait A)
unwrap_wait (returns timed_out) = panicked timed_out_unwrap
unwrap_wait w = ok w

-- The guard for a lock that was taken.
abbrev pub guarded {κ} : {L : Type κ} → L → Wait Bool → Wait (Option L)
guarded lock never = never
guarded lock (returns timed_out) = returns timed_out
guarded lock (returns (done true)) = returns (done (some lock))
guarded lock (returns (done false)) = returns (done none)

module _ {ℓ} {A : Type ℓ} where
  -- `RwStore::new`, with the counter of store IDs
  unfoldable pub new : ℕ → Heap A → ℕ × Store A
  new next_store h =
      let (next_store', store_id) = generate next_store in
      (
        next_store',
        record {
          buckets = replicate bucket_count (Bucket.new store_id);
          erasures = [];
          store_id = store_id;
          heap = h;
        },
      )

  abbrev pub assert_native_id : Store A → ElementId → Check (Unit {0})
  assert_native_id s id = debug_assert (same_store s.store_id id.store_id) foreign_id

  -- Where `insert` puts an element: a slot that was vacated, or the next unused one of a bucket.
  unfoldable pub location : ℕ → Store A → Check (ℕ × (Store A × Address))
  location state s = elim (Queue.pop s.erasures) [
    | some (rest, a) ↦ ok (state, (record s { erasures = rest }, a))
    | none ↦
        let (state', bucket_id) = arbitrary_bucket_id state in
        do
          bucket ← unwrap (get_elem? s.buckets bucket_id) out_of_bounds
          (h, found) ← Bucket.next_insert_location bucket s.heap
          ok (state', (record s { buckets = set s.buckets bucket_id found.0; heap = h }, found.1))
  ]

  unfoldable pub insert : ℕ → A → Store A → Check (ℕ × (Store A × ElementId))
  insert state element s = do
    (state', found) ← location state s
    (h, id) ← Block.insert found.1 element s.store_id found.0.heap
    ok (state', (record (found.0) { heap = h }, id))

  unfoldable pub push_erasure : ElementId → Store A → Store A
  push_erasure id s = record s { erasures = Queue.push id.slot_address s.erasures }

  abbrev pub after_removal :
      ElementId → Store A → Wait (Option (RemoveResult A)) → Store A × Wait (Option A)
  after_removal id s never = (s, never)
  after_removal id s (returns timed_out) = (s, returns timed_out)
  after_removal id s (returns (done none)) = (s, returns (done none))
  after_removal id s (returns (done (some r))) =
      (if r.may_reuse then push_erasure id s else s, returns (done (some r.element)))

  unfoldable pub remove_with_timeout :
      ElementId → Timeout → Store A → Check (Store A × Wait (Option A))
  remove_with_timeout id timeout s = do
    assert_native_id s id
    (h, result) ← on_slot id.slot_address (Slot.remove id.ordinal timeout) s.heap
    ok (after_removal id (record s { heap = h }) result)

  unfoldable pub remove : ElementId → Store A → Check (Store A × Wait (Option A))
  remove id s = do
    (s', result) ← remove_with_timeout id block_indefinitely s
    w ← unwrap_wait result
    ok (s', w)

  unfoldable pub remove_locked : WriteLock → Store A → Check (Store A × A)
  remove_locked lock s = do
    assert_native_id s (forget lock)
    (h, result) ←
        on_slot (forget lock).slot_address (Slot.remove_locked_slot (forget lock).ordinal) s.heap
    let s' = record s { heap = h }
    ok (if result.may_reuse then push_erasure (forget lock) s' else s', result.element)

  unfoldable pub read_with_timeout :
      ElementId → Timeout → Store A → Check (Store A × Wait (Option ReadLock))
  read_with_timeout id timeout s = do
    assert_native_id s id
    (h, result) ← on_slot id.slot_address (Slot.lock_read id.ordinal timeout) s.heap
    let lock : ReadLock = record { id = id }
    ok (record s { heap = h }, guarded lock result)

  unfoldable pub read : ElementId → Store A → Check (Store A × Wait (Option ReadLock))
  read id s = do
    (s', result) ← read_with_timeout id block_indefinitely s
    w ← unwrap_wait result
    ok (s', w)

  unfoldable pub write_with_timeout :
      ElementId → Timeout → Store A → Check (Store A × Wait (Option WriteLock))
  write_with_timeout id timeout s = do
    assert_native_id s id
    (h, result) ← on_slot id.slot_address (Slot.lock_write id.ordinal timeout) s.heap
    let lock : WriteLock = record { id = id }
    ok (record s { heap = h }, guarded lock result)

  unfoldable pub write : ElementId → Store A → Check (Store A × Wait (Option WriteLock))
  write id s = do
    (s', result) ← write_with_timeout id block_indefinitely s
    w ← unwrap_wait result
    ok (s', w)

  unfoldable pub get_mut : ElementId → Store A → Check (Option A)
  get_mut id s = do
    assert_native_id s id
    slot ← unwrap (s.heap.cell id.slot_address.base id.slot_address.index) out_of_bounds
    Slot.get_exclusive id.ordinal slot

  unfoldable pub get_mut_unchecked : ElementId → Store A → Check A
  get_mut_unchecked id s = do
    assert_native_id s id
    slot ← unwrap (s.heap.cell id.slot_address.base id.slot_address.index) out_of_bounds
    Slot.get_unchecked slot

-- `RwStore::capacity`, over the buckets
unfoldable pub total_capacity : List Bucket → ℕ → ℕ → Check (ℕ × ℕ)
total_capacity [] touched allocated = ok (touched, allocated)
total_capacity (b ∷ rest) touched allocated = do
  (t, a) ← Bucket.capacity b
  touched' ← add_u32 touched t
  allocated' ← add_u32 allocated a
  total_capacity rest touched' allocated'

unfoldable pub capacity {ℓ} : {A : Type ℓ} → Store A → Check (ℕ × ℕ)
capacity s = total_capacity s.buckets 0 0

-- What is dropped with the store: the buckets, in order.
unfoldable pub drop_buckets {ℓ} :
    {A : Type ℓ} → (Option A → Check A) → List Bucket → Heap A → Check (List (ElementId × A))
drop_buckets cast [] h = ok []
drop_buckets cast (b ∷ rest) h = do
  first ← Block.drop_blocks cast b.blocks h
  others ← drop_buckets cast rest h
  ok (first ++ others)

unfoldable pub drop_store {ℓ} :
    {A : Type ℓ} → (Option A → Check A) → Store A → Check (List (ElementId × A))
drop_store cast s = drop_buckets cast s.buckets s.heap
