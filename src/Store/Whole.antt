-- ===== src/Store/Whole.antt =====
-- src/lib.rs, `insert` by any number of threads, with the calls on all the slots, the queue of
-- erasures, and the lookups in the buckets of src/bucket.rs: the slot of an insertion is one from
-- the queue, or the location that a lookup in a bucket has returned.
pub mod Apart
pub mod Lookups
pub mod Safety
use read_write_store.Prelude.{
  ℕ, ◌<◌, ◌≡◌, true, some, none, List, [], ◌∷◌, ok, replace, length, ◌^◌, ◌-◌,
}
use read_write_store.Id.{Address, RwStoreId}
use read_write_store.Slot.{Slot}
use read_write_store.Header.Code.{Reply, returned, occupy}
use read_write_store.Block.{Heap, put}
use read_write_store.Bucket
use read_write_store.Bucket.{Bucket}
use read_write_store.Bucket.Sharing.{Place, outside, acts, lookup_step, note, Move, Sharing}
use read_write_store.Store.{bucket_count}
use read_write_store.Store.Sharing.{Shared, SharedStep, is_listed, changed, empty}

-- The calls on the slots, the heap that the buckets share, the buckets with the places of the
-- threads in their lookups, and the locations that each bucket has handed out.
pub record Whole {ℓ} (A : Type ℓ) : Type ℓ where
  pub shared : Shared
  pub heap : Heap A
  pub bucket : ℕ → Bucket
  pub place : ℕ → ℕ → Place
  pub given : ℕ → List Address

module _ {ℓ} {A : Type ℓ} where
  unfoldable pub new_whole : RwStoreId → Heap A → Whole A
  new_whole store_id h = record {
    shared = empty;
    heap = h;
    bucket = λ k. Bucket.new store_id;
    place = λ k i. outside none;
    given = λ k. [];
  }

  -- The threads that look for slots in bucket `k`.
  abbrev pub bucket_of : Whole A → ℕ → Sharing A
  bucket_of s k = record {
    bucket = s.bucket k;
    heap = s.heap;
    place = s.place k;
    given = s.given k;
  }

  pub data WholeStep (n : ℕ) (s : Whole A) : Whole A → Type ℓ where
    -- a step of a call on a slot, `self.erasures.pop()` or `push_erasure`: no new slot is taken
    on_slots :
        {t : Shared}
        → SharedStep n s.shared t
        → t.given ≡ s.shared.given
        → WholeStep n s (record s { shared = t })
    -- `bucket.next_insert_location()`: a lookup or an expansion
    look :
        (k i : ℕ) {h : Heap A} {b : Bucket} {p : Place}
        → k < bucket_count
        → i < n
        → acts (s.place k i) ≡ true
        → lookup_step (s.place k i) (s.bucket k) s.heap ≡ ok (h, (b, p))
        → WholeStep n s (record s {
          heap = h;
          bucket = replace k b s.bucket;
          place = replace k (replace i p (s.place k)) s.place;
          given = replace k (note p (s.given k)) s.given;
        })
    -- the lock of the bucket, and the return from the lookup
    lock :
        (k i : ℕ) {p : Place}
        → k < bucket_count
        → i < n
        → Move n (s.place k) (s.place k i) p
        → WholeStep n s (record s { place = replace k (replace i p (s.place k)) s.place })
    -- `Block::insert(slot_address, …)` begins at the location that the lookup has returned
    insert_at :
        (k i : ℕ) {a : Address} {r : Reply}
        → k < bucket_count
        → i < n
        → s.place k i ≡ outside (some a)
        → s.shared.pc a i ≡ returned r
        → WholeStep n s (record s {
          shared = record (s.shared) {
            given = a ∷ s.shared.given;
            pc = changed a (replace i occupy (s.shared.pc a)) s.shared.pc;
          };
          place = replace k (replace i (outside none) (s.place k)) s.place;
        })
    -- a slot that a bucket has handed out is written
    write_slot :
        (k : ℕ) (a : Address) (slot : Slot A)
        → is_listed a (s.given k) ≡ true
        → WholeStep n s (record s { heap = record (s.heap) { cell = put a slot s.heap.cell } })

  pub data WholeReach (n : ℕ) : Whole A → Type ℓ where
    start : (store_id : RwStoreId) (h : Heap A) → WholeReach n (new_whole store_id h)
    later : {s t : Whole A} → WholeReach n s → WholeStep n s t → WholeReach n t

  -- Every bucket has handed out fewer slots than its blocks can have.
  abbrev pub IsSmall : Whole A → Type 0
  IsSmall s = (k : ℕ) → length (s.given k) < 2 ^ 31 - 1
