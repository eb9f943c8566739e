-- ===== src/Bucket/Sharing.antt =====
-- src/bucket.rs, with any number of threads in `Bucket::next_insert_location` of one bucket. The lock
-- around a `BucketInner` (src/util/sync/rwlock.rs) has readers or one writer; under it, a lookup is one
-- `fetch_add` of the counter, and a thread with the write lock has the bucket to itself.
pub mod Given
pub mod Stock
pub mod Exclusion
pub mod Invariant
pub mod Kept
pub mod Safety
use read_write_store.Prelude.{
  ℕ, zero, suc, ◌<◌, ◌≤◌, ◌≡◌, Bool, true, false, ◌||◌, Option, none, some, List, [], ◌∷◌, Check,
  ok, ◌>>=◌, unwrap, replace,
}
use read_write_store.Prelude.Panic.{unwrap_none}
use read_write_store.Id.{Address, RwStoreId}
use read_write_store.Block.{Block, Heap}
use read_write_store.Bucket
use read_write_store.Bucket.{Bucket, try_location, expand}

-- Where a thread is in `next_insert_location` and `next_insert_location_slow`.
pub data Place : Type 0 where
  -- in no call; what the last one returned
  outside : Option Address → Place
  -- with the read lock
  looking missed : Place
  leaving_read : Address → Place
  -- between the locks
  slow : Place
  -- with the write lock
  looking_again expanding looking_last : Place
  leaving_write : Address → Place

abbrev pub holds_read : Place → Bool
holds_read looking = true
holds_read missed = true
holds_read (leaving_read a) = true
holds_read _ = false

abbrev pub holds_write : Place → Bool
holds_write looking_again = true
holds_write expanding = true
holds_write looking_last = true
holds_write (leaving_write a) = true
holds_write _ = false

abbrev pub holds : Place → Bool
holds p = holds_read p || holds_write p

-- Whether the next thing that the thread does is to look up a slot or to expand.
abbrev pub acts : Place → Bool
acts looking = true
acts looking_again = true
acts expanding = true
acts looking_last = true
acts _ = false

-- `if let Some(location) = … { return location; }`
abbrev pub choose : Option Address → (Address → Place) → Place → Place
choose none leave next = next
choose (some a) leave next = leave a

module _ {ℓ} {A : Type ℓ} where
  unfoldable pub lookup_step : Place → Bucket → Heap A → Check (Heap A × (Bucket × Place))
  lookup_step looking b h = do
    (b', found) ← try_location b
    ok (h, (b', choose found leaving_read missed))
  lookup_step looking_again b h = do
    (b', found) ← try_location b
    ok (h, (b', choose found leaving_write expanding))
  lookup_step expanding b h = do (h', b') ← expand b h; ok (h', (b', looking_last))
  lookup_step looking_last b h = do
    (b', found) ← try_location b
    a ← unwrap found unwrap_none
    ok (h, (b', leaving_write a))
  lookup_step p b h = ok (h, (b, p))

-- The locations that were handed out, the last one first.
abbrev pub note : Place → List Address → List Address
note (leaving_read a) given = a ∷ given
note (leaving_write a) given = a ∷ given
note _ given = given

abbrev pub IsReadable : ℕ → (ℕ → Place) → Type 0
IsReadable n place = (j : ℕ) → j < n → holds_write (place j) ≡ false

abbrev pub IsWritable : ℕ → (ℕ → Place) → Type 0
IsWritable n place = (j : ℕ) → j < n → holds (place j) ≡ false

-- What a thread does to the lock.
pub data Move (n : ℕ) (place : ℕ → Place) : Place → Place → Type 0 where
  take_read : {last : Option Address} → IsReadable n place → Move n place (outside last) looking
  drop_read : Move n place missed slow
  take_write : IsWritable n place → Move n place slow looking_again
  return_read : {a : Address} → Move n place (leaving_read a) (outside (some a))
  return_write : {a : Address} → Move n place (leaving_write a) (outside (some a))

abbrev pub IsNew : Address → List Address → Type 0
IsNew a [] = Unit
IsNew a (b ∷ given) = (a ≡ b → ⊥) × IsNew a given

abbrev pub AllDistinct : List Address → Type 0
AllDistinct [] = Unit
AllDistinct (a ∷ given) = IsNew a given × AllDistinct given

abbrev pub IsNewest : List Block → ℕ → Type 0
IsNewest [] base = ⊥
IsNewest (head ∷ rest) base = head.base ≡ base

pub record Sharing {ℓ} (A : Type ℓ) : Type ℓ where
  pub bucket : Bucket
  pub heap : Heap A
  pub place : ℕ → Place
  pub given : List Address

module _ {ℓ} {A : Type ℓ} where
  unfoldable pub new_sharing : RwStoreId → Heap A → Sharing A
  new_sharing store_id h = record {
    bucket = Bucket.new store_id;
    heap = h;
    place = λ _. outside none;
    given = [];
  }

  -- The rest of the program allocates other blocks, and writes to the slots that were handed out.
  pub data BucketStep (n : ℕ) (s : Sharing A) : Sharing A → Type ℓ where
    act :
        (i : ℕ) {h : Heap A} {b : Bucket} {p : Place}
        → i < n
        → acts (s.place i) ≡ true
        → lookup_step (s.place i) s.bucket s.heap ≡ ok (h, (b, p))
        → BucketStep n s
            (record { bucket = b; heap = h; place = replace i p s.place; given = note p s.given })
    move :
        (i : ℕ) {p : Place}
        → i < n
        → Move n s.place (s.place i) p
        → BucketStep n s (record s { place = replace i p s.place })
    other :
        {h : Heap A}
        → s.heap.next_base ≤ h.next_base
        → ((a : Address)
            → IsNewest s.bucket.blocks a.base
            → IsNew a s.given
            → h.cell a.base a.index ≡ s.heap.cell a.base a.index)
        → BucketStep n s (record s { heap = h })

  pub data Reach (n : ℕ) : Sharing A → Type ℓ where
    start : (store_id : RwStoreId) (h : Heap A) → Reach n (new_sharing store_id h)
    later : {s t : Sharing A} → Reach n s → BucketStep n s t → Reach n t

  -- Steps that lead from a state to `t`.
  pub data Run (n : ℕ) (t : Sharing A) : Sharing A → Type ℓ where
    ended : Run n t t
    first : {s u : Sharing A} → BucketStep n s u → Run n t u → Run n t s
