-- ===== src/Tests/StoreTests.antt =====
-- src/lib.rs, its tests: each is run on the model, from a state of the thread's generator of bucket
-- IDs, and gives the value of its last assertion. Here is what they share.
mod Changes
mod Accesses
use read_write_store.Prelude.{
  ℕ, ◌≡◌, refl, Bool, true, false, not, ◌&&◌, Option, none, some, List, [], ◌∷◌, ◌++◌, Check, ok,
  panicked, ◌>>=◌, ◌==◌, leb, unwrap,
}
use read_write_store.Prelude.Panic.{unwrap_none, timed_out_unwrap}
use read_write_store.Timeout.{dont_block, done, timed_out}
use read_write_store.Id.{ElementId, same_address, generate}
use read_write_store.Slot.{Wait, returns, never}
use read_write_store.Block.{Heap}
use read_write_store.Lock.{ReadLock, WriteLock, deref, drop_read, drop_write}
use read_write_store.Store.{
  Store, new, insert, remove, remove_with_timeout, remove_locked, read, write, read_with_timeout,
  write_with_timeout, get_mut, get_mut_unchecked, capacity,
}
use read_write_store.Tests.Samples.{all_pass}

-- `RwStore::new`
abbrev pub new_store : Store ℕ
new_store = (new 0 (record { next_base = 0; cell = λ base index. none })).1

-- `Result::unwrap` and `is_err`, for a call that may block
abbrev pub finished {ℓ} : {B : Type ℓ} → Wait B → Check B
finished (returns (done b)) = ok b
finished w = panicked timed_out_unwrap

abbrev pub is_err {ℓ} : {B : Type ℓ} → Wait B → Bool
is_err (returns timed_out) = true
is_err w = false

abbrev pub is_ok {ℓ} : {B : Type ℓ} → Wait B → Bool
is_ok (returns (done b)) = true
is_ok w = false

abbrev pub is_none {ℓ} : {B : Type ℓ} → Option B → Bool
is_none none = true
is_none (some b) = false

abbrev pub is_some : Option ℕ → ℕ → Bool
is_some none b = false
is_some (some a) b = a == b

-- `store.remove(id).unwrap()`
abbrev pub removed : ElementId → Store ℕ → Check (Store ℕ × ℕ)
removed id s = do
  (s', w) ← remove id s
  found ← finished w
  element ← unwrap found unwrap_none
  ok (s', element)

-- `store.write(id).unwrap()`
abbrev pub write_locked : ElementId → Store ℕ → Check (Store ℕ × WriteLock)
write_locked id s = do
  (s', w) ← write id s
  found ← finished w
  lock ← unwrap found unwrap_none
  ok (s', lock)

-- The trait `AccessOperation`: a lock, as the ID that it gives access to, and its drop.
pub record AccessOperation : Type 0 where
  pub access : ElementId → Store ℕ → Check (Store ℕ × Wait (Option ElementId))
  pub release : ElementId → Store ℕ → Check (Store ℕ)

abbrev boxed {ℓ} : {L : Type ℓ} → (L → ElementId) → Wait (Option L) → Wait (Option ElementId)
boxed f never = never
boxed f (returns timed_out) = returns timed_out
boxed f (returns (done none)) = returns (done none)
boxed f (returns (done (some lock))) = returns (done (some (f lock)))

abbrev drop_read_lock : ElementId → Store ℕ → Check (Store ℕ)
drop_read_lock id s = do (h, u) ← drop_read (record { id = id }) s.heap; ok (record s { heap = h })

abbrev pub drop_write_lock : ElementId → Store ℕ → Check (Store ℕ)
drop_write_lock id s = do
  (h, u) ← drop_write (record { id = id }) s.heap
  ok (record s { heap = h })

abbrev pub read_operation : AccessOperation
read_operation = record {
  access = λ id s. read id s >>= λ r. ok (r.0, boxed (λ (lock : ReadLock). lock.id) r.1);
  release = drop_read_lock;
}

abbrev pub write_operation : AccessOperation
write_operation = record {
  access = λ id s. write id s >>= λ r. ok (r.0, boxed (λ (lock : WriteLock). lock.id) r.1);
  release = drop_write_lock;
}

abbrev pub read_with_timeout_operation : AccessOperation
read_with_timeout_operation = record {
  access = λ id s.
      read_with_timeout id dont_block s >>= λ r. ok (r.0, boxed (λ (lock : ReadLock). lock.id) r.1);
  release = drop_read_lock;
}

abbrev pub write_with_timeout_operation : AccessOperation
write_with_timeout_operation = record {
  access = λ id s. write_with_timeout id dont_block s >>= λ r.
      ok (r.0, boxed (λ (lock : WriteLock). lock.id) r.1);
  release = drop_write_lock;
}
