-- ===== src/Header/System.antt =====
-- Threads that share one `Header`, interleaved in any order, one atomic operation at a time. The
-- atomics are sequentially consistent here. `Park` (src/util/sync/park.rs) is a queue under a lock:
-- `park` runs its closure and goes to sleep under that lock, `unpark` takes it and wakes everyone.
-- Who may call what is what the crate keeps to: an ID is one that the slot has given out, a lock is
-- released by its holder, and the slot's address is handed to one insertion at a time.
use read_write_store.Prelude.{ℕ, suc, ◌<◌, ◌≡◌, Bool, true, false, ok, replace}
use read_write_store.Timeout.{Timeout, block_until}
use read_write_store.Header.Word.{unoccupied_bits}
use read_write_store.Header.Code.{
  Attempt, reading, changing, Reply, nothing, timed_out, Pc, returned, block, attempt, mark, queued,
  parked, read_held, unlock_read, write_held, unlock_write, remove_locked, unpark, removed, occupy,
  start_lock_read, start_lock_write, start_remove, advance,
}
use read_write_store.Header.Abstract.{issued}

-- `vacant` counts the ways to the slot that an insertion can take: an unused slot of the bucket, or
-- an entry of the store's queue of erasures.
pub record System : Type 0 where
  pub word : ℕ
  pub vacant : ℕ
  pub pc : ℕ → Pc

-- `Header::new`, in a block that has just been allocated.
unfoldable pub init : System
unfolding unoccupied_bits
init = record { word = unoccupied_bits 0; vacant = 1; pc = λ _. returned nothing }

-- Whether a thread has the queue of `Park`.
abbrev pub has_queue : Pc → Bool
has_queue (attempt a) = true
has_queue (mark a expected new) = true
has_queue (queued a) = true
has_queue _ = false

abbrev pub IsQueueFree : ℕ → System → Type 0
IsQueueFree n s = (j : ℕ) → j < n → has_queue (s.pc j) ≡ false

-- `Park::unpark`: every sleeper returns with `Waited`, and `block` starts again.
abbrev pub wake : Pc → Pc
wake (parked a) = block a
wake p = p

abbrev pub has_deadline : Attempt → Bool
has_deadline (reading id (block_until d)) = true
has_deadline (changing why expected new (block_until d)) = true
has_deadline _ = false

-- What a thread does between two atomic operations of the header: it calls, it releases.
pub data Call (word : ℕ) : Pc → Pc → Type 0 where
  read :
      (id : ℕ) (t : Timeout) {r : Reply} {p : Pc}
      → id < issued word
      → start_lock_read id t ≡ ok p
      → Call word (returned r) p
  write :
      (id : ℕ) (t : Timeout) {r : Reply} {p : Pc}
      → id < issued word
      → start_lock_write id t ≡ ok p
      → Call word (returned r) p
  remove :
      (id : ℕ) (t : Timeout) {r : Reply} {p : Pc}
      → id < issued word
      → start_remove id t ≡ ok p
      → Call word (returned r) p
  drop_read : {id : ℕ} → Call word (read_held id) (unlock_read id)
  drop_write : {id : ℕ} → Call word (write_held id) (unlock_write id)
  remove_held : {id : ℕ} → Call word (write_held id) (remove_locked id)
  fall_asleep : {a : Attempt} → Call word (queued a) (parked a)
  expire : {a : Attempt} → has_deadline a ≡ true → Call word (parked a) (returned timed_out)
  retire : Call word (removed false) (returned nothing)

pub data Step (n : ℕ) (s : System) : System → Type 0 where
  act :
      (spurious : Bool) (i : ℕ) {w : ℕ} {p : Pc}
      → i < n
      → advance spurious (s.pc i) s.word ≡ ok (w, p)
      → Step n s (record s { word = w; pc = replace i p s.pc })
  call :
      (i : ℕ) {p : Pc}
      → i < n
      → Call s.word (s.pc i) p
      → Step n s (record s { pc = replace i p s.pc })
  take_queue :
      (i : ℕ) {a : Attempt}
      → i < n
      → s.pc i ≡ block a
      → IsQueueFree n s
      → Step n s (record s { pc = replace i (attempt a) s.pc })
  wake_all :
      (i : ℕ) {p : Pc}
      → i < n
      → s.pc i ≡ unpark p
      → IsQueueFree n s
      → Step n s (record s { pc = λ j. wake (replace i p s.pc j) })
  claim :
      (i : ℕ) {r : Reply} {v : ℕ}
      → i < n
      → s.pc i ≡ returned r
      → s.vacant ≡ suc v
      → Step n s (record s { vacant = v; pc = replace i occupy s.pc })
  recycle :
      (i : ℕ)
      → i < n
      → s.pc i ≡ removed true
      → Step n s (record s { vacant = suc s.vacant; pc = replace i (returned nothing) s.pc })

pub data Reach (n : ℕ) : System → Type 0 where
  start : Reach n init
  later : {s t : System} → Reach n s → Step n s t → Reach n t
