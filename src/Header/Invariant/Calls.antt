-- ===== src/Header/Invariant/Calls.antt =====
-- What a thread does between two operations of the header, as a change of one thread.
use read_write_store.Prelude.{ℕ, ◌+◌, ◌-◌, ◌*◌, ◌^◌, ◌<◌, ◌≡◌, ok, arith}
use read_write_store.Timeout.{Timeout}
use read_write_store.Header.Word.Laws.{
  unoccupied_bits_lem, occupied_unlocked_bits_lem, write_locked_bits_lem,
}
use read_write_store.Header.Code.{
  locking, removing, Pc, lock_read, transition, start_lock_read, start_lock_write, start_remove,
  add_u32,
}
use read_write_store.Header.Abstract.{issued, IsLocal, IsWord}
use read_write_store.Header.System.{
  Call, read, write, remove, drop_read, drop_write, remove_held, fall_asleep, expire, retire,
}
use read_write_store.Header.Invariant.Changes.{Change}

-- An ID that has been given out is not the reserved one, so the calls pass their assertions.
pub starts :
    (w id : ℕ) (t : Timeout)
    → IsWord w
    → id < issued w
    → (start_lock_read id t ≡ ok (lock_read id t))
      × (start_lock_write id t
          ≡ ok (transition (locking id) (2 ^ 63 + id) ((2 ^ 32 - 1) * 2 ^ 32 + id) t))
      × (start_remove id t ≡ ok (transition (removing id (id + 1)) (2 ^ 63 + id) (id + 1) t))
unfolding start_lock_read start_lock_write start_remove add_u32
starts w id t good h = (
  ground arith,
  ground (arith, occupied_unlocked_bits_lem id, write_locked_bits_lem id),
  ground (arith, occupied_unlocked_bits_lem id, unoccupied_bits_lem (id + 1)),
)

pub Call-Change : (w v : ℕ) {p p' : Pc} → IsWord w → IsLocal w p → Call w p p' → Change w v p w v p'
Call-Change w v {p' = q} good l (read id t h e) =
    let same : lock_read id t ≡ q = cc (e, (starts w id t good h).0) in rw (← same) (ground arith)
Call-Change w v {p' = q} good l (write id t h e) =
    let same : transition (locking id) (2 ^ 63 + id) ((2 ^ 32 - 1) * 2 ^ 32 + id) t ≡ q =
      cc (e, (starts w id t good h).1) in
    rw (← same) (ground arith)
Call-Change w v {p' = q} good l (remove id t h e) =
    let same : transition (removing id (id + 1)) (2 ^ 63 + id) (id + 1) t ≡ q =
      cc (e, (starts w id t good h).2) in
    rw (← same) (ground arith)
Call-Change w v good l drop_read = ground arith
Call-Change w v good l drop_write = ground arith
Call-Change w v good l remove_held = ground arith
Call-Change w v good l fall_asleep = ground arith
Call-Change w v good l (expire d) = ground arith
Call-Change w v good l retire = ground arith
