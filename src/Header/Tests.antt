-- ===== src/Header/Tests.antt =====
-- Threads on one header, run to states in which the theorems apply.
use read_write_store.Prelude.{
  ℕ, ◌+◌, ◌^◌, ◌≤◌, ◌<◌, ◌≡◌, refl, ◌⊎◌, inr, true, false, ok, arith, ℕ_discrete,
}
use read_write_store.Timeout.{block_indefinitely}
use read_write_store.Header.Word.{
  unoccupied_bits, mark_thread_blocking, occupied_unlocked_bits, write_locked_bits, is_occupied,
  id_from_bits, is_write_locked,
}
use read_write_store.Header.Code.{
  advance, compare_exchange, compare_exchange_weak, lock_read_with_current, lock_read_slow,
  run_attempt, block_result_to_park_result, start_lock_read, start_lock_write,
}
use read_write_store.Header.Abstract.{ident, ideal}
use read_write_store.Header.System.{
  System, init, act, call, take_queue, claim, Reach, start, later, read, write, fall_asleep,
}
use read_write_store.Header.Invariant.{reads, writes, owns, unparks, IsMarked}
use read_write_store.Header.Safety.{
  advance-Reach, mutual_exclusion, owner_alone, held_is_live, no_lost_wakeup,
}

-- the first insertion has the slot's address
claimed : (s : System) × Reach 2 s
unfolding init
claimed = (_, later start (claim 0 (omega arith) refl refl))

-- the slot is occupied under ID 0, and thread 0 has the write lock
locked : (s : System) × Reach 2 s
unfolding claimed init ℕ_discrete advance is_occupied id_from_bits start_lock_write
    compare_exchange_weak compare_exchange occupied_unlocked_bits unoccupied_bits write_locked_bits
locked = (
  _,
  later
      (later (later claimed.1 (act false 0 (omega arith) refl))
        (call 0 (omega arith) (write 0 block_indefinitely (omega arith) refl)))
      (act false 0 (omega arith) refl),
)

-- and thread 1, which reads, has gone to sleep
sleeping : (s : System) × Reach 2 s
unfolding locked lock_read_with_current is_write_locked lock_read_slow start_lock_read run_attempt
    block_result_to_park_result mark_thread_blocking
sleeping = (
  _,
  later
      (later
        (later
          (later
            (later
              (later locked.1 (call 1 (omega arith) (read 0 block_indefinitely (omega arith) refl)))
              (act false 1 (omega arith) refl))
            (take_queue 1 (omega arith) refl (λ j h. ground arith)))
          (act false 1 (omega arith) refl))
        (act false 1 (omega arith) refl))
      (call 1 (omega arith) fall_asleep),
)

advance-Reach_example :
    advance true (locked.0.pc 0) locked.0.word ≡ ok (ideal true (locked.0.pc 0) locked.0.word)
advance-Reach_example = advance-Reach (omega arith) locked.1 0 true (omega arith)

mutual_exclusion_example : ◌≡◌ {A = ℕ} 0 0
unfolding locked
mutual_exclusion_example =
    mutual_exclusion (omega arith) locked.1 0 0 (omega arith) (omega arith) refl refl

owner_alone_example :
    (claimed.0.word < 2 ^ 32)
    × (reads (claimed.0.pc 1) + writes (claimed.0.pc 1) ≡ 0)
    × (claimed.0.vacant ≡ 0)
    × (◌≡◌ {A = ℕ} 0 1 ⊎ (owns (claimed.0.pc 1) ≡ 0))
unfolding claimed ℕ_discrete
owner_alone_example = owner_alone (omega arith) claimed.1 0 1 (omega arith) (omega arith) refl

held_is_live_example : (2 ^ 32 ≤ locked.0.word) × (ident locked.0.word ≡ 0)
unfolding locked
held_is_live_example = held_is_live (omega arith) locked.1 0 0 (omega arith) (inr refl)

no_lost_wakeup_example :
    (j : ℕ) × (j < 2)
    × ((IsMarked sleeping.0.word × (0 < reads (sleeping.0.pc j) + writes (sleeping.0.pc j)))
        ⊎ (unparks (sleeping.0.pc j) ≡ true))
unfolding sleeping
no_lost_wakeup_example = no_lost_wakeup (omega arith) sleeping.1 1 (omega arith) refl
