-- ===== src/Header/Invariant/Moves.antt =====
-- The steps of the header's code as changes of one thread.
use read_write_store.Prelude.{ℕ, refl, inl, Bool, arith}
use read_write_store.Timeout.{Timeout, dont_block, block_until, block_indefinitely}
use read_write_store.Header.Code.{
  locking, removing, reading, changing, Pc, lock_read, read_cas, transition, attempt, mark,
  unlock_read, unread_cas, unlock_write, remove_locked, occupy, lock_read_slow, transition_slow,
}
use read_write_store.Header.Abstract.{saw, ideal, IsLocal, IsAllowed, IsWord}
use read_write_store.Header.Invariant.Changes.{Change}

module _ (b : Bool) (w v : ℕ) (good : IsWord w) where
  lock_read-Change :
      (id : ℕ) (t : Timeout)
      → IsLocal w (lock_read id t)
      → IsAllowed w (lock_read id t)
      → Change w v (lock_read id t) w v (saw id w t)
  unfolding lock_read_slow
  lock_read-Change id dont_block l a = ground arith
  lock_read-Change id (block_until d) l a = ground arith
  lock_read-Change id block_indefinitely l a = ground arith

  pub stay-Change : (p : Pc) → IsLocal w p → Change w v p w v p
  stay-Change p l = record {
    word = good;
    counted = refl;
    vacancy = refl;
    local = l;
    grows = omega arith;
    keeps = inl refl;
    marked = inl;
    sleeps = inl;
    stays = λ u. u;
  }

  pub ideal-Change :
      (p : Pc) → IsLocal w p → IsAllowed w p → Change w v p (ideal b p w).0 v (ideal b p w).1
  unfolding lock_read_slow transition_slow
  ideal-Change (lock_read id t) l a = lock_read-Change id t l a
  ideal-Change (read_cas id cur new dont_block) l a = ground arith
  ideal-Change (read_cas id cur new t) l a = ground arith
  ideal-Change (transition (locking id) e n dont_block) l a = ground arith
  ideal-Change (transition (locking id) e n t) l a = ground arith
  ideal-Change (transition (removing id next_id) e n dont_block) l a = ground arith
  ideal-Change (transition (removing id next_id) e n t) l a = ground arith
  ideal-Change (attempt (reading id t)) l a = ground arith
  ideal-Change (attempt (changing (locking id) e n t)) l a = ground arith
  ideal-Change (attempt (changing (removing id next_id) e n t)) l a = ground arith
  ideal-Change (mark x e n) l a = ground arith
  ideal-Change (unlock_read id) l a = ground arith
  ideal-Change (unread_cas id cur new last) l a = ground arith
  ideal-Change (unlock_write id) l a = ground arith
  ideal-Change (remove_locked id) l a = ground arith
  ideal-Change occupy l a = ground arith
  ideal-Change p l a = stay-Change p l
