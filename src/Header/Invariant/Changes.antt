-- ===== src/Header/Invariant/Changes.antt =====
-- One thread moves: which conditions on its old and new place and on the word keep the invariant.
use read_write_store.Prelude.{
  ℕ, ◌+◌, ◌*◌, ◌≤◌, ◌<◌, ◌≡◌, refl, ◌⊎◌, inl, inr, true, arith, replace, ℕ_discrete, tally,
  tally-replace, tally-ge, tally-le, tally-lt, replace_eq, replace_ne,
}
use read_write_store.Header.Word.{max_concurrent_reads}
use read_write_store.Header.Code.{
  Purpose, locking, removing, Attempt, reading, changing, Pc, returned, lock_read, read_cas,
  transition, block, attempt, mark, queued, parked, read_held, unlock_read, unread_cas, write_held,
  unlock_write, remove_locked, unpark, removed, occupy,
}
use read_write_store.Header.Abstract.{
  ident, readers, all_ones, issued, IsCall, IsAttempt, IsLocal, IsAllowed, IsWord,
}
use read_write_store.Header.System.{System}
use read_write_store.Header.Invariant.Defs.{
  reads, writes, owns, asleep, unparks, IsMarked, can_occupy, Inv,
}

-- The word, the number of vacancies and the place of the thread, before and after.
pub record Change (w v : ℕ) (p : Pc) (w' v' : ℕ) (p' : Pc) : Type 0 where
  pub word : IsWord w'
  pub counted :
      readers w' + reads p + all_ones * writes p ≡ readers w + reads p' + all_ones * writes p'
  pub vacancy : v' + owns p' + can_occupy w ≡ v + owns p + can_occupy w'
  pub local : IsLocal w' p'
  pub grows : issued w ≤ issued w'
  pub keeps : (ident w' ≡ ident w) ⊎ (readers w' ≡ 0)
  pub marked : IsMarked w → IsMarked w' ⊎ (unparks p' ≡ true)
  pub sleeps : asleep p' ≡ true → asleep p ≡ true ⊎ IsMarked w'
  pub stays : unparks p ≡ true → unparks p' ≡ true

-- What another thread knows of the word outlives the change, by the count of what it holds.
IsCall-grows :
    (w w' : ℕ) (why : Purpose) (expected new : ℕ)
    → issued w ≤ issued w'
    → IsCall w why expected new
    → IsCall w' why expected new
IsCall-grows w w' (locking id) e n h c = omega arith
IsCall-grows w w' (removing id next_id) e n h c = omega arith

IsAttempt-grows : (w w' : ℕ) (a : Attempt) → issued w ≤ issued w' → IsAttempt w a → IsAttempt w' a
IsAttempt-grows w w' (reading id t) h c = omega arith
IsAttempt-grows w w' (changing why e n t) h c = IsCall-grows w w' why e n h c

IsLocal-kept :
    (w w' : ℕ) (p : Pc)
    → issued w ≤ issued w'
    → (ident w' ≡ ident w) ⊎ (readers w' ≡ 0)
    → reads p + all_ones * writes p ≤ readers w'
    → IsLocal w p
    → IsLocal w' p
IsLocal-kept w w' (lock_read id t) h k c l = omega arith
IsLocal-kept w w' (read_cas id cur new t) h k c l = omega arith
IsLocal-kept w w' (transition why e n t) h k c l = IsCall-grows w w' why e n h l
IsLocal-kept w w' (block a) h k c l = IsAttempt-grows w w' a h l
IsLocal-kept w w' (attempt a) h k c l = IsAttempt-grows w w' a h l
IsLocal-kept w w' (mark a e n) h k c l = (IsAttempt-grows w w' a h l.0, l.1, l.2, l.3)
IsLocal-kept w w' (queued a) h k c l = IsAttempt-grows w w' a h l
IsLocal-kept w w' (parked a) h k c l = IsAttempt-grows w w' a h l
IsLocal-kept w w' (read_held id) h k c l = omega arith
IsLocal-kept w w' (unlock_read id) h k c l = omega arith
IsLocal-kept w w' (unread_cas id cur new last) h k c l = ground arith
IsLocal-kept w w' (write_held id) h k c l = omega arith
IsLocal-kept w w' (unlock_write id) h k c l = omega arith
IsLocal-kept w w' (remove_locked id) h k c l = omega arith
IsLocal-kept w w' (unpark p) h k c l = l
IsLocal-kept w w' (returned r) h k c l = tt
IsLocal-kept w w' (removed m) h k c l = tt
IsLocal-kept w w' occupy h k c l = tt

reads-le : (p : Pc) → reads p ≤ 1
reads-le p = ground arith

writes-le : (p : Pc) → writes p ≤ 1
writes-le p = ground arith

counts-IsAllowed :
    (p : Pc) (w n r v o vacant : ℕ)
    → n ≤ max_concurrent_reads
    → readers w ≡ r + all_ones * v
    → vacant + o ≡ can_occupy w
    → reads p ≤ r
    → writes p ≤ v
    → owns p ≤ o
    → r ≤ n
    → (reads p ≡ 0 → r < n)
    → IsAllowed w p
counts-IsAllowed (read_held id) w n r v o k few c e hr hw ho hn room = omega arith
counts-IsAllowed (unlock_read id) w n r v o k few c e hr hw ho hn room = omega arith
counts-IsAllowed (unread_cas id cur new last) w n r v o k few c e hr hw ho hn room = omega arith
counts-IsAllowed (write_held id) w n r v o k few c e hr hw ho hn room = omega arith
counts-IsAllowed (unlock_write id) w n r v o k few c e hr hw ho hn room = omega arith
counts-IsAllowed (remove_locked id) w n r v o k few c e hr hw ho hn room = omega arith
counts-IsAllowed occupy w n r v o k few c e hr hw ho hn room = ground arith
counts-IsAllowed p w n r v o k few c e hr hw ho hn room = ground (arith, room refl)

module _ {n : ℕ} {s : System} (inv : Inv n s) (i : ℕ) (in_range : i < n) where
  -- What the counts say about one thread.
  pub Inv-IsAllowed : IsAllowed s.word (s.pc i)
  Inv-IsAllowed =
      counts-IsAllowed (s.pc i) s.word n (tally reads n s.pc) (tally writes n s.pc)
        (tally owns n s.pc) s.vacant inv.few inv.counted inv.vacancy
        (tally-ge reads n i s.pc in_range) (tally-ge writes n i s.pc in_range)
        (tally-ge owns n i s.pc in_range) (tally-le reads n s.pc (λ j. reads-le (s.pc j)))
        (tally-lt reads n i s.pc in_range (λ j. reads-le (s.pc j)))

  module _ {w' v' : ℕ} {p' : Pc} (c : Change s.word s.vacant (s.pc i) w' v' p') where
    abbrev moved : ℕ → Pc
    moved = replace i p' s.pc

    still_awaited :
        IsMarked s.word ⊎ ((j : ℕ) × (j < n) × (unparks (s.pc j) ≡ true))
        → IsMarked w' ⊎ ((j : ℕ) × (j < n) × (unparks (moved j) ≡ true))
    still_awaited (inl m) = elim (c.marked m) [
      | inl m' ↦ inl m'
      | inr u ↦ inr (i, in_range, rw (replace_eq i i p' s.pc refl) u)
    ]
    still_awaited (inr (j, lt, u)) = inr (
      j,
      lt,
      elim (ℕ_discrete i j) [
        | yes e ↦ rw (replace_eq i j p' s.pc e) (c.stays (rw e u))
        | no e ↦ rw (replace_ne i j p' s.pc e) u
      ],
    )

    reads-moved : tally reads n moved + reads (s.pc i) ≡ reads p' + tally reads n s.pc
    reads-moved = tally-replace reads n i p' s.pc in_range

    writes-moved : tally writes n moved + writes (s.pc i) ≡ writes p' + tally writes n s.pc
    writes-moved = tally-replace writes n i p' s.pc in_range

    counted_moved : readers w' ≡ tally reads n moved + all_ones * tally writes n moved
    counted_moved = omega (arith, reads-moved, writes-moved, c.counted, inv.counted)

    IsLocal-moved : (j : ℕ) → j < n → IsLocal w' (moved j)
    IsLocal-moved j lt = elim (ℕ_discrete i j) [
      | yes e ↦ rw (replace_eq i j p' s.pc e) c.local
      | no e ↦
          let same = replace_ne i j p' s.pc e in
          let r = rw same at (tally-ge reads n j moved lt) in
          let w = rw same at (tally-ge writes n j moved lt) in
          rw same (
            IsLocal-kept s.word w' (s.pc j) c.grows c.keeps (omega (arith, counted_moved, r, w))
              (inv.local j lt))
    ]

    -- The invariant outlives the change.
    pub Change-Inv : Inv n (record { word = w'; vacant = v'; pc = moved })
    Change-Inv = record {
      few = inv.few;
      word = c.word;
      counted = counted_moved;
      vacancy = omega (arith, tally-replace owns n i p' s.pc in_range, c.vacancy, inv.vacancy);
      local = IsLocal-moved;
      awaited = λ j lt sleeping. elim (ℕ_discrete i j) [
        | yes e ↦ elim (c.sleeps (rw (replace_eq i j p' s.pc e) at sleeping)) [
          | inl before ↦ still_awaited (inv.awaited i in_range before)
          | inr m ↦ inl m
        ]
        | no e ↦ still_awaited (inv.awaited j lt (rw (replace_ne i j p' s.pc e) at sleeping))
      ];
    }
