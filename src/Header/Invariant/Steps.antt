-- ===== src/Header/Invariant/Steps.antt =====
-- The invariant at the start and after every step of the threads on one `Header`.
use read_write_store.Prelude.{
  ℕ, ◌≤◌, ◌<◌, ◌≡◌, refl, subst, sym, ◌∙◌, Bool, false, ok, arith, replace, ℕ_discrete,
  tally-replace, tally-map, tally-eq-zero, replace_eq, replace_ne,
}
use mathlib.Core.Bool.{false≢true}
use read_write_store.Header.Word.{max_concurrent_reads, unoccupied_bits}
use read_write_store.Header.Code.{
  nothing, Pc, returned, block, queued, parked, unpark, removed, advance,
}
use read_write_store.Header.Abstract.{ideal, IsDone, IsLocal}
use read_write_store.Header.Abstract.Refines.{advance-ideal}
use read_write_store.Header.System.{
  System, init, has_queue, IsQueueFree, wake, Step, act, call, take_queue, wake_all, claim, recycle,
  Reach, start, later,
}
use read_write_store.Header.Invariant.Defs.{reads, writes, owns, asleep, Inv}
use read_write_store.Header.Invariant.Changes.{Change, Inv-IsAllowed, Change-Inv}
use read_write_store.Header.Invariant.Moves.{ideal-Change}
use read_write_store.Header.Invariant.Calls.{Call-Change}

pub init-Inv : (n : ℕ) → n ≤ max_concurrent_reads → Inv n init
unfolding init unoccupied_bits
init-Inv n few = record {
  few = few;
  word = omega arith;
  counted = omega (
    arith,
    tally-eq-zero reads n (λ _. returned nothing) (λ _. refl),
    tally-eq-zero writes n (λ _. returned nothing) (λ _. refl),
  );
  vacancy = omega (arith, tally-eq-zero owns n (λ _. returned nothing) (λ _. refl));
  local = λ i h. tt;
  awaited = λ i h e. cc;
}

pub act-Change :
    {n : ℕ} {s : System} (inv : Inv n s) (b : Bool) (i w : ℕ) (p : Pc)
    → i < n
    → advance b (s.pc i) s.word ≡ ok (w, p)
    → Change s.word s.vacant (s.pc i) w s.vacant p
act-Change {s} inv b i w p lt e =
    let allowed = Inv-IsAllowed inv i lt in
    let same : ideal b (s.pc i) s.word ≡ (w, p) =
      cc (e, advance-ideal b (s.pc i) s.word inv.word (inv.local i lt) allowed) in
    subst (λ (x : ℕ × Pc). Change s.word s.vacant (s.pc i) x.0 s.vacant x.1) same
      (ideal-Change b s.word s.vacant inv.word (s.pc i) (inv.local i lt) allowed)

IsDone-IsLocal :
    (w : ℕ) (p : Pc)
    → IsDone p
    → IsLocal w p × (asleep p ≡ false) × (reads p ≡ 0) × (writes p ≡ 0) × (owns (unpark p) ≡ owns p)
IsDone-IsLocal w (returned r) d = (tt, refl, refl, refl, refl)
IsDone-IsLocal w (removed m) d = (tt, refl, refl, refl, refl)
IsDone-IsLocal w p d = absurd d

wake-IsLocal : (w : ℕ) (p : Pc) → IsLocal w p → IsLocal w (wake p)
wake-IsLocal w (parked a) l = l
wake-IsLocal w p l = l

not-asleep-wake : (p : Pc) → has_queue p ≡ false → asleep (wake p) ≡ false
not-asleep-wake (queued a) h = cc
not-asleep-wake (parked a) h = refl
not-asleep-wake p h = refl

-- `unpark` leaves nobody asleep: it has the queue, so nobody is on the way to sleep either.
wake_weights :
    (p : Pc) → (reads (wake p) ≡ reads p) × (writes (wake p) ≡ writes p) × (owns (wake p) ≡ owns p)
wake_weights (parked a) = (refl, refl, refl)
wake_weights p = (refl, refl, refl)

module _ {n : ℕ} {s : System} (inv : Inv n s) (i : ℕ) {p : Pc} (in_range : i < n) where
  wake_all-Inv :
      s.pc i ≡ unpark p → IsQueueFree n s → Inv n (record s { pc = λ j. wake (replace i p s.pc j) })
  wake_all-Inv e free = record {
    few = inv.few;
    word = inv.word;
    counted = omega (
      arith,
      tally-map reads n wake left (λ q. (wake_weights q).0),
      tally-map writes n wake left (λ q. (wake_weights q).1),
      rw e at (tally-replace reads n i p s.pc in_range),
      rw e at (tally-replace writes n i p s.pc in_range),
      done.2,
      done.3,
      inv.counted,
    );
    vacancy = omega (
      arith,
      tally-map owns n wake left (λ q. (wake_weights q).2),
      rw e at (tally-replace owns n i p s.pc in_range),
      done.4,
      inv.vacancy,
    );
    local = λ j lt. wake-IsLocal s.word (left j) (elim (ℕ_discrete i j) [
      | yes at ↦ rw (replace_eq i j p s.pc at) done.0
      | no off ↦ rw (replace_ne i j p s.pc off) (inv.local j lt)
    ]);
    awaited = λ j lt sleeping. absurd (false≢true (sym (awake j lt) ∙ sleeping));
  }
    where
      left : ℕ → Pc
      left = replace i p s.pc

      done :
          IsLocal s.word p
          × (asleep p ≡ false)
          × (reads p ≡ 0)
          × (writes p ≡ 0)
          × (owns (unpark p) ≡ owns p)
      done = IsDone-IsLocal s.word p (rw e at (inv.local i in_range))

      awake_done : (q : Pc) → IsDone q → asleep (wake q) ≡ false
      awake_done (returned r) d = refl
      awake_done (removed m) d = refl
      awake_done q d = absurd d

      awake : (j : ℕ) → j < n → asleep (wake (left j)) ≡ false
      awake j lt = elim (ℕ_discrete i j) [
        | yes at ↦ rw (replace_eq i j p s.pc at) (awake_done p (rw e at (inv.local i in_range)))
        | no off ↦ rw (replace_ne i j p s.pc off) (not-asleep-wake (s.pc j) (free j lt))
      ]

pub Step-Inv : {n : ℕ} {s t : System} → Step n s t → Inv n s → Inv n t
Step-Inv {s} (act b i {w} {p} lt e) inv = Change-Inv inv i lt (act-Change inv b i w p lt e)
Step-Inv {s} (call i lt c) inv =
    Change-Inv inv i lt (Call-Change s.word s.vacant inv.word (inv.local i lt) c)
Step-Inv {s} (take_queue i {a} lt e free) inv =
    let l : IsLocal s.word (block a) = rw e at (inv.local i lt) in
    Change-Inv inv i lt (rw e (ground arith))
Step-Inv (wake_all i lt e free) inv = wake_all-Inv inv i lt e free
Step-Inv (claim i lt e k) inv = Change-Inv inv i lt (rw e (ground arith))
Step-Inv (recycle i lt e) inv = Change-Inv inv i lt (rw e (ground arith))

pub Reach-Inv : {n : ℕ} {s : System} → n ≤ max_concurrent_reads → Reach n s → Inv n s
Reach-Inv {n} few start = init-Inv n few
Reach-Inv few (later r st) = Step-Inv st (Reach-Inv few r)
