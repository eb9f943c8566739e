-- ===== src/Header/Safety.antt =====
-- The threads that share a `Header`, in the states that they can reach.
use read_write_store.Prelude.{
  ℕ, ◌+◌, ◌^◌, ◌≤◌, ◌<◌, ◌≡◌, sym, ◌∙◌, replace, dec_lt, ◌⊎◌, inl, inr, Bool, true, Check, ok,
  arith, ℕ_discrete, tally, tally-pair, tally_witness, tally-ge,
}
use read_write_store.Header.Word.{max_concurrent_reads, reserved}
use read_write_store.Header.Code.{Pc, returned, read_held, write_held, occupied, occupy, advance}
use read_write_store.Header.Abstract.{ident, readers, all_ones, issued, ideal}
use read_write_store.Header.Abstract.Refines.{advance-ideal}
use read_write_store.Header.System.{
  System, Step, act, call, take_queue, wake_all, claim, recycle, Reach, later,
}
use read_write_store.Header.Invariant.{
  reads, writes, owns, asleep, unparks, IsMarked, Inv, Reach-Inv, Inv-IsAllowed, act-Change,
}

-- In every state that at most `max_concurrent_reads` threads can reach, whatever atomic operation
-- a thread does next succeeds and is the abstract step: no assertion fails, no addition overflows
-- and there are never too many readers.
pub advance-Reach :
    {n : ℕ} {s : System}
    → n ≤ max_concurrent_reads
    → Reach n s
    → (i : ℕ) (spurious : Bool) → i < n
    → advance spurious (s.pc i) s.word ≡ ok (ideal spurious (s.pc i) s.word)
advance-Reach {s} few r i spurious lt =
    let inv = Reach-Inv few r in
    advance-ideal spurious (s.pc i) s.word inv.word (inv.local i lt) (Inv-IsAllowed inv i lt)

-- In every state that at most `max_concurrent_reads` threads can reach, a thread that holds the
-- write lock is the only one that holds any lock.
pub mutual_exclusion :
    {n : ℕ} {s : System}
    → n ≤ max_concurrent_reads
    → Reach n s
    → (i j : ℕ) → i < n
    → j < n
    → writes (s.pc i) ≡ 1
    → reads (s.pc j) + writes (s.pc j) ≡ 1
    → i ≡ j
mutual_exclusion {n} {s} few r i j hi hj w h = elim (ℕ_discrete i j) [
  | yes e ↦ e
  | no ne ↦
      let inv = Reach-Inv few r in
      absurd (
        omega (
          arith,
          tally-pair writes n i j s.pc hi hj ne,
          tally-ge writes n i s.pc hi,
          tally-ge reads n j s.pc hj,
          inv.counted,
        ))
]

-- In every state that at most `max_concurrent_reads` threads can reach, if a thread owns the slot
-- while it is vacant, to occupy it or to queue it for reuse, then the slot is vacant, nobody holds
-- a lock on it, it is not on offer to another insertion, and no other thread owns it.
pub owner_alone :
    {n : ℕ} {s : System}
    → n ≤ max_concurrent_reads
    → Reach n s
    → (i j : ℕ) → i < n
    → j < n
    → owns (s.pc i) ≡ 1
    → (s.word < 2 ^ 32)
      × (reads (s.pc j) + writes (s.pc j) ≡ 0)
      × (s.vacant ≡ 0)
      × ((i ≡ j) ⊎ (owns (s.pc j) ≡ 0))
owner_alone {n} {s} few r i j hi hj o = (
  free,
  omega (arith, tally-ge writes n j s.pc hj, tally-ge reads n j s.pc hj, inv.counted, free),
  ground (arith, tally-ge owns n i s.pc hi, inv.vacancy),
  elim (ℕ_discrete i j) [
    | yes e ↦ inl e
    | no ne ↦ inr (ground (arith, tally-pair owns n i j s.pc hi hj ne, inv.vacancy))
  ],
)
  where
    inv : Inv n s
    inv = Reach-Inv few r

    free : s.word < 2 ^ 32
    free = ground (arith, tally-ge owns n i s.pc hi, inv.vacancy)

-- In every state that at most `max_concurrent_reads` threads can reach, while a thread holds a
-- lock that it took with an ID, the slot is occupied, under that ID.
pub held_is_live :
    {n : ℕ} {s : System}
    → n ≤ max_concurrent_reads
    → Reach n s
    → (i id : ℕ) → i < n
    → (s.pc i ≡ read_held id) ⊎ (s.pc i ≡ write_held id)
    → (2 ^ 32 ≤ s.word) × (ident s.word ≡ id)
held_is_live {n} {s} few r i id lt (inl e) =
    let inv = Reach-Inv few r in
    let local : ident s.word ≡ id = rw e at (inv.local i lt) in
    let allowed : (0 < readers s.word) × (readers s.word < all_ones) =
      rw e at (Inv-IsAllowed inv i lt) in
    (omega arith, local)
held_is_live {n} {s} few r i id lt (inr e) =
    let inv = Reach-Inv few r in
    let local : ident s.word ≡ id = rw e at (inv.local i lt) in
    let allowed : readers s.word ≡ all_ones = rw e at (Inv-IsAllowed inv i lt) in
    (omega arith, local)

lock_witness :
    {n : ℕ} {s : System}
    → Inv n s
    → 0 < readers s.word
    → (j : ℕ) × (j < n) × (0 < reads (s.pc j) + writes (s.pc j))
lock_witness {n} {s} inv h = elim (dec_lt 0 (tally reads n s.pc)) [
  | yes some ↦ let (j, lt, w) = tally_witness reads n s.pc some in (j, lt, omega arith)
  | no none ↦
      let (j, lt, w) = tally_witness writes n s.pc (omega (arith, inv.counted)) in
      (j, lt, omega arith)
]

-- No wakeup is lost: in every state that at most `max_concurrent_reads` threads can reach, while a
-- thread sleeps, either the word is marked and some thread holds a lock, or some thread is about
-- to unpark.
pub no_lost_wakeup :
    {n : ℕ} {s : System}
    → n ≤ max_concurrent_reads
    → Reach n s
    → (i : ℕ) → i < n
    → asleep (s.pc i) ≡ true
    → (j : ℕ) × (j < n)
      × ((IsMarked s.word × (0 < reads (s.pc j) + writes (s.pc j))) ⊎ (unparks (s.pc j) ≡ true))
no_lost_wakeup {n} {s} few r i lt a = elim (inv.awaited i lt a) [
  | inl m ↦ let (j, hj, held) = lock_witness inv (omega arith) in (j, hj, inl (m, held))
  | inr (j, hj, u) ↦ (j, hj, inr u)
]
  where
    inv : Inv n s
    inv = Reach-Inv few r

-- Any number of steps.
pub data Run (n : ℕ) (s : System) : System → Type 0 where
  here : Run n s s
  more : {t u : System} → Run n s t → Step n t u → Run n s u

pub Reach-Run : {n : ℕ} {s t : System} → Reach n s → Run n s t → Reach n t
Reach-Run r here = r
Reach-Run r (more q st) = later (Reach-Run r q) st

Step-issued : {n : ℕ} {s t : System} → Inv n s → Step n s t → issued s.word ≤ issued t.word
Step-issued inv (act b i {w} {p} lt e) = (act-Change inv b i w p lt e).grows
Step-issued inv (call i lt c) = omega arith
Step-issued inv (take_queue i lt e free) = omega arith
Step-issued inv (wake_all i lt e free) = omega arith
Step-issued inv (claim i lt e k) = omega arith
Step-issued inv (recycle i lt e) = omega arith

Run-issued :
    {n : ℕ} {s t : System}
    → n ≤ max_concurrent_reads
    → Reach n s
    → Run n s t
    → issued s.word ≤ issued t.word
Run-issued few r here = omega arith
Run-issued few r (more q st) =
    omega (arith, Run-issued few r q, Step-issued (Reach-Inv few (Reach-Run r q)) st)

occupied-injective :
    (x y w id : ℕ)
    → ◌≡◌ {A = Check (ℕ × Pc)} (ok (x, returned (occupied y))) (ok (w, returned (occupied id)))
    → (x ≡ w) × (y ≡ id)
occupied-injective x y w id e = (cc, cc)

-- The occupation that a thread is about to make gives out the next ordinal.
occupy-issued :
    {n : ℕ} {s : System}
    → n ≤ max_concurrent_reads
    → Reach n s
    → (i id w : ℕ) (b : Bool) → i < n
    → s.pc i ≡ occupy
    → advance b (s.pc i) s.word ≡ ok (w, returned (occupied id))
    → (id ≡ issued s.word) × (issued w ≡ id + 1)
occupy-issued {s} few r i id w b lt at e =
    let inv = Reach-Inv few r in
    let free : s.word < reserved = rw at at (Inv-IsAllowed inv i lt) in
    let (word, ordinal) =
      occupied-injective (2 ^ 63 + s.word) s.word w id
        (rw at at (sym (advance-Reach few r i b lt) ∙ e)) in
    ground (arith, word, ordinal, free)

-- An ordinal is given out once: from any state that at most `max_concurrent_reads` threads can
-- reach, an occupation of the slot that comes after another one, with any steps of any threads
-- between, gives out a larger ordinal.
pub fresh_ordinals :
    {n : ℕ} {s t : System}
    → n ≤ max_concurrent_reads
    → Reach n s
    → (i id w j id' w' : ℕ) (b b' : Bool) (lt : i < n) (lt' : j < n) → s.pc i ≡ occupy
    → advance b (s.pc i) s.word ≡ ok (w, returned (occupied id))
    → Run n (record s { word = w; pc = replace i (returned (occupied id)) s.pc }) t
    → t.pc j ≡ occupy
    → advance b' (t.pc j) t.word ≡ ok (w', returned (occupied id'))
    → id < id'
fresh_ordinals few r i id w j id' w' b b' lt lt' at e run at' e' =
    let r' = later r (act b i lt e) in
    omega (
      arith,
      occupy-issued few r i id w b lt at e,
      Run-issued few r' run,
      occupy-issued few (Reach-Run r' run) j id' w' b' lt' at' e',
    )
