-- ===== src/Store/Sharing/Safety.antt =====
-- Any number of threads on one store: what holds in every state that they can reach.
use read_write_store.Prelude.{
  ℕ, ◌+◌, ◌^◌, ◌≤◌, ◌<◌, ◌≡◌, refl, ◌⊎◌, true, Bool, ok, arith, replace, tally-ge,
}
use read_write_store.Id.{Address}
use read_write_store.Header.Word.{max_concurrent_reads}
use read_write_store.Header.Code.{returned, occupied, occupy, advance}
use read_write_store.Header.Invariant.{reads, writes, owns, Inv, Reach-Inv}
use read_write_store.Header.Safety.{owner_alone, fresh_ordinals}
use read_write_store.Store.Sharing.{
  Shared, occurs, is_listed, slot_of, changed, SharedReach, SharedRun,
}
use read_write_store.Store.View.{same_address_refl}
use read_write_store.Store.Sharing.Slots.{slot_of-Reach, slot_of-Run}

-- In every state that at most `max_concurrent_reads` threads on a store can reach, the queue of
-- erasures has each slot at most once, and a slot in it is vacant, was handed out by its bucket,
-- is locked by nobody and is owned by no thread.
pub queued_once :
    {n : ℕ} {s : Shared}
    → n ≤ max_concurrent_reads
    → SharedReach n s
    → (a : Address)
    → (occurs a s.erasures ≤ 1)
      × (0 < occurs a s.erasures
          → (s.word a < 2 ^ 32)
            × (is_listed a s.given ≡ true)
            × ((j : ℕ)
                → j < n
                → (reads (s.pc a j) + writes (s.pc a j) ≡ 0) × (owns (s.pc a j) ≡ 0)))
queued_once {n} {s} few r a = (
  ground (arith, inv.vacancy),
  λ queued. (
    ground (arith, inv.vacancy),
    ground (arith, inv.vacancy),
    λ j lt. (
      ground (
        arith,
        inv.vacancy,
        inv.counted,
        tally-ge reads n j (s.pc a) lt,
        tally-ge writes n j (s.pc a) lt,
      ),
      ground (arith, inv.vacancy, tally-ge owns n j (s.pc a) lt),
    ),
  ),
)
  where
    inv : Inv n (slot_of s a)
    inv = Reach-Inv few (slot_of-Reach r a)

-- In every state that at most `max_concurrent_reads` threads on a store can reach, a slot that a
-- thread is about to occupy is vacant, is not in the queue of erasures, has been handed out by its
-- bucket, is locked by nobody, and is owned by no other thread.
pub insertions_apart :
    {n : ℕ} {s : Shared}
    → n ≤ max_concurrent_reads
    → SharedReach n s
    → (a : Address) (i : ℕ) → i < n
    → s.pc a i ≡ occupy
    → (s.word a < 2 ^ 32)
      × (occurs a s.erasures ≡ 0)
      × (is_listed a s.given ≡ true)
      × ((j : ℕ)
          → j < n
          → (reads (s.pc a j) + writes (s.pc a j) ≡ 0) × ((i ≡ j) ⊎ (owns (s.pc a j) ≡ 0)))
insertions_apart {n} {s} few r a i lt at =
    let own : owns (s.pc a i) ≡ 1 = rw at refl in
    let (free, locks, vacant, alone) = owner_alone few (slot_of-Reach r a) i i lt lt own in
    (
      free,
      omega arith,
      ground arith,
      λ j j_in.
          let (free', locks', vacant', alone') =
            owner_alone few (slot_of-Reach r a) i j lt j_in own in
          (locks', alone'),
    )

-- A store with at most `max_concurrent_reads` threads does not give out an ID twice: from any
-- state that they can reach, an occupation of a slot that comes after another one of the same
-- slot, with any steps of any threads on any slots, the queue and the buckets between, gives out a
-- larger ordinal.
pub ids_unique :
    {n : ℕ} {s t : Shared}
    → n ≤ max_concurrent_reads
    → SharedReach n s
    → (a : Address) (i id w j id' w' : ℕ) (b b' : Bool) (lt : i < n) (lt' : j < n)
    → s.pc a i ≡ occupy
    → advance b (s.pc a i) (s.word a) ≡ ok (w, returned (occupied id))
    → SharedRun n
        (record s {
          word = changed a w s.word;
          pc = changed a (replace i (returned (occupied id)) (s.pc a)) s.pc;
        })
        t
    → t.pc a j ≡ occupy
    → advance b' (t.pc a j) (t.word a) ≡ ok (w', returned (occupied id'))
    → id < id'
ids_unique few r a i id w j id' w' b b' lt lt' at e run at' e' =
    fresh_ordinals few (slot_of-Reach r a) i id w j id' w' b b' lt lt' at e
      (rw (same_address_refl a) at (slot_of-Run run a)) at' e'
