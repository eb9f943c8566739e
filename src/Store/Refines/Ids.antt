-- ===== src/Store/Refines/Ids.antt =====
-- src/lib.rs, `remove_with_timeout`, `read_with_timeout` and `write_with_timeout` against the
-- specification.
use read_write_store.Prelude.{
  ℕ, ◌+◌, ◌-◌, ◌*◌, ◌%◌, ◌^◌, ◌<◌, ◌≡◌, refl, inl, inr, true, false, Option, some, none, ok, ◌==◌,
  arith, Bool-cases,
}
use read_write_store.Timeout.{Timeout, dont_block, block_until, block_indefinitely}
use read_write_store.Header.Word.{max_concurrent_reads}
use read_write_store.Header.Abstract.{ident, readers, all_ones, is_live, IsWord}
use read_write_store.Id.{ElementId}
use read_write_store.Slot.{Slot}
use read_write_store.Slot.Results.{IsCallable, gives_up, marked}
use read_write_store.Store.{Store, after_removal}
use read_write_store.Store.View.{guarded-gives_up}
use read_write_store.Store.Access.{read-runs, write-runs}
use read_write_store.Store.Removal.{remove-runs}
use read_write_store.Store.Spec.{
  Model, Call, Reply, locked, found, IsFresh, waits, IsGiven, expected, with_entry,
}
use read_write_store.Store.Spec
use read_write_store.Store.Client.{perform, lock_reply, removal_reply}
use read_write_store.Store.Invariant.{IsStore}
use read_write_store.Store.Invariant.Puts.{with_cell}
use read_write_store.Store.Refines.{IsKnown, Refines, IsDone, IsKnown-IsCallable}
use read_write_store.Store.Refines.Changes.{
  IsDone-by, relocked-IsDone, Refines-unchanged, IsEntry, slot_good, entry_cases, same_good,
  same-Refines, entry_good, entry-Refines, vacated_good, vacated-Refines,
}

lock_reply-gives_up {ℓ κ} :
    {A : Type ℓ} (L : Type κ) (t : Timeout)
    → lock_reply {A = A} (gives_up {B = Option L} t) ≡ waits t
lock_reply-gives_up L dont_block = refl
lock_reply-gives_up L (block_until d) = refl
lock_reply-gives_up L block_indefinitely = refl

removal_reply-gives_up {ℓ} :
    {A : Type ℓ} (t : Timeout) → removal_reply {A = A} (gives_up t) ≡ waits t
removal_reply-gives_up dont_block = refl
removal_reply-gives_up (block_until d) = refl
removal_reply-gives_up block_indefinitely = refl

after_removal-gives_up {ℓ} :
    {A : Type ℓ} (id : ElementId) (s : Store A) (t : Timeout)
    → after_removal id s (gives_up t) ≡ (s, gives_up t)
after_removal-gives_up id s dont_block = refl
after_removal-gives_up id s (block_until d) = refl
after_removal-gives_up id s block_indefinitely = refl

module _ {ℓ} {A : Type ℓ} {calls : ℕ} {s : Store A} {m : Model A} (i : IsStore calls s)
    (r : Refines s m) (few : calls < max_concurrent_reads) (id : ElementId) (k : IsKnown s id)
    (t : Timeout) (state : ℕ) where
  callable : IsCallable id.ordinal k.slot
  callable = IsKnown-IsCallable i few k

  -- A slot that others have locked is marked at most; nothing else changes.
  module _ (e : A) (n : ℕ) (at : IsEntry id m k.slot e n) (busy : 0 < n) where
    abbrev marked_slot : Slot A
    marked_slot = record (k.slot) { header = marked t k.slot.header }

    waited :
        IsWord (k.slot.header % 2 ^ 63)
        × (is_live (k.slot.header % 2 ^ 63) ≡ true)
        × (ident (k.slot.header % 2 ^ 63) ≡ id.ordinal)
        × (readers (k.slot.header % 2 ^ 63) ≡ n)
    waited =
        let good = slot_good i r id k in
        let live = at.live in
        let count = at.count in
        let same = at.same in
        (
          record { fits = omega arith; live = ground (arith, good.word) },
          ground arith,
          omega arith,
          omega arith,
        )

    marked-IsWord :
        (t : Timeout)
        → IsWord (marked t k.slot.header)
          × (is_live (marked t k.slot.header) ≡ true)
          × (ident (marked t k.slot.header) ≡ id.ordinal)
          × (readers (marked t k.slot.header) ≡ n)
    marked-IsWord dont_block = ((slot_good i r id k).word, at.live, at.same, at.count)
    marked-IsWord (block_until d) = waited
    marked-IsWord block_indefinitely = waited

    marked_good : IsStore (calls + 1) (with_cell s id.slot_address marked_slot)
    marked_good =
        let good = slot_good i r id k in
        let (word, live, same, count) = marked-IsWord t in
        let was = at.count in
        entry_good i r id k e n at marked_slot
          (record { word = word; written = λ lt. (e, at.value); few = omega (arith, good.few) })

    marked-Refines : Refines (with_cell s id.slot_address marked_slot) m
    marked-Refines =
        let (word, live, same, count) = marked-IsWord t in
        Refines-unchanged id (some (e, n)) r at.entry
          (entry-Refines i r id k e n at marked_slot e n live same at.value count)

    -- A call that finds the ID's element locked by others.
    marked-IsDone :
        (c : Call A)
        → IsFresh m c id
        → expected m c id ≡ (m, waits t)
        → perform c state s ≡ ok (state, (with_cell s id.slot_address marked_slot, waits t))
        → IsDone calls m c state s
    marked-IsDone c fresh e run =
        IsDone-by c id _ m (waits t) fresh e run marked_good marked-Refines

  -- An ID whose element is gone.
  absent-IsDone :
      (c : Call A) (reply : Reply A)
      → IsFresh m c id
      → expected m c id ≡ (m, reply)
      → perform c state s ≡ ok (state, (with_cell s id.slot_address k.slot, reply))
      → IsDone calls m c state s
  absent-IsDone c reply fresh e run =
      IsDone-by c id _ m reply fresh e run (same_good i r id k) (same-Refines i r id k)

  read-present : (e : A) (n : ℕ) → IsEntry id m k.slot e n → IsDone calls m (Spec.read id t) state s
  unfolding perform
  read-present e n at =
      let same : (ident k.slot.header == id.ordinal) ≡ true = ground (arith, at.same) in
      elim (Bool-cases (n == all_ones)) [
        | inl writer ↦
            let count = at.count in
            let test : (readers k.slot.header == all_ones) ≡ true = ground arith in
            marked-IsDone e n at (ground arith) (Spec.read id t) tt (rw (at.entry, writer) refl) (
              rw
                (
                  read-runs s id k.slot k.at k.native callable t,
                  same,
                  test,
                  guarded-gives_up t _,
                  lock_reply-gives_up _ t,
                )
                refl)
        | inr free ↦
            let count = at.count in
            let live = at.live in
            let good = slot_good i r id k in
            let test : (readers k.slot.header == all_ones) ≡ false = ground arith in
            relocked-IsDone i r id k e n at (k.slot.header + 2 ^ 32) (n + 1) (Spec.read id t)
              (locked true)
              (record { fits = ground (arith, good.few); live = ground (arith, good.word) })
              (ground arith) (ground (arith, at.same)) (ground (arith, good.few))
              (ground (arith, good.few)) tt (rw (at.entry, free) refl)
              (rw (read-runs s id k.slot k.at k.native callable t, same, test) refl)
      ]

  pub read-IsDone : IsDone calls m (Spec.read id t) state s
  unfolding perform
  read-IsDone = elim (entry_cases i r id k) [
    | inl (gone, other_id) ↦
        let differs : (ident k.slot.header == id.ordinal) ≡ false = ground arith in
        absent-IsDone (Spec.read id t) (locked false) tt (rw gone refl)
          (rw (read-runs s id k.slot k.at k.native callable t, differs) refl)
    | inr (e, n, at) ↦ read-present e n at
  ]

  unlocked_iff :
      (n : ℕ) (e : A) → IsEntry id m k.slot e n → (k.slot.header == 2 ^ 63 + id.ordinal) ≡ (n == 0)
  unlocked_iff n e at =
      let live = at.live in
      let same = at.same in
      let count = at.count in let good = slot_good i r id k in ground (arith, good.word)

  write-present :
      (e : A) (n : ℕ) → IsEntry id m k.slot e n → IsDone calls m (Spec.write id t) state s
  unfolding perform
  write-present e n at =
      let same : (ident k.slot.header == id.ordinal) ≡ true = ground (arith, at.same) in
      elim (Bool-cases (n == 0)) [
        | inr busy ↦
            marked-IsDone e n at (ground arith) (Spec.write id t) tt (rw (at.entry, busy) refl) (
              rw
                (
                  write-runs s id k.slot k.at k.native callable t,
                  same,
                  unlocked_iff n e at,
                  busy,
                  guarded-gives_up t _,
                  lock_reply-gives_up _ t,
                )
                refl)
        | inl free ↦
            let good = slot_good i r id k in
            let small : id.ordinal < 2 ^ 32 - 1 = ground (arith, good.word, at.live, at.same) in
            relocked-IsDone i r id k e n at ((2 ^ 32 - 1) * 2 ^ 32 + id.ordinal) all_ones
              (Spec.write id t) (locked true) (record { fits = omega arith; live = omega arith })
              (ground arith) (omega arith) (omega arith) (inr refl) tt (rw (at.entry, free) refl)
              (rw (write-runs s id k.slot k.at k.native callable t, same, unlocked_iff n e at, free)
                refl)
      ]

  pub write-IsDone : IsDone calls m (Spec.write id t) state s
  unfolding perform
  write-IsDone = elim (entry_cases i r id k) [
    | inl (gone, other_id) ↦
        let differs : (ident k.slot.header == id.ordinal) ≡ false = ground arith in
        absent-IsDone (Spec.write id t) (locked false) tt (rw gone refl)
          (rw (write-runs s id k.slot k.at k.native callable t, differs) refl)
    | inr (e, n, at) ↦ write-present e n at
  ]

  remove-present :
      (e : A) (n : ℕ) → IsEntry id m k.slot e n → IsDone calls m (Spec.remove id t) state s
  unfolding perform
  remove-present e n at =
      let same : (ident k.slot.header == id.ordinal) ≡ true = ground (arith, at.same) in
      elim (Bool-cases (n == 0)) [
        | inr busy ↦
            marked-IsDone e n at (ground arith) (Spec.remove id t) tt (rw (at.entry, busy) refl) (
              rw
                (
                  remove-runs s id k.slot k.at k.native callable t e at.value,
                  same,
                  unlocked_iff n e at,
                  busy,
                  after_removal-gives_up id _ t,
                  removal_reply-gives_up t,
                )
                refl)
        | inl free ↦
            IsDone-by (Spec.remove id t) id _ (with_entry m id none) (found (some e)) tt
              (rw (at.entry, free) refl)
              (rw
                (
                  remove-runs s id k.slot k.at k.native callable t e at.value,
                  same,
                  unlocked_iff n e at,
                  free,
                )
                refl)
              (vacated_good i r id k e n at) (vacated-Refines i r id k e n at)
      ]

  pub remove-IsDone : IsDone calls m (Spec.remove id t) state s
  unfolding perform
  remove-IsDone = elim (entry_cases i r id k) [
    | inl (gone, other_id) ↦
        let differs : (ident k.slot.header == id.ordinal) ≡ false = ground arith in
        let (e, v) = (slot_good i r id k).written (omega (arith, k.issued_id)) in
        absent-IsDone (Spec.remove id t) (found none) tt (rw gone refl)
          (rw (remove-runs s id k.slot k.at k.native callable t e v, differs) refl)
    | inr (e, n, at) ↦ remove-present e n at
  ]
