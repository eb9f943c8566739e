-- ===== src/Store/Refines/Stale.antt =====
-- src/lib.rs: an ID whose element was removed.
use read_write_store.Prelude.{
  ℕ, ◌+◌, ◌≤◌, ◌≡◌, refl, sym, ◌∙◌, inl, inr, Option, some, none, List, ok, arith, Bool-cases, true,
  false, ◌==◌,
}
use read_write_store.Header.Word.{max_concurrent_reads}
use read_write_store.Header.Abstract.{all_ones}
use read_write_store.Timeout.{Timeout}
use read_write_store.Id.{ElementId}
use read_write_store.Store.{Store}
use read_write_store.Store.View.{same_id}
use read_write_store.Store.Look.{look}
use read_write_store.Store.Spec.{
  Model, Call, Reply, IsGiven, IsLegal, IsFresh, expected, with_entry, removing, reading, writing,
}
use read_write_store.Store.Spec
use read_write_store.Store.Client.{Program, run, IsSound, Allows, stopped, blocked, answered}
use read_write_store.Store.Invariant.{IsStore}
use read_write_store.Store.Refines.{Refines}
use read_write_store.Store.Refines.Programs.{run-Conforms}

no_entry {κ} : {B : Type κ} {x : Option B} {y : B} → x ≡ some y → x ≡ none → ⊥
no_entry e gone = ground arith

module _ {ℓ} {A : Type ℓ} where
  -- An ID that was given out and that has no entry.
  abbrev pub IsStale : ElementId → Model A → Type ℓ
  IsStale id m =
      IsGiven id m.given × ((other : ElementId) → same_id id other ≡ true → m.entry other ≡ none)

  with_entry-IsStale :
      (m : Model A) (id target : ElementId) (entry : Option (A × ℕ))
      → IsStale id m
      → (m.entry target ≡ none → entry ≡ none)
      → IsStale id (with_entry m target entry)
  with_entry-IsStale m id target entry stale h = (
    stale.0,
    λ other same. elim (Bool-cases (same_id target other)) [
      | inr e ↦ rw e (stale.1 other same)
      | inl e ↦ rw e (h (stale.1 target (ground arith)))
    ],
  )

  removing-IsStale :
      (m : Model A) (id target : ElementId) (t : Timeout) (entry : Option (A × ℕ))
      → IsStale id m
      → IsStale id (removing m target t entry).0
  removing-IsStale m id target t none stale = stale
  removing-IsStale m id target t (some (e, n)) stale = elim (Bool-cases (n == 0)) [
    | inl free ↦ rw free (with_entry-IsStale m id target none stale (λ gone. refl))
    | inr busy ↦ rw busy stale
  ]

  reading-IsStale :
      (m : Model A) (id target : ElementId) (t : Timeout) (entry : Option (A × ℕ))
      → m.entry target ≡ entry
      → IsStale id m
      → IsStale id (reading m target t entry).0
  reading-IsStale m id target t none at stale = stale
  reading-IsStale m id target t (some (e, n)) at stale = elim (Bool-cases (n == all_ones)) [
    | inl busy ↦ rw busy stale
    | inr free ↦
        rw free (
          with_entry-IsStale m id target (some (e, n + 1)) stale
            (λ gone. absurd (no_entry at gone)))
  ]

  writing-IsStale :
      (m : Model A) (id target : ElementId) (t : Timeout) (entry : Option (A × ℕ))
      → m.entry target ≡ entry
      → IsStale id m
      → IsStale id (writing m target t entry).0
  writing-IsStale m id target t none at stale = stale
  writing-IsStale m id target t (some (e, n)) at stale = elim (Bool-cases (n == 0)) [
    | inr busy ↦ rw busy stale
    | inl free ↦ rw free (
        with_entry-IsStale m id target (some (e, all_ones)) stale
          (λ gone. absurd (no_entry at gone)))
  ]

  expected-IsStale :
      (m : Model A) (c : Call A) (new id : ElementId)
      → IsFresh m c new
      → IsStale id m
      → IsStale id (expected m c new).0
  expected-IsStale m (Spec.insert e) new id fresh stale = (
    inr stale.0,
    λ other same. elim (Bool-cases (same_id new other)) [
      | inr differs ↦ rw differs (stale.1 other same)
      | inl e ↦ let differs : same_id new id ≡ false = fresh id stale.0 in absurd (ground arith)
    ],
  )
  expected-IsStale m (Spec.remove target t) new id fresh stale =
      removing-IsStale m id target t (m.entry target) stale
  expected-IsStale m (Spec.read target t) new id fresh stale =
      reading-IsStale m id target t (m.entry target) refl stale
  expected-IsStale m (Spec.write target t) new id fresh stale =
      writing-IsStale m id target t (m.entry target) refl stale
  expected-IsStale m (Spec.remove_locked target) new id fresh stale =
      with_entry-IsStale m id target none stale (λ gone. refl)
  expected-IsStale m (Spec.drop_read target) new id fresh stale =
      with_entry-IsStale m id target _ stale (λ gone. rw gone refl)
  expected-IsStale m (Spec.drop_write target) new id fresh stale =
      with_entry-IsStale m id target _ stale (λ gone. rw gone refl)
  expected-IsStale m (Spec.deref target) new id fresh stale = stale
  expected-IsStale m (Spec.get_mut target) new id fresh stale = stale
  expected-IsStale m (Spec.assign target e) new id fresh stale =
      with_entry-IsStale m id target _ stale (λ gone. rw gone refl)

  Allows-IsStale :
      {m m' : Model A} {p : Program A} {replies : List (Reply A)} (id : ElementId)
      → Allows m p replies m'
      → IsStale id m
      → IsStale id m'
  Allows-IsStale id stopped stale = stale
  Allows-IsStale id (blocked new fresh stuck) stale = expected-IsStale _ _ new id fresh stale
  Allows-IsStale id (answered new fresh more rest) stale =
      Allows-IsStale id rest (expected-IsStale _ _ new id fresh stale)

  -- Once the element of an ID that was given out is gone, the ID is never valid again: whatever a
  -- program that keeps to what is demanded of it does next, with few enough calls, it does not
  -- panic, and the store has nothing under the ID when the program ends or waits for ever. The
  -- store is in order and stands for a state of the specification before.
  pub run_stale :
      (budget calls state : ℕ) (s : Store A) (m : Model A) (p : Program A) (id : ElementId)
      → IsStore calls s
      → Refines s m
      → calls + budget ≤ max_concurrent_reads
      → IsSound budget m p
      → IsGiven id m.given
      → look s id ≡ none
      → (s' : Store A) × (replies : List (Reply A)) × (run p state s ≡ ok (s', replies))
        × (look s' id ≡ none)
  run_stale budget calls state s m p id i r few sound given gone =
      let end = run-Conforms budget calls state s m p i r few sound in
      let stale =
        Allows-IsStale id end.allowed
          (given, λ other same. sym (r.entries other) ∙ look_same other same) in
      (end.store', end.replies, end.outcome, end.refines.entries id ∙ stale.1 id (ground arith))
    where
      look_same : (other : ElementId) → same_id id other ≡ true → look s other ≡ none
      look_same other same =
          let base : id.slot_address.base ≡ other.slot_address.base = ground arith in
          let index : id.slot_address.index ≡ other.slot_address.index = ground arith in
          let ordinal : id.ordinal ≡ other.ordinal = ground arith in
          rw (← base, ← index, ← ordinal) gone
