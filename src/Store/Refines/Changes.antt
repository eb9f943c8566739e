-- ===== src/Store/Refines/Changes.antt =====
-- src/lib.rs and src/lock.rs: what a call does to the slot of its ID, against the specification.
use read_write_store.Prelude.{
  ℕ, ◌+◌, ◌^◌, ◌≤◌, ◌<◌, ◌≡◌, ◌≢◌, refl, sym, subst, ◌∙◌, ◌⊎◌, inl, inr, Bool, true, false, not,
  Option, some, none, ok, ◌==◌, if◌then◌else◌, arith, Bool-cases, Option-cases,
}
use read_write_store.Header.Word.{reserved}
use read_write_store.Header.Abstract.{ident, readers, all_ones, is_live, issued, IsWord}
use read_write_store.Id.{ElementId}
use read_write_store.Slot.{Slot}
use read_write_store.Queue
use read_write_store.Store.{Store, push_erasure}
use read_write_store.Store.View.{same_id}
use read_write_store.Store.Look.{look, seen, seen_live, seen_dead, seen-some, seen-none, changed}
use read_write_store.Store.Spec.{Model, Call, Reply, IsFresh, expected, with_entry}
use read_write_store.Store.Client.{perform}
use read_write_store.Store.Invariant.{IsStore, IsSlot, IsOther, put_self}
use read_write_store.Store.Invariant.Puts.{
  with_cell, IsStore-put, IsStore-same, IsStore-push, AllErased-elsewhere,
}
use read_write_store.Store.Refines.{IsKnown, Refines, Refines-put, IsDone, with_cell_same}

module _ {ℓ} {A : Type ℓ} where
  -- A call is done, by what it does and what is expected of it.
  pub IsDone-by :
      {calls state : ℕ} {s : Store A} {m : Model A} (c : Call A) (id : ElementId) (s' : Store A)
      (m' : Model A) (reply : Reply A)
      → IsFresh m c id
      → expected m c id ≡ (m', reply)
      → perform c state s ≡ ok (state, (s', reply))
      → IsStore (calls + 1) s'
      → Refines s' m'
      → IsDone calls m c state s
  IsDone-by {state = state} c id s' m' reply fresh e run good refines = record {
    state' = state;
    store' = s';
    id = id;
    fresh = fresh;
    run = rw e run;
    good = good;
    refines = rw e refines;
  }

  -- The queue of erasures is not part of what the client sees.
  pub Refines-queued :
      {s : Store A} {m : Model A} (id : ElementId) (may_reuse : Bool)
      → Refines s m
      → Refines (if may_reuse then push_erasure id s else s) m
  unfolding push_erasure
  Refines-queued id true r = record {
    entries = r.entries;
    known = λ other g.
        let k = r.known other g in
        record { slot = k.slot; at = k.at; issued_id = k.issued_id; native = k.native };
  }
  Refines-queued id false r = r

  -- An entry that is what it was.
  pub Refines-unchanged :
      {s s' : Store A} {m : Model A} (id : ElementId) (entry : Option (A × ℕ))
      → Refines s m
      → m.entry id ≡ entry
      → Refines s' (with_entry m id entry)
      → Refines s' m
  Refines-unchanged {s} {s'} {m} id entry old same r = record {
    entries = λ other. r.entries other ∙ unchanged other;
    known = r.known;
  }
    where
      unchanged : (other : ElementId) → changed id entry m.entry other ≡ m.entry other
      unchanged other = elim (Bool-cases (same_id id other)) [
        | inr e ↦ rw e refl
        | inl e ↦
            let base : id.slot_address.base ≡ other.slot_address.base = ground arith in
            let index : id.slot_address.index ≡ other.slot_address.index = ground arith in
            let ordinal : id.ordinal ≡ other.ordinal = ground arith in
            let same_look : look s id ≡ look s other = rw (base, index, ordinal) refl in
            rw e (sym same ∙ sym (old.entries id) ∙ same_look ∙ old.entries other)
      ]

-- The slot of an ID that the store gave out, when the ID has an entry: an element and a count.
pub record IsEntry {ℓ} {A : Type ℓ} (id : ElementId) (m : Model A) (slot : Slot A) (e : A) (n : ℕ)
    : Type ℓ where
  pub entry : m.entry id ≡ some (e, n)
  pub live : is_live slot.header ≡ true
  pub same : ident slot.header ≡ id.ordinal
  pub value : slot.value ≡ some e
  pub count : readers slot.header ≡ n

module _ {ℓ} {A : Type ℓ} {calls : ℕ} {s : Store A} {m : Model A} (i : IsStore calls s)
    (r : Refines s m) (id : ElementId) (k : IsKnown s id) where
  pub slot_good : IsSlot calls k.slot
  slot_good = (i.slots id.slot_address.base id.slot_address.index k.slot k.at).1

  entry_seen : seen (some k.slot) id.ordinal ≡ m.entry id
  entry_seen =
      let e = r.entries id in subst (λ (c : Option (Slot A)). seen c id.ordinal ≡ m.entry id) k.at e

  pub entry-IsEntry : (e : A) (n : ℕ) → m.entry id ≡ some (e, n) → IsEntry id m k.slot e n
  entry-IsEntry e n at =
      let (live, same, value, count) = seen-some k.slot id.ordinal n e (entry_seen ∙ at) in
      record { entry = at; live = live; same = same; value = value; count = count }

  -- An ID without an entry is not that of its slot; else the slot holds the entry.
  pub entry_cases :
      ((m.entry id ≡ none) × (ident k.slot.header ≢ id.ordinal))
      ⊎ ((e : A) × (n : ℕ) × IsEntry id m k.slot e n)
  entry_cases = elim (Option-cases (m.entry id)) [
    | inl gone ↦ inl (gone, seen-none k.slot id.ordinal slot_good k.issued_id (entry_seen ∙ gone))
    | inr (e, at) ↦ inr (e.0, e.1, entry-IsEntry e.0 e.1 at)
  ]

  -- A call that finds another ID at the slot writes nothing.
  pub same_good : IsStore (calls + 1) (with_cell s id.slot_address k.slot)
  same_good = rw (with_cell_same s id.slot_address k.slot k.at) (IsStore-same i)

  pub same-Refines : Refines (with_cell s id.slot_address k.slot) m
  same-Refines = rw (with_cell_same s id.slot_address k.slot k.at) r

  module _ (e : A) (n : ℕ) (at : IsEntry id m k.slot e n) where
    pub entry_elsewhere : IsOther id.slot_address s.erasures
    entry_elsewhere =
        let live = at.live in
        AllErased-elsewhere s.heap id.slot_address k.slot k.at (inr (ground arith)) s.erasures
          i.erased

    -- A slot whose element stays, under another word or with another value.
    pub entry_good :
        (slot' : Slot A)
        → IsSlot (calls + 1) slot'
        → IsStore (calls + 1) (with_cell s id.slot_address slot')
    entry_good slot' good =
        let live = at.live in
        IsStore-put id.slot_address k.slot slot' i k.at (ground arith) entry_elsewhere good

    pub entry-Refines :
        (slot' : Slot A) (e' : A) (n' : ℕ)
        → is_live slot'.header ≡ true
        → ident slot'.header ≡ id.ordinal
        → slot'.value ≡ some e'
        → readers slot'.header ≡ n'
        → Refines (with_cell s id.slot_address slot') (with_entry m id (some (e', n')))
    entry-Refines slot' e' n' live same value count =
        let was_live = at.live in
        let was_same = at.same in
        Refines-put id k.slot slot' (some (e', n')) r k.at (ground arith) (λ ordinal.
          seen_live slot' id.ordinal e' live same value ordinal ∙ rw count (others ordinal))
      where
        others :
            (ordinal : ℕ)
            → (if id.ordinal == ordinal then some (e', n') else none)
              ≡ (if id.ordinal == ordinal then some (e', n') else seen (some k.slot) ordinal)
        others ordinal =
            rw (seen_live k.slot id.ordinal e (at.live) (at.same) (at.value) ordinal) (ground arith)

    -- A call that changes the lock on the element, and nothing else.
    pub relocked-IsDone :
        {state : ℕ} (header' n' : ℕ) (c : Call A) (reply : Reply A)
        → IsWord header'
        → is_live header' ≡ true
        → ident header' ≡ id.ordinal
        → readers header' ≡ n'
        → (n' ≤ calls + 1) ⊎ (n' ≡ all_ones)
        → IsFresh m c id
        → expected m c id ≡ (with_entry m id (some (e, n')), reply)
        → perform c state s
          ≡ ok (state, (with_cell s id.slot_address (record (k.slot) { header = header' }), reply))
        → IsDone calls m c state s
    relocked-IsDone header' n' c reply word live same count few fresh ex run =
        let slot' : Slot A = record (k.slot) { header = header' } in
        IsDone-by c id (with_cell s id.slot_address slot') (with_entry m id (some (e, n'))) reply
          fresh ex run
          (entry_good slot'
            (record { word = word; written = λ lt. (e, at.value); few = omega (arith, few) }))
          (entry-Refines slot' e n' live same at.value count)

    -- The element is removed: the slot is vacant under the next ID, and queued for reuse unless
    -- that ID is the reserved one.
    abbrev pub vacated : Slot A
    vacated = record (k.slot) { header = id.ordinal + 1 }

    abbrev pub vacated_store : Store A
    vacated_store =
        let gone = with_cell s id.slot_address vacated in
        if not (id.ordinal + 1 == reserved) then push_erasure id gone else gone

    vacated-IsSlot : IsSlot (calls + 1) vacated
    vacated-IsSlot =
        let good = slot_good in
        let same = at.same in
        let live = at.live in
        let small : id.ordinal + 1 < 2 ^ 32 = ground (arith, good.word) in
        record {
          word = record { fits = omega arith; live = inl small };
          written = λ lt. (e, at.value);
          few = inl (omega arith);
        }

    pub vacated_good : IsStore (calls + 1) vacated_store
    unfolding push_erasure Queue.push
    vacated_good = elim (Bool-cases (not (id.ordinal + 1 == reserved))) [
      | inr last ↦ rw last (entry_good vacated vacated-IsSlot)
      | inl more ↦
          let good = slot_good in
          let same = at.same in
          let live = at.live in
          rw more (
            IsStore-push id.slot_address vacated (entry_good vacated vacated-IsSlot)
              (put_self id.slot_address vacated s.heap.cell) (omega arith)
              (ground (arith, good.word)) entry_elsewhere)
    ]

    pub vacated-Refines : Refines vacated_store (with_entry m id none)
    vacated-Refines =
        Refines-queued id (not (id.ordinal + 1 == reserved))
          (Refines-put id k.slot vacated none r k.at grows gone)
      where
        grows : issued k.slot.header ≤ issued vacated.header
        grows =
            let good = slot_good in
            let same = at.same in let live = at.live in ground (arith, good.word)

        gone :
            (ordinal : ℕ)
            → seen (some vacated) ordinal
              ≡ (if id.ordinal == ordinal then none else seen (some k.slot) ordinal)
        gone ordinal =
            let good = slot_good in
            let same = at.same in
            let dead : is_live (id.ordinal + 1) ≡ false = ground (arith, good.word) in
            seen_dead vacated dead ordinal
            ∙ rw (seen_live k.slot id.ordinal e (at.live) (at.same) (at.value) ordinal)
                (ground arith)
