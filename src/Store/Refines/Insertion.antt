-- ===== src/Store/Refines/Insertion.antt =====
-- src/lib.rs, `insert` against the specification.
use read_write_store.Prelude.{
  ℕ, ◌+◌, ◌-◌, ◌^◌, ◌<◌, ◌≡◌, refl, sym, ◌∙◌, inl, inr, false, some, ok, ◌==◌, if◌then◌else◌, arith,
  Bool-cases,
}
use read_write_store.Header.Abstract.{readers, is_live}
use read_write_store.Id.{Address, ElementId}
use read_write_store.Slot.{Slot}
use read_write_store.Slot
use read_write_store.Slot.Results.{insert_lem}
use read_write_store.Block.{Heap}
use read_write_store.Block
use read_write_store.Store.{Store, location, insert}
use read_write_store.Store.View.{on_slot_lem, same_id}
use read_write_store.Store.Look.{seen, seen_live}
use read_write_store.Store.Spec.{Model, Reply, inserted, IsGiven}
use read_write_store.Store.Spec
use read_write_store.Store.Client.{perform}
use read_write_store.Store.Invariant.{IsStore, IsSlot, put_self}
use read_write_store.Store.Invariant.Puts.{with_cell}
use read_write_store.Store.Invariant.Erasure.{IsLocated}
use read_write_store.Store.Invariant.Located.{location_lem}
use read_write_store.Store.Refines.{Refines, Refines-put, IsDone}

module _ {ℓ} {A : Type ℓ} {calls : ℕ} {s : Store A} {m : Model A} (r : Refines s m) (element : A)
    (state state' : ℕ) (s' : Store A) (a : Address)
    (located : location state s ≡ ok (state', (s', a))) (l : IsLocated calls s s' a) where
  abbrev new_id : ElementId
  new_id = record { ordinal = l.slot.header; slot_address = a; store_id = s.store_id }

  abbrev filled : Slot A
  filled = record { header = 2 ^ 63 + l.slot.header; value = some element }

  located-Refines : Refines s' m
  located-Refines = record {
    entries = λ id. l.same_look id ∙ r.entries id;
    known = λ id g.
        let k = r.known id g in
        record {
          slot = k.slot;
          at = l.kept id.slot_address.base id.slot_address.index k.slot k.at;
          issued_id = k.issued_id;
          native = rw (l.native) k.native;
        };
  }

  new_id-fresh : (other : ElementId) → IsGiven other m.given → same_id new_id other ≡ false
  new_id-fresh other g = elim (Bool-cases (same_id new_id other)) [
    | inr differs ↦ differs
    | inl same ↦
        let k = r.known other g in
        let base : a.base ≡ other.slot_address.base = ground arith in
        let index : a.index ≡ other.slot_address.index = ground arith in
        let both : some k.slot ≡ some l.slot =
          sym (l.kept a.base a.index k.slot (rw (base, index) k.at)) ∙ l.at in
        let vacant = l.vacant in absurd (ground (arith, k.issued_id))
  ]

  insert-runs :
      perform (Spec.insert element) state s ≡ ok (state', (with_cell s' a filled, inserted new_id))
  unfolding perform insert Block.insert
  insert-runs =
      rw
        (
          located,
          on_slot_lem a (Slot.insert element) s'.heap l.slot filled l.slot.header l.at
              (insert_lem element l.slot l.vacant),
        )
        refl

  filled-seen :
      (ordinal : ℕ)
      → seen (some filled) ordinal
        ≡ (if l.slot.header == ordinal then some (element, 0) else seen (some l.slot) ordinal)
  filled-seen ordinal =
      let vacant = l.vacant in
      let no_readers : readers filled.header ≡ 0 = omega arith in
      let dead : is_live l.slot.header ≡ false = ground arith in
      seen_live filled l.slot.header element (ground arith) (omega arith) refl ordinal
      ∙ rw (no_readers, dead) refl

  filled-Refines : Refines (with_cell s' a filled) (Spec.expected m (Spec.insert element) new_id).0
  filled-Refines =
      let vacant = l.vacant in
      let put =
        Refines-put new_id l.slot filled (some (element, 0)) located-Refines l.at (ground arith)
          filled-seen in
      record {
        entries = put.entries;
        known = λ id g. elim g [
          | inr old ↦ put.known id old
          | inl e ↦ rw e (record {
            slot = filled;
            at = put_self a filled s'.heap.cell;
            issued_id = ground arith;
            native = rw (l.native) (ground arith);
          })
        ];
      }

  filled-IsSlot : IsSlot (calls + 1) filled
  filled-IsSlot =
      let vacant = l.vacant in
      record {
        word = record { fits = omega arith; live = omega arith };
        written = λ lt. (element, refl);
        few = inl (omega arith);
      }

  insertion-IsDone : IsDone calls m (Spec.insert element) state s
  insertion-IsDone = record {
    state' = state';
    store' = with_cell s' a filled;
    id = new_id;
    fresh = new_id-fresh;
    run = insert-runs;
    good = l.fill filled filled-IsSlot;
    refines = filled-Refines;
  }

pub insert-IsDone {ℓ} :
    {A : Type ℓ} (calls : ℕ) (s : Store A) (m : Model A) (element : A) (state : ℕ)
    → IsStore calls s
    → Refines s m
    → calls < 2 ^ 31 - 1
    → IsDone calls m (Spec.insert element) state s
insert-IsDone calls s m element state i r few =
    let (state', s', a, located, l) = location_lem calls s state i few in
    insertion-IsDone r element state state' s' a located l
