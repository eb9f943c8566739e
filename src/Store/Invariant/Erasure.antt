-- ===== src/Store/Invariant/Erasure.antt =====
-- src/lib.rs, the location that `insert` finds in the queue of erasures.
use read_write_store.Prelude.{ℕ, ◌+◌, ◌<◌, ◌≡◌, refl, false, some, List, [], ◌∷◌, arith}
use read_write_store.Header.Word.{reserved}
use read_write_store.Id.{Address, ElementId, same_address}
use read_write_store.Slot.{Slot}
use read_write_store.Block.{Heap}
use read_write_store.Queue.{pop}
use read_write_store.Store.{Store}
use read_write_store.Store.Look.{look}
use read_write_store.Store.Invariant.{IsOther, IsDistinct, IsSlot, IsErased, AllErased, IsStore}
use read_write_store.Store.Invariant.Puts.{with_cell, IsStore-put}

module _ {ℓ} {A : Type ℓ} where
  -- What `pop` takes from the queue.
  pub pop-some :
      (h : Heap A) (x : Address) (xs : List Address)
      → AllErased h (x ∷ xs)
      → IsDistinct (x ∷ xs)
      → (rest : List Address) × (a : Address) × (pop (x ∷ xs) ≡ some (rest, a))
        × AllErased h rest
        × IsDistinct rest
        × IsErased h a
        × IsOther a rest
        × ((b : Address) → IsOther b (x ∷ xs) → (same_address b a ≡ false) × IsOther b rest)
  unfolding pop
  pop-some h x [] er d = ([], x, refl, tt, tt, er.0, tt, λ b o. (o.0, tt))
  pop-some h x (y ∷ xs) er d =
      let (rest, a, run, ers, ds, ea, oa, keeps) = pop-some h y xs er.1 d.1 in
      let (xa, xrest) = keeps x d.0 in
      (
        x ∷ rest,
        a,
        rw run refl,
        (er.0, ers),
        (xrest, ds),
        ea,
        (ground arith, oa),
        λ b o. let (ba, brest) = keeps b o.1 in (ba, (o.0, brest)),
      )

  -- A vacant slot for the next element, and a store that can have anything put there.
  pub record IsLocated (calls : ℕ) (s s' : Store A) (a : Address) : Type ℓ where
    pub slot : Slot A
    pub at : s'.heap.cell a.base a.index ≡ some slot
    pub vacant : slot.header < reserved
    pub native : s'.store_id ≡ s.store_id
    pub same_look : (other : ElementId) → look s' other ≡ look s other
    pub kept :
        (base index : ℕ) (old : Slot A)
        → s.heap.cell base index ≡ some old
        → s'.heap.cell base index ≡ some old
    pub fill :
        (slot' : Slot A) → IsSlot (calls + 1) slot' → IsStore (calls + 1) (with_cell s' a slot')

  -- An erasure is taken.
  pub taken :
      {calls : ℕ} {s : Store A} (rest : List Address) (a : Address)
      → IsStore calls s
      → AllErased s.heap rest
      → IsDistinct rest
      → IsErased s.heap a
      → IsOther a rest
      → IsLocated calls s (record s { erasures = rest }) a
  taken {calls} {s} rest a i ers ds ea oa = record {
    slot = ea.slot;
    at = ea.at;
    vacant = ea.reusable;
    native = refl;
    same_look = λ other. refl;
    kept = λ base index old e. e;
    fill = λ slot' good. IsStore-put a ea.slot slot' popped ea.at (omega (arith, ea.used)) oa good;
  }
    where
      popped : IsStore calls (record s { erasures = rest })
      popped = record {
        size = i.size;
        ready = i.ready;
        apart = i.apart;
        linear = i.linear;
        slots = i.slots;
        erased = ers;
        distinct = ds;
        chains = i.chains;
        owned = i.owned;
      }
