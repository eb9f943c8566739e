-- ===== src/Store/Client.antt =====
-- src/lib.rs and src/lock.rs, the store under a client: every call of the specification done by the
-- store's methods, and whole programs of calls.
use read_write_store.Prelude.{
  ℕ, zero, suc, ◌≡◌, Bool, true, false, Option, none, some, List, [], ◌∷◌, Check, ok, ◌>>=◌,
}
use read_write_store.Timeout.{BlockResult, done}
use read_write_store.Timeout
use read_write_store.Id.{ElementId}
use read_write_store.Slot.{Wait, returns}
use read_write_store.Slot
use read_write_store.Lock
use read_write_store.Store.{Store}
use read_write_store.Store
use read_write_store.Store.Spec.{
  Call, Reply, inserted, found, locked, nothing, timed_out, never, Model, IsLegal, IsFresh,
  expected,
}
use read_write_store.Store.Spec

module _ {ℓ} {A : Type ℓ} where
  abbrev pub removal_reply : Wait (Option A) → Reply A
  removal_reply Slot.never = never
  removal_reply (returns Timeout.timed_out) = timed_out
  removal_reply (returns (done e)) = found e

  abbrev pub lock_reply {κ} : {L : Type κ} → Wait (Option L) → Reply A
  lock_reply Slot.never = never
  lock_reply (returns Timeout.timed_out) = timed_out
  lock_reply (returns (done none)) = locked false
  lock_reply (returns (done (some lock))) = locked true

  unfoldable pub perform : Call A → ℕ → Store A → Check (ℕ × (Store A × Reply A))
  perform (Spec.insert e) state s = do
    (state', (s', id)) ← Store.insert state e s
    ok (state', (s', inserted id))
  perform (Spec.remove id t) state s = do
    (s', w) ← Store.remove_with_timeout id t s
    ok (state, (s', removal_reply w))
  perform (Spec.read id t) state s = do
    (s', w) ← Store.read_with_timeout id t s
    ok (state, (s', lock_reply w))
  perform (Spec.write id t) state s = do
    (s', w) ← Store.write_with_timeout id t s
    ok (state, (s', lock_reply w))
  perform (Spec.remove_locked id) state s = do
    (s', e) ← Store.remove_locked (record { id = id }) s
    ok (state, (s', found (some e)))
  perform (Spec.drop_read id) state s = do
    (h, u) ← Lock.drop_read (record { id = id }) s.heap
    ok (state, (record s { heap = h }, nothing))
  perform (Spec.drop_write id) state s = do
    (h, u) ← Lock.drop_write (record { id = id }) s.heap
    ok (state, (record s { heap = h }, nothing))
  perform (Spec.deref id) state s = do e ← Lock.deref id s.heap; ok (state, (s, found (some e)))
  perform (Spec.get_mut id) state s = do e ← Store.get_mut id s; ok (state, (s, found e))
  perform (Spec.assign id e) state s = do
    (h, u) ← Lock.assign (record { id = id }) e s.heap
    ok (state, (record s { heap = h }, nothing))

-- A client decides on its next call by the replies that it got.
pub data Program {ℓ} (A : Type ℓ) : Type ℓ where
  stop : Program A
  ask : Call A → (Reply A → Program A) → Program A

module _ {ℓ} {A : Type ℓ} where
  unfoldable pub is_never : Reply A → Bool
  is_never never = true
  is_never reply = false

  -- A call that never returns is the last.
  unfoldable pub run : Program A → ℕ → Store A → Check (Store A × List (Reply A))
  run stop state s = ok (s, [])
  run (ask c k) state s = perform c state s >>= λ r. elim (is_never r.1.1) [
    | true ↦ ok (r.1.0, r.1.1 ∷ [])
    | false ↦ run (k r.1.1) r.0 r.1.0 >>= λ rest. ok (rest.0, r.1.1 ∷ rest.1)
  ]

  -- The client keeps to what is demanded of it, and makes at most `budget` calls.
  abbrev pub IsSound : ℕ → Model A → Program A → Type ℓ
  IsSound budget m stop = Unit
  IsSound zero m (ask c k) = ⊥ × Unit {ℓ}
  IsSound (suc budget) m (ask c k) =
      IsLegal m c
      × ((id : ElementId)
          → IsFresh m c id
          → IsSound budget (expected m c id).0 (k (expected m c id).1))

  -- The runs that the specification allows.
  pub data Allows : Model A → Program A → List (Reply A) → Model A → Type ℓ where
    stopped : {m : Model A} → Allows m stop [] m
    blocked :
        {m : Model A} {c : Call A} {k : Reply A → Program A} (id : ElementId)
        → IsFresh m c id
        → is_never (expected m c id).1 ≡ true
        → Allows m (ask c k) ((expected m c id).1 ∷ []) (expected m c id).0
    answered :
        {m m' : Model A} {c : Call A} {k : Reply A → Program A} {replies : List (Reply A)}
        (id : ElementId)
        → IsFresh m c id
        → is_never (expected m c id).1 ≡ false
        → Allows (expected m c id).0 (k (expected m c id).1) replies m'
        → Allows m (ask c k) ((expected m c id).1 ∷ replies) m'
