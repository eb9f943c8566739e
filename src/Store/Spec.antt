-- ===== src/Store/Spec.antt =====
-- src/lib.rs and src/lock.rs, what a store promises to a client: the calls, the replies, and the
-- abstract state, in which an ID has an element with a count of readers, or nothing.
use read_write_store.Prelude.{
  ℕ, ◌+◌, ◌-◌, ◌<◌, ◌≡◌, ◌⊎◌, Bool, true, false, Option, none, some, List, [], ◌∷◌, ◌==◌,
  if◌then◌else◌,
}
use read_write_store.Timeout.{Timeout, dont_block, block_until, block_indefinitely}
use read_write_store.Header.Abstract.{all_ones}
use read_write_store.Id.{ElementId}
use read_write_store.Store.View.{same_id}
use read_write_store.Store.Look.{changed}

-- The calls: the methods of the store, and what a client does with a guard, which is named by its ID.
pub data Call {ℓ} (A : Type ℓ) : Type ℓ where
  insert : (element : A) → Call A
  remove read write : (id : ElementId) → (t : Timeout) → Call A
  remove_locked drop_read drop_write deref get_mut : (id : ElementId) → Call A
  assign : (id : ElementId) → (element : A) → Call A

pub data Reply {ℓ} (A : Type ℓ) : Type ℓ where
  inserted : (id : ElementId) → Reply A
  found : (element : Option A) → Reply A
  locked : (granted : Bool) → Reply A
  nothing timed_out never : Reply A

pub record Model {ℓ} (A : Type ℓ) : Type ℓ where
  pub entry : ElementId → Option (A × ℕ)
  pub given : List ElementId

abbrev pub IsGiven : ElementId → List ElementId → Type 0
IsGiven id [] = ⊥
IsGiven id (other ∷ ids) = (id ≡ other) ⊎ IsGiven id ids

module _ {ℓ} {A : Type ℓ} where
  abbrev pub empty_model : Model A
  empty_model = record { entry = λ id. none; given = [] }

  -- A call that has to wait.
  abbrev pub waits : Timeout → Reply A
  waits dont_block = timed_out
  waits (block_until deadline) = timed_out
  waits block_indefinitely = never

  abbrev pub with_entry : Model A → ElementId → Option (A × ℕ) → Model A
  with_entry m id e = record m { entry = changed id e m.entry }

  abbrev pub removing : Model A → ElementId → Timeout → Option (A × ℕ) → Model A × Reply A
  removing m id t none = (m, found none)
  removing m id t (some (e, n)) =
      if n == 0 then (with_entry m id none, found (some e)) else (m, waits t)

  abbrev pub reading : Model A → ElementId → Timeout → Option (A × ℕ) → Model A × Reply A
  reading m id t none = (m, locked false)
  reading m id t (some (e, n)) =
      if n == all_ones then (m, waits t) else (with_entry m id (some (e, n + 1)), locked true)

  abbrev pub writing : Model A → ElementId → Timeout → Option (A × ℕ) → Model A × Reply A
  writing m id t none = (m, locked false)
  writing m id t (some (e, n)) =
      if n == 0 then (with_entry m id (some (e, all_ones)), locked true) else (m, waits t)

  abbrev pub element : Option (A × ℕ) → Option A
  element none = none
  element (some (e, n)) = some e

  -- The guard's entry with another count, or another element.
  abbrev pub recounted : Option (A × ℕ) → (ℕ → ℕ) → Option (A × ℕ)
  recounted none f = none
  recounted (some (e, n)) f = some (e, f n)

  abbrev pub reassigned : Option (A × ℕ) → A → Option (A × ℕ)
  reassigned none e = none
  reassigned (some (old, n)) e = some (e, n)

  -- The state after a call and its reply; an insertion may choose the new ID.
  abbrev pub expected : Model A → Call A → ElementId → Model A × Reply A
  expected m (insert e) id =
      (record { entry = changed id (some (e, 0)) m.entry; given = id ∷ m.given }, inserted id)
  expected m (remove id t) _ = removing m id t (m.entry id)
  expected m (read id t) _ = reading m id t (m.entry id)
  expected m (write id t) _ = writing m id t (m.entry id)
  expected m (remove_locked id) _ = (with_entry m id none, found (element (m.entry id)))
  expected m (drop_read id) _ = (with_entry m id (recounted (m.entry id) (λ n. n - 1)), nothing)
  expected m (drop_write id) _ = (with_entry m id (recounted (m.entry id) (λ n. 0)), nothing)
  expected m (deref id) _ = (m, found (element (m.entry id)))
  expected m (get_mut id) _ = (m, found (element (m.entry id)))
  expected m (assign id e) _ = (with_entry m id (reassigned (m.entry id) e), nothing)

  abbrev pub IsFresh : Model A → Call A → ElementId → Type 0
  IsFresh m (insert e) id = (other : ElementId) → IsGiven other m.given → same_id id other ≡ false
  IsFresh m _ id = Unit

  -- The client has a guard.
  abbrev pub ReadHeld : Model A → ElementId → Type ℓ
  ReadHeld m id = (e : A) × (n : ℕ) × (m.entry id ≡ some (e, n)) × (0 < n) × (n < all_ones)

  abbrev pub WriteHeld : Model A → ElementId → Type ℓ
  WriteHeld m id = (e : A) × (m.entry id ≡ some (e, all_ones))

  -- What the types of the crate, and its unsafe code, demand of a caller.
  abbrev pub IsLegal : Model A → Call A → Type ℓ
  IsLegal m (insert e) = Unit
  IsLegal m (remove_locked id) = IsGiven id m.given × WriteHeld m id
  IsLegal m (drop_read id) = IsGiven id m.given × ReadHeld m id
  IsLegal m (drop_write id) = IsGiven id m.given × WriteHeld m id
  IsLegal m (deref id) = IsGiven id m.given × (ReadHeld m id ⊎ WriteHeld m id)
  IsLegal m (assign id e) = IsGiven id m.given × WriteHeld m id
  IsLegal m (get_mut id) = IsGiven id m.given × Unit {ℓ}
  IsLegal m (remove id t) = IsGiven id m.given × Unit {ℓ}
  IsLegal m (read id t) = IsGiven id m.given × Unit {ℓ}
  IsLegal m (write id t) = IsGiven id m.given × Unit {ℓ}
