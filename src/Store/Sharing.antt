-- ===== src/Store/Sharing.antt =====
-- src/lib.rs, any number of threads on one store: their calls on all slots, interleaved, with the
-- queue of erasures and the buckets that hand the slots out. A thread that has several guards
-- counts as several here.
pub mod Slots
pub mod Safety
use read_write_store.Prelude.{
  ℕ, suc, ◌+◌, ◌<◌, ◌≡◌, ◌||◌, Bool, true, false, Option, none, some, List, [], ◌∷◌, if◌then◌else◌,
  replace,
}
use read_write_store.Id.{Address, same_address}
use read_write_store.Header.Word.{unoccupied_bits}
use read_write_store.Header.Code.{Pc, Reply, returned, nothing, removed, occupy}
use read_write_store.Header.System.{System}
use read_write_store.Header.System
use read_write_store.Queue.{push, pop}

-- What the threads share: the headers of the slots, the queue of erasures, and the slots that the
-- buckets have handed out; and where each thread is in its calls on each slot.
pub record Shared : Type 0 where
  pub word : Address → ℕ
  pub pc : Address → ℕ → Pc
  pub erasures : List Address
  pub given : List Address

abbrev pub occurs : Address → List Address → ℕ
occurs a [] = 0
occurs a (b ∷ bs) = let rest = occurs a bs in if same_address b a then suc rest else rest

abbrev pub is_listed : Address → List Address → Bool
is_listed a [] = false
is_listed a (b ∷ bs) = same_address b a || is_listed a bs

-- The ways that an insertion can come to a slot.
abbrev pub vacancies : Address → List Address → List Address → ℕ
vacancies a erasures given = occurs a erasures + (if is_listed a given then 0 else 1)

-- The threads at one slot.
abbrev pub slot_of : Shared → Address → System
slot_of s a = record { word = s.word a; vacant = vacancies a s.erasures s.given; pc = s.pc a }

abbrev pub changed {ℓ} : {B : Type ℓ} → Address → B → (Address → B) → Address → B
changed a v f b = if same_address a b then v else f b

-- A new store. The slots are made when their block is.
unfoldable pub empty : Shared
unfolding unoccupied_bits
empty = record {
  word = λ a. unoccupied_bits 0;
  pc = λ a i. returned nothing;
  erasures = [];
  given = [];
}

pub data SharedStep (n : ℕ) (s : Shared) : Shared → Type 0 where
  -- a step of a call on a slot
  on_slot :
      (a : Address) {t : System}
      → System.Step n (slot_of s a) t
      → t.vacant ≡ vacancies a s.erasures s.given
      → SharedStep n s (record s { word = changed a t.word s.word; pc = changed a t.pc s.pc })
  -- `insert`: `self.erasures.pop()`
  reuse :
      (i : ℕ) {a : Address} {r : Reply} {rest : List Address}
      → i < n
      → pop s.erasures ≡ some (rest, a)
      → s.pc a i ≡ returned r
      → SharedStep n s
          (record s { erasures = rest; pc = changed a (replace i occupy (s.pc a)) s.pc })
  -- `insert`: `bucket.next_insert_location()`, a slot that was not handed out before; the steps of Store.Whole
  -- have the buckets themselves, and no such condition
  take_new :
      (i : ℕ) {a : Address} {r : Reply}
      → i < n
      → is_listed a s.given ≡ false
      → s.pc a i ≡ returned r
      → SharedStep n s
          (record s { given = a ∷ s.given; pc = changed a (replace i occupy (s.pc a)) s.pc })
  -- `push_erasure`, after a removal whose slot may be reused
  give_back :
      (i : ℕ) {a : Address}
      → i < n
      → s.pc a i ≡ removed true
      → SharedStep n s (record s {
        erasures = push a s.erasures;
        pc = changed a (replace i (returned nothing) (s.pc a)) s.pc;
      })

pub data SharedReach (n : ℕ) : Shared → Type 0 where
  start : SharedReach n empty
  later : {s t : Shared} → SharedReach n s → SharedStep n s t → SharedReach n t

pub data SharedRun (n : ℕ) (s : Shared) : Shared → Type 0 where
  here : SharedRun n s s
  more : {t u : Shared} → SharedRun n s t → SharedStep n t u → SharedRun n s u
