-- ===== src/Block.antt =====
-- src/block.rs: blocks of slots. An allocation is a number that the heap has not used before, and a
-- block is its allocation with its length; the chain of `next` pointers is the list of blocks.
pub mod Scramble
pub mod Layout
use read_write_store.Prelude.{
  List, [], ◌∷◌, ◌++◌, zero, suc, ℕ, ◌+◌, ◌-◌, ◌*◌, ◌%◌, ◌^◌, Bool, not, ◌&&◌, Option, none, some,
  Check, ok, panicked, ◌>>=◌, ◌>>◌, debug_assert, unwrap, ltb, ◌==◌, if◌then◌else◌, bit_and,
}
use read_write_store.Prelude.Panic.{bad_size, out_of_bounds}
use read_write_store.Id.{Address, RwStoreId, ElementId}
use read_write_store.Slot.{Slot}
use read_write_store.Slot

pub record Block : Type 0 where
  pub base : ℕ
  pub len : ℕ
  pub store_id : RwStoreId

pub record Heap {ℓ} (A : Type ℓ) : Type ℓ where
  pub next_base : ℕ
  pub cell : ℕ → ℕ → Option (Slot A)

-- `u32::is_power_of_two`
abbrev pub is_power_of_two : ℕ → Bool
is_power_of_two n = not (n == 0) && bit_and n (n - 1) == 0

abbrev pub factor : ℕ
factor = 3

unfoldable pub scramble_slot : ℕ → ℕ → ℕ
scramble_slot len slot = bit_and (slot * factor % 2 ^ 32) (len - 1)

-- `Block::slot_address`, with the bounds check of `get_debug_checked`
unfoldable pub slot_address : Block → ℕ → Check Address
slot_address b slot =
    let index = scramble_slot b.len slot in
    if ltb index b.len then ok (record { base = b.base; index = index }) else panicked out_of_bounds

module _ {ℓ} {A : Type ℓ} where
  abbrev pub put : Address → Slot A → (ℕ → ℕ → Option (Slot A)) → ℕ → ℕ → Option (Slot A)
  put a s cell base index =
      if (a.base == base) && (a.index == index) then some s else cell base index

  -- An operation on the slot that a pointer points to.
  unfoldable pub on_slot {κ} :
      {B : Type κ} → Address → (Slot A → Check (Slot A × B)) → Heap A → Check (Heap A × B)
  on_slot a f h = do
    s ← unwrap (h.cell a.base a.index) out_of_bounds
    (s', b) ← f s
    ok (record h { cell = put a s' h.cell }, b)

  -- `Block::new`: every slot is vacant with ID 0.
  unfoldable pub new : ℕ → RwStoreId → Heap A → Check (Heap A × Block)
  new size store_id h = do
    debug_assert (not (size == 0)) bad_size
    debug_assert (is_power_of_two size) bad_size
    let fresh = λ (base index : ℕ).
        if (base == h.next_base) && ltb index size
        then some (Slot.new {A = A})
        else h.cell base index
    ok (
      record { next_base = h.next_base + 1; cell = fresh },
      record { base = h.next_base; len = size; store_id = store_id },
    )

  -- `Block::insert`
  unfoldable pub insert : Address → A → RwStoreId → Heap A → Check (Heap A × ElementId)
  insert a element store_id h = do
    (h', ordinal) ← on_slot a (Slot.insert element) h
    ok (h', record { ordinal = ordinal; slot_address = a; store_id = store_id })

  -- `Block::take` and `Block::slot_contents`
  unfoldable pub take : Block → ℕ → Heap A → Check (Heap A × Option (ElementId × A))
  take b slot h = do
    a ← slot_address b slot
    (h', found) ← on_slot a Slot.take h
    elim found [
      | none ↦ ok (h', none)
      | some (ordinal, element) ↦ ok (
        h',
        some (record { ordinal = ordinal; slot_address = a; store_id = b.store_id }, element),
      )
    ]

  unfoldable pub slot_contents : Block → ℕ → Heap A → Check (Option (ElementId × A))
  slot_contents b slot h = do
    a ← slot_address b slot
    s ← unwrap (h.cell a.base a.index) out_of_bounds
    found ← Slot.slot_contents s
    elim found [
      | none ↦ ok none
      | some (ordinal, element) ↦
          ok (some (record { ordinal = ordinal; slot_address = a; store_id = b.store_id }, element))
    ]

  -- What is dropped with a block: its header, which has the next block, and then its slots, the
  -- first one first. The elements are named by the IDs that they had.
  abbrev pub logged : Block → ℕ → Option (ℕ × A) → List (ElementId × A) → List (ElementId × A)
  logged b index none rest = rest
  logged b index (some (ordinal, element)) rest =
      (
        record {
          ordinal = ordinal;
          slot_address = record { base = b.base; index = index };
          store_id = b.store_id;
        },
        element,
      )
      ∷ rest

  unfoldable pub drop_slots :
      (Option A → Check A) → Block → ℕ → ℕ → Heap A → Check (List (ElementId × A))
  drop_slots cast b zero index h = ok []
  drop_slots cast b (suc slots) index h = do
    s ← unwrap (h.cell b.base index) out_of_bounds
    dropped ← Slot.drop_slot cast s
    rest ← drop_slots cast b slots (index + 1) h
    ok (logged b index dropped rest)

  unfoldable pub drop_blocks :
      (Option A → Check A) → List Block → Heap A → Check (List (ElementId × A))
  drop_blocks cast [] h = ok []
  drop_blocks cast (b ∷ next) h = do
    older ← drop_blocks cast next h
    own ← drop_slots cast b b.len 0 h
    ok (older ++ own)
