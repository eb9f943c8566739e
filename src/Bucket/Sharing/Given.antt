-- ===== src/Bucket/Sharing/Given.antt =====
-- The slots of a shared bucket that were handed out, and those that are left.
use read_write_store.Prelude.{ℕ, ◌+◌, ◌^◌, ◌≤◌, ◌<◌, ◌≡◌, ◌⊎◌, inl, inr, List, [], ◌∷◌, arith, ap}
use read_write_store.Id.{Address}
use read_write_store.Block.{Block, scramble_slot}
use read_write_store.Block.Scramble.{scramble_slot-injective}
use read_write_store.Bucket.Sharing.{IsNew}

-- The slots that were handed out: of an older block, or with a number below the counter.
abbrev pub IsGiven : Block → ℕ → ℕ → List Address → Type 0
IsGiven head used k [] = Unit
IsGiven head used k (a ∷ given) =
    ((a.base < head.base)
      ⊎ ((a.base ≡ head.base)
          × (l : ℕ) × (l < used)
          × (l < 2 ^ k)
          × (scramble_slot (2 ^ k) l ≡ a.index)))
    × IsGiven head used k given

pub IsGiven-mono :
    (head : Block) (used k : ℕ) (given : List Address)
    → IsGiven head used k given
    → IsGiven head (used + 1) k given
IsGiven-mono head used k [] g = tt
IsGiven-mono head used k (a ∷ given) (inl old, g) = (inl old, IsGiven-mono head used k given g)
IsGiven-mono head used k (a ∷ given) (inr (same, l, lt, in_range, at), g) =
    (inr (same, l, omega arith, in_range, at), IsGiven-mono head used k given g)

pub IsGiven-newer :
    (head new : Block) (used k k' : ℕ) (given : List Address)
    → head.base < new.base
    → IsGiven head used k given
    → IsGiven new 0 k' given
IsGiven-newer head new used k k' [] newer g = tt
IsGiven-newer head new used k k' (a ∷ given) newer (inl old, g) =
    (inl (omega arith), IsGiven-newer head new used k k' given newer g)
IsGiven-newer head new used k k' (a ∷ given) newer (inr (same, l, lt, in_range, at), g) =
    (inl (omega arith), IsGiven-newer head new used k k' given newer g)

-- A slot with a number from the counter on was not handed out.
pub given-IsNew :
    (head : Block) (used k i : ℕ) (given : List Address)
    → k ≤ 30
    → used ≤ i
    → i < 2 ^ k
    → IsGiven head used k given
    → IsNew (record { base = head.base; index = scramble_slot (2 ^ k) i }) given
given-IsNew head used k i [] small le lt g = tt
given-IsNew head used k i (a ∷ given) small le lt (inl old, g) = (
  λ e. let b = ap (λ (t : Address). t.base) e in absurd (omega arith),
  given-IsNew head used k i given small le lt g,
)
given-IsNew head used k i (a ∷ given) small le lt (inr (same, l, before, in_range, at), g) = (
  λ e.
      let b = ap (λ (t : Address). t.index) e in
      let same_slot : l ≡ i = scramble_slot-injective k small l i in_range lt (cc) in
      absurd (omega arith),
  given-IsNew head used k i given small le lt g,
)

-- Every slot of the newest block was asked for.
abbrev pub IsFull : List Block → ℕ → Type 0
IsFull [] used = Unit
IsFull (head ∷ rest) used = head.len ≤ used

abbrev pub HasRoom : List Block → ℕ → Type 0
HasRoom [] used = ⊥
HasRoom (head ∷ rest) used = used < head.len

pub room-not_full : (bs : List Block) (used : ℕ) → HasRoom bs used → IsFull bs used → ⊥
room-not_full [] used room full = room
room-not_full (head ∷ rest) used room full = omega arith
