-- ===== src/Bucket/Sharing/Stock.antt =====
-- The slots that a shared bucket has left, and what a lookup and an expansion do to them.
use read_write_store.Prelude.{
  ℕ, suc, ◌+◌, ◌*◌, ◌-◌, ◌%◌, ◌^◌, ◌≤◌, ◌<◌, ◌≡◌, refl, inl, inr, true, false, Option, none, some,
  List, [], ◌∷◌, ok, ltb, arith, length, dec_lt, ◌∙◌,
}
use native.Mathlib.Nat.{pow-suc}
use read_write_store.Id.{Address, RwStoreId}
use read_write_store.Slot
use read_write_store.Block.{Block, Heap, scramble_slot}
use read_write_store.Bucket.{Bucket, try_location, expand}
use read_write_store.Bucket.Unused.{slot_address_lem, power_small}
use read_write_store.Bucket.Growth.{grown, expand_lem, grown-old, grown-IsUnused, power_bound}
use read_write_store.Bucket.Chains.{Extends}
use read_write_store.Bucket.Sharing.{IsNew, IsNewest}
use read_write_store.Bucket.Sharing.Given.{
  IsGiven, IsGiven-mono, IsGiven-newer, given-IsNew, IsFull, HasRoom,
}

module _ {ℓ} {A : Type ℓ} where
  -- A newest block with `2 ^ k` slots, of which `used` were asked for.
  pub record IsStocked (head : Block) (used k : ℕ) (h : Heap A) (given : List Address)
      : Type ℓ where
    pub small : k ≤ 30
    pub len : head.len ≡ 2 ^ k
    pub known : head.base < h.next_base
    pub untouched :
        (i : ℕ) → used ≤ i → i < 2 ^ k → h.cell head.base (scramble_slot (2 ^ k) i) ≡ some Slot.new
    pub counted : used ≤ 2 ^ k → length given ≡ 2 ^ k - 1 + used
    pub counted_full : 2 ^ k ≤ used → length given ≡ 2 ^ k - 1 + 2 ^ k
    pub handed : IsGiven head used k given

  -- A bucket while threads look for slots: at most `excess` more were asked for than there are.
  pub data Stock (h : Heap A) (excess : ℕ) : Bucket → List Address → Type ℓ where
    no_block :
        (store_id : RwStoreId)
        → Stock h excess (record { blocks = []; next_unused_slot = 0; store_id = store_id }) []
    in_block :
        {head : Block} {rest : List Block} {used k : ℕ} {store_id : RwStoreId}
        {given : List Address}
        → IsStocked head used k h given
        → used ≤ 2 ^ k + excess
        → Stock h excess
            (record { blocks = head ∷ rest; next_unused_slot = used; store_id = store_id })
            given

  pub Stock-mono :
      {h : Heap A} {e e' : ℕ} {b : Bucket} {given : List Address}
      → e ≤ e'
      → Stock h e b given
      → Stock h e' b given
  Stock-mono le (no_block store_id) = no_block store_id
  Stock-mono le (in_block s few) = in_block s (omega arith)

  -- What a lookup finds: a slot that is vacant and was never handed out, or nothing, when the newest
  -- block is full.
  pub data Found (h : Heap A) (excess : ℕ) (b b' : Bucket) (given : List Address)
      (r : Option Address) : Type ℓ where
    found :
        (a : Address)
        → r ≡ some a
        → h.cell a.base a.index ≡ some Slot.new
        → IsNew a given
        → IsNewest b.blocks a.base
        → Stock h 0 b' (a ∷ given)
        → Found h excess b b' given r
    nothing :
        r ≡ none
        → IsFull b.blocks b.next_unused_slot
        → IsFull b'.blocks b'.next_unused_slot
        → Stock h (excess + 1) b' given
        → Found h excess b b' given r

  lookup-found :
      {head : Block} {used k : ℕ} {h : Heap A} {given : List Address} (rest : List Block)
      (store_id : RwStoreId)
      → IsStocked head used k h given
      → used < 2 ^ k
      → Stock h 0
          (record { blocks = head ∷ rest; next_unused_slot = used + 1; store_id = store_id })
          (record { base = head.base; index = scramble_slot (2 ^ k) used } ∷ given)
  lookup-found {head} {used} {k} {given = given} rest store_id s lt =
      let count = s.counted (omega arith) in
      in_block
        (record {
          small = s.small;
          len = s.len;
          known = s.known;
          untouched = λ i le in_range. s.untouched i (omega arith) in_range;
          counted = λ le. omega arith;
          counted_full = λ le. omega arith;
          handed =
              (inr (refl, used, omega arith, lt, refl), IsGiven-mono head used k given s.handed);
        })
        (omega arith)

  lookup-nothing :
      {head : Block} {used k : ℕ} {h : Heap A} {given : List Address} (e : ℕ) (rest : List Block)
      (store_id : RwStoreId)
      → IsStocked head used k h given
      → 2 ^ k ≤ used
      → used ≤ 2 ^ k + e
      → Stock h
          (e + 1)
          (record { blocks = head ∷ rest; next_unused_slot = used + 1; store_id = store_id })
          given
  lookup-nothing {head} {used} {k} {given = given} e rest store_id s full few =
      in_block
        (record {
          small = s.small;
          len = s.len;
          known = s.known;
          untouched = λ i le in_range. absurd (omega arith);
          counted = λ le. absurd (omega arith);
          counted_full = λ le. s.counted_full full;
          handed = IsGiven-mono head used k given s.handed;
        })
        (omega arith)

  -- A lookup does not panic.
  pub try_location-Found :
      (h : Heap A) (e : ℕ) (b : Bucket) (given : List Address)
      → e ≤ 2 ^ 31
      → Stock h e b given
      → (b' : Bucket) × (r : Option Address) × (try_location b ≡ ok (b', r))
        × Found h e b b' given r
        × (b'.blocks ≡ b.blocks)
  unfolding try_location
  try_location-Found h e b given few (no_block store_id) =
      (_, none, refl, nothing refl tt tt (no_block store_id), refl)
  try_location-Found h e b given few (in_block {head} {rest} {used} {k} {store_id} s small) =
      let len = s.len in
      let bounds = power_small k s.small in
      let bumped : (used + 1) % 2 ^ 32 ≡ used + 1 = omega arith in
      elim (dec_lt used (2 ^ k)) [
        | yes lt ↦
            let room : ltb used head.len ≡ true = ground arith in
            (
              record { blocks = head ∷ rest; next_unused_slot = used + 1; store_id = store_id },
              some (record { base = head.base; index = scramble_slot (2 ^ k) used }),
              rw (room, slot_address_lem head k used s.small s.len lt, bumped) refl,
              found _ refl (s.untouched used (omega arith) lt)
                  (given-IsNew head used k used given s.small (omega arith) lt s.handed) refl
                  (lookup-found rest store_id s lt),
              refl,
            )
        | no ge ↦
            let none_left : ltb used head.len ≡ false = ground arith in
            (
              record { blocks = head ∷ rest; next_unused_slot = used + 1; store_id = store_id },
              none,
              rw (none_left, bumped) refl,
              nothing refl (omega arith) (omega arith)
                  (lookup-nothing e rest store_id s (omega arith) small),
              refl,
            )
      ]

  expanded :
      (h : Heap A) (b : Bucket) (k : ℕ) (given : List Address)
      → k ≤ 30
      → length given ≡ 2 ^ k - 1
      → IsGiven (record { base = h.next_base; len = 2 ^ k; store_id = b.store_id }) 0 k given
      → Stock
          (grown (2 ^ k) h)
          0
          (record b {
            blocks = record { base = h.next_base; len = 2 ^ k; store_id = b.store_id } ∷ b.blocks;
            next_unused_slot = 0;
          })
          given
  expanded h b k given small count handed =
      let u = grown-IsUnused h k b.store_id small in
      let bounds = power_small k small in
      in_block
        (record {
          small = small;
          len = refl;
          known = u.known;
          untouched = u.untouched;
          counted = λ le. omega arith;
          counted_full = λ le. absurd (omega arith);
          handed = handed;
        })
        (omega arith)

  -- The heap keeps the slots of the allocations that it has, and the bucket its blocks; a block that
  -- is added has an allocation of its own.
  pub record Enlarges (h : Heap A) (b : Bucket) (h' : Heap A) (b' : Bucket) : Type ℓ where
    pub next : h.next_base ≤ h'.next_base
    pub old : (base index : ℕ) → base < h.next_base → h'.cell base index ≡ h.cell base index
    pub chain : Extends h.next_base h'.next_base b.blocks b'.blocks

  pub Enlarges-refl : (h : Heap A) (b b' : Bucket) → b'.blocks ≡ b.blocks → Enlarges h b h b'
  Enlarges-refl h b b' same = record {
    next = omega arith;
    old = λ base index lt. refl;
    chain = inl same;
  }

  enlarged :
      (h : Heap A) (b : Bucket) (size : ℕ) (head : Block)
      → head.base ≡ h.next_base
      → Enlarges h b (grown size h) (record b { blocks = head ∷ b.blocks; next_unused_slot = 0 })
  unfolding grown
  enlarged h b size head at = record {
    next = omega arith;
    old = grown-old h size;
    chain = inr (head, refl, omega arith, omega arith);
  }

  -- A full bucket of which fewer than `2 ^ 31 - 1` slots were handed out gets a new block.
  pub expand-Stock :
      (h : Heap A) (e : ℕ) (b : Bucket) (given : List Address)
      → length given < 2 ^ 31 - 1
      → IsFull b.blocks b.next_unused_slot
      → Stock h e b given
      → (h' : Heap A) × (b' : Bucket) × (expand b h ≡ ok (h', b'))
        × Stock h' 0 b' given
        × HasRoom b'.blocks b'.next_unused_slot
        × Enlarges h b h' b'
  unfolding grown
  expand-Stock h e b given few full (no_block store_id) = (
    _,
    _,
    expand_lem b h 0 refl,
    expanded h b 0 [] (omega arith) (omega arith) tt,
    omega arith,
    enlarged h b (2 ^ 0) (record { base = h.next_base; len = 2 ^ 0; store_id = store_id }) refl,
  )
  expand-Stock h e b given few full (in_block {head} {rest} {used} {k} {store_id} s over) =
      let len = s.len in
      let known = s.known in
      let count = s.counted_full (omega arith) in
      let doubled : head.len * 2 ≡ 2 ^ suc k = omega (arith, pow-suc 2 k) in
      let smaller : k < 30 = power_bound k (omega (arith, pow-suc 2 k)) in
      let bounds = power_small (suc k) (omega arith) in
      (
        _,
        _,
        expand_lem b h (suc k) (ground arith),
        expanded h b (suc k) given (omega arith) (omega (arith, pow-suc 2 k)) (
            IsGiven-newer head (record { base = h.next_base; len = 2 ^ suc k; store_id = store_id })
              used k (suc k) given (omega arith) s.handed),
        omega arith,
        enlarged h b (2 ^ suc k)
            (record { base = h.next_base; len = 2 ^ suc k; store_id = store_id }) refl,
      )

  -- What the rest of the program does leaves the slots that are left as they are.
  pub Stock-other :
      {h h' : Heap A} {e : ℕ} {b : Bucket} {given : List Address}
      → h.next_base ≤ h'.next_base
      → ((a : Address)
          → IsNewest b.blocks a.base
          → IsNew a given
          → h'.cell a.base a.index ≡ h.cell a.base a.index)
      → Stock h e b given
      → Stock h' e b given
  Stock-other grows same (no_block store_id) = no_block store_id
  Stock-other {given = given} grows same (in_block {head} {used = used} {k = k} s few) =
      let known = s.known in
      in_block
        (record {
          small = s.small;
          len = s.len;
          known = omega arith;
          untouched = λ i le lt.
              same (record { base = head.base; index = scramble_slot (2 ^ k) i }) refl
                (given-IsNew head used k i given s.small le lt s.handed)
              ∙ s.untouched i le lt;
          counted = s.counted;
          counted_full = s.counted_full;
          handed = s.handed;
        })
        few
