-- ===== src/Bucket/Sharing/Invariant.antt =====
-- The invariant of the threads that look for slots in one bucket.
use read_write_store.Prelude.{
  ℕ, ◌+◌, ◌-◌, ◌^◌, ◌≤◌, ◌<◌, ◌≡◌, refl, true, some, List, ◌∷◌, ok, arith, tally, tally-le_twice,
  length,
}
use read_write_store.Id.{Address}
use read_write_store.Slot
use read_write_store.Block.{Heap}
use read_write_store.Bucket.{Bucket}
use read_write_store.Bucket.Sharing.{
  Place, outside, looking, missed, leaving_read, slow, looking_again, expanding, looking_last,
  leaving_write, holds, holds_write, acts, lookup_step, note, AllDistinct, IsNew, IsNewest, Sharing,
}
use read_write_store.Bucket.Sharing.Given.{IsFull, HasRoom, room-not_full}
use read_write_store.Bucket.Sharing.Stock.{
  Stock, Enlarges, Enlarges-refl, found, nothing, try_location-Found, expand-Stock,
}
use read_write_store.Bucket.Sharing.Exclusion.{IsExclusive}

-- The slots that a thread has asked for in vain, since the last expansion or before it.
abbrev pub asked : Place → ℕ
asked missed = 1
asked slow = 1
asked looking_again = 1
asked expanding = 2
asked _ = 0

-- The most steps that a thread has left in its call.
abbrev pub to_go : Place → ℕ
to_go (outside last) = 0
to_go (leaving_read a) = 1
to_go (leaving_write a) = 1
to_go looking_last = 2
to_go expanding = 3
to_go looking_again = 4
to_go slow = 5
to_go missed = 6
to_go looking = 7

-- Whether a thread is in a call that has no slot yet.
abbrev pub pending : Place → ℕ
pending (outside last) = 0
pending (leaving_read a) = 0
pending (leaving_write a) = 0
pending _ = 1

-- What a thread with the write lock knows of the bucket.
abbrev pub Knows : Bucket → Place → Type 0
Knows b expanding = IsFull b.blocks b.next_unused_slot
Knows b looking_last = HasRoom b.blocks b.next_unused_slot
Knows b _ = Unit

asked-le : (p : Place) → asked p ≤ 2
asked-le p = ground arith

module _ {ℓ} {A : Type ℓ} where
  pub record Inv (n : ℕ) (s : Sharing A) : Type ℓ where
    pub few : n ≤ 2 ^ 30
    pub stock : Stock s.heap (tally asked n s.place) s.bucket s.given
    pub distinct : AllDistinct s.given
    pub exclusive : IsExclusive n s.place
    pub knows : (i : ℕ) → i < n → Knows s.bucket (s.place i)

  pub asked_bound : {n : ℕ} {s : Sharing A} → Inv n s → tally asked n s.place ≤ 2 ^ 31
  asked_bound {n} {s} inv =
      let few = inv.few in omega (arith, tally-le_twice asked n s.place (λ j. asked-le (s.place j)))

  -- What a thread comes to by a lookup or an expansion: it hands out a slot, it has asked in vain,
  -- or it has made room.
  pub data Advanced (h : Heap A) (e : ℕ) (b : Bucket) (given : List Address) (p : Place)
      (h' : Heap A) (b' : Bucket) (p' : Place) : Type ℓ where
    hands_out :
        (a : Address)
        → note p' given ≡ a ∷ given
        → asked p' ≡ 0
        → h.cell a.base a.index ≡ some Slot.new
        → IsNew a given
        → IsNewest b.blocks a.base
        → Stock h' 0 b' (a ∷ given)
        → Advanced h e b given p h' b' p'
    asks_in_vain :
        note p' given ≡ given
        → asked p' ≡ asked p + 1
        → Stock h' (e + 1) b' given
        → Advanced h e b given p h' b' p'
    expands :
        note p' given ≡ given → asked p' ≡ 0 → Stock h' 0 b' given → Advanced h e b given p h' b' p'

  -- The step does not panic, and keeps the lock.
  abbrev pub Advances : Heap A → ℕ → Bucket → List Address → Place → Type ℓ
  Advances h e b given p =
      (h' : Heap A) × (b' : Bucket) × (p' : Place) × (lookup_step p b h ≡ ok (h', (b', p')))
      × Advanced h e b given p h' b' p'
      × Knows b' p'
      × (holds_write p' ≡ holds_write p)
      × (to_go p' < to_go p)
      × (length (note p' given) + pending p' ≡ length given + pending p)
      × (holds p' ≡ true)
      × Enlarges h b h' b'

  looking-Advances :
      (h : Heap A) (e : ℕ) (b : Bucket) (given : List Address)
      → e ≤ 2 ^ 31
      → Stock h e b given
      → Advances h e b given looking
  unfolding lookup_step
  looking-Advances h e b given few stock =
      let (b', r, runs, is, same) = try_location-Found h e b given few stock in
      elim is [
        | found a is_a vacant new newest rest ↦ (
          h,
          b',
          leaving_read a,
          rw (runs, is_a) refl,
          hands_out a refl refl vacant new newest rest,
          tt,
          refl,
          omega arith,
          omega arith,
          refl,
          Enlarges-refl h b b' same,
        )
        | nothing is_none full full' rest ↦ (
          h,
          b',
          missed,
          rw (runs, is_none) refl,
          asks_in_vain refl (omega arith) rest,
          tt,
          refl,
          omega arith,
          omega arith,
          refl,
          Enlarges-refl h b b' same,
        )
      ]

  looking_again-Advances :
      (h : Heap A) (e : ℕ) (b : Bucket) (given : List Address)
      → e ≤ 2 ^ 31
      → Stock h e b given
      → Advances h e b given looking_again
  unfolding lookup_step
  looking_again-Advances h e b given few stock =
      let (b', r, runs, is, same) = try_location-Found h e b given few stock in
      elim is [
        | found a is_a vacant new newest rest ↦ (
          h,
          b',
          leaving_write a,
          rw (runs, is_a) refl,
          hands_out a refl refl vacant new newest rest,
          tt,
          refl,
          omega arith,
          omega arith,
          refl,
          Enlarges-refl h b b' same,
        )
        | nothing is_none full full' rest ↦ (
          h,
          b',
          expanding,
          rw (runs, is_none) refl,
          asks_in_vain refl (omega arith) rest,
          full',
          refl,
          omega arith,
          omega arith,
          refl,
          Enlarges-refl h b b' same,
        )
      ]

  looking_last-Advances :
      (h : Heap A) (e : ℕ) (b : Bucket) (given : List Address)
      → e ≤ 2 ^ 31
      → HasRoom b.blocks b.next_unused_slot
      → Stock h e b given
      → Advances h e b given looking_last
  unfolding lookup_step
  looking_last-Advances h e b given few room stock =
      let (b', r, runs, is, same) = try_location-Found h e b given few stock in
      elim is [
        | found a is_a vacant new newest rest ↦ (
          h,
          b',
          leaving_write a,
          rw (runs, is_a) refl,
          hands_out a refl refl vacant new newest rest,
          tt,
          refl,
          omega arith,
          omega arith,
          refl,
          Enlarges-refl h b b' same,
        )
        | nothing is_none full full' rest ↦
            absurd (room-not_full b.blocks b.next_unused_slot room full)
      ]

  expanding-Advances :
      (h : Heap A) (e : ℕ) (b : Bucket) (given : List Address)
      → length given < 2 ^ 31 - 1
      → IsFull b.blocks b.next_unused_slot
      → Stock h e b given
      → Advances h e b given expanding
  unfolding lookup_step
  expanding-Advances h e b given few full stock =
      let (h', b', runs, rest, room, grows) = expand-Stock h e b given few full stock in
      (
        h',
        b',
        looking_last,
        rw runs refl,
        expands refl refl rest,
        room,
        refl,
        omega arith,
        omega arith,
        refl,
        grows,
      )

  place-Advances :
      (p : Place) (h : Heap A) (e : ℕ) (b : Bucket) (given : List Address)
      → e ≤ 2 ^ 31
      → length given < 2 ^ 31 - 1
      → acts p ≡ true
      → Knows b p
      → Stock h e b given
      → Advances h e b given p
  place-Advances looking h e b given some_asked few a knows stock =
      looking-Advances h e b given some_asked stock
  place-Advances looking_again h e b given some_asked few a knows stock =
      looking_again-Advances h e b given some_asked stock
  place-Advances expanding h e b given some_asked few a knows stock =
      expanding-Advances h e b given few knows stock
  place-Advances looking_last h e b given some_asked few a knows stock =
      looking_last-Advances h e b given some_asked knows stock
  place-Advances p h e b given some_asked few a knows stock = absurd (ground arith)

  -- A thread that looks up a slot or expands.
  pub Inv-Advances :
      {n : ℕ} {s : Sharing A}
      → Inv n s
      → length s.given < 2 ^ 31 - 1
      → (i : ℕ) → i < n
      → acts (s.place i) ≡ true
      → Advances s.heap (tally asked n s.place) s.bucket s.given (s.place i)
  Inv-Advances {n} {s} inv few i lt a =
      place-Advances (s.place i) s.heap (tally asked n s.place) s.bucket s.given (asked_bound inv)
        few a (inv.knows i lt) inv.stock
