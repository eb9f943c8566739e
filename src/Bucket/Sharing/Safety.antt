-- ===== src/Bucket/Sharing/Safety.antt =====
-- Threads that look for slots in one bucket: what holds in the states that they can reach.
use read_write_store.Prelude.{
  ℕ, zero, suc, ◌+◌, ◌-◌, ◌^◌, ◌≤◌, ◌<◌, ◌≡◌, refl, ◌∙◌, sym, true, Option, some, List, ◌∷◌, ok,
  arith, replace, tally, tally-replace, tally_witness, tally-ge, length, dec_lt, if◌then◌else◌, ap,
}
use read_write_store.Id.{Address}
use read_write_store.Slot
use read_write_store.Block.{Heap}
use read_write_store.Bucket.{Bucket}
use read_write_store.Bucket.Sharing.{
  Place, outside, looking, missed, leaving_read, slow, looking_again, expanding, looking_last,
  leaving_write, holds, acts, lookup_step, note, drop_read, take_write, return_read, return_write,
  AllDistinct, IsNew, IsNewest, Sharing, BucketStep, act, move, Reach, later, Run, ended, first,
  Move, IsWritable,
}
use read_write_store.Bucket.Sharing.Invariant.{
  Inv, Inv-Advances, Advanced, hands_out, asks_in_vain, expands, to_go, pending,
}
use read_write_store.Bucket.Sharing.Kept.{Reach-Inv}

cons-injective {ℓ} : {A : Type ℓ} (x y : A) (xs ys : List A) → x ∷ xs ≡ y ∷ ys → x ≡ y
cons-injective x y xs ys e = cc

one_longer {ℓ} : {A : Type ℓ} (x : A) (xs : List A) → xs ≡ x ∷ xs → ⊥
one_longer x xs e = let l = ap length e in absurd (omega arith)

abbrev held : Place → ℕ
held p = if holds p then 1 else 0

at_end : (p : Place) → to_go p ≡ 0 → (last : Option Address) × (p ≡ outside last)
at_end (outside last) e = (last, refl)
at_end (leaving_read a) e = absurd (omega arith)
at_end (leaving_write a) e = absurd (omega arith)
at_end looking e = absurd (omega arith)
at_end missed e = absurd (omega arith)
at_end slow e = absurd (omega arith)
at_end looking_again e = absurd (omega arith)
at_end expanding e = absurd (omega arith)
at_end looking_last e = absurd (omega arith)

pending_none :
    (n : ℕ) (place : ℕ → Place)
    → ((i : ℕ) → i < n → to_go (place i) ≡ 0)
    → tally pending n place ≡ 0
pending_none n place idle = elim (dec_lt 0 (tally pending n place)) [
  | yes some_left ↦
      let (i, lt, w) = tally_witness pending n place some_left in
      let (last, e) = at_end (place i) (idle i lt) in absurd (let z = ap pending e in omega arith)
  | no none_left ↦ omega arith
]

module _ {ℓ} {A : Type ℓ} where
  -- However many lookups run in one bucket at a time, no location is handed out twice: in every
  -- state that at most `2 ^ 30` threads can reach, whatever the rest of the program allocates and
  -- writes to slots that were handed out, the locations that were handed out are distinct, while
  -- they are fewer than `2 ^ 31 - 1`.
  pub locations_distinct :
      {n : ℕ} {s : Sharing A}
      → n ≤ 2 ^ 30
      → length s.given < 2 ^ 31 - 1
      → Reach n s
      → AllDistinct s.given
  locations_distinct threads few r = let inv = Reach-Inv threads few r in inv.distinct

  pub Advanced-vacant :
      {h h' : Heap A} {e : ℕ} {b b' : Bucket} {given : List Address} {p p' : Place}
      → Advanced h e b given p h' b' p'
      → (a : Address) → note p' given ≡ a ∷ given
      → (h.cell a.base a.index ≡ some Slot.new) × IsNew a given × IsNewest b.blocks a.base
  Advanced-vacant {given = given} (hands_out l is_given none_asked vacant new newest stock) a e =
      let same : l ≡ a = cons-injective l a given given (sym is_given ∙ e) in
      rw (← same) (vacant, new, newest)
  Advanced-vacant {given = given} (asks_in_vain is_given more stock) a e =
      absurd (one_longer a given (sym is_given ∙ e))
  Advanced-vacant {given = given} (expands is_given none_asked stock) a e =
      absurd (one_longer a given (sym is_given ∙ e))

  -- In every state that at most `2 ^ 30` threads can reach while fewer than `2 ^ 31 - 1` locations
  -- were handed out, a thread that looks up a slot of the bucket or expands it does not panic; a
  -- location that it hands out is a slot of the newest block that is vacant, as `Slot::new` made
  -- it, and was not handed out before.
  pub lookup_succeeds :
      {n : ℕ} {s : Sharing A}
      → n ≤ 2 ^ 30
      → length s.given < 2 ^ 31 - 1
      → Reach n s
      → (i : ℕ) → i < n
      → acts (s.place i) ≡ true
      → (h : Heap A) × (b : Bucket) × (p : Place) × (lookup_step (s.place i) s.bucket s.heap
          ≡ ok (h, (b, p)))
        × ((a : Address)
            → note p s.given ≡ a ∷ s.given
            → (s.heap.cell a.base a.index ≡ some Slot.new)
              × IsNew a s.given
              × IsNewest s.bucket.blocks a.base)
  lookup_succeeds threads few r i lt a =
      let (h, b, p, runs, is, knows, same, less, count, hold, larger) =
        Inv-Advances (Reach-Inv threads few r) few i lt a in
      (h, b, p, runs, Advanced-vacant is)

  -- A step of one thread towards the end of its call.
  pub record Progress (n : ℕ) (s : Sharing A) : Type ℓ where
    pub next : Sharing A
    pub step : BucketStep n s next
    pub less : tally to_go n next.place < tally to_go n s.place
    pub count :
        length next.given + tally pending n next.place ≡ length s.given + tally pending n s.place

  module _ {n : ℕ} {s : Sharing A} (i : ℕ) (in_range : i < n) where
    moves :
        {q p : Place}
        → s.place i ≡ q
        → Move n s.place q p
        → to_go p < to_go q
        → pending p ≡ pending q
        → Progress n s
    moves {p = p} e m less same = record {
      next = record s { place = replace i p s.place };
      step = move i in_range (rw e m);
      less = let at = ap to_go e in omega (arith, tally-replace to_go n i p s.place in_range);
      count = let at = ap pending e in omega (arith, tally-replace pending n i p s.place in_range);
    }

    acts-Progress : Inv n s → length s.given < 2 ^ 31 - 1 → acts (s.place i) ≡ true → Progress n s
    acts-Progress inv few a =
        let (h, b, p, runs, is, knows, same, less, count, hold, larger) =
          Inv-Advances inv few i in_range a in
        record {
          next = record {
            bucket = b;
            heap = h;
            place = replace i p s.place;
            given = note p s.given;
          };
          step = act i in_range a runs;
          less = omega (arith, tally-replace to_go n i p s.place in_range);
          count = omega (arith, tally-replace pending n i p s.place in_range);
        }

    -- A thread with a lock never waits.
    holder-Progress :
        (q : Place)
        → s.place i ≡ q
        → Inv n s
        → length s.given < 2 ^ 31 - 1
        → holds q ≡ true
        → Progress n s
    holder-Progress looking e inv few h = acts-Progress inv few (rw e refl)
    holder-Progress looking_again e inv few h = acts-Progress inv few (rw e refl)
    holder-Progress expanding e inv few h = acts-Progress inv few (rw e refl)
    holder-Progress looking_last e inv few h = acts-Progress inv few (rw e refl)
    holder-Progress missed e inv few h = moves e drop_read (omega arith) refl
    holder-Progress (leaving_read a) e inv few h = moves e return_read (omega arith) refl
    holder-Progress (leaving_write a) e inv few h = moves e return_write (omega arith) refl
    holder-Progress slow e inv few h = cc
    holder-Progress (outside last) e inv few h = cc

    -- When nobody has a lock, a thread in a call is about to take it.
    waiter-Progress :
        (q : Place) → s.place i ≡ q → IsWritable n s.place → 0 < to_go q → Progress n s
    waiter-Progress slow e free some_left = moves e (take_write free) (omega arith) refl
    waiter-Progress (outside last) e free some_left = absurd (omega arith)
    waiter-Progress q e free some_left = let nobody = free i in_range in absurd (ground arith)

  pub progress :
      {n : ℕ} {s : Sharing A}
      → Inv n s
      → length s.given < 2 ^ 31 - 1
      → 0 < tally to_go n s.place
      → Progress n s
  progress {n} {s} inv few some_left = elim (dec_lt 0 (tally held n s.place)) [
    | yes locked ↦
        let (i, lt, w) = tally_witness held n s.place locked in
        holder-Progress i lt (s.place i) refl inv few (ground arith)
    | no unlocked ↦
        let (i, lt, w) = tally_witness to_go n s.place some_left in
        waiter-Progress i lt (s.place i) refl
          (λ j j_in. ground (arith, tally-ge held n j s.place j_in)) w
  ]

  finishes_within :
      (rounds : ℕ) {n : ℕ} (s : Sharing A)
      → n ≤ 2 ^ 30
      → Reach n s
      → length s.given + tally pending n s.place < 2 ^ 31 - 1
      → tally to_go n s.place < rounds
      → (t : Sharing A) × Run n t s
        × (tally to_go n t.place ≡ 0)
        × (length t.given + tally pending n t.place ≡ length s.given + tally pending n s.place)
  finishes_within zero s threads r few left = absurd (omega arith)
  finishes_within (suc rounds) {n} s threads r few left = elim (dec_lt 0 (tally to_go n s.place)) [
    | yes more ↦
        let p = progress (Reach-Inv threads (omega arith) r) (omega arith) more in
        let less = p.less in
        let count = p.count in
        let (t, run, done, total) =
          finishes_within rounds p.next threads (later r p.step) (omega arith) (omega arith) in
        (t, first p.step run, done, omega arith)
    | no done ↦ (s, ended, omega arith, refl)
  ]

  -- Lookups in one bucket never block each other for good: from every state that at most `2 ^ 30`
  -- threads can reach, steps lead to one in which every call has returned, and in which each call
  -- that had no location yet has been handed one and no other was, when the locations with those
  -- are fewer than `2 ^ 31 - 1`.
  pub calls_end :
      {n : ℕ} (s : Sharing A)
      → n ≤ 2 ^ 30
      → Reach n s
      → length s.given + tally pending n s.place < 2 ^ 31 - 1
      → (t : Sharing A) × Run n t s
        × ((i : ℕ) → i < n → (last : Option Address) × (t.place i ≡ outside last))
        × (length t.given ≡ length s.given + tally pending n s.place)
  calls_end {n} s threads r few =
      let (t, run, done, count) =
        finishes_within (suc (tally to_go n s.place)) s threads r few (omega arith) in
      let idle : (i : ℕ) → i < n → to_go (t.place i) ≡ 0 =
        λ i lt. omega (arith, tally-ge to_go n i t.place lt) in
      (
        t,
        run,
        λ i lt. at_end (t.place i) (idle i lt),
        omega (arith, count, pending_none n t.place idle),
      )
