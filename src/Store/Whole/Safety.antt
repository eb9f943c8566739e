-- ===== src/Store/Whole/Safety.antt =====
-- Insertions by any number of threads on one store: no two come to the same slot.
use read_write_store.Prelude.{
  ℕ, ◌+◌, ◌-◌, ◌^◌, ◌<◌, ◌≤◌, ◌≡◌, ◌≢◌, refl, ◌⊎◌, true, some, ◌∷◌, ok, arith, ℕ_discrete,
  Bool-cases, inl, inr, replace, replace_eq, replace_ne, length, subst, none,
}
use read_write_store.Id.{Address, RwStoreId, same_address}
use read_write_store.Block.{Heap, put}
use read_write_store.Slot.{Slot}
use read_write_store.Header.Code.{occupy}
use read_write_store.Header.Invariant.{reads, writes, owns}
use read_write_store.Bucket
use read_write_store.Bucket.{Bucket}
use read_write_store.Bucket.Sharing.{
  Place, outside, acts, lookup_step, note, Move, other, new_sharing,
}
use read_write_store.Bucket.Sharing.Invariant.{Inv}
use read_write_store.Bucket.Sharing.Kept.{
  act-Inv, move-Inv, moved, new_sharing-Inv, Step-Inv, note-grows,
}
use read_write_store.Bucket.Sharing.Exclusion.{IsExclusive-kept}
use read_write_store.Store.Sharing.{
  Shared, SharedStep, SharedReach, empty, is_listed, occurs, take_new,
}
use read_write_store.Store.Sharing
use read_write_store.Store.Sharing.Safety.{insertions_apart}
use read_write_store.Store.Whole.{
  Whole, WholeStep, WholeReach, IsSmall, new_whole, bucket_of, on_slots, look, lock, insert_at,
  write_slot, start, later,
}
use read_write_store.Store.Whole.Apart.{
  carries, IsApart, look-Looked, moved-IsApart, Move-carries, IsNewest-HasBlock, listed_not-new,
}
use read_write_store.Store.Whole.Lookups.{look-IsApart, insert-IsApart}

module _ {ℓ} {A : Type ℓ} where
  record IsWhole (n : ℕ) (s : Whole A) : Type ℓ where
    pub buckets : (k : ℕ) → Inv n (bucket_of s k)
    pub apart : IsApart n s

  new_whole-IsWhole :
      (n : ℕ) (store_id : RwStoreId) (h : Heap A) → n ≤ 2 ^ 30 → IsWhole n (new_whole store_id h)
  unfolding new_whole new_sharing Bucket.new empty
  new_whole-IsWhole n store_id h few = record {
    buckets = λ k. new_sharing-Inv n store_id h few;
    apart = record {
      known = λ k base has. absurd has;
      separate = λ j k base ne has has'. has;
      inside = λ k a e. absurd (ground arith);
      used = λ a e. absurd (ground arith);
      unused = λ k i a lt e. absurd (ground arith);
      single = λ k i j a lt lt' e e'. absurd (ground arith);
    };
  }

  module _ {n : ℕ} {s : Whole A} (w : IsWhole n s) (k i : ℕ) (in_range : i < n) where
    look-IsWhole :
        {h : Heap A} {b : Bucket} {p : Place}
        → length (note p (s.given k)) < 2 ^ 31 - 1
        → ((j : ℕ) → length (s.given j) < 2 ^ 31 - 1)
        → acts (s.place k i) ≡ true
        → lookup_step (s.place k i) (s.bucket k) s.heap ≡ ok (h, (b, p))
        → IsWhole n (record s {
          heap = h;
          bucket = replace k b s.bucket;
          place = replace k (replace i p (s.place k)) s.place;
          given = replace k (note p (s.given k)) s.given;
        })
    look-IsWhole {h} {b} {p} few few_before a e =
        let l = look-Looked s k i (w.buckets k) (few_before k) in_range a e in
        let larger = l.larger in
        record {
          buckets = λ j. elim (ℕ_discrete k j) [
            | yes same ↦
                rw
                  (
                    replace_eq k j b s.bucket same,
                    replace_eq k j (replace i p (s.place k)) s.place same,
                    replace_eq k j (note p (s.given k)) s.given same,
                  )
                  (act-Inv (w.buckets k) i in_range a few e)
            | no ne ↦
                rw
                  (
                    replace_ne k j b s.bucket ne,
                    replace_ne k j (replace i p (s.place k)) s.place ne,
                    replace_ne k j (note p (s.given k)) s.given ne,
                  )
                  (Step-Inv (few_before j)
                    (other larger.next (λ c newest new.
                      let known = w.apart.known in
                      larger.old c.base c.index
                        (known j c.base (IsNewest-HasBlock (s.bucket j).blocks c.base newest))))
                    (w.buckets j))
          ];
          apart = look-IsApart w.apart k i in_range l;
        }

    placed :
        (p : Place)
        → Inv n (record (bucket_of s k) { place = replace i p (s.place k) })
        → (j : ℕ)
        → Inv n (record (bucket_of s j) { place = replace k (replace i p (s.place k)) s.place j })
    placed p inv j = elim (ℕ_discrete k j) [
      | yes same ↦
          rw (replace_eq k j (replace i p (s.place k)) s.place same) (
            subst (λ m. Inv n (record (bucket_of s m) { place = replace i p (s.place k) })) same
              inv)
      | no ne ↦ rw (replace_ne k j (replace i p (s.place k)) s.place ne) (w.buckets j)
    ]

    lock-IsWhole :
        {p : Place}
        → Move n (s.place k) (s.place k i) p
        → IsWhole n (record s { place = replace k (replace i p (s.place k)) s.place })
    lock-IsWhole {p} m = record {
      buckets = placed p (move-Inv (w.buckets k) i in_range m);
      apart = moved-IsApart k i p (Move-carries m) w.apart;
    }

    insert-IsWhole :
        {a : Address} (t : Shared)
        → s.place k i ≡ outside (some a)
        → t.given ≡ a ∷ s.shared.given
        → IsWhole n (record s {
          shared = t;
          place = replace k (replace i (outside none) (s.place k)) s.place;
        })
    insert-IsWhole t at taken =
        let inv = w.buckets k in
        record {
          buckets = placed (outside none) (
              moved inv i in_range (outside none) (rw at refl) tt (
                IsExclusive-kept n (s.place k) i (outside none) (λ e. cc) (λ e. cc) inv.exclusive));
          apart = insert-IsApart w.apart k i t in_range at taken;
        }

  slots-IsWhole :
      {n : ℕ} {s : Whole A} {t : Shared}
      → IsWhole n s
      → t.given ≡ s.shared.given
      → IsWhole n (record s { shared = t })
  slots-IsWhole {n} {s} {t} w same =
      let apart = w.apart in
      record {
        buckets = w.buckets;
        apart = record {
          known = apart.known;
          separate = apart.separate;
          inside = apart.inside;
          used = λ a e. apart.used a (rw same at e);
          unused = λ k i a lt e. rw same (apart.unused k i a lt e);
          single = apart.single;
        };
      }

  write-IsWhole :
      {n : ℕ} {s : Whole A} (k : ℕ) (a : Address) (slot : Slot A)
      → IsWhole n s
      → ((j : ℕ) → length (s.given j) < 2 ^ 31 - 1)
      → is_listed a (s.given k) ≡ true
      → IsWhole n (record s { heap = record (s.heap) { cell = put a slot s.heap.cell } })
  write-IsWhole {n} {s} k a slot w few listed =
      let apart = w.apart in
      record {
        buckets = λ j.
            Step-Inv (few j)
              (other (omega arith) (λ c newest new. elim (Bool-cases (same_address a c)) [
                | inr ne ↦ rw ne refl
                | inl same ↦ absurd (
                    let e : a ≡ c = ground arith in
                    elim (ℕ_discrete j k) [
                      | yes jk ↦ listed_not-new a (s.given k) listed (rw (e, ← jk) new)
                      | no ne ↦
                          apart.separate j k c.base ne
                            (IsNewest-HasBlock (s.bucket j).blocks c.base newest)
                            (apart.inside k c (rw (← e) listed))
                    ])
              ]))
              (w.buckets j);
        apart = record {
          known = apart.known;
          separate = apart.separate;
          inside = apart.inside;
          used = apart.used;
          unused = apart.unused;
          single = apart.single;
        };
      }

  WholeStep-grows :
      {n : ℕ} {s t : Whole A} → WholeStep n s t → (k : ℕ) → length (s.given k) ≤ length (t.given k)
  WholeStep-grows (on_slots st same) j = omega arith
  WholeStep-grows {s = s} (look k i {p = p} small lt a e) j = elim (ℕ_discrete k j) [
    | yes same ↦
        let grows = note-grows p (s.given k) in
        rw (replace_eq k j (note p (s.given k)) s.given same, ← same) grows
    | no ne ↦ rw (replace_ne k j (note p (s.given k)) s.given ne) (omega arith)
  ]
  WholeStep-grows (lock k i small lt m) j = omega arith
  WholeStep-grows (insert_at k i small lt at rest) j = omega arith
  WholeStep-grows (write_slot k a slot listed) j = omega arith

  -- Every step keeps the buckets in order and apart, and for the slots is a step of threads that
  -- take new slots only.
  WholeStep-IsWhole :
      {n : ℕ} {s t : Whole A}
      → IsSmall t
      → WholeStep n s t
      → IsWhole n s × SharedReach n s.shared
      → IsWhole n t × SharedReach n t.shared
  WholeStep-IsWhole few (on_slots st same) (w, r) = (slots-IsWhole w same, Sharing.later r st)
  WholeStep-IsWhole {s = s} few (look k i {p = p} small lt a e) (w, r) =
      let now : length (note p (s.given k)) < 2 ^ 31 - 1 =
        rw (replace_eq k k (note p (s.given k)) s.given refl) at (few k) in
      let before : (j : ℕ) → length (s.given j) < 2 ^ 31 - 1 =
        λ j. omega (arith, few j, WholeStep-grows {s = s} (look k i small lt a e) j) in
      (look-IsWhole w k i lt now before a e, r)
  WholeStep-IsWhole few (lock k i small lt m) (w, r) = (lock-IsWhole w k i lt m, r)
  WholeStep-IsWhole {s = s} few (insert_at k i {a} small lt at rest) (w, r) =
      let apart = w.apart in
      (
        insert-IsWhole w k i lt _ at refl,
        Sharing.later r (take_new i lt (apart.unused k i a lt (rw at refl)).1 rest),
      )
  WholeStep-IsWhole few (write_slot k a slot listed) (w, r) =
      (write-IsWhole k a slot w few listed, r)

  WholeReach-IsWhole :
      {n : ℕ} {s : Whole A}
      → n ≤ 2 ^ 30
      → IsSmall s
      → WholeReach n s
      → IsWhole n s × SharedReach n s.shared
  unfolding new_whole
  WholeReach-IsWhole {n} threads few (start store_id h) =
      (new_whole-IsWhole n store_id h threads, Sharing.start)
  WholeReach-IsWhole threads few (later {s} r st) =
      WholeStep-IsWhole few st
        (WholeReach-IsWhole threads (λ k. omega (arith, few k, WholeStep-grows st k)) r)

  -- What at most `2 ^ 30` threads on a store do to its slots, while no bucket has handed out `2 ^
  -- 31 - 1` of them, is what a `SharedReach` allows, in which a slot that a bucket hands out was
  -- not handed out before.
  pub WholeReach-SharedReach :
      {n : ℕ} {s : Whole A} → n ≤ 2 ^ 30 → IsSmall s → WholeReach n s → SharedReach n s.shared
  WholeReach-SharedReach threads few r = (WholeReach-IsWhole threads few r).1

  -- However many threads use a store, two insertions never get the same slot: in every state that
  -- at most `2 ^ 30` threads can reach, while no bucket has handed out `2 ^ 31 - 1` slots, a slot
  -- that a thread is about to occupy is vacant, is not in the queue of erasures, was handed out by
  -- a bucket, is not the location that a lookup in any bucket has returned or returns to a thread,
  -- is locked by nobody, and is owned by no other thread.
  pub slots_apart :
      {n : ℕ} {s : Whole A}
      → n ≤ 2 ^ 30
      → IsSmall s
      → WholeReach n s
      → (a : Address) (i : ℕ) → i < n
      → s.shared.pc a i ≡ occupy
      → (s.shared.word a < 2 ^ 32)
        × (occurs a s.shared.erasures ≡ 0)
        × ((k : ℕ) × (is_listed a (s.given k) ≡ true))
        × ((k j : ℕ) → j < n → carries (s.place k j) ≢ some a)
        × ((j : ℕ)
            → j < n
            → (reads (s.shared.pc a j) + writes (s.shared.pc a j) ≡ 0)
              × ((i ≡ j) ⊎ (owns (s.shared.pc a j) ≡ 0)))
  slots_apart threads few r a i lt at =
      let (w, sr) = WholeReach-IsWhole threads few r in
      let apart = w.apart in
      let (vacant, unqueued, listed, alone) = insertions_apart (omega arith) sr a i lt at in
      (
        vacant,
        unqueued,
        apart.used a listed,
        λ k j lt' e. let (given, no_use) = apart.unused k j a lt' e in ground arith,
        alone,
      )
