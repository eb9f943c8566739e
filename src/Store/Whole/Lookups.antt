-- ===== src/Store/Whole/Lookups.antt =====
-- A lookup in a bucket and an insertion at its location leave the slots of all buckets apart.
use read_write_store.Prelude.{
  ℕ, ◌<◌, ◌≤◌, ◌≡◌, refl, sym, ◌∙◌, ◌⊎◌, inl, inr, true, false, some, none, List, ◌∷◌, arith,
  ℕ_discrete, Bool-cases, replace, replace_eq, replace_ne,
}
use read_write_store.Id.{Address, same_address}
use read_write_store.Block.{Heap}
use read_write_store.Bucket.{Bucket}
use read_write_store.Bucket.Chains.{HasBlock}
use read_write_store.Bucket.Sharing.{Place, outside, note, IsNew}
use read_write_store.Store.View.{same_address_refl}
use read_write_store.Store.Sharing.{Shared, is_listed}
use read_write_store.Store.Whole.{Whole}
use read_write_store.Store.Whole.Apart.{
  carries, carries-note, IsNewest-HasBlock, listed_not-new, Extends-kept, Extends-bound, Looked,
  IsApart, carried_before, moved-IsApart,
}

same_address-eq : (a b : Address) → same_address a b ≡ true → a ≡ b
same_address-eq a b e = ground arith

listed_cons :
    (a b : Address) (given : List Address)
    → is_listed a (b ∷ given) ≡ true
    → (is_listed a given ≡ true) ⊎ (b ≡ a)
listed_cons a b given e = elim (Bool-cases (same_address b a)) [
  | inl same ↦ inr (same_address-eq b a same)
  | inr other ↦ inl (rw other at e)
]

listed_first : (a : Address) (given : List Address) → is_listed a (a ∷ given) ≡ true
listed_first a given = rw (same_address_refl a) refl

listed_later :
    (a b : Address) (given : List Address)
    → is_listed a given ≡ true
    → is_listed a (b ∷ given) ≡ true
listed_later a b given e = ground arith

module _ {ℓ} {A : Type ℓ} {n : ℕ} {s : Whole A} (ap : IsApart n s) (k i : ℕ) where
  module _ {h : Heap A} {b : Bucket} {p : Place} (in_range : i < n)
      (l : Looked s.heap (s.bucket k) (s.given k) h b p) where
    block_before :
        (j base : ℕ)
        → HasBlock (replace k b s.bucket j).blocks base
        → HasBlock (s.bucket j).blocks base
          ⊎ ((j ≡ k) × (s.heap.next_base ≤ base) × (base < h.next_base))
    block_before j base has = elim (ℕ_discrete k j) [
      | no ne ↦ inl (rw (replace_ne k j b s.bucket ne) at has)
      | yes same ↦
          let larger = l.larger in
          elim (Extends-bound s.heap.next_base h.next_base base (s.bucket k).blocks b.blocks
            larger.chain (rw (replace_eq k j b s.bucket same) at has)) [
              | inl old ↦ inl (rw (← same) old)
              | inr (ge, lt) ↦ inr (sym same, ge, lt)
            ]
    ]

    block_after :
        (j base : ℕ)
        → HasBlock (s.bucket j).blocks base
        → HasBlock (replace k b s.bucket j).blocks base
    block_after j base has = elim (ℕ_discrete k j) [
      | no ne ↦ rw (replace_ne k j b s.bucket ne) has
      | yes same ↦
          let larger = l.larger in
          rw (replace_eq k j b s.bucket same) (
            Extends-kept s.heap.next_base h.next_base base (s.bucket k).blocks b.blocks larger.chain
              (rw same has))
    ]

    -- A location that the thread has now is a new one.
    noted : (a : Address) → carries p ≡ some a → note p (s.given k) ≡ a ∷ s.given k
    noted a e = elim (carries-note p (s.given k) l.hold) [
      | inl (nothing, same) ↦ absurd (ground arith)
      | inr (c, has, added) ↦ let same : c ≡ a = cc (has, e) in rw (← same) added
    ]

    fresh :
        (a : Address)
        → carries p ≡ some a
        → IsNew a (s.given k) × HasBlock (s.bucket k).blocks a.base
    fresh a e =
        let (new, newest) = l.fresh a (noted a e) in
        (new, IsNewest-HasBlock (s.bucket k).blocks a.base newest)

    given_before :
        (j : ℕ) (a : Address)
        → is_listed a (replace k (note p (s.given k)) s.given j) ≡ true
        → (is_listed a (s.given j) ≡ true) ⊎ ((j ≡ k) × (carries p ≡ some a))
    given_before j a e = elim (ℕ_discrete k j) [
      | no ne ↦ inl (rw (replace_ne k j (note p (s.given k)) s.given ne) at e)
      | yes same ↦
          let e' : is_listed a (note p (s.given k)) ≡ true =
            rw (replace_eq k j (note p (s.given k)) s.given same) at e in
          elim (carries-note p (s.given k) l.hold) [
            | inl (nothing, kept) ↦ inl (rw (← same) (rw kept at e'))
            | inr (c, has, added) ↦ elim (listed_cons a c (s.given k) (rw added at e')) [
              | inl old ↦ inl (rw (← same) old)
              | inr new ↦ inr (sym same, rw (← new) has)
            ]
          ]
    ]

    note_after :
        (a : Address) → is_listed a (s.given k) ≡ true → is_listed a (note p (s.given k)) ≡ true
    note_after a e = elim (carries-note p (s.given k) l.hold) [
      | inl (nothing, kept) ↦ rw kept e
      | inr (c, has, added) ↦ rw added (listed_later a c (s.given k) e)
    ]

    given_after :
        (j : ℕ) (a : Address)
        → is_listed a (s.given j) ≡ true
        → is_listed a (replace k (note p (s.given k)) s.given j) ≡ true
    given_after j a e = elim (ℕ_discrete k j) [
      | no ne ↦ rw (replace_ne k j (note p (s.given k)) s.given ne) e
      | yes same ↦ rw (replace_eq k j (note p (s.given k)) s.given same) (note_after a (rw same e))
    ]

    -- It is not in use.
    fresh_unused : (a : Address) → carries p ≡ some a → is_listed a s.shared.given ≡ false
    fresh_unused a e = elim (Bool-cases (is_listed a s.shared.given)) [
      | inr no_use ↦ no_use
      | inl in_use ↦
          let (j, at) = ap.used a in_use in
          let (new, here) = fresh a e in
          elim (ℕ_discrete j k) [
            | yes same ↦ absurd (listed_not-new a (s.given k) (rw (← same) at) new)
            | no ne ↦ absurd (ap.separate j k a.base ne (ap.inside j a at) here)
          ]
    ]

    -- No other thread of the bucket has it.
    fresh_single :
        (j m : ℕ) (a : Address)
        → m < n
        → j ≡ k
        → carries p ≡ some a
        → carries (s.place j m) ≡ some a
        → ⊥
    fresh_single j m a lt jk e old =
        listed_not-new a (s.given k) (ap.unused k m a lt (rw (← jk) old)).0 (fresh a e).0

    pub look-IsApart : IsApart n (record s {
      heap = h;
      bucket = replace k b s.bucket;
      place = replace k (replace i p (s.place k)) s.place;
      given = replace k (note p (s.given k)) s.given;
    })
    look-IsApart = record {
      known = λ j base has. elim (block_before j base has) [
        | inl old ↦
            let larger = l.larger in
            let next = larger.next in let below = ap.known j base old in omega arith
        | inr (jk, ge, lt) ↦ lt
      ];
      separate = λ j m base ne hj hm. elim (block_before j base hj) [
        | inl old ↦ elim (block_before m base hm) [
          | inl old' ↦ ap.separate j m base ne old old'
          | inr (mk, ge, lt) ↦ let below = ap.known j base old in absurd (omega arith)
        ]
        | inr (jk, ge, lt) ↦ elim (block_before m base hm) [
          | inl old' ↦ let below = ap.known m base old' in absurd (omega arith)
          | inr (mk, ge', lt') ↦ ne (jk ∙ sym mk)
        ]
      ];
      inside = λ j a e. elim (given_before j a e) [
        | inl old ↦ block_after j a.base (ap.inside j a old)
        | inr (jk, has) ↦ block_after j a.base (rw jk (fresh a has).1)
      ];
      used = λ a e. let (j, at) = ap.used a e in (j, given_after j a at);
      unused = λ j m a lt e. elim (carried_before s.place k i j m p a e) [
        | inl old ↦
            let (listed, no_use) = ap.unused j m a lt old in (given_after j a listed, no_use)
        | inr (jk, mi, has) ↦ (
          rw (jk, replace_eq k k (note p (s.given k)) s.given refl, noted a has)
              (listed_first a (s.given k)),
          fresh_unused a has,
        )
      ];
      single = λ j m m' a lt lt' e e'. elim (carried_before s.place k i j m p a e) [
        | inl old ↦ elim (carried_before s.place k i j m' p a e') [
          | inl old' ↦ ap.single j m m' a lt lt' old old'
          | inr (jk, mi, has) ↦ absurd (fresh_single j m a lt jk has old)
        ]
        | inr (jk, mi, has) ↦ elim (carried_before s.place k i j m' p a e') [
          | inl old' ↦ absurd (fresh_single j m' a lt' jk has old')
          | inr (jk', mi', has') ↦ mi ∙ sym mi'
        ]
      ];
    }

  -- An insertion begins at the location that the thread has, and nobody has it any more.
  module _ {a : Address} (t : Shared) (in_range : i < n) (at : s.place k i ≡ outside (some a))
      (taken : t.given ≡ a ∷ s.shared.given) where
    no_longer :
        (j m : ℕ) (c : Address)
        → a ≡ c
        → m < n
        → carries (replace k (replace i (outside none) (s.place k)) s.place j m) ≡ some c
        → ⊥
    no_longer j m c same lt e = elim (carried_before s.place k i j m (outside none) c e) [
      | inr (jk, mi, has) ↦ ground arith
      | inl old ↦
          let mine : carries (s.place k i) ≡ some c = rw (at, same) refl in
          elim (ℕ_discrete j k) [
            | no ne ↦
                ap.separate j k c.base ne (ap.inside j c (ap.unused j m c lt old).0)
                  (ap.inside k c (ap.unused k i c in_range mine).0)
            | yes jk ↦
                let here : m ≡ i = ap.single k m i c lt in_range (rw (← jk) old) mine in
                let gone : none ≡ some c =
                  rw
                    (
                      jk,
                      here,
                      replace_eq k k (replace i (outside none) (s.place k)) s.place refl,
                      replace_eq i i (outside none) (s.place k) refl,
                    )
                    at e in
                ground arith
          ]
    ]

    pub insert-IsApart :
        IsApart n (record s {
          shared = t;
          place = replace k (replace i (outside none) (s.place k)) s.place;
        })
    insert-IsApart =
        let moved = moved-IsApart k i (outside none) (λ c e. absurd (ground arith)) ap in
        record {
          known = ap.known;
          separate = ap.separate;
          inside = ap.inside;
          used = λ c e. elim (listed_cons c a s.shared.given (rw taken at e)) [
            | inl old ↦ ap.used c old
            | inr same ↦ (k, rw (← same) (ap.unused k i a in_range (rw at refl)).0)
          ];
          unused = λ j m c lt e.
              let (listed, no_use) = moved.unused j m c lt e in
              (
                listed,
                elim (Bool-cases (is_listed c t.given)) [
                  | inr unlisted ↦ unlisted
                  | inl now ↦ elim (listed_cons c a s.shared.given (rw taken at now)) [
                    | inl old ↦ absurd (ground arith)
                    | inr same ↦ absurd (no_longer j m c same lt e)
                  ]
                ],
              );
          single = moved.single;
        }
