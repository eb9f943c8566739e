-- ===== src/Store/Whole/Apart.antt =====
-- The slots that the buckets of a store hand out are apart: what holds between steps.
use read_write_store.Prelude.{
  ℕ, ◌-◌, ◌^◌, ◌<◌, ◌≤◌, ◌≡◌, ◌≢◌, refl, sym, subst, ◌⊎◌, inl, inr, true, false, Option, some, none,
  List, [], ◌∷◌, ok, arith, ℕ_discrete, Bool-cases, replace, replace_eq, replace_ne, length, ap,
}
use read_write_store.Id.{Address, same_address}
use read_write_store.Block.{Heap, Block}
use read_write_store.Bucket.{Bucket}
use read_write_store.Bucket.Chains.{Extends, HasBlock}
use read_write_store.Bucket.Sharing.{
  Place, outside, leaving_read, leaving_write, looking, missed, slow, looking_again, expanding,
  looking_last, holds, acts, lookup_step, note, IsNew, IsNewest, Move, take_read, drop_read,
  take_write, return_read, return_write,
}
use read_write_store.Bucket.Sharing.Stock.{Enlarges}
use read_write_store.Bucket.Sharing.Invariant.{Inv, Inv-Advances}
use read_write_store.Bucket.Sharing.Safety.{Advanced-vacant}
use read_write_store.Store.Sharing.{is_listed}
use read_write_store.Store.Whole.{Whole, bucket_of}

-- The location that a thread has from a lookup.
abbrev pub carries : Place → Option Address
carries (outside last) = last
carries (leaving_read a) = some a
carries (leaving_write a) = some a
carries _ = none

-- A thread that has a lock has a location just when it has noted one.
pub carries-note :
    (p : Place) (given : List Address)
    → holds p ≡ true
    → ((carries p ≡ none) × (note p given ≡ given))
      ⊎ ((a : Address) × (carries p ≡ some a) × (note p given ≡ a ∷ given))
carries-note (outside last) given h = absurd (ground arith)
carries-note slow given h = absurd (ground arith)
carries-note looking given h = inl (refl, refl)
carries-note missed given h = inl (refl, refl)
carries-note looking_again given h = inl (refl, refl)
carries-note expanding given h = inl (refl, refl)
carries-note looking_last given h = inl (refl, refl)
carries-note (leaving_read a) given h = inr (a, refl, refl)
carries-note (leaving_write a) given h = inr (a, refl, refl)

pub acts-carries : (p : Place) (a : Address) → acts p ≡ true → carries p ≡ some a → ⊥
acts-carries p a h e = ground arith

pub Move-carries :
    {n : ℕ} {place : ℕ → Place} {q p : Place}
    → Move n place q p
    → (a : Address) → carries p ≡ some a
    → carries q ≡ some a
Move-carries (take_read free) a e = absurd (ground arith)
Move-carries drop_read a e = absurd (ground arith)
Move-carries (take_write free) a e = absurd (ground arith)
Move-carries return_read a e = e
Move-carries return_write a e = e

pub IsNewest-HasBlock : (bs : List Block) (base : ℕ) → IsNewest bs base → HasBlock bs base
IsNewest-HasBlock [] base h = h
IsNewest-HasBlock (b ∷ rest) base h = inl h

pub listed_not-new :
    (a : Address) (given : List Address) → is_listed a given ≡ true → IsNew a given → ⊥
listed_not-new a [] e new = ground arith
listed_not-new a (b ∷ given) e (ne, new) = elim (Bool-cases (same_address b a)) [
  | inl same ↦ ne (ground arith)
  | inr other ↦ listed_not-new a given (rw other at e) new
]

pub Extends-kept :
    (bound bound' base : ℕ) (bs bs' : List Block)
    → Extends bound bound' bs bs'
    → HasBlock bs base
    → HasBlock bs' base
Extends-kept bound bound' base bs bs' (inl same) has = rw same has
Extends-kept bound bound' base bs bs' (inr (head, added, ge, lt)) has = rw added (inr has)

pub Extends-bound :
    (bound bound' base : ℕ) (bs bs' : List Block)
    → Extends bound bound' bs bs'
    → HasBlock bs' base
    → HasBlock bs base ⊎ ((bound ≤ base) × (base < bound'))
Extends-bound bound bound' base bs bs' (inl same) has = inl (rw same at has)
Extends-bound bound bound' base bs bs' (inr (head, added, ge, lt)) has =
    let has' : (head.base ≡ base) ⊎ HasBlock bs base = rw added at has in
    elim has' [ inl new ↦ inr (omega arith, omega arith) | inr old ↦ inl old ]

-- Where the threads are after one has moved: a thread that has a location had it, or moved to it.
pub carried_before :
    (place : ℕ → ℕ → Place) (k i j m : ℕ) (p : Place) (a : Address)
    → carries (replace k (replace i p (place k)) place j m) ≡ some a
    → (carries (place j m) ≡ some a) ⊎ ((j ≡ k) × (m ≡ i) × (carries p ≡ some a))
carried_before place k i j m p a e = elim (ℕ_discrete k j) [
  | no ne ↦ inl (rw (replace_ne k j (replace i p (place k)) place ne) at e)
  | yes same ↦
      let e' : carries (replace i p (place k) m) ≡ some a =
        rw (replace_eq k j (replace i p (place k)) place same) at e in
      elim (ℕ_discrete i m) [
        | yes here ↦ inr (sym same, sym here, rw (replace_eq i m p (place k) here) at e')
        | no other ↦
            let old : carries (place k m) ≡ some a = rw (replace_ne i m p (place k) other) at e' in
            inl (rw (← same) old)
      ]
]

module _ {ℓ} {A : Type ℓ} where
  -- What a lookup or an expansion does.
  pub record Looked (h : Heap A) (b : Bucket) (given : List Address) (h' : Heap A) (b' : Bucket)
      (p' : Place) : Type ℓ where
    pub hold : holds p' ≡ true
    pub larger : Enlarges h b h' b'
    pub fresh : (a : Address) → note p' given ≡ a ∷ given → IsNew a given × IsNewest b.blocks a.base

  pub look-Looked :
      {n : ℕ} (s : Whole A) (k i : ℕ) {h : Heap A} {b : Bucket} {p : Place}
      → Inv n (bucket_of s k)
      → length (s.given k) < 2 ^ 31 - 1
      → i < n
      → acts (s.place k i) ≡ true
      → lookup_step (s.place k i) (s.bucket k) s.heap ≡ ok (h, (b, p))
      → Looked s.heap (s.bucket k) (s.given k) h b p
  look-Looked s k i {h} {b} {p} inv few lt a e =
      let (h', b', p', runs, is, knows, same, less, count, hold, larger) =
        Inv-Advances inv few i lt a in
      let result : (h', (b', p')) ≡ (h, (b, p)) = cc (runs, e) in
      subst
        (λ (r : Heap A × (Bucket × Place)). Looked s.heap (s.bucket k) (s.given k) r.0 r.1.0 r.1.1)
        result
        (record {
          hold = hold;
          larger = larger;
          fresh = λ a at. let (vacant, new, newest) = Advanced-vacant is a at in (new, newest);
        })

  -- Allocations of different buckets differ; a location that was handed out lies in a block of its
  -- bucket; one that a thread has was handed out, not yet used, and no other thread has it.
  pub record IsApart (n : ℕ) (s : Whole A) : Type ℓ where
    pub known : (k base : ℕ) → HasBlock (s.bucket k).blocks base → base < s.heap.next_base
    pub separate :
        (j k base : ℕ)
        → j ≢ k
        → HasBlock (s.bucket j).blocks base
        → HasBlock (s.bucket k).blocks base
        → ⊥
    pub inside :
        (k : ℕ) (a : Address) → is_listed a (s.given k) ≡ true → HasBlock (s.bucket k).blocks a.base
    pub used :
        (a : Address)
        → is_listed a s.shared.given ≡ true
        → (k : ℕ) × (is_listed a (s.given k) ≡ true)
    pub unused :
        (k i : ℕ) (a : Address)
        → i < n
        → carries (s.place k i) ≡ some a
        → (is_listed a (s.given k) ≡ true) × (is_listed a s.shared.given ≡ false)
    pub single :
        (k i j : ℕ) (a : Address)
        → i < n
        → j < n
        → carries (s.place k i) ≡ some a
        → carries (s.place k j) ≡ some a
        → i ≡ j

  -- A move of a thread that gets no location by it.
  pub moved-IsApart :
      {n : ℕ} {s : Whole A} (k i : ℕ) (p : Place)
      → ((a : Address) → carries p ≡ some a → carries (s.place k i) ≡ some a)
      → IsApart n s
      → IsApart n (record s { place = replace k (replace i p (s.place k)) s.place })
  moved-IsApart {n} {s} k i p old ap = record {
    known = ap.known;
    separate = ap.separate;
    inside = ap.inside;
    used = ap.used;
    unused = λ j m a lt e. ap.unused j m a lt (before j m a e);
    single = λ j m m' a lt lt' e e'. ap.single j m m' a lt lt' (before j m a e) (before j m' a e');
  }
    where
      before :
          (j m : ℕ) (a : Address)
          → carries (replace k (replace i p (s.place k)) s.place j m) ≡ some a
          → carries (s.place j m) ≡ some a
      before j m a e = elim (carried_before s.place k i j m p a e) [
        | inl at ↦ at
        | inr (jk, mi, has) ↦ rw (jk, mi) (old a has)
      ]
