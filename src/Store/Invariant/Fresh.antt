-- ===== src/Store/Invariant/Fresh.antt =====
-- src/lib.rs, the location that `insert` finds in a bucket.
use read_write_store.Prelude.{
  ℕ, ◌+◌, ◌≤◌, ◌<◌, ◌≡◌, ◌≢◌, refl, sym, subst, ◌∙◌, inl, inr, false, Option, none, some, List, [],
  ◌∷◌, get_elem?, set, length-set, get_elem?-set_self, get_elem?-set_ne, ◌==◌, arith, Option-cases,
  ℕ_discrete, dec_lt,
}
use read_write_store.Id.{Address, ElementId}
use read_write_store.Slot.{Slot}
use read_write_store.Slot
use read_write_store.Block.{Block, Heap, put}
use read_write_store.Bucket.{Bucket}
use read_write_store.Header.Abstract.{issued}
use read_write_store.Bucket.Chains.{
  AllBlocks, AllBlocks-kept, HasBlock, HasBlock-lt, Descending, Descending-mono, Extends-HasBlock,
  Extends-Descending,
}
use read_write_store.Bucket.Unused.{IsReady, no_block, in_block}
use read_write_store.Bucket.Locations.{HasHead, IsHandedOut}
use read_write_store.Store.{Store}
use read_write_store.Store.Look.{look, seen, seen_dead}
use read_write_store.Store.Invariant.{
  put-Keeps, IsOwned, IsSlot, AllErased, IsStore, IsReady-kept, put_other, Apart,
}
use read_write_store.Store.Invariant.Puts.{
  IsSlot-mono, AllErased-elsewhere, AllErased-kept, AllErased-put,
}
use read_write_store.Store.Invariant.Erasure.{IsLocated}

HasHead-HasBlock : (bs : List Block) (base : ℕ) → HasHead bs base → HasBlock bs base
HasHead-HasBlock [] base h = h
HasHead-HasBlock (head ∷ rest) base h = inl h

new_header {ℓ} : (A : Type ℓ) → (Slot.new {A = A}).header ≡ 0
unfolding Slot.new
new_header A = refl

module _ {ℓ} {A : Type ℓ} where
  new_good : {calls : ℕ} → IsSlot calls (Slot.new {A = A})
  unfolding Slot.new
  new_good = record {
    word = record { fits = omega arith; live = inl (omega arith) };
    written = λ used. absurd (omega arith);
    few = inl (omega arith);
  }

  head_known :
      {h : Heap A} {b : Bucket} {touched : ℕ} (base : ℕ)
      → IsReady h b touched
      → HasHead b.blocks base
      → base < h.next_base
  head_known base (no_block store_id) h = absurd h
  head_known base (in_block u count) h = omega (arith, u.known)

  -- A bucket is asked.
  module _ {calls : ℕ} {s : Store A} (i : IsStore calls s) (j touched : ℕ) (b b' : Bucket)
      (h' : Heap A) (a : Address) (here : get_elem? s.buckets j ≡ some b) (le : touched ≤ calls)
      (out : IsHandedOut s.heap h' b b' a touched) where
    kept_cell :
        (base index : ℕ) (old : Slot A)
        → s.heap.cell base index ≡ some old
        → h'.cell base index ≡ some old
    kept_cell base index old e = rw (out.kept base index (i.slots base index old e).0) e

    cell_known :
        (base index : ℕ) (found : Slot A)
        → h'.cell base index ≡ some found
        → (base < h'.next_base) × IsSlot calls found
    cell_known base index found e = elim (out.cells base index found e) [
      | inl old ↦
          let (lt, good) = i.slots base index found old in
          let grows = out.grows in (omega arith, good)
      | inr (new, lt) ↦ rw new (lt, new_good)
    ]

    same_seen :
        (other : ElementId)
        → look (record s { buckets = set s.buckets j b'; heap = h' }) other ≡ look s other
    same_seen other = elim (dec_lt other.slot_address.base s.heap.next_base) [
      | yes lt ↦ rw (out.kept other.slot_address.base other.slot_address.index lt) refl
      | no ge ↦
          rw (no_old ge) (unseen ge (h'.cell other.slot_address.base other.slot_address.index) refl)
    ]
      where
        no_old :
            ¬ other.slot_address.base < s.heap.next_base
            → s.heap.cell other.slot_address.base other.slot_address.index ≡ none
        no_old ge =
            elim (Option-cases (s.heap.cell other.slot_address.base other.slot_address.index)) [
              | inl e ↦ e
              | inr (old, e) ↦ absurd (ge (i.slots _ _ old e).0)
            ]

        unseen :
            (¬ other.slot_address.base < s.heap.next_base)
            → (x : Option (Slot A)) → h'.cell other.slot_address.base other.slot_address.index ≡ x
            → seen x other.ordinal ≡ none
        unseen ge none e = refl
        unseen ge (some found) e = elim (out.cells _ _ found e) [
          | inl old ↦ absurd (ge (i.slots _ _ found old).0)
          | inr (new, lt) ↦ seen_dead found (rw (new, new_header A) refl) other.ordinal
        ]

    other_base :
        (q base : ℕ) (c : Bucket)
        → get_elem? s.buckets q ≡ some c
        → j ≢ q
        → HasHead c.blocks base
        → a.base ≢ base
    other_base q base c e ne head same = elim out.origin [
      | inl mine ↦
          i.apart j q b c here e ne base (HasHead-HasBlock b.blocks base (rw same at mine))
            (HasHead-HasBlock c.blocks base head)
      | inr new ↦
          let (t, t_le, r) = i.ready q c e in
          let known = head_known base r head in absurd (omega arith)
    ]

    erased_kept : AllErased h' s.erasures
    erased_kept =
        AllErased-kept s.heap h' s.erasures i.erased
          (λ c er. out.kept c.base c.index (i.slots c.base c.index er.slot er.at).0)

    mine : (q : ℕ) (c : Bucket) → j ≡ q → get_elem? (set s.buckets j b') q ≡ some c → b' ≡ c
    mine q c same e =
        let now : get_elem? (set s.buckets j b') q ≡ some b' =
          subst (λ p. get_elem? (set s.buckets j b') p ≡ some b') same
            (get_elem?-set_self s.buckets j b' here) in
        cc

    others :
        (q : ℕ) (c : Bucket)
        → j ≢ q
        → get_elem? (set s.buckets j b') q ≡ some c
        → get_elem? s.buckets q ≡ some c
    others q c ne e = sym (get_elem?-set_ne s.buckets j q b' ne) ∙ e

    IsReady-filled :
        (slot' : Slot A) (q : ℕ) (c : Bucket)
        → get_elem? (set s.buckets j b') q ≡ some c
        → (t : ℕ) × (t ≤ calls + 1) × IsReady (record h' { cell = put a slot' h'.cell }) c t
    IsReady-filled slot' q c e = elim (ℕ_discrete j q) [
      | yes same ↦ (touched + 1, omega arith, rw (← mine q c same e) (out.ready_again slot'))
      | no ne ↦
          let old = others q c ne e in
          let (t, t_le, r) = i.ready q c old in
          (
            t,
            omega arith,
            IsReady-kept r out.grows (λ base index head known new.
                let no_match : (a.base == base) ≡ false =
                  ground (arith, other_base q base c old ne head) in
                rw no_match (kept_cell base index Slot.new new)),
          )
    ]

    Apart-mine :
        (p q : ℕ) (x y : Bucket)
        → j ≡ p
        → j ≢ q
        → get_elem? (set s.buckets j b') p ≡ some x
        → get_elem? (set s.buckets j b') q ≡ some y
        → Apart x y
    Apart-mine p q x y same ne ex ey base hx hy =
        elim (Extends-HasBlock s.heap.next_base h'.next_base base b.blocks b'.blocks out.extends
          (rw (← mine p x same ex) at hx)) [
            | inl old ↦ i.apart j q b y here (others q y ne ey) ne base old hy
            | inr new ↦
                let known =
                  HasBlock-lt s.heap.next_base base y.blocks (i.linear q y (others q y ne ey)) hy in
                absurd (omega arith)
          ]

    linear_filled :
        (q : ℕ) (c : Bucket)
        → get_elem? (set s.buckets j b') q ≡ some c
        → Descending h'.next_base c.blocks
    linear_filled q c e = elim (ℕ_discrete j q) [
      | yes same ↦ rw (← mine q c same e) (
          Extends-Descending s.heap.next_base h'.next_base b.blocks b'.blocks out.grows out.extends
            (i.linear j b here))
      | no ne ↦
          Descending-mono s.heap.next_base h'.next_base c.blocks out.grows
            (i.linear q c (others q c ne e))
    ]

    Apart-filled :
        (p q : ℕ) (x y : Bucket)
        → get_elem? (set s.buckets j b') p ≡ some x
        → get_elem? (set s.buckets j b') q ≡ some y
        → p ≢ q
        → Apart x y
    Apart-filled p q x y ex ey ne base hx hy = elim (ℕ_discrete j p) [
      | yes jp ↦ Apart-mine p q x y jp (λ jq. ne (sym jp ∙ jq)) ex ey base hx hy
      | no njp ↦ elim (ℕ_discrete j q) [
        | yes jq ↦ Apart-mine q p y x jq njp ey ex base hy hx
        | no njq ↦ i.apart p q x y (others p x njp ex) (others q y njq ey) ne base hx hy
      ]
    ]

    chain_filled :
        (slot' : Slot A) (q : ℕ) (c : Bucket)
        → get_elem? (set s.buckets j b') q ≡ some c
        → AllBlocks (record h' { cell = put a slot' h'.cell }) c.blocks
    chain_filled slot' q c e =
        AllBlocks-kept h' _ c.blocks (put-Keeps a slot' h') (elim (ℕ_discrete j q) [
          | yes same ↦ rw (← mine q c same e) (out.chain (i.chains j b here))
          | no ne ↦
              AllBlocks-kept s.heap h' c.blocks
                (λ base index old at. (old, kept_cell base index old at))
                (i.chains q c (others q c ne e))
        ])

    -- What a bucket had handed out before.
    still-IsOwned :
        (base index : ℕ) → IsOwned s.buckets base index → IsOwned (set s.buckets j b') base index
    still-IsOwned base index (q, c, e, inside) = elim (ℕ_discrete j q) [
      | no ne ↦ (q, c, get_elem?-set_ne s.buckets j q b' ne ∙ e, inside)
      | yes same ↦
          let both : some b ≡ some c = sym here ∙ rw same e in
          let was : b ≡ c = cc in
          (j, b', get_elem?-set_self s.buckets j b' here, out.covers base index (rw was inside))
    ]

    IsOwned-filled :
        (slot' : Slot A) (base index : ℕ) (found : Slot A)
        → put a slot' h'.cell base index ≡ some found
        → 0 < issued found.header
        → IsOwned (set s.buckets j b') base index
    IsOwned-filled slot' base index found e used =
        elim (put_other a found slot' h'.cell base index e) [
          | inl (eb, ei, same) ↦
              rw (← eb, ← ei) (j, b', get_elem?-set_self s.buckets j b' here, out.mine)
          | inr there ↦ elim (out.cells base index found there) [
            | inl old ↦ still-IsOwned base index (i.owned base index found old used)
            | inr (new, lt) ↦ absurd (ground (arith, new, new_header A))
          ]
        ]

    -- A bucket's slot.
    pub fresh : IsLocated calls s (record s { buckets = set s.buckets j b'; heap = h' }) a
    fresh = record {
      slot = Slot.new;
      at = out.vacant;
      vacant = omega (arith, new_header A);
      native = refl;
      same_look = same_seen;
      kept = kept_cell;
      fill = λ slot' good. record {
        size = length-set s.buckets j b' ∙ i.size;
        ready = λ q c e. IsReady-filled slot' q c e;
        apart = Apart-filled;
        linear = linear_filled;
        slots = λ base index found e. elim (put_other a found slot' h'.cell base index e) [
          | inl (eb, ei, same) ↦
              rw (← eb, same) ((cell_known a.base a.index Slot.new out.vacant).0, good)
          | inr old ↦ let (known, g) = cell_known base index found old in (known, IsSlot-mono g)
        ];
        erased =
            AllErased-put h' a slot' s.erasures
              (AllErased-elsewhere h' a Slot.new out.vacant (inl (new_header A)) s.erasures
                erased_kept)
              erased_kept;
        distinct = i.distinct;
        chains = λ q c e. chain_filled slot' q c e;
        owned = λ base index found e used. IsOwned-filled slot' base index found e used;
      };
    }
