-- ===== src/Bucket/Sharing/Kept.antt =====
-- Every step of the threads that look for slots in one bucket keeps the invariant.
use read_write_store.Prelude.{
  ℕ, ◌-◌, ◌^◌, ◌≤◌, ◌<◌, ◌≡◌, refl, true, false, some, List, ok, arith, ℕ_discrete, replace,
  replace_eq, replace_ne, tally, tally-replace, length, subst, sym, Bool-cases, inl, inr,
}
use read_write_store.Id.{Address, RwStoreId}
use read_write_store.Block.{Heap}
use read_write_store.Bucket
use read_write_store.Bucket.{Bucket}
use read_write_store.Bucket.Sharing.{
  Place, outside, looking, leaving_read, slow, looking_again, expanding, looking_last,
  leaving_write, holds, holds_write, acts, lookup_step, note, Move, take_read, drop_read,
  take_write, return_read, return_write, AllDistinct, Sharing, new_sharing, BucketStep, act, move,
  other, Reach, start, later,
}
use read_write_store.Bucket.Sharing.Stock.{Stock, no_block, Stock-mono, Stock-other}
use read_write_store.Bucket.Sharing.Exclusion.{
  IsExclusive, IsExclusive-kept, IsExclusive-read, IsExclusive-write,
}
use read_write_store.Bucket.Sharing.Invariant.{
  asked, Knows, Inv, Advanced, hands_out, asks_in_vain, expands, Inv-Advances,
}

acts-holds : (p : Place) → acts p ≡ true → holds p ≡ true
acts-holds p h = ground arith

idle-Knows : (b : Bucket) (p : Place) → holds_write p ≡ false → Knows b p
idle-Knows b expanding h = absurd (ground arith)
idle-Knows b looking_last h = absurd (ground arith)
idle-Knows b p h = tt

pub note-grows : (p : Place) (given : List Address) → length given ≤ length (note p given)
note-grows (leaving_read a) given = omega arith
note-grows (leaving_write a) given = omega arith
note-grows p given = omega arith

module _ {ℓ} {A : Type ℓ} {n : ℕ} {s : Sharing A} (inv : Inv n s) (i : ℕ) (in_range : i < n) where
  -- The thread looks up a slot or expands: what the others know concerns the bucket only if they
  -- have the write lock, and then they are not others.
  advanced :
      (p : Place) {h : Heap A} {b : Bucket} {given : List Address}
      → acts (s.place i) ≡ true
      → holds_write p ≡ holds_write (s.place i)
      → Knows b p
      → AllDistinct given
      → Stock h (tally asked n (replace i p s.place)) b given
      → Inv n (record { bucket = b; heap = h; place = replace i p s.place; given = given })
  advanced p {b = b} a same knows distinct stock = record {
    few = inv.few;
    stock = stock;
    distinct = distinct;
    exclusive =
        IsExclusive-kept n s.place i p (λ w. rw (← same) w) (λ w. acts-holds (s.place i) a)
          inv.exclusive;
    knows = λ j lt. elim (ℕ_discrete i j) [
      | yes e ↦ rw (replace_eq i j p s.place e) knows
      | no e ↦ rw (replace_ne i j p s.place e) (elim (Bool-cases (holds_write (s.place j))) [
        | inl w ↦ absurd (e (sym (inv.exclusive j i lt in_range w (acts-holds (s.place i) a))))
        | inr w ↦ idle-Knows b (s.place j) w
      ])
    ];
  }

  Advanced-Inv :
      {h : Heap A} {b : Bucket} {p : Place}
      → acts (s.place i) ≡ true
      → holds_write p ≡ holds_write (s.place i)
      → Knows b p
      → Advanced s.heap (tally asked n s.place) s.bucket s.given (s.place i) h b p
      → Inv n (record { bucket = b; heap = h; place = replace i p s.place; given = note p s.given })
  Advanced-Inv {p = p} a same knows (hands_out l is_given none_asked vacant new newest stock) =
      rw is_given (advanced p a same knows (new, inv.distinct) (Stock-mono (omega arith) stock))
  Advanced-Inv {p = p} a same knows (asks_in_vain is_given more stock) = rw is_given (
      advanced p a same knows inv.distinct
        (Stock-mono (omega (arith, tally-replace asked n i p s.place in_range)) stock))
  Advanced-Inv {p = p} a same knows (expands is_given none_asked stock) =
      rw is_given (advanced p a same knows inv.distinct (Stock-mono (omega arith) stock))

  pub act-Inv :
      {h : Heap A} {b : Bucket} {p : Place}
      → acts (s.place i) ≡ true
      → length (note p s.given) < 2 ^ 31 - 1
      → lookup_step (s.place i) s.bucket s.heap ≡ ok (h, (b, p))
      → Inv n (record { bucket = b; heap = h; place = replace i p s.place; given = note p s.given })
  act-Inv {h} {b} {p} a few e =
      let (h', b', p', runs, is, knows, same, less, count, hold, larger) =
        Inv-Advances inv (omega (arith, note-grows p s.given)) i in_range a in
      let result : (h', (b', p')) ≡ (h, (b, p)) = cc (runs, e) in
      subst
        (λ (r : Heap A × (Bucket × Place)). Inv n (record {
          bucket = r.1.0;
          heap = r.0;
          place = replace i r.1.1 s.place;
          given = note r.1.1 s.given;
        }))
        result (Advanced-Inv a same knows is)

  -- The thread moves to a place where it knows nothing, and has asked for as many slots.
  pub moved :
      (p : Place)
      → asked p ≡ asked (s.place i)
      → Knows s.bucket p
      → IsExclusive n (replace i p s.place)
      → Inv n (record s { place = replace i p s.place })
  moved p as_many knows exclusive = record {
    few = inv.few;
    stock = Stock-mono (omega (arith, tally-replace asked n i p s.place in_range)) inv.stock;
    distinct = inv.distinct;
    exclusive = exclusive;
    knows = λ j lt. elim (ℕ_discrete i j) [
      | yes e ↦ rw (replace_eq i j p s.place e) knows
      | no e ↦ rw (replace_ne i j p s.place e) (inv.knows j lt)
    ];
  }

  pub move-Inv :
      {p : Place} → Move n s.place (s.place i) p → Inv n (record s { place = replace i p s.place })
  move-Inv m = move_from m refl
    where
      move_from :
          {q r : Place}
          → Move n s.place q r
          → s.place i ≡ q
          → Inv n (record s { place = replace i r s.place })
      move_from (take_read free) e =
          moved looking (rw e refl) tt (IsExclusive-read n s.place i looking refl free)
      move_from drop_read e =
          moved slow (rw e refl) tt
            (IsExclusive-kept n s.place i slow (λ w. cc) (λ w. cc) inv.exclusive)
      move_from (take_write free) e =
          moved looking_again (rw e refl) tt (IsExclusive-write n s.place i looking_again free)
      move_from (return_read {a}) e =
          moved (outside (some a)) (rw e refl) tt
            (IsExclusive-kept n s.place i (outside (some a)) (λ w. cc) (λ w. cc) inv.exclusive)
      move_from (return_write {a}) e =
          moved (outside (some a)) (rw e refl) tt
            (IsExclusive-kept n s.place i (outside (some a)) (λ w. cc) (λ w. cc) inv.exclusive)

module _ {ℓ} {A : Type ℓ} where
  pub new_sharing-Inv :
      (n : ℕ) (store_id : RwStoreId) (h : Heap A) → n ≤ 2 ^ 30 → Inv n (new_sharing store_id h)
  unfolding new_sharing Bucket.new
  new_sharing-Inv n store_id h few = record {
    few = few;
    stock = no_block store_id;
    distinct = tt;
    exclusive = λ i j i_in j_in w hold. cc;
    knows = λ i lt. tt;
  }

  -- Slots are only ever added to the ones that were handed out.
  pub Step-grows : {n : ℕ} {s t : Sharing A} → BucketStep n s t → length s.given ≤ length t.given
  Step-grows {s = s} (act i {p = p} lt a e) = note-grows p s.given
  Step-grows (move i lt m) = omega arith
  Step-grows (other grows same) = omega arith

  pub Step-Inv :
      {n : ℕ} {s t : Sharing A} → length t.given < 2 ^ 31 - 1 → BucketStep n s t → Inv n s → Inv n t
  Step-Inv few (act i lt a e) inv = act-Inv inv i lt a few e
  Step-Inv few (move i lt m) inv = move-Inv inv i lt m
  Step-Inv few (other grows same) inv = record {
    few = inv.few;
    stock = Stock-other grows same inv.stock;
    distinct = inv.distinct;
    exclusive = inv.exclusive;
    knows = inv.knows;
  }

  pub Reach-Inv :
      {n : ℕ} {s : Sharing A} → n ≤ 2 ^ 30 → length s.given < 2 ^ 31 - 1 → Reach n s → Inv n s
  Reach-Inv {n} threads few (start store_id h) = new_sharing-Inv n store_id h threads
  Reach-Inv threads few (later r st) =
      Step-Inv few st (Reach-Inv threads (omega (arith, Step-grows st)) r)
