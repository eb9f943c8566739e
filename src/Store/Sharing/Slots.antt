-- ===== src/Store/Sharing/Slots.antt =====
-- Each slot of a shared store, by itself, is a `Header` with threads on it.
use read_write_store.Prelude.{
  ℕ, suc, ◌+◌, ◌≡◌, refl, subst, inl, inr, true, false, some, List, [], ◌∷◌, if◌then◌else◌,
  Bool-cases, arith, replace,
}
use read_write_store.Id.{Address, same_address}
use read_write_store.Header.Code.{returned, nothing, occupy}
use read_write_store.Header.System.{System, init, claim, recycle, Reach}
use read_write_store.Header.Safety.{Run, Reach-Run}
use read_write_store.Header.Safety
use read_write_store.Queue.{push, pop}
use read_write_store.Store.View.{same_address_refl}
use read_write_store.Store.Sharing.{
  Shared, occurs, is_listed, slot_of, changed, empty, SharedStep, on_slot, reuse, take_new,
  give_back, SharedReach, start, later, SharedRun, here, more,
}

one_if_same : Address → Address → ℕ
one_if_same b a = if same_address b a then 1 else 0

same_address-eq : (a b : Address) → same_address a b ≡ true → a ≡ b
same_address-eq a b e = ground arith

pop_one :
    (x : Address) (xs : List Address)
    → (rest : List Address) × (a : Address) × (pop (x ∷ xs) ≡ some (rest, a))
      × ((b : Address) → occurs b (x ∷ xs) ≡ occurs b rest + one_if_same a b)
unfolding pop one_if_same
pop_one x [] = ([], x, refl, λ b. ground arith)
pop_one x (y ∷ xs) =
    let (rest, a, run, count) = pop_one y xs in
    (x ∷ rest, a, rw run refl, λ b. let c = count b in ground arith)

occurs-pop :
    (q rest : List Address) (a b : Address)
    → pop q ≡ some (rest, a)
    → occurs b q ≡ occurs b rest + one_if_same a b
unfolding pop
occurs-pop [] rest a b e = absurd (ground arith)
occurs-pop (x ∷ xs) rest a b e =
    let (rest', a', run, count) = pop_one x xs in
    let same : (rest', a') ≡ (rest, a) = cc (run, e) in
    subst (λ (r : List Address × Address). occurs b (x ∷ xs) ≡ occurs b r.0 + one_if_same r.1 b)
      same (count b)

-- What a step does to the slot that it concerns, and that it leaves all others.
at_each :
    (n : ℕ) (s t : Shared) (a b : Address)
    → Run n (slot_of s a) (slot_of t a)
    → (same_address a b ≡ false → Run n (slot_of s b) (slot_of t b))
    → Run n (slot_of s b) (slot_of t b)
at_each n s t a b self others = elim (Bool-cases (same_address a b)) [
  | inl e ↦ subst (λ c. Run n (slot_of s c) (slot_of t c)) (same_address-eq a b e) self
  | inr e ↦ others e
]

slot_of-Step :
    {n : ℕ} {s t : Shared} → SharedStep n s t → (b : Address) → Run n (slot_of s b) (slot_of t b)
unfolding push one_if_same
slot_of-Step {n} {s} (on_slot a {t} st kept) b =
    at_each n s (record s { word = changed a t.word s.word; pc = changed a t.pc s.pc }) a b
      (rw (same_address_refl a) (
        subst (λ v. Run n (slot_of s a) (record { word = t.word; vacant = v; pc = t.pc })) kept
          (Safety.more Safety.here st)))
      (λ e. rw e Safety.here)
slot_of-Step {n} {s} (reuse i {a} {rest = rest} lt popped at) b =
    let mine = occurs-pop s.erasures rest a a popped in
    at_each n s (record s { erasures = rest; pc = changed a (replace i occupy (s.pc a)) s.pc }) a b
      (rw (same_address_refl a)
        (Safety.more Safety.here (claim i lt at (ground (arith, mine, same_address_refl a)))))
      (λ e.
        let count : occurs b s.erasures ≡ occurs b rest =
          ground (arith, occurs-pop s.erasures rest a b popped) in
        rw (e, ← count) Safety.here)
slot_of-Step {n} {s} (take_new i {a} lt unlisted at) b =
    at_each n s (record s { given = a ∷ s.given; pc = changed a (replace i occupy (s.pc a)) s.pc })
      a b (rw (same_address_refl a) (Safety.more Safety.here (claim i lt at (ground arith))))
      (λ e. rw e Safety.here)
slot_of-Step {n} {s} (give_back i {a} lt at) b =
    let entries : ℕ = occurs a s.erasures in
    let unused : ℕ = if is_listed a s.given then 0 else 1 in
    let another : suc entries + unused ≡ suc (entries + unused) = omega arith in
    at_each n s
      (record s {
        erasures = push a s.erasures;
        pc = changed a (replace i (returned nothing) (s.pc a)) s.pc;
      })
      a b (rw (same_address_refl a, another) (Safety.more Safety.here (recycle i lt at)))
      (λ e. rw e Safety.here)

Run-append : {n : ℕ} {s t u : System} → Run n s t → Run n t u → Run n s u
Run-append r Safety.here = r
Run-append r (Safety.more q st) = Safety.more (Run-append r q) st

-- Every slot of a shared store behaves like one header with threads on it: in every state that the
-- calls of any number of threads on a store can reach, interleaved in any order, with the queue of
-- erasures and the buckets, the threads at any one slot are in a state that the threads on a
-- header can reach, where the ways to the slot are its entries in the queue and the slot itself
-- while no bucket has handed it out.
pub slot_of-Reach : {n : ℕ} {s : Shared} → SharedReach n s → (a : Address) → Reach n (slot_of s a)
unfolding empty init
slot_of-Reach start a = Reach.start
slot_of-Reach (later r st) a = Reach-Run (slot_of-Reach r a) (slot_of-Step st a)

pub slot_of-Run :
    {n : ℕ} {s t : Shared} → SharedRun n s t → (a : Address) → Run n (slot_of s a) (slot_of t a)
slot_of-Run here a = Safety.here
slot_of-Run (more r st) a = Run-append (slot_of-Run r a) (slot_of-Step st a)
