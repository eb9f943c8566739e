-- ===== src/Store/Refines/Programs.antt =====
-- src/lib.rs and src/lock.rs: every call, and whole programs of calls, against the specification.
use read_write_store.Prelude.{
  ℕ, zero, suc, ◌+◌, ◌≤◌, ◌<◌, ◌≡◌, refl, ◌∙◌, inl, inr, none, List, [], ◌∷◌, ok, arith,
  get_elem?-replicate, Bool-cases, true, false, Bool,
}
use read_write_store.Header.Word.{max_concurrent_reads}
use read_write_store.Header.Abstract.{all_ones}
use read_write_store.Block.{Heap}
use read_write_store.Id.{generate}
use read_write_store.Bucket.{Bucket}
use read_write_store.Bucket
use read_write_store.Bucket.Unused.{no_block}
use read_write_store.Store.{Store, new}
use read_write_store.Store.Spec.{
  Model, Call, Reply, never, IsGiven, IsLegal, IsFresh, expected, empty_model,
}
use read_write_store.Store.Spec
use read_write_store.Store.Client.{
  perform, is_never, Program, stop, ask, run, IsSound, Allows, stopped, blocked, answered,
}
use read_write_store.Store.Invariant.{IsStore}
use read_write_store.Store.Refines.{Refines, IsDone}
use read_write_store.Store.Refines.Insertion.{insert-IsDone}
use read_write_store.Store.Refines.Ids.{remove-IsDone, read-IsDone, write-IsDone}
use read_write_store.Store.Refines.Guards.{
  drop_read-IsDone, drop_write-IsDone, remove_locked-IsDone, assign-IsDone, deref-IsDone,
  get_mut-IsDone,
}

chosen {κ} :
    {B : Type κ} (test : Bool) (x y : B)
    → (test ≡ true → elim test [ true ↦ x | false ↦ y ] ≡ x)
      × (test ≡ false → elim test [ true ↦ x | false ↦ y ] ≡ y)
chosen true x y = (λ e. refl, λ e. ground arith)
chosen false x y = (λ e. ground arith, λ e. refl)

module _ {ℓ} {A : Type ℓ} where
  -- On a store that is in order after fewer than `max_concurrent_reads` calls and that stands for
  -- a state of the specification, every call that the specification allows succeeds with the
  -- expected reply, leaves the store in order, and leads to the expected state; an insertion's ID
  -- was not given out before.
  pub perform-IsDone :
      (calls state : ℕ) (s : Store A) (m : Model A) (c : Call A)
      → IsStore calls s
      → Refines s m
      → calls < max_concurrent_reads
      → IsLegal m c
      → IsDone calls m c state s
  perform-IsDone calls state s m (Spec.insert e) i r few legal =
      insert-IsDone calls s m e state i r (omega arith)
  perform-IsDone calls state s m (Spec.remove id t) i r few legal =
      remove-IsDone i r few id (r.known id legal.0) t state
  perform-IsDone calls state s m (Spec.read id t) i r few legal =
      read-IsDone i r few id (r.known id legal.0) t state
  perform-IsDone calls state s m (Spec.write id t) i r few legal =
      write-IsDone i r few id (r.known id legal.0) t state
  perform-IsDone calls state s m (Spec.remove_locked id) i r few legal =
      remove_locked-IsDone i r id (r.known id legal.0) state legal.1
  perform-IsDone calls state s m (Spec.drop_read id) i r few legal =
      drop_read-IsDone i r id (r.known id legal.0) state legal.1
  perform-IsDone calls state s m (Spec.drop_write id) i r few legal =
      drop_write-IsDone i r id (r.known id legal.0) state legal.1
  perform-IsDone calls state s m (Spec.deref id) i r few legal = elim (legal.1) [
    | inl (e, n, entry, some_readers, no_writer) ↦
        deref-IsDone i r id (r.known id legal.0) state e n entry
    | inr (e, entry) ↦ deref-IsDone i r id (r.known id legal.0) state e all_ones entry
  ]
  perform-IsDone calls state s m (Spec.get_mut id) i r few legal =
      get_mut-IsDone i r id (r.known id legal.0) state
  perform-IsDone calls state s m (Spec.assign id e) i r few legal =
      assign-IsDone i r id (r.known id legal.0) state e legal.1

  -- What a program's run must have come to.
  pub record Conforms (m : Model A) (p : Program A) (state : ℕ) (s : Store A) : Type ℓ where
    pub store' : Store A
    pub replies : List (Reply A)
    pub model' : Model A
    pub calls' : ℕ
    pub outcome : run p state s ≡ ok (store', replies)
    pub allowed : Allows m p replies model'
    pub good : IsStore calls' store'
    pub refines : Refines store' model'

  run-blocked :
      (c : Call A) (k : Reply A → Program A) (state state' : ℕ) (s s' : Store A) (reply : Reply A)
      → perform c state s ≡ ok (state', (s', reply))
      → is_never reply ≡ true
      → run (ask c k) state s ≡ ok (s', reply ∷ [])
  unfolding run
  run-blocked c k state state' s s' reply one stuck =
      rw (run, one) ((chosen (is_never reply) _ _).0 stuck)

  run-answered :
      (c : Call A) (k : Reply A → Program A) (state state' : ℕ) (s s' s'' : Store A)
      (reply : Reply A) (replies : List (Reply A))
      → perform c state s ≡ ok (state', (s', reply))
      → is_never reply ≡ false
      → run (k reply) state' s' ≡ ok (s'', replies)
      → run (ask c k) state s ≡ ok (s'', reply ∷ replies)
  unfolding run
  run-answered c k state state' s s' s'' reply replies one more rest =
      rw (run, one) ((chosen (is_never reply) _ _).1 more ∙ rw rest refl)

  -- A program that keeps to what is demanded of it, with few enough calls, runs on a store as the
  -- specification says.
  pub run-Conforms :
      (budget calls state : ℕ) (s : Store A) (m : Model A) (p : Program A)
      → IsStore calls s
      → Refines s m
      → calls + budget ≤ max_concurrent_reads
      → IsSound budget m p
      → Conforms m p state s
  unfolding run
  run-Conforms budget calls state s m stop i r few sound = record {
    store' = s;
    replies = [];
    model' = m;
    calls' = calls;
    outcome = refl;
    allowed = stopped;
    good = i;
    refines = r;
  }
  run-Conforms zero calls state s m (ask c k) i r few sound = absurd sound.0
  run-Conforms (suc budget) calls state s m (ask c k) i r few sound =
      let d = perform-IsDone calls state s m c i r (omega arith) sound.0 in
      elim (Bool-cases (is_never (expected m c d.id).1)) [
        | inl stuck ↦ record {
          store' = d.store';
          replies = (expected m c d.id).1 ∷ [];
          model' = (expected m c d.id).0;
          calls' = calls + 1;
          outcome = run-blocked c k state d.state' s d.store' (expected m c d.id).1 d.run stuck;
          allowed = blocked d.id d.fresh stuck;
          good = d.good;
          refines = d.refines;
        }
        | inr more ↦
            let rest =
              run-Conforms budget (calls + 1) d.state' d.store' (expected m c d.id).0
                (k (expected m c d.id).1) d.good d.refines (omega arith) (sound.1 d.id d.fresh) in
            record {
              store' = rest.store';
              replies = (expected m c d.id).1 ∷ rest.replies;
              model' = rest.model';
              calls' = rest.calls';
              outcome =
                  run-answered c k state d.state' s d.store' rest.store' (expected m c d.id).1
                    rest.replies d.run more rest.outcome;
              allowed = answered d.id d.fresh more rest.allowed;
              good = rest.good;
              refines = rest.refines;
            }
      ]

  -- A new store is in order, and refines the empty map.
  pub new-IsStore :
      (next : ℕ) (h : Heap A)
      → ((base index : ℕ) → h.cell base index ≡ none)
      → IsStore 0 (new next h).1
  unfolding new generate Bucket.new
  new-IsStore next h empty = record {
    size = refl;
    ready = λ i b e. (0, omega arith, rw (← get_elem?-replicate 16 i _ b e) (no_block _));
    apart = λ i j b c ei ej ne base hb hc. absurd (rw (← get_elem?-replicate 16 i _ b ei) at hb);
    linear = λ i b e. rw (← get_elem?-replicate 16 i _ b e) tt;
    slots = λ base index slot e. absurd (ground (arith, empty base index));
    erased = tt;
    distinct = tt;
    chains = λ i b e. rw (← get_elem?-replicate 16 i _ b e) tt;
    owned = λ base index slot e used. absurd (ground (arith, empty base index));
  }

  pub new-Refines :
      (next : ℕ) (h : Heap A)
      → ((base index : ℕ) → h.cell base index ≡ none)
      → Refines (new next h).1 empty_model
  unfolding new generate
  new-Refines next h empty = record {
    entries = λ id. rw (empty id.slot_address.base id.slot_address.index) refl;
    known = λ id g. absurd g;
  }

  -- Any program of calls of the store's methods and of its guards' runs on a new store, over an
  -- empty heap, as the specification says: it never panics, each reply is the expected one, an
  -- insertion's ID was not given out before, and the store is in order and stands for the
  -- specification's state when the program ends or waits for ever. The program makes at most
  -- `max_concurrent_reads` calls, uses IDs that it was given, and uses guards that it has.
  pub run-new :
      (budget state next : ℕ) (h : Heap A) (p : Program A)
      → ((base index : ℕ) → h.cell base index ≡ none)
      → budget ≤ max_concurrent_reads
      → IsSound budget empty_model p
      → Conforms empty_model p state (new next h).1
  run-new budget state next h p empty few sound =
      run-Conforms budget 0 state (new next h).1 empty_model p (new-IsStore next h empty)
        (new-Refines next h empty) (omega arith) sound
