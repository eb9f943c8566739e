-- ===== src/DebugCheck.antt =====
-- src/util/debug_check.rs: accesses that are checked with debug assertions and unchecked without.
use read_write_store.Prelude.{
  ℕ, ◌<◌, ◌≡◌, ◌≢◌, refl, ◌⊎◌, inl, inr, Bool, true, false, Option, none, some, List, Check, ok,
  panicked, unwrap, get_elem?, set, length, ltb, ◌==◌, if◌then◌else◌, arith, Option-cases,
  Bool-cases, dec_lt, Panic,
}
use read_write_store.Prelude.Panic.{out_of_bounds, unwrap_none, uninitialized, entered_unreachable}

-- What the standard library documents of its unchecked functions: what they do where the check
-- would pass, and nothing elsewhere. A pointer is a number, 0 for null; a mutable reference is what
-- is written through it. `Memory` is `MaybeUninit`.
pub record Unchecked {ℓ κ} (A : Type ℓ) (E : Type κ) (Memory : Type ℓ) : Type (ℓ ⊔ κ) where
  pub get_unchecked : List A → ℕ → Check A
  pub get_unchecked-some :
      (xs : List A) (index : ℕ) (a : A)
      → get_elem? xs index ≡ some a
      → get_unchecked xs index ≡ ok a
  pub set_unchecked : List A → ℕ → A → Check (List A)
  pub set_unchecked-lt :
      (xs : List A) (index : ℕ) (a : A)
      → index < length xs
      → set_unchecked xs index a ≡ ok (set xs index a)
  pub unwrap_unchecked : Option A → Check A
  pub unwrap_unchecked-some : (a : A) → unwrap_unchecked (some a) ≡ ok a
  pub unwrap_result_unchecked : A ⊎ E → Check A
  pub unwrap_result_unchecked-inl : (a : A) → unwrap_result_unchecked (inl a) ≡ ok a
  pub new_unchecked : ℕ → Check ℕ
  pub new_unchecked-ne : (pointer : ℕ) → pointer ≢ 0 → new_unchecked pointer ≡ ok pointer
  pub uninit_memory : Memory
  pub new_memory : A → Memory
  pub assume_init_memory : Memory → Check A
  pub assume_init_memory-new : (a : A) → assume_init_memory (new_memory a) ≡ ok a
  pub read_memory : Memory → Check A
  pub read_memory-new : (a : A) → read_memory (new_memory a) ≡ ok a

module _ {ℓ κ} {A : Type ℓ} {E : Type κ} {Memory : Type ℓ} (std : Unchecked A E Memory)
    (debug_assertions : Bool) where
  unfoldable pub get_debug_checked : List A → ℕ → Check A
  get_debug_checked xs index =
      if debug_assertions
      then unwrap (get_elem? xs index) out_of_bounds
      else std.get_unchecked xs index

  unfoldable pub get_debug_checked_mut : List A → ℕ → A → Check (List A)
  get_debug_checked_mut xs index a =
      if debug_assertions
      then (if ltb index (length xs) then ok (set xs index a) else panicked out_of_bounds)
      else std.set_unchecked xs index a

  unfoldable pub unwrap_debug_checked : Option A → Check A
  unwrap_debug_checked o = if debug_assertions then unwrap o unwrap_none else std.unwrap_unchecked o

  abbrev pub unwrap_result : A ⊎ E → Check A
  unwrap_result (inl a) = ok a
  unwrap_result (inr e) = panicked unwrap_none

  unfoldable pub unwrap_result_debug_checked : A ⊎ E → Check A
  unwrap_result_debug_checked r =
      if debug_assertions then unwrap_result r else std.unwrap_result_unchecked r

  unfoldable pub new_debug_checked : ℕ → Check ℕ
  new_debug_checked pointer =
      if debug_assertions
      then (if pointer == 0 then panicked unwrap_none else ok pointer)
      else std.new_unchecked pointer

-- `DebugCheckedMaybeUninit`, in the two builds: an option, or memory.
module _ {ℓ κ} {A : Type ℓ} {E : Type κ} {Memory : Type ℓ} (std : Unchecked A E Memory) where
  pub data MaybeUninit : Type ℓ where
    checked : Option A → MaybeUninit
    unchecked : Memory → MaybeUninit

  unfoldable pub uninit : Bool → MaybeUninit
  uninit debug_assertions = if debug_assertions then checked none else unchecked std.uninit_memory

  unfoldable pub new : Bool → A → MaybeUninit
  new debug_assertions a =
      if debug_assertions then checked (some a) else unchecked (std.new_memory a)

  unfoldable pub assume_init : MaybeUninit → Check A
  assume_init (checked o) = unwrap o uninitialized
  assume_init (unchecked m) = std.assume_init_memory m

  -- `contents_ptr`, and a read through the pointer
  unfoldable pub contents : MaybeUninit → Check A
  contents (checked (some a)) = ok a
  contents (checked none) = panicked entered_unreachable
  contents (unchecked m) = std.read_memory m

  -- A cell that was made by `uninit`, or by `new`.
  unfoldable pub made : Bool → Option A → MaybeUninit
  unfolding uninit new
  made debug_assertions none = uninit debug_assertions
  made debug_assertions (some a) = new debug_assertions a

-- What the one computation returns without a panic, the other returns.
abbrev pub Refined {ℓ} : {B : Type ℓ} → Check B → Check B → Type ℓ
Refined {B = B} debug release = (b : B) → debug ≡ ok b → release ≡ ok b

Refined-ok {ℓ} :
    {B : Type ℓ} (debug release : Check B) (a : B)
    → debug ≡ ok a
    → release ≡ ok a
    → Refined debug release
Refined-ok debug release a d r b e = cc

Refined-panicked {ℓ} :
    {B : Type ℓ} (debug release : Check B) (why : Panic)
    → debug ≡ panicked why
    → Refined debug release
Refined-panicked debug release why d b e = cc

module _ {ℓ κ} {A : Type ℓ} {E : Type κ} {Memory : Type ℓ} (std : Unchecked A E Memory) where
  get_Refined :
      (xs : List A) (index : ℕ)
      → Refined (get_debug_checked std true xs index) (get_debug_checked std false xs index)
  unfolding get_debug_checked
  get_Refined xs index = elim (Option-cases (get_elem? xs index)) [
    | inl out ↦ Refined-panicked _ _ out_of_bounds (rw out refl)
    | inr (a, at) ↦ Refined-ok _ _ a (rw at refl) (std.get_unchecked-some xs index a at)
  ]

  set_Refined :
      (xs : List A) (index : ℕ) (a : A)
      → Refined
          (get_debug_checked_mut std true xs index a)
          (get_debug_checked_mut std false xs index a)
  unfolding get_debug_checked_mut
  set_Refined xs index a = elim (dec_lt index (length xs)) [
    | yes lt ↦
        let inside : ltb index (length xs) ≡ true = ground arith in
        Refined-ok _ _ (set xs index a) (rw inside refl) (std.set_unchecked-lt xs index a lt)
    | no ge ↦
        let outside : ltb index (length xs) ≡ false = ground arith in
        Refined-panicked _ _ out_of_bounds (rw outside refl)
  ]

  unwrap_Refined :
      (o : Option A) → Refined (unwrap_debug_checked std true o) (unwrap_debug_checked std false o)
  unfolding unwrap_debug_checked
  unwrap_Refined none = Refined-panicked _ _ unwrap_none refl
  unwrap_Refined (some a) = Refined-ok _ _ a refl (std.unwrap_unchecked-some a)

  unwrap_result_Refined :
      (r : A ⊎ E)
      → Refined (unwrap_result_debug_checked std true r) (unwrap_result_debug_checked std false r)
  unfolding unwrap_result_debug_checked
  unwrap_result_Refined (inl a) = Refined-ok _ _ a refl (std.unwrap_result_unchecked-inl a)
  unwrap_result_Refined (inr e) = Refined-panicked _ _ unwrap_none refl

  new_Refined :
      (pointer : ℕ)
      → Refined (new_debug_checked std true pointer) (new_debug_checked std false pointer)
  unfolding new_debug_checked
  new_Refined pointer = elim (Bool-cases (pointer == 0)) [
    | inl null ↦ Refined-panicked _ _ unwrap_none (rw null refl)
    | inr some_address ↦
        Refined-ok _ _ pointer (rw some_address refl)
          (std.new_unchecked-ne pointer (λ e. ground arith))
  ]

  assume_init-Refined :
      (o : Option A)
      → Refined (assume_init std (made std true o)) (assume_init std (made std false o))
  unfolding assume_init made uninit new
  assume_init-Refined none = Refined-panicked _ _ uninitialized refl
  assume_init-Refined (some a) = Refined-ok _ _ a refl (std.assume_init_memory-new a)

  contents-Refined :
      (o : Option A) → Refined (contents std (made std true o)) (contents std (made std false o))
  unfolding contents made uninit new
  contents-Refined none = Refined-panicked _ _ entered_unreachable refl
  contents-Refined (some a) = Refined-ok _ _ a refl (std.read_memory-new a)

  -- Each checked access does without debug assertions what it does with them, unless that is a
  -- panic: indexing and writing through a mutable index, unwrapping an option and a result, making
  -- a pointer that is not null, and taking or reading the contents of a cell made by `uninit` or
  -- `new`. This rests on what the standard library documents of its unchecked functions.
  pub release_lem :
      ((xs : List A) (index : ℕ)
        → Refined (get_debug_checked std true xs index) (get_debug_checked std false xs index))
      × ((xs : List A) (index : ℕ) (a : A)
          → Refined
              (get_debug_checked_mut std true xs index a)
              (get_debug_checked_mut std false xs index a))
      × ((o : Option A)
          → Refined (unwrap_debug_checked std true o) (unwrap_debug_checked std false o))
      × ((r : A ⊎ E)
          → Refined
              (unwrap_result_debug_checked std true r)
              (unwrap_result_debug_checked std false r))
      × ((pointer : ℕ)
          → Refined (new_debug_checked std true pointer) (new_debug_checked std false pointer))
      × ((o : Option A)
          → Refined (assume_init std (made std true o)) (assume_init std (made std false o)))
      × ((o : Option A)
          → Refined (contents std (made std true o)) (contents std (made std false o)))
  release_lem = (
    get_Refined, set_Refined, unwrap_Refined, unwrap_result_Refined, new_Refined,
    assume_init-Refined, contents-Refined,
  )
