-- ===== src/Bucket/Sharing/Exclusion.antt =====
-- The lock around a bucket: the thread with the write lock is the only one with any.
use read_write_store.Prelude.{
  ℕ, ◌<◌, ◌≡◌, Bool, true, false, replace, replace_eq, replace_ne, ℕ_discrete, arith, sym, ◌∙◌,
}
use read_write_store.Bucket.Sharing.{Place, holds, holds_write, IsReadable, IsWritable}

abbrev pub IsExclusive : ℕ → (ℕ → Place) → Type 0
IsExclusive n place =
    (i j : ℕ) → i < n → j < n → holds_write (place i) ≡ true → holds (place j) ≡ true → i ≡ j

module _ (n : ℕ) (place : ℕ → Place) (i : ℕ) (p : Place) where
  -- What holds of a thread after a thread has moved held before, if it did for the thread that moved.
  before :
      (test : Place → Bool) (j : ℕ)
      → (test p ≡ true → test (place i) ≡ true)
      → test (replace i p place j) ≡ true
      → test (place j) ≡ true
  before test j kept now = elim (ℕ_discrete i j) [
    | yes e ↦ rw (← e) (kept (rw (replace_eq i j p place e) at now))
    | no e ↦ rw (replace_ne i j p place e) at now
  ]

  pub IsExclusive-kept :
      (holds_write p ≡ true → holds_write (place i) ≡ true)
      → (holds p ≡ true → holds (place i) ≡ true)
      → IsExclusive n place
      → IsExclusive n (replace i p place)
  IsExclusive-kept w h alone j k j_in k_in wj hk =
      alone j k j_in k_in (before holds_write j w wj) (before holds k h hk)

  -- A thread that takes the lock to read, when nobody has it to write.
  pub IsExclusive-read :
      holds_write p ≡ false → IsReadable n place → IsExclusive n (replace i p place)
  IsExclusive-read w readable j k j_in k_in wj hk =
      let writer = before holds_write j (λ h. cc) wj in
      let nobody = readable j j_in in absurd (ground arith)

  -- A thread that takes the lock to write, when nobody has it.
  pub IsExclusive-write : IsWritable n place → IsExclusive n (replace i p place)
  IsExclusive-write writable j k j_in k_in wj hk =
      only j j_in (some_lock j wj) ∙ sym (only k k_in hk)
    where
      some_lock :
          (j : ℕ) → holds_write (replace i p place j) ≡ true → holds (replace i p place j) ≡ true
      some_lock j w = rw w (ground arith)

      only : (j : ℕ) → j < n → holds (replace i p place j) ≡ true → j ≡ i
      only j j_in h = elim (ℕ_discrete i j) [
        | yes e ↦ sym e
        | no e ↦
            let held = rw (replace_ne i j p place e) at h in
            let nobody = writable j j_in in absurd (ground arith)
      ]
