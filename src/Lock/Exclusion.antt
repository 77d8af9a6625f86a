-- ===== src/Lock/Exclusion.antt =====
-- The spin lock of src/kernel.c between processors: each tries to take the lock, and releases it when
-- it is done, one atomic access at a time.
use side_h_os.Base.{
  ℕ, ◌≡◌, refl, ◌≢◌, inl, inr, Bool, true, false, ◌==◌, Bool-cases, ==_iff, arith, ap, ◌∙◌, sym,
}
use side_h_os.Kernel.{Lock, replace}
use side_h_os.Lock.{lock_acquire, lock_release}

-- The byte of the lock, and which processors are between a lock_acquire that succeeded and their
-- lock_release.
pub record Shared : Type 0 where
  pub lock : Lock
  pub inside : ℕ → Bool

pub data Step (s : Shared) : Shared → Type 0 where
  -- A processor tries, and goes on where lock_acquire returns true.
  try_lock :
      (i : ℕ)
      → s.inside i ≡ false
      → Step s (record {
        lock = (lock_acquire s.lock).1;
        inside = replace s.inside i (lock_acquire s.lock).0;
      })
  -- A processor that is inside leaves.
  leave :
      (i : ℕ)
      → s.inside i ≡ true
      → Step s (record { lock = lock_release s.lock; inside = replace s.inside i false })

pub data Reach (s : Shared) : Shared → Type 0 where
  here : Reach s s
  then_step : {s₁ s₂ : Shared} → Reach s s₁ → Step s₁ s₂ → Reach s s₂

-- The lock is open and nobody is inside, or it is closed and exactly one processor is.
pub data IsExclusive (s : Shared) : Type 0 where
  open_lock : s.lock ≡ 0 → ((j : ℕ) → s.inside j ≡ false) → IsExclusive s
  held_by :
      (i : ℕ)
      → s.lock ≡ 1
      → s.inside i ≡ true
      → ((j : ℕ) → j ≢ i → s.inside j ≡ false)
      → IsExclusive s

replace-at : (f : ℕ → Bool) (i : ℕ) (b : Bool) → replace f i b i ≡ b
replace-at f i b = ground arith

replace-other : (f : ℕ → Bool) (i j : ℕ) (b : Bool) → j ≢ i → replace f i b j ≡ f j
replace-other f i j b ne = ground arith

-- A value that is there already changes nothing.
replace-same : (f : ℕ → Bool) (i j : ℕ) (b : Bool) → f i ≡ b → replace f i b j ≡ f j
replace-same f i j b e = elim (Bool-cases (i == j)) [
  | inl at ↦ rw at (sym e ∙ ap f ((==_iff _ _).0 at))
  | inr far ↦ rw far refl
]

not_both : (b : Bool) → b ≡ true → b ≡ false → (A : Type 0) → A
not_both b t f A = absurd (no_way (sym f ∙ t))
  where
    no_way : false ≢ true
    no_way e = cc

Step-IsExclusive : (s s' : Shared) → Step s s' → IsExclusive s → IsExclusive s'
Step-IsExclusive s s' (try_lock i out) (open_lock free nobody) =
    held_by i (rw free refl) (rw free (replace-at s.inside i true))
      (λ j ne. rw free (replace-other s.inside i j true ne ∙ nobody j))
Step-IsExclusive s s' (try_lock i out) (held_by h closed inside others) =
    held_by h (rw closed refl) (rw closed (replace-same s.inside i h false out ∙ inside))
      (λ j ne. rw closed (replace-same s.inside i j false out ∙ others j ne))
Step-IsExclusive s s' (leave i inside) (open_lock free nobody) =
    not_both (s.inside i) inside (nobody i) _
Step-IsExclusive s s' (leave i inside) (held_by h closed held others) = open_lock refl (λ j.
    elim (Bool-cases (i == j)) [
      | inl at ↦ rw at refl
      | inr elsewhere ↦ elim (Bool-cases (j == h)) [
        | inl holder ↦
            let apart : i ≢ h = λ e. ground arith in not_both (s.inside i) inside (others i apart) _
        | inr far ↦ rw elsewhere (others j (λ e. ground arith))
      ]
    ])

-- However processors try, fail, enter and leave, from an open lock that nobody holds on, the lock is open and nobody is inside, or it is closed and exactly one processor is: no two are between lock_acquire and lock_release at the same time, and a lock that nobody holds can be taken.
pub Reach-IsExclusive : (s s' : Shared) → IsExclusive s → Reach s s' → IsExclusive s'
Reach-IsExclusive s s' start here = start
Reach-IsExclusive s s' start (then_step {s₁} r t) =
    Step-IsExclusive s₁ s' t (Reach-IsExclusive s s₁ start r)
