-- ===== src/Bytes/Words.antt =====
-- Loads and stores of 64-bit words (the field accesses of src/kernel.c): what is stored is loaded
-- again, and a store touches its own bytes only.
use side_h_os.Base.{
  ℕ, zero, suc, ◌+◌, ◌*◌, ◌/◌, ◌%◌, ◌≤◌, ◌<◌, ◌≡◌, refl, ◌⊎◌, inl, inr, arith, ◌∙◌,
}
use side_h_os.Base.Word.{u64_mod}
use side_h_os.Bytes.{Bytes, write8, load_le, store_le, load64, store64}

-- What n bytes can hold.
abbrev pub radix : ℕ → ℕ
radix zero = 1
radix (suc n) = 256 * radix n

-- The address q lies outside the n bytes from a.
abbrev pub Outside : (a n q : ℕ) → Type 0
Outside a n q = (q < a) ⊎ (a + n ≤ q)

pub Outside-cases : (a n q : ℕ) → Outside a n q ⊎ ((a ≤ q) × (q < a + n))
Outside-cases a n q = omega arith

store_le-Outside : (n : ℕ) (m : Bytes) (a v q : ℕ) → Outside a n q → store_le n m a v q ≡ m q
unfolding store_le
store_le-Outside zero m a v q out = refl
store_le-Outside (suc n) m a v q out =
    store_le-Outside n (write8 m a (v % 256)) (a + 1) (v / 256) q (omega arith) ∙ ground arith

load_le-agree :
    (n : ℕ) (m m' : Bytes) (a : ℕ)
    → ((q : ℕ) → a ≤ q → q < a + n → m q ≡ m' q)
    → load_le n m a ≡ load_le n m' a
unfolding load_le
load_le-agree zero m m' a same = refl
load_le-agree (suc n) m m' a same = omega (
  arith,
  same a (omega arith) (omega arith),
  load_le-agree n m m' (a + 1) (λ q l u. same q (omega arith) (omega arith)),
)

load_le-store_le : (n : ℕ) (m : Bytes) (a v : ℕ) → v < radix n → load_le n (store_le n m a v) a ≡ v
unfolding load_le store_le
load_le-store_le zero m a v h = omega arith
load_le-store_le (suc n) m a v h = omega (
  arith,
  store_le-Outside n (write8 m a (v % 256)) (a + 1) (v / 256) a (omega arith),
  load_le-store_le n (write8 m a (v % 256)) (a + 1) (v / 256) (omega arith),
  write8_self m a (v % 256),
)
  where
    write8_self : (m : Bytes) (a v : ℕ) → write8 m a v a ≡ v
    write8_self m a v = ground arith

pub load64-store64 : (m : Bytes) (a v : ℕ) → v < u64_mod → load64 (store64 m a v) a ≡ v
unfolding load64 store64
load64-store64 m a v h = load_le-store_le 8 m a v h

pub store64-Outside : (m : Bytes) (a v q : ℕ) → Outside a 8 q → store64 m a v q ≡ m q
unfolding store64
store64-Outside m a v q out = store_le-Outside 8 m a v q out

pub load64-agree :
    (m m' : Bytes) (a : ℕ) → ((q : ℕ) → a ≤ q → q < a + 8 → m q ≡ m' q) → load64 m a ≡ load64 m' a
unfolding load64
load64-agree m m' a same = load_le-agree 8 m m' a same

-- Two words that do not overlap.
abbrev pub Apart : (a b : ℕ) → Type 0
Apart a b = (a + 8 ≤ b) ⊎ (b + 8 ≤ a)

pub load64-store64-Apart :
    (m : Bytes) (a b v : ℕ) → Apart a b → load64 (store64 m a v) b ≡ load64 m b
load64-store64-Apart m a b v far =
    load64-agree (store64 m a v) m b (λ q l u. store64-Outside m a v q (omega arith))

-- A word of zero bytes is 0.
load_le_zero :
    (n : ℕ) (m : Bytes) (a : ℕ) → ((q : ℕ) → a ≤ q → q < a + n → m q ≡ 0) → load_le n m a ≡ 0
unfolding load_le
load_le_zero zero m a z = refl
load_le_zero (suc n) m a z = omega (
  arith,
  z a (omega arith) (omega arith),
  load_le_zero n m (a + 1) (λ q l u. z q (omega arith) (omega arith)),
)

pub load64_zero : (m : Bytes) (a : ℕ) → ((q : ℕ) → a ≤ q → q < a + 8 → m q ≡ 0) → load64 m a ≡ 0
unfolding load64
load64_zero m a z = load_le_zero 8 m a z

-- A load passes over a store elsewhere.
pub load64-past :
    (m : Bytes) (a b v : ℕ) {x : ℕ} → Apart a b → load64 m b ≡ x → load64 (store64 m a v) b ≡ x
load64-past m a b v far e = load64-store64-Apart m a b v far ∙ e

region_cases :
    (a n b m : ℕ)
    → ((a + n ≤ b) ⊎ (b + m ≤ a)) ⊎ (((b ≤ a) × (a < b + m)) ⊎ ((a ≤ b) × (b < a + n)))
region_cases a n b m = omega arith

-- Ranges without a common byte.
pub regions-Apart :
    (a n b m : ℕ)
    → 0 < n
    → 0 < m
    → ((q : ℕ) → a ≤ q → q < a + n → b ≤ q → q < b + m → ⊥)
    → (a + n ≤ b) ⊎ (b + m ≤ a)
regions-Apart a n b m pos_n pos_m none = elim (region_cases a n b m) [
  | inl apart ↦ apart
  | inr (inl (lo, hi)) ↦ absurd (none a (omega arith) (omega arith) lo hi)
  | inr (inr (lo, hi)) ↦ absurd (none b lo hi (omega arith) (omega arith))
]
