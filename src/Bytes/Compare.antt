-- ===== src/Bytes/Compare.antt =====
-- memcmp and strcmp (src/kernel.h).
use side_h_os.Base.{
  ℕ, zero, suc, ◌+◌, ◌<◌, ◌≡◌, ◌≢◌, ◌↔◌, inl, inr, Option, some, List, [], ◌∷◌, ap, arith, ltb,
  ◌==◌, ℤ, pos, negsuc, sub_ℕ, Bool-cases, length, ==_iff, ltb→lt,
}
use mathlib.Core.Path.{ap₂}
use mathlib.Core.List.{tail}
use side_h_os.Bytes.{Bytes, memcmp_loop, memcmp, Chars, strcmp_loop, strcmp}

-- The first n bytes from s1 and from s2 are the same.
abbrev pub Same : Bytes → (s1 s2 n : ℕ) → Type 0
Same m s1 s2 n = (q : ℕ) → q < n → m (s1 + q) ≡ m (s2 + q)

-- What memcmp says of two ranges of n bytes: they are the same, or the first place k where they
-- differ decides.
pub data Verdict (m : Bytes) (s1 s2 n : ℕ) : ℤ → Type 0 where
  equal : Same m s1 s2 n → Verdict m s1 s2 n (pos 0)
  less : (k : ℕ) → k < n → Same m s1 s2 k → m (s1 + k) < m (s2 + k) → Verdict m s1 s2 n (negsuc 0)
  greater : (k : ℕ) → k < n → Same m s1 s2 k → m (s2 + k) < m (s1 + k) → Verdict m s1 s2 n (pos 1)

module _ (m : Bytes) (s1 s2 : ℕ) where
  Same-suc : (i : ℕ) → Same m s1 s2 i → m (s1 + i) ≡ m (s2 + i) → Same m s1 s2 (i + 1)
  Same-suc i same e q h = elim (Bool-cases (q == i)) [
    | inl at ↦ ground arith
    | inr before ↦ same q (ground arith)
  ]

  memcmp_loop-Verdict :
      (n i : ℕ) {total : ℕ}
      → i + n ≡ total
      → Same m s1 s2 i
      → Verdict m s1 s2 total (memcmp_loop m s1 s2 i n)
  unfolding memcmp_loop
  memcmp_loop-Verdict zero i e same = equal (λ q h. same q (omega arith))
  memcmp_loop-Verdict (suc n) i e same = elim (Bool-cases (m (s1 + i) == m (s2 + i))) [
    | inl eq ↦
        rw eq (memcmp_loop-Verdict n (i + 1) (omega arith) (Same-suc i same ((==_iff _ _).0 eq)))
    | inr ne ↦ rw ne (elim (Bool-cases (ltb (m (s1 + i)) (m (s2 + i)))) [
      | inl lt ↦ rw lt (less i (omega arith) same (ltb→lt _ _ lt))
      | inr ge ↦ rw ge (greater i (omega arith) same (ground arith))
    ])
  ]

-- memcmp(s1, s2, n) is 0 where the n bytes from s1 and s2 agree, -1 where at the first place that they differ the byte of s1 is the smaller, and 1 where it is the greater.
pub memcmp-Verdict : (m : Bytes) (s1 s2 n : ℕ) → Verdict m s1 s2 n (memcmp m s1 s2 n)
unfolding memcmp
memcmp-Verdict m s1 s2 n =
    memcmp_loop-Verdict m s1 s2 n 0 (omega arith) (λ q h. absurd (omega arith))

-- From the offset i on, the characters are xs and then a NUL.
abbrev pub IsString : Chars → ℕ → List ℕ → Type 0
IsString a i [] = a i ≡ 0
IsString a i (x ∷ xs) = (a i ≡ x) × (x ≢ 0) × IsString a (i + 1) xs

-- The value r tells whether the two texts are equal.
pub record Tells (xs ys : List ℕ) (o : Option ℤ) : Type 0 where
  pub value : ℤ
  pub returns : o ≡ some value
  pub zero_iff : (value ≡ pos 0) ↔ (xs ≡ ys)

-- A difference of two bytes is 0 exactly where they agree.
sub_ℕ-zero_iff : (x y : ℕ) → (sub_ℕ x y ≡ pos 0) ↔ (x ≡ y)
sub_ℕ-zero_iff x y = ground arith

strcmp_loop-Tells :
    (f : ℕ) (a b : Chars) (i : ℕ) (xs ys : List ℕ)
    → IsString a i xs
    → IsString b i ys
    → length xs < f
    → Tells xs ys (strcmp_loop f a b i)
unfolding strcmp_loop
strcmp_loop-Tells zero a b i xs ys s t h = elim h [ ]
strcmp_loop-Tells (suc f) a b i [] [] s t h = record {
  value = sub_ℕ (a i) (b i);
  returns = ground arith;
  zero_iff = ground arith;
}
strcmp_loop-Tells (suc f) a b i [] (y ∷ ys) s t h = record {
  value = sub_ℕ (a i) (b i);
  returns = ground arith;
  zero_iff = ground arith;
}
strcmp_loop-Tells (suc f) a b i (x ∷ xs) [] s t h = record {
  value = sub_ℕ (a i) (b i);
  returns = ground arith;
  zero_iff = ground arith;
}
strcmp_loop-Tells (suc f) a b i (x ∷ xs) (y ∷ ys) s t h = elim (Bool-cases (a i == b i)) [
  | inl eq ↦
      let rest = strcmp_loop-Tells f a b (i + 1) xs ys s.2 t.2 (omega arith) in
      record {
        value = rest.value;
        returns = ground (arith, rest.returns);
        zero_iff =
            (λ z. ap₂ ◌∷◌ (ground arith) (rest.zero_iff.0 z), λ e. rest.zero_iff.1 (ap tail e));
      }
  | inr ne ↦ record { value = sub_ℕ (a i) (b i); returns = ground arith; zero_iff = ground arith }
]

-- On two NUL-terminated texts, and with more fuel than the first is long, strcmp returns a value, and that value is 0 exactly where the two texts are equal.
pub strcmp-Tells :
    (f : ℕ) (a b : Chars) (xs ys : List ℕ)
    → IsString a 0 xs
    → IsString b 0 ys
    → length xs < f
    → Tells xs ys (strcmp f a b)
unfolding strcmp
strcmp-Tells f a b xs ys s t h = strcmp_loop-Tells f a b 0 xs ys s t h
