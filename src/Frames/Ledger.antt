-- ===== src/Frames/Ledger.antt =====
-- What a free list stands for: the frames of its segments, as a list whose order does not matter.
use mathlib.Core.List.{append_assoc, perm_append_comm}
use mathlib.Core.List.{Perm}
use mathlib.Core.List.Perm
use side_h_os.Base.{
  ℕ, zero, suc, ◌+◌, ◌*◌, ◌≤◌, ◌<◌, ◌≡◌, refl, ◌≢◌, List, [], ◌∷◌, ◌++◌, arith, ap, sym,
}
use mathlib.Core.Path.{ap₂, subst}
use native.Mathlib.Decide.{ℕ_discrete}
use native.Mathlib.Nat.{add-zero, add-suc}
use side_h_os.Base.Word.{u64_mod}
use side_h_os.Kernel.{size_4kb, Segment, FreeList, set_segment, replace}

-- The addresses of n frames from `base`, the last one first.
abbrev pub run : (base n : ℕ) → List ℕ
run base zero = []
run base (suc n) = (base + size_4kb * n) ∷ run base n

abbrev pub segment_run : Segment → List ℕ
segment_run s = run s.base s.length

abbrev pub frames_upto : (ℕ → Segment) → ℕ → List ℕ
frames_upto f zero = []
frames_upto f (suc n) = segment_run (f n) ++ frames_upto f n

abbrev pub frames : FreeList → List ℕ
frames l = frames_upto l.segments l.cursor

-- The segment, seen through the direct map at `offset`, ends inside the 64-bit address space.
abbrev pub Fits : ℕ → Segment → Type 0
Fits offset s = s.base + size_4kb * s.length + offset < u64_mod

-- The cursor is a byte, and every segment below it fits.
pub record IsWellFormed (offset : ℕ) (l : FreeList) : Type 0 where
  pub byte : l.cursor < 256
  pub fits : (i : ℕ) → i < l.cursor → Fits offset (l.segments i)

-- A segment below the cursor may be given anew.
pub set_segment-IsWellFormed :
    {offset : ℕ} {l : FreeList} (i : ℕ) (s : Segment)
    → IsWellFormed offset l
    → Fits offset s
    → IsWellFormed offset (set_segment i s l)
set_segment-IsWellFormed i s w f = record { byte = w.byte; fits = λ j h. ground (arith, w.fits j) }

pub frames_upto-agree :
    (f g : ℕ → Segment) (n : ℕ) → ((j : ℕ) → j < n → f j ≡ g j) → frames_upto f n ≡ frames_upto g n
frames_upto-agree f g zero same = refl
frames_upto-agree f g (suc n) same =
    ap₂ (λ s l. segment_run s ++ l) (same n (omega arith))
      (frames_upto-agree f g n λ j h. same j (omega arith))

-- Moves xs in front of zs.
pub perm_left : (xs ys zs : List ℕ) → Perm (zs ++ (xs ++ ys)) (xs ++ (zs ++ ys))
perm_left xs ys zs =
    rw (← append_assoc, ← append_assoc) (Perm.append_right ys (perm_append_comm zs xs))

frames_upto-perm_last :
    (f g : ℕ → Segment) (n : ℕ) (xs : List ℕ)
    → ((j : ℕ) → j < n → g j ≡ f j)
    → Perm (segment_run (g n)) (xs ++ segment_run (f n))
    → Perm (frames_upto g (suc n)) (xs ++ frames_upto f (suc n))
frames_upto-perm_last f g n xs same p =
    rw (frames_upto-agree g f n same, ← append_assoc xs (segment_run (f n)) (frames_upto f n))
      (Perm.append_right (frames_upto f n) p)

-- A change of the segment i that adds the frames xs adds xs to all frames.
pub frames_upto-perm :
    (f g : ℕ → Segment) (n i : ℕ) (xs : List ℕ)
    → i < n
    → ((j : ℕ) → j ≢ i → g j ≡ f j)
    → Perm (segment_run (g i)) (xs ++ segment_run (f i))
    → Perm (frames_upto g n) (xs ++ frames_upto f n)
frames_upto-perm f g zero i xs h same p = elim h [ ]
frames_upto-perm f g (suc n) i xs h same p = elim (ℕ_discrete i n) [
  | yes e ↦
      frames_upto-perm_last f g n xs (λ j l. same j (omega arith))
        (subst (λ j. Perm (segment_run (g j)) (xs ++ segment_run (f j))) e p)
  | no ne ↦ rw (same n (λ e. ne (sym e))) (
      Perm.trans
        (Perm.append_left (segment_run (f n)) (frames_upto-perm f g n i xs (omega arith) same p))
        (perm_left xs (frames_upto f n) (segment_run (f n))))
]

-- The same for a change that takes the frames xs away.
pub frames_upto-perm_out :
    (f g : ℕ → Segment) (n i : ℕ) (xs : List ℕ)
    → i < n
    → ((j : ℕ) → j ≢ i → g j ≡ f j)
    → Perm (segment_run (f i)) (xs ++ segment_run (g i))
    → Perm (frames_upto f n) (xs ++ frames_upto g n)
frames_upto-perm_out f g n i xs h same p = frames_upto-perm g f n i xs h (λ j ne. sym (same j ne)) p

-- A run of n frames is its last c and the frames before.
pub run-split : (base : ℕ) (c n : ℕ) → run base (n + c) ≡ run (base + size_4kb * n) c ++ run base n
run-split base zero n = rw add-zero
run-split base (suc c) n = rw add-suc (ap₂ ◌∷◌ (omega arith) (run-split base c n))

-- A frame in front of a run.
pub run-perm_front : (base n : ℕ) → Perm (run base (suc n)) (base ∷ run (base + size_4kb) n)
run-perm_front base zero = rw (zero_end base) (Perm.refl (base ∷ []))
  where
    zero_end : (b : ℕ) → b + size_4kb * 0 ≡ b
    zero_end b = omega arith
run-perm_front base (suc n) =
    let e : base + size_4kb * suc n ≡ base + size_4kb + size_4kb * n = omega arith in
    rw e (
      Perm.trans (Perm.cons _ (run-perm_front base n))
        (Perm.swap base (base + size_4kb + size_4kb * n) (run (base + size_4kb) n)))

-- No frame is left exactly where every segment is empty.
pub frames_upto-nil :
    (f : ℕ → Segment) (n : ℕ) → ((j : ℕ) → j < n → (f j).length ≡ 0) → frames_upto f n ≡ []
frames_upto-nil f zero empty = refl
frames_upto-nil f (suc n) empty =
    rw (segment_empty (f n) (empty n (omega arith)))
      (frames_upto-nil f n λ j h. empty j (omega arith))
  where
    segment_empty : (s : Segment) → s.length ≡ 0 → segment_run s ≡ []
    segment_empty s e = ap (run s.base) e

-- A segment with the property in front of segments that have it.
pub all_from :
    (P : Segment → Type 0) (f : ℕ → Segment) (n i : ℕ)
    → ((j : ℕ) → i + 1 ≤ j → j < i + 1 + n → P (f j))
    → P (f i)
    → (j : ℕ) → i ≤ j
    → j < i + suc n
    → P (f j)
all_from P f n i all here j l u = elim (ℕ_discrete i j) [
  | yes e ↦ subst (λ t. P (f t)) e here
  | no ne ↦ all j (omega arith) (omega arith)
]

pub replace_self {ℓ} : {A : Type ℓ} (f : ℕ → A) (i : ℕ) (a : A) → replace f i a i ≡ a
replace_self f i a = ground arith

pub run_one : (p : ℕ) → run p 1 ≡ p ∷ []
run_one p = ap (λ a. a ∷ []) (omega arith)
