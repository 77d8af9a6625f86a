-- ===== src/Heap/Runs.antt =====
-- Runs of frames (src/kernel.c, memory_allocate_frames) against the pages of the heap and against other
-- frames.
use mathlib.Core.List.{Mem, mem-cons}
use mathlib.Core.Logic.Or
use native.Mathlib.Decide.{ℕ_discrete}
use side_h_os.Base.{
  ℕ, zero, suc, ◌+◌, ◌*◌, ◌%◌, ◌≤◌, ◌<◌, ◌≡◌, ◌≢◌, refl, ◌⊎◌, List, [], ◌∷◌, arith, ap,
}
use side_h_os.Frames.Ledger.{run}
use side_h_os.Heap.Pages.{HeapPage, FarRange, FarFrom}

FarRange-part :
    (a n b m : ℕ) (ps : List HeapPage) → FarRange a n ps → a ≤ b → b + m ≤ a + n → FarRange b m ps
FarRange-part a n b m [] far lo hi = tt
FarRange-part a n b m (q ∷ ps) far lo hi =
    (omega (arith, far.0), FarRange-part a n b m ps far.1 lo hi)

FarRange-join :
    (a n : ℕ) (ps : List HeapPage)
    → FarRange a n ps
    → FarFrom (a + n) ps
    → 4096 ≤ n
    → FarRange a (n + 4096) ps
FarRange-join a n [] far last long = tt
FarRange-join a n (q ∷ ps) far last long =
    (omega (arith, far.0, last.0), FarRange-join a n ps far.1 last.1 long)

-- A run of frames, none of which is a page of the heap.
pub FarRange-run :
    (offset p n : ℕ) (ps : List HeapPage)
    → ((r : ℕ) → Mem r (run p (suc n)) → FarFrom (r + offset) ps)
    → FarRange (p + offset) (4096 * suc n) ps
FarRange-run offset p zero ps far =
    FarRange-part _ 4096 (p + offset) (4096 * 1) ps (far (p + 4096 * 0) (mem-cons.1 (Or.inl refl)))
      (omega arith) (omega arith)
FarRange-run offset p (suc n) ps far =
    let before = FarRange-run offset p n ps (λ r m. far r (mem-cons.1 (Or.inr m))) in
    let last = far (p + 4096 * suc n) (mem-cons.1 (Or.inl refl)) in
    FarRange-part (p + offset) (4096 * suc n + 4096) (p + offset) (4096 * suc (suc n)) ps
      (FarRange-join (p + offset) (4096 * suc n) ps before
        (FarRange-part _ 4096 (p + offset + 4096 * suc n) 4096 ps last (omega arith) (omega arith))
        (omega arith))
      (omega arith) (omega arith)

-- A page that is no frame of the run does not overlap it.
pub run-Apart :
    (p n r : ℕ)
    → p % 4096 ≡ 0
    → r % 4096 ≡ 0
    → ¬ Mem r (run p n)
    → (r + 4096 ≤ p) ⊎ (p + 4096 * n ≤ r)
run-Apart p zero r e f out = omega arith
run-Apart p (suc n) r e f out =
    let before = run-Apart p n r e f (λ m. out (mem-cons.1 (Or.inr m))) in
    let last : r ≢ p + 4096 * n = λ e. out (mem-cons.1 (Or.inl e)) in omega (arith, before, last)

pub run-at : (p n j : ℕ) → j < n → Mem (p + 4096 * j) (run p n)
run-at p zero j h = elim h [ ]
run-at p (suc n) j h = elim (ℕ_discrete j n) [
  | yes last ↦ mem-cons.1 (Or.inl (ap (λ i. p + 4096 * i) last))
  | no other ↦ mem-cons.1 (Or.inr (run-at p n j (omega (arith, other))))
]
