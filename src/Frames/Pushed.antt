-- ===== src/Frames/Pushed.antt =====
-- How the free list grows by a frame or a segment (src/kernel.c): at one end of a segment, or by a
-- new one.
use mathlib.Core.List.{Perm}
use mathlib.Core.List.Perm
use mathlib.Core.Path.{subst, ap₂}
use side_h_os.Base.{
  ℕ, zero, suc, ◌+◌, ◌*◌, ◌%◌, ◌≤◌, ◌<◌, ◌≡◌, refl, ◌≢◌, ◌⊎◌, inl, inr, List, [], ◌∷◌, ◌++◌, arith,
  true, false, Bool-cases, ==_iff, sym, ap, ◌∙◌, ◌||◌,
}
use side_h_os.Base.Word.{add64, u64_mod}
use side_h_os.Kernel.{size_4kb, Segment, FreeList, Kernel, ok, set_segment, with_freelist}
use side_h_os.Frames.{end_adjacent, start_adjacent, free_frame_loop}
use side_h_os.Frames.Ledger.{
  run, segment_run, frames, frames_upto, frames_upto-agree, Fits, IsWellFormed, frames_upto-perm,
  run-perm_front, replace_self, all_from,
}
use side_h_os.Frames.Taken.{freelist_of, segment_of}

-- What a release of the frames xs does: the free list gains these frames and no others and stays well
-- formed, and nothing else of the kernel changes.
pub record Given (xs : List ℕ) (k k' : Kernel) : Type 0 where
  pub ledger : Perm (frames (freelist_of k')) (xs ++ frames (freelist_of k))
  pub formed : IsWellFormed k'.hhdm_offset (freelist_of k')
  pub rest : k' ≡ with_freelist (λ _. freelist_of k') k

abbrev grown : Segment → Segment
grown s = record s { length = add64 s.length 1 }

abbrev grown_down : ℕ → Segment → Segment
grown_down physical s = record { base = physical; length = add64 s.length 1 }

-- The free list with a segment of n frames at the cursor.
abbrev pub pushed : (physical n : ℕ) → FreeList → FreeList
pushed physical n l = record (set_segment l.cursor (record { base = physical; length = n }) l) {
  cursor = (l.cursor + 1) % 256;
}

abbrev pub put_segment : ℕ → Segment → Kernel → Kernel
put_segment i s k = with_freelist (set_segment i s) k

module _ (physical : ℕ) where
  abbrev pub IsFar : Segment → Type 0
  IsFar s = (end_adjacent physical s || start_adjacent physical s) ≡ false

  -- The loop grows the first adjacent segment, or none is adjacent.
  pub free_frame_loop-cases :
      (n i : ℕ) (k : Kernel)
      → ((j : ℕ) × (j < i + n)
          × (end_adjacent physical (segment_of k j) ≡ true)
          × (free_frame_loop physical i n k ≡ ok true (put_segment j (grown (segment_of k j)) k)))
        ⊎ ((j : ℕ) × (j < i + n)
            × (start_adjacent physical (segment_of k j) ≡ true)
            × (free_frame_loop physical i n k
                ≡ ok true (put_segment j (grown_down physical (segment_of k j)) k)))
        ⊎ (((j : ℕ) → i ≤ j → j < i + n → IsFar (segment_of k j))
            × (free_frame_loop physical i n k ≡ free_frame_loop physical 0 0 k))
  unfolding free_frame_loop
  free_frame_loop-cases zero i k = inr (inr (λ j l u. absurd (omega arith), refl))
  free_frame_loop-cases (suc n) i k = elim (Bool-cases (end_adjacent physical (segment_of k i))) [
    | inl at_end ↦ inl (i, omega arith, at_end, rw at_end)
    | inr off_end ↦ elim (Bool-cases (start_adjacent physical (segment_of k i))) [
      | inl at_start ↦ inr (inl (i, omega arith, at_start, rw (off_end, at_start)))
      | inr off_start ↦ elim (free_frame_loop-cases n (i + 1) k) [
        | inl (j, lt, e, r) ↦ inl (j, omega arith, e, rw (off_end, off_start) r)
        | inr (inl (j, lt, e, r)) ↦ inr (inl (j, omega arith, e, rw (off_end, off_start) r))
        | inr (inr (far, r)) ↦ inr (
            inr (
              all_from IsFar (segment_of k) n i far (rw (off_end, off_start)),
              rw (off_end, off_start) r,
            ))
      ]
    ]
  ]

module _ {offset : ℕ} (l : FreeList) (w : IsWellFormed offset l) (physical : ℕ) where
  module _ (room : physical + size_4kb + offset < u64_mod) (i : ℕ) (h : i < l.cursor) where
    one_more : add64 (l.segments i).length 1 ≡ suc (l.segments i).length
    one_more = omega (arith, w.fits i h)

    grown-run :
        end_adjacent physical (l.segments i) ≡ true
        → segment_run (grown (l.segments i)) ≡ physical ∷ segment_run (l.segments i)
    grown-run at_end =
        ap (run (l.segments i).base) one_more
        ∙ ap (λ a. a ∷ segment_run (l.segments i))
            (omega (arith, w.fits i h, (==_iff _ _).0 at_end))

    grown_down-run :
        start_adjacent physical (l.segments i) ≡ true
        → Perm
            (segment_run (grown_down physical (l.segments i)))
            (physical ∷ segment_run (l.segments i))
    grown_down-run at_start =
        let base : (l.segments i).base ≡ physical + size_4kb =
          omega (arith, w.fits i h, (==_iff _ _).0 at_start) in
        rw one_more (
          subst
            (λ b.
              Perm (run physical (suc (l.segments i).length))
                (physical ∷ run b (l.segments i).length))
            (sym base) (run-perm_front physical (l.segments i).length))

    pub grown-perm :
        end_adjacent physical (l.segments i) ≡ true
        → Perm (frames (set_segment i (grown (l.segments i)) l)) (physical ∷ frames l)
    grown-perm at_end =
        frames_upto-perm l.segments _ l.cursor i (physical ∷ []) h (ground arith)
          (rw (replace_self l.segments i (grown (l.segments i)), grown-run at_end) (Perm.refl _))

    pub grown-Fits :
        end_adjacent physical (l.segments i) ≡ true → Fits offset (grown (l.segments i))
    grown-Fits at_end = omega (arith, w.fits i h, (==_iff _ _).0 at_end)

    pub grown_down-perm :
        start_adjacent physical (l.segments i) ≡ true
        → Perm (frames (set_segment i (grown_down physical (l.segments i)) l)) (physical ∷ frames l)
    grown_down-perm at_start =
        frames_upto-perm l.segments _ l.cursor i (physical ∷ []) h (ground arith) (
          rw (replace_self l.segments i (grown_down physical (l.segments i)))
            (grown_down-run at_start))

    pub grown_down-Fits :
        start_adjacent physical (l.segments i) ≡ true
        → Fits offset (grown_down physical (l.segments i))
    grown_down-Fits at_start = omega (arith, w.fits i h, (==_iff _ _).0 at_start)

  -- A new segment at the cursor.
  module _ (n : ℕ) (below : l.cursor < 255) where
    next_cursor : (l.cursor + 1) % 256 ≡ suc l.cursor
    next_cursor = omega arith

    pub pushed-frames : frames (pushed physical n l) ≡ run physical n ++ frames l
    pushed-frames =
        ap (frames_upto (pushed physical n l).segments) next_cursor
        ∙ ap₂ (λ t xs. segment_run t ++ xs) (replace_self l.segments l.cursor _)
            (frames_upto-agree (pushed physical n l).segments l.segments l.cursor
              (λ j h. ground arith))

    pub pushed-IsWellFormed :
        physical + size_4kb * n + offset < u64_mod → IsWellFormed offset (pushed physical n l)
    pushed-IsWellFormed fits = record { byte = omega arith; fits = λ j h. ground (arith, w.fits j) }

-- The frame neither follows the segment at once nor stands right before it.
abbrev pub IsApart : ℕ → Segment → Type 0
IsApart physical s = (s.base + size_4kb * s.length ≢ physical) × (physical + size_4kb ≢ s.base)

pub IsFar-IsApart :
    (offset physical : ℕ) (s : Segment)
    → Fits offset s
    → physical + size_4kb + offset < u64_mod
    → IsFar physical s
    → IsApart physical s
IsFar-IsApart offset physical s fits room far = (λ e. ground arith, λ e. ground arith)

pub IsApart-not_end :
    (offset physical : ℕ) (s : Segment)
    → Fits offset s
    → IsApart physical s
    → end_adjacent physical s ≢ true
IsApart-not_end offset physical s fits apart e = apart.0 (omega (arith, (==_iff _ _).0 e))

pub IsApart-not_start :
    (offset physical : ℕ) (s : Segment)
    → physical + size_4kb + offset < u64_mod
    → IsApart physical s
    → start_adjacent physical s ≢ true
IsApart-not_start offset physical s room apart e = apart.1 (omega (arith, (==_iff _ _).0 e))
