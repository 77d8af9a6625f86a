-- ===== src/Frames/Free.antt =====
-- memory_free_frame and memory_free_frames (src/kernel.c).
use mathlib.Core.List.{Perm}
use mathlib.Core.List.Perm
use mathlib.Core.Path.{subst}
use side_h_os.Base.{
  ℕ, ◌+◌, ◌*◌, ◌≤◌, ◌<◌, ◌≡◌, refl, ◌⊎◌, inl, inr, [], ◌∷◌, arith, Bool, true, false, Bool-cases,
  ==_iff, lt→ltb, ◌∙◌, ◌==◌,
}
use side_h_os.Base.Word.{u64_mod}
use side_h_os.Kernel.{size_4kb, uint8_max, Segment, Kernel, ok, set_segment, with_freelist}
use side_h_os.Kernel.Returns
use side_h_os.Kernel.Returns.{Returns, returns}
use side_h_os.Frames.{push_segment, free_frame_loop, memory_free_frame, memory_free_frames}
use side_h_os.Frames.Ledger.{run, frames, Fits, IsWellFormed, set_segment-IsWellFormed, run_one}
use side_h_os.Frames.Taken.{freelist_of, segment_of}
use side_h_os.Frames.Pushed.{
  Given, pushed, put_segment, IsFar, free_frame_loop-cases, grown-perm, grown-Fits, grown_down-perm,
  grown_down-Fits, pushed-frames, pushed-IsWellFormed, IsApart, IsFar-IsApart, IsApart-not_end,
  IsApart-not_start,
}

module _ (k : Kernel) (w : IsWellFormed k.hhdm_offset (freelist_of k)) (physical : ℕ) where
  push_segment-Given :
      (n : ℕ)
      → (freelist_of k).cursor < 255
      → physical + size_4kb * n + k.hhdm_offset < u64_mod
      → Returns
          (λ _ k'. Given (run physical n) k k')
          (push_segment (record { base = physical; length = n }) k)
  unfolding push_segment
  push_segment-Given n below fits = rw (lt→ltb _ _ below) (
      returns (record {
        ledger = rw (pushed-frames (freelist_of k) w physical n below) (Perm.refl _);
        formed = pushed-IsWellFormed (freelist_of k) w physical n below fits;
        rest = refl;
      }))

  put-Given :
      (j : ℕ)
      → j < (freelist_of k).cursor
      → (s : Segment)
      → Perm (frames (set_segment j s (freelist_of k))) (physical ∷ frames (freelist_of k))
      → Fits k.hhdm_offset s
      → Given (physical ∷ []) k (put_segment j s k)
  put-Given j h s perm fits = record {
    ledger = perm;
    formed = set_segment-IsWellFormed j s w fits;
    rest = refl;
  }

  abbrev Freed : Bool → Kernel → Type 0
  Freed done k' =
      ((done ≡ true) × Given (physical ∷ []) k k')
      ⊎ ((done ≡ false)
          × (k' ≡ k)
          × ((freelist_of k).cursor ≡ 255)
          × ((j : ℕ) → j < 255 → IsApart physical (segment_of k j)))

  last_round :
      physical + size_4kb + k.hhdm_offset < u64_mod
      → ((j : ℕ) → 0 ≤ j → j < 0 + (freelist_of k).cursor → IsFar physical (segment_of k j))
      → Returns Freed (free_frame_loop physical 0 0 k)
  unfolding free_frame_loop
  last_round room far = elim (Bool-cases ((freelist_of k).cursor == uint8_max)) [
    | inl full ↦
        let all : (freelist_of k).cursor ≡ 255 = (==_iff _ _).0 full in
        rw full (
          returns (
            inr (
              refl,
              refl,
              all,
              λ j h.
                  IsFar-IsApart k.hhdm_offset physical (segment_of k j) (w.fits j (omega arith))
                    room (far j (omega arith) (omega arith)),
            )))
    | inr free ↦ rw free (
        Returns.bind (push_segment-Given 1 (ground (arith, w.byte)) (omega arith))
          λ _ k' given. returns (inl (refl, subst (λ xs. Given xs k k') (run_one physical) given)))
  ]

  -- On a well-formed free list, memory_free_frame of a frame whose end the address space can hold returns. Either it answers true, and the free list gains that frame and no other and stays well formed; or it answers false, nothing changes, and all 255 segments are in use, none of which ends or begins beside the frame.
  pub memory_free_frame-cases :
      physical + size_4kb + k.hhdm_offset < u64_mod
      → Returns
          (λ done k'.
            ((done ≡ true) × Given (physical ∷ []) k k')
            ⊎ ((done ≡ false)
                × (k' ≡ k)
                × ((freelist_of k).cursor ≡ 255)
                × ((j : ℕ) → j < 255 → IsApart physical (segment_of k j))))
          (memory_free_frame physical k)
  unfolding memory_free_frame
  memory_free_frame-cases room = elim (free_frame_loop-cases physical (freelist_of k).cursor 0 k) [
    | inl (j, lt, at_end, e) ↦ rw e (
        returns (
          inl (
            refl,
            put-Given j (omega arith) _
                (grown-perm (freelist_of k) w physical room j (omega arith) at_end)
                (grown-Fits (freelist_of k) w physical room j (omega arith) at_end),
          )))
    | inr (inl (j, lt, at_start, e)) ↦ rw e (
        returns (
          inl (
            refl,
            put-Given j (omega arith) _
                (grown_down-perm (freelist_of k) w physical room j (omega arith) at_start)
                (grown_down-Fits (freelist_of k) w physical room j (omega arith) at_start),
          )))
    | inr (inr (far, e)) ↦ rw e (last_round room far)
  ]

  -- On a well-formed free list of fewer than 255 segments, memory_free_frames of n frames whose end the address space can hold returns true, and the free list gains these frames and no others and stays well formed.
  pub memory_free_frames-Given :
      (n : ℕ)
      → (freelist_of k).cursor < 255
      → physical + size_4kb * n + k.hhdm_offset < u64_mod
      → Returns
          (λ done k'. (done ≡ true) × Given (run physical n) k k')
          (memory_free_frames physical n k)
  unfolding memory_free_frames
  memory_free_frames-Given n below fits =
      Returns.bind (push_segment-Given n below fits) (λ _ k' given. returns (refl, given))

  -- A frame apart from every segment takes a segment of its own, at the cursor.
  pub memory_free_frame-apart :
      physical + size_4kb + k.hhdm_offset < u64_mod
      → (freelist_of k).cursor < 255
      → ((j : ℕ) → j < (freelist_of k).cursor → IsApart physical (segment_of k j))
      → memory_free_frame physical k ≡ ok true (with_freelist (pushed physical 1) k)
  unfolding memory_free_frame free_frame_loop push_segment
  memory_free_frame-apart room below apart =
      elim (free_frame_loop-cases physical (freelist_of k).cursor 0 k) [
        | inl (j, lt, e, _) ↦
            absurd (IsApart-not_end _ physical _ (w.fits j (omega arith)) (apart j (omega arith)) e)
        | inr (inl (j, lt, e, _)) ↦
            absurd (IsApart-not_start k.hhdm_offset physical _ room (apart j (omega arith)) e)
        | inr (inr (far, e)) ↦ e ∙ ground arith
      ]
