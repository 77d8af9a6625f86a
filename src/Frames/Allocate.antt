-- ===== src/Frames/Allocate.antt =====
-- memory_allocate_frame and memory_allocate_frames (src/kernel.c): what they take out of the free
-- list, what they write, and what they answer when no segment is long enough.
use side_h_os.Base.{
  ℕ, zero, suc, ◌+◌, ◌≤◌, ◌<◌, ◌≡◌, refl, ◌⊎◌, inl, inr, [], arith, ltb, Bool-cases, ltb→lt, ltb→le,
}
use side_h_os.Base.Word.{u64_mod}
use side_h_os.Kernel.{Kernel, ok}
use side_h_os.Kernel.Returns
use side_h_os.Kernel.Returns.{Returns, returns}
use side_h_os.Frames.{
  take_frame, allocate_frame_loop, memory_allocate_frame, take_frames, allocate_frames_loop,
  memory_allocate_frames, visible,
}
use side_h_os.Frames.Ledger.{frames, IsWellFormed, frames_upto-nil, all_from}
use side_h_os.Frames.Taken.{
  freelist_of, segment_of, NewPage, NewFrames, take_frame-NewPage, take_frames-NewFrames,
}

-- The loop finds the first segment with a frame, or none has one.
allocate_frame_loop-cases :
    (n i : ℕ) (k : Kernel)
    → (((j : ℕ) → i ≤ j → j < i + n → (segment_of k j).length < 1)
        × (allocate_frame_loop i n k ≡ ok 0 k))
      ⊎ ((j : ℕ) × (j < i + n)
          × (0 < (segment_of k j).length)
          × (allocate_frame_loop i n k ≡ take_frame j k))
unfolding allocate_frame_loop
allocate_frame_loop-cases zero i k = inl (λ j l u. absurd (omega arith), refl)
allocate_frame_loop-cases (suc n) i k = elim (Bool-cases (ltb 0 (segment_of k i).length)) [
  | inl hit ↦ inr (i, omega arith, ltb→lt _ _ hit, rw hit)
  | inr miss ↦ elim (allocate_frame_loop-cases n (i + 1) k) [
    | inl (empty, e) ↦ inl (
      all_from (λ s. s.length < 1) (segment_of k) n i empty (omega (arith, ltb→le _ _ miss)),
      rw miss e,
    )
    | inr (j, lt, pos, e) ↦ inr (j, omega arith, pos, rw miss e)
  ]
]

-- What an allocation of the frames xs does to the free list: it loses these frames, no others, and
visible-eq : (c : ℕ) → c < 128 → visible c ≡ c
visible-eq c h = ground arith

-- The loop finds the first segment with c frames, or none has so many.
allocate_frames_loop-cases :
    (c n i : ℕ) (k : Kernel)
    → (((j : ℕ) → i ≤ j → j < i + n → (segment_of k j).length < c)
        × (allocate_frames_loop c i n k ≡ ok 0 k))
      ⊎ ((j : ℕ) × (j < i + n)
          × (c ≤ (segment_of k j).length)
          × (allocate_frames_loop c i n k ≡ take_frames j c k))
unfolding allocate_frames_loop
allocate_frames_loop-cases c zero i k = inl (λ j l u. absurd (omega arith), refl)
allocate_frames_loop-cases c (suc n) i k = elim (Bool-cases (ltb (segment_of k i).length c)) [
  | inl short ↦ elim (allocate_frames_loop-cases c n (i + 1) k) [
    | inl (all, e) ↦
        inl (all_from (λ s. s.length < c) (segment_of k) n i all (ltb→lt _ _ short), rw short e)
    | inr (j, lt, fit, e) ↦ inr (j, omega arith, fit, rw short e)
  ]
  | inr fits ↦ inr (i, omega arith, ltb→le _ _ fits, rw fits)
]

no_frames :
    (k : Kernel)
    → ((j : ℕ) → 0 ≤ j → j < 0 + (freelist_of k).cursor → (segment_of k j).length < 1)
    → frames (freelist_of k) ≡ []
no_frames k empty =
    frames_upto-nil (segment_of k) (freelist_of k).cursor
      (λ j h. omega (arith, empty j (omega arith) (omega arith)))

module _ (k : Kernel) (w : IsWellFormed k.hhdm_offset (freelist_of k))
    (few : (freelist_of k).cursor < 128) where
  -- On a well-formed free list of fewer than 128 segments memory_allocate_frame returns. Either the free list loses one frame p and no other and stays well formed, p as the direct map shows it becomes a fresh page at the head of the heap pages, with one free node that is all of the page behind the header, and no other memory changes; or no frame is free, and it returns 0 and changes nothing.
  pub memory_allocate_frame-cases :
      k.memory.heap_pages < u64_mod
      → Returns
          (λ p k'. NewPage k p k' ⊎ ((frames (freelist_of k) ≡ []) × (p ≡ 0) × (k' ≡ k)))
          (memory_allocate_frame k)
  unfolding memory_allocate_frame
  memory_allocate_frame-cases small =
      rw (visible-eq (freelist_of k).cursor few)
        (elim (allocate_frame_loop-cases (freelist_of k).cursor 0 k) [
          | inl (empty, e) ↦ rw e (returns (inr (no_frames k empty, refl, refl)))
          | inr (j, lt, pos, e) ↦
              rw e
                (Returns.mono (take_frame-NewPage k w j (omega arith) pos small) (λ p k' t. inl t))
        ])

  -- On a well-formed free list of fewer than 128 segments memory_allocate_frames(c), with c at least 1, returns. Either the free list loses the c consecutive frames from its result p and no others and stays well formed, the word behind the header of p says 4096 * c - 40, the list of heap pages is what it was, and no memory outside these frames changes; or every segment has fewer than c frames, and it returns 0 and changes nothing.
  pub memory_allocate_frames-cases :
      (c : ℕ)
      → 0 < c
      → Returns
          (λ p k'.
            NewFrames c k p k'
            ⊎ (((j : ℕ) → j < (freelist_of k).cursor → (segment_of k j).length < c)
                × (p ≡ 0)
                × (k' ≡ k)))
          (memory_allocate_frames c k)
  unfolding memory_allocate_frames
  memory_allocate_frames-cases c pos =
      rw (visible-eq (freelist_of k).cursor few)
        (elim (allocate_frames_loop-cases c (freelist_of k).cursor 0 k) [
          | inl (short, e) ↦
              rw e (returns (inr (λ j h. short j (omega arith) (omega arith), refl, refl)))
          | inr (j, lt, fit, e) ↦
              rw e (
                Returns.mono (take_frames-NewFrames k w j (omega arith) c pos fit)
                  (λ p k' t. inl t))
        ])
