-- ===== src/Frames/Taken.antt =====
-- What an allocation takes out of the free list (src/kernel.c): the last frames of one segment.
use mathlib.Core.List.{Perm}
use mathlib.Core.List.Perm
use mathlib.Core.Path.{subst}
use side_h_os.Base.{
  ℕ, zero, suc, ◌+◌, ◌-◌, ◌*◌, ◌≤◌, ◌<◌, ◌≡◌, refl, List, [], ◌∷◌, ◌++◌, arith, sym, ap, ◌∙◌,
  length,
}
use side_h_os.Base.Word.{add64, u64_mod}
use side_h_os.Bytes.Words.{Outside}
use side_h_os.Kernel.{size_4kb, Segment, FreeList, Kernel, set_segment, address_physical_to_virtual}
use side_h_os.Kernel.Returns.{Returns, returns}
use side_h_os.Frames.{take_frame, memory_nth_segment, take_frames}
use side_h_os.Kernel.Page
use side_h_os.Bytes.{load64}
use side_h_os.Frames.Fresh.{
  IsFreshPage, init_page-IsFreshPage, init_page-Outside, init_frames-size, init_frames-Outside,
}
use side_h_os.Frames.Ledger.{
  run, segment_run, frames, IsWellFormed, set_segment-IsWellFormed, frames_upto-perm_out, run-split,
  run_one, replace_self,
}

abbrev pub freelist_of : Kernel → FreeList
freelist_of k = k.memory.freelist

abbrev pub segment_of : Kernel → ℕ → Segment
segment_of k i = k.memory.freelist.segments i

-- stays well formed.
pub record Taken (xs : List ℕ) (k k' : Kernel) : Type 0 where
  pub ledger : Perm (frames (freelist_of k)) (xs ++ frames (freelist_of k'))
  pub formed : IsWellFormed k'.hhdm_offset (freelist_of k')
  pub offset : k'.hhdm_offset ≡ k.hhdm_offset
  pub cursor : (freelist_of k').cursor ≡ (freelist_of k).cursor
  pub cut : (j : ℕ) → (segment_of k j).length ≤ (segment_of k' j).length + length xs
  pub rest : k' ≡ record k { bytes = k'.bytes; memory = k'.memory; memory_lock = k'.memory_lock }

-- Memory outside the n bytes from the address a is what it was.
abbrev pub SameOutside : (a n : ℕ) → Kernel → Kernel → Type 0
SameOutside a n k k' = (q : ℕ) → Outside a n q → k'.bytes q ≡ k.bytes q

-- An allocation of one frame p: the frame, seen through the direct map, is a fresh heap page at the
-- head of the list of heap pages.
pub record NewPage (k : Kernel) (p : ℕ) (k' : Kernel) : Type 0 where
  pub taken : Taken (p ∷ []) k k'
  pub fresh : IsFreshPage k'.bytes (p + k.hhdm_offset) k.memory.heap_pages
  pub head : k'.memory.heap_pages ≡ p + k.hhdm_offset
  pub fits : p + k.hhdm_offset + size_4kb ≤ u64_mod
  pub same : SameOutside (p + k.hhdm_offset) size_4kb k k'

-- An allocation of the c frames from p, with the size of what lies behind their header.
pub record NewFrames (c : ℕ) (k : Kernel) (p : ℕ) (k' : Kernel) : Type 0 where
  pub taken : Taken (run p c) k k'
  pub size : load64 k'.bytes (add64 (p + k.hhdm_offset) Page.size) ≡ size_4kb * c - 40
  pub head : k'.memory.heap_pages ≡ k.memory.heap_pages
  pub fits : p + k.hhdm_offset + size_4kb * c < u64_mod
  pub same : SameOutside (p + k.hhdm_offset) (size_4kb * c) k k'

abbrev pub shorten : ℕ → ℕ → FreeList → FreeList
shorten i left l = set_segment i (record (l.segments i) { length = left }) l

-- No segment loses more than the frames that are given up.
shorten-cut :
    (l : FreeList) (i c : ℕ)
    → c ≤ (l.segments i).length
    → (j : ℕ)
    → (l.segments j).length ≤ ((shorten i ((l.segments i).length - c) l).segments j).length + c
shorten-cut l i c fit j = ground arith

pub length-run : (p c : ℕ) → length (run p c) ≡ c
length-run p zero = refl
length-run p (suc c) = omega (arith, length-run p c)

-- A segment gives up its last c frames, which begin at the address that memory_nth_segment computes.
module _ {offset : ℕ} {l : FreeList} (w : IsWellFormed offset l) (i c : ℕ) (h : i < l.cursor)
    (fit : c ≤ (l.segments i).length) where
  abbrev left : ℕ
  left = (l.segments i).length - c

  shorten-IsWellFormed : IsWellFormed offset (shorten i left l)
  shorten-IsWellFormed = set_segment-IsWellFormed i _ w (omega (arith, w.fits i h))

  nth-eq : memory_nth_segment (l.segments i) left ≡ (l.segments i).base + size_4kb * left
  unfolding memory_nth_segment
  nth-eq = omega (arith, w.fits i h)

  segment_run-split :
      segment_run (l.segments i)
      ≡ run (memory_nth_segment (l.segments i) left) c ++ run (l.segments i).base left
  segment_run-split =
      ap (run (l.segments i).base) (omega arith)
      ∙ run-split (l.segments i).base c left
      ∙ ap (λ a. run a c ++ run (l.segments i).base left) (sym nth-eq)

  shorten-perm :
      Perm (frames l) (run (memory_nth_segment (l.segments i) left) c ++ frames (shorten i left l))
  shorten-perm =
      frames_upto-perm_out l.segments (shorten i left l).segments l.cursor i _ h (ground arith)
        (rw (segment_run-split, replace_self l.segments i _) (Perm.refl _))

module _ (k : Kernel) (w : IsWellFormed k.hhdm_offset (freelist_of k)) (i : ℕ)
    (h : i < (freelist_of k).cursor) where
  abbrev nth : ℕ → ℕ
  nth c = memory_nth_segment (segment_of k i) ((segment_of k i).length - c)

  -- The frames that are taken, seen through the direct map, end inside the address space.
  virtual-eq :
      (c : ℕ)
      → c ≤ (segment_of k i).length
      → (address_physical_to_virtual k (nth c) ≡ nth c + k.hhdm_offset)
        × (nth c + k.hhdm_offset + size_4kb * c < u64_mod)
  unfolding address_physical_to_virtual
  virtual-eq c fit = omega (arith, nth-eq w i c h fit, w.fits i h)

  pub take_frame-NewPage :
      0 < (segment_of k i).length
      → k.memory.heap_pages < u64_mod
      → Returns (NewPage k) (take_frame i k)
  unfolding take_frame
  take_frame-NewPage pos small =
      let last = (segment_of k i).length - 1 in
      let (at, fits) = virtual-eq 1 pos in
      returns (record {
        taken = record {
          ledger =
              subst
                (λ xs.
                  Perm (frames (freelist_of k)) (xs ++ frames (shorten i last (freelist_of k))))
                (run_one (nth 1)) (shorten-perm w i 1 h pos);
          formed = shorten-IsWellFormed w i 1 h pos;
          offset = refl;
          cursor = refl;
          cut = shorten-cut (freelist_of k) i 1 pos;
          rest = refl;
        };
        fresh = rw at (init_page-IsFreshPage k.bytes _ _ (omega arith) small);
        head = at;
        fits = omega arith;
        same = rw at (init_page-Outside k.bytes _ _ (omega arith));
      })

  pub take_frames-NewFrames :
      (c : ℕ) → 0 < c → c ≤ (segment_of k i).length → Returns (NewFrames c k) (take_frames i c k)
  unfolding take_frames
  take_frames-NewFrames c pos fit =
      let (at, fits) = virtual-eq c fit in
      returns (record {
        taken = record {
          ledger = shorten-perm w i c h fit;
          formed = shorten-IsWellFormed w i c h fit;
          offset = refl;
          cursor = refl;
          cut = λ j. rw (length-run (nth c) c) (shorten-cut (freelist_of k) i c fit j);
          rest = refl;
        };
        size = rw at (init_frames-size k.bytes _ c pos (omega arith));
        head = refl;
        fits = fits;
        same = rw at (init_frames-Outside k.bytes _ c pos (omega arith));
      })
