-- ===== src/Frames/Cases.antt =====
-- Where the frame allocator of src/kernel.c goes astray: the free list outgrows its cursor, and a page
-- of the heap is given back as a frame.
use mathlib.Core.List.{Mem, mem-cons}
use mathlib.Core.List.Perm
use mathlib.Core.Logic.Or
use side_h_os.Base.{ℕ, ◌+◌, ◌<◌, ◌≡◌, refl, ◌≢◌, inl, inr, arith, true, false, ◌∙◌, ap}
use side_h_os.Base.Word.{u64_mod}
use side_h_os.Kernel.{size_4kb, Kernel, ok}
use side_h_os.Kernel.Returns.{Returns, returns, Returns-ok}
use side_h_os.Frames.{memory_allocate_frame, memory_free_frame}
use side_h_os.Frames.Ledger.{frames, IsWellFormed}
use side_h_os.Frames.Taken.{freelist_of, segment_of}
use side_h_os.Frames.Allocate.{memory_allocate_frame-cases}
use side_h_os.Frames.Pushed.{IsApart, pushed-frames}
use side_h_os.Frames.Free.{memory_free_frame-cases, memory_free_frame-apart}
use side_h_os.Frames.Ownership.{allocate_frame_blind}

true_not_false : true ≢ false
true_not_false e = cc

-- After memory_allocate_frame has returned p, a memory_free_frame of p that answers true leaves the page of p where it is in the list of heap pages, at the head, and puts p among the free frames.
pub freed_page_stays :
    (k k₁ k₂ : Kernel) (p : ℕ)
    → IsWellFormed k.hhdm_offset (freelist_of k)
    → (freelist_of k).cursor < 128
    → k.memory.heap_pages < u64_mod
    → p ≢ 0
    → p + size_4kb + k.hhdm_offset < u64_mod
    → memory_allocate_frame k ≡ ok p k₁
    → memory_free_frame p k₁ ≡ ok true k₂
    → (k₂.memory.heap_pages ≡ p + k.hhdm_offset) × Mem p (frames (freelist_of k₂))
freed_page_stays k k₁ k₂ p w few small ne room taken given =
    elim (Returns-ok p k₁ (memory_allocate_frame-cases k w few small) taken) [
      | inl new ↦
          let room₁ : p + size_4kb + k₁.hhdm_offset < u64_mod = rw new.taken.offset room in
          elim (Returns-ok true k₂ (memory_free_frame-cases k₁ new.taken.formed p room₁) given) [
            | inl freed ↦ (
              ap (λ (k : Kernel). k.memory.heap_pages) freed.1.rest ∙ new.head,
              (Perm.mem_iff freed.1.ledger).1 (mem-cons.1 (Or.inl refl)),
            )
            | inr refused ↦ absurd (true_not_false refused.0)
          ]
      | inr nothing ↦ absurd (ne nothing.1)
    ]

-- With 127 segments in use, memory_free_frame of a frame that is beside none of them answers true, and in the state that it leaves that frame is free, yet memory_allocate_frame answers 0 and takes nothing.
pub full_freelist_is_blind :
    (k : Kernel) (p : ℕ)
    → IsWellFormed k.hhdm_offset (freelist_of k)
    → (freelist_of k).cursor ≡ 127
    → p + size_4kb + k.hhdm_offset < u64_mod
    → ((j : ℕ) → j < 127 → IsApart p (segment_of k j))
    → Returns
        (λ done k'.
          (done ≡ true) × Mem p (frames (freelist_of k')) × (memory_allocate_frame k' ≡ ok 0 k'))
        (memory_free_frame p k)
full_freelist_is_blind k p w full room apart =
    rw (memory_free_frame-apart k w p room (omega arith) (λ j h. apart j (omega arith))) (
      returns (
        refl,
        rw (pushed-frames (freelist_of k) w p 1 (omega arith)) (mem-cons.1 (Or.inl (omega arith))),
        allocate_frame_blind _ (omega arith),
      ))
