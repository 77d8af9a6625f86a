-- ===== src/Frames/Tests.antt =====
-- The frame allocator of src/kernel.c at a small memory, and its theorems there.
use mathlib.Core.List.{Mem, mem-cons, not-mem-nil}
use mathlib.Core.List.Perm
use mathlib.Core.Logic.Or
use native.Mathlib.Bridge.{le_prop}
use side_h_os.Base.{ℕ, ◌+◌, ◌*◌, ◌^◌, ◌<◌, ◌≡◌, refl, ◌⊎◌, [], ◌∷◌, arith, true, false}
use side_h_os.Base.Word.{u64_mod}
use side_h_os.Kernel.{FreeList, Kernel, Run, ok, initial, size_4kb, address_physical_to_virtual}
use side_h_os.Kernel.Returns.{Returns}
use side_h_os.Frames.{memory_allocate_frame, memory_allocate_frames, memory_free_frame}
use side_h_os.Frames.Ledger.{frames, IsWellFormed}
use side_h_os.Frames.Taken.{freelist_of, NewPage, NewFrames}
use side_h_os.Frames.Allocate.{memory_allocate_frame-cases, memory_allocate_frames-cases}
use side_h_os.Frames.Pushed.{Given, IsApart}
use side_h_os.Frames.Free.{memory_free_frame-cases}
use side_h_os.Frames.Ownership.{Inv, here, next, take_one, give_one, Reach-Inv}
use side_h_os.Frames.Cases.{freed_page_stays, full_freelist_is_blind}

-- One segment of three frames from 1 MB, and the direct map at 2 ^ 47.
abbrev low : FreeList
low = record { segments = λ _. record { base = 0x10_0000; length = 3 }; cursor = 1 }

abbrev machine : FreeList → Kernel
machine l = record (initial (λ _. 0)) {
  memory = record { freelist = l; heap_pages = 0 };
  hhdm_offset = 2 ^ 47;
}

low-IsWellFormed : IsWellFormed (2 ^ 47) low
low-IsWellFormed = record { byte = omega arith; fits = λ i h. omega arith }

frames_low : frames low ≡ 0x10_2000 ∷ 0x10_1000 ∷ 0x10_0000 ∷ []
frames_low = refl

memory_allocate_frame-cases_example :
    Returns
      (λ p k'. NewPage (machine low) p k' ⊎ ((frames low ≡ []) × (p ≡ 0) × (k' ≡ machine low)))
      (memory_allocate_frame (machine low))
memory_allocate_frame-cases_example =
    memory_allocate_frame-cases (machine low) low-IsWellFormed (omega arith) (omega arith)

memory_allocate_frames-cases_example :
    Returns
      (λ p k'.
        NewFrames 2 (machine low) p k' ⊎ (((j : ℕ) → j < 1 → 3 < 2) × (p ≡ 0) × (k' ≡ machine low)))
      (memory_allocate_frames 2 (machine low))
memory_allocate_frames-cases_example =
    memory_allocate_frames-cases (machine low) low-IsWellFormed (omega arith) 2 (omega arith)

memory_free_frame-cases_example :
    Returns
      (λ done k'.
        ((done ≡ true) × Given (0x10_3000 ∷ []) (machine low) k')
        ⊎ ((done ≡ false)
            × (k' ≡ machine low)
            × (low.cursor ≡ 255)
            × ((j : ℕ) → j < 255 → IsApart 0x10_3000 (low.segments j))))
      (memory_free_frame 0x10_3000 (machine low))
memory_free_frame-cases_example =
    memory_free_frame-cases (machine low) low-IsWellFormed 0x10_3000 (omega arith)

-- 127 segments of one frame each, with a frame between each two.
abbrev scattered : FreeList
scattered = record {
  segments = λ i. record { base = 0x10_0000 + 0x2000 * i; length = 1 };
  cursor = 127;
}

full_freelist_is_blind_example :
    Returns
      (λ done k'.
        (done ≡ true)
        × Mem 0x80_0000 (frames (freelist_of k'))
        × (memory_allocate_frame k' ≡ ok 0 k'))
      (memory_free_frame 0x80_0000 (machine scattered))
full_freelist_is_blind_example =
    full_freelist_is_blind (machine scattered) 0x80_0000
      (record { byte = omega arith; fits = λ i h. omega arith }) refl (omega arith)
      (λ j h. (λ e. omega arith, λ e. omega arith))

-- The states after a frame was taken, and after it was given back.
abbrev state_of : {A : Type 0} → Run A → Kernel → Kernel
state_of (ok a k) d = k
state_of _ d = d

abbrev after_take : Kernel
after_take = state_of (memory_allocate_frame (machine low)) (machine low)

abbrev after_give : Kernel
after_give = state_of (memory_free_frame 0x10_2000 after_take) after_take

takes : memory_allocate_frame (machine low) ≡ ok 0x10_2000 after_take
unfolding memory_allocate_frame address_physical_to_virtual
takes = refl

gives : memory_free_frame 0x10_2000 after_take ≡ ok true after_give
unfolding memory_allocate_frame memory_free_frame address_physical_to_virtual
gives = refl

freed_page_stays_example :
    (after_give.memory.heap_pages ≡ 0x10_2000 + 2 ^ 47)
    × Mem 0x10_2000 (frames (freelist_of after_give))
freed_page_stays_example =
    freed_page_stays (machine low) after_take after_give 0x10_2000 low-IsWellFormed (omega arith)
      (omega arith) (omega arith) (omega arith) takes gives

low-room : (p : ℕ) → Mem p (frames low) → p + size_4kb + 2 ^ 47 < u64_mod
low-room p m =
    Or.elim le_prop (mem-cons.0 m) (λ e. omega arith)
      λ m.
        Or.elim le_prop (mem-cons.0 m) (λ e. omega arith)
          λ m. Or.elim le_prop (mem-cons.0 m) (λ e. omega arith) λ m. absurd (not-mem-nil m)

Reach-Inv_example : Inv (frames low) after_give []
Reach-Inv_example =
    Reach-Inv {k = machine low} {held = []}
      (record {
        formed = low-IsWellFormed;
        small = omega arith;
        ledger = Perm.refl (frames low);
        room = low-room;
      })
      (next (next here (take_one takes (omega arith)))
        (give_one 0x10_2000 gives (Perm.refl (0x10_2000 ∷ []))))
