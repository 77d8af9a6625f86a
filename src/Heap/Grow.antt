-- ===== src/Heap/Grow.antt =====
-- The page that the heap gets where no page serves (src/kernel.c, kmalloc): a frame of the free list.
use mathlib.Core.List.{Mem, mem-cons}
use mathlib.Core.Logic.Or
use mathlib.Core.List.Perm
use side_h_os.Base.{ℕ, ◌+◌, ◌<◌, ◌≡◌, ◌≢◌, refl, inl, inr, List, [], ◌∷◌, arith, ap, ◌∙◌, sym}
use side_h_os.Base.Word.{add64, u64_mod}
use side_h_os.Bytes.{Bytes, load64}
use side_h_os.Kernel.{Ptr, Kernel}
use side_h_os.Kernel.Returns
use side_h_os.Kernel.Returns.{Returns, returns}
use side_h_os.Frames.{memory_allocate_frame}
use side_h_os.Frames.Ledger.{frames, IsWellFormed}
use side_h_os.Frames.Taken.{NewPage, freelist_of}
use side_h_os.Frames.Allocate.{memory_allocate_frame-cases}
use side_h_os.Heap.Pages.{HeapPage, IsSound, Pages, FarFrom, Pages-FarRange}
use side_h_os.Heap.Blocks.{IsHeap}

-- The free list has a frame, and its frames, seen through the direct map, are not pages of the heap.
pub record Spare (k : Kernel) (ps : List HeapPage) : Type 0 where
  pub formed : IsWellFormed k.hhdm_offset (freelist_of k)
  pub few : (freelist_of k).cursor < 128
  pub frame : frames (freelist_of k) ≢ []
  pub far :
      (p : ℕ)
      → Mem p (frames (freelist_of k))
      → (0 < p + k.hhdm_offset)
        × (p + k.hhdm_offset + 4096 < u64_mod)
        × FarFrom (p + k.hhdm_offset) ps

-- The page that the frame p becomes.
abbrev pub fresh_page : Kernel → ℕ → HeapPage
fresh_page k p = (p + k.hhdm_offset, (p + k.hhdm_offset + 32, 4048) ∷ [])

module _ (k : Kernel) (p : ℕ) (k₀ : Kernel) (new : NewPage k p k₀) where
  abbrev virtual : Ptr
  virtual = p + k.hhdm_offset

  NewPage-IsSound :
      0 < virtual → virtual + 4096 < u64_mod → IsSound k₀.bytes virtual ((virtual + 32, 4048) ∷ [])
  NewPage-IsSound pos top =
      let node : add64 virtual 32 ≡ virtual + 32 = omega arith in
      record {
        is_page = record {
          linked = (
            new.fresh.freelist ∙ node,
            ap (λ a. load64 k₀.bytes a) (sym node) ∙ new.fresh.node_length,
            ap (λ a. load64 k₀.bytes (add64 a 8)) (sym node) ∙ new.fresh.node_next,
          );
          layout = (omega arith, omega arith);
          top = omega arith;
        };
        honest = rw new.fresh.largest (omega arith);
        not_null = pos;
        top = top;
      }

  pub NewPage-IsHeap :
      (ps : List HeapPage)
      → IsHeap k ps
      → 0 < virtual
      → virtual + 4096 < u64_mod
      → FarFrom virtual ps
      → IsHeap k₀ (fresh_page k p ∷ ps)
  NewPage-IsHeap ps heap pos top far = record {
    pages = (
      new.head,
      NewPage-IsSound pos top,
      rw new.fresh.next_page (
          Pages-FarRange k.bytes k₀.bytes virtual 4096 k.memory.heap_pages ps heap.pages far
            (λ q out. sym (new.same q out))),
    );
    apart = (far, heap.apart);
  }

Pages-small : (m : Bytes) (p : Ptr) (ps : List HeapPage) → Pages m p ps → p < u64_mod
Pages-small m p [] h = omega arith
Pages-small m p ((page, xs) ∷ ps) h = omega (arith, h.0, h.1.top)

-- A frame of the free list becomes a page.
pub new_page :
    (k : Kernel) (ps : List HeapPage)
    → IsHeap k ps
    → Spare k ps
    → Returns (λ p k₀. NewPage k p k₀ × IsHeap k₀ (fresh_page k p ∷ ps)) (memory_allocate_frame k)
new_page k ps heap spare =
    Returns.mono
      (memory_allocate_frame-cases k spare.formed spare.few
        (Pages-small k.bytes k.memory.heap_pages ps heap.pages))
      (λ p k₀ o. elim o [
        | inl new ↦
            let (pos, top, far) =
              spare.far p ((Perm.mem_iff new.taken.ledger).1 (mem-cons.1 (Or.inl refl))) in
            (new, NewPage-IsHeap k p k₀ new ps heap pos top far)
        | inr (nothing, _, _) ↦ absurd (spare.frame nothing)
      ])
