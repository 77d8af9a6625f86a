-- ===== src/Heap/Serve.antt =====
-- kmalloc keeps its contract (src/kernel.c): a new page, frames of its own, and the whole of kmalloc.
use mathlib.Core.List.{Mem, Nodup, mem-cons, Nodup-cons}
use mathlib.Core.List.Perm
use mathlib.Core.Logic.Or
use mathlib.Core.Path.{subst}
use side_h_os.Base.{
  ℕ, ◌+◌, ◌%◌, ◌≤◌, ◌≡◌, ◌≢◌, refl, ◌⊎◌, inl, inr, List, ◌∷◌, ◌++◌, arith, ap, sym, ◌∙◌,
}
use side_h_os.Kernel.{Ptr, Kernel}
use side_h_os.Frames.Ledger.{frames}
use side_h_os.Frames.Taken.{freelist_of, NewPage}
use side_h_os.Heap.Pages.{HeapPage}
use side_h_os.Heap.Blocks.{Block}
use side_h_os.Heap.Grow.{fresh_page, NewPage-IsHeap}
use side_h_os.Heap.{frame_counts}
use side_h_os.Heap.Carve.{carve_cells}
use side_h_os.Heap.Kmalloc.{Allocated}
use side_h_os.Heap.Claims.{InUse}
use side_h_os.Heap.Contract.{IsPlaced, Store, Keeps, Gives, cut-Keeps, cut-Gives}

-- Two different pages do not overlap.
aligned-Apart : (p r : ℕ) → p % 4096 ≡ 0 → r % 4096 ≡ 0 → p ≢ r → (p + 4096 ≤ r) ⊎ (r + 4096 ≤ p)
aligned-Apart p r e f ne = omega (arith, ne)

module _ (k : Kernel) (ps : List HeapPage) (store : Store k ps) (p : ℕ) (k₀ : Kernel)
    (new : NewPage k p k₀) where
  abbrev others : List ℕ
  others = frames (freelist_of k₀)

  mem_before : (r : ℕ) → Mem r (p ∷ others) → Mem r (frames (freelist_of k))
  mem_before r m = (Perm.mem_iff new.taken.ledger).1 m

  here : Mem p (frames (freelist_of k))
  here = mem_before p (mem-cons.1 (Or.inl refl))

  distinct : ¬ Mem p others × Nodup others
  distinct = Nodup-cons.0 (Perm.nodup new.taken.ledger store.distinct)

  new_page-Store : Store k₀ (fresh_page k p ∷ ps)
  new_page-Store =
      let (aligned, pos, top, far) = store.placed p here in
      record {
        heap = NewPage-IsHeap k p k₀ new ps store.heap pos top far;
        formed = new.taken.formed;
        few = rw new.taken.cursor store.few;
        distinct = distinct.1;
        placed = λ r m.
            let (aligned_r, pos_r, top_r, far_r) =
              store.placed r (mem_before r (mem-cons.1 (Or.inr m))) in
            let apart =
              aligned-Apart r p aligned_r aligned
                (λ e. distinct.0 (subst (λ n. Mem n others) e m)) in
            subst (λ o. IsPlaced o (fresh_page k p ∷ ps) r) (sym new.taken.offset)
              (aligned_r, pos_r, top_r, (omega (arith, apart), far_r));
      }

  new_page-spared :
      (q : ℕ) → InUse k ps q → (k₀.bytes q ≡ k.bytes q) × InUse k₀ (fresh_page k p ∷ ps) q
  new_page-spared q (off, off_frames) =
      let out = off_frames p here in
      (
        new.same q out,
        (
          (omega (arith, out), (omega (arith, out), tt), off),
          λ r m. rw new.taken.offset (off_frames r (mem_before r (mem-cons.1 (Or.inr m)))),
        ),
      )

  new_page-Keeps : Keeps 1 1 k ps k₀ (fresh_page k p ∷ ps)
  new_page-Keeps = record {
    store = new_page-Store;
    spared = new_page-spared;
    cursor = new.taken.cursor;
    cut = new.taken.cut;
    pages = omega arith;
    rest = new.taken.rest;
  }

pub Keeps-trans :
    (c g : ℕ) {d h : ℕ} {k : Kernel} {ps : List HeapPage} {k₁ : Kernel} {ps₁ : List HeapPage}
    {k₂ : Kernel} {ps₂ : List HeapPage}
    → Keeps c g k ps k₁ ps₁
    → Keeps d h k₁ ps₁ k₂ ps₂
    → Keeps (c + d) (g + h) k ps k₂ ps₂
Keeps-trans c g {k} {k₂} first second = record {
  store = second.store;
  spared = λ q held.
      let (same, held₁) = first.spared q held in
      let (again, held₂) = second.spared q held₁ in (again ∙ same, held₂);
  cursor = second.cursor ∙ first.cursor;
  cut = λ j. omega (arith, first.cut j, second.cut j);
  pages = omega (arith, first.pages, second.pages);
  rest =
      second.rest
      ∙ ap
          (λ (k : Kernel). record k {
            bytes = k₂.bytes;
            memory = k₂.memory;
            memory_lock = k₂.memory_lock;
          })
          first.rest;
}

pub Keeps-weaken :
    {c d g h : ℕ} {k : Kernel} {ps : List HeapPage} {k' : Kernel} {ps' : List HeapPage}
    → c ≤ d
    → g ≤ h
    → Keeps c g k ps k' ps'
    → Keeps d h k ps k' ps'
Keeps-weaken le_cost le_pages keeps = record {
  store = keeps.store;
  spared = keeps.spared;
  cursor = keeps.cursor;
  cut = λ j. omega (arith, keeps.cut j);
  pages = omega (arith, keeps.pages);
  rest = keeps.rest;
}

-- What comes into use after a step that spares the bytes in use was not in use before it.
pub Gives-after :
    {c g b n : ℕ} {k : Kernel} {ps : List HeapPage} {k₁ : Kernel} {ps₁ : List HeapPage}
    {k₂ : Kernel} {ps₂ : List HeapPage}
    → Keeps c g k ps k₁ ps₁
    → Gives b n k₁ ps₁ k₂ ps₂
    → Gives b n k ps k₂ ps₂
Gives-after first gives = record {
  not_null = gives.not_null;
  fits = gives.fits;
  used = gives.used;
  unused = λ q lo hi held. gives.unused q lo hi (first.spared q held).1;
}

abbrev pub Serves : (size : ℕ) → Kernel → List HeapPage → Ptr → Kernel → Type 0
Serves size k ps b k' =
    (ps' : List HeapPage) × Keeps (frame_counts size) 1 k ps k' ps'
    × Gives b size k ps k' ps'
    × (k'.memory_lock ≡ 0)

Block-Serves :
    {k : Kernel} {ps : List HeapPage} {size : ℕ} {b : Ptr} {k' : Kernel}
    → Store k ps
    → Block k ps size b k'
    → (ps' : List HeapPage) × Keeps 0 0 k ps k' ps' × Gives b size k ps k' ps'
Block-Serves {k} {size} {b} {k'} store block =
    let store₁ = subst (Store k) block.at store in
    let ps' =
      block.qs
      ++ (block.page, block.before ++ carve_cells size block.node block.len block.after)
        ∷ block.rs in
    let keeps =
      cut-Keeps k block.qs block.rs block.page size block.before block.node block.len block.after b
        k' block.served store₁ block.heap in
    let gives =
      cut-Gives k block.qs block.rs block.page size block.before block.node block.len block.after b
        k' block.served store₁ block.heap in
    (
      ps',
      subst (λ ps. Keeps 0 0 k ps k' ps') (sym block.at) keeps,
      subst (λ ps. Gives b size k ps k' ps') (sym block.at) gives,
    )

pub Allocated-Serves :
    (k : Kernel) (ps : List HeapPage) (size : ℕ) (b : Ptr) (k' : Kernel)
    → Store k ps
    → 1 ≤ frame_counts size
    → k'.memory_lock ≡ 0
    → Allocated k ps size b k'
    → Serves size k ps b k'
Allocated-Serves k ps size b k' store cost open_again (inl block) =
    let (ps', keeps, gives) = Block-Serves store block in
    (ps', Keeps-weaken (omega arith) (omega arith) keeps, gives, open_again)
Allocated-Serves k ps size b k' store cost open_again (inr (low, p, k₀, new, block)) =
    let first = new_page-Keeps k ps store p k₀ new in
    let (ps', keeps, gives) = Block-Serves first.store block in
    (
      ps',
      Keeps-weaken cost (omega arith) (Keeps-trans 1 1 first keeps),
      Gives-after first gives,
      open_again,
    )
