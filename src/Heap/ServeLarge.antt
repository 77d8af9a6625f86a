-- ===== src/Heap/ServeLarge.antt =====
-- kmalloc keeps its contract where it takes frames of its own (src/kernel.c).
use mathlib.Core.List.{Mem, Nodup, mem-append_left, mem-append_right, Nodup-append, Disjoint}
use mathlib.Core.List.Perm
use mathlib.Core.Path.{subst}
use side_h_os.Base.{
  ℕ, suc, ◌+◌, ◌-◌, ◌*◌, ◌/◌, ◌%◌, ◌≤◌, ◌<◌, ◌≡◌, ◌⊎◌, inl, inr, List, ◌++◌, arith, sym,
}
use side_h_os.Bytes.Words.{Outside, Outside-cases}
use side_h_os.Kernel.{Ptr, Kernel}
use side_h_os.Frames.Ledger.{run, frames}
use side_h_os.Frames.Taken.{freelist_of, NewFrames, length-run}
use side_h_os.Heap.Pages.{HeapPage, FarRange, Pages-FarRange}
use side_h_os.Heap.Claims.{OffFrames, OffPages-FarRange}
use side_h_os.Heap.Large.{LargeBlock}
use side_h_os.Heap.Runs.{FarRange-run, run-Apart, run-at}
use side_h_os.Heap.Contract.{IsPlaced, Store, Keeps, Gives}

module _ (k : Kernel) (ps : List HeapPage) (store : Store k ps) (size n p : ℕ) (b : Ptr)
    (k' : Kernel) (block : LargeBlock k size p (suc n) b k') where
  abbrev new : NewFrames (suc n) k p k'
  new = block.frames_of

  abbrev left : List ℕ
  left = frames (freelist_of k')

  mem_before : (r : ℕ) → Mem r (run p (suc n) ++ left) → Mem r (frames (freelist_of k))
  mem_before r m = (Perm.mem_iff new.taken.ledger).1 m

  mem_left : (r : ℕ) → Mem r left → Mem r (frames (freelist_of k))
  mem_left r m = mem_before r (mem-append_right (run p (suc n)) m)

  mem_run : (r : ℕ) → Mem r (run p (suc n)) → Mem r (frames (freelist_of k))
  mem_run r m = mem_before r (mem-append_left _ m)

  distinct : Nodup (run p (suc n)) × Nodup left × Disjoint (run p (suc n)) left
  distinct = Nodup-append.0 (Perm.nodup new.taken.ledger store.distinct)

  first_aligned : p % 4096 ≡ 0
  first_aligned = omega (arith, (store.placed _ (mem_run _ (run-at p (suc n) 0 (omega arith)))).0)

  far : FarRange (p + k.hhdm_offset) (4096 * suc n) ps
  far = FarRange-run k.hhdm_offset p n ps (λ r m. (store.placed r (mem_run r m)).3)

  off_left : (r : ℕ) → Mem r left → (r + 4096 ≤ p) ⊎ (p + 4096 * suc n ≤ r)
  off_left r m =
      run-Apart p (suc n) r first_aligned (store.placed r (mem_left r m)).0
        (λ held. distinct.2 r held m)

  large-Store : Store k' ps
  large-Store = record {
    heap = record {
      pages = rw new.head (
          Pages-FarRange k.bytes k'.bytes (p + k.hhdm_offset) (4096 * suc n) k.memory.heap_pages ps
            store.heap.pages far (λ q out. sym (new.same q out)));
      apart = store.heap.apart;
    };
    formed = new.taken.formed;
    few = rw new.taken.cursor store.few;
    distinct = distinct.1;
    placed =
        λ r m. subst (λ o. IsPlaced o ps r) (sym new.taken.offset) (store.placed r (mem_left r m));
  }

  frame_of :
      (q : ℕ) → p + k.hhdm_offset ≤ q → q < p + k.hhdm_offset + 4096 * suc n → ¬ OffFrames q k
  frame_of q lo hi off =
      let j = (q - (p + k.hhdm_offset)) / 4096 in
      let out = off (p + 4096 * j) (mem_run _ (run-at p (suc n) j (omega arith))) in
      omega (arith, out)

  out_of_run : (q : ℕ) → OffFrames q k → Outside (p + k.hhdm_offset) (4096 * suc n) q
  out_of_run q off = elim (Outside-cases (p + k.hhdm_offset) (4096 * suc n) q) [
    | inl out ↦ out
    | inr (lo, hi) ↦ absurd (frame_of q lo hi off)
  ]

  pub large-Keeps : Keeps (suc n) 0 k ps k' ps
  large-Keeps = record {
    store = large-Store;
    spared = λ q (off, off_frames). (
      new.same q (out_of_run q off_frames),
      (off, λ r m. rw new.taken.offset (off_frames r (mem_left r m))),
    );
    cursor = new.taken.cursor;
    cut = rw (sym (length-run p (suc n))) new.taken.cut;
    pages = omega arith;
    rest = new.taken.rest;
  }

  pub large-Gives : Gives b size k ps k' ps
  large-Gives = record {
    not_null = omega (arith, block.address);
    fits = omega (arith, block.address, block.enough, new.fits);
    used = λ q lo hi. (
      OffPages-FarRange k.bytes k.memory.heap_pages (p + k.hhdm_offset) (4096 * suc n) q ps
          store.heap.pages far (omega (arith, block.address))
          (omega (arith, block.address, block.enough)),
      λ r m. rw new.taken.offset (omega (arith, off_left r m, block.address, block.enough)),
    );
    unused = λ q lo hi (_, off).
        frame_of q (omega (arith, block.address)) (omega (arith, block.address, block.enough)) off;
  }
