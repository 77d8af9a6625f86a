-- ===== src/Heap/Kmalloc.antt =====
-- kmalloc for sizes that fit in a page (src/kernel.c): the walk over the pages, the new page where no
-- page serves, the block, and the lock around them.
use mathlib.Core.Path.{subst}
use side_h_os.Base.{
  ℕ, ◌+◌, ◌≤◌, ◌<◌, ◌≡◌, refl, ◌⊎◌, inl, inr, some, List, [], ◌∷◌, arith, ap, sym, le→ltb, length,
}
use side_h_os.Base.Word.{add64}
use side_h_os.Bytes.{load64}
use side_h_os.Kernel.{Ptr, null, Kernel, ok, Run, and_then, address_physical_to_virtual}
use side_h_os.Kernel.Page
use side_h_os.Kernel.Returns
use side_h_os.Kernel.Returns.{Returns, returns, and_then_assoc}
use side_h_os.Lock.{lock_self, put_memory_lock}
use side_h_os.Frames.Taken.{NewPage}
use side_h_os.Heap.{
  find_page, page_or_new, allocate_in_page, kmalloc_small, kmalloc, small_page_maximum_size,
}
use side_h_os.Heap.Pages.{
  HeapPage, AllLow, FirstFit, no_page, page_at, find_page-FirstFit, Pages-at,
}
use side_h_os.Heap.Blocks.{IsHeap, Block, in_page-Block}
use side_h_os.Heap.Grow.{Spare, fresh_page, new_page}

-- The outcome of kmalloc under its lock: a block of a page that was there, or of the one new page
-- where none of them has room.
abbrev pub Allocated : (k : Kernel) (ps : List HeapPage) (size : ℕ) → Ptr → Kernel → Type 0
Allocated k ps size b k' =
    Block k ps size b k'
    ⊎ (AllLow k.bytes (size + 8) ps
        × (p : ℕ) × (k₀ : Kernel) × NewPage k p k₀
        × Block k₀ (fresh_page k p ∷ ps) size b k')

module _ (k : Kernel) (ps : List HeapPage) (fuel size : ℕ) (heap : IsHeap k ps) (spare : Spare k ps)
    (enough : 255 ≤ fuel) (small : size ≤ small_page_maximum_size) where
  -- The page is chosen and the block cut.
  abbrev choose : Ptr → Run Ptr
  choose found = and_then (page_or_new (size + 8) found k) (allocate_in_page fuel size)

  -- The new page that page_or_new makes.
  abbrev IsNew : Ptr → Kernel → Type 0
  IsNew page k₀ =
      (p : ℕ) × (page ≡ p + k.hhdm_offset) × NewPage k p k₀ × IsHeap k₀ (fresh_page k p ∷ ps)

  to_virtual :
      (p : ℕ) (k₀ : Kernel) → NewPage k p k₀ → address_physical_to_virtual k₀ p ≡ p + k.hhdm_offset
  unfolding address_physical_to_virtual
  to_virtual p k₀ new = rw new.taken.offset (omega (arith, new.fits))

  page_or_new-IsNew : Returns IsNew (page_or_new (size + 8) null k)
  unfolding page_or_new
  page_or_new-IsNew =
      Returns.bind (new_page k ps heap spare) (λ p k₀ n. returns (p, to_virtual p k₀ n.0, n.0, n.1))

  page_or_new-kept :
      (page : Ptr)
      → 0 < page
      → size + 8 ≤ load64 k.bytes (Page.largest page)
      → page_or_new (size + 8) page k ≡ ok page k
  unfolding page_or_new
  page_or_new-kept page pos fits = ground arith

  choose-Allocated :
      (found : Ptr)
      → FirstFit k.bytes (size + 8) ps found
      → Returns (Allocated k ps size) (choose found)
  choose-Allocated found (no_page low) =
      Returns.bind page_or_new-IsNew (λ page k₀ (p, at, new, heap₀).
        Returns.mono
          (in_page-Block k₀ (fresh_page k p ∷ ps) [] ps page _ fuel size heap₀
            (ap (λ a. (a, (p + k.hhdm_offset + 32, 4048) ∷ []) ∷ ps) (sym at))
            (rw (at, new.fresh.largest) (omega arith)) enough small)
          (λ b k' block. inr (low, p, k₀, new, block)))
  choose-Allocated found (page_at qs page xs rs at low fits) =
      let sound = Pages-at k.bytes found k.memory.heap_pages xs qs rs (rw (sym at) heap.pages) in
      rw (page_or_new-kept found sound.not_null fits) (
        Returns.mono (in_page-Block k ps qs rs found xs fuel size heap at fits enough small)
          (λ b k' block. inl block))

-- The lock plays no part in the heap.
Block-open :
    {k : Kernel} {ps : List HeapPage} {size : ℕ} {b : Ptr} {k' : Kernel}
    → Block k ps size b k'
    → Block (put_memory_lock 0 k) ps size b (put_memory_lock 0 k')
Block-open block = record {
  qs = block.qs;
  page = block.page;
  before = block.before;
  node = block.node;
  len = block.len;
  after = block.after;
  rs = block.rs;
  at = block.at;
  served = record {
    address = block.served.address;
    state = ap (put_memory_lock 0) block.served.state;
    carved = block.served.carved;
    exact = block.served.exact;
  };
  heap = record { pages = block.heap.pages; apart = block.heap.apart };
}

NewPage-open :
    (k : Kernel) (p : ℕ) (k₀ : Kernel)
    → NewPage (put_memory_lock 1 k) p k₀
    → NewPage k p (put_memory_lock 0 k₀)
NewPage-open k p k₀ new = record {
  taken = record {
    ledger = new.taken.ledger;
    formed = new.taken.formed;
    offset = new.taken.offset;
    cursor = new.taken.cursor;
    cut = new.taken.cut;
    rest = ap (put_memory_lock 0) new.taken.rest;
  };
  fresh = new.fresh;
  head = new.head;
  fits = new.fits;
  same = new.same;
}

-- The lock is open again when kmalloc is done.
open_again :
    (k : Kernel) (ps : List HeapPage) (size : ℕ) (b : Ptr) (k' : Kernel)
    → k.memory_lock ≡ 0
    → Allocated (put_memory_lock 1 k) ps size b k'
    → Allocated k ps size b (put_memory_lock 0 k')
open_again k ps size b k' free (inl block) =
    inl
      (subst (λ k. Block k ps size b (put_memory_lock 0 k')) (lock_self k free) (Block-open block))
open_again k ps size b k' free (inr (low, p, k₀, new, block)) =
    inr (low, p, put_memory_lock 0 k₀, NewPage-open k p k₀ new, Block-open block)

kmalloc_small-eq :
    (k : Kernel) (fuel size : ℕ) (found : Ptr)
    → find_page fuel k.bytes (add64 size 8) k.memory.heap_pages ≡ some found
    → kmalloc_small fuel size k
      ≡ and_then
          (and_then (page_or_new (add64 size 8) found k) (allocate_in_page fuel size))
          (λ block k'. ok block (put_memory_lock 0 k'))
unfolding kmalloc_small allocate_in_page
kmalloc_small-eq k fuel size found e =
    rw e (sym (and_then_assoc (page_or_new (add64 size 8) found k) (allocate_in_page fuel size) _))

kmalloc-small :
    (k : Kernel) (fuel size : ℕ)
    → k.memory_lock ≡ 0
    → size ≤ small_page_maximum_size
    → kmalloc fuel size k ≡ kmalloc_small fuel size (put_memory_lock 1 k)
unfolding kmalloc
kmalloc-small k fuel size free small = rw (free, le→ltb _ _ small)

-- A block is not NULL.
Block-not_null :
    {k : Kernel} {ps : List HeapPage} {size : ℕ} {b : Ptr} {k' : Kernel}
    → Block k ps size b k'
    → 0 < b
Block-not_null block = omega (arith, block.served.address)

Allocated-not_null :
    (k : Kernel) (ps : List HeapPage) (size : ℕ) (b : Ptr) (k' : Kernel)
    → Allocated k ps size b k'
    → 0 < b
Allocated-not_null k ps size b k' (inl block) = Block-not_null block
Allocated-not_null k ps size b k' (inr (low, p, k₀, new, block)) = Block-not_null block

pub kmalloc-Allocated :
    (k : Kernel) (ps : List HeapPage) (fuel size : ℕ)
    → IsHeap k ps
    → Spare k ps
    → k.memory_lock ≡ 0
    → 255 ≤ fuel
    → length ps < fuel
    → size ≤ small_page_maximum_size
    → Returns
        (λ b k'. Allocated k ps size b k' × (k'.memory_lock ≡ 0) × (0 < b))
        (kmalloc fuel size k)
kmalloc-Allocated k ps fuel size heap spare free enough pages small =
    let k₁ = put_memory_lock 1 k in
    let heap₁ : IsHeap k₁ ps = record { pages = heap.pages; apart = heap.apart } in
    let spare₁ : Spare k₁ ps = record {
      formed = spare.formed;
      few = spare.few;
      frame = spare.frame;
      far = spare.far;
    } in
    let (found, e, first) =
      find_page-FirstFit k.bytes (size + 8) fuel k.memory.heap_pages ps heap.pages pages in
    rw
      (
        kmalloc-small k fuel size free small,
        kmalloc_small-eq k₁ fuel size found (rw total_eq e),
        total_eq,
      )
      (Returns.bind (choose-Allocated k₁ ps fuel size heap₁ spare₁ enough small found first)
        (λ b k' out.
          let result = open_again k ps size b k' free out in
          returns (result, refl, Allocated-not_null k ps size b (put_memory_lock 0 k') result)))
  where
    total_eq : add64 size 8 ≡ size + 8
    total_eq = omega arith
