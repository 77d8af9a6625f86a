-- ===== src/Heap/Contract.antt =====
-- What callers of kmalloc may rely on (src/kernel.c): a block is made of bytes that nobody uses, and no
-- byte in use changes.
use mathlib.Core.List.{Mem, Nodup}
use mathlib.Core.Path.{subst}
use side_h_os.Base.{
  ℕ, ◌+◌, ◌%◌, ◌≤◌, ◌<◌, ◌≡◌, List, [], ◌∷◌, ◌++◌, arith, ap, sym, ◌∙◌, length, length-append,
}
use side_h_os.Base.Word.{u64_mod}
use side_h_os.Kernel.{Ptr, Kernel, FreeList}
use side_h_os.Frames.Ledger.{frames, IsWellFormed}
use side_h_os.Frames.Taken.{freelist_of, segment_of}
use side_h_os.Heap.Nodes.{Cell, Layout, Clear, Layout-le, Layout-split, Clear-split}
use side_h_os.Heap.Carve.{carve_cells, block_size}
use side_h_os.Heap.Allocate.{Served}
use side_h_os.Heap.Pages.{HeapPage, FarFrom, FarFrom-page, FarFrom-replace, Pages-at}
use side_h_os.Heap.Blocks.{IsHeap}
use side_h_os.Heap.Claims.{
  OffFrames, InUse, Clear-Layout, OffPages-at, OffPages-replace, OffPages-page, Clear-carve,
}

-- The frame p is a page of the direct map, not at NULL, and no page of the heap.
abbrev pub IsPlaced : (offset : ℕ) → List HeapPage → ℕ → Type 0
IsPlaced offset ps p =
    (p % 4096 ≡ 0) × (0 < p + offset) × (p + offset + 4096 < u64_mod) × FarFrom (p + offset) ps

-- The heap and the free list: the frames of the free list are different pages of the direct map, and none
-- is a page of the heap.
pub record Store (k : Kernel) (ps : List HeapPage) : Type 0 where
  pub heap : IsHeap k ps
  pub formed : IsWellFormed k.hhdm_offset (freelist_of k)
  pub few : (freelist_of k).cursor < 128
  pub distinct : Nodup (frames (freelist_of k))
  pub placed : (p : ℕ) → Mem p (frames (freelist_of k)) → IsPlaced k.hhdm_offset ps p

-- From k to k' no byte in use changes or falls out of use, `cost` frames at most leave a segment,
-- the heap has at most `grown` pages more, and no other variable changes.
pub record Keeps (cost grown : ℕ) (k : Kernel) (ps : List HeapPage) (k' : Kernel)
    (ps' : List HeapPage) : Type 0 where
  pub store : Store k' ps'
  pub spared : (q : ℕ) → InUse k ps q → (k'.bytes q ≡ k.bytes q) × InUse k' ps' q
  pub cursor : (freelist_of k').cursor ≡ (freelist_of k).cursor
  pub cut : (j : ℕ) → (segment_of k j).length ≤ (segment_of k' j).length + cost
  pub pages : length ps' ≤ length ps + grown
  pub rest : k' ≡ record k { bytes = k'.bytes; memory = k'.memory; memory_lock = k'.memory_lock }

-- The n bytes from b come into use.
pub record Gives (b n : ℕ) (k : Kernel) (ps : List HeapPage) (k' : Kernel) (ps' : List HeapPage)
    : Type 0 where
  pub not_null : 0 < b
  pub fits : b + n < u64_mod
  pub used : (q : ℕ) → b ≤ q → q < b + n → InUse k' ps' q
  pub unused : (q : ℕ) → b ≤ q → q < b + n → ¬ InUse k ps q

OffFrames-same :
    (q : ℕ) (k k' : Kernel)
    → freelist_of k' ≡ freelist_of k
    → k'.hhdm_offset ≡ k.hhdm_offset
    → OffFrames q k
    → OffFrames q k'
OffFrames-same q k k' fl offset off p m = rw offset (off p (subst (λ l. Mem p (frames l)) fl m))

Clear-append : (q : ℕ) (xs ys : List Cell) → Clear q xs → Clear q ys → Clear q (xs ++ ys)
Clear-append q [] ys h t = t
Clear-append q ((a, l) ∷ xs) ys h t = (h.0, Clear-append q xs ys h.1 t)

-- A block that is cut from a page.
module _ (k : Kernel) (qs rs : List HeapPage) (page : Ptr) (size : ℕ) (before : List Cell) (a l : ℕ)
    (after : List Cell) (b : Ptr) (k' : Kernel) (served : Served k k' page size before a l after b)
    (store : Store k (qs ++ (page, before ++ (a, l) ∷ after) ∷ rs))
    (heap : IsHeap k' (qs ++ (page, before ++ carve_cells size a l after) ∷ rs)) where
  abbrev ps : List HeapPage
  ps = qs ++ (page, before ++ (a, l) ∷ after) ∷ rs

  abbrev ps' : List HeapPage
  ps' = qs ++ (page, before ++ carve_cells size a l after) ∷ rs

  same_list : freelist_of k' ≡ freelist_of k
  same_list = ap (λ (k : Kernel). freelist_of k) served.state

  same_offset : k'.hhdm_offset ≡ k.hhdm_offset
  same_offset = ap (λ (k : Kernel). k.hhdm_offset) served.state

  fit : size + 8 ≤ l
  fit = omega (arith, served.carved.enough, served.carved.in_node)

  cut-Store : Store k' ps'
  cut-Store = record {
    heap = heap;
    formed = rw (same_offset, same_list) store.formed;
    few = rw same_list store.few;
    distinct = rw same_list store.distinct;
    placed = λ p m.
        let (aligned, pos, top, far) = store.placed p (subst (λ l. Mem p (frames l)) same_list m) in
        rw same_offset (aligned, pos, top, FarFrom-replace _ page _ _ qs rs far);
  }

  cut-spared : (q : ℕ) → InUse k ps q → (k'.bytes q ≡ k.bytes q) × InUse k' ps' q
  cut-spared q (off, off_frames) =
      let (header, clear) = OffPages-at q page _ qs rs off in
      (
        served.carved.others q (omega arith) clear,
        (
          OffPages-replace q page _ _ qs rs (Clear-carve q size a l before after fit) off,
          OffFrames-same q k k' same_list same_offset off_frames,
        ),
      )

  layout : Layout (page + 32) a before × Layout (a + 16 + l) (page + 4096) after
  layout =
      Layout-split (page + 32) (page + 4096) before a l after
        (Pages-at k.bytes page k.memory.heap_pages _ qs rs store.heap.pages).is_page.layout

  cut-used : (q : ℕ) → b ≤ q → q < b + size → InUse k' ps' q
  cut-used q lo hi =
      let low = Layout-le (page + 32) a before layout.0 in
      let high = Layout-le (a + 16 + l) (page + 4096) after layout.1 in
      let in_front = served.carved.in_front in
      let at = served.address in
      let enough = served.carved.enough in
      let in_node = served.carved.in_node in
      let clear =
        Clear-append q before (carve_cells size a l after)
          (Clear-Layout q (page + 32) a before layout.0 (omega arith))
          (Clear-Layout q (a + 24 + block_size size l) (page + 4096) _ in_front (omega arith)) in
      (
        OffPages-page k.bytes k.memory.heap_pages page q _ _ qs rs store.heap.pages store.heap.apart
            (omega arith) (omega arith) clear,
        OffFrames-same q k k' same_list same_offset
            (λ p m. omega (arith, FarFrom-page _ page _ qs rs (store.placed p m).3)),
      )

  cut-unused : (q : ℕ) → b ≤ q → q < b + size → ¬ InUse k ps q
  cut-unused q lo hi (off, _) =
      let (_, out) = Clear-split q before a l after (OffPages-at q page _ qs rs off).1 in
      omega (arith, served.address, fit, out)

  pub cut-Keeps : Keeps 0 0 k ps k' ps'
  cut-Keeps = record {
    store = cut-Store;
    spared = cut-spared;
    cursor = ap (λ (l : FreeList). l.cursor) same_list;
    cut = λ j. rw same_list (omega arith);
    pages = omega (
      arith,
      length-append qs ((page, before ++ (a, l) ∷ after) ∷ rs),
      length-append qs ((page, before ++ carve_cells size a l after) ∷ rs),
    );
    rest =
        served.state
        ∙ ap (λ m. record k { bytes = k'.bytes; memory = m })
            (sym (ap (λ (k : Kernel). k.memory) served.state))
        ∙ ap (λ l. record k { bytes = k'.bytes; memory = k'.memory; memory_lock = l })
            (sym (ap (λ (k : Kernel). k.memory_lock) served.state));
  }

  pub cut-Gives : Gives b size k ps k' ps'
  cut-Gives =
      let high = Layout-le (a + 16 + l) (page + 4096) after layout.1 in
      let top = (Pages-at k.bytes page k.memory.heap_pages _ qs rs store.heap.pages).top in
      record {
        not_null = omega (arith, served.address);
        fits = omega (arith, served.address, fit);
        used = cut-used;
        unused = cut-unused;
      }
