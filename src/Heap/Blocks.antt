-- ===== src/Heap/Blocks.antt =====
-- What a call of kmalloc gives (src/kernel.c): a block out of one page of the heap, which stays well
-- formed.
use side_h_os.Base.{
  ℕ, ◌+◌, ◌*◌, ◌≤◌, ◌<◌, ◌≡◌, inl, inr, List, [], ◌∷◌, ◌++◌, arith, ap, ◌∙◌, sym, length,
}
use side_h_os.Base.Word.{u64_mod}
use side_h_os.Bytes.{load64}
use side_h_os.Kernel.{Ptr, Kernel}
use side_h_os.Kernel.Page
use side_h_os.Kernel.Returns
use side_h_os.Kernel.Returns.{Returns, returns}
use side_h_os.Heap.{allocate_in_page, small_page_maximum_size}
use side_h_os.Heap.Nodes.{Cell, Layout, load64-Agree}
use side_h_os.Heap.Replace.{IsPage}
use side_h_os.Heap.Claims.{Clear-Layout}
use side_h_os.Heap.Carve.{carve_cells}
use side_h_os.Heap.Allocate.{Served, allocate_in_page-Outcome}
use side_h_os.Heap.Pages.{
  HeapPage, Pages, AllApart, SameBut, Pages-replace, Pages-at, AllApart-replace, longest-AllShort,
}

-- The heap of the kernel is the pages `ps`.
pub record IsHeap (k : Kernel) (ps : List HeapPage) : Type 0 where
  pub pages : Pages k.bytes k.memory.heap_pages ps
  pub apart : AllApart ps

-- A block at b of at least `size` bytes, out of a node of one of the pages; the heap is the same pages
-- after it, without the part that is handed out.
pub record Block (k : Kernel) (ps : List HeapPage) (size : ℕ) (b : Ptr) (k' : Kernel) : Type 0 where
  pub qs : List HeapPage
  pub page : Ptr
  pub before : List Cell
  pub node : Ptr
  pub len : ℕ
  pub after : List Cell
  pub rs : List HeapPage
  pub at : ps ≡ qs ++ (page, before ++ (node, len) ∷ after) ∷ rs
  pub served : Served k k' page size before node len after b
  pub heap : IsHeap k' (qs ++ (page, before ++ carve_cells size node len after) ∷ rs)

-- A node takes 16 bytes at least, so that a page has fewer than 255.
pub length-Layout : (lo hi : ℕ) (xs : List Cell) → Layout lo hi xs → lo + 16 * length xs ≤ hi
length-Layout lo hi [] h = omega arith
length-Layout lo hi ((a, l) ∷ xs) h = omega (arith, length-Layout (a + 16 + l) hi xs h.1)

module _ (k k' : Kernel) (page : Ptr) (size : ℕ) (before : List Cell) (a l : ℕ) (after : List Cell)
    (b : Ptr) (s : Served k k' page size before a l after b)
    (is : IsPage k.bytes page (before ++ (a, l) ∷ after)) where
  Served-SameBut : SameBut page k.bytes k'.bytes
  Served-SameBut q out = sym (
      s.carved.others q (omega arith)
        (Clear-Layout q (page + 32) (page + 4096) _ is.layout (omega arith)))

  Served-next :
      page + 4096 < u64_mod → load64 k'.bytes (Page.next page) ≡ load64 k.bytes (Page.next page)
  Served-next top =
      load64-Agree k.bytes k'.bytes (page + 24) (page + 32) (Page.next page)
        (λ q u v. sym (
          s.carved.others q (omega arith)
            (Clear-Layout q (page + 32) (page + 4096) _ is.layout (omega arith))))
        (omega arith) (omega arith)

-- The heap after a block has been cut from a page.
Served-IsHeap :
    (k k' : Kernel) (qs rs : List HeapPage) (page size : ℕ) (before : List Cell) (a l : ℕ)
    (after : List Cell) (b : Ptr)
    → IsHeap k (qs ++ (page, before ++ (a, l) ∷ after) ∷ rs)
    → Served k k' page size before a l after b
    → IsHeap k' (qs ++ (page, before ++ carve_cells size a l after) ∷ rs)
Served-IsHeap k k' qs rs page size before a l after b heap s =
    let old = before ++ (a, l) ∷ after in
    let new = before ++ carve_cells size a l after in
    let sound = Pages-at k.bytes page k.memory.heap_pages old qs rs heap.pages in
    record {
      pages = rw (ap (λ (k : Kernel). k.memory.heap_pages) s.state) (
          Pages-replace k.bytes k'.bytes page k.memory.heap_pages old new qs rs heap.pages
            heap.apart (Served-SameBut k k' page size before a l after b s sound.is_page)
            (Served-next k k' page size before a l after b s sound.is_page sound.top)
            (record {
              is_page = s.carved.is_page;
              honest = omega (arith, s.exact);
              not_null = sound.not_null;
              top = sound.top;
            }));
      apart = AllApart-replace page old new qs rs heap.apart;
    }

Block-at :
    (k : Kernel) (ps qs rs : List HeapPage) (page : Ptr) (xs : List Cell) (size : ℕ)
    (before : List Cell) (a l : ℕ) (after : List Cell) (b : Ptr) (k' : Kernel)
    → IsHeap k ps
    → ps ≡ qs ++ (page, xs) ∷ rs
    → xs ≡ before ++ (a, l) ∷ after
    → Served k k' page size before a l after b
    → Block k ps size b k'
Block-at k ps qs rs page xs size before a l after b k' heap at e served =
    let all : ps ≡ qs ++ (page, before ++ (a, l) ∷ after) ∷ rs =
      at ∙ ap (λ zs. qs ++ (page, zs) ∷ rs) e in
    record {
      qs = qs;
      page = page;
      before = before;
      node = a;
      len = l;
      after = after;
      rs = rs;
      at = all;
      served = served;
      heap = Served-IsHeap k k' qs rs page size before a l after b (rw (sym all) heap) served;
    }

-- The block in the page that the walk has chosen.
pub in_page-Block :
    (k : Kernel) (ps qs rs : List HeapPage) (page : Ptr) (xs : List Cell) (fuel size : ℕ)
    → IsHeap k ps
    → ps ≡ qs ++ (page, xs) ∷ rs
    → size + 8 ≤ load64 k.bytes (Page.largest page)
    → 255 ≤ fuel
    → size ≤ small_page_maximum_size
    → Returns (Block k ps size) (allocate_in_page fuel size page k)
in_page-Block k ps qs rs page xs fuel size heap at fits enough small =
    let pages : Pages k.bytes k.memory.heap_pages (qs ++ (page, xs) ∷ rs) =
      rw (sym at) heap.pages in
    let apart : AllApart (qs ++ (page, xs) ∷ rs) = rw (sym at) heap.apart in
    let sound = Pages-at k.bytes page k.memory.heap_pages xs qs rs pages in
    let is = sound.is_page in
    Returns.mono
      (allocate_in_page-Outcome k fuel page size sound.top xs is
        (omega (arith, length-Layout (page + 32) (page + 4096) xs is.layout)) (omega arith))
      (λ b k' o. elim o [
        | inr (short, _, _) ↦
            absurd
              (omega (arith, sound.honest, longest-AllShort (size + 8) 0 xs short (omega arith)))
        | inl (before, a, l, after, e, short, fit, served) ↦
            Block-at k ps qs rs page xs size before a l after b k' heap at e served
      ])
