-- ===== src/Heap/Claims.antt =====
-- Whose bytes are whose (src/kernel.c): the bytes of the heap's pages that it works on itself, the
-- bytes of the free frames, and the others, which callers use.
use mathlib.Core.List.{Mem}
use side_h_os.Base.{ℕ, ◌+◌, ◌≤◌, ◌<◌, ◌⊎◌, List, [], ◌∷◌, ◌++◌, arith}
use side_h_os.Bytes.{Bytes, load64}
use side_h_os.Bytes.Words.{Outside}
use side_h_os.Kernel.{Kernel}
use side_h_os.Kernel.Page
use side_h_os.Frames.Ledger.{frames}
use side_h_os.Frames.Taken.{freelist_of}
use side_h_os.Heap.Nodes.{Cell, Layout, Clear, Layout-le}
use side_h_os.Heap.Carve.{carve_cells}
use side_h_os.Heap.Pages.{HeapPage, Pages, FarRange, AllApart, FarFrom-page}

-- The byte q is in no page's header and in no free node.
abbrev pub OffPages : ℕ → List HeapPage → Type 0
OffPages q [] = Unit {0}
OffPages q ((page, xs) ∷ ps) = Outside page 32 q × Clear q xs × OffPages q ps

-- The byte q, seen through the direct map, is in no free frame.
abbrev pub OffFrames : ℕ → Kernel → Type 0
OffFrames q k = (p : ℕ) → Mem p (frames (freelist_of k)) → Outside (p + k.hhdm_offset) 4096 q

-- Neither the heap nor the frame allocator works on the byte q.
abbrev pub InUse : Kernel → List HeapPage → ℕ → Type 0
InUse k ps q = OffPages q ps × OffFrames q k

pub Clear-Layout :
    (q lo hi : ℕ) (xs : List Cell) → Layout lo hi xs → (q < lo) ⊎ (hi ≤ q) → Clear q xs
Clear-Layout q lo hi [] h out = tt
Clear-Layout q lo hi ((a, l) ∷ xs) h out =
    let below = Layout-le (a + 16 + l) hi xs h.1 in
    (omega arith, Clear-Layout q (a + 16 + l) hi xs h.1 (omega arith))

-- A byte that is in no page is off the pages.
pub OffPages-FarRange :
    (m : Bytes) (p a n q : ℕ) (ps : List HeapPage)
    → Pages m p ps
    → FarRange a n ps
    → a ≤ q
    → q < a + n
    → OffPages q ps
OffPages-FarRange m p a n q [] h far lo hi = tt
OffPages-FarRange m p a n q ((page, xs) ∷ ps) h far lo hi = (
  omega (arith, far.0),
  Clear-Layout q (page + 32) (page + 4096) xs h.1.is_page.layout (omega (arith, far.0)),
  OffPages-FarRange m (load64 m (Page.next page)) a n q ps h.2 far.1 lo hi,
)

-- The part of the pages that one page is.
pub OffPages-at :
    (q page : ℕ) (xs : List Cell) (qs rs : List HeapPage)
    → OffPages q (qs ++ (page, xs) ∷ rs)
    → Outside page 32 q × Clear q xs
OffPages-at q page xs [] rs h = (h.0, h.1)
OffPages-at q page xs (other ∷ qs) rs h = OffPages-at q page xs qs rs h.2

pub OffPages-replace :
    (q page : ℕ) (xs ys : List Cell) (qs rs : List HeapPage)
    → (Clear q xs → Clear q ys)
    → OffPages q (qs ++ (page, xs) ∷ rs)
    → OffPages q (qs ++ (page, ys) ∷ rs)
OffPages-replace q page xs ys [] rs fewer h = (h.0, fewer h.1, h.2)
OffPages-replace q page xs ys (other ∷ qs) rs fewer h =
    (h.0, h.1, OffPages-replace q page xs ys qs rs fewer h.2)

-- A byte of a page that is off its header and its nodes is off all pages.
pub OffPages-page :
    (m : Bytes) (p page q : ℕ) (xs ys : List Cell) (qs rs : List HeapPage)
    → Pages m p (qs ++ (page, xs) ∷ rs)
    → AllApart (qs ++ (page, xs) ∷ rs)
    → page + 32 ≤ q
    → q < page + 4096
    → Clear q ys
    → OffPages q (qs ++ (page, ys) ∷ rs)
OffPages-page m p page q xs ys [] rs h apart lo hi clear =
    (omega arith, clear, OffPages-FarRange m _ page 4096 q rs h.2 apart.0 (omega arith) hi)
OffPages-page m p page q xs ys ((other, zs) ∷ qs) rs h apart lo hi clear =
    let far = FarFrom-page other page xs qs rs apart.0 in
    (
      omega (arith, far),
      Clear-Layout q (other + 32) (other + 4096) zs h.1.is_page.layout (omega (arith, far)),
      OffPages-page m (load64 m (Page.next other)) page q xs ys qs rs h.2 apart.1 lo hi clear,
    )

-- The nodes that are left lie in the node that was there.
pub Clear-carve :
    (q size a l : ℕ) (before after : List Cell)
    → size + 8 ≤ l
    → Clear q (before ++ (a, l) ∷ after)
    → Clear q (before ++ carve_cells size a l after)
Clear-carve q size a l [] after fit h = ground arith
Clear-carve q size a l ((b, n) ∷ before) after fit h =
    (h.0, Clear-carve q size a l before after fit h.1)
