-- ===== src/Heap/Release.antt =====
-- What callers of kfree may rely on (src/kernel.c): the bytes of the block fall out of use, and no other
-- block's bytes do.
use side_h_os.Base.{ℕ, ◌+◌, ◌%◌, ◌≤◌, ◌<◌, ◌≡◌, refl, ◌⊎◌, List, ◌∷◌, ◌++◌, arith, sym, true}
use side_h_os.Bytes.{Bytes, load64}
use side_h_os.Kernel.{Ptr, Kernel, with_bytes}
use side_h_os.Kernel.Page
use side_h_os.Kernel.Returns
use side_h_os.Kernel.Returns.{Returns, returns}
use side_h_os.Heap.{kfree}
use side_h_os.Heap.Nodes.{Cell, Layout, Clear, Layout-le, load64-Agree}
use side_h_os.Heap.MergeAt.{freed_cells}
use side_h_os.Heap.Kfree.{Freed, kfree-Freed}
use side_h_os.Heap.Pages.{
  HeapPage, IsSound, FarFrom-replace, Pages-at, Pages-replace, AllApart-replace,
}
use side_h_os.Heap.Blocks.{IsHeap}
use side_h_os.Heap.Claims.{InUse, OffPages, Clear-Layout, OffPages-at, OffPages-replace}
use side_h_os.Heap.Contract.{Store}
use side_h_os.Heap.Gaps.{
  longest-freed_cells, freed_cells-covers, Clear-OffCells, OffCells-Clear, OffCells-freed_cells,
  Clear-OffHeaders,
}

OffPages-put :
    (q page : ℕ) (xs ys : List Cell) (qs rs : List HeapPage)
    → Clear q ys
    → OffPages q (qs ++ (page, xs) ∷ rs)
    → OffPages q (qs ++ (page, ys) ∷ rs)
OffPages-put q page xs ys qs rs clear off = OffPages-replace q page xs ys qs rs (λ _. clear) off

-- The block of s bytes at node + 24 was given back.
module _ (k : Kernel) (qs rs : List HeapPage) (page : Ptr) (before : List Cell) (node s : ℕ)
    (after : List Cell) (m' : Bytes) (freed : Freed k.bytes m' page before node s after)
    (store : Store k (qs ++ (page, before ++ after) ∷ rs)) (low : Layout (page + 32) node before)
    (high : Layout (node + 24 + s) (page + 4096) after) where
  abbrev ps : List HeapPage
  ps = qs ++ (page, before ++ after) ∷ rs

  abbrev cells : List Cell
  cells = freed_cells before node s after

  abbrev ps' : List HeapPage
  ps' = qs ++ (page, cells) ∷ rs

  abbrev k' : Kernel
  k' = with_bytes (λ _. m') k

  sound : IsSound k.bytes page (before ++ after)
  sound = Pages-at k.bytes page k.memory.heap_pages (before ++ after) qs rs store.heap.pages

  room : (page + 32 ≤ node) × (node + 24 + s ≤ page + 4096)
  room = (Layout-le (page + 32) node before low, Layout-le (node + 24 + s) (page + 4096) after high)

  -- Nothing but the first word of the page and the room behind its header changes.
  off_room :
      (q : ℕ)
      → (q < page) ⊎ (page + 4096 ≤ q) ⊎ ((page + 8 ≤ q) × (q < page + 32))
      → m' q ≡ k.bytes q
  off_room q out = freed.others q (omega arith) (omega (arith, room)) (
      Clear-OffHeaders q (before ++ after)
        (Clear-Layout q (page + 32) (page + 4096) _ sound.is_page.layout (omega arith)))

  same_header : (q : ℕ) → page + 8 ≤ q → q < page + 32 → k.bytes q ≡ m' q
  same_header q lo hi = sym (off_room q (omega arith))

  same_largest : load64 m' (Page.largest page) ≡ load64 k.bytes (Page.largest page)
  same_largest =
      load64-Agree k.bytes m' (page + 8) (page + 32) (Page.largest page) same_header
        (omega (arith, sound.top)) (omega (arith, sound.top))

  same_next : load64 m' (Page.next page) ≡ load64 k.bytes (Page.next page)
  same_next =
      load64-Agree k.bytes m' (page + 8) (page + 32) (Page.next page) same_header
        (omega (arith, sound.top)) (omega (arith, sound.top))

  freed-IsSound : IsSound m' page cells
  freed-IsSound = record {
    is_page = freed.is_page;
    honest = omega (arith, same_largest, sound.honest, longest-freed_cells 0 before node s after);
    not_null = sound.not_null;
    top = sound.top;
  }

  freed-IsHeap : IsHeap k' ps'
  freed-IsHeap = record {
    pages =
        Pages-replace k.bytes m' page k.memory.heap_pages (before ++ after) cells qs rs
          store.heap.pages store.heap.apart (λ q out. sym (off_room q (omega arith))) same_next
          freed-IsSound;
    apart = AllApart-replace page (before ++ after) cells qs rs store.heap.apart;
  }

  freed-Store : Store k' ps'
  freed-Store = record {
    heap = freed-IsHeap;
    formed = store.formed;
    few = store.few;
    distinct = store.distinct;
    placed = λ p m.
        let (aligned, pos, top, far) = store.placed p m in
        (aligned, pos, top, FarFrom-replace _ page _ _ qs rs far);
  }

  freed-unused : (q : ℕ) → node ≤ q → q < node + 8 + s → ¬ InUse k' ps' q
  freed-unused q lo hi (off, _) =
      omega (arith, freed_cells-covers q before node s after (OffPages-at q page cells qs rs off).1)

  freed-spared :
      (c n : ℕ)
      → 8 < n
      → (c + n ≤ node) ⊎ (node + 24 + s ≤ c)
      → ((q : ℕ) → c ≤ q → q < c + n → InUse k ps q)
      → (q : ℕ) → c ≤ q
      → q < c + n
      → (m' q ≡ k.bytes q) × InUse k' ps' q
  freed-spared c n wide out held q lo hi =
      let off =
        Clear-OffCells c n (before ++ after) (omega arith)
          (λ q lo hi. (OffPages-at q page _ qs rs (held q lo hi).0).1) in
      let (header, clear) = OffPages-at q page _ qs rs (held q lo hi).0 in
      (
        freed.others q (omega arith) (omega arith) (Clear-OffHeaders q (before ++ after) clear),
        (
          OffPages-put q page _ cells qs rs
              (OffCells-Clear c n q cells lo hi
                (OffCells-freed_cells c n before node s after wide out off))
              (held q lo hi).0,
          (held q lo hi).1,
        ),
      )

-- What a kfree leaves of the block of s bytes at node + 24 (its header starts at node): the heap `ps'` is well formed, the bytes of the header and of the block but its last 16 are out of use, every other range of more than 8 bytes in use, a block for one, has its values and stays in use, and no static variable changes.
pub record Released (k : Kernel) (ps : List HeapPage) (node s : ℕ) (k' : Kernel)
    (ps' : List HeapPage) : Type 0 where
  pub store : Store k' ps'
  pub unused : (q : ℕ) → node ≤ q → q < node + 8 + s → ¬ InUse k' ps' q
  pub spared :
      (c n : ℕ)
      → 8 < n
      → (c + n ≤ node) ⊎ (node + 24 + s ≤ c)
      → ((q : ℕ) → c ≤ q → q < c + n → InUse k ps q)
      → (q : ℕ) → c ≤ q
      → q < c + n
      → (k'.bytes q ≡ k.bytes q) × InUse k' ps' q
  pub rest : k' ≡ with_bytes (λ _. k'.bytes) k

-- kfree of a block of s > 0 bytes of a page of the heap, whose size word is in front of it and which lies between the free nodes of the page, from an open lock, a well-formed heap and free list and with fuel of at least 255, ends and returns true. The heap is well formed again, with the same pages. The bytes of the block fall out of use, all but its last 16; every other block of more than 8 bytes has its values and stays in use; and no static variable changes, so that the lock is open.
pub kfree-Releases :
    (k : Kernel) (fuel : ℕ) (qs rs : List HeapPage) (page : Ptr) (before : List Cell) (node s : ℕ)
    (after : List Cell)
    → Store k (qs ++ (page, before ++ after) ∷ rs)
    → page % 4096 ≡ 0
    → Layout (page + 32) node before
    → Layout (node + 24 + s) (page + 4096) after
    → load64 k.bytes (node + 16) ≡ s
    → 0 < s
    → k.memory_lock ≡ 0
    → 255 ≤ fuel
    → Returns
        (λ done k'.
          (done ≡ true)
          × Released k
              (qs ++ (page, before ++ after) ∷ rs)
              node
              s
              k'
              (qs ++ (page, freed_cells before node s after) ∷ rs))
        (kfree fuel (node + 24) k)
kfree-Releases k fuel qs rs page before node s after store aligned low high word some_bytes free
      enough =
    let sound =
      Pages-at k.bytes page k.memory.heap_pages (before ++ after) qs rs store.heap.pages in
    Returns.mono
      (kfree-Freed k fuel page before node s after sound.is_page low high word some_bytes
        sound.not_null aligned free enough)
      (λ done k' (d, freed, same). (
        d,
        rw same (record {
          store = freed-Store k qs rs page before node s after k'.bytes freed store low high;
          unused = freed-unused k qs rs page before node s after k'.bytes freed store low high;
          spared = freed-spared k qs rs page before node s after k'.bytes freed store low high;
          rest = refl;
        }),
      ))
