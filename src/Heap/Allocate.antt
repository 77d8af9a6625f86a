-- ===== src/Heap/Allocate.antt =====
-- A block from one page (src/kernel.c, kmalloc): the search, the cut and the new value of `largest`
-- taken together.
use side_h_os.Base.{
  ℕ, ◌+◌, ◌-◌, ◌≤◌, ◌<◌, ◌≡◌, refl, ◌⊎◌, inl, inr, List, [], ◌∷◌, ◌++◌, arith, ◌∙◌, sym, ltb, ◌==◌,
  if◌then◌else◌, false, Bool-cases, length, length-append,
}
use side_h_os.Base.Word.{add64, u64_mod}
use side_h_os.Bytes.{Bytes, load64, store64}
use side_h_os.Bytes.Words.{load64-store64, load64-store64-Apart, store64-Outside}
use side_h_os.Kernel.{Ptr, null, Kernel, ok, with_bytes, Cmd, pure, modify, ◌>>◌}
use side_h_os.Kernel.Node
use side_h_os.Kernel.Page
use side_h_os.Kernel.Returns
use side_h_os.Kernel.Returns.{Returns, returns}
use side_h_os.Heap.{carve, update_largest, allocate_in_page}
use side_h_os.Heap.Nodes.{Cell, Layout, Layout-le, Linked-Agree, Layout-split}
use side_h_os.Heap.Search.{
  last_node, AllShort, Search, absent, found, find_node-Search, longest, max_length-longest,
}
use side_h_os.Heap.Replace.{IsPage}
use side_h_os.Heap.Carve.{carve_cells, Carved, carve-Carved}

longest-lt :
    (acc lo hi : ℕ) (xs : List Cell)
    → Layout lo hi xs
    → hi ≤ u64_mod
    → acc < u64_mod
    → longest acc xs < u64_mod
longest-lt acc lo hi [] lay top small = small
longest-lt acc lo hi ((a, l) ∷ xs) lay top small =
    let below = Layout-le (a + 16 + l) hi xs lay.1 in
    longest-lt (if ltb acc l then l else acc) (a + 16 + l) hi xs lay.1 top
      (elim (Bool-cases (ltb acc l)) [
        | inl more ↦ rw more (omega arith)
        | inr less ↦ rw less small
      ])

-- A cut does not lengthen the list.
length-carve_cells :
    (size a l : ℕ) (before after : List Cell)
    → length (before ++ carve_cells size a l after) ≤ length (before ++ (a, l) ∷ after)
length-carve_cells size a l before after =
    rw (length-append before ((a, l) ∷ after), length-append before (carve_cells size a l after))
      (elim (Bool-cases (ltb (l - (size + 8)) 16)) [
        | inl whole ↦ rw whole (omega arith)
        | inr split ↦ rw split (omega arith)
      ])

-- The header's `largest` is a word that no list of nodes reads.
module _ (m : Bytes) (page v : ℕ) (xs : List Cell) (is : IsPage m page xs) where
  abbrev after_store : Bytes
  after_store = store64 m (Page.largest page) v

  largest_bounds : page + 32 ≤ page + 4096
  largest_bounds = omega arith

  largest-IsPage : IsPage after_store page xs
  largest-IsPage = record {
    linked =
        Linked-Agree m after_store page (page + 32) (page + 4096) xs is.linked is.layout is.top
          (load64-store64-Apart m (Page.largest page) page v (omega (arith, is.top)))
          (λ q lo hi. sym (store64-Outside m (Page.largest page) v q (omega (arith, is.top))));
    layout = is.layout;
    top = is.top;
  }

-- What a page says of its longest node is true.
abbrev pub IsExact : Bytes → Ptr → List Cell → Type 0
IsExact m page xs = load64 m (Page.largest page) ≡ longest 0 xs

-- A block of at least `size` bytes that kmalloc hands out at b, out of the node (a, l) of a page.
pub record Served (k k' : Kernel) (page : Ptr) (size : ℕ) (before : List Cell) (a l : ℕ)
    (after : List Cell) (b : Ptr) : Type 0 where
  pub address : b ≡ a + 24
  pub state : k' ≡ with_bytes (λ _. k'.bytes) k
  pub carved : Carved k.bytes k'.bytes page size before a l after
  pub exact : IsExact k'.bytes page (before ++ carve_cells size a l after)

module _ (m m' : Bytes) (page : Ptr) (size : ℕ) (before : List Cell) (a l : ℕ) (after : List Cell)
    (c : Carved m m' page size before a l after) (v : ℕ) where
  abbrev cells : List Cell
  cells = before ++ carve_cells size a l after

  abbrev done : Bytes
  done = store64 m' (Page.largest page) v

  largest-Carved : page + 32 ≤ a → Carved m done page size before a l after
  largest-Carved low = record {
    is_page = largest-IsPage m' page v cells c.is_page;
    size_word =
        load64-store64-Apart m' (Page.largest page) (a + 16) v (omega (arith, c.is_page.top))
        ∙ c.size_word;
    enough = c.enough;
    in_node = c.in_node;
    in_front = c.in_front;
    others = λ q off clear.
        store64-Outside m' (Page.largest page) v q (omega (arith, c.is_page.top))
        ∙ c.others q off clear;
  }

-- The outcome of kmalloc at a page: the first node that is long enough serves, or every node is too
-- short and nothing changes.
abbrev pub Outcome : (k : Kernel) (page : Ptr) (size : ℕ) → List Cell → Ptr → Kernel → Type 0
Outcome k page size xs b k' =
    ((before : List Cell) × (a : ℕ) × (l : ℕ) × (after : List Cell) × (xs
        ≡ before ++ (a, l) ∷ after)
      × AllShort (size + 8) before
      × (size + 8 ≤ l)
      × Served k k' page size before a l after b)
    ⊎ (AllShort (size + 8) xs × (b ≡ null) × (k' ≡ k))

update_largest-eq :
    (k : Kernel) (fuel : ℕ) (page : Ptr) (xs : List Cell)
    → IsPage k.bytes page xs
    → length xs < fuel
    → update_largest fuel page k
      ≡ ok tt (with_bytes (λ m. store64 m (Page.largest page) (longest 0 xs)) k)
unfolding update_largest
update_largest-eq k fuel page xs is enough =
    rw
      (max_length-longest k.bytes fuel page 0 (page + 32) (page + 4096) xs is.linked is.layout
        (omega arith) enough)
      refl

module _ (k : Kernel) (fuel : ℕ) (page : Ptr) (size : ℕ) (top : page + 4096 < u64_mod) where
  -- The block is cut, and `largest` brought up to date.
  serve :
      (before : List Cell) (a l : ℕ) (after : List Cell)
      → IsPage k.bytes page (before ++ (a, l) ∷ after)
      → size + 8 ≤ l
      → length (before ++ (a, l) ∷ after) < fuel
      → page + 32 ≤ a
      → Carved k.bytes
          (carve size page (last_node null before) a k.bytes)
          page
          size
          before
          a
          l
          after
      → Served k
          (with_bytes
            (λ m.
              store64
                (carve size page (last_node null before) a m)
                (Page.largest page)
                (longest 0 (before ++ carve_cells size a l after)))
            k)
          page
          size
          before
          a
          l
          after
          (add64 (add64 a Node.size) 8)
  serve before a l after is fit enough low c =
      let bounds = Layout-split (page + 32) (page + 4096) before a l after is.layout in
      let below = Layout-le _ _ after bounds.1 in
      record {
        address = omega arith;
        state = refl;
        carved = largest-Carved k.bytes _ page size before a l after c _ low;
        exact =
            load64-store64 _ (Page.largest page) _ (
              longest-lt 0 (page + 32) (page + 4096) _ c.is_page.layout c.is_page.top
                (omega arith));
      }

  at_node : (a : ℕ) → page + 32 ≤ a → (a == null) ≡ false
  at_node a low = ground arith

  -- The rest of kmalloc, once the search has ended.
  abbrev finish : Ptr × Ptr → Cmd Ptr
  finish (prev, node) =
      if node == null
      then pure null
      else modify (with_bytes (carve size page prev node))
        >> (update_largest fuel page >> pure (add64 (add64 node Node.size) 8))

  finish-Served :
      (before : List Cell) (a l : ℕ) (after : List Cell)
      → IsPage k.bytes page (before ++ (a, l) ∷ after)
      → size + 8 ≤ l
      → length (before ++ (a, l) ∷ after) < fuel
      → Returns
          (λ b k'. Served k k' page size before a l after b)
          (finish (last_node null before, a) k)
  finish-Served before a l after is fit enough =
      let low =
        Layout-le (page + 32) a before
          (Layout-split (page + 32) (page + 4096) before a l after is.layout).0 in
      let c = carve-Carved k.bytes page size before a l after is fit in
      rw
        (
          at_node a low,
          update_largest-eq (with_bytes (carve size page (last_node null before) a) k) fuel page
              (before ++ carve_cells size a l after) c.is_page
              (omega (arith, length-carve_cells size a l before after)),
        )
        (returns (serve before a l after is fit enough low c))

  finish-Outcome :
      (xs : List Cell) (r : Ptr × Ptr)
      → IsPage k.bytes page xs
      → length xs < fuel
      → Search (size + 8) null xs r
      → Returns (Outcome k page size xs) (finish r k)
  finish-Outcome xs r is enough (absent all) = returns (inr (all, refl, refl))
  finish-Outcome xs r is enough (found before a l after e short fit) =
      Returns.mono (finish-Served before a l after (rw (sym e) is) fit (rw (sym e) enough))
        (λ b k' s. inl (before, a, l, after, e, short, fit, s))

  -- kmalloc at a page whose list of free nodes is well formed ends, with more fuel than there are nodes. Either the first node that has room for the block and its size word serves: the block starts 24 bytes behind that node's address and has at least the size asked for, inside the node; the list is well formed, without the part that is handed out; `largest` is the length of the longest node left; and no byte changes outside the first three words of the page's header and its free nodes. Or every node is too short, and it answers NULL and changes nothing.
  pub allocate_in_page-Outcome :
      (xs : List Cell)
      → IsPage k.bytes page xs
      → length xs < fuel
      → size + 8 < u64_mod
      → Returns (Outcome k page size xs) (allocate_in_page fuel size page k)
  unfolding allocate_in_page
  allocate_in_page-Outcome xs is enough small =
      let (r, e, search) =
        find_node-Search k.bytes (size + 8) fuel null page (page + 32) (page + 4096) xs is.linked
          is.layout (omega arith) enough in
      rw (total_eq, e) (finish-Outcome xs r is enough search)
    where
      total_eq : add64 size 8 ≡ size + 8
      total_eq = omega arith
