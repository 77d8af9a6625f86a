-- ===== src/Heap/Kfree.antt =====
-- kfree of a block of a page (src/kernel.c): the node goes back into the list of its page, and nodes
-- with a size word between them become one.
use side_h_os.Base.{
  ℕ, ◌+◌, ◌%◌, ◌≤◌, ◌<◌, ◌≡◌, refl, some, List, ◌∷◌, ◌++◌, arith, ◌∙◌, sym, ltb, ◌==◌,
  if◌then◌else◌, true, false, le→ltb,
}
use side_h_os.Base.Word.{sub64, page_floor}
use side_h_os.Bytes.{Bytes, load64, store64}
use side_h_os.Bytes.Words.{Outside, load64-store64, load64-store64-Apart, store64-Outside}
use side_h_os.Kernel.{Ptr, null, Kernel, ok, with_bytes}
use side_h_os.Kernel.Node
use side_h_os.Kernel.Returns.{Returns, returns}
use side_h_os.Heap.{
  find_position, insert_node, merge_loop, kfree_small, kfree, small_page_maximum_size,
}
use side_h_os.Heap.Nodes.{
  Cell, Layout, Linked, end_slot, Layout-le, Layout-split, Layout-join, Layout-weaken, Linked-split,
  Linked-join, Thread-Agree, Linked-Agree, end_slot_bounds,
}
use side_h_os.Heap.Search.{last_node}
use side_h_os.Heap.Replace.{IsPage}
use side_h_os.Heap.Merge.{OffHeaders, merge_loop-Merged}
use side_h_os.Heap.Blocks.{length-Layout}
use side_h_os.Heap.Insert.{
  find_position-between, inserted, Between, Between-Linked, inserted-Between,
}
use side_h_os.Heap.MergeAt.{
  freed_cells, start, merged-IsPage, OffHeaders-split, OffHeaders-insert, end_slot-OffHeaders,
}

-- What kfree does to a page: the block is among its nodes again, and no byte changes but the first
-- word of the page and the headers of its nodes, the new one's included.
pub record Freed (m m' : Bytes) (page : Ptr) (before : List Cell) (node s : ℕ) (after : List Cell)
    : Type 0 where
  pub is_page : IsPage m' page (freed_cells before node s after)
  pub others :
      (q : ℕ) → Outside page 8 q → Outside node 16 q → OffHeaders q (before ++ after) → m' q ≡ m q

module _ (m : Bytes) (page : Ptr) (before : List Cell) (node s : ℕ) (after : List Cell) (fuel : ℕ)
    (is : IsPage m page (before ++ after)) (low : Layout (page + 32) node before)
    (high : Layout (node + 24 + s) (page + 4096) after) (word : load64 m (node + 16) ≡ s)
    (pos : 0 < page) (enough : 255 ≤ fuel) where
  abbrev tail : Layout (node + 16 + s) (page + 4096) after
  tail =
      Layout-weaken (node + 24 + s) (node + 16 + s) (page + 4096) (page + 4096) after (omega arith)
        (omega arith) high

  room : (page + 32 ≤ node) × (node + 24 + s ≤ page + 4096)
  room = (Layout-le (page + 32) node before low, Layout-le (node + 24 + s) (page + 4096) after high)

  -- The length of the node is written.
  abbrev sized : Bytes
  sized = store64 m node s

  sized-length : load64 sized node ≡ s
  sized-length = load64-store64 m node s (omega (arith, room, is.top))

  sized-Linked : Linked sized page (before ++ after)
  sized-Linked =
      let (t, rest) = Linked-split m page before after is.linked in
      let ends =
        end_slot_bounds page (page + 32) node before low (omega arith)
          (omega (arith, room, is.top)) in
      Linked-join sized page before after
        (Thread-Agree m sized page (page + 32) node before t low (omega (arith, room, is.top))
          (load64-store64-Apart m node page s (omega (arith, room)))
          (λ q u v. sym (store64-Outside m node s q (omega arith))))
        (Linked-Agree m sized (end_slot page before) (node + 16 + s) (page + 4096) after rest tail
          is.top (load64-store64-Apart m node (end_slot page before) s (omega (arith, ends)))
          (λ q u v. sym (store64-Outside m node s q (omega arith))))

  abbrev linked_in : Bytes
  linked_in = inserted sized page node s before after sized-Linked low tail is.top sized-length pos

  abbrev between :
      Between sized page node s before after sized-Linked low tail is.top sized-length pos linked_in
  between =
      inserted-Between sized page node s before after sized-Linked low tail is.top sized-length pos

  linked_in-IsPage : IsPage linked_in page (before ++ (node, s) ∷ after)
  linked_in-IsPage = record {
    linked =
        Between-Linked sized page node s before after sized-Linked low tail is.top sized-length pos
          linked_in between;
    layout =
        Layout-join (page + 32) node (page + 4096) before ((node, s) ∷ after) low
          (omega arith, tail);
    top = is.top;
  }

  abbrev from : Ptr
  from = if last_node null before == null then node else last_node null before

  merged_at :
      (m' : Bytes) × (merge_loop fuel from linked_in ≡ some m')
      × Freed m m' page before node s after
  merged_at =
      let t = start (page + 32) before node s after low (omega arith) in
      let is' : IsPage linked_in page (t.bs ++ (from, t.len) ∷ t.xs) =
        rw (sym t.cells) linked_in-IsPage in
      let lays = Layout-split (page + 32) (page + 4096) t.bs from t.len t.xs is'.layout in
      let first = Layout-le (page + 32) from t.bs lays.0 in
      let (_, rest) = Linked-split linked_in page t.bs ((from, t.len) ∷ t.xs) is'.linked in
      let (m', run, g) =
        merge_loop-Merged fuel from t.len (page + 4096) t.xs linked_in rest.1 rest.2 lays.1
          (omega arith) is.top
          (omega (arith, length-Layout (from + 16 + t.len) (page + 4096) t.xs lays.1)) in
      (
        m',
        run,
        record {
          is_page = rw t.freed (merged-IsPage linked_in page t.bs from t.len t.xs is' m' g);
          others = λ q off_page off_node off.
              let all : OffHeaders q (t.bs ++ (from, t.len) ∷ t.xs) =
                rw (sym t.cells) (OffHeaders-insert q before node s after off off_node) in
              g.others q (OffHeaders-split q t.bs from t.len t.xs all).1
              ∙ between.others q
                  (end_slot-OffHeaders q page (page + 32) node before after low
                    (omega (arith, room, is.top)) off_page off)
                  (omega (arith, room, is.top))
              ∙ store64-Outside m node s q (omega arith);
        },
      )

-- The run of kfree, from what its loops give.
kfree-run :
    (k : Kernel) (fuel : ℕ) (page node s prev cursor : ℕ) (m' : Bytes)
    → k.memory_lock ≡ 0
    → page_floor (node + 24) ≡ page
    → sub64 (node + 24) 8 ≡ node + 16
    → sub64 (node + 16) Node.size ≡ node
    → load64 k.bytes (node + 16) ≡ s
    → ltb small_page_maximum_size s ≡ false
    → find_position fuel (store64 k.bytes node s) node null (load64 (store64 k.bytes node s) page)
      ≡ some (prev, cursor)
    → merge_loop fuel
        (if prev == null then node else prev)
        (insert_node page prev node cursor (store64 k.bytes node s))
      ≡ some m'
    → kfree fuel (node + 24) k ≡ ok true (with_bytes (λ _. m') k)
unfolding kfree kfree_small
kfree-run k fuel page node s prev cursor m' free page_eq base_eq node_eq word small found run =
    rw (free, page_eq, base_eq, word, small, node_eq, word, found, run) refl

pub kfree-Freed :
    (k : Kernel) (fuel : ℕ) (page : Ptr) (before : List Cell) (node s : ℕ) (after : List Cell)
    → IsPage k.bytes page (before ++ after)
    → Layout (page + 32) node before
    → Layout (node + 24 + s) (page + 4096) after
    → load64 k.bytes (node + 16) ≡ s
    → 0 < s
    → 0 < page
    → page % 4096 ≡ 0
    → k.memory_lock ≡ 0
    → 255 ≤ fuel
    → Returns
        (λ done k'.
          (done ≡ true)
          × Freed k.bytes k'.bytes page before node s after
          × (k' ≡ with_bytes (λ _. k'.bytes) k))
        (kfree fuel (node + 24) k)
kfree-Freed k fuel page before node s after is low high word some_bytes pos aligned free enough =
    let (m', run, freed) =
      merged_at k.bytes page before node s after fuel is low high word pos enough in
    let at_room = room k.bytes page before node s after fuel is low high word pos enough in
    let page_eq : page_floor (node + 24) ≡ page = omega (arith, at_room) in
    let base_eq : sub64 (node + 24) 8 ≡ node + 16 = omega (arith, at_room, is.top) in
    let node_eq : sub64 (node + 16) Node.size ≡ node = omega (arith, at_room, is.top) in
    let small : ltb small_page_maximum_size s ≡ false =
      le→ltb small_page_maximum_size s (omega (arith, at_room)) in
    let found =
      find_position-between
        (sized k.bytes page before node s after fuel is low high word pos enough) node fuel null
        page (page + 32) (page + 4096) before after
        (sized-Linked k.bytes page before node s after fuel is low high word pos enough) low
        (Layout-weaken (node + 24 + s) node (page + 4096) (page + 4096) after (omega arith)
          (omega arith) high)
        (omega arith) (omega (arith, length-Layout (page + 32) node before low)) in
    rw (kfree-run k fuel page node s _ _ m' free page_eq base_eq node_eq word small found run)
      (returns (refl, freed, refl))
