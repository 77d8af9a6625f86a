-- ===== src/Heap/Carve.antt =====
-- What kmalloc does to a page when it has found a node (src/kernel.c): it cuts a block from the front
-- of the node, and links what is left of it, or what follows it, in its place.
use side_h_os.Base.{
  ℕ, ◌+◌, ◌-◌, ◌≤◌, ◌<◌, ◌≡◌, refl, ◌⊎◌, inl, inr, List, ◌∷◌, ◌++◌, arith, ◌∙◌, ltb, if◌then◌else◌,
  true, false, Bool-cases, ltb→le,
}
use side_h_os.Base.Word.{add64, sub64}
use side_h_os.Bytes.{Bytes, load64, store64}
use side_h_os.Bytes.Words.{Outside, load64-store64, load64-store64-Apart, store64-Outside}
use side_h_os.Kernel.{Ptr, null}
use side_h_os.Kernel.Node
use side_h_os.Heap.{carve}
use side_h_os.Heap.Nodes.{
  Cell, Layout, end_slot, Points, Clear, Layout-weaken, Linked-Points, Points-Linked, Points-lt,
}
use side_h_os.Heap.Search.{last_node, slot_of, slot_of-last_node, relink-eq}
use side_h_os.Heap.Replace.{
  IsPage, parts, links, in_page, slot_bounds, replaced-IsPage, replaced-Clear, after-Points,
}

-- What is left where a block of `size` is cut from the node (a, l) in front of `after`, and how much
-- the block holds: where no node header fits behind it, it takes the whole node.
abbrev pub carve_cells : (size a l : ℕ) → List Cell → List Cell
carve_cells size a l after =
    if ltb (l - (size + 8)) 16 then after else (a + 16 + (size + 8), l - (size + 8) - 16) ∷ after

abbrev pub block_size : (size l : ℕ) → ℕ
block_size size l = if ltb (l - (size + 8)) 16 then size + (l - (size + 8)) else size

-- The outcome of kmalloc at the node (a, l): the page has the carved nodes, the size word of the block
-- says how much it holds, the block lies in the node in front of what is left of it, and no other byte
-- changes outside the first three words of the page and its free nodes.
pub record Carved (m m' : Bytes) (page : Ptr) (size : ℕ) (before : List Cell) (a l : ℕ)
    (after : List Cell) : Type 0 where
  pub is_page : IsPage m' page (before ++ carve_cells size a l after)
  pub size_word : load64 m' (a + 16) ≡ block_size size l
  pub enough : size ≤ block_size size l
  pub in_node : a + 24 + block_size size l ≤ a + 16 + l
  pub in_front : Layout (a + 24 + block_size size l) (page + 4096) (carve_cells size a l after)
  pub others :
      (q : ℕ) → (q < page) ⊎ (page + 24 ≤ q) → Clear q (before ++ (a, l) ∷ after) → m' q ≡ m q

module _ (m : Bytes) (page : Ptr) (size : ℕ) (before : List Cell) (a l : ℕ) (after : List Cell)
    (is : IsPage m page (before ++ (a, l) ∷ after)) (fit : size + 8 ≤ l) where
  abbrev pub prev : Ptr
  prev = last_node null before

  prev_slot : slot_of page prev ≡ end_slot page before
  prev_slot =
      slot_of-last_node page null (page + 32) a before (parts m page before a l after is).0
        (omega arith)

  abbrev rem : ℕ
  rem = l - (size + 8)

  base_eq : add64 a Node.size ≡ a + 16
  base_eq = omega (arith, in_page m page before a l after is, is.top)

  length_eq : load64 (store64 m (a + 16) size) a ≡ l
  length_eq =
      load64-store64-Apart m (a + 16) a size (omega arith) ∙ (links m page before a l after is).1.1

  rem_eq : sub64 l (add64 size 8) ≡ rem
  rem_eq = omega (arith, in_page m page before a l after is, is.top)

  size_rem : add64 size rem ≡ size + rem
  size_rem = omega (arith, in_page m page before a l after is, is.top)

  abbrev end_of_before : ℕ
  end_of_before = end_slot page before

  -- The node is used up.
  abbrev whole_bytes : Bytes
  whole_bytes = store64 (store64 m (a + 16) size) (a + 16) (size + rem)

  whole_near : (q : ℕ) → Outside (a + 16) l q → whole_bytes q ≡ m q
  whole_near q out =
      store64-Outside _ (a + 16) (size + rem) q (omega arith)
      ∙ store64-Outside m (a + 16) size q (omega arith)

  whole-Carved :
      ltb rem 16 ≡ true
      → Carved m
          (store64 whole_bytes end_of_before (load64 m (Node.next a)))
          page
          size
          before
          a
          l
          after
  whole-Carved whole =
      let points = after-Points m page before a l after is whole_bytes whole_near in
      let behind =
        Layout-weaken (a + 16 + l) (a + 16) (page + 4096) (page + 4096) after (omega arith)
          (omega arith) (parts m page before a l after is).1 in
      record {
        is_page = rw whole (
            replaced-IsPage m page before a l after is whole_bytes _ after whole_near points
              behind);
        size_word = rw whole (
            load64-store64-Apart whole_bytes end_of_before (a + 16) _
              (omega (arith, slot_bounds m page before a l after is))
            ∙ load64-store64 _ (a + 16) (size + rem)
                (omega (arith, in_page m page before a l after is, is.top)));
        enough = rw whole (omega arith);
        in_node = rw whole (omega arith);
        in_front = rw whole (
            Layout-weaken _ _ _ _ after (omega arith) (omega arith)
              (parts m page before a l after is).1);
        others =
            replaced-Clear m page before a l after is whole_bytes _ after whole_near points behind;
      }

  -- The node behind the block.
  abbrev new_node : ℕ
  new_node = a + 16 + (size + 8)

  new_eq : ltb rem 16 ≡ false → add64 (a + 16) (add64 size 8) ≡ new_node
  new_eq split = omega (arith, ltb→le _ _ split, in_page m page before a l after is, is.top)

  rest_eq : ltb rem 16 ≡ false → sub64 rem 16 ≡ rem - 16
  rest_eq split = omega (arith, ltb→le _ _ split, in_page m page before a l after is, is.top)

  abbrev split_bytes : Bytes
  split_bytes =
      store64 (store64 (store64 m (a + 16) size) new_node (rem - 16)) (Node.next new_node)
        (load64 m (Node.next a))

  split_near : ltb rem 16 ≡ false → (q : ℕ) → Outside (a + 16) l q → split_bytes q ≡ m q
  split_near split q out =
      let room = ltb→le _ _ split in
      let bounds = in_page m page before a l after is in
      store64-Outside _ (Node.next new_node) _ q (omega (arith, is.top))
      ∙ store64-Outside _ new_node (rem - 16) q (omega arith)
      ∙ store64-Outside m (a + 16) size q (omega arith)

  split-Points : ltb rem 16 ≡ false → Points split_bytes new_node ((new_node, rem - 16) ∷ after)
  split-Points split =
      let room = ltb→le _ _ split in
      let bounds = in_page m page before a l after is in
      (
        refl,
        load64-store64-Apart _ (Node.next new_node) new_node _ (omega (arith, is.top))
            ∙ load64-store64 _ new_node (rem - 16) (omega (arith, is.top)),
        Points-Linked split_bytes (Node.next new_node) _ after
            (load64-store64 _ (Node.next new_node) _ (
              Points-lt m _ (a + 16 + l) (page + 4096) after
                (Linked-Points m (Node.next a) after (links m page before a l after is).1.2)
                (parts m page before a l after is).1 is.top))
            (after-Points m page before a l after is split_bytes (split_near split)),
      )

  split-Carved :
      ltb rem 16 ≡ false
      → Carved m (store64 split_bytes end_of_before new_node) page size before a l after
  split-Carved split =
      let room = ltb→le _ _ split in
      let points = split-Points split in
      let rest = (parts m page before a l after is).1 in
      let behind : Layout (a + 16) (page + 4096) ((new_node, rem - 16) ∷ after) = (
        omega arith,
        Layout-weaken (a + 16 + l) (new_node + 16 + (rem - 16)) (page + 4096) (page + 4096) after
            (omega arith) (omega arith) rest,
      ) in
      record {
        is_page = rw split (
            replaced-IsPage m page before a l after is split_bytes new_node
              ((new_node, rem - 16) ∷ after) (split_near split) points behind);
        size_word = rw split (
            load64-store64-Apart split_bytes end_of_before (a + 16) _
              (omega (arith, slot_bounds m page before a l after is))
            ∙ load64-store64-Apart _ (Node.next new_node) (a + 16) _
                (omega (arith, in_page m page before a l after is, is.top))
            ∙ load64-store64-Apart _ new_node (a + 16) _ (omega arith)
            ∙ load64-store64 m (a + 16) size
                (omega (arith, in_page m page before a l after is, is.top)));
        enough = rw split (omega arith);
        in_node = rw split (omega arith);
        in_front = rw split (omega arith, behind.1);
        others =
            replaced-Clear m page before a l after is split_bytes new_node
              ((new_node, rem - 16) ∷ after) (split_near split) points behind;
      }

  pub carve-Carved : Carved m (carve size page prev a m) page size before a l after
  unfolding carve
  carve-Carved = elim (Bool-cases (ltb rem 16)) [
    | inl whole ↦
        rw (base_eq, length_eq, rem_eq, whole, size_rem, relink-eq page prev, prev_slot)
          (whole-Carved whole)
    | inr split ↦
        rw
          (
            base_eq,
            length_eq,
            rem_eq,
            split,
            new_eq split,
            rest_eq split,
            relink-eq page prev,
            prev_slot,
          )
          (split-Carved split)
  ]
