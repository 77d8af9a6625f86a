-- ===== src/Heap/Insert.antt =====
-- A block that kfree puts back into the list of its page (src/kernel.c): the place in order of
-- address, and the words that lead to and from it.
use side_h_os.Base.{
  ℕ, zero, suc, ◌+◌, ◌≤◌, ◌<◌, ◌≡◌, refl, some, List, [], ◌∷◌, ◌++◌, arith, ◌∙◌, sym, lt→ltb,
  le→ltb, length,
}
use side_h_os.Base.Word.{u64_mod}
use side_h_os.Bytes.{Bytes, load64, store64}
use side_h_os.Bytes.Words.{
  Outside, load64-store64, load64-store64-Apart, load64-past, store64-Outside,
}
use side_h_os.Kernel.{null_no, Ptr, null}
use side_h_os.Kernel.Node
use side_h_os.Heap.{find_position, insert_node}
use side_h_os.Heap.Nodes.{
  Cell, Layout, Linked, Thread, end_slot, Points, Layout-le, Linked-split, Linked-join,
  Linked-Points, Points-Linked, Points-Agree, Points-lt, Thread-Agree, Thread-store,
  end_slot_bounds,
}
use side_h_os.Heap.Search.{last_node}

-- The walk stops between the nodes below `node` and those behind it.
pub find_position-between :
    (m : Bytes) (node : Ptr) (f prev s lo hi : ℕ) (before after : List Cell)
    → Linked m s (before ++ after)
    → Layout lo node before
    → Layout node hi after
    → 0 < lo
    → length before < f
    → find_position f m node prev (load64 m s)
      ≡ some (last_node prev before, load64 m (end_slot s before))
unfolding find_position
find_position-between m node zero prev s lo hi before after h low high pos fuel = elim fuel [ ]
find_position-between m node (suc f) prev s lo hi [] [] h low high pos fuel = rw h refl
find_position-between m node (suc f) prev s lo hi [] ((b, k) ∷ after) h low high pos fuel =
    rw (h.0, null_no b (omega arith), le→ltb b node high.0) refl
find_position-between m node (suc f) prev s lo hi ((a, l) ∷ before) after h low high pos fuel =
    let under = Layout-le (a + 16 + l) node before low.1 in
    let walk =
      find_position-between m node f a (Node.next a) (a + 16 + l) hi before after h.2 low.1 high
        (omega arith) (omega arith) in
    rw (h.0, null_no a (omega arith), lt→ltb a node (omega arith)) walk

-- The node `node` of length s is linked in between `before` and `after`.
module _ (m : Bytes) (page node s : ℕ) (before after : List Cell)
    (link : Linked m page (before ++ after)) (low : Layout (page + 32) node before)
    (high : Layout (node + 16 + s) (page + 4096) after) (top : page + 4096 ≤ u64_mod)
    (len : load64 m node ≡ s) (pos : 0 < page) where
  abbrev pub slot : ℕ
  slot = end_slot page before

  abbrev pub parts : Thread m page before × Linked m slot after
  parts = Linked-split m page before after link

  pub bounds :
      (page ≤ slot) × (slot + 8 ≤ node) × (node + 16 + s ≤ page + 4096) × (page + 32 ≤ node)
  bounds =
      let under = Layout-le (page + 32) node before low in
      let over = Layout-le (node + 16 + s) (page + 4096) after high in
      let ends = end_slot_bounds page (page + 32) node before low (omega arith) (omega arith) in
      omega (arith, ends)

  abbrev pub inserted : Bytes
  inserted = insert_node page (last_node null before) node (load64 m slot) m

  head-Points : Points m (load64 m slot) after
  head-Points = Linked-Points m slot after parts.1

  head_small : load64 m slot < u64_mod
  head_small = Points-lt m (load64 m slot) (node + 16 + s) (page + 4096) after head-Points high top

  -- What the stores come to, whichever way round they are.
  pub record Between (m' : Bytes) : Type 0 where
    pub thread : Thread m' page before
    pub to_node : load64 m' slot ≡ node
    pub from_node : load64 m' (Node.next node) ≡ load64 m slot
    pub length_kept : load64 m' node ≡ s
    pub others : (q : ℕ) → Outside slot 8 q → Outside (Node.next node) 8 q → m' q ≡ m q

  pub Between-Linked : (m' : Bytes) → Between m' → Linked m' page (before ++ (node, s) ∷ after)
  Between-Linked m' b = Linked-join m' page before ((node, s) ∷ after) b.thread (
    b.to_node,
    b.length_kept,
    Points-Linked m' (Node.next node) (load64 m slot) after b.from_node (
        Points-Agree m m' (load64 m slot) (node + 16 + s) (page + 4096) after head-Points high top
          (λ q u v. sym (b.others q (omega (arith, bounds)) (omega (arith, bounds))))),
  )

last_pos :
    (p lo hi a l : ℕ) (xs : List Cell)
    → Layout lo hi ((a, l) ∷ xs)
    → 0 < lo
    → 0 < last_node p ((a, l) ∷ xs)
last_pos p lo hi a l [] lay pos = omega arith
last_pos p lo hi a l ((b, k) ∷ xs) lay pos = last_pos a (a + 16 + l) hi b k xs lay.1 (omega arith)

next-last_node :
    (p s a l : ℕ) (xs : List Cell)
    → Node.next (last_node p ((a, l) ∷ xs)) ≡ end_slot s ((a, l) ∷ xs)
next-last_node p s a l [] = refl
next-last_node p s a l ((b, k) ∷ xs) = next-last_node a (Node.next a) b k xs

pub inserted-Between :
    (m : Bytes) (page node s : ℕ) (before after : List Cell)
    (link : Linked m page (before ++ after)) (low : Layout (page + 32) node before)
    (high : Layout (node + 16 + s) (page + 4096) after) (top : page + 4096 ≤ u64_mod)
    (len : load64 m node ≡ s) (pos : 0 < page)
    → Between m page node s before after link low high top len pos
        (inserted m page node s before after link low high top len pos)
inserted-Between m page node s [] after link low high top len pos =
    let b = bounds m page node s [] after link low high top len pos in
    let small = head_small m page node s [] after link low high top len pos in
    record {
      thread = tt;
      to_node = load64-store64 _ page node (omega (arith, b));
      from_node =
          load64-past _ page (Node.next node) node (omega (arith, b))
            (load64-store64 m (Node.next node) _ small);
      length_kept =
          load64-past _ page node node (omega (arith, b))
            (load64-past m (Node.next node) node _ (omega (arith, b)) len);
      others = λ q off_slot off_node.
          store64-Outside _ page node q off_slot ∙ store64-Outside m (Node.next node) _ q off_node;
    }
inserted-Between m page node s ((a, l) ∷ xs) after link low high top len pos =
    let b = bounds m page node s ((a, l) ∷ xs) after link low high top len pos in
    let small = head_small m page node s ((a, l) ∷ xs) after link low high top len pos in
    let t = (parts m page node s ((a, l) ∷ xs) after link low high top len pos).0 in
    let at = end_slot page ((a, l) ∷ xs) in
    let m₁ = store64 m at node in
    let m₂ = store64 m₁ (Node.next node) (load64 m at) in
    let eq : insert_node page (last_node null ((a, l) ∷ xs)) node (load64 m at) m ≡ m₂ =
      rw
        (
          null_no (last_node null ((a, l) ∷ xs))
              (last_pos null (page + 32) node a l xs low (omega arith)),
          next-last_node null page a l xs,
        )
        refl in
    let built : Between m page node s ((a, l) ∷ xs) after link low high top len pos m₂ = record {
      thread =
          Thread-Agree m₁ m₂ page (page + 32) node ((a, l) ∷ xs)
            (Thread-store m page (page + 32) node node ((a, l) ∷ xs) t low (omega arith)
              (omega (arith, b)))
            low (omega (arith, b))
            (load64-store64-Apart m₁ (Node.next node) page _ (omega (arith, b)))
            (λ q u v. sym (store64-Outside m₁ (Node.next node) _ q (omega (arith, b))));
      to_node =
          load64-past m₁ (Node.next node) at _ (omega (arith, b))
            (load64-store64 m at node (omega (arith, b)));
      from_node = load64-store64 m₁ (Node.next node) _ small;
      length_kept =
          load64-past m₁ (Node.next node) node _ (omega (arith, b))
            (load64-past m at node node (omega (arith, b)) len);
      others = λ q off_slot off_node.
          store64-Outside m₁ (Node.next node) _ q off_node ∙ store64-Outside m at node q off_slot;
    } in
    rw eq built
