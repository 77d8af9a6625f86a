-- ===== src/Heap/MergeAt.antt =====
-- The merging of kfree on a page (src/kernel.c): where it starts, and what it leaves of the page.
use side_h_os.Base.{
  ℕ, ◌+◌, ◌≤◌, ◌<◌, ◌≡◌, refl, List, [], ◌∷◌, ◌++◌, arith, ap, ◌∙◌, sym, ◌==◌, if◌then◌else◌,
}
use side_h_os.Base.Word.{u64_mod}
use side_h_os.Bytes.{Bytes}
use side_h_os.Bytes.Words.{Outside, load64-agree}
use side_h_os.Kernel.{null_no, Ptr, null}
use side_h_os.Kernel.Node
use side_h_os.Heap.Nodes.{
  Cell, Layout, Linked, Thread, end_slot, Layout-le, Layout-split, Layout-join, Linked-split,
  Linked-join, Points-Linked, Thread-Agree, end_slot_bounds,
}
use side_h_os.Heap.Search.{last_node}
use side_h_os.Heap.Replace.{IsPage}
use side_h_os.Heap.Merge.{merge_from, OffHeaders, OffHeaders-below, merge_from-Layout, Merged}

-- The nodes of the page once the block (node, s) is back between `before` and `after`: the merging
-- starts at the node in front of it.
abbrev pub freed_cells : (before : List Cell) → (node s : ℕ) → (after : List Cell) → List Cell
freed_cells [] node s after = merge_from node s after
freed_cells ((a, l) ∷ []) node s after = merge_from a l ((node, s) ∷ after)
freed_cells ((a, l) ∷ (b, k) ∷ xs) node s after = (a, l) ∷ freed_cells ((b, k) ∷ xs) node s after

-- Where the merging starts: bs in front of it, xs behind.
pub record Start (before : List Cell) (node s : ℕ) (after : List Cell) (from : Ptr) : Type 0 where
  pub bs : List Cell
  pub len : ℕ
  pub xs : List Cell
  pub cells : before ++ (node, s) ∷ after ≡ bs ++ (from, len) ∷ xs
  pub freed : freed_cells before node s after ≡ bs ++ merge_from from len xs

start_inner :
    (a l : ℕ) (before : List Cell) (node s : ℕ) (after : List Cell)
    → Start ((a, l) ∷ before) node s after (last_node a before)
start_inner a l [] node s after = record {
  bs = [];
  len = l;
  xs = (node, s) ∷ after;
  cells = refl;
  freed = refl;
}
start_inner a l ((b, k) ∷ before) node s after =
    let t = start_inner b k before node s after in
    record {
      bs = (a, l) ∷ t.bs;
      len = t.len;
      xs = t.xs;
      cells = ap (λ ys. (a, l) ∷ ys) t.cells;
      freed = ap (λ ys. (a, l) ∷ ys) t.freed;
    }

last_pos :
    (a lo hi l : ℕ) (xs : List Cell) → Layout lo hi ((a, l) ∷ xs) → 0 < lo → 0 < last_node a xs
last_pos a lo hi l [] lay pos = omega arith
last_pos a lo hi l ((b, k) ∷ xs) lay pos = last_pos b (a + 16 + l) hi k xs lay.1 (omega arith)

pub start :
    (lo : ℕ) (before : List Cell) (node s : ℕ) (after : List Cell)
    → Layout lo node before
    → 0 < lo
    → Start before node s after
        (if last_node null before == null then node else last_node null before)
start lo [] node s after lay pos = record {
  bs = [];
  len = s;
  xs = after;
  cells = refl;
  freed = refl;
}
start lo ((a, l) ∷ before) node s after lay pos =
    rw (null_no (last_node a before) (last_pos a lo node l before lay pos))
      (start_inner a l before node s after)

-- The merging on a page: the nodes in front of its start stay.
module _ (m : Bytes) (page : Ptr) (bs : List Cell) (a l : ℕ) (xs : List Cell)
    (is : IsPage m page (bs ++ (a, l) ∷ xs)) (m' : Bytes) (g : Merged m a l xs m') where
  abbrev lays : Layout (page + 32) a bs × Layout (a + 16 + l) (page + 4096) xs
  lays = Layout-split (page + 32) (page + 4096) bs a l xs is.layout

  abbrev links : Thread m page bs × Linked m (end_slot page bs) ((a, l) ∷ xs)
  links = Linked-split m page bs ((a, l) ∷ xs) is.linked

  below : (q : ℕ) → q < a → m' q ≡ m q
  below q h =
      g.others q
        (omega arith, OffHeaders-below q (a + 16 + l) (page + 4096) xs lays.1 (omega arith))

  pub merged-IsPage : IsPage m' page (bs ++ merge_from a l xs)
  merged-IsPage =
      let lo = Layout-le (page + 32) a bs lays.0 in
      let hi = Layout-le (a + 16 + l) (page + 4096) xs lays.1 in
      let ends =
        end_slot_bounds page (page + 32) a bs lays.0 (omega arith) (omega (arith, is.top)) in
      record {
        linked =
            Linked-join m' page bs (merge_from a l xs)
              (Thread-Agree m m' page (page + 32) a bs links.0 lays.0 (omega (arith, is.top))
                (load64-agree m' m page (λ q u v. below q (omega arith)))
                (λ q u v. sym (below q v)))
              (Points-Linked m' (end_slot page bs) a (merge_from a l xs)
                (load64-agree m' m (end_slot page bs) (λ q u v. below q (omega (arith, ends)))
                  ∙ links.1.0)
                g.points);
        layout =
            Layout-join (page + 32) a (page + 4096) bs (merge_from a l xs) lays.0
              (merge_from-Layout a (page + 4096) a l xs (omega arith) lays.1);
        top = is.top;
      }

pub OffHeaders-split :
    (q : ℕ) (bs : List Cell) (a l : ℕ) (xs : List Cell)
    → OffHeaders q (bs ++ (a, l) ∷ xs)
    → OffHeaders q bs × OffHeaders q ((a, l) ∷ xs)
OffHeaders-split q [] a l xs h = (tt, h)
OffHeaders-split q ((b, k) ∷ bs) a l xs h =
    let (t, e) = OffHeaders-split q bs a l xs h.1 in ((h.0, t), e)

pub OffHeaders-insert :
    (q : ℕ) (before : List Cell) (node s : ℕ) (after : List Cell)
    → OffHeaders q (before ++ after)
    → Outside node 16 q
    → OffHeaders q (before ++ (node, s) ∷ after)
OffHeaders-insert q [] node s after h out = (out, h)
OffHeaders-insert q ((b, k) ∷ before) node s after h out =
    (h.0, OffHeaders-insert q before node s after h.1 out)

pub end_slot-OffHeaders :
    (q s lo hi : ℕ) (xs ys : List Cell)
    → Layout lo hi xs
    → hi ≤ u64_mod
    → Outside s 8 q
    → OffHeaders q (xs ++ ys)
    → Outside (end_slot s xs) 8 q
end_slot-OffHeaders q s lo hi [] ys lay top out off = out
end_slot-OffHeaders q s lo hi ((a, l) ∷ xs) ys lay top out off =
    let below = Layout-le (a + 16 + l) hi xs lay.1 in
    end_slot-OffHeaders q (Node.next a) (a + 16 + l) hi xs ys lay.1 top (omega (arith, off.0)) off.1
