-- ===== src/Heap/Replace.antt =====
-- A page of the heap (src/kernel.c), and what becomes of its list where other nodes take the place of
-- one node.
use side_h_os.Base.{ℕ, ◌+◌, ◌≤◌, ◌<◌, ◌≡◌, ◌⊎◌, List, ◌∷◌, ◌++◌, arith, ◌∙◌, sym}
use side_h_os.Base.Word.{u64_mod}
use side_h_os.Bytes.{Bytes, load64, store64}
use side_h_os.Bytes.Words.{Outside, load64-store64, store64-Outside, load64-agree}
use side_h_os.Kernel.{Ptr}
use side_h_os.Kernel.Node
use side_h_os.Kernel.Page
use side_h_os.Heap.Nodes.{
  Cell, Layout, Linked, Thread, end_slot, Points, Clear, Layout-le, Layout-split, Layout-join,
  Layout-weaken, Linked-split, Linked-join, Linked-Points, Points-Linked, Points-Agree, Points-lt,
  Thread-Agree, Thread-store, end_slot_bounds, Clear-split, end_slot-Clear,
}

-- A page with the free nodes `xs` behind its header.
pub record IsPage (m : Bytes) (page : Ptr) (xs : List Cell) : Type 0 where
  pub linked : Linked m (Page.freelist page) xs
  pub layout : Layout (page + 32) (page + 4096) xs
  pub top : page + 4096 ≤ u64_mod

module _ (m : Bytes) (page : Ptr) (before : List Cell) (a l : ℕ) (after : List Cell)
    (is : IsPage m page (before ++ (a, l) ∷ after)) where
  abbrev pub slot : ℕ
  slot = end_slot page before

  abbrev pub parts : Layout (page + 32) a before × Layout (a + 16 + l) (page + 4096) after
  parts = Layout-split (page + 32) (page + 4096) before a l after is.layout

  abbrev pub links : Thread m page before × Linked m slot ((a, l) ∷ after)
  links = Linked-split m page before ((a, l) ∷ after) is.linked

  pub in_page : (page + 32 ≤ a) × (a + 16 + l ≤ page + 4096)
  in_page =
      (Layout-le (page + 32) a before parts.0, Layout-le (a + 16 + l) (page + 4096) after parts.1)

  pub slot_bounds : (page ≤ slot) × (slot + 8 ≤ a)
  slot_bounds =
      end_slot_bounds page (page + 32) a before parts.0 (omega arith)
        (omega (arith, in_page, is.top))

  -- The memory m₁ differs from m behind the header of the node only; r leads to the nodes `rest`,
  -- which lie behind that header. Then r can take the place of the node.
  module _ (m₁ : Bytes) (r : ℕ) (rest : List Cell)
      (near : (q : ℕ) → Outside (a + 16) l q → m₁ q ≡ m q) (points : Points m₁ r rest)
      (behind : Layout (a + 16) (page + 4096) rest) where
    abbrev pub m₂ : Bytes
    m₂ = store64 m₁ slot r

    replaced-Linked : Linked m₂ page (before ++ rest)
    replaced-Linked =
        Linked-join m₂ page before rest
          (Thread-store m₁ page (page + 32) a r before
            (Thread-Agree m m₁ page (page + 32) a before links.0 parts.0
              (omega (arith, in_page, is.top))
              (load64-agree m₁ m page (λ q u v. near q (omega (arith, in_page))))
              (λ q u v. sym (near q (omega arith))))
            parts.0 (omega arith) (omega (arith, in_page, is.top)))
          (Points-Linked m₂ slot r rest
            (load64-store64 m₁ slot r
              (Points-lt m₁ r (a + 16) (page + 4096) rest points behind is.top))
            (Points-Agree m₁ m₂ r (a + 16) (page + 4096) rest points behind is.top
              (λ q u v. sym (store64-Outside m₁ slot r q (omega (arith, slot_bounds))))))

    replaced-Layout : Layout (page + 32) (page + 4096) (before ++ rest)
    replaced-Layout = Layout-join (page + 32) a (page + 4096) before rest parts.0 (
        Layout-weaken (a + 16) a (page + 4096) (page + 4096) rest (omega arith) (omega arith)
          behind)

    pub replaced-IsPage : IsPage m₂ page (before ++ rest)
    replaced-IsPage = record { linked = replaced-Linked; layout = replaced-Layout; top = is.top }

    pub replaced-Clear :
        (q : ℕ) → (q < page) ⊎ (page + 24 ≤ q) → Clear q (before ++ (a, l) ∷ after) → m₂ q ≡ m q
    replaced-Clear q off clear =
        let (c, d) = Clear-split q before a l after clear in
        store64-Outside m₁ slot r q (
          end_slot-Clear q page (page + 32) a before parts.0 (omega (arith, in_page, is.top)) c
            (omega arith))
        ∙ near q (omega arith)

  abbrev pub next : ℕ
  next = load64 m (Node.next a)

  -- A store of the size word, and of what else lies behind the header of the node, spares the nodes
  -- that follow.
  pub after-Points :
      (m₁ : Bytes) → ((q : ℕ) → Outside (a + 16) l q → m₁ q ≡ m q) → Points m₁ next after
  after-Points m₁ near =
      Points-Agree m m₁ next (a + 16 + l) (page + 4096) after
        (Linked-Points m (Node.next a) after links.1.2) parts.1 is.top
        (λ q u v. sym (near q (omega arith)))
