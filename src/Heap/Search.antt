-- ===== src/Heap/Search.antt =====
-- The loops of kmalloc (src/kernel.c) that only read: the search for a node that is long enough, and
-- the longest node. With more fuel than there are nodes they end.
use side_h_os.Base.{
  ℕ, zero, suc, ◌+◌, ◌≤◌, ◌<◌, ◌≡◌, refl, inl, inr, some, List, [], ◌∷◌, ◌++◌, arith, ap, ◌∙◌, ltb,
  ◌==◌, if◌then◌else◌, false, Bool-cases, ltb→lt, ltb→le, length,
}
use side_h_os.Bytes.{Bytes, load64, store64}
use side_h_os.Kernel.{Ptr, null}
use side_h_os.Kernel.Node
use side_h_os.Kernel.Page
use side_h_os.Heap.{find_node, max_length, relink}
use side_h_os.Heap.Nodes.{Cell, Layout, Linked, end_slot}

abbrev pub last_node : Ptr → List Cell → Ptr
last_node p [] = p
last_node p ((a, l) ∷ xs) = last_node a xs

-- The word that points to what follows the node `prev`, or the head of the page's list.
abbrev pub slot_of : (page prev : Ptr) → ℕ
slot_of page prev = if prev == null then Page.freelist page else Node.next prev

pub slot_of-last_node :
    (page p lo hi : ℕ) (xs : List Cell)
    → Layout lo hi xs
    → 0 < lo
    → slot_of page (last_node p xs) ≡ end_slot (slot_of page p) xs
slot_of-last_node page p lo hi [] lay pos = refl
slot_of-last_node page p lo hi ((a, l) ∷ xs) lay pos =
    slot_of-last_node page a (a + 16 + l) hi xs lay.1 (omega arith)
    ∙ ap (λ s. end_slot s xs) (next_of a (omega arith))
  where
    next_of : (a : ℕ) → 0 < a → slot_of page a ≡ Node.next a
    next_of a h = ground arith

pub relink-eq :
    (page prev v : ℕ) (m : Bytes) → relink page prev v m ≡ store64 m (slot_of page prev) v
relink-eq page prev v m = elim (Bool-cases (prev == null)) [
  | inl head ↦ rw head
  | inr inside ↦ rw inside
]

abbrev pub AllShort : ℕ → List Cell → Type 0
AllShort total [] = Unit {0}
AllShort total ((a, l) ∷ xs) = (l < total) × AllShort total xs

-- The first node of length `total` or more, with the node in front of it; or none.
pub data Search (total : ℕ) (prev : Ptr) (xs : List Cell) : Ptr × Ptr → Type 0 where
  absent : AllShort total xs → Search total prev xs (last_node prev xs, null)
  found :
      (before : List Cell) (a l : ℕ) (after : List Cell)
      → xs ≡ before ++ (a, l) ∷ after
      → AllShort total before
      → total ≤ l
      → Search total prev xs (last_node prev before, a)

-- A short node in front.
skip :
    {total prev a l : ℕ} {xs : List Cell} {r : Ptr × Ptr}
    → l < total
    → Search total a xs r
    → Search total prev ((a, l) ∷ xs) r
skip short (absent all) = absent (short, all)
skip {a} {l} short (found before b k after e all fit) =
    found ((a, l) ∷ before) b k after (ap (λ ys. (a, l) ∷ ys) e) (short, all) fit

module _ (m : Bytes) (total : ℕ) where
  pub find_node-Search :
      (f prev s lo hi : ℕ) (xs : List Cell)
      → Linked m s xs
      → Layout lo hi xs
      → 0 < lo
      → length xs < f
      → (r : Ptr × Ptr) × (find_node f m total prev (load64 m s) ≡ some r) × Search total prev xs r
  unfolding find_node
  find_node-Search zero prev s lo hi xs h lay pos fuel = elim fuel [ ]
  find_node-Search (suc f) prev s lo hi [] h lay pos fuel = rw h ((prev, null), refl, absent tt)
  find_node-Search (suc f) prev s lo hi ((a, l) ∷ xs) h lay pos fuel =
      elim (Bool-cases (ltb l total)) [
        | inl short ↦
            let (r, e, search) =
              find_node-Search f a (Node.next a) (a + 16 + l) hi xs h.2 lay.1 (omega arith)
                (omega arith) in
            (r, rw (h.0, at_node a (omega arith), h.1, short) e, skip (ltb→lt _ _ short) search)
        | inr fits ↦ (
          (prev, a),
          rw (h.0, at_node a (omega arith), h.1, fits),
          found [] a l xs refl tt (ltb→le _ _ fits),
        )
      ]
    where
      at_node : (a : ℕ) → 0 < a → (a == null) ≡ false
      at_node a h = ground arith

-- The greatest of `acc` and the lengths.
abbrev pub longest : (acc : ℕ) → List Cell → ℕ
longest acc [] = acc
longest acc ((a, l) ∷ xs) = longest (if ltb acc l then l else acc) xs

pub max_length-longest :
    (m : Bytes) (f s acc lo hi : ℕ) (xs : List Cell)
    → Linked m s xs
    → Layout lo hi xs
    → 0 < lo
    → length xs < f
    → max_length f m (load64 m s) acc ≡ some (longest acc xs)
unfolding max_length
max_length-longest m zero s acc lo hi xs h lay pos fuel = elim fuel [ ]
max_length-longest m (suc f) s acc lo hi [] h lay pos fuel = rw h
max_length-longest m (suc f) s acc lo hi ((a, l) ∷ xs) h lay pos fuel =
    rw (h.0, at_node a (omega arith), h.1)
      (max_length-longest m f (Node.next a) (if ltb acc l then l else acc) (a + 16 + l) hi xs h.2
        lay.1 (omega arith) (omega arith))
  where
    at_node : (a : ℕ) → 0 < a → (a == null) ≡ false
    at_node a h = ground arith
