-- ===== src/Heap/Gaps.antt =====
-- The nodes of a page once kfree (src/kernel.c) has merged them: how long the longest is, which bytes are
-- in a node then, and which stay between the nodes.
use side_h_os.Base.{
  ℕ, ◌+◌, ◌≤◌, ◌<◌, ◌⊎◌, inl, inr, List, [], ◌∷◌, ◌++◌, arith, ltb, ◌==◌, if◌then◌else◌, Bool-cases,
  ==_iff,
}
use side_h_os.Bytes.Words.{regions-Apart}
use side_h_os.Heap.Nodes.{Cell, Clear}
use side_h_os.Heap.Search.{longest}
use side_h_os.Heap.Merge.{merge_from, OffHeaders}
use side_h_os.Heap.MergeAt.{freed_cells}

longest_mono : (acc acc' : ℕ) (xs : List Cell) → acc ≤ acc' → longest acc xs ≤ longest acc' xs
longest_mono acc acc' [] le = le
longest_mono acc acc' ((a, l) ∷ xs) le =
    longest_mono (if ltb acc l then l else acc) (if ltb acc' l then l else acc') xs (ground arith)

longest-merge_from :
    (acc a l : ℕ) (xs : List Cell) → longest acc ((a, l) ∷ xs) ≤ longest acc (merge_from a l xs)
longest-merge_from acc a l [] = omega arith
longest-merge_from acc a l ((b, k) ∷ xs) = elim (Bool-cases (a + 16 + l + 8 == b)) [
  | inl near ↦
      let one =
        longest_mono
          (if ltb (if ltb acc l then l else acc) k then k else (if ltb acc l then l else acc))
          (if ltb acc (l + 16 + k) then l + 16 + k else acc) xs (ground arith) in
      rw near (omega (arith, one, longest-merge_from acc a (l + 16 + k) xs))
  | inr far ↦ rw far (longest-merge_from (if ltb acc l then l else acc) b k xs)
]

-- The longest node is no shorter after it.
pub longest-freed_cells :
    (acc : ℕ) (before : List Cell) (node s : ℕ) (after : List Cell)
    → longest acc (before ++ after) ≤ longest acc (freed_cells before node s after)
longest-freed_cells acc [] node s after =
    let more = longest_mono acc (if ltb acc s then s else acc) after (ground arith) in
    omega (arith, more, longest-merge_from acc node s after)
longest-freed_cells acc ((a, l) ∷ []) node s after =
    let acc' = if ltb acc l then l else acc in
    let more = longest_mono acc' (if ltb acc' s then s else acc') after (ground arith) in
    omega (arith, more, longest-merge_from acc a l ((node, s) ∷ after))
longest-freed_cells acc ((a, l) ∷ (b, k) ∷ xs) node s after =
    longest-freed_cells (if ltb acc l then l else acc) ((b, k) ∷ xs) node s after

-- The first node only grows.
merge_from-first :
    (q a l : ℕ) (xs : List Cell) → Clear q (merge_from a l xs) → (q < a) ⊎ (a + 16 + l ≤ q)
merge_from-first q a l [] clear = clear.0
merge_from-first q a l ((b, k) ∷ xs) clear = elim (Bool-cases (a + 16 + l + 8 == b)) [
  | inl near ↦
      let grown : Clear q (merge_from a (l + 16 + k) xs) = rw near at clear in
      omega (arith, merge_from-first q a (l + 16 + k) xs grown)
  | inr far ↦ let apart : Clear q ((a, l) ∷ merge_from b k xs) = rw far at clear in apart.0
]

-- The bytes of the node that came back are in a node; when it was merged with the one in front, all but
-- the last 8.
pub freed_cells-covers :
    (q : ℕ) (before : List Cell) (node s : ℕ) (after : List Cell)
    → Clear q (freed_cells before node s after)
    → (q < node) ⊎ (node + 8 + s ≤ q)
freed_cells-covers q [] node s after clear = omega (arith, merge_from-first q node s after clear)
freed_cells-covers q ((a, l) ∷ []) node s after clear = elim (Bool-cases (a + 16 + l + 8 == node)) [
  | inl near ↦
      let grown : Clear q (merge_from a (l + 16 + s) after) = rw near at clear in
      omega (arith, (==_iff _ _).0 near, merge_from-first q a (l + 16 + s) after grown)
  | inr far ↦
      let apart : Clear q ((a, l) ∷ merge_from node s after) = rw far at clear in
      omega (arith, merge_from-first q node s after apart.1)
]
freed_cells-covers q ((a, l) ∷ (b, k) ∷ xs) node s after clear =
    freed_cells-covers q ((b, k) ∷ xs) node s after clear.1

-- The n bytes from c are in no node.
abbrev pub OffCells : (c n : ℕ) → List Cell → Type 0
OffCells c n [] = Unit {0}
OffCells c n ((a, l) ∷ xs) = ((c + n ≤ a) ⊎ (a + 16 + l ≤ c)) × OffCells c n xs

pub Clear-OffCells :
    (c n : ℕ) (xs : List Cell)
    → 0 < n
    → ((q : ℕ) → c ≤ q → q < c + n → Clear q xs)
    → OffCells c n xs
Clear-OffCells c n [] pos clear = tt
Clear-OffCells c n ((a, l) ∷ xs) pos clear = (
  omega (
    arith,
    regions-Apart c n a (16 + l) pos (omega arith)
        (λ q lo hi lo' hi'. omega (arith, (clear q lo hi).0)),
  ),
  Clear-OffCells c n xs pos (λ q lo hi. (clear q lo hi).1),
)

pub OffCells-Clear : (c n q : ℕ) (xs : List Cell) → c ≤ q → q < c + n → OffCells c n xs → Clear q xs
OffCells-Clear c n q [] lo hi off = tt
OffCells-Clear c n q ((a, l) ∷ xs) lo hi off =
    (omega (arith, off.0), OffCells-Clear c n q xs lo hi off.1)

-- More than 8 bytes in a row are not taken into a node by the merging.
OffCells-merge_from :
    (c n a l : ℕ) (xs : List Cell)
    → 8 < n
    → OffCells c n ((a, l) ∷ xs)
    → OffCells c n (merge_from a l xs)
OffCells-merge_from c n a l [] wide off = off
OffCells-merge_from c n a l ((b, k) ∷ xs) wide off = elim (Bool-cases (a + 16 + l + 8 == b)) [
  | inl near ↦
      let at = (==_iff _ _).0 near in
      rw near (
        OffCells-merge_from c n a (l + 16 + k) xs wide (omega (arith, at, off.0, off.1.0), off.1.1))
  | inr far ↦ rw far (off.0, OffCells-merge_from c n b k xs wide off.1)
]

-- The block that comes back ends 8 bytes behind its node.
pub OffCells-freed_cells :
    (c n : ℕ) (before : List Cell) (node s : ℕ) (after : List Cell)
    → 8 < n
    → (c + n ≤ node) ⊎ (node + 24 + s ≤ c)
    → OffCells c n (before ++ after)
    → OffCells c n (freed_cells before node s after)
OffCells-freed_cells c n [] node s after wide out off =
    OffCells-merge_from c n node s after wide (omega arith, off)
OffCells-freed_cells c n ((a, l) ∷ []) node s after wide out off =
    OffCells-merge_from c n a l ((node, s) ∷ after) wide (off.0, (omega arith, off.1))
OffCells-freed_cells c n ((a, l) ∷ (b, k) ∷ xs) node s after wide out off =
    (off.0, OffCells-freed_cells c n ((b, k) ∷ xs) node s after wide out off.1)

pub Clear-OffHeaders : (q : ℕ) (xs : List Cell) → Clear q xs → OffHeaders q xs
Clear-OffHeaders q [] clear = tt
Clear-OffHeaders q ((a, l) ∷ xs) clear = (omega (arith, clear.0), Clear-OffHeaders q xs clear.1)
