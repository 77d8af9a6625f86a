-- ===== src/Heap/Cycle.antt =====
-- kmalloc at a page and then kfree of its answer (src/kernel.c).
use side_h_os.Base.{
  ℕ, ◌+◌, ◌-◌, ◌%◌, ◌≤◌, ◌<◌, ◌≡◌, refl, inl, inr, List, [], ◌∷◌, ◌++◌, arith, ap, ◌∙◌, sym, true,
  false, ltb, le→ltb, ◌==◌,
}
use mathlib.Core.List.{tail}
use mathlib.Core.Path.{subst}
use side_h_os.Base.Word.{u64_mod}
use side_h_os.Bytes.{load64}
use side_h_os.Bytes.Words.{load64-agree}
use side_h_os.Kernel.{Ptr, Kernel, and_then}
use side_h_os.Kernel.Page
use side_h_os.Kernel.Returns
use side_h_os.Kernel.Returns.{Returns}
use side_h_os.Heap.{allocate_in_page, kfree}
use side_h_os.Heap.Nodes.{Cell, Layout-le}
use side_h_os.Heap.Search.{AllShort, longest}
use side_h_os.Heap.Replace.{IsPage}
use side_h_os.Heap.Carve.{carve_cells, block_size}
use side_h_os.Heap.Allocate.{Served, allocate_in_page-Outcome}
use side_h_os.Heap.Blocks.{length-Layout}
use side_h_os.Heap.Merge.{merge_from, OffHeaders-below}
use side_h_os.Heap.MergeAt.{freed_cells}
use side_h_os.Heap.Kfree.{kfree-Freed}

first_cell : List Cell → Cell
first_cell [] = (0, 0)
first_cell (x ∷ xs) = x

-- The first node is the first that fits.
first_fits :
    (a l total : ℕ) (after before : List Cell) (b k : ℕ) (ys : List Cell)
    → (a, l) ∷ after ≡ before ++ (b, k) ∷ ys
    → AllShort total before
    → total ≤ l
    → (before ≡ []) × (b ≡ a) × (k ≡ l) × (ys ≡ after)
unfolding first_cell
first_fits a l total after [] b k ys e short fit = (
  refl,
  ap (λ xs. (first_cell xs).0) (sym e),
  ap (λ xs. (first_cell xs).1) (sym e),
  ap tail (sym e),
)
first_fits a l total after ((c, j) ∷ before) b k ys e short fit =
    let same : l ≡ j = ap (λ xs. (first_cell xs).1) e in absurd (omega (arith, short.0))

-- What is left behind the block.
abbrev rest_of : (size a l : ℕ) → List Cell → List Cell
rest_of size a l after = (a + 16 + (size + 8), l - (size + 8) - 16) ∷ after

merged_back :
    (size a l : ℕ) (after : List Cell)
    → size + 24 ≤ l
    → freed_cells [] a size (rest_of size a l after) ≡ merge_from a (l - 8) after
merged_back size a l after fit =
    rw (adjacent a size) (ap (λ n. merge_from a n after) (lengths size l fit))
  where
    adjacent : (a size : ℕ) → (a + 16 + size + 8 == a + 16 + (size + 8)) ≡ true
    adjacent a size = ground arith

    lengths : (size l : ℕ) → size + 24 ≤ l → size + 16 + (l - (size + 8) - 16) ≡ l - 8
    lengths size l h = omega arith

module _ (page : Ptr) (fuel size a l : ℕ) (after : List Cell) (top : page + 4096 < u64_mod)
    (pos : 0 < page) (aligned : page % 4096 ≡ 0) (some_bytes : 0 < size) (fit : size + 24 ≤ l)
    (enough : 255 ≤ fuel) where
  -- What the two calls leave of the page.
  pub record Cycled (k' : Kernel) : Type 0 where
    pub is_page : IsPage k'.bytes page (merge_from a (l - 8) after)
    pub largest :
        load64 k'.bytes (Page.largest page)
        ≡ longest 0 ((a + 16 + (size + 8), l - (size + 8) - 16) ∷ after)

  split : ltb (l - (size + 8)) 16 ≡ false
  split = le→ltb _ _ (omega arith)

  free_again :
      (k k₁ : Kernel) (b : Ptr)
      → k.memory_lock ≡ 0
      → IsPage k.bytes page ((a, l) ∷ after)
      → Served k k₁ page size [] a l after b
      → Returns (λ done k'. (done ≡ true) × Cycled k') (kfree fuel b k₁)
  free_again k k₁ b free is s =
      let cells : carve_cells size a l after ≡ rest_of size a l after = rw split refl in
      let held : block_size size l ≡ size = rw split refl in
      let page₁ : IsPage k₁.bytes page (rest_of size a l after) =
        subst (λ xs. IsPage k₁.bytes page xs) cells s.carved.is_page in
      let room = Layout-le (a + 16 + l) (page + 4096) after is.layout.1 in
      let first : page + 32 ≤ a = is.layout.0 in
      rw s.address (
        Returns.mono
          (kfree-Freed k₁ fuel page [] a size (rest_of size a l after) page₁ first
            (omega arith, page₁.layout.1) (s.carved.size_word ∙ held) some_bytes pos aligned
            (ap (λ (k : Kernel). k.memory_lock) s.state ∙ free) enough)
          (λ done k' (yes_done, freed, _). (
            yes_done,
            record {
              is_page =
                  subst (λ xs. IsPage k'.bytes page xs) (merged_back size a l after fit)
                    freed.is_page;
              largest =
                  load64-agree k'.bytes k₁.bytes (Page.largest page) (λ q u v.
                    freed.others q (omega arith) (omega arith) (
                      OffHeaders-below q (page + 32) (page + 4096) (rest_of size a l after)
                        page₁.layout (omega arith)))
                  ∙ s.exact
                  ∙ ap (longest 0) cells;
            },
          )))

  moved :
      (k k₁ : Kernel) (b : Ptr) (before : List Cell) (a' l' : ℕ) (after' : List Cell)
      → before ≡ []
      → a' ≡ a
      → l' ≡ l
      → after' ≡ after
      → Served k k₁ page size before a' l' after' b
      → Served k k₁ page size [] a l after b
  moved k k₁ b before a' l' after' none_before at len behind s =
      subst (λ ys. Served k k₁ page size [] a l ys b) behind
        (subst (λ n. Served k k₁ page size [] a n after' b) len
          (subst (λ x. Served k k₁ page size [] x l' after' b) at
            (subst (λ ys. Served k k₁ page size ys a' l' after' b) none_before s)))

  -- kmalloc at a page whose first node (a, l) has room for the block, its size word and another node's header, and then kfree of its answer, with the lock open, return true and leave the page well formed, with that node back in its place but 8 bytes shorter, and merged with nodes behind it as kfree merges. The page's `largest` is still the length of the longest node that there was while the block was taken.
  pub kfree-allocate_in_page :
      (k : Kernel)
      → IsPage k.bytes page ((a, l) ∷ after)
      → k.memory_lock ≡ 0
      → Returns
          (λ done k'. (done ≡ true) × Cycled k')
          (and_then (allocate_in_page fuel size page k) (kfree fuel))
  kfree-allocate_in_page k is free =
      let room = Layout-le (a + 16 + l) (page + 4096) after is.layout.1 in
      Returns.bind
        (allocate_in_page-Outcome k fuel page size top ((a, l) ∷ after) is
          (omega (arith, length-Layout (page + 32) (page + 4096) ((a, l) ∷ after) is.layout))
          (omega (arith, is.layout.0)))
        (λ b k₁ o. elim o [
          | inr (short, _, _) ↦ absurd (omega (arith, short.0))
          | inl (before, a', l', after', e, short, _, served) ↦
              let (none_before, at, len, behind) =
                first_fits a l (size + 8) after before a' l' after' e short (omega arith) in
              free_again k k₁ b free is
                (moved k k₁ b before a' l' after' none_before at len behind served)
        ])
