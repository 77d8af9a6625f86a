-- ===== src/Frames/Fresh.antt =====
-- The memory of new frames (src/kernel.c): the page header and free node that memory_allocate_frame
-- writes, and the size word of memory_allocate_frames.
use side_h_os.Base.{ℕ, ◌+◌, ◌-◌, ◌*◌, ◌≤◌, ◌<◌, ◌≡◌, arith, ◌∙◌}
use side_h_os.Base.Word.{add64, u64_mod}
use side_h_os.Bytes.{Bytes, load64}
use side_h_os.Bytes.Words.{Outside, store64-Outside, load64-store64, load64-past}
use side_h_os.Bytes.Fill.{load64-memset_zero, memset-Outside}
use side_h_os.Kernel.{Ptr, null, size_4kb}
use side_h_os.Kernel.Node
use side_h_os.Kernel.Page
use side_h_os.Frames.{init_page, init_frames}

-- A page with its header, and one free node that is all of the page behind the header.
pub record IsFreshPage (m : Bytes) (page next : Ptr) : Type 0 where
  pub freelist : load64 m (Page.freelist page) ≡ add64 page Page.size
  pub frames : load64 m (Page.frames page) ≡ 0
  pub largest : load64 m (Page.largest page) ≡ 4048
  pub next_page : load64 m (Page.next page) ≡ next
  pub node_length : load64 m (Node.length (add64 page Page.size)) ≡ 4048
  pub node_next : load64 m (Node.next (add64 page Page.size)) ≡ null
  pub node_end : add64 page Page.size + Node.size + 4048 ≡ page + size_4kb

module _ (m : Bytes) (page next : Ptr) (fits : page + size_4kb ≤ u64_mod) where
  pub init_page-IsFreshPage : next < u64_mod → IsFreshPage (init_page page next m) page next
  init_page-IsFreshPage small = record {
    freelist =
        load64-past _ _ _ _ (omega arith)
          (load64-past _ _ _ _ (omega arith) (load64-store64 _ _ _ (omega arith)));
    frames = load64-past _ _ _ _ (omega arith) (
        load64-past _ _ _ _ (omega arith) (
          load64-past _ _ _ _ (omega arith) (
            load64-past _ _ _ _ (omega arith) (
              load64-past _ _ _ _ (omega arith)
                (load64-memset_zero _ _ _ _ (omega arith) (omega arith))))));
    largest = load64-past _ _ _ _ (omega arith) (load64-store64 _ _ _ (omega arith));
    next_page = load64-store64 _ _ _ small;
    node_length = load64-past _ _ _ _ (omega arith) (
        load64-past _ _ _ _ (omega arith) (
          load64-past _ _ _ _ (omega arith)
            (load64-past _ _ _ _ (omega arith) (load64-store64 _ _ _ (omega arith)))));
    node_next = load64-past _ _ _ _ (omega arith) (
        load64-past _ _ _ _ (omega arith)
          (load64-past _ _ _ _ (omega arith) (load64-store64 _ _ _ (omega arith))));
    node_end = omega arith;
  }

  pub init_page-Outside : (q : ℕ) → Outside page size_4kb q → init_page page next m q ≡ m q
  init_page-Outside q out =
      store64-Outside _ _ _ q (omega arith)
      ∙ store64-Outside _ _ _ q (omega arith)
      ∙ store64-Outside _ _ _ q (omega arith)
      ∙ store64-Outside _ _ _ q (omega arith)
      ∙ store64-Outside _ _ _ q (omega arith)
      ∙ memset-Outside _ _ _ _ q out

module _ (m : Bytes) (page count : ℕ) (pos : 0 < count)
    (fits : page + size_4kb * count ≤ u64_mod) where
  pub init_frames-size :
      load64 (init_frames page count m) (add64 page Page.size) ≡ size_4kb * count - 40
  init_frames-size =
      load64-past _ _ _ _ (omega arith)
        (load64-past _ _ _ _ (omega arith) (load64-store64 _ _ _ (omega arith) ∙ omega arith))

  pub init_frames-Outside :
      (q : ℕ) → Outside page (size_4kb * count) q → init_frames page count m q ≡ m q
  init_frames-Outside q out =
      store64-Outside _ _ _ q (omega arith)
      ∙ store64-Outside _ _ _ q (omega arith)
      ∙ store64-Outside _ _ _ q (omega arith)
      ∙ memset-Outside _ _ _ _ q (omega arith)
