-- ===== src/Heap/ReleaseTests.antt =====
-- A block of a page that is given back (src/kernel.c).
use side_h_os.Base.{◌+◌, ◌≡◌, refl, true, [], ◌∷◌, arith, List}
use side_h_os.Bytes.{Bytes, load64, store64}
use side_h_os.Kernel.{Kernel}
use side_h_os.Kernel.Returns.{Returns}
use side_h_os.Heap.{kfree}
use side_h_os.Heap.Replace.{IsPage}
use side_h_os.Heap.MergeAt.{freed_cells}
use side_h_os.Heap.Pages.{HeapPage, IsSound}
use side_h_os.Heap.Contract.{Store}
use side_h_os.Heap.Samples.{machine, machine_of-Store}
use side_h_os.Heap.Release.{Released, kfree-Releases}

-- A page at 0x1000 with a block of 100 bytes in front of its one free node.
abbrev one_taken : Bytes
one_taken = store64 (store64 (store64 (λ _. 0) 0x1000 0x109c) 0x109c 200) 0x1030 100

one_taken-IsPage : IsPage one_taken 0x1000 ((0x109c, 200) ∷ [])
unfolding load64 store64
one_taken-IsPage = record {
  linked = (refl, refl, refl);
  layout = (omega arith, omega arith);
  top = omega arith;
}

one_taken_word : load64 one_taken 0x1030 ≡ 100
unfolding load64 store64
one_taken_word = refl

-- They become one.
one_again : freed_cells [] 0x1020 100 ((0x109c, 200) ∷ []) ≡ (0x1020, 316) ∷ []
one_again = refl

-- It is the one page of the heap, and there are three free frames.
abbrev one_page : Kernel
one_page = record machine {
  bytes = one_taken;
  memory = record machine.memory { heap_pages = 0x1000 };
}

abbrev pages_before : List HeapPage
pages_before = (0x1000, (0x109c, 200) ∷ []) ∷ []

one_page-IsSound : IsSound one_taken 0x1000 ((0x109c, 200) ∷ [])
unfolding load64 store64
one_page-IsSound = record {
  is_page = one_taken-IsPage;
  honest = omega arith;
  not_null = omega arith;
  top = omega arith;
}

last_page : load64 one_taken 0x1018 ≡ 0
unfolding load64 store64
last_page = refl

one_page-Store : Store one_page pages_before
one_page-Store =
    let free = machine_of-Store 3 (omega arith) in
    record {
      heap = record { pages = (refl, one_page-IsSound, last_page); apart = (tt, tt) };
      formed = free.formed;
      few = free.few;
      distinct = free.distinct;
      placed = λ p m.
          let (aligned, pos, top, _) = free.placed p m in (aligned, pos, top, (omega arith, tt));
    }

kfree-Releases_example :
    Returns
      (λ done k'.
        (done ≡ true)
        × Released one_page pages_before 0x1020 100 k'
            ((0x1000, freed_cells [] 0x1020 100 ((0x109c, 200) ∷ [])) ∷ []))
      (kfree 255 (0x1020 + 24) one_page)
kfree-Releases_example =
    kfree-Releases one_page 255 [] [] 0x1000 [] 0x1020 100 ((0x109c, 200) ∷ []) one_page-Store refl
      (omega arith) (omega arith, omega arith) one_taken_word (omega arith) refl (omega arith)
