-- ===== src/Heap/Tests.antt =====
-- Blocks taken and given back (src/kernel.c).
use mathlib.Core.Logic.Or
use side_h_os.Bytes.Words.{load64-store64}
use side_h_os.Frames.Pushed.{Given}
use side_h_os.Heap.Large.{LargeBlock, kmalloc-LargeBlock, kfree-Given}
use side_h_os.Base.{◌⊎◌, true}
use side_h_os.Base.{ℕ, ◌+◌, ◌^◌, ◌<◌, ◌≡◌, refl, Option, none, some, [], ◌∷◌, arith}
use side_h_os.Bytes.{Bytes, load64, store64, memset}
use side_h_os.Kernel.{
  FreeList, Kernel, Run, ok, and_then, Cmd, ◌>>=◌, ◌>>◌, initial, address_physical_to_virtual,
  address_virtual_to_physical,
}
use side_h_os.Kernel.Returns.{Returns}
use side_h_os.Frames.{memory_allocate_frame}
use side_h_os.Frames.Ledger.{run, IsWellFormed}
use side_h_os.Heap.{
  kmalloc, kfree, find_page, find_node, max_length, find_position, merge_loop, allocate_in_page,
  frame_counts,
}
use side_h_os.Heap.Samples.{machine, machine_of-Store}
use side_h_os.Heap.Serve.{Serves}
use side_h_os.Heap.Client.{kmalloc-Serves}
use side_h_os.Heap.Allocate.{Outcome, allocate_in_page-Outcome}
use side_h_os.Heap.Replace.{IsPage}
use side_h_os.Heap.Cycle.{Cycled, kfree-allocate_in_page}

abbrev result : {A : Type 0} → Run A → Option A
result (ok a k) = some a
result _ = none

abbrev first_node : Cmd ℕ
first_node k = ok (load64 k.bytes (2 ^ 47 + 0x10_2020)) k

abbrev session : Cmd ℕ
session = do a ← kmalloc 9 100; kfree 9 a; first_node

one_block : result (session machine) ≡ some 4040
unfolding kmalloc kfree find_page find_node max_length find_position merge_loop
    memory_allocate_frame load64 store64 memset address_physical_to_virtual
    address_virtual_to_physical
one_block = refl

abbrev low : FreeList
low = record { segments = λ _. record { base = 0x10_0000; length = 3 }; cursor = 1 }

-- A page at 0x1000 with two free nodes.
abbrev two_nodes : Bytes
two_nodes =
    store64 (store64 (store64 (store64 (λ _. 0) 0x1000 0x1020) 0x1020 16) 0x1028 0x1040) 0x1040 200

two_nodes-IsPage : IsPage two_nodes 0x1000 ((0x1020, 16) ∷ (0x1040, 200) ∷ [])
unfolding load64 store64
two_nodes-IsPage = record {
  linked = (refl, refl, (refl, refl, refl));
  layout = (omega arith, (omega arith, omega arith));
  top = omega arith;
}

allocate_in_page-Outcome_example :
    Returns
      (Outcome (initial two_nodes) 0x1000 64 ((0x1020, 16) ∷ (0x1040, 200) ∷ []))
      (allocate_in_page 9 64 0x1000 (initial two_nodes))
allocate_in_page-Outcome_example =
    allocate_in_page-Outcome (initial two_nodes) 9 0x1000 64 (omega arith)
      ((0x1020, 16) ∷ (0x1040, 200) ∷ []) two_nodes-IsPage (omega arith) (omega arith)

low-IsWellFormed : IsWellFormed (2 ^ 47) low
low-IsWellFormed = record { byte = omega arith; fits = λ i h. omega arith }

kmalloc-LargeBlock_example :
    Returns
      (λ b k'.
        (k'.memory_lock ≡ 0)
        × (((p : ℕ) × LargeBlock machine 5000 p (frame_counts 5000) b k')
            ⊎ (((j : ℕ) → j < 1 → 3 < frame_counts 5000) × (b ≡ 2 ^ 47 + 40) × (k' ≡ machine))))
      (kmalloc 9 5000 machine)
kmalloc-LargeBlock_example =
    kmalloc-LargeBlock machine 9 5000 low-IsWellFormed (omega arith) refl (omega arith)
      (omega arith, omega arith)

-- Two frames that a block of 8152 bytes takes.
abbrev two_frames : Kernel
two_frames = record machine { bytes = store64 (λ _. 0) (2 ^ 47 + 0x10_3020) 8152 }

kfree-Given_example :
    Returns
      (λ done k'. (done ≡ true) × (k'.memory_lock ≡ 0) × Given (run 0x10_3000 2) two_frames k')
      (kfree 9 (2 ^ 47 + 0x10_3028) two_frames)
kfree-Given_example =
    kfree-Given two_frames 0x10_3000 2 (2 ^ 47 + 0x10_3028) refl (omega arith) (omega arith)
      (omega arith) (load64-store64 (λ _. 0) (2 ^ 47 + 0x10_3020) 8152 (omega arith)) (omega arith)
      9 low-IsWellFormed (omega arith)

-- A page at 0x1000 with one free node of 200 bytes.
abbrev one_node : Bytes
one_node = store64 (store64 (λ _. 0) 0x1000 0x1020) 0x1020 200

one_node-IsPage : IsPage one_node 0x1000 ((0x1020, 200) ∷ [])
unfolding load64 store64
one_node-IsPage = record {
  linked = (refl, refl, refl);
  layout = (omega arith, omega arith);
  top = omega arith;
}

kfree-allocate_in_page_example :
    Returns
      (λ done k'.
        (done ≡ true)
        × Cycled 0x1000 255 100 0x1020 200 []
            (omega arith)
            (omega arith)
            (omega arith)
            (omega arith)
            (omega arith)
            (omega arith)
            k')
      (and_then (allocate_in_page 255 100 0x1000 (initial one_node)) (kfree 255))
kfree-allocate_in_page_example =
    kfree-allocate_in_page 0x1000 255 100 0x1020 200 [] (omega arith) (omega arith) (omega arith)
      (omega arith) (omega arith) (omega arith) (initial one_node) one_node-IsPage refl

kmalloc-Serves_example : Returns (Serves 5000 machine []) (kmalloc 255 5000 machine)
kmalloc-Serves_example =
    kmalloc-Serves machine [] 255 5000 (machine_of-Store 3 (omega arith)) refl
      (record { segment = 0; below = omega arith; enough = omega arith }) (omega arith)
      (omega arith) (omega arith)
