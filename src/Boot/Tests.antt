-- ===== src/Boot/Tests.antt =====
-- The loop of kmain over a small memory map (src/kernel.c).
use side_h_os.Base.{ℕ, ◌≡◌, refl, List, [], ◌∷◌, arith}
use side_h_os.Kernel.{Run, ok, initial}
use side_h_os.Kernel.Returns.{Returns}
use side_h_os.Frames.Ledger.{frames}
use side_h_os.Frames.Taken.{freelist_of}
use side_h_os.Heap.Samples.{machine_of, machine_of-Store}
use side_h_os.Tasks.{Code}
use side_h_os.Boot.Creation.{Created, Round, create_tasks-Created}
use side_h_os.Boot.{create_tasks, MemmapEntry, add_entries}
use side_h_os.Boot.Segments.{Added, usable_frames, usable_count, add_entries-Added}

abbrev entry : (base length kind : ℕ) → MemmapEntry
entry b l k = record { base = b; length = l; kind = k }

abbrev memmap : List MemmapEntry
memmap = entry 0x1000 0x3000 0 ∷ entry 0x9000 0x123 1 ∷ entry 0x10_0000 0x2000 0 ∷ []

abbrev frames_of : {A : Type 0} → Run A → List ℕ
frames_of (ok a k) = frames (freelist_of k)
frames_of _ = []

memmap_frames :
    frames_of (add_entries memmap (initial (λ _. 0)))
    ≡ 0x10_1000 ∷ 0x10_0000 ∷ 0x3000 ∷ 0x2000 ∷ 0x1000 ∷ []
unfolding add_entries
memmap_frames = refl

-- An entry that ends inside a page: the last frame lies beyond its end.
unaligned_frames :
    frames_of (add_entries (entry 0x1000 0x1800 0 ∷ []) (initial (λ _. 0))) ≡ 0x2000 ∷ 0x1000 ∷ []
unfolding add_entries
unaligned_frames = refl

add_entries-Added_example :
    Returns
      (λ _ k'. Added (usable_frames memmap) (usable_count memmap) (initial (λ _. 0)) k')
      (add_entries memmap (initial (λ _. 0)))
add_entries-Added_example =
    add_entries-Added memmap (initial (λ _. 0))
      (record { byte = omega arith; fits = λ i h. absurd (omega arith) })
      (
        λ e. record { base_aligned = refl; length_aligned = refl; fits = omega arith },
        (
          λ e. absurd (omega arith),
          (λ e. record { base_aligned = refl; length_aligned = refl; fits = omega arith }, tt),
        ),
      )
      (omega arith)

-- Room for one round of the loop: six frames.
abbrev code : Code
code = record {
  task_exit = 0x10;
  task_trampoline = 0x20;
  idle_task_entry = 0x30;
  factorial_task = 0x40;
  fibonacci_task = 0x50;
}

no_tasks : Created code (machine_of 6) [] []
no_tasks = record {
  own = tt;
  store = machine_of-Store 6 (omega arith);
  queue = record { chain = refl; away = tt };
  ready = tt;
  memory_open = refl;
  task_open = refl;
}

create_tasks-Created_example :
    Returns (λ _ k'. Round code [] 1 k') (create_tasks code 255 1 (machine_of 6))
create_tasks-Created_example =
    create_tasks-Created code 255 1 (machine_of 6) [] []
      (record {
        task_exit = omega arith;
        task_trampoline = omega arith;
        factorial_task = omega arith;
        fibonacci_task = omega arith;
      })
      no_tasks
      (record {
        room = record { segment = 0; below = omega arith; enough = omega arith };
        enough = omega arith;
        pages = omega arith;
        tasks = omega arith;
      })
