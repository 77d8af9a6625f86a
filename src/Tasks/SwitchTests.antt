-- ===== src/Tasks/SwitchTests.antt =====
-- task_init (src/kernel.c) and the switch between tasks (src/task.S) at small inputs.
use side_h_os.Base.{◌≢◌, [], ◌∷◌, ℕ, ◌≡◌, refl, arith, ◌+◌, ◌<◌}
use side_h_os.Base.Word.{u64_mod}
use side_h_os.Bytes.{Bytes, load64, store64}
use side_h_os.Kernel.{Ptr, Kernel}
use side_h_os.Base.{List}
use side_h_os.Heap.Pages.{HeapPage}
use side_h_os.Heap.Contract.{Store}
use side_h_os.Heap.Writes.{Store-writes}
use side_h_os.Heap.Samples.{machine, machine_of, machine_of-Store}
use side_h_os.Kernel.Returns.{Returns}
use side_h_os.Tasks.{Code, write_task, task_init, ap_entry}
use side_h_os.Tasks.Queue.{Queue}
use side_h_os.Tasks.GsBase.{get_cpu_state}
use side_h_os.Tasks.ApEntry.{Entered, ap_entry-Entered}
use side_h_os.Tasks.Initialized.{Initialized}
use side_h_os.Tasks.Init.{task_init-Initialized}
use side_h_os.Tasks.Task
use side_h_os.Tasks.Machine.{Reg, rdi, rsp, index, Machine, run}
use side_h_os.Tasks.Switch.{save_context, restore_context, task_run}
use side_h_os.Tasks.Context.{slot, Restored}
use side_h_os.Tasks.Saving.{Saves, save_context-Saves}
use side_h_os.Tasks.Resume.{restore_context-save_context}
use side_h_os.Tasks.Prepare.{first_sp}
use side_h_os.Tasks.Launch.{Starts, write_task-Starts, restore_context-Starts}

abbrev code : Code
code = record {
  task_exit = 0x10;
  task_trampoline = 0x20;
  idle_task_entry = 0x30;
  factorial_task = 0x40;
  fibonacci_task = 0x50;
}

-- Each register with a number of its own, but for the stack pointer.
abbrev numbers : Reg → ℕ
numbers rsp = 0x9018
numbers r = 100 + index r

-- The task 0x2000 is current.
abbrev with_current : Bytes
with_current = store64 (λ _. 0) 0x4008 0x2000

abbrev in_task : Machine
in_task = record { regs = numbers; rip = 0; gs = 0x4000; bytes = with_current }

numbers_fit : (r : Reg) → numbers r < u64_mod
numbers_fit r = ground arith

save_context-Saves_example : Saves in_task 0x2000 0x9000 (run save_context in_task)
unfolding load64 store64
save_context-Saves_example =
    save_context-Saves in_task 0x2000 0x9000 (omega arith) numbers_fit refl (omega arith) refl
      (omega arith)

-- Another stack, and the task as the argument.
abbrev registers_of_idle : Reg → ℕ
registers_of_idle rsp = 0x7000
registers_of_idle rdi = 0x2000
registers_of_idle r = 0

abbrev in_idle : Machine
in_idle = record {
  regs = registers_of_idle;
  rip = 0;
  gs = 0x4000;
  bytes = (run save_context in_task).bytes;
}

restore_context-save_context_example : Restored numbers in_idle.bytes (run restore_context in_idle)
unfolding load64 store64
restore_context-save_context_example =
    restore_context-save_context in_task in_idle 0x2000 0x9000 (omega arith) numbers_fit refl
      (omega arith) refl (omega arith) refl (λ q l u. refl) (omega arith) (omega arith)

abbrev with_task : Bytes
with_task = write_task code 0x2000 0x40 0x8000 (λ _. 0)

abbrev at_start : Machine
at_start = record {
  regs = λ r. load64 with_task (Task.rsp 0x2000);
  rip = 0;
  gs = 0x4000;
  bytes = with_task;
}

write_task-Starts_example : Starts code 0x2000 0x40 0x8000 (run task_run at_start)
write_task-Starts_example =
    write_task-Starts code 0x2000 0x40 0x8000 (λ _. 0) at_start (omega arith) (omega arith)
      (omega arith) (omega arith) (omega arith) (omega arith) refl refl

abbrev before_start : Machine
before_start = record { regs = registers_of_idle; rip = 0; gs = 0x4000; bytes = with_task }

restore_context-Starts_example :
    Starts code 0x2000 0x40 0x8000 (run restore_context before_start)
    × ((r : Reg)
        → r ≢ rsp
        → (run restore_context before_start).regs r ≡ load64 (λ _. 0) (slot 0x2000 r))
unfolding load64
restore_context-Starts_example =
    restore_context-Starts code 0x2000 0x40 0x8000 (λ _. 0) before_start (omega arith) (omega arith)
      (omega arith) (omega arith) (omega arith) (omega arith) (λ q at. refl) refl (omega arith)
      (omega arith) (omega arith)

-- Three free frames, and a queue of one task.
abbrev queued : Kernel
queued = record machine { tasks = 0x2000 }

queued-Queue : Queue queued (0x2000 ∷ [])
unfolding load64
queued-Queue = record {
  chain = (refl, record { not_null = omega arith; fits = omega arith }, refl);
  away = (tt, tt);
}

queued-Store : Store queued []
queued-Store =
    Store-writes machine queued [] refl refl (λ q free. refl) (machine_of-Store 3 (omega arith))

task_init-Initialized_example :
    Returns
      (λ _ k'.
        (stack : Ptr) × (ps' : List HeapPage) × Initialized code 0x3000 0x40 queued []
          (0x2000 ∷ [])
          stack
          k'
          ps')
      (task_init code 255 0x3000 0x40 queued)
task_init-Initialized_example =
    task_init-Initialized code 255 0x3000 0x40 (0x2000 ∷ [])
      (record { not_null = omega arith; fits = omega arith }) (omega arith, tt) (omega arith)
      (omega arith) (omega arith) (omega arith) queued [] queued-Store queued-Queue refl refl
      (λ q lo hi. (tt, λ p m. omega arith), (λ q lo hi. (tt, λ p m. omega arith), tt))
      (record { segment = 0; below = omega arith; enough = omega arith }) (omega arith)
      (omega arith)

-- Six free frames, and the same queue.
abbrev roomy : Kernel
roomy = record (machine_of 6) { tasks = 0x2000 }

roomy-Queue : Queue roomy (0x2000 ∷ [])
unfolding load64
roomy-Queue = record {
  chain = (refl, record { not_null = omega arith; fits = omega arith }, refl);
  away = (tt, tt);
}

ap_entry-Entered_example :
    Returns
      (λ r k'.
        (idle : Ptr) × (stack : Ptr) × (ps' : List HeapPage) × (r.1 ≡ first_sp stack)
        × Entered code (0x2000 ∷ []) (get_cpu_state r.0) idle stack ps' k')
      (ap_entry code 255 0x9000 (λ _. 0) roomy)
ap_entry-Entered_example =
    ap_entry-Entered code 255 0x9000 (λ _. 0) (0x2000 ∷ []) roomy [] (omega arith) (omega arith)
      (omega arith)
      (Store-writes (machine_of 6) roomy [] refl refl (λ q free. refl)
        (machine_of-Store 6 (omega arith)))
      roomy-Queue ((λ q lo hi. (tt, λ p m. omega arith)), tt) refl refl
      (record { segment = 0; below = omega arith; enough = omega arith }) (omega arith)
      (omega arith) (omega arith)
