-- ===== src/Tasks/ServiceTests.antt =====
-- Processors that take tasks from a queue of one task (src/kernel.c).
use side_h_os.Base.{ℕ, refl, [], ◌∷◌, arith, List}
use side_h_os.Bytes.{load64}
use side_h_os.Kernel.{Ptr, Kernel, initial}
use side_h_os.Tasks.Links.{Chain}
use side_h_os.Tasks.Taking.{Phase, seeking}
use side_h_os.Tasks.Owner.{System, Runs, moves, here, then_step}
use side_h_os.Tasks.Service.{Served, Runs-Served}
use side_h_os.Tasks.Drain.{NextTaker, next_taken}

abbrev one_task : Kernel
one_task = record (initial (λ _. 0)) { tasks = 0x2000 }

abbrev all_seek : ℕ → Phase
all_seek i = seeking

abbrev one_queued : List Ptr
one_queued = 0x2000 ∷ []

one_task-Chain : Chain one_task.bytes one_task.tasks one_queued
unfolding load64
one_task-Chain = (refl, record { not_null = omega arith; fits = omega arith }, refl)

abbrev begin : System
begin = record { kernel = one_task; at = all_seek }

-- The processor 1 has the lock, and the processor 0 tries it in vain.
abbrev both_tried : (s : System) × Runs one_queued begin [] s
both_tried = (_, then_step (then_step here (moves 1)) (moves 0))

-- The processor 1 goes on with the task, and the processor 0 has the lock behind it.
abbrev one_served : (s : System) × Runs one_queued begin one_queued s
one_served = (
  _,
  then_step
      (then_step
        (then_step (then_step (then_step (then_step both_tried.1 (moves 1)) (moves 1)) (moves 1))
          (moves 1))
        (moves 1))
      (moves 0),
)

Runs-Served_example : Served one_queued one_queued one_served.0
Runs-Served_example =
    Runs-Served one_queued (tt, tt) one_task all_seek refl one_task-Chain (λ i. refl) one_queued
      one_served.0 one_served.1

next_taken_example : NextTaker one_queued [] 0 both_tried.0
next_taken_example =
    next_taken one_queued (tt, tt) one_task all_seek refl one_task-Chain (λ i. refl) [] both_tried.0
      both_tried.1 (omega arith) 0
