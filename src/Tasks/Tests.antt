-- ===== src/Tasks/Tests.antt =====
-- The tasks' code (src/kernel.c) at small inputs.
use side_h_os.Base.{◌<◌, ◌≤◌, ◌⊎◌, ◌≡◌, refl, arith, ◌%◌, [], ◌∷◌}
use side_h_os.Base.Word.{u64_mod}
use side_h_os.Kernel.{Kernel, ok, initial}
use side_h_os.Console.{codes}
use side_h_os.Bytes.{load64}
use side_h_os.Kernel.Returns.{Returns}
use side_h_os.Tasks.{factorial, fibonacci, enqueue}
use side_h_os.Tasks.Links.{IsTask}
use side_h_os.Tasks.Queue.{Queue, Enqueued, enqueue-Enqueued}
use side_h_os.Tasks.Compute.{fact, fib, line_of, with_sent, factorial-fact, fibonacci-fib}

abbrev start : Kernel
start = initial (λ _. 0)

factorial-fact_example :
    factorial 9 5 start
    ≡ ok (fact 5 % u64_mod) (with_sent (line_of (codes "Factorial - ") 5 (fact 5 % u64_mod)) start)
factorial-fact_example = factorial-fact 9 5 start (omega arith) (omega arith) refl

fibonacci-fib_example :
    ((2 ≤ 9)
      × (fibonacci 10 9 start
          ≡ ok
              (fib 9 % u64_mod)
              (with_sent (line_of (codes "Fibonacci - ") 9 (fib 9 % u64_mod)) start)))
    ⊎ ((9 < 2) × (fib 9 ≡ 9) × (fibonacci 10 9 start ≡ ok 9 start))
fibonacci-fib_example = fibonacci-fib 10 9 start (omega arith) (omega arith) refl

-- A queue of one task.
abbrev queued : Kernel
queued = record start { tasks = 0x2000 }

queued-IsTask : IsTask 0x2000
queued-IsTask = record { not_null = omega arith; fits = omega arith }

queued-Queue : Queue queued (0x2000 ∷ [])
unfolding load64
queued-Queue = record { chain = (refl, queued-IsTask, refl); away = (tt, tt) }

enqueue-Enqueued_example :
    Returns (λ _ k'. Enqueued queued (0x2000 ∷ []) 0x3000 k') (enqueue 2 0x3000 queued)
enqueue-Enqueued_example =
    enqueue-Enqueued 2 0x3000 (0x2000 ∷ []) queued queued-Queue
      (record { not_null = omega arith; fits = omega arith }) (omega arith, tt) (omega arith)
