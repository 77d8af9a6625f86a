-- ===== src/Tasks.antt =====
-- Tasks (src/kernel.c): task_init and the queue of tasks, what a processor does at its start and after
-- a task (ap_entry, task_exit), and the two tasks that compute (factorial, fibonacci). The
-- switch of registers is assembly: a definition here ends where the code would jump.
pub mod Task
pub mod Cpu
pub mod GsBase
pub mod Links
pub mod Queue
pub mod Compute
pub mod Machine
pub mod Switch
pub mod Context
pub mod Saving
pub mod Resume
pub mod Prepare
pub mod Launch
pub mod Initialized
pub mod Init
pub mod Ready
pub mod Create
pub mod ApEntry
pub mod Taking
pub mod Owner
pub mod Service
pub mod Drain
mod Tests
mod SwitchTests
mod ServiceTests
use side_h_os.Base.{
  ℕ, zero, suc, ◌+◌, ◌-◌, ◌*◌, ◌/◌, ◌%◌, Bool, true, false, Option, none, some, ltb, leb, ◌==◌,
  if◌then◌else◌,
}
use side_h_os.Base.Word.{add64, sub64, mul64}
use side_h_os.Bytes.{Bytes, load64, store64}
use side_h_os.Kernel.{
  Ptr, null, size_4kb, Kernel, Cmd, ok, out_of_fuel, pure, ◌>>=◌, ◌>>◌, get, modify, with_bytes,
}
use side_h_os.Lock.{spin, lock_acquire, lock_release, put_task_lock, put_serial_lock}
use side_h_os.Heap.{kmalloc, within}
use side_h_os.Console.{kputs, kputhex}
use side_h_os.Tasks.Task
use side_h_os.Tasks.Cpu
use side_h_os.Tasks.GsBase.{Msrs, set_gs_base}

-- The addresses of functions that are stored in memory.
pub record Code : Type 0 where
  pub task_exit : Ptr
  pub task_trampoline : Ptr
  pub idle_task_entry : Ptr
  pub factorial_task : Ptr
  pub fibonacci_task : Ptr

abbrev pub task_acquire : Cmd (Unit {0})
task_acquire = spin (λ k. k.task_lock) put_task_lock

abbrev pub task_release : Cmd (Unit {0})
task_release k = ok tt (put_task_lock (lock_release k.task_lock) k)

abbrev pub serial_acquire : Cmd (Unit {0})
serial_acquire = spin (λ k. k.serial_lock) put_serial_lock

abbrev pub serial_release : Cmd (Unit {0})
serial_release k = ok tt (put_serial_lock (lock_release k.serial_lock) k)

-- x & ~0xF
abbrev pub align_16 : ℕ → ℕ
align_16 x = x / 16 * 16

-- *(--sp) = v
abbrev pub push : ℕ → Bytes × Ptr → Bytes × Ptr
push v (m, sp) = let sp' = sub64 sp 8 in (store64 m sp' v, sp')

-- The stack of a new task, with what task_trampoline expects on it, and the fields of the task that
-- say so.
unfoldable pub write_task : Code → (t entry stack : Ptr) → Bytes → Bytes
write_task code t entry stack m =
    let with_fields = store64 (store64 m (Task.stack t) stack) (Task.entry t) entry in
    let top = align_16 (add64 stack size_4kb) in
    let (pushed, sp) =
      push code.task_trampoline (push entry (push t (push code.task_exit (with_fields, top)))) in
    store64 pushed (Task.rsp t) sp

-- while (cur->next) cur = cur->next;
unfoldable pub last_task : (fuel : ℕ) → Bytes → (cur : Ptr) → Option Ptr
last_task zero m cur = none
last_task (suc f) m cur =
    let next = load64 m (Task.next cur) in
    let rest = last_task f m next in if next == null then some cur else rest

-- t behind the last task, with the lock held.
unfoldable pub enqueue : (fuel : ℕ) → (t : Ptr) → Cmd (Unit {0})
enqueue fuel t = do
  modify (with_bytes λ m. store64 m (Task.next t) null)
  k ← get
  if k.tasks == null then modify (λ k. record k { tasks = t }) else (do
    cur ← within (last_task fuel k.bytes k.tasks)
    modify (with_bytes λ m. store64 m (Task.next cur) t))

unfoldable pub task_init : Code → (fuel : ℕ) → (t entry : Ptr) → Cmd (Unit {0})
unfolding write_task enqueue
task_init code fuel t entry = do
  stack ← kmalloc fuel size_4kb
  modify (with_bytes (write_task code t entry stack))
  task_acquire
  enqueue fuel t
  task_release

-- Up to restore_context(idle).
unfoldable pub task_exit : (cpu_local : Ptr) → Cmd Ptr
task_exit cpu_local = do
  k ← get
  let idle = load64 k.bytes (Cpu.idle_task cpu_local)
  modify (with_bytes λ m. store64 m (Cpu.current_task cpu_local) idle)
  pure idle

-- cpu_local->info = *info, four words
abbrev pub copy_info : (from to : Ptr) → Bytes → Bytes
copy_info from to m =
    let m₁ = store64 m to (load64 m from) in
    let m₂ = store64 m₁ (add64 to 8) (load64 m (add64 from 8)) in
    let m₃ = store64 m₂ (add64 to 16) (load64 m (add64 from 16)) in
    store64 m₃ (add64 to 24) (load64 m (add64 from 24))

-- Up to task_run, with the model registers behind it and the stack pointer that task_run is given.
unfoldable pub ap_entry : Code → (fuel : ℕ) → (info : Ptr) → Msrs → Cmd (Msrs × ℕ)
unfolding task_init
ap_entry code fuel info msrs = do
  cpu_local ← kmalloc fuel Cpu.size
  idle_task ← kmalloc fuel Task.size
  task_init code fuel idle_task code.idle_task_entry
  modify (
      with_bytes λ m. copy_info info (Cpu.info cpu_local) (
        store64 (store64 m (Cpu.idle_task cpu_local) idle_task) (Cpu.current_task cpu_local)
          idle_task))
  k ← get
  pure (set_gs_base cpu_local msrs, load64 k.bytes (Task.rsp idle_task))

-- for (uint64_t i = 2; i <= n; i++) result *= i;
unfoldable pub factorial_loop : (fuel n i result : ℕ) → Option ℕ
factorial_loop zero n i result = none
factorial_loop (suc f) n i result =
    let rest = factorial_loop f n (add64 i 1) (mul64 result i) in
    if leb i n then rest else some result

-- for (uint64_t i = 2; i <= n; i++) { t = a + b; a = b; b = t; }
unfoldable pub fibonacci_loop : (fuel n i a b : ℕ) → Option ℕ
fibonacci_loop zero n i a b = none
fibonacci_loop (suc f) n i a b =
    let rest = fibonacci_loop f n (add64 i 1) b (add64 a b) in if leb i n then rest else some b

-- while (lock_acquire(&serial_lock) == false) i++; gives the number of tries that failed.
unfoldable pub serial_tries : (fuel i : ℕ) → Cmd ℕ
serial_tries zero i k = out_of_fuel
serial_tries (suc f) i k =
    let (done, l) = lock_acquire k.serial_lock in
    let again = serial_tries f (add64 i 1) k in if done then ok i (put_serial_lock l k) else again

-- The line that both tasks write.
abbrev pub report : (fuel : ℕ) → (name : Cmd (Unit {0})) → (n result : ℕ) → Cmd ℕ
report fuel name n result = do
  i ← serial_tries fuel 0
  kputs "Lock tries - "
  kputhex i
  kputs " - "
  name
  kputhex n
  kputs " - "
  kputhex result
  kputs "\r\n"
  serial_release
  pure result

unfoldable pub factorial : (fuel n : ℕ) → Cmd ℕ
unfolding factorial_loop serial_tries
factorial fuel n = do
  result ← within (factorial_loop fuel n 2 1)
  report fuel (kputs "Factorial - ") n result

unfoldable pub fibonacci : (fuel n : ℕ) → Cmd ℕ
unfolding fibonacci_loop serial_tries
fibonacci fuel n =
    if ltb n 2
    then pure n
    else (do b ← within (fibonacci_loop fuel n 2 0 1); report fuel (kputs "Fibonacci - ") n b)

unfoldable pub factorial_task : (fuel : ℕ) → Cmd ℕ
unfolding factorial
factorial_task fuel = factorial fuel 100

unfoldable pub fibonacci_task : (fuel : ℕ) → Cmd ℕ
unfolding fibonacci
fibonacci_task fuel = fibonacci fuel 1000000
