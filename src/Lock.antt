-- ===== src/Lock.antt =====
-- The spin locks of src/kernel.c: lock_acquire, lock_release, and the loops that wait for a lock.
pub mod Exclusion
mod Tests
use side_h_os.Base.{◌≡◌, ap, sym, Bool, true, false, ◌==◌, if◌then◌else◌}
use side_h_os.Kernel.{Lock, Kernel, Cmd, ok, out_of_fuel}

-- `lock cmpxchgb` of 0 against 1: it succeeds where the byte is 0, and then the byte is 1.
abbrev pub lock_acquire : Lock → Bool × Lock
lock_acquire l = if l == 0 then (true, 1) else (false, l)

abbrev pub lock_release : Lock → Lock
lock_release l = 0

-- while (lock_acquire(&lock) == false); on one processor while no other moves: a first try that fails
-- fails for ever.
abbrev pub spin : (Kernel → Lock) → (Lock → Kernel → Kernel) → Cmd (Unit {0})
spin lock put k =
    let (done, l) = lock_acquire (lock k) in if done then ok tt (put l k) else out_of_fuel

abbrev pub put_memory_lock : Lock → Kernel → Kernel
put_memory_lock l k = record k { memory_lock = l }

abbrev pub put_task_lock : Lock → Kernel → Kernel
put_task_lock l k = record k { task_lock = l }

abbrev pub put_serial_lock : Lock → Kernel → Kernel
put_serial_lock l k = record k { serial_lock = l }

abbrev pub memory_acquire : Cmd (Unit {0})
memory_acquire = spin (λ k. k.memory_lock) put_memory_lock

abbrev pub memory_release : Cmd (Unit {0})
memory_release k = ok tt (put_memory_lock (lock_release k.memory_lock) k)

-- To open a lock that is open changes nothing.
pub lock_self : (k : Kernel) → k.memory_lock ≡ 0 → put_memory_lock 0 k ≡ k
lock_self k free = ap (λ l. put_memory_lock l k) (sym free)
