-- ===== src/Heap/Samples.antt =====
-- Machines with some free frames and an empty heap.
use mathlib.Core.List.{Mem, Nodup, mem-cons, not-mem-nil, Nodup-cons, Nodup-nil, append-nil}
use mathlib.Core.Logic.Or
use native.Mathlib.Bridge.{le_prop}
use side_h_os.Base.{ℕ, zero, suc, ◌+◌, ◌*◌, ◌%◌, ◌^◌, ◌≤◌, ◌<◌, ◌≡◌, refl, [], arith}
use side_h_os.Kernel.{Kernel, initial}
use side_h_os.Frames.Ledger.{run}
use side_h_os.Heap.Contract.{Store}

-- n free frames from 1 MB on, with the direct map at 2 ^ 47.
abbrev pub machine_of : (n : ℕ) → Kernel
machine_of n = record (initial (λ _. 0)) {
  memory = record {
    freelist = record { segments = λ _. record { base = 0x10_0000; length = n }; cursor = 1 };
    heap_pages = 0;
  };
  hhdm_offset = 2 ^ 47;
}

abbrev pub machine : Kernel
machine = machine_of 3

run-lt : (p n r : ℕ) → Mem r (run p n) → r < p + 4096 * n
run-lt p zero r m = absurd (not-mem-nil m)
run-lt p (suc n) r m =
    Or.elim le_prop (mem-cons.0 m) (λ e. omega arith) λ m. omega (arith, run-lt p n r m)

run-Nodup : (p n : ℕ) → Nodup (run p n)
run-Nodup p zero = Nodup-nil
run-Nodup p (suc n) = Nodup-cons.1 (λ m. omega (arith, run-lt p n _ m), run-Nodup p n)

run-aligned : (p n r : ℕ) → p % 4096 ≡ 0 → Mem r (run p n) → r % 4096 ≤ 0
run-aligned p zero r e m = absurd (not-mem-nil m)
run-aligned p (suc n) r e m =
    Or.elim le_prop (mem-cons.0 m) (λ same. omega arith) λ m. run-aligned p n r e m

pub machine_of-Store : (n : ℕ) → n ≤ 1000 → Store (machine_of n) []
machine_of-Store n few = record {
  heap = record { pages = refl; apart = tt };
  formed = record { byte = omega arith; fits = λ i h. omega arith };
  few = omega arith;
  distinct = rw append-nil (run-Nodup 0x10_0000 n);
  placed = λ p m.
      let held : Mem p (run 0x10_0000 n) = rw append-nil at m in
      let aligned = run-aligned 0x10_0000 n p refl held in
      let below = run-lt 0x10_0000 n p held in (omega arith, omega arith, omega arith, tt);
}
