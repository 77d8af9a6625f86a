-- ===== src/Lock/Tests.antt =====
-- The spin lock of src/kernel.c: one processor takes it, and another one fails.
use side_h_os.Base.{refl, true, false}
use side_h_os.Lock.Exclusion.{
  Shared, here, then_step, try_lock, IsExclusive, open_lock, Reach-IsExclusive,
}
use side_h_os.Kernel.{replace}

abbrev idle : Shared
idle = record { lock = 0; inside = λ _. false }

abbrev contended : Shared
contended = record { lock = 1; inside = replace (replace (λ _. false) 1 true) 2 false }

Reach-IsExclusive_example : IsExclusive contended
Reach-IsExclusive_example =
    Reach-IsExclusive idle contended (open_lock refl (λ j. refl))
      (then_step (then_step here (try_lock 1 refl)) (try_lock 2 refl))
