-- ===== src/Tasks/Cpu.antt =====
-- The fields of struct CPULocal (src/kernel.h), each as the address of the field of the structure at p.
use side_h_os.Base.{ℕ}
use side_h_os.Base.Word.{add64}

abbrev pub size : ℕ
size = 48

abbrev pub idle_task : ℕ → ℕ
idle_task p = p

abbrev pub current_task : ℕ → ℕ
current_task p = add64 p 8

abbrev pub info : ℕ → ℕ
info p = add64 p 16
