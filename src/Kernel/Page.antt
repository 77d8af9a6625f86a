-- ===== src/Kernel/Page.antt =====
-- The fields of struct HeapPage (src/kernel.h), each as the address of the field of the page at p.
use side_h_os.Base.{ℕ}
use side_h_os.Base.Word.{add64}

abbrev pub size : ℕ
size = 32

abbrev pub freelist : ℕ → ℕ
freelist p = p

abbrev pub frames : ℕ → ℕ
frames p = add64 p 8

abbrev pub largest : ℕ → ℕ
largest p = add64 p 16

abbrev pub next : ℕ → ℕ
next p = add64 p 24
