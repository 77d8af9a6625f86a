-- ===== src/Kernel/Node.antt =====
-- The fields of struct HeapNode (src/kernel.h), each as the address of the field of the node at p.
use side_h_os.Base.{ℕ}
use side_h_os.Base.Word.{add64}

abbrev pub size : ℕ
size = 16

abbrev pub length : ℕ → ℕ
length p = p

abbrev pub next : ℕ → ℕ
next p = add64 p 8
