-- ===== src/Tasks/Task.antt =====
-- The fields of struct Task (src/kernel.h, src/offsets.c), each as the address of the field of the
-- task at p. The context is 17 words from 24 on, with rsp the sixteenth.
use side_h_os.Base.{ℕ}
use side_h_os.Base.Word.{add64}

abbrev pub size : ℕ
size = 176

abbrev pub stack : ℕ → ℕ
stack p = p

abbrev pub entry : ℕ → ℕ
entry p = add64 p 8

abbrev pub rsp : ℕ → ℕ
rsp p = add64 p 144

abbrev pub next : ℕ → ℕ
next p = add64 p 168
