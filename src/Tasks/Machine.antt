-- ===== src/Tasks/Machine.antt =====
-- The processor as the assembly of src/task.S sees it: the registers that struct Context (src/kernel.h)
-- holds, the memory, and the instructions that the four routines are written in. A routine is straight
-- code up to its `ret` or `jmp`.
use side_h_os.Base.{ℕ, ◌*◌, List, [], ◌∷◌, ◌==◌, if◌then◌else◌}
use side_h_os.Base.Word.{add64, sub64}
use side_h_os.Bytes.{Bytes, load64, store64}

-- In the order of the fields of struct Context.
pub data Reg : Type 0 where
  r15 : Reg
  r14 : Reg
  r13 : Reg
  r12 : Reg
  r11 : Reg
  r10 : Reg
  r9 : Reg
  r8 : Reg
  rsi : Reg
  rdi : Reg
  rdx : Reg
  rcx : Reg
  rbx : Reg
  rax : Reg
  rbp : Reg
  rsp : Reg
  rflags : Reg

-- How many words of the context stand before the register's.
abbrev pub index : Reg → ℕ
index r15 = 0
index r14 = 1
index r13 = 2
index r12 = 3
index r11 = 4
index r10 = 5
index r9 = 6
index r8 = 7
index rsi = 8
index rdi = 9
index rdx = 10
index rcx = 11
index rbx = 12
index rax = 13
index rbp = 14
index rsp = 15
index rflags = 16

-- offsetof(Task, context)
abbrev pub task_context : ℕ
task_context = 24

-- offsetof(Context, r), for each r
abbrev pub ctx : Reg → ℕ
ctx r = 8 * index r

-- offsetof(CPULocal, current_task)
abbrev pub cpu_current_task : ℕ
cpu_current_task = 8

-- `gs` is the base address of %gs, `rip` the address that the routine has jumped to.
pub record Machine : Type 0 where
  pub regs : Reg → ℕ
  pub rip : ℕ
  pub gs : ℕ
  pub bytes : Bytes

abbrev pub set : Reg → ℕ → Machine → Machine
set r v s = record s { regs = λ q. if index r == index q then v else s.regs q }

-- The sources stand before the destinations.
pub data Instr : Type 0 where
  mov : (src dst : Reg) → Instr
  load : (offset : ℕ) → (base dst : Reg) → Instr
  load_gs : (offset : ℕ) → (dst : Reg) → Instr
  store : (src : Reg) → (offset : ℕ) → (base : Reg) → Instr
  push : (src : Reg) → Instr
  push_mem : (offset : ℕ) → (base : Reg) → Instr
  pop : (dst : Reg) → Instr
  ret : Instr
  jmp : (target : Reg) → Instr

abbrev push_word : ℕ → Machine → Machine
push_word v s =
    let sp = sub64 (s.regs rsp) 8 in set rsp sp (record s { bytes = store64 s.bytes sp v })

abbrev top_word : Machine → ℕ
top_word s = load64 s.bytes (s.regs rsp)

abbrev drop_word : Machine → Machine
drop_word s = set rsp (add64 (s.regs rsp) 8) s

abbrev pub step : Instr → Machine → Machine
step (mov src dst) s = set dst (s.regs src) s
step (load offset base dst) s = set dst (load64 s.bytes (add64 (s.regs base) offset)) s
step (load_gs offset dst) s = set dst (load64 s.bytes (add64 s.gs offset)) s
step (store src offset base) s = record s {
  bytes = store64 s.bytes (add64 (s.regs base) offset) (s.regs src);
}
step (push src) s = push_word (s.regs src) s
step (push_mem offset base) s = push_word (load64 s.bytes (add64 (s.regs base) offset)) s
step (pop dst) s = set dst (top_word s) (drop_word s)
step ret s = record (drop_word s) { rip = top_word s }
step (jmp target) s = record s { rip = s.regs target }

abbrev pub run : List Instr → Machine → Machine
run [] s = s
run (i ∷ is) s = run is (step i s)
