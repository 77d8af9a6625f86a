-- ===== src/Tasks/Switch.antt =====
-- The assembly of src/task.S: the switch between tasks, and the start of one.
use side_h_os.Base.{◌+◌, List, [], ◌∷◌}
use side_h_os.Tasks.Machine.{
  Reg, r15, r14, r13, r12, r11, r10, r9, r8, rsi, rdi, rdx, rcx, rbx, rax, rbp, rsp, rflags, ctx,
  task_context, cpu_current_task, Instr, mov, load, load_gs, store, push, push_mem, pop, ret, jmp,
}

-- mov %r, TASK_CONTEXT+CTX_R(%rax)
abbrev store_ctx : (src field : Reg) → Instr
store_ctx src field = store src (task_context + ctx field) rax

-- mov TASK_CONTEXT+CTX_R(%rdi), %r
abbrev load_ctx : Reg → Instr
load_ctx r = load (task_context + ctx r) rdi r

abbrev pub save_context : List Instr
save_context =
    push rflags
    ∷ push rax
    ∷ push rdx
    ∷ load_gs cpu_current_task rax
    ∷ pop rdx
    ∷ store_ctx rdx rdx
    ∷ pop rdx
    ∷ store_ctx rdx rax
    ∷ pop rdx
    ∷ store_ctx rdx rflags
    ∷ store_ctx r15 r15
    ∷ store_ctx r14 r14
    ∷ store_ctx r13 r13
    ∷ store_ctx r12 r12
    ∷ store_ctx r11 r11
    ∷ store_ctx r10 r10
    ∷ store_ctx r9 r9
    ∷ store_ctx r8 r8
    ∷ store_ctx rsi rsi
    ∷ store_ctx rdi rdi
    ∷ store_ctx rcx rcx
    ∷ store_ctx rbx rbx
    ∷ store_ctx rbp rbp
    ∷ store_ctx rsp rsp
    ∷ ret
    ∷ []

abbrev pub restore_context : List Instr
restore_context =
    load_ctx r15
    ∷ load_ctx r14
    ∷ load_ctx r13
    ∷ load_ctx r12
    ∷ load_ctx r11
    ∷ load_ctx r10
    ∷ load_ctx r9
    ∷ load_ctx r8
    ∷ load_ctx rsi
    ∷ load_ctx rdx
    ∷ load_ctx rcx
    ∷ load_ctx rbx
    ∷ load_ctx rax
    ∷ load_ctx rbp
    ∷ push_mem (task_context + ctx rflags) rdi
    ∷ pop rflags
    ∷ load_ctx rsp
    ∷ load_ctx rdi
    ∷ ret
    ∷ []

abbrev pub task_trampoline : List Instr
task_trampoline = pop rax ∷ pop rdi ∷ pop rdx ∷ push rdx ∷ jmp rax ∷ []

abbrev pub task_run : List Instr
task_run = mov rdi rsp ∷ ret ∷ []
