-- ===== src/Tasks/Launch.antt =====
-- A new task starts (src/kernel.c, task_init, and src/task.S): what is on its stack leads task_run, or
-- restore_context, to its entry.
use side_h_os.Base.{ℕ, ◌+◌, ◌%◌, ◌≤◌, ◌<◌, ◌≡◌, ◌≢◌, refl, ◌⊎◌, inl, inr, arith, ap, ◌∙◌}
use side_h_os.Base.Word.{add64, sub64, u64_mod}
use side_h_os.Bytes.{Bytes, load64}
use side_h_os.Bytes.Words.{load64-store64, load64-agree, store64-Outside}
use side_h_os.Kernel.{Ptr}
use side_h_os.Tasks.{Code, write_task}
use side_h_os.Tasks.Task
use side_h_os.Tasks.Machine.{Reg, index, rdi, rsp, rflags, Machine, run}
use side_h_os.Tasks.Switch.{task_run, task_trampoline, restore_context}
use side_h_os.Tasks.Context.{
  slot, index-le, OffTask, slot-Apart_at, Restored, restore_context-Restored,
}
use side_h_os.Tasks.Prepare.{
  Prepared, Prepared-agree, first_sp, write_task-Prepared, write_task-past,
}

-- At the trampoline, with the stack pointer in the task's stack; from there to the task's entry, with the task as its argument, task_exit to return to, and the stack as calls expect it.
pub record Starts (code : Code) (t entry stack : Ptr) (s : Machine) : Type 0 where
  pub at_trampoline : s.rip ≡ code.task_trampoline
  pub on_stack : (stack ≤ s.regs rsp) × (s.regs rsp + 24 ≤ stack + 4096)
  pub jumps : (run task_trampoline s).rip ≡ entry
  pub argument : (run task_trampoline s).regs rdi ≡ t
  pub exits :
      load64 (run task_trampoline s).bytes ((run task_trampoline s).regs rsp) ≡ code.task_exit
  pub aligned : ((run task_trampoline s).regs rsp + 8) % 16 ≡ 0

module _ (code : Code) (t entry stack sp : Ptr) (s : Machine)
    (h : Prepared code t entry stack sp s.bytes) (room : stack + 4096 < u64_mod)
    (at_trampoline : s.rip ≡ code.task_trampoline) (stack_at : s.regs rsp ≡ sp + 8)
    (exit_fits : code.task_exit < u64_mod) where
  Prepared-Starts : Starts code t entry stack s
  Prepared-Starts =
      let third : add64 (sp + 8) 8 ≡ sp + 16 = omega (arith, h.high) in
      let fourth : add64 (sp + 16) 8 ≡ sp + 24 = omega (arith, h.high) in
      let back : sub64 (add64 (sp + 24) 8) 8 ≡ sp + 24 = omega (arith, h.high) in
      record {
        at_trampoline = at_trampoline;
        on_stack = (omega (arith, h.low, stack_at), omega (arith, h.high, stack_at));
        jumps = rw stack_at h.word_entry;
        argument = rw (stack_at, third) h.word_task;
        exits =
            rw (stack_at, third, fourth, back)
              (load64-store64 s.bytes (sp + 24) _ (omega (arith, h.word_exit, exit_fits))
                ∙ h.word_exit);
        aligned = rw (stack_at, third, fourth, back) (omega (arith, h.aligned));
      }

-- task_init prepares a task, which overlaps its stack of 4096 bytes nowhere, so that task_run starts it: from the saved stack pointer task_run goes to the trampoline, and the trampoline to the task's entry, with the task as its argument, task_exit to return to, and the stack aligned as for a call.
pub write_task-Starts :
    (code : Code) (t entry stack : Ptr) (m : Bytes) (s : Machine)
    → t + 176 ≤ u64_mod
    → stack + 4096 < u64_mod
    → (t + 176 ≤ stack) ⊎ (stack + 4096 ≤ t)
    → code.task_exit < u64_mod
    → code.task_trampoline < u64_mod
    → entry < u64_mod
    → s.bytes ≡ write_task code t entry stack m
    → s.regs rdi ≡ load64 s.bytes (Task.rsp t)
    → Starts code t entry stack (run task_run s)
write_task-Starts code t entry stack m s fits room apart e f g bytes arg =
    let h : Prepared code t entry stack (first_sp stack) s.bytes =
      rw bytes (write_task-Prepared code t entry stack m fits room apart e f g) in
    let rsp_at : Task.rsp t ≡ t + 144 = omega arith in
    let at : s.regs rdi ≡ first_sp stack = arg ∙ ap (load64 s.bytes) rsp_at ∙ h.saved_sp in
    Prepared-Starts code t entry stack (first_sp stack) (run task_run s) h room
      (ap (load64 s.bytes) at ∙ h.word_trampoline) (ap (λ n. add64 n 8) at ∙ omega arith) e

-- restore_context starts a prepared task likewise; all registers but rsp are what the context holds.
restore_context-Prepared :
    (code : Code) (t entry stack sp : Ptr) (s : Machine)
    → t + 176 ≤ u64_mod
    → stack + 4096 < u64_mod
    → code.task_exit < u64_mod
    → Prepared code t entry stack sp s.bytes
    → s.regs rdi ≡ t
    → load64 s.bytes (slot t rflags) < u64_mod
    → OffTask (sub64 (s.regs rsp) 8) 8 t
    → (sub64 (s.regs rsp) 8 + 8 ≤ stack) ⊎ (stack + 4096 ≤ sub64 (s.regs rsp) 8)
    → Starts code t entry stack (run restore_context s)
      × ((r : Reg) → r ≢ rsp → (run restore_context s).regs r ≡ load64 s.bytes (slot t r))
restore_context-Prepared code t entry stack sp s fits room e h arg flags off off_stack = (
  Prepared-Starts code t entry stack sp (run restore_context s) after room
      (back.returns ∙ ap (load64 s.bytes) sp_at ∙ h.word_trampoline)
      (back.stack ∙ ap (λ n. add64 n 8) sp_at ∙ omega (arith, h.high)) e,
  λ r other. back.regs r other ∙ ap (λ a. load64 s.bytes (slot a r)) arg,
)
  where
    sp_at : load64 s.bytes (slot (s.regs rdi) rsp) ≡ sp
    sp_at =
        ap (λ a. load64 s.bytes (slot a rsp)) arg ∙ ap (load64 s.bytes) (omega arith) ∙ h.saved_sp

    after : Prepared code t entry stack sp (run restore_context s).bytes
    after =
        Prepared-agree s.bytes (run restore_context s).bytes h
          (λ q l u. store64-Outside s.bytes (sub64 (s.regs rsp) 8) _ q (omega arith))
          (λ q l u. store64-Outside s.bytes (sub64 (s.regs rsp) 8) _ q (omega arith))

    back : Restored (λ r. load64 s.bytes (slot (s.regs rdi) r)) s.bytes (run restore_context s)
    back =
        restore_context-Restored s (λ r. load64 s.bytes (slot (s.regs rdi) r)) (λ r. refl)
          (rw arg flags) (λ r. slot-Apart_at (sub64 (s.regs rsp) 8) t r (s.regs rdi) fits off arg)
          (rw sp_at (omega (arith, h.low, h.high)))

other_slot : (r : Reg) → r ≢ rsp → (index r + 1 ≤ 15) ⊎ (16 ≤ index r)
other_slot r other = ground arith

-- Where task_init has prepared a task on a stack of 4096 bytes, apart from each other, in the memory m, and the two are still as it left them but for the link to the next task, restore_context of the task, from a stack of the moment whose next word is in neither, starts it likewise. All registers but rsp, the flags included, are then the words that the block of the task held in m, before task_init: it sets none of them.
pub restore_context-Starts :
    (code : Code) (t entry stack : Ptr) (m : Bytes) (s : Machine)
    → t + 176 ≤ u64_mod
    → stack + 4096 < u64_mod
    → (t + 176 ≤ stack) ⊎ (stack + 4096 ≤ t)
    → code.task_exit < u64_mod
    → code.task_trampoline < u64_mod
    → entry < u64_mod
    → ((q : ℕ)
        → ((stack ≤ q) × (q < stack + 4096)) ⊎ ((t ≤ q) × (q < t + 168))
        → s.bytes q ≡ write_task code t entry stack m q)
    → s.regs rdi ≡ t
    → load64 m (slot t rflags) < u64_mod
    → OffTask (sub64 (s.regs rsp) 8) 8 t
    → (sub64 (s.regs rsp) 8 + 8 ≤ stack) ⊎ (stack + 4096 ≤ sub64 (s.regs rsp) 8)
    → Starts code t entry stack (run restore_context s)
      × ((r : Reg) → r ≢ rsp → (run restore_context s).regs r ≡ load64 m (slot t r))
restore_context-Starts code t entry stack m s fits room apart e f g same arg flags off off_stack =
    let h : Prepared code t entry stack (first_sp stack) s.bytes =
      Prepared-agree (write_task code t entry stack m) s.bytes
        (write_task-Prepared code t entry stack m fits room apart e f g)
        (λ q lo hi. same q (inl (lo, hi))) (λ q lo hi. same q (inr (lo, hi))) in
    let (starts, others) =
      restore_context-Prepared code t entry stack (first_sp stack) s fits room e h arg
        (omega (arith, untouched rflags (λ eq. other_flags eq), flags)) off off_stack in
    (starts, λ r other. others r other ∙ untouched r other)
  where
    other_flags : ¬ rflags ≡ rsp
    other_flags eq = ground arith

    untouched : (r : Reg) → r ≢ rsp → load64 s.bytes (slot t r) ≡ load64 m (slot t r)
    untouched r other =
        let place = other_slot r other in
        let bound = index-le r in
        load64-agree s.bytes (write_task code t entry stack m) (slot t r)
          (λ q lo hi. same q (inr (omega arith, omega arith)))
        ∙ write_task-past code t entry stack m fits room apart e f g (slot t r) (omega arith)
            (omega arith) (omega (arith, place))
