-- ===== src/Tasks/Resume.antt =====
-- A task goes on where it stopped (src/task.S): restore_context after save_context, with anything in
-- between that leaves the bytes of the task alone. So the idle task goes on when a task has ended: its
-- return address is on the stack that its context names, put there by its own call.
use side_h_os.Base.{ℕ, ◌+◌, ◌≤◌, ◌<◌, ◌≡◌, ◌⊎◌, ap, ◌∙◌, arith}
use side_h_os.Base.Word.{add64, sub64, u64_mod}
use side_h_os.Bytes.{load64}
use side_h_os.Bytes.Words.{Apart, load64-agree}
use side_h_os.Kernel.{Ptr}
use side_h_os.Tasks.Machine.{Reg, rdi, rsp, rflags, cpu_current_task, Machine, run}
use side_h_os.Tasks.Switch.{save_context, restore_context}
use side_h_os.Tasks.Context.{
  slot, Saved, OffTask, Restored, index-le, slot-Apart_at, restore_context-Restored,
}
use side_h_os.Tasks.Saving.{save_context-Saves}

-- restore_context brings a task back to where save_context saved it, when the bytes of the task are the same, whatever else has changed, and the word that it pushes on the stack of the moment is neither the task's nor its return address: all registers but rsp are those of save_context's caller, rsp is the one behind the return address, and the return address is the one that is on the task's stack now.
pub restore_context-save_context :
    (s later : Machine) (t p : Ptr)
    → t + 176 ≤ u64_mod
    → ((r : Reg) → s.regs r < u64_mod)
    → s.regs rsp ≡ p + 24
    → OffTask p 32 t
    → load64 s.bytes (add64 s.gs cpu_current_task) ≡ t
    → ((p + 24 ≤ add64 s.gs cpu_current_task) ⊎ (add64 s.gs cpu_current_task + 8 ≤ p))
    → later.regs rdi ≡ t
    → ((q : ℕ) → t ≤ q → q < t + 176 → later.bytes q ≡ (run save_context s).bytes q)
    → OffTask (sub64 (later.regs rsp) 8) 8 t
    → Apart (sub64 (later.regs rsp) 8) (s.regs rsp)
    → Restored s.regs later.bytes (run restore_context later)
restore_context-save_context s later t p fits words sp off current off_current arg same below
      apart =
    restore_context-Restored later s.regs
      (λ r. ap (λ a. load64 later.bytes (slot a r)) arg ∙ saved r) (words rflags)
      (λ r. slot-Apart_at (sub64 (later.regs rsp) 8) t r (later.regs rdi) fits below arg) apart
  where
    saved : Saved later.bytes t s.regs
    saved r =
        load64-agree later.bytes (run save_context s).bytes (slot t r)
          (λ q l u. same q (omega (arith, index-le r)) (omega (arith, index-le r)))
        ∙ (save_context-Saves s t p fits words sp off current off_current).saved r
