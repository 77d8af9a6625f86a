-- ===== src/Tasks/Context.antt =====
-- The registers that the context of a task holds, and how restore_context (src/task.S) brings them back.
use side_h_os.Base.{ℕ, ◌+◌, ◌≤◌, ◌<◌, ◌≡◌, ◌≢◌, refl, ap, ◌∙◌, ◌⊎◌, arith}
use side_h_os.Base.Word.{add64, sub64, u64_mod}
use side_h_os.Bytes.{Bytes, load64, store64}
use side_h_os.Bytes.Words.{Apart, load64-store64, load64-store64-Apart, load64-past}
use side_h_os.Kernel.{Ptr}
use side_h_os.Tasks.Machine.{
  Reg, r15, r14, r13, r12, r11, r10, r9, r8, rsi, rdi, rdx, rcx, rbx, rax, rbp, rsp, rflags, ctx,
  index, task_context, Machine, run,
}
use side_h_os.Tasks.Switch.{restore_context}

-- The word of the task at t that holds the register.
abbrev pub slot : Ptr → Reg → ℕ
slot t r = add64 t (task_context + ctx r)

-- The context of the task at t holds the registers f.
abbrev pub Saved : Bytes → Ptr → (Reg → ℕ) → Type 0
Saved m t f = (r : Reg) → load64 m (slot t r) ≡ f r

-- The registers f, with the return address off the stack that they name.
pub record Restored (f : Reg → ℕ) (m : Bytes) (s : Machine) : Type 0 where
  pub regs : (r : Reg) → r ≢ rsp → s.regs r ≡ f r
  pub stack : s.regs rsp ≡ add64 (f rsp) 8
  pub returns : s.rip ≡ load64 m (f rsp)

pub index-le : (r : Reg) → index r ≤ 16
index-le r = ground arith

-- No register's word is among the n bytes from a.
abbrev pub OffTask : (a n t : ℕ) → Type 0
OffTask a n t = (a + n ≤ t) ⊎ (t + 176 ≤ a)

pub slot-Apart :
    (a : ℕ) (t : Ptr) (r : Reg) → t + 176 ≤ u64_mod → OffTask a 8 t → Apart a (slot t r)
slot-Apart a t r fits off = omega (arith, index-le r)

pub slot-Apart_at :
    (a : ℕ) (t : Ptr) (r : Reg) (at : Ptr)
    → t + 176 ≤ u64_mod
    → OffTask a 8 t
    → at ≡ t
    → Apart a (slot at r)
slot-Apart_at a t r at fits off e = omega (arith, index-le r)

module _ (s : Machine) (f : Reg → ℕ) (saved : Saved s.bytes (s.regs rdi) f)
    (flags : f rflags < u64_mod)
    (apart : (r : Reg) → Apart (sub64 (s.regs rsp) 8) (slot (s.regs rdi) r))
    (off_stack : Apart (sub64 (s.regs rsp) 8) (f rsp)) where
  abbrev pushed : Bytes
  pushed = store64 s.bytes (sub64 (s.regs rsp) 8) (load64 s.bytes (slot (s.regs rdi) rflags))

  restored : (r : Reg) → r ≢ rsp → (run restore_context s).regs r ≡ f r
  restored r15 _ = saved r15
  restored r14 _ = saved r14
  restored r13 _ = saved r13
  restored r12 _ = saved r12
  restored r11 _ = saved r11
  restored r10 _ = saved r10
  restored r9 _ = saved r9
  restored r8 _ = saved r8
  restored rsi _ = saved rsi
  restored rdi _ = load64-past _ _ _ _ (apart rdi) (saved rdi)
  restored rdx _ = saved rdx
  restored rcx _ = saved rcx
  restored rbx _ = saved rbx
  restored rax _ = saved rax
  restored rbp _ = saved rbp
  restored rsp other = absurd (other refl)
  restored rflags _ =
      load64-store64 s.bytes (sub64 (s.regs rsp) 8) (load64 s.bytes (slot (s.regs rdi) rflags))
        (omega (arith, saved rflags))
      ∙ saved rflags

  saved_sp : load64 pushed (slot (s.regs rdi) rsp) ≡ f rsp
  saved_sp = load64-past _ _ _ _ (apart rsp) (saved rsp)

  -- restore_context, called with a task whose context holds the registers f, whose word below the current stack pointer is not the context's, brings back all of f, and returns to the address on the stack that f names.
  pub restore_context-Restored : Restored f s.bytes (run restore_context s)
  restore_context-Restored = record {
    regs = restored;
    stack = ap (λ p. add64 p 8) saved_sp;
    returns = ap (load64 pushed) saved_sp ∙ load64-store64-Apart _ _ _ _ off_stack;
  }
