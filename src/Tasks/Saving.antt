-- ===== src/Tasks/Saving.antt =====
-- save_context (src/task.S) puts the registers into the context of the current task, from where
-- restore_context brings them back.
use side_h_os.Base.{
  ℕ, ◌+◌, ◌≤◌, ◌<◌, ◌≡◌, ◌≢◌, refl, ap, ◌∙◌, ◌⊎◌, List, [], ◌∷◌, arith, inl, inr, Bool, true, false,
  ◌==◌, if◌then◌else◌,
}
use native.Mathlib.Decide.{ℕ_discrete}
use side_h_os.Base.Word.{add64, sub64, u64_mod}
use side_h_os.Bytes.{Bytes, load64, store64}
use side_h_os.Bytes.Words.{
  Apart, Outside, load64-store64, load64-past, load64-agree, store64-Outside,
}
use side_h_os.Kernel.{Ptr}
use side_h_os.Tasks.Machine.{
  Reg, r15, r14, r13, r12, r11, r10, r9, r8, rsi, rdi, rdx, rcx, rbx, rax, rbp, rsp, rflags, index,
  task_context, cpu_current_task, Machine, run,
}
use side_h_os.Tasks.Switch.{save_context}
use side_h_os.Tasks.Context.{slot, Saved, OffTask, index-le, slot-Apart}

-- mov %r, TASK_CONTEXT+CTX_R(%rax), for one register after another.
abbrev store_all : Ptr → (Reg → ℕ) → List Reg → Bytes → Bytes
store_all t f [] m = m
store_all t f (r ∷ rs) m = store_all t f rs (store64 m (slot t r) (f r))

index-inj : (q r : Reg) → index q ≡ index r → q ≡ r
index-inj q r e = ground arith

slot-cases : (t : Ptr) (q r : Reg) → t + 176 ≤ u64_mod → (q ≡ r) ⊎ Apart (slot t q) (slot t r)
slot-cases t q r fits = elim (ℕ_discrete (index q) (index r)) [
  | yes e ↦ inl (index-inj q r e)
  | no other ↦ inr (omega (arith, index-le q, index-le r))
]

abbrev among : Reg → List Reg → Bool
among r [] = false
among r (q ∷ rs) = if index q == index r then true else among r rs

module _ (t : Ptr) (f : Reg → ℕ) (r : Reg) (fits : t + 176 ≤ u64_mod) (word : f r < u64_mod) where
  store-keeps :
      (q : Reg) (m : Bytes)
      → load64 m (slot t r) ≡ f r
      → load64 (store64 m (slot t q) (f q)) (slot t r) ≡ f r
  store-keeps q m h = elim (slot-cases t q r fits) [
    | inl e ↦ rw e (load64-store64 m (slot t r) (f r) word)
    | inr far ↦ load64-past m _ _ _ far h
  ]

  store_all-keeps :
      (rs : List Reg) (m : Bytes)
      → load64 m (slot t r) ≡ f r
      → load64 (store_all t f rs m) (slot t r) ≡ f r
  store_all-keeps [] m h = h
  store_all-keeps (q ∷ rs) m h = store_all-keeps rs _ (store-keeps q m h)

  -- A word that is stored is there at the end: no other register has its place.
  load64-store_all :
      (rs : List Reg) (m : Bytes) → among r rs ≡ true → load64 (store_all t f rs m) (slot t r) ≡ f r
  load64-store_all [] m h = ground arith
  load64-store_all (q ∷ rs) m h = elim (slot-cases t q r fits) [
    | inl e ↦ store_all-keeps rs _ (rw e (load64-store64 m (slot t r) (f r) word))
    | inr far ↦ load64-store_all rs _ (ground arith)
  ]

-- The order in which save_context stores them.
abbrev order : List Reg
order =
    rdx ∷ rax ∷ rflags ∷ r15 ∷ r14 ∷ r13 ∷ r12 ∷ r11 ∷ r10 ∷ r9 ∷ r8 ∷ rsi ∷ rdi ∷ rcx ∷ rbx ∷ rbp
    ∷ rsp ∷ []

among-order : (r : Reg) → among r order ≡ true
among-order r = ground arith

-- The context takes 136 bytes.
store_all-Outside :
    (t : Ptr) (f : Reg → ℕ) (rs : List Reg) (m : Bytes) (q : ℕ)
    → t + 176 ≤ u64_mod
    → Outside (t + task_context) 136 q
    → store_all t f rs m q ≡ m q
store_all-Outside t f [] m q fits out = refl
store_all-Outside t f (r ∷ rs) m q fits out =
    store_all-Outside t f rs _ q fits out
    ∙ store64-Outside m (slot t r) (f r) q (omega (arith, index-le r))

-- What save_context leaves, for the task at t, called with the stack pointer p + 24.
pub record Saves (s : Machine) (t p : Ptr) (s' : Machine) : Type 0 where
  pub saved : Saved s'.bytes t s.regs
  pub returns : s'.rip ≡ load64 s.bytes (p + 24)
  pub stack : s'.regs rsp ≡ add64 (p + 24) 8
  pub regs : (r : Reg) → r ≢ rax → r ≢ rdx → r ≢ rsp → s'.regs r ≡ s.regs r
  pub gs : s'.gs ≡ s.gs
  pub others : (q : ℕ) → Outside (t + task_context) 136 q → Outside p 24 q → s'.bytes q ≡ s.bytes q

module _ (s : Machine) (t p : Ptr) (fits : t + 176 ≤ u64_mod)
    (words : (r : Reg) → s.regs r < u64_mod) (sp : s.regs rsp ≡ p + 24) (off : OffTask p 32 t)
    (current : load64 s.bytes (add64 s.gs cpu_current_task) ≡ t)
    (off_current : (p + 24 ≤ add64 s.gs cpu_current_task)
      ⊎ (add64 s.gs cpu_current_task + 8 ≤ p)) where
  -- What pushfq, push %rax and push %rdx leave.
  abbrev pushed : Bytes
  pushed =
      store64 (store64 (store64 s.bytes (p + 16) (s.regs rflags)) (p + 8) (s.regs rax)) p
        (s.regs rdx)

  pops_rdx : load64 pushed p ≡ s.regs rdx
  pops_rdx = load64-store64 _ _ _ (words rdx)

  -- A word that was pushed is not among those of the context.
  off_slot : (n : ℕ) (r : Reg) → n ≤ 16 → Apart (slot t r) (p + n)
  off_slot n r h = elim (slot-Apart (p + n) t r fits (omega arith)) [
    | inl before ↦ inr before
    | inr behind ↦ inl behind
  ]

  abbrev popped_rdx : Bytes
  popped_rdx = store64 pushed (slot t rdx) (s.regs rdx)

  pops_rax : load64 popped_rdx (p + 8) ≡ s.regs rax
  pops_rax =
      load64-past _ _ _ _ (off_slot 8 rdx (omega arith))
        (load64-past _ _ _ _ (omega arith) (load64-store64 _ _ _ (words rax)))

  pops_rflags : load64 (store64 popped_rdx (slot t rax) (s.regs rax)) (p + 16) ≡ s.regs rflags
  pops_rflags = load64-past _ _ _ _ (off_slot 16 rax (omega arith)) (
      load64-past _ _ _ _ (off_slot 16 rdx (omega arith)) (
        load64-past _ _ _ _ (omega arith)
          (load64-past _ _ _ _ (omega arith) (load64-store64 _ _ _ (words rflags)))))

  finds_task : load64 pushed (add64 s.gs cpu_current_task) ≡ t
  finds_task =
      load64-past _ _ _ _ (omega arith)
        (load64-past _ _ _ _ (omega arith) (load64-past _ _ _ _ (omega arith) current))

  saved_bytes : (run save_context s).bytes ≡ store_all t s.regs order pushed
  saved_bytes =
      let first : sub64 (p + 24) 8 ≡ p + 16 = omega (arith, words rsp) in
      let second : sub64 (p + 16) 8 ≡ p + 8 = omega (arith, words rsp) in
      let third : sub64 (p + 8) 8 ≡ p = omega (arith, words rsp) in
      let fourth : add64 p 8 ≡ p + 8 = omega (arith, words rsp) in
      let fifth : add64 (p + 8) 8 ≡ p + 16 = omega (arith, words rsp) in
      let sixth : add64 (p + 16) 8 ≡ p + 24 = omega (arith, words rsp) in
      rw
        (
          sp, first, second, third, fourth, fifth, sixth, finds_task, pops_rdx, pops_rax,
          pops_rflags,
        )
        refl

  save_context-Saved : Saved (run save_context s).bytes t s.regs
  save_context-Saved r =
      ap (λ m. load64 m (slot t r)) saved_bytes
      ∙ load64-store_all t s.regs r fits (words r) order pushed (among-order r)

  keeps :
      (q : ℕ)
      → Outside (t + task_context) 136 q
      → Outside p 24 q
      → (run save_context s).bytes q ≡ s.bytes q
  keeps q out below =
      ap (λ m. m q) saved_bytes
      ∙ store_all-Outside t s.regs order pushed q fits out
      ∙ store64-Outside _ p _ q (omega arith)
      ∙ store64-Outside _ (p + 8) _ q (omega arith)
      ∙ store64-Outside _ (p + 16) _ q (omega arith)

  sp_after : add64 (add64 (add64 (sub64 (sub64 (sub64 (s.regs rsp) 8) 8) 8) 8) 8) 8 ≡ p + 24
  sp_after = omega (arith, words rsp)

  kept : (r : Reg) → r ≢ rax → r ≢ rdx → r ≢ rsp → (run save_context s).regs r ≡ s.regs r
  kept r15 _ _ _ = refl
  kept r14 _ _ _ = refl
  kept r13 _ _ _ = refl
  kept r12 _ _ _ = refl
  kept r11 _ _ _ = refl
  kept r10 _ _ _ = refl
  kept r9 _ _ _ = refl
  kept r8 _ _ _ = refl
  kept rsi _ _ _ = refl
  kept rdi _ _ _ = refl
  kept rdx _ other _ = absurd (other refl)
  kept rcx _ _ _ = refl
  kept rbx _ _ _ = refl
  kept rax other _ _ = absurd (other refl)
  kept rbp _ _ _ = refl
  kept rsp _ _ other = absurd (other refl)
  kept rflags _ _ _ = refl

  -- save_context, called in a task that is current, with registers that are words and a stack whose four words around the call are not the task's and not the processor's pointer to it, saves the registers in the context of the task and returns to its caller; but for rax and rdx the registers stay, and no byte changes but those of the context and three words below the return address.
  pub save_context-Saves : Saves s t p (run save_context s)
  save_context-Saves = record {
    saved = save_context-Saved;
    returns =
        ap (load64 (run save_context s).bytes) sp_after
        ∙ load64-agree (run save_context s).bytes s.bytes (p + 24)
            (λ q l u. keeps q (omega arith) (omega arith));
    stack = ap (λ n. add64 n 8) sp_after;
    regs = kept;
    gs = refl;
    others = keeps;
  }
