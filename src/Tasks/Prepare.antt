-- ===== src/Tasks/Prepare.antt =====
-- What task_init (src/kernel.c) writes into a task and on its stack.
use side_h_os.Base.{ap, ℕ, ◌+◌, ◌-◌, ◌*◌, ◌/◌, ◌%◌, ◌≤◌, ◌<◌, ◌≡◌, refl, ◌⊎◌, arith, ◌∙◌}
use side_h_os.Base.Word.{add64, sub64, u64_mod}
use side_h_os.Bytes.{Bytes, load64, store64}
use side_h_os.Bytes.Words.{load64-store64, load64-past, load64-agree, Outside, store64-Outside}
use side_h_os.Kernel.{Ptr, size_4kb}
use side_h_os.Tasks.{Code, align_16, write_task}
use side_h_os.Tasks.Task

-- The memory holds what starts the task at t: its fields, the saved stack pointer among them, and four words from it on, in the stack of 4096 bytes.
pub record Prepared (code : Code) (t entry stack sp : Ptr) (m : Bytes) : Type 0 where
  pub stack_field : load64 m t ≡ stack
  pub entry_field : load64 m (t + 8) ≡ entry
  pub saved_sp : load64 m (t + 144) ≡ sp
  pub word_trampoline : load64 m sp ≡ code.task_trampoline
  pub word_entry : load64 m (sp + 8) ≡ entry
  pub word_task : load64 m (sp + 16) ≡ t
  pub word_exit : load64 m (sp + 24) ≡ code.task_exit
  pub low : stack ≤ sp
  pub high : sp + 32 ≤ stack + 4096
  pub aligned : sp % 16 ≡ 0

-- Only the words of the stack and the saved stack pointer count.
pub Prepared-agree :
    {code : Code} {t entry stack sp : Ptr} (m m' : Bytes)
    → Prepared code t entry stack sp m
    → ((q : ℕ) → stack ≤ q → q < stack + 4096 → m' q ≡ m q)
    → ((q : ℕ) → t ≤ q → q < t + 168 → m' q ≡ m q)
    → Prepared code t entry stack sp m'
Prepared-agree {t} {stack} {sp} m m' h on_stack on_task = record {
  stack_field = field t (omega arith) (omega arith) ∙ h.stack_field;
  entry_field = field (t + 8) (omega arith) (omega arith) ∙ h.entry_field;
  saved_sp = field (t + 144) (omega arith) (omega arith) ∙ h.saved_sp;
  word_trampoline = word sp (omega arith) (omega arith) ∙ h.word_trampoline;
  word_entry = word (sp + 8) (omega arith) (omega arith) ∙ h.word_entry;
  word_task = word (sp + 16) (omega arith) (omega arith) ∙ h.word_task;
  word_exit = word (sp + 24) (omega arith) (omega arith) ∙ h.word_exit;
  low = h.low;
  high = h.high;
  aligned = h.aligned;
}
  where
    field : (a : ℕ) → t ≤ a → a ≤ t + 160 → load64 m' a ≡ load64 m a
    field a lo hi = load64-agree m' m a (λ q l u. on_task q (omega arith) (omega arith))

    word : (a : ℕ) → sp ≤ a → a ≤ sp + 24 → load64 m' a ≡ load64 m a
    word a lo hi =
        load64-agree m' m a (λ q l u. on_stack q (omega (arith, h.low)) (omega (arith, h.high)))

module _ (code : Code) (t entry stack sp : Ptr) (m : Bytes) (fits : t + 176 ≤ u64_mod)
    (room : stack + 4096 < u64_mod) (apart : (t + 176 ≤ stack) ⊎ (stack + 4096 ≤ t))
    (exit_fits : code.task_exit < u64_mod) (trampoline_fits : code.task_trampoline < u64_mod)
    (entry_fits : entry < u64_mod) (top : align_16 (add64 stack size_4kb) ≡ sp + 32)
    (low : stack ≤ sp) (high : sp + 32 ≤ stack + 4096) (aligned : sp % 16 ≡ 0) where
  abbrev with_exit : Bytes
  with_exit = store64 (store64 (store64 m t stack) (t + 8) entry) (sp + 24) code.task_exit

  abbrev with_all : Bytes
  with_all =
      store64
        (store64 (store64 (store64 with_exit (sp + 16) t) (sp + 8) entry) sp code.task_trampoline)
        (t + 144) sp

  down : (n : ℕ) → n ≤ 24 → sub64 (sp + (n + 8)) 8 ≡ sp + n
  down n h = omega arith

  write_task-eq : write_task code t entry stack m ≡ with_all
  unfolding write_task
  write_task-eq =
      let first : sub64 (sp + 32) 8 ≡ sp + 24 = down 24 (omega arith) in
      let second : sub64 (sp + 24) 8 ≡ sp + 16 = down 16 (omega arith) in
      let third : sub64 (sp + 16) 8 ≡ sp + 8 = down 8 (omega arith) in
      let fourth : sub64 (sp + 8) 8 ≡ sp = omega arith in
      let entry_at : Task.entry t ≡ t + 8 = omega arith in
      let rsp_at : Task.rsp t ≡ t + 144 = omega arith in
      rw (top, first, second, third, fourth, entry_at, rsp_at) refl

  -- The words of the stack and of the task.
  saved_sp : load64 with_all (t + 144) ≡ sp
  saved_sp = load64-store64 _ (t + 144) sp (omega arith)

  word_trampoline : load64 with_all sp ≡ code.task_trampoline
  word_trampoline =
      load64-past _ (t + 144) sp sp (omega arith)
        (load64-store64 _ sp code.task_trampoline trampoline_fits)

  word_entry : load64 with_all (sp + 8) ≡ entry
  word_entry =
      load64-past _ (t + 144) (sp + 8) sp (omega arith)
        (load64-past _ sp (sp + 8) _ (omega arith) (load64-store64 _ (sp + 8) entry entry_fits))

  word_task : load64 with_all (sp + 16) ≡ t
  word_task = load64-past _ (t + 144) (sp + 16) sp (omega arith) (
      load64-past _ sp (sp + 16) _ (omega arith) (
        load64-past _ (sp + 8) (sp + 16) _ (omega arith)
          (load64-store64 _ (sp + 16) t (omega arith))))

  word_exit : load64 with_all (sp + 24) ≡ code.task_exit
  word_exit = load64-past _ (t + 144) (sp + 24) sp (omega arith) (
      load64-past _ sp (sp + 24) _ (omega arith) (
        load64-past _ (sp + 8) (sp + 24) _ (omega arith) (
          load64-past _ (sp + 16) (sp + 24) _ (omega arith)
            (load64-store64 _ (sp + 24) code.task_exit exit_fits))))

  -- The first words of the task are none of those written later.
  past_stack :
      (a : ℕ)
      → (t ≤ a) × (a ≤ t + 136)
      → {x : ℕ} → load64 (store64 (store64 m t stack) (t + 8) entry) a ≡ x
      → load64 with_all a ≡ x
  past_stack a (lo, hi) e = load64-past _ (t + 144) a sp (omega arith) (
      load64-past _ sp a code.task_trampoline (omega arith) (
        load64-past _ (sp + 8) a entry (omega arith) (
          load64-past _ (sp + 16) a t (omega arith)
            (load64-past _ (sp + 24) a code.task_exit (omega arith) e))))

  stack_field : load64 with_all t ≡ stack
  stack_field =
      past_stack t (omega arith, omega arith)
        (load64-past _ (t + 8) t entry (omega arith) (load64-store64 m t stack (omega arith)))

  entry_field : load64 with_all (t + 8) ≡ entry
  entry_field =
      past_stack (t + 8) (omega arith, omega arith) (load64-store64 _ (t + 8) entry entry_fits)

  -- The context but for the stack pointer is left as it was.
  with_all-past :
      (a : ℕ)
      → t + 16 ≤ a
      → a + 8 ≤ t + 176
      → (a + 8 ≤ t + 144) ⊎ (t + 152 ≤ a)
      → load64 with_all a ≡ load64 m a
  with_all-past a lo hi off = load64-past _ (t + 144) a sp (omega arith) (
      load64-past _ sp a code.task_trampoline (omega arith) (
        load64-past _ (sp + 8) a entry (omega arith) (
          load64-past _ (sp + 16) a t (omega arith) (
            load64-past _ (sp + 24) a code.task_exit (omega arith) (
              load64-past _ (t + 8) a entry (omega arith)
                (load64-past m t a stack (omega arith) refl))))))

  -- All that is written lies in the task and its stack.
  with_all-Outside : (q : ℕ) → Outside t 176 q → Outside stack 4096 q → with_all q ≡ m q
  with_all-Outside q off_task off_stack =
      store64-Outside _ (t + 144) sp q (omega arith)
      ∙ store64-Outside _ sp code.task_trampoline q (omega arith)
      ∙ store64-Outside _ (sp + 8) entry q (omega arith)
      ∙ store64-Outside _ (sp + 16) t q (omega arith)
      ∙ store64-Outside _ (sp + 24) code.task_exit q (omega arith)
      ∙ store64-Outside _ (t + 8) entry q (omega arith)
      ∙ store64-Outside m t stack q (omega arith)

  with_all-Prepared : Prepared code t entry stack sp with_all
  with_all-Prepared = record {
    stack_field = stack_field;
    entry_field = entry_field;
    saved_sp = saved_sp;
    word_trampoline = word_trampoline;
    word_entry = word_entry;
    word_task = word_task;
    word_exit = word_exit;
    low = low;
    high = high;
    aligned = aligned;
  }

-- Where task_init lets a task start.
abbrev pub first_sp : (stack : Ptr) → Ptr
first_sp stack = (stack + 4096) / 16 * 16 - 32

module _ (code : Code) (t entry stack : Ptr) (m : Bytes) (fits : t + 176 ≤ u64_mod)
    (room : stack + 4096 < u64_mod) (apart : (t + 176 ≤ stack) ⊎ (stack + 4096 ≤ t))
    (exit_fits : code.task_exit < u64_mod) (trampoline_fits : code.task_trampoline < u64_mod)
    (entry_fits : entry < u64_mod) where
  abbrev sp : Ptr
  sp = first_sp stack

  low : stack ≤ sp
  low = omega arith

  high : sp + 32 ≤ stack + 4096
  high = omega arith

  aligned : sp % 16 ≡ 0
  aligned = omega arith

  top : align_16 (add64 stack size_4kb) ≡ sp + 32
  top = omega arith

  written :
      write_task code t entry stack m
      ≡ with_all code t entry stack sp m fits room apart exit_fits trampoline_fits entry_fits top
          low high aligned
  written =
      write_task-eq code t entry stack sp m fits room apart exit_fits trampoline_fits entry_fits top
        low high aligned

  pub write_task-Prepared :
      Prepared code t entry stack (first_sp stack) (write_task code t entry stack m)
  write_task-Prepared = rw written (
      with_all-Prepared code t entry stack sp m fits room apart exit_fits trampoline_fits entry_fits
        top low high aligned)

  pub write_task-Outside :
      (q : ℕ) → Outside t 176 q → Outside stack 4096 q → write_task code t entry stack m q ≡ m q
  write_task-Outside q off_task off_stack =
      ap (λ m. m q) written
      ∙ with_all-Outside code t entry stack sp m fits room apart exit_fits trampoline_fits
          entry_fits top low high aligned q off_task off_stack

  pub write_task-past :
      (a : ℕ)
      → t + 16 ≤ a
      → a + 8 ≤ t + 176
      → (a + 8 ≤ t + 144) ⊎ (t + 152 ≤ a)
      → load64 (write_task code t entry stack m) a ≡ load64 m a
  write_task-past a lo hi off =
      ap (λ m. load64 m a) written
      ∙ with_all-past code t entry stack sp m fits room apart exit_fits trampoline_fits entry_fits
          top low high aligned a lo hi off
