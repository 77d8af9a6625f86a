-- ===== src/Tasks/ApEntry.antt =====
-- ap_entry (src/kernel.c): what a processor that starts prepares for itself, up to task_run.
use side_h_os.Base.{
  ℕ, ◌+◌, ◌≤◌, ◌<◌, ◌≡◌, refl, ◌⊎◌, inl, inr, List, [], ◌∷◌, ◌++◌, arith, ap, sym, ◌∙◌, length,
}
use side_h_os.Base.Word.{add64, u64_mod}
use side_h_os.Bytes.{Bytes, load64, store64}
use side_h_os.Bytes.Words.{
  regions-Apart, Outside, Outside-cases, load64-store64, load64-past, store64-Outside,
}
use side_h_os.Kernel.{Ptr, Kernel, with_bytes}
use side_h_os.Kernel.Returns
use side_h_os.Kernel.Returns.{Returns, returns}
use side_h_os.Heap.Pages.{HeapPage}
use side_h_os.Heap.Claims.{InUse}
use side_h_os.Heap.Contract.{Store, Keeps, Gives}
use side_h_os.Heap.Client.{Room, kmalloc-Serves}
use side_h_os.Heap.Writes.{Store-writes}
use side_h_os.Tasks.{Code, ap_entry, copy_info}
use side_h_os.Tasks.Cpu
use side_h_os.Tasks.Task
use side_h_os.Tasks.Links.{Covers, Away, Chain-spared}
use side_h_os.Tasks.Queue.{Queue, Away-append}
use side_h_os.Tasks.Prepare.{Prepared, Prepared-agree, first_sp}
use side_h_os.Tasks.Initialized.{Used, Initialized, Away-Gives, Queue-Keeps}
use side_h_os.Tasks.Init.{task_init-Initialized}
use side_h_os.Tasks.Create
use side_h_os.Tasks.GsBase.{Msrs, get_cpu_state, get_cpu_state-set_gs_base}
use mathlib.Core.Path.{subst}
use side_h_os.Tasks.Ready

-- What ap_entry writes into the structure of the processor at c.
abbrev filled : (info c idle : Ptr) → Bytes → Bytes
filled info c idle m =
    copy_info info (Cpu.info c)
      (store64 (store64 m (Cpu.idle_task c) idle) (Cpu.current_task c) idle)

module _ (info c idle : Ptr) (m : Bytes) (fits : c + 48 < u64_mod) (small : idle < u64_mod) where
  filled-Outside : (q : ℕ) → Outside c 48 q → filled info c idle m q ≡ m q
  filled-Outside q out =
      store64-Outside _ (add64 (Cpu.info c) 24) _ q (omega arith)
      ∙ store64-Outside _ (add64 (Cpu.info c) 16) _ q (omega arith)
      ∙ store64-Outside _ (add64 (Cpu.info c) 8) _ q (omega arith)
      ∙ store64-Outside _ (Cpu.info c) _ q (omega arith)
      ∙ store64-Outside _ (Cpu.current_task c) idle q (omega arith)
      ∙ store64-Outside m (Cpu.idle_task c) idle q (omega arith)

  -- The copy of the bootloader's structure lies behind the two pointers.
  past_info :
      (a : ℕ)
      → (a ≡ c) ⊎ (a ≡ c + 8)
      → load64 (store64 (store64 m (Cpu.idle_task c) idle) (Cpu.current_task c) idle) a ≡ idle
      → load64 (filled info c idle m) a ≡ idle
  past_info a at e = load64-past _ (add64 (Cpu.info c) 24) a _ (omega arith) (
      load64-past _ (add64 (Cpu.info c) 16) a _ (omega arith) (
        load64-past _ (add64 (Cpu.info c) 8) a _ (omega arith)
          (load64-past _ (Cpu.info c) a _ (omega arith) e)))

  filled-idle : load64 (filled info c idle m) (Cpu.idle_task c) ≡ idle
  filled-idle =
      past_info c (inl refl)
        (load64-past _ (Cpu.current_task c) c idle (omega arith) (load64-store64 m c idle small))

  filled-current : load64 (filled info c idle m) (Cpu.current_task c) ≡ idle
  filled-current =
      past_info (Cpu.current_task c) (inr (omega arith))
        (load64-store64 _ (Cpu.current_task c) idle small)

-- The processor's structure is at c. Its idle task is ready to start on its stack, is what the processor
-- runs, and is also the last of the queue.
pub record Entered (code : Code) (ts : List Ptr) (c idle stack : Ptr) (ps' : List HeapPage)
    (k' : Kernel) : Type 0 where
  pub store : Store k' ps'
  pub prepared : Prepared code idle code.idle_task_entry stack (first_sp stack) k'.bytes
  pub own : load64 k'.bytes (Cpu.idle_task c) ≡ idle
  pub current : load64 k'.bytes (Cpu.current_task c) ≡ idle
  pub queue : Queue k' (ts ++ idle ∷ [])

module _ (code : Code) (info : Ptr) (ts : List Ptr) (k : Kernel) (ps : List HeapPage)
    (used : Covers (InUse k ps) ts) (c : Ptr) (k₁ : Kernel) (ps₁ : List HeapPage)
    (gives₁ : Gives c 48 k ps k₁ ps₁) (t : Ptr) (k₂ : Kernel) (ps₂ : List HeapPage)
    (keeps₂ : Keeps 1 1 k₁ ps₁ k₂ ps₂) (gives₂ : Gives t 176 k₁ ps₁ k₂ ps₂) (stack : Ptr)
    (k₃ : Kernel) (ps₃ : List HeapPage)
    (init : Initialized code t code.idle_task_entry k₂ ps₂ ts stack k₃ ps₃) where
  used₂ : Used k₂ ps₂ c 48
  used₂ q lo hi = (keeps₂.spared q (gives₁.used q lo hi)).1

  off_task : (c + 48 ≤ t) ⊎ (t + 176 ≤ c)
  off_task =
      regions-Apart c 48 t 176 (omega arith) (omega arith)
        (λ q lo hi lo' hi'. gives₂.unused q lo' hi' (gives₁.used q lo hi))

  off_stack : (c + 48 ≤ stack) ⊎ (stack + 4096 ≤ c)
  off_stack =
      regions-Apart c 48 stack 4096 (omega arith) (omega arith)
        (λ q lo hi lo' hi'. init.gives.unused q lo' hi' (used₂ q lo hi))

  away : Away c 48 (ts ++ t ∷ [])
  away =
      Away-append c 48 ts t (Away-Gives c 48 k k₁ ps ps₁ ts (omega arith) gives₁ used)
        (off_task, tt)

  abbrev k₄ : Kernel
  k₄ = with_bytes (filled info c t) k₃

  changed : (q : ℕ) → Outside c 48 q → k₄.bytes q ≡ k₃.bytes q
  changed q out = filled-Outside info c t k₃.bytes gives₁.fits (omega (arith, gives₂.fits)) q out

  filled-Entered : Entered code ts c t stack ps₃ k₄
  filled-Entered = record {
    store =
        Store-writes k₃ k₄ ps₃ refl refl
          (λ q free. changed q (elim (Outside-cases c 48 q) [
            | inl out ↦ out
            | inr (lo, hi) ↦ absurd (free (init.held q (used₂ q lo hi)))
          ]))
          init.store;
    prepared =
        Prepared-agree k₃.bytes k₄.bytes init.prepared
          (λ q lo hi. changed q (omega (arith, off_stack)))
          (λ q lo hi. changed q (omega (arith, off_task)));
    own = filled-idle info c t k₃.bytes gives₁.fits (omega (arith, gives₂.fits));
    current = filled-current info c t k₃.bytes gives₁.fits (omega (arith, gives₂.fits));
    queue = record {
      chain =
          Chain-spared k₃.bytes k₄.bytes c 48 c 48 (λ q out _. changed q out) k₃.tasks
            (ts ++ t ∷ []) init.queue.chain away away;
      away = init.queue.away;
    };
  }

  first_stack : load64 k₄.bytes (Task.rsp t) ≡ first_sp stack
  first_stack = ap (load64 k₄.bytes) (omega (arith, gives₂.fits)) ∙ filled-Entered.prepared.saved_sp

-- ap_entry, from a well-formed heap and free list, a segment with four frames, a queue of tasks in use and open locks, ends up to task_run, which it gives the saved stack pointer of a new idle task. That task is prepared to start at idle_task_entry, and the processor's new structure, which get_cpu_state finds from then on, names it as its idle task and as its current task; but it is also the last task of the queue, from where any processor takes it like the others.
pub ap_entry-Entered :
    (code : Code) (fuel : ℕ) (info : Ptr) (msrs : Msrs) (ts : List Ptr) (k : Kernel)
    (ps : List HeapPage)
    → code.task_exit < u64_mod
    → code.task_trampoline < u64_mod
    → code.idle_task_entry < u64_mod
    → Store k ps
    → Queue k ts
    → Covers (InUse k ps) ts
    → k.memory_lock ≡ 0
    → k.task_lock ≡ 0
    → Room k 4
    → 255 ≤ fuel
    → length ps + 2 < fuel
    → length ts < fuel
    → Returns
        (λ r k'.
          (idle : Ptr) × (stack : Ptr) × (ps' : List HeapPage) × (r.1 ≡ first_sp stack)
          × Entered code ts (get_cpu_state r.0) idle stack ps' k')
        (ap_entry code fuel info msrs k)
unfolding ap_entry
ap_entry-Entered code fuel info msrs ts k ps exit_fits trampoline_fits entry_fits store queue used
      open_memory open_tasks room enough few_pages few_tasks =
    Returns.bind
      (kmalloc-Serves k ps fuel Cpu.size store open_memory
        (Create.Room-less 1 4 k (omega arith) room) enough (omega arith) (omega arith))
      (λ c k₁ (ps₁, keeps₁, gives₁, open₁).
        let queue₁ = Queue-Keeps keeps₁ ts used queue in
        let used₁ : Covers (InUse k₁ ps₁) ts =
          Ready.Covers-mono (InUse k ps) (InUse k₁ ps₁) ts (λ q held. (keeps₁.spared q held).1)
            used in
        let room₁ : Room k₁ 3 = Create.Room-cut 1 3 k k₁ keeps₁.cursor keeps₁.cut room in
        let lock₁ = ap (λ (k : Kernel). k.task_lock) keeps₁.rest ∙ open_tasks in
        Returns.bind
          (kmalloc-Serves k₁ ps₁ fuel Task.size keeps₁.store open₁
            (Create.Room-less 1 3 k₁ (omega arith) room₁) enough (omega (arith, keeps₁.pages))
            (omega arith))
          (λ t k₂ (ps₂, keeps₂, gives₂, open₂).
            Returns.bind
              (task_init-Initialized code fuel t code.idle_task_entry ts
                (Create.is_task code code.idle_task_entry ts k₁ ps₁ queue₁ used₁ open₁ t k₂ ps₂
                  keeps₂ gives₂ open₂)
                (Away-Gives t 176 k₁ k₂ ps₁ ps₂ ts (omega arith) gives₂ used₁) few_tasks exit_fits
                trampoline_fits entry_fits k₂ ps₂ keeps₂.store (Queue-Keeps keeps₂ ts used₁ queue₁)
                open₂ (ap (λ (k : Kernel). k.task_lock) keeps₂.rest ∙ lock₁)
                (Create.used₁ code code.idle_task_entry ts k₁ ps₁ queue₁ used₁ open₁ t k₂ ps₂ keeps₂
                  gives₂ open₂)
                (Create.Room-cut 1 2 k₁ k₂ keeps₂.cursor keeps₂.cut room₁) enough
                (omega (arith, keeps₁.pages, keeps₂.pages)))
              (λ _ k₃ (stack, ps₃, init). returns (
                t,
                stack,
                ps₃,
                first_stack code info ts k ps used c k₁ ps₁ gives₁ t k₂ ps₂ keeps₂ gives₂ stack k₃
                    ps₃ init,
                subst (λ a. Entered code ts a t stack ps₃ (with_bytes (filled info c t) k₃))
                    (sym (get_cpu_state-set_gs_base c msrs (omega (arith, gives₁.fits))).0)
                    (filled-Entered code info ts k ps used c k₁ ps₁ gives₁ t k₂ ps₂ keeps₂ gives₂
                      stack k₃ ps₃ init),
              ))))
