-- ===== src/Tasks/Init.antt =====
-- task_init as a whole (src/kernel.c): a stack from kmalloc, the task prepared to start on it, and the
-- task at the end of the queue.
use side_h_os.Base.{
  ℕ, ◌+◌, ◌≤◌, ◌<◌, ◌≡◌, inl, inr, List, [], ◌∷◌, ◌++◌, arith, ap, sym, inl, inr, ◌∙◌, length,
}
use side_h_os.Base.Word.{u64_mod}
use side_h_os.Bytes.Words.{Outside, Outside-cases}
use side_h_os.Kernel.{Ptr, size_4kb, Kernel, MemoryContext, Lock, with_bytes}
use side_h_os.Kernel.Returns
use side_h_os.Kernel.Returns.{Returns, returns}
use side_h_os.Lock.{put_task_lock}
use side_h_os.Frames.Taken.{freelist_of}
use side_h_os.Heap.Pages.{HeapPage}
use side_h_os.Heap.Claims.{InUse}
use side_h_os.Heap.Contract.{Store, Keeps, Gives}
use side_h_os.Heap.Writes.{Store-writes, InUse-same}
use side_h_os.Heap.Client.{Room, kmalloc-Serves}
use side_h_os.Tasks.{Code, task_init, enqueue, write_task}
use side_h_os.Tasks.Links.{
  IsTask, Away, Chain-spared, Covers, OffLinks-Covers, OffLinks, OffLinks-Away,
}
use side_h_os.Tasks.Queue.{Queue, Enqueued, enqueue-Enqueued}
use side_h_os.Tasks.Prepare.{
  Prepared, Prepared-agree, first_sp, write_task-Prepared, write_task-Outside,
}
use side_h_os.Tasks.Initialized.{Initialized, Queue-Keeps, Away-Gives}

module _ (code : Code) (fuel : ℕ) (t entry : Ptr) (ts : List Ptr) (is : IsTask t)
    (far : Away t 176 ts) (fuel_enough : length ts < fuel) (exit_fits : code.task_exit < u64_mod)
    (trampoline_fits : code.task_trampoline < u64_mod) (entry_fits : entry < u64_mod) where
  -- What follows the allocation of the stack in the frames from p.
  module _ (k₁ : Kernel) (stack : Ptr) (queue : Queue k₁ ts) (room : stack + 4096 < u64_mod)
      (away : Away stack 4096 (t ∷ ts)) where
    abbrev k₂ : Kernel
    k₂ = put_task_lock 1 (with_bytes (write_task code t entry stack) k₁)

    written : (q : ℕ) → Outside t 176 q → Outside stack 4096 q → k₂.bytes q ≡ k₁.bytes q
    written q off_task off_stack =
        write_task-Outside code t entry stack k₁.bytes is.fits (omega arith) (omega (arith, away.0))
          exit_fits trampoline_fits entry_fits q off_task off_stack

    queue₂ : Queue k₂ ts
    queue₂ = record {
      chain =
          Chain-spared k₁.bytes k₂.bytes t 176 stack 4096 written k₁.tasks ts queue.chain far
            away.1;
      away = queue.away;
    }

    prepared : Prepared code t entry stack (first_sp stack) k₂.bytes
    prepared =
        write_task-Prepared code t entry stack k₁.bytes is.fits (omega arith)
          (omega (arith, away.0)) exit_fits trampoline_fits entry_fits

    enqueued : Returns (λ _ k'. Enqueued k₂ ts t k') (enqueue fuel t k₂)
    enqueued = enqueue-Enqueued fuel t ts k₂ queue₂ is far fuel_enough

    -- The links do not lie in the stack, nor in the words of the task that start it.
    Enqueued-Prepared :
        (k' : Kernel) → Enqueued k₂ ts t k' → Prepared code t entry stack (first_sp stack) k'.bytes
    Enqueued-Prepared k' e =
        Prepared-agree k₂.bytes k'.bytes prepared
          (λ q lo hi. e.others q (
            omega (arith, away.0, is.fits),
            OffLinks-Away k₂.bytes k₂.tasks stack 4096 q ts queue₂.chain away.1 lo hi,
          ))
          (λ q lo hi. e.others q (
            omega (arith, is.fits),
            OffLinks-Away k₂.bytes k₂.tasks t 176 q ts queue₂.chain far lo (omega arith),
          ))

    abbrev Ready : Kernel → Type 0
    Ready k' =
        Prepared code t entry stack (first_sp stack) k'.bytes
        × Queue k' (ts ++ t ∷ [])
        × (k' ≡ record k₁ { bytes = k'.bytes; tasks = k'.tasks; task_lock = 0 })
        × ((q : ℕ)
            → Outside stack 4096 q
            → Outside t 176 q
            → OffLinks q ts
            → k'.bytes q ≡ k₁.bytes q)

    Enqueued-Ready : (k' : Kernel) → Enqueued k₂ ts t k' → Ready (put_task_lock 0 k')
    Enqueued-Ready k' e = (
      Enqueued-Prepared k' e,
      record { chain = e.queue.chain; away = e.queue.away },
      ap (put_task_lock 0) e.rest,
      λ q off_stack off_task off.
          e.others q (omega (arith, is.fits), off) ∙ written q off_task off_stack,
    )

  module _ (k : Kernel) (ps : List HeapPage) (queue : Queue k ts) (open_memory : k.memory_lock ≡ 0)
      (open_tasks : k.task_lock ≡ 0) (used : Covers (InUse k ps) (t ∷ ts)) (stack : Ptr)
      (k₁ : Kernel) (ps' : List HeapPage) (keeps : Keeps 2 1 k ps k₁ ps')
      (gives : Gives stack 4096 k ps k₁ ps') (open_again : k₁.memory_lock ≡ 0) where
    away : Away stack 4096 (t ∷ ts)
    away = Away-Gives stack 4096 k k₁ ps ps' (t ∷ ts) (omega arith) gives used

    queue₁ : Queue k₁ ts
    queue₁ = Queue-Keeps keeps ts used.1 queue

    -- A byte that was in use is not on the new stack.
    off_stack : (q : ℕ) → InUse k ps q → Outside stack 4096 q
    off_stack q held = elim (Outside-cases stack 4096 q) [
      | inl out ↦ out
      | inr (lo, hi) ↦ absurd (gives.unused q lo hi held)
    ]

    -- A byte that is not in use after kmalloc is none of those that task_init writes.
    unused_same :
        (k' : Kernel)
        → Ready k₁ stack queue₁ gives.fits away k'
        → (q : ℕ) → ¬ InUse k₁ ps' q
        → k'.bytes q ≡ k₁.bytes q
    unused_same k' ready q free =
        let not_before : ¬ InUse k ps q = λ held. free (keeps.spared q held).1 in
        ready.3 q
          (elim (Outside-cases stack 4096 q) [
            | inl out ↦ out
            | inr (lo, hi) ↦ absurd (free (gives.used q lo hi))
          ])
          (elim (Outside-cases t 176 q) [
            | inl out ↦ out
            | inr (lo, hi) ↦ absurd (not_before (used.0 q lo hi))
          ])
          (OffLinks-Covers (InUse k ps) k.bytes k.tasks q ts queue.chain used.1 not_before)

    Ready-Initialized :
        (k' : Kernel)
        → Ready k₁ stack queue₁ gives.fits away k'
        → Initialized code t entry k ps ts stack k' ps'
    Ready-Initialized k' (ready, queue', rest, others) = record {
      store =
          Store-writes k₁ k' ps' memory offset (unused_same k' (ready, queue', rest, others))
            keeps.store;
      gives = record {
        not_null = gives.not_null;
        fits = gives.fits;
        used = λ q lo hi. InUse-same k₁ k' ps' q memory offset (gives.used q lo hi);
        unused = gives.unused;
      };
      prepared = ready;
      queue = queue';
      held = λ q held. InUse-same k₁ k' ps' q memory offset (keeps.spared q held).1;
      spared =
          λ q held off_task off. others q (off_stack q held) off_task off ∙ (keeps.spared q held).0;
      cursor = ap (λ (k : Kernel). (freelist_of k).cursor) rest ∙ keeps.cursor;
      cut = λ j. rw memory (keeps.cut j);
      pages = keeps.pages;
      rest =
          rest
          ∙ ap (λ (k : Kernel). record k { bytes = k'.bytes; tasks = k'.tasks; task_lock = 0 })
              keeps.rest
          ∙ ap (λ m. fields m k₁.memory_lock 0) (sym (ap (λ (k : Kernel). k.memory) rest))
          ∙ ap (λ l. fields k'.memory l 0) (open_again ∙ sym open_memory)
          ∙ ap (fields k'.memory k.memory_lock) (sym open_tasks);
    }
      where
        memory : k'.memory ≡ k₁.memory
        memory = ap (λ (k : Kernel). k.memory) rest

        offset : k'.hhdm_offset ≡ k₁.hhdm_offset
        offset = ap (λ (k : Kernel). k.hhdm_offset) rest

        fields : MemoryContext → Lock → Lock → Kernel
        fields m l lock = record k {
          bytes = k'.bytes;
          memory = m;
          memory_lock = l;
          tasks = k'.tasks;
          task_lock = lock;
        }

  -- task_init of a new task whose bytes are in use and are no other task's, with the locks open, a well-formed heap and free list, a segment with two frames, and a well-formed queue of tasks in use, shorter than the fuel, returns. It takes a stack of 4096 bytes that were not in use; the task is prepared to start on it at the entry and is the last of the queue. Every byte in use stays in use, and none of them changes but those of the task and of the words that lead from task to task; of the static variables only the free list, the heap pages and the head of the queue change.
  pub task_init-Initialized :
      (k : Kernel) (ps : List HeapPage)
      → Store k ps
      → Queue k ts
      → k.memory_lock ≡ 0
      → k.task_lock ≡ 0
      → Covers (InUse k ps) (t ∷ ts)
      → Room k 2
      → 255 ≤ fuel
      → length ps < fuel
      → Returns
          (λ _ k'.
            (stack : Ptr) × (ps' : List HeapPage) × Initialized code t entry k ps ts stack k' ps')
          (task_init code fuel t entry k)
  unfolding task_init
  task_init-Initialized k ps store queue open_memory open_tasks used room enough few_pages =
      Returns.bind
        (kmalloc-Serves k ps fuel size_4kb store open_memory room enough few_pages (omega arith))
        (λ stack k₁ (ps', keeps, gives, open_again).
          let lock = ap (λ (k : Kernel). k.task_lock) keeps.rest ∙ open_tasks in
          let queue' =
            queue₁ k ps queue open_memory open_tasks used stack k₁ ps' keeps gives open_again in
          let away' =
            away k ps queue open_memory open_tasks used stack k₁ ps' keeps gives open_again in
          rw lock (
            Returns.bind (enqueued k₁ stack queue' gives.fits away') (λ _ k' e. returns (
              stack,
              ps',
              Ready-Initialized k ps queue open_memory open_tasks used stack k₁ ps' keeps gives
                  open_again (put_task_lock 0 k')
                  (Enqueued-Ready k₁ stack queue' gives.fits away' k' e),
            ))))
