-- ===== src/Tasks/Create.antt =====
-- The creation of a task in kmain (src/kernel.c): a block of the heap, and task_init of it.
use side_h_os.Base.{ℕ, ◌+◌, ◌≤◌, ◌<◌, ◌≡◌, refl, List, ◌∷◌, arith, ap, sym, ◌∙◌, length}
use side_h_os.Base.Word.{u64_mod}
use side_h_os.Kernel.{Ptr, Kernel, Cmd, ◌>>=◌}
use side_h_os.Kernel.Returns
use side_h_os.Kernel.Returns.{Returns, returns}
use side_h_os.Frames.Taken.{freelist_of, segment_of}
use side_h_os.Heap.{kmalloc}
use side_h_os.Heap.Pages.{HeapPage}
use side_h_os.Heap.Claims.{InUse}
use side_h_os.Heap.Contract.{Store, Keeps, Gives}
use side_h_os.Heap.Client.{Room, kmalloc-Serves}
use side_h_os.Tasks.{Code, task_init}
use side_h_os.Tasks.Task
use side_h_os.Tasks.Links.{IsTask, Away, Covers, OffLinks-Away}
use side_h_os.Tasks.Queue.{Queue}
use side_h_os.Tasks.Initialized.{Initialized, Away-Gives, Queue-Keeps}
use side_h_os.Tasks.Init.{task_init-Initialized}
use side_h_os.Tasks.Ready.{Job, OffLinks-append, Added, Outside-Gives, Covers-mono}

module _ (code : Code) (entry : Ptr) (ts : List Ptr) (k : Kernel) (ps : List HeapPage)
    (queue : Queue k ts) (used : Covers (InUse k ps) ts) (open_memory : k.memory_lock ≡ 0) where
  -- Between kmalloc and task_init.
  module _ (t : Ptr) (k₁ : Kernel) (ps₁ : List HeapPage) (keeps : Keeps 1 1 k ps k₁ ps₁)
      (gives : Gives t 176 k ps k₁ ps₁) (open_again : k₁.memory_lock ≡ 0) where
    pub is_task : IsTask t
    is_task = record { not_null = gives.not_null; fits = omega (arith, gives.fits) }

    pub away : Away t 176 ts
    away = Away-Gives t 176 k k₁ ps ps₁ ts (omega arith) gives used

    pub queue₁ : Queue k₁ ts
    queue₁ = Queue-Keeps keeps ts used queue

    pub used₁ : Covers (InUse k₁ ps₁) (t ∷ ts)
    used₁ = (
      λ q lo hi. gives.used q lo hi,
      Covers-mono (InUse k ps) (InUse k₁ ps₁) ts (λ q held. (keeps.spared q held).1) used,
    )

    pub Initialized-Added :
        (stack : Ptr) (k₂ : Kernel) (ps₂ : List HeapPage)
        → Initialized code t entry k₁ ps₁ ts stack k₂ ps₂
        → Added code k ps ts (record { task = t; entry = entry; stack = stack }) k₂ ps₂
    Initialized-Added stack k₂ ps₂ init =
        let far = Away-Gives stack 4096 k₁ k₂ ps₁ ps₂ (t ∷ ts) (omega arith) init.gives used₁ in
        record {
          store = init.store;
          queue = init.queue;
          ready = record {
            prepared = init.prepared;
            task_used = λ q lo hi. init.held q (gives.used q lo hi);
            stack_used = init.gives.used;
            task_off = λ q lo hi.
                OffLinks-append q ts t
                  (OffLinks-Away k₁.bytes k₁.tasks t 176 q ts queue₁.chain away lo (omega arith))
                  (omega (arith, gives.fits));
            stack_off = λ q lo hi.
                OffLinks-append q ts t
                  (OffLinks-Away k₁.bytes k₁.tasks stack 4096 q ts queue₁.chain far.1 lo hi)
                  (omega (arith, gives.fits, far.0));
          };
          held = λ q held. init.held q (keeps.spared q held).1;
          same = λ q held off.
              init.spared q (keeps.spared q held).1 (Outside-Gives gives q held) off
              ∙ (keeps.spared q held).0;
          new = λ q held. omega (arith, gives.fits, Outside-Gives gives q held);
          fresh_task = λ q held. Outside-Gives gives q held;
          fresh_stack = λ q held. Outside-Gives init.gives q (keeps.spared q held).1;
          own_stack = omega (arith, far.0);
          cursor = init.cursor ∙ keeps.cursor;
          cut = λ i. omega (arith, init.cut i, keeps.cut i);
          pages = omega (arith, init.pages, keeps.pages);
          rest =
              init.rest
              ∙ ap
                  (λ (k : Kernel). record k {
                    bytes = k₂.bytes;
                    memory = k₂.memory;
                    tasks = k₂.tasks;
                  })
                  keeps.rest
              ∙ ap
                  (λ l. record k {
                    bytes = k₂.bytes;
                    memory = k₂.memory;
                    tasks = k₂.tasks;
                    memory_lock = l;
                  })
                  (open_again ∙ sym open_memory);
        }

-- A segment that has enough for both has enough for the second.
pub Room-cut :
    (c r : ℕ) (k k' : Kernel)
    → (freelist_of k').cursor ≡ (freelist_of k).cursor
    → ((i : ℕ) → (segment_of k i).length ≤ (segment_of k' i).length + c)
    → Room k (c + r)
    → Room k' r
Room-cut c r k k' cursor cut room = record {
  segment = room.segment;
  below = omega (arith, cursor, room.below);
  enough = omega (arith, cut room.segment, room.enough);
}

-- A weaker demand.
pub Room-less : (r s : ℕ) (k : Kernel) → r ≤ s → Room k s → Room k r
Room-less r s k le room = record {
  segment = room.segment;
  below = room.below;
  enough = omega (arith, room.enough);
}

-- What the functions' addresses are: words.
pub record CodeFits (code : Code) : Type 0 where
  pub task_exit : code.task_exit < u64_mod
  pub task_trampoline : code.task_trampoline < u64_mod
  pub factorial_task : code.factorial_task < u64_mod
  pub fibonacci_task : code.fibonacci_task < u64_mod

abbrev pub create : Code → (fuel : ℕ) → (entry : Ptr) → Cmd (Unit {0})
create code fuel entry = kmalloc fuel Task.size >>= λ t. task_init code fuel t entry

pub create-Added :
    (code : Code) (fuel : ℕ) (entry : Ptr) (ts : List Ptr) (k : Kernel) (ps : List HeapPage)
    → CodeFits code
    → entry < u64_mod
    → Store k ps
    → Queue k ts
    → Covers (InUse k ps) ts
    → k.memory_lock ≡ 0
    → k.task_lock ≡ 0
    → Room k 3
    → 255 ≤ fuel
    → length ps + 1 < fuel
    → length ts < fuel
    → Returns
        (λ _ k'.
          (j : Job) × (ps' : List HeapPage) × (j.entry ≡ entry) × Added code k ps ts j k' ps')
        (create code fuel entry k)
create-Added code fuel entry ts k ps fits entry_fits store queue used open_memory open_tasks room
      enough few_pages few_tasks =
    Returns.bind
      (kmalloc-Serves k ps fuel Task.size store open_memory (Room-less 1 3 k (omega arith) room)
        enough (omega arith) (omega arith))
      (λ t k₁ (ps₁, keeps, gives, open_again).
        Returns.mono
          (task_init-Initialized code fuel t entry ts
            (is_task code entry ts k ps queue used open_memory t k₁ ps₁ keeps gives open_again)
            (away code entry ts k ps queue used open_memory t k₁ ps₁ keeps gives open_again)
            few_tasks fits.task_exit fits.task_trampoline entry_fits k₁ ps₁ keeps.store
            (queue₁ code entry ts k ps queue used open_memory t k₁ ps₁ keeps gives open_again)
            open_again (ap (λ (k : Kernel). k.task_lock) keeps.rest ∙ open_tasks)
            (used₁ code entry ts k ps queue used open_memory t k₁ ps₁ keeps gives open_again)
            (Room-cut 1 2 k k₁ keeps.cursor keeps.cut room) enough (omega (arith, keeps.pages)))
          (λ _ k₂ (stack, ps₂, init). (
            record { task = t; entry = entry; stack = stack },
            ps₂,
            refl,
            Initialized-Added code entry ts k ps queue used open_memory t k₁ ps₁ keeps gives
                open_again stack k₂ ps₂ init,
          )))
