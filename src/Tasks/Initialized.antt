-- ===== src/Tasks/Initialized.antt =====
-- What a task_init (src/kernel.c) that is done leaves, and what it keeps.
use side_h_os.Base.{ℕ, ◌+◌, ◌≤◌, ◌<◌, ◌≡◌, List, [], ◌∷◌, ◌++◌, arith, ap, length}
use side_h_os.Bytes.Words.{regions-Apart, Outside}
use side_h_os.Kernel.{Ptr, Kernel}
use side_h_os.Frames.Taken.{freelist_of, segment_of}
use side_h_os.Heap.Pages.{HeapPage}
use side_h_os.Heap.Claims.{InUse}
use side_h_os.Heap.Contract.{Store, Keeps, Gives}
use side_h_os.Tasks.{Code}
use side_h_os.Tasks.Links.{Away, Chain-agree, Covers, OffLinks}
use side_h_os.Tasks.Queue.{Queue}
use side_h_os.Tasks.Prepare.{Prepared, first_sp}

-- The n bytes from a are in use.
abbrev pub Used : Kernel → List HeapPage → (a n : ℕ) → Type 0
Used k ps a n = (q : ℕ) → a ≤ q → q < a + n → InUse k ps q

-- What task_init leaves, for the task t and the queue ts: the stack of 4096 bytes, which was not in use before, the task prepared on it and last in the queue. Every byte in use stays in use, and changes only in the task and in the words that lead from task to task; of the static variables only the free list, the heap pages and the head of the queue change.
pub record Initialized (code : Code) (t entry : Ptr) (k : Kernel) (ps : List HeapPage)
    (ts : List Ptr) (stack : Ptr) (k' : Kernel) (ps' : List HeapPage) : Type 0 where
  pub store : Store k' ps'
  pub gives : Gives stack 4096 k ps k' ps'
  pub prepared : Prepared code t entry stack (first_sp stack) k'.bytes
  pub queue : Queue k' (ts ++ t ∷ [])
  pub held : (q : ℕ) → InUse k ps q → InUse k' ps' q
  pub spared : (q : ℕ) → InUse k ps q → Outside t 176 q → OffLinks q ts → k'.bytes q ≡ k.bytes q
  pub cursor : (freelist_of k').cursor ≡ (freelist_of k).cursor
  pub cut : (j : ℕ) → (segment_of k j).length ≤ (segment_of k' j).length + 2
  pub pages : length ps' ≤ length ps + 1
  pub rest : k' ≡ record k { bytes = k'.bytes; memory = k'.memory; tasks = k'.tasks }

-- kmalloc spares the queue.
pub Queue-Keeps :
    {c g : ℕ} {k : Kernel} {ps : List HeapPage} {k₁ : Kernel} {ps' : List HeapPage}
    → Keeps c g k ps k₁ ps'
    → (ts : List Ptr) → Covers (InUse k ps) ts
    → Queue k ts
    → Queue k₁ ts
Queue-Keeps {k} {ps} {k₁} keeps ts used queue =
    let tasks : k₁.tasks ≡ k.tasks = ap (λ (k : Kernel). k.tasks) keeps.rest in
    record {
      chain = rw tasks (
          Chain-agree (InUse k ps) k.bytes k₁.bytes (λ q held. (keeps.spared q held).0) k.tasks ts
            queue.chain used);
      away = queue.away;
    }

-- What comes into use is away from the tasks that are in use.
pub Away-Gives :
    (a n : ℕ) (k k' : Kernel) (ps ps' : List HeapPage) (ts : List Ptr)
    → 0 < n
    → Gives a n k ps k' ps'
    → Covers (InUse k ps) ts
    → Away a n ts
Away-Gives a n k k' ps ps' [] pos gives covers = tt
Away-Gives a n k k' ps ps' (t ∷ ts) pos gives covers = (
  regions-Apart a n t 176 pos (omega arith)
      (λ q lo hi lo' hi'. gives.unused q lo hi (covers.0 q lo' hi')),
  Away-Gives a n k k' ps ps' ts pos gives covers.1,
)
