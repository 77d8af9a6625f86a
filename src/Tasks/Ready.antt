-- ===== src/Tasks/Ready.antt =====
-- The creation of a task (src/kernel.c, kmain): its block from kmalloc, and task_init. The task is ready
-- to start, and those that were ready stay so.
use side_h_os.Base.{ℕ, ◌+◌, ◌≤◌, ◌<◌, ◌≡◌, ◌⊎◌, inl, inr, List, [], ◌∷◌, ◌++◌, arith, length}
use side_h_os.Bytes.Words.{Outside, Outside-cases}
use side_h_os.Kernel.{Ptr, Kernel}
use side_h_os.Frames.Taken.{freelist_of, segment_of}
use side_h_os.Heap.Pages.{HeapPage}
use side_h_os.Heap.Claims.{InUse}
use side_h_os.Heap.Contract.{Store, Gives}
use side_h_os.Tasks.{Code}
use side_h_os.Tasks.Task
use side_h_os.Tasks.Links.{Covers, OffLinks}
use side_h_os.Tasks.Queue.{Queue}
use side_h_os.Tasks.Prepare.{Prepared, Prepared-agree, first_sp}
use side_h_os.Tasks.Initialized.{Used}

pub record Job : Type 0 where
  pub task : Ptr
  pub entry : Ptr
  pub stack : Ptr

-- A task that starts when a processor takes it: it is prepared on its stack, both are in use, and
-- neither the stack nor the words that start the task are links of the queue ts.
pub record IsReady (code : Code) (k : Kernel) (ps : List HeapPage) (ts : List Ptr) (j : Job)
    : Type 0 where
  pub prepared : Prepared code j.task j.entry j.stack (first_sp j.stack) k.bytes
  pub task_used : Used k ps j.task 176
  pub stack_used : Used k ps j.stack 4096
  pub task_off : (q : ℕ) → j.task ≤ q → q < j.task + 168 → OffLinks q ts
  pub stack_off : (q : ℕ) → j.stack ≤ q → q < j.stack + 4096 → OffLinks q ts

pub OffLinks-append :
    (q : ℕ) (ts : List Ptr) (t : Ptr)
    → OffLinks q ts
    → Outside (Task.next t) 8 q
    → OffLinks q (ts ++ t ∷ [])
OffLinks-append q [] t off out = (out, tt)
OffLinks-append q (u ∷ ts) t off out = (off.0, OffLinks-append q ts t off.1 out)

-- The creation of the task j behind the queue ts.
pub record Added (code : Code) (k : Kernel) (ps : List HeapPage) (ts : List Ptr) (j : Job)
    (k' : Kernel) (ps' : List HeapPage) : Type 0 where
  pub store : Store k' ps'
  pub queue : Queue k' (ts ++ j.task ∷ [])
  pub ready : IsReady code k' ps' (ts ++ j.task ∷ []) j
  pub held : (q : ℕ) → InUse k ps q → InUse k' ps' q
  pub same : (q : ℕ) → InUse k ps q → OffLinks q ts → k'.bytes q ≡ k.bytes q
  pub new : (q : ℕ) → InUse k ps q → Outside (Task.next j.task) 8 q
  pub fresh_task : (q : ℕ) → InUse k ps q → Outside j.task 176 q
  pub fresh_stack : (q : ℕ) → InUse k ps q → Outside j.stack 4096 q
  pub own_stack : (j.task + 176 ≤ j.stack) ⊎ (j.stack + 4096 ≤ j.task)
  pub cursor : (freelist_of k').cursor ≡ (freelist_of k).cursor
  pub cut : (i : ℕ) → (segment_of k i).length ≤ (segment_of k' i).length + 3
  pub pages : length ps' ≤ length ps + 2
  pub rest : k' ≡ record k { bytes = k'.bytes; memory = k'.memory; tasks = k'.tasks }

-- A task that was ready is ready still.
pub IsReady-Added :
    {code : Code} {k : Kernel} {ps : List HeapPage} {ts : List Ptr} {new : Job} {k' : Kernel}
    {ps' : List HeapPage}
    → Added code k ps ts new k' ps'
    → (j : Job) → IsReady code k ps ts j
    → IsReady code k' ps' (ts ++ new.task ∷ []) j
IsReady-Added {k} {ts} {new} {k'} added j is = record {
  prepared =
      Prepared-agree k.bytes k'.bytes is.prepared
        (λ q lo hi. added.same q (is.stack_used q lo hi) (is.stack_off q lo hi))
        (λ q lo hi. added.same q (is.task_used q lo (omega arith)) (is.task_off q lo hi));
  task_used = λ q lo hi. added.held q (is.task_used q lo hi);
  stack_used = λ q lo hi. added.held q (is.stack_used q lo hi);
  task_off = λ q lo hi.
      OffLinks-append q ts new.task (is.task_off q lo hi)
        (added.new q (is.task_used q lo (omega arith)));
  stack_off = λ q lo hi.
      OffLinks-append q ts new.task (is.stack_off q lo hi) (added.new q (is.stack_used q lo hi));
}

-- A byte in use is not in what kmalloc gives.
pub Outside-Gives :
    {b n : ℕ} {k : Kernel} {ps : List HeapPage} {k' : Kernel} {ps' : List HeapPage}
    → Gives b n k ps k' ps'
    → (q : ℕ) → InUse k ps q
    → Outside b n q
Outside-Gives {b} {n} gives q held = elim (Outside-cases b n q) [
  | inl out ↦ out
  | inr (lo, hi) ↦ absurd (gives.unused q lo hi held)
]

pub Covers-mono :
    (P Q : ℕ → Type 0) (ts : List Ptr) → ((q : ℕ) → P q → Q q) → Covers P ts → Covers Q ts
Covers-mono P Q [] keep covers = tt
Covers-mono P Q (t ∷ ts) keep covers =
    (λ q lo hi. keep q (covers.0 q lo hi), Covers-mono P Q ts keep covers.1)
