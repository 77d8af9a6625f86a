-- ===== src/Boot/Creation.antt =====
-- The tasks that kmain creates (src/kernel.c): every one is queued, in order, and ready to start.
use side_h_os.Base.{
  ℕ, zero, suc, ◌+◌, ◌*◌, ◌≤◌, ◌<◌, ◌≡◌, refl, ◌⊎◌, List, [], ◌∷◌, ◌++◌, arith, ap, ◌∙◌, length,
  length-append,
}
use side_h_os.Base.Word.{u64_mod}
use mathlib.Core.List.{append-nil, append_assoc}
use mathlib.Core.Path.{subst}
use side_h_os.Bytes.Words.{regions-Apart}
use side_h_os.Heap.{kmalloc}
use side_h_os.Kernel.{Ptr, Kernel, Cmd, and_then}
use side_h_os.Kernel.Returns
use side_h_os.Kernel.Returns.{Returns, returns, and_then_assoc}
use side_h_os.Heap.Pages.{HeapPage}
use side_h_os.Heap.Claims.{InUse}
use side_h_os.Heap.Contract.{Store}
use side_h_os.Heap.Client.{Room}
use side_h_os.Tasks.{Code, task_init}
use side_h_os.Tasks.Task
use side_h_os.Tasks.Links.{Covers}
use side_h_os.Tasks.Queue.{Queue}
use side_h_os.Tasks.Create.{CodeFits, create, create-Added, Room-cut, Room-less}
use side_h_os.Tasks.Ready.{Job, IsReady, Added, IsReady-Added}
use side_h_os.Boot.{create_tasks}

abbrev pub tasks_of : List Job → List Ptr
tasks_of [] = []
tasks_of (j ∷ js) = j.task ∷ tasks_of js

abbrev pub entries_of : List Job → List Ptr
entries_of [] = []
entries_of (j ∷ js) = j.entry ∷ entries_of js

abbrev pub AllReady : Code → Kernel → List HeapPage → (ts : List Ptr) → List Job → Type 0
AllReady code k ps ts [] = Unit {0}
AllReady code k ps ts (j ∷ js) = IsReady code k ps ts j × AllReady code k ps ts js

-- Two tasks and their stacks are four ranges of which no two have a common byte.
pub record Disjoint (i j : Job) : Type 0 where
  pub tasks : (i.task + 176 ≤ j.task) ⊎ (j.task + 176 ≤ i.task)
  pub stacks : (i.stack + 4096 ≤ j.stack) ⊎ (j.stack + 4096 ≤ i.stack)
  pub task_stack : (i.task + 176 ≤ j.stack) ⊎ (j.stack + 4096 ≤ i.task)
  pub stack_task : (i.stack + 4096 ≤ j.task) ⊎ (j.task + 176 ≤ i.stack)

abbrev pub AllDisjoint : Job → List Job → Type 0
AllDisjoint i [] = Unit {0}
AllDisjoint i (j ∷ js) = Disjoint i j × AllDisjoint i js

-- Each task's block and stack are its own.
abbrev pub OwnBlocks : List Job → Type 0
OwnBlocks [] = Unit {0}
OwnBlocks (j ∷ js) =
    ((j.task + 176 ≤ j.stack) ⊎ (j.stack + 4096 ≤ j.task)) × AllDisjoint j js × OwnBlocks js

-- The tasks js, in this order, are the queue; each is ready to start, on a stack that no other task has
-- a byte of, and the locks are open.
pub record Created (code : Code) (k : Kernel) (ps : List HeapPage) (js : List Job) : Type 0 where
  pub store : Store k ps
  pub queue : Queue k (tasks_of js)
  pub ready : AllReady code k ps (tasks_of js) js
  pub own : OwnBlocks js
  pub memory_open : k.memory_lock ≡ 0
  pub task_open : k.task_lock ≡ 0

-- A task of each kind in each round.
abbrev pub kinds : Code → (rounds : ℕ) → List Ptr
kinds code zero = []
kinds code (suc n) = code.factorial_task ∷ code.fibonacci_task ∷ kinds code n

tasks_of-append : (js : List Job) (j : Job) → tasks_of (js ++ j ∷ []) ≡ tasks_of js ++ j.task ∷ []
tasks_of-append [] j = refl
tasks_of-append (i ∷ js) j = ap (λ ts. i.task ∷ ts) (tasks_of-append js j)

length-tasks_of : (js : List Job) → length (tasks_of js) ≡ length js
length-tasks_of [] = refl
length-tasks_of (j ∷ js) = omega (arith, length-tasks_of js)

AllReady-Covers :
    (code : Code) (k : Kernel) (ps : List HeapPage) (ts : List Ptr) (js : List Job)
    → AllReady code k ps ts js
    → Covers (InUse k ps) (tasks_of js)
AllReady-Covers code k ps ts [] all = tt
AllReady-Covers code k ps ts (j ∷ js) all = (all.0.task_used, AllReady-Covers code k ps ts js all.1)

AllReady-Added :
    {code : Code} {k : Kernel} {ps : List HeapPage} {ts : List Ptr} {new : Job} {k' : Kernel}
    {ps' : List HeapPage}
    → Added code k ps ts new k' ps'
    → (js : List Job) → AllReady code k ps ts js
    → AllReady code k' ps' (ts ++ new.task ∷ []) (js ++ new ∷ [])
AllReady-Added added [] all = (added.ready, tt)
AllReady-Added added (j ∷ js) all = (IsReady-Added added j all.0, AllReady-Added added js all.1)

Disjoint-Added :
    {code : Code} {k : Kernel} {ps : List HeapPage} {ts : List Ptr} {new : Job} {k' : Kernel}
    {ps' : List HeapPage}
    → Added code k ps ts new k' ps'
    → (j : Job) → IsReady code k ps ts j
    → Disjoint j new
Disjoint-Added {new} added j is = record {
  tasks =
      regions-Apart j.task 176 new.task 176 (omega arith) (omega arith)
        (λ q lo hi lo' hi'. omega (arith, added.fresh_task q (is.task_used q lo hi)));
  stacks =
      regions-Apart j.stack 4096 new.stack 4096 (omega arith) (omega arith)
        (λ q lo hi lo' hi'. omega (arith, added.fresh_stack q (is.stack_used q lo hi)));
  task_stack =
      regions-Apart j.task 176 new.stack 4096 (omega arith) (omega arith)
        (λ q lo hi lo' hi'. omega (arith, added.fresh_stack q (is.task_used q lo hi)));
  stack_task =
      regions-Apart j.stack 4096 new.task 176 (omega arith) (omega arith)
        (λ q lo hi lo' hi'. omega (arith, added.fresh_task q (is.stack_used q lo hi)));
}

AllDisjoint-append :
    (i : Job) (js : List Job) (j : Job)
    → AllDisjoint i js
    → Disjoint i j
    → AllDisjoint i (js ++ j ∷ [])
AllDisjoint-append i [] j all one = (one, tt)
AllDisjoint-append i (h ∷ js) j all one = (all.0, AllDisjoint-append i js j all.1 one)

OwnBlocks-Added :
    {code : Code} {k : Kernel} {ps : List HeapPage} {ts : List Ptr} {new : Job} {k' : Kernel}
    {ps' : List HeapPage}
    → Added code k ps ts new k' ps'
    → (js : List Job) → AllReady code k ps ts js
    → OwnBlocks js
    → OwnBlocks (js ++ new ∷ [])
OwnBlocks-Added added [] all own = (added.own_stack, tt, tt)
OwnBlocks-Added {new} added (j ∷ js) all own = (
  own.0,
  AllDisjoint-append j js new own.1 (Disjoint-Added added j all.0),
  OwnBlocks-Added added js all.1 own.2,
)

Added-Created :
    {code : Code} {k : Kernel} {ps : List HeapPage} {js : List Job} {new : Job} {k' : Kernel}
    {ps' : List HeapPage}
    → Created code k ps js
    → Added code k ps (tasks_of js) new k' ps'
    → Created code k' ps' (js ++ new ∷ [])
Added-Created {js} {new} created added = record {
  store = added.store;
  queue = rw (tasks_of-append js new) added.queue;
  ready = rw (tasks_of-append js new) (AllReady-Added added js created.ready);
  own = OwnBlocks-Added added js created.ready created.own;
  memory_open = ap (λ (k : Kernel). k.memory_lock) added.rest ∙ created.memory_open;
  task_open = ap (λ (k : Kernel). k.task_lock) added.rest ∙ created.task_open;
}

-- What the creation of `more` tasks needs.
pub record Supplied (fuel more : ℕ) (k : Kernel) (ps : List HeapPage) (js : List Job) : Type 0 where
  pub room : Room k (3 * more)
  pub enough : 255 ≤ fuel
  pub pages : length ps + 2 * more < fuel
  pub tasks : length js + more < fuel

-- One more task is created, and what is left is enough for the others.
create-Created :
    (code : Code) (fuel : ℕ) (entry : Ptr) (more : ℕ) (k : Kernel) (ps : List HeapPage)
    (js : List Job)
    → CodeFits code
    → entry < u64_mod
    → Created code k ps js
    → Supplied fuel (suc more) k ps js
    → Returns
        (λ _ k'.
          (j : Job) × (ps' : List HeapPage) × (j.entry ≡ entry)
          × Created code k' ps' (js ++ j ∷ [])
          × Supplied fuel more k' ps' (js ++ j ∷ []))
        (create code fuel entry k)
create-Created code fuel entry more k ps js fits entry_fits created supplied =
    Returns.mono
      (create-Added code fuel entry (tasks_of js) k ps fits entry_fits created.store created.queue
        (AllReady-Covers code k ps (tasks_of js) js created.ready) created.memory_open
        created.task_open (Room-less 3 _ k (omega arith) supplied.room) supplied.enough
        (omega (arith, supplied.pages)) (omega (arith, supplied.tasks, length-tasks_of js)))
      (λ _ k' (j, ps', e, added). (
        j,
        ps',
        e,
        Added-Created created added,
        record {
          room =
              Room-cut 3 (3 * more) k k' added.cursor added.cut
                (Room-less (3 + 3 * more) _ k (omega arith) supplied.room);
          enough = supplied.enough;
          pages = omega (arith, supplied.pages, added.pages);
          tasks = omega (arith, supplied.tasks, length-append js (j ∷ []));
        },
      ))

-- A creation, and what follows it.
create-bind :
    (code : Code) (fuel : ℕ) (entry : Ptr) (k : Kernel) {P Q : Unit {0} → Kernel → Type 0}
    (next : Cmd (Unit {0}))
    → Returns P (create code fuel entry k)
    → ((a : Unit {0}) (k' : Kernel) → P a k' → Returns Q (next k'))
    → Returns Q (
        and_then
          (kmalloc fuel Task.size k)
          (λ t k'. and_then (task_init code fuel t entry k') (λ _ k''. next k'')))
create-bind code fuel entry k {Q} next first then_next =
    subst (Returns Q)
      (and_then_assoc (kmalloc fuel Task.size k) (λ t. task_init code fuel t entry) (λ _. next))
      (Returns.bind first then_next)

-- The 2 * n tasks that n rounds of kmain's loop create.
abbrev pub Round : (code : Code) (js : List Job) (n : ℕ) → Kernel → Type 0
Round code js n k' =
    (new : List Job) × (ps' : List HeapPage) × (entries_of new ≡ kinds code n)
    × Created code k' ps' (js ++ new)

-- The loop of kmain that creates tasks ends, for any number n of rounds, from a well-formed heap and free list, a queue of tasks that are ready on stacks of their own, open locks, a segment with three frames for each new task, and fuel beyond the tasks and the pages that there may be. Behind the tasks that were queued there are then 2 * n more, in turn one for factorial_task and one for fibonacci_task; each task of the queue, old or new, is ready to start at its entry, on a stack of 4096 bytes that has no byte in common with its own task, with another task, with another task's stack or with a link of the queue; the heap and the free list are well formed and the locks open.
pub create_tasks-Created :
    (code : Code) (fuel n : ℕ) (k : Kernel) (ps : List HeapPage) (js : List Job)
    → CodeFits code
    → Created code k ps js
    → Supplied fuel (2 * n) k ps js
    → Returns (λ _ k'. Round code js n k') (create_tasks code fuel n k)
unfolding create_tasks
create_tasks-Created code fuel zero k ps js fits created supplied =
    returns ([], ps, refl, rw append-nil created)
create_tasks-Created code fuel (suc n) k ps js fits created supplied =
    create-bind code fuel code.factorial_task k _
      (create-Created code fuel code.factorial_task (suc (2 * n)) k ps js fits fits.factorial_task
        created (subst (λ m. Supplied fuel m k ps js) (omega arith) supplied))
      (λ _ k₁ (j, ps₁, e, created₁, supplied₁).
        create-bind code fuel code.fibonacci_task k₁ (create_tasks code fuel n)
          (create-Created code fuel code.fibonacci_task (2 * n) k₁ ps₁ (js ++ j ∷ []) fits
            fits.fibonacci_task created₁ supplied₁)
          (λ _ k₂ (i, ps₂, f, created₂, supplied₂).
            Returns.mono
              (create_tasks-Created code fuel n k₂ ps₂ ((js ++ j ∷ []) ++ i ∷ []) fits created₂
                supplied₂)
              (λ _ k' (new, ps', kinds_of, all). (
                j ∷ i ∷ new,
                ps',
                rw (e, f, kinds_of) refl,
                subst (Created code k' ps')
                    (append_assoc (js ++ j ∷ []) (i ∷ []) new ∙ append_assoc js (j ∷ []) (i ∷ new))
                    all,
              ))))
