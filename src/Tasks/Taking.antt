-- ===== src/Tasks/Taking.antt =====
-- How idle_task_entry (src/kernel.c) takes a task from the queue, one access to the lock or to
-- the queue at a time, as one of several processors that may do so at the same time.
use side_h_os.Base.{◌==◌, Bool, true, false, if◌then◌else◌, Option, none, some, List, [], ◌∷◌}
use side_h_os.Bytes.{load64}
use side_h_os.Kernel.{Ptr, null, Kernel}
use side_h_os.Lock.{lock_acquire, lock_release, put_task_lock}
use side_h_os.Tasks.Task

-- Where a processor is, with what it has read.
pub data Phase : Type 0 where
  -- At one of the two loops that try the lock.
  seeking : Phase
  -- At `tasks == NULL`, with the lock.
  testing : Phase
  -- The queue was empty: at lock_release in the loop.
  leaving : Phase
  -- At `t = tasks`.
  loading : Phase
  -- At `tasks->next`.
  following : Ptr → Phase
  -- At the store to `tasks`.
  storing : (t next : Ptr) → Phase
  -- At lock_release, with the task.
  releasing : Ptr → Phase
  -- Behind it: the processor goes on with the task, until it is at the loops again.
  serving : Ptr → Phase

abbrev pub take_step : Phase → Kernel → Phase × Kernel
take_step seeking k =
    let (done, l) = lock_acquire k.task_lock in
    if done then (testing, put_task_lock l k) else (seeking, k)
take_step testing k = if k.tasks == null then (leaving, k) else (loading, k)
take_step leaving k = (seeking, put_task_lock (lock_release k.task_lock) k)
take_step loading k = (following k.tasks, k)
take_step (following t) k = (storing t (load64 k.bytes (Task.next k.tasks)), k)
take_step (storing t next) k = (releasing t, record k { tasks = next })
take_step (releasing t) k = (serving t, put_task_lock (lock_release k.task_lock) k)
take_step (serving t) k = (seeking, k)

-- The processor is between a lock_acquire that succeeded and its lock_release.
abbrev pub holds : Phase → Bool
holds seeking = false
holds testing = true
holds leaving = true
holds loading = true
holds (following t) = true
holds (storing t next) = true
holds (releasing t) = true
holds (serving t) = false

-- The task that a step takes: the one that the processor then goes on with.
abbrev pub takes : Phase → List Ptr
takes seeking = []
takes testing = []
takes leaving = []
takes loading = []
takes (following t) = []
takes (storing t next) = []
takes (releasing t) = t ∷ []
takes (serving t) = []

abbrev pub served : Phase → Option Ptr
served seeking = none
served testing = none
served leaving = none
served loading = none
served (following t) = none
served (storing t next) = none
served (releasing t) = none
served (serving t) = some t
