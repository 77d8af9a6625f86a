-- ===== src/Tasks/Queue.antt =====
-- The queue of tasks (src/kernel.c): task_init puts a task at its end.
use side_h_os.Base.{ℕ, zero, suc, ◌<◌, ◌≡◌, refl, some, List, [], ◌∷◌, ◌++◌, arith, ap, ◌∙◌, length}
use side_h_os.Bytes.{Bytes, load64, store64}
use side_h_os.Bytes.Words.{load64-store64, load64-store64-Apart, store64-Outside}
use side_h_os.Kernel.{null_no, Ptr, null, Kernel}
use side_h_os.Kernel.Returns.{Returns, returns}
use side_h_os.Tasks.{last_task, enqueue}
use side_h_os.Tasks.Task
use side_h_os.Tasks.Links.{
  IsTask, Away, AllAway, Chain, Chain-store, Away-part, last_of, OffLinks, OffLinks-last,
}

-- The queue of the kernel is the tasks ts, first one first.
pub record Queue (k : Kernel) (ts : List Ptr) : Type 0 where
  pub chain : Chain k.bytes k.tasks ts
  pub away : AllAway ts

last_task-last_of :
    (f : ℕ) (m : Bytes) (t : Ptr) (ts : List Ptr)
    → Chain m (load64 m (Task.next t)) ts
    → length ts < f
    → last_task f m t ≡ some (last_of t ts)
unfolding last_task
last_task-last_of zero m t ts h fuel = elim fuel [ ]
last_task-last_of (suc f) m t [] h fuel = rw h refl
last_task-last_of (suc f) m t (u ∷ ts) h fuel =
    rw (h.0, null_no u h.1.not_null) (last_task-last_of f m u ts h.2 (omega arith))

Away-last : (a n : ℕ) (t : Ptr) (ts : List Ptr) → Away a n (t ∷ ts) → Away a n (last_of t ts ∷ [])
Away-last a n t [] h = h
Away-last a n t (u ∷ ts) h = Away-last a n u ts h.1

pub Away-append :
    (a n : ℕ) (ts : List Ptr) (t : Ptr) → Away a n ts → Away a n (t ∷ []) → Away a n (ts ++ t ∷ [])
Away-append a n [] t h far = far
Away-append a n (u ∷ ts) t h far = (h.0, Away-append a n ts t h.1 far)

AllAway-append : (ts : List Ptr) (t : Ptr) → AllAway ts → Away t 176 ts → AllAway (ts ++ t ∷ [])
AllAway-append [] t all far = (tt, tt)
AllAway-append (u ∷ ts) t all far =
    (Away-append u 176 ts t all.0 (omega (arith, far.0), tt), AllAway-append ts t all.1 far.1)

Chain-last : (m : Bytes) (p t : Ptr) (ts : List Ptr) → Chain m p (t ∷ ts) → IsTask (last_of t ts)
Chain-last m p t [] h = h.1
Chain-last m p t (u ∷ ts) h = Chain-last m (load64 m (Task.next t)) u ts h.2

-- The word behind the last task leads to t.
Chain-append :
    (m : Bytes) (p u : Ptr) (us : List Ptr) (t : Ptr)
    → Chain m p (u ∷ us)
    → AllAway (u ∷ us)
    → IsTask t
    → Away t 176 (u ∷ us)
    → load64 m (Task.next t) ≡ null
    → Chain (store64 m (Task.next (last_of u us)) t) p (u ∷ us ++ t ∷ [])
Chain-append m p u [] t h all is far ends = (
  h.0,
  h.1,
  (
    load64-store64 m (Task.next u) t (omega (arith, is.fits)),
    is,
    load64-store64-Apart m (Task.next u) (Task.next t) t (omega (arith, far.0, is.fits, h.1.fits))
        ∙ ends,
  ),
)
Chain-append m p u (v ∷ us) t h all is far ends =
    let next =
      load64-store64-Apart m (Task.next (last_of v us)) (Task.next u) t
        (omega (arith, (Away-last u 176 v us all.0).0, h.1.fits, (Chain-last m _ v us h.2).fits)) in
    (h.0, h.1, rw next (Chain-append m (load64 m (Task.next u)) v us t h.2 all.1 is far.1 ends))

-- t is behind the tasks that were there, and no byte changes but those that lead from task to task.
pub record Enqueued (k : Kernel) (ts : List Ptr) (t : Ptr) (k' : Kernel) : Type 0 where
  pub queue : Queue k' (ts ++ t ∷ [])
  pub others : (q : ℕ) → OffLinks q (t ∷ ts) → k'.bytes q ≡ k.bytes q
  pub rest : k' ≡ record k { bytes = k'.bytes; tasks = k'.tasks }

-- task_init's walk over the queue ends, with more fuel than there are tasks, and puts a new task, which overlaps no other, at the end of the queue; no byte changes but those that lead from task to task.
pub enqueue-Enqueued :
    (fuel : ℕ) (t : Ptr) (ts : List Ptr) (k : Kernel)
    → Queue k ts
    → IsTask t
    → Away t 176 ts
    → length ts < fuel
    → Returns (λ _ k'. Enqueued k ts t k') (enqueue fuel t k)
unfolding enqueue
enqueue-Enqueued fuel t [] k h is far fuel_enough =
    let ends = load64-store64 k.bytes (Task.next t) null (omega arith) in
    rw h.chain (
      returns (record {
        queue = record { chain = (refl, is, ends); away = (tt, tt) };
        others = λ q off. store64-Outside k.bytes (Task.next t) null q off.0;
        rest = refl;
      }))
enqueue-Enqueued fuel t (u ∷ us) k h is far fuel_enough =
    let m = store64 k.bytes (Task.next t) null in
    let ends = load64-store64 k.bytes (Task.next t) null (omega arith) in
    let links : Away (Task.next t) 8 (u ∷ us) =
      Away-part t 176 (Task.next t) 8 (u ∷ us) far (omega (arith, is.fits))
        (omega (arith, is.fits)) in
    let chain = Chain-store k.bytes (Task.next t) null k.tasks (u ∷ us) h.chain links in
    let walk : last_task fuel m k.tasks ≡ some (last_of u us) =
      ap (λ p. last_task fuel m p) chain.0 ∙ last_task-last_of fuel m u us chain.2 (omega arith) in
    rw (null_no k.tasks (omega (arith, chain.0, chain.1.not_null))) (
      rw walk (
        returns (record {
          queue = record {
            chain = Chain-append m k.tasks u us t chain h.away is far ends;
            away = AllAway-append (u ∷ us) t h.away far;
          };
          others = λ q off.
              store64-Outside m (Task.next (last_of u us)) t q (OffLinks-last q u us off.1)
              ∙ store64-Outside k.bytes (Task.next t) null q off.0;
          rest = refl;
        })))
