-- ===== src/Tasks/Drain.antt =====
-- The queue empties (src/kernel.c, idle_task_entry): no processor gets stuck between the lock and the
-- queue while tasks are left.
use side_h_os.Base.{
  ℕ, zero, suc, ◌≤◌, ◌<◌, ◌≡◌, refl, ◌⊎◌, inl, inr, true, List, [], ◌∷◌, ◌++◌, arith, ap, length,
  length-append, ◌==◌, false,
}
use side_h_os.Kernel.{Ptr, null, null_no, Kernel}
use side_h_os.Tasks.Links.{AllAway, Chain}
use side_h_os.Tasks.Taking.{
  Phase, seeking, testing, leaving, loading, following, storing, releasing, serving, take_step,
  holds, takes,
}
use side_h_os.Tasks.Owner.{System, Runs, Owner, open_lock, held_by, Sees, Remaining, Foremost}
use side_h_os.Tasks.Service.{Runs-Served}

-- The next n steps of a processor alone, from where it is: the tasks that it takes, where it is then,
-- and the kernel.
abbrev pub go : (n : ℕ) → Phase → Kernel → List Ptr × Phase × Kernel
go zero x k = ([], x, k)
go (suc n) x k =
    let (x', k') = take_step x k in let (ts, last, k'') = go n x' k' in (takes x ++ ts, last, k'')

no_way : ¬ true ≡ false
no_way e = cc

no_hold : ¬ false ≡ true
no_hold e = cc

module _ (queue taken : List Ptr) where
  -- A processor at x that goes on alone has the next task after at most 8 steps.
  abbrev pub Takes : Phase → Kernel → Type 0
  Takes x k =
      (n : ℕ) × (t : Ptr) × (rest : List Ptr) × (n ≤ 8)
      × (queue ≡ taken ++ t ∷ rest)
      × ((go n x k).0 ≡ t ∷ [])
      × ((go n x k).1 ≡ serving t)

  some_left :
      (k : Kernel)
      → length taken < length queue
      → Remaining queue taken k
      → (t : Ptr) × Foremost queue taken t k
  some_left k more ([], order, chain) =
      absurd (omega (arith, more, ap length order, length-append taken []))
  some_left k more (t ∷ rest, order, chain) = (t, (rest, order, chain))

  module _ (k : Kernel) where
    from_loading : (t : Ptr) → Foremost queue taken t k → Takes loading k
    from_loading t (rest, order, chain) =
        (4, t, rest, omega arith, order, ap (λ u. u ∷ []) chain.0, ap serving chain.0)

    tests : (t : Ptr) → Foremost queue taken t k → (k.tasks == null) ≡ false
    tests t (rest, order, chain) = null_no k.tasks (omega (arith, chain.0, chain.1.not_null))

    from_testing : (t : Ptr) → Foremost queue taken t k → Takes testing k
    from_testing t (rest, order, chain) = (
      5,
      t,
      rest,
      omega arith,
      order,
      rw (tests t (rest, order, chain)) (ap (λ u. u ∷ []) chain.0),
      rw (tests t (rest, order, chain)) (ap serving chain.0),
    )

    from_seeking :
        (t : Ptr)
        → Foremost queue taken t k
        → k.task_lock ≡ 0
        → (n : ℕ) × (u : Ptr) × (rest : List Ptr) × (n ≤ 7)
          × (queue ≡ taken ++ u ∷ rest)
          × ((go n seeking k).0 ≡ u ∷ [])
          × ((go n seeking k).1 ≡ serving u)
    from_seeking t (rest, order, chain) free = (
      6,
      t,
      rest,
      omega arith,
      order,
      rw (free, tests t (rest, order, chain)) (ap (λ u. u ∷ []) chain.0),
      rw (free, tests t (rest, order, chain)) (ap serving chain.0),
    )

  module _ (more : length taken < length queue) where
    from_seven :
        (k : Kernel)
        → Remaining queue taken k
        → k.task_lock ≡ 0
        → (n : ℕ) × (u : Ptr) × (rest : List Ptr) × (n ≤ 7)
          × (queue ≡ taken ++ u ∷ rest)
          × ((go n seeking k).0 ≡ u ∷ [])
          × ((go n seeking k).1 ≡ serving u)
    from_seven k left free = let (t, first) = some_left k more left in from_seeking k t first free

    from_idle :
        (k : Kernel) (x : Phase)
        → holds x ≡ false
        → Remaining queue taken k
        → k.task_lock ≡ 0
        → Takes x k
    from_idle k seeking none_held left free =
        let (n, t, rest, few, order, gets, last) = from_seven k left free in
        (n, t, rest, omega arith, order, gets, last)
    from_idle k testing none_held left free = absurd (no_way none_held)
    from_idle k leaving none_held left free = absurd (no_way none_held)
    from_idle k loading none_held left free = absurd (no_way none_held)
    from_idle k (following t) none_held left free = absurd (no_way none_held)
    from_idle k (storing t next) none_held left free = absurd (no_way none_held)
    from_idle k (releasing t) none_held left free = absurd (no_way none_held)
    from_idle k (serving u) none_held left free =
        let (n, t, rest, few, order, gets, last) = from_seven k left free in
        (suc n, t, rest, omega arith, order, gets, last)

    from_held : (k : Kernel) (x : Phase) → holds x ≡ true → Sees queue taken k x → Takes x k
    from_held k seeking held sees = absurd (no_hold held)
    from_held k testing held sees = let (t, first) = some_left k more sees in from_testing k t first
    from_held k leaving held sees =
        let (n, t, rest, few, order, gets, last) =
          from_seven (record k { task_lock = 0 }) sees refl in
        (suc n, t, rest, omega arith, order, gets, last)
    from_held k loading held (t, first) = from_loading k t first
    from_held k (following t) held (rest, order, chain) =
        (3, t, rest, omega arith, order, refl, refl)
    from_held k (storing t next) held ((rest, order, chain), e) =
        (2, t, rest, omega arith, order, refl, refl)
    from_held k (releasing t) held (rest, order, chain) =
        (1, t, rest, omega arith, order, refl, refl)
    from_held k (serving t) held sees = absurd (no_hold held)

  -- The processor with the lock, or, where it is open, any processor i.
  abbrev pub NextTaker : (i : ℕ) → System → Type 0
  NextTaker i s = (j : ℕ) × ((j ≡ i) ⊎ (holds (s.at j) ≡ true)) × Takes (s.at j) s.kernel

  next_at :
      (s : System) (i : ℕ)
      → length taken < length queue
      → Owner queue taken s.kernel s.at
      → NextTaker i s
  next_at s i more (open_lock free none_holds left) =
      (i, inl refl, from_idle more s.kernel (s.at i) (none_holds i) left free)
  next_at s i more (held_by o locked holds_o others sees) =
      (o, inr holds_o, from_held more s.kernel (s.at o) holds_o sees)

-- However far any number of processors have come, from the loops of idle_task_entry with the lock open and a queue of tasks that do not overlap, while no task is added: as long as a task is left, the next one is taken within 8 steps that one processor goes on alone. It is the processor that has the lock, or, where none has it, whichever processor i one likes, once the task that it goes on with, if any, has ended.
pub next_taken :
    (queue : List Ptr)
    → AllAway queue
    → (k : Kernel) (at : ℕ → Phase) → k.task_lock ≡ 0
    → Chain k.bytes k.tasks queue
    → ((i : ℕ) → at i ≡ seeking)
    → (taken : List Ptr) (s : System) → Runs queue (record { kernel = k; at = at }) taken s
    → length taken < length queue
    → (i : ℕ) → NextTaker queue taken i s
next_taken queue all k at free chain start taken s runs more i =
    next_at queue taken s i more (Runs-Served queue all k at free chain start taken s runs).owner
