-- ===== src/Tasks/Service.antt =====
-- Any number of processors that take tasks at the same time (src/kernel.c, idle_task_entry): which tasks
-- they get, in which order, and that no task goes to two of them.
use mathlib.Core.List.{
  Mem, append-nil, mem-append_left, mem-append_right, mem-cons, mem-cons_self, not-mem-nil,
}
use mathlib.Core.Logic.Or
use mathlib.Core.HLevel.{⊥_prop}
use mathlib.Core.Path.{subst}
use native.Mathlib.Decide.{ℕ_discrete}
use side_h_os.Base.{
  ℕ, ◌+◌, ◌≤◌, ◌≡◌, ◌≢◌, refl, ◌⊎◌, inl, inr, Bool-cases, none, some, List, [], ◌∷◌, ◌++◌, ◌==◌,
  arith, ap, sym, ◌∙◌,
}
use side_h_os.Kernel.{Ptr, null, Kernel, replace}
use side_h_os.Tasks.Links.{Away, AllAway, Chain}
use side_h_os.Tasks.Taking.{
  Phase, seeking, testing, leaving, loading, following, storing, releasing, serving, take_step,
  holds, takes, served,
}
use side_h_os.Tasks.Owner.{
  System, Step, moves, elsewhere, Runs, here, then_step, Owner, open_lock, Step-Owner, put-at,
  put-other, lock_holder, Sees,
}

-- A task is not among those in front of it.
AllAway-fresh : (ts : List Ptr) (t : Ptr) (us : List Ptr) → AllAway (ts ++ t ∷ us) → ¬ Mem t ts
AllAway-fresh [] t us all m = not-mem-nil m
AllAway-fresh (u ∷ ts) t us all m =
    Or.elim ⊥_prop (mem-cons.0 m) (λ same. omega (arith, Away-at u ts t us all.0))
      (AllAway-fresh ts t us all.1)
  where
    Away-at :
        (u : Ptr) (ts : List Ptr) (t : Ptr) (us : List Ptr)
        → Away u 176 (ts ++ t ∷ us)
        → (u + 176 ≤ t) ⊎ (t + 176 ≤ u)
    Away-at u [] t us far = far.0
    Away-at u (v ∷ ts) t us far = Away-at u ts t us far.1

-- The processors that go on with a task that was taken: it is one of `taken`, and no two have the same.
pub record Shared (taken : List Ptr) (at : ℕ → Phase) : Type 0 where
  pub were_taken : (i : ℕ) (t : Ptr) → served (at i) ≡ some t → Mem t taken
  pub alone : (i j : ℕ) (t : Ptr) → served (at i) ≡ some t → served (at j) ≡ some t → i ≡ j

-- The lock is open or exactly one processor has it, the tasks that were taken are the first of the queue
-- and in its order, those that are left are queued, and no task is with two processors.
pub record Served (queue taken : List Ptr) (s : System) : Type 0 where
  pub owner : Owner queue taken s.kernel s.at
  pub shared : Shared taken s.at

not_some : (t : Ptr) → ¬ none ≡ some t
not_some t e = cc

same_task : (t u : Ptr) → some t ≡ some u → t ≡ u
same_task t u e = cc

module _ (taken : List Ptr) (at : ℕ → Phase) (shared : Shared taken at) (i : ℕ) where
  quiet : (x : Phase) → served x ≡ none → Shared taken (replace at i x)
  quiet x none_served = record {
    were_taken = λ j t e. shared.were_taken j t (old j t e);
    alone = λ j n t e e'. shared.alone j n t (old j t e) (old n t e');
  }
    where
      old : (j : ℕ) (t : Ptr) → served (replace at i x j) ≡ some t → served (at j) ≡ some t
      old j t e = elim (ℕ_discrete i j) [
        | yes same ↦ absurd (
            not_some t (
              sym none_served
              ∙ ap served (sym (put-at at i x))
              ∙ subst (λ n. served (replace at i x n) ≡ some t) (sym same) e))
        | no other ↦ ap served (sym (put-other at i j x other)) ∙ e
      ]

  gets : (u : Ptr) → ¬ Mem u taken → Shared (taken ++ u ∷ []) (replace at i (serving u))
  gets u fresh = record {
    were_taken = λ j t e. elim (ℕ_discrete i j) [
      | yes same ↦ subst (λ v. Mem v (taken ++ u ∷ [])) (new j t same e) last
      | no other ↦ mem-append_left _ (shared.were_taken j t (old j t other e))
    ];
    alone = λ j n t e e'. elim (ℕ_discrete i j) [
      | yes at_j ↦ elim (ℕ_discrete i n) [
        | yes at_n ↦ sym at_j ∙ at_n
        | no off_n ↦ absurd (
            fresh (
              subst (λ v. Mem v taken) (sym (new j t at_j e))
                (shared.were_taken n t (old n t off_n e'))))
      ]
      | no off_j ↦ elim (ℕ_discrete i n) [
        | yes at_n ↦ absurd (
            fresh (
              subst (λ v. Mem v taken) (sym (new n t at_n e'))
                (shared.were_taken j t (old j t off_j e))))
        | no off_n ↦ shared.alone j n t (old j t off_j e) (old n t off_n e')
      ]
    ];
  }
    where
      last : Mem u (taken ++ u ∷ [])
      last = mem-append_right taken mem-cons_self

      new : (j : ℕ) (t : Ptr) → i ≡ j → served (replace at i (serving u) j) ≡ some t → u ≡ t
      new j t same e = same_task u t (
          ap served (sym (put-at at i (serving u)))
          ∙ subst (λ n. served (replace at i (serving u) n) ≡ some t) (sym same) e)

      old :
          (j : ℕ) (t : Ptr)
          → i ≢ j
          → served (replace at i (serving u) j) ≡ some t
          → served (at j) ≡ some t
      old j t other e = ap served (sym (put-other at i j (serving u) other)) ∙ e

seeking_quiet : (k : Kernel) → served (take_step seeking k).0 ≡ none
seeking_quiet k = elim (Bool-cases (k.task_lock == 0)) [
  | inl free ↦ rw free refl
  | inr locked ↦ rw locked refl
]

testing_quiet : (k : Kernel) → served (take_step testing k).0 ≡ none
testing_quiet k = elim (Bool-cases (k.tasks == null)) [
  | inl empty ↦ rw empty refl
  | inr some_task ↦ rw some_task refl
]

module _ (queue : List Ptr) (all_away : AllAway queue) where
  move-Shared :
      (taken : List Ptr) (k : Kernel) (at : ℕ → Phase) (i : ℕ) (x : Phase)
      → at i ≡ x
      → Owner queue taken k at
      → Shared taken at
      → Shared (taken ++ takes x) (replace at i (take_step x k).0)
  move-Shared taken k at i seeking e owner shared =
      rw append-nil (quiet taken at shared i (take_step seeking k).0 (seeking_quiet k))
  move-Shared taken k at i testing e owner shared =
      rw append-nil (quiet taken at shared i (take_step testing k).0 (testing_quiet k))
  move-Shared taken k at i leaving e owner shared =
      rw append-nil (quiet taken at shared i seeking refl)
  move-Shared taken k at i loading e owner shared =
      rw append-nil (quiet taken at shared i (following k.tasks) refl)
  move-Shared taken k at i (following t) e owner shared =
      rw append-nil (quiet taken at shared i (take_step (following t) k).0 refl)
  move-Shared taken k at i (storing t next) e owner shared =
      rw append-nil (quiet taken at shared i (releasing t) refl)
  move-Shared taken k at i (releasing t) e owner shared =
      let (rest, order) = fresh in
      gets taken at shared i t (AllAway-fresh taken t rest (subst AllAway order all_away))
    where
      fresh : (rest : List Ptr) × (queue ≡ taken ++ t ∷ rest)
      fresh =
          let (_, _, sees) = lock_holder queue taken k at i owner (ap holds e) in
          let (rest, order, chain) : (rest : List Ptr) × (queue ≡ taken ++ t ∷ rest)
              × Chain k.bytes k.tasks rest =
            subst (λ x. Sees queue taken k x) e sees in
          (rest, order)
  move-Shared taken k at i (serving t) e owner shared =
      rw append-nil (quiet taken at shared i seeking refl)

  Step-Served :
      (taken us : List Ptr) (s s' : System)
      → Step queue s us s'
      → Served queue taken s
      → Served queue (taken ++ us) s'
  Step-Served taken us s s' (moves i) h = record {
    owner = Step-Owner queue taken us s s' (moves i) h.owner;
    shared = move-Shared taken s.kernel s.at i (s.at i) refl h.owner h.shared;
  }
  Step-Served taken us s s' (elsewhere m same) h = record {
    owner = Step-Owner queue taken us s s' (elsewhere m same) h.owner;
    shared = rw append-nil h.shared;
  }

  -- Any number of processors that are at the loops of idle_task_entry, with the lock open and a queue of tasks that do not overlap, go on in any order, one access to the lock or the queue at a time, while other code writes to memory but not to the links of the queue, and no task is added. Then at any time: the lock is open and no processor has it, or it is closed and exactly one has; the tasks that have been taken are the first of the queue, in its order, and the others are still linked behind the head of the queue, but for the one that the processor with the lock has read; a processor that goes on with a task from the queue has one of those taken, and no two go on with the same one.
  pub Runs-Served :
      (k : Kernel) (at : ℕ → Phase)
      → k.task_lock ≡ 0
      → Chain k.bytes k.tasks queue
      → ((i : ℕ) → at i ≡ seeking)
      → (taken : List Ptr) (s : System) → Runs queue (record { kernel = k; at = at }) taken s
      → Served queue taken s
  Runs-Served k at free chain start taken s here = record {
    owner = open_lock free (λ j. ap holds (start j)) (queue, refl, chain);
    shared = record {
      were_taken = λ i t e. absurd (not_some t (sym (ap served (start i)) ∙ e));
      alone = λ i j t e e'. absurd (not_some t (sym (ap served (start i)) ∙ e));
    };
  }
  Runs-Served k at free chain start taken s (then_step {ts} {us} {s₁} runs step) =
      Step-Served ts us s₁ s step (Runs-Served k at free chain start ts s₁ runs)
