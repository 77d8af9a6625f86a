-- ===== src/Tasks/Owner.antt =====
-- Any number of processors that take tasks at the same time (src/kernel.c, idle_task_entry): their
-- steps, and what the lock guards.
use mathlib.Core.List.{append-nil, append_assoc}
use mathlib.Core.Path.{subst}
use native.Mathlib.Decide.{ℕ_discrete}
use side_h_os.Base.{
  ℕ, ◌≡◌, ◌≢◌, refl, ◌⊎◌, inl, inr, true, false, List, [], ◌∷◌, ◌++◌, ◌==◌, arith, ap, sym, ◌∙◌,
}
use side_h_os.Bytes.{Bytes, load64}
use side_h_os.Kernel.{Ptr, null, null_no, Kernel, replace, with_bytes}
use side_h_os.Tasks.Task
use side_h_os.Tasks.Links.{Chain}
use side_h_os.Tasks.Taking.{
  Phase, seeking, testing, leaving, loading, following, storing, releasing, serving, take_step,
  holds, takes,
}

pub record System : Type 0 where
  pub kernel : Kernel
  pub at : ℕ → Phase

-- The words that lead from task to task are the same.
abbrev pub SameLinks : Bytes → Bytes → List Ptr → Type 0
SameLinks m m' [] = Unit {0}
SameLinks m m' (t ∷ ts) = (load64 m' (Task.next t) ≡ load64 m (Task.next t)) × SameLinks m m' ts

-- A step, with the tasks that it takes.
pub data Step (queue : List Ptr) (s : System) : List Ptr → System → Type 0 where
  -- The processor i goes on by one access.
  moves :
      (i : ℕ)
      → Step queue s (takes (s.at i)) (record {
        kernel = (take_step (s.at i) s.kernel).1;
        at = replace s.at i (take_step (s.at i) s.kernel).0;
      })
  -- Something else that runs writes to memory, save_context for one, but to no link of the queue.
  elsewhere :
      (m : Bytes)
      → SameLinks s.kernel.bytes m queue
      → Step queue s [] (record s { kernel = with_bytes (λ _. m) s.kernel })

-- Steps in any order, with the tasks that they take, first one first.
pub data Runs (queue : List Ptr) (s : System) : List Ptr → System → Type 0 where
  here : Runs queue s [] s
  then_step :
      {ts us : List Ptr} {s₁ s₂ : System}
      → Runs queue s ts s₁
      → Step queue s₁ us s₂
      → Runs queue s (ts ++ us) s₂

pub put-at : (f : ℕ → Phase) (i : ℕ) (x : Phase) → replace f i x i ≡ x
put-at f i x = ground arith

pub put-other : (f : ℕ → Phase) (i j : ℕ) (x : Phase) → i ≢ j → replace f i x j ≡ f j
put-other f i j x ne = ground arith

module _ (queue : List Ptr) where
  -- What is left of the queue.
  abbrev pub Remaining : (taken : List Ptr) → Kernel → Type 0
  Remaining taken k = (rest : List Ptr) × (queue ≡ taken ++ rest) × Chain k.bytes k.tasks rest

  -- The task t is the first one left.
  abbrev pub Foremost : (taken : List Ptr) → Ptr → Kernel → Type 0
  Foremost taken t k =
      (rest : List Ptr) × (queue ≡ taken ++ t ∷ rest) × Chain k.bytes k.tasks (t ∷ rest)

  -- What the processor with the lock may rely on.
  abbrev pub Sees : (taken : List Ptr) → Kernel → Phase → Type 0
  Sees taken k seeking = Remaining taken k
  Sees taken k testing = Remaining taken k
  Sees taken k leaving = Remaining taken k
  Sees taken k loading = (t : Ptr) × Foremost taken t k
  Sees taken k (following t) = Foremost taken t k
  Sees taken k (storing t next) = Foremost taken t k × (next ≡ load64 k.bytes (Task.next t))
  Sees taken k (releasing t) =
      (rest : List Ptr) × (queue ≡ taken ++ t ∷ rest) × Chain k.bytes k.tasks rest
  Sees taken k (serving t) = Remaining taken k

  -- The lock is open, or exactly one processor has it.
  pub data Owner (taken : List Ptr) (k : Kernel) (at : ℕ → Phase) : Type 0 where
    open_lock :
        k.task_lock ≡ 0 → ((j : ℕ) → holds (at j) ≡ false) → Remaining taken k → Owner taken k at
    held_by :
        (i : ℕ)
        → k.task_lock ≡ 1
        → holds (at i) ≡ true
        → ((j : ℕ) → i ≢ j → holds (at j) ≡ false)
        → Sees taken k (at i)
        → Owner taken k at

  no_way : ¬ false ≡ true
  no_way e = cc

  module _ (taken : List Ptr) (k : Kernel) (at : ℕ → Phase) (i : ℕ) where
    -- A processor that holds the lock is its owner.
    pub lock_holder :
        Owner taken k at
        → holds (at i) ≡ true
        → (k.task_lock ≡ 1) × ((j : ℕ) → i ≢ j → holds (at j) ≡ false) × Sees taken k (at i)
    lock_holder (open_lock free none_holds left) h = absurd (no_way (sym (none_holds i) ∙ h))
    lock_holder (held_by o locked holds_o others sees) h = elim (ℕ_discrete o i) [
      | yes same ↦
          subst
            (λ n.
              (k.task_lock ≡ 1) × ((j : ℕ) → n ≢ j → holds (at j) ≡ false) × Sees taken k (at n))
            same (locked, others, sees)
      | no other ↦ absurd (no_way (sym (others i other) ∙ h))
    ]

    -- It goes on and keeps the lock.
    keeps :
        (k' : Kernel) (x : Phase)
        → k'.task_lock ≡ 1
        → holds x ≡ true
        → ((j : ℕ) → i ≢ j → holds (at j) ≡ false)
        → Sees taken k' x
        → Owner taken k' (replace at i x)
    keeps k' x locked holds_x others sees =
        held_by i locked (rw (put-at at i x) holds_x)
          (λ j ne. rw (put-other at i j x ne) (others j ne)) (rw (put-at at i x) sees)

    -- It opens the lock.
    opens :
        (taken' : List Ptr) (k' : Kernel) (x : Phase)
        → k'.task_lock ≡ 0
        → holds x ≡ false
        → ((j : ℕ) → i ≢ j → holds (at j) ≡ false)
        → Remaining taken' k'
        → Owner taken' k' (replace at i x)
    opens taken' k' x free holds_x others left = open_lock free (λ j. none_holds j) left
      where
        none_holds : (j : ℕ) → holds (replace at i x j) ≡ false
        none_holds j = elim (ℕ_discrete i j) [
          | yes same ↦
              subst (λ n. holds (replace at i x n) ≡ false) same (rw (put-at at i x) holds_x)
          | no other ↦ rw (put-other at i j x other) (others j other)
        ]

    -- It is at the loops, and does not get the lock.
    waits :
        (x : Phase)
        → holds (at i) ≡ false
        → holds x ≡ false
        → Owner taken k at
        → Owner taken k (replace at i x)
    waits x no_hold holds_x (open_lock free none_holds left) =
        opens taken k x free holds_x (λ j ne. none_holds j) left
    waits x no_hold holds_x (held_by o locked holds_o others sees) = elim (ℕ_discrete i o) [
      | yes same ↦ absurd (no_way (sym no_hold ∙ ap (λ n. holds (at n)) same ∙ holds_o))
      | no other ↦
          held_by o locked (rw (put-other at i o x other) holds_o) (λ j ne. left_out j ne)
            (rw (put-other at i o x other) sees)
    ]
      where
        left_out : (j : ℕ) → o ≢ j → holds (replace at i x j) ≡ false
        left_out j ne = elim (ℕ_discrete i j) [
          | yes same ↦
              subst (λ n. holds (replace at i x n) ≡ false) same (rw (put-at at i x) holds_x)
          | no other ↦ rw (put-other at i j x other) (others j ne)
        ]

  first_left : (taken : List Ptr) (t : Ptr) (k : Kernel) → Foremost taken t k → Remaining taken k
  first_left taken t k (rest, order, chain) = (t ∷ rest, order, chain)

  -- At the test of the queue: it is empty, or has a first task.
  tested :
      (taken : List Ptr) (k : Kernel)
      → Remaining taken k
      → ((k.tasks == null) ≡ true) ⊎ (((k.tasks == null) ≡ false) × (t : Ptr) × Foremost taken t k)
  tested taken k ([], order, chain) = inl (rw chain refl)
  tested taken k (t ∷ rest, order, chain) =
      inr (null_no k.tasks (omega (arith, chain.0, chain.1.not_null)), t, (rest, order, chain))

  not_open : (l : ℕ) → l ≡ 1 → (l == 0) ≡ false
  not_open l e = ground arith

  move-Owner :
      (taken : List Ptr) (k : Kernel) (at : ℕ → Phase) (i : ℕ) (x : Phase)
      → at i ≡ x
      → Owner taken k at
      → Owner (taken ++ takes x) (take_step x k).1 (replace at i (take_step x k).0)
  move-Owner taken k at i seeking e owner = rw append-nil (tries owner)
    where
      tries :
          Owner taken k at
          → Owner taken (take_step seeking k).1 (replace at i (take_step seeking k).0)
      tries (open_lock free none_holds left) = rw free (
          keeps taken k at i (record k { task_lock = 1 }) testing refl refl (λ j ne. none_holds j)
            left)
      tries (held_by o locked holds_o others sees) =
          rw (not_open k.task_lock locked)
            (waits taken k at i seeking (ap holds e) refl (held_by o locked holds_o others sees))
  move-Owner taken k at i testing e owner =
      let (locked, others, sees) = lock_holder taken k at i owner (ap holds e) in
      let left : Remaining taken k = subst (Sees taken k) e sees in
      rw append-nil (elim (tested taken k left) [
        | inl empty ↦ rw empty (keeps taken k at i k leaving locked refl others left)
        | inr (some_task, t, first) ↦
            rw some_task (keeps taken k at i k loading locked refl others (t, first))
      ])
  move-Owner taken k at i leaving e owner =
      let (locked, others, sees) = lock_holder taken k at i owner (ap holds e) in
      rw append-nil (
        opens taken k at i taken (record k { task_lock = 0 }) seeking refl refl others
          (subst (Sees taken k) e sees))
  move-Owner taken k at i loading e owner =
      let (locked, others, sees) = lock_holder taken k at i owner (ap holds e) in
      let (t, first) : (t : Ptr) × Foremost taken t k = subst (Sees taken k) e sees in
      rw append-nil (
        keeps taken k at i k (following k.tasks) locked refl others
          (subst (λ u. Foremost taken u k) (sym first.2.0) first))
  move-Owner taken k at i (following t) e owner =
      let (locked, others, sees) = lock_holder taken k at i owner (ap holds e) in
      let first : Foremost taken t k = subst (Sees taken k) e sees in
      rw append-nil (
        keeps taken k at i k (storing t (load64 k.bytes (Task.next k.tasks))) locked refl others
          (first, ap (λ p. load64 k.bytes (Task.next p)) first.2.0))
  move-Owner taken k at i (storing t next) e owner =
      let (locked, others, sees) = lock_holder taken k at i owner (ap holds e) in
      let ((rest, order, chain), same) : Foremost taken t k
          × (next ≡ load64 k.bytes (Task.next t)) =
        subst (Sees taken k) e sees in
      rw append-nil (
        keeps taken k at i (record k { tasks = next }) (releasing t) locked refl others
          (rest, order, rw same chain.2))
  move-Owner taken k at i (releasing t) e owner =
      let (locked, others, sees) = lock_holder taken k at i owner (ap holds e) in
      let (rest, order, chain) : (rest : List Ptr) × (queue ≡ taken ++ t ∷ rest)
          × Chain k.bytes k.tasks rest =
        subst (Sees taken k) e sees in
      opens taken k at i (taken ++ t ∷ []) (record k { task_lock = 0 }) (serving t) refl refl others
        (rest, order ∙ sym (append_assoc taken (t ∷ []) rest), chain)
  move-Owner taken k at i (serving t) e owner =
      rw append-nil (waits taken k at i seeking (ap holds e) refl owner)

  -- Where the links of the queue are the same, those of its end are.
  links_left :
      (m m' : Bytes) (taken rest : List Ptr) → SameLinks m m' (taken ++ rest) → SameLinks m m' rest
  links_left m m' [] rest same = same
  links_left m m' (t ∷ taken) rest same = links_left m m' taken rest same.1

  links-Chain :
      (m m' : Bytes) (p : Ptr) (ts : List Ptr) → SameLinks m m' ts → Chain m p ts → Chain m' p ts
  links-Chain m m' p [] same chain = chain
  links-Chain m m' p (t ∷ ts) same chain =
      (chain.0, chain.1, rw same.0 (links-Chain m m' (load64 m (Task.next t)) ts same.1 chain.2))

  module _ (taken : List Ptr) (k : Kernel) (m : Bytes) (same : SameLinks k.bytes m queue) where
    abbrev k' : Kernel
    k' = with_bytes (λ _. m) k

    still : (rest : List Ptr) → queue ≡ taken ++ rest → SameLinks k.bytes m rest
    still rest order = links_left k.bytes m taken rest (subst (SameLinks k.bytes m) order same)

    elsewhere-Remaining : Remaining taken k → Remaining taken k'
    elsewhere-Remaining (rest, order, chain) =
        (rest, order, links-Chain k.bytes m k.tasks rest (still rest order) chain)

    elsewhere-Foremost : (t : Ptr) → Foremost taken t k → Foremost taken t k'
    elsewhere-Foremost t (rest, order, chain) =
        (rest, order, links-Chain k.bytes m k.tasks (t ∷ rest) (still (t ∷ rest) order) chain)

    elsewhere-Sees : (x : Phase) → Sees taken k x → Sees taken k' x
    elsewhere-Sees seeking sees = elsewhere-Remaining sees
    elsewhere-Sees testing sees = elsewhere-Remaining sees
    elsewhere-Sees leaving sees = elsewhere-Remaining sees
    elsewhere-Sees loading (t, first) = (t, elsewhere-Foremost t first)
    elsewhere-Sees (following t) sees = elsewhere-Foremost t sees
    elsewhere-Sees (storing t next) ((rest, order, chain), e) =
        (elsewhere-Foremost t (rest, order, chain), e ∙ sym (still (t ∷ rest) order).0)
    elsewhere-Sees (releasing t) (rest, order, chain) =
        (rest, order, links-Chain k.bytes m k.tasks rest (still (t ∷ rest) order).1 chain)
    elsewhere-Sees (serving t) sees = elsewhere-Remaining sees

    elsewhere-Owner : (at : ℕ → Phase) → Owner taken k at → Owner taken k' at
    elsewhere-Owner at (open_lock free none_holds left) =
        open_lock free none_holds (elsewhere-Remaining left)
    elsewhere-Owner at (held_by o locked holds_o others sees) =
        held_by o locked holds_o others (elsewhere-Sees (at o) sees)

  pub Step-Owner :
      (taken us : List Ptr) (s s' : System)
      → Step queue s us s'
      → Owner taken s.kernel s.at
      → Owner (taken ++ us) s'.kernel s'.at
  Step-Owner taken us s s' (moves i) owner = move-Owner taken s.kernel s.at i (s.at i) refl owner
  Step-Owner taken us s s' (elsewhere m same) owner =
      rw append-nil (elsewhere-Owner taken s.kernel m same s.at owner)
