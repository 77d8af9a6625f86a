-- ===== src/Tasks/Links.antt =====
-- The links of the queue of tasks (struct Task of src/kernel.h): which bytes they are, and which changes
-- of memory spare them.
use side_h_os.Base.{inl, inr, ℕ, ◌+◌, ◌≤◌, ◌<◌, ◌≡◌, ◌⊎◌, List, [], ◌∷◌, arith}
use side_h_os.Base.Word.{u64_mod}
use side_h_os.Bytes.{Bytes, load64, store64}
use side_h_os.Bytes.Words.{Outside, Outside-cases, load64-agree, store64-Outside}
use side_h_os.Kernel.{Ptr, null}
use side_h_os.Tasks.Task

-- The 176 bytes of a task lie in the address space, and not at NULL.
pub record IsTask (t : Ptr) : Type 0 where
  pub not_null : 0 < t
  pub fits : t + 176 ≤ u64_mod

-- The n bytes from a are not those of a task of the list.
abbrev pub Away : (a n : ℕ) → List Ptr → Type 0
Away a n [] = Unit {0}
Away a n (t ∷ ts) = ((a + n ≤ t) ⊎ (t + 176 ≤ a)) × Away a n ts

-- No two tasks of the list overlap.
abbrev pub AllAway : List Ptr → Type 0
AllAway [] = Unit {0}
AllAway (t ∷ ts) = Away t 176 ts × AllAway ts

-- The pointer p leads to the first task, and each task to the next.
abbrev pub Chain : Bytes → (p : Ptr) → List Ptr → Type 0
Chain m p [] = p ≡ null
Chain m p (t ∷ ts) = (p ≡ t) × IsTask t × Chain m (load64 m (Task.next t)) ts

-- All bytes of the tasks have the property P.
abbrev pub Covers : (P : ℕ → Type 0) → List Ptr → Type 0
Covers P [] = Unit {0}
Covers P (t ∷ ts) = ((q : ℕ) → t ≤ q → q < t + 176 → P q) × Covers P ts

-- A change that spares the bytes of the tasks spares the queue.
pub Chain-agree :
    (P : ℕ → Type 0) (m m' : Bytes)
    → ((q : ℕ) → P q → m' q ≡ m q)
    → (p : Ptr) (ts : List Ptr) → Chain m p ts
    → Covers P ts
    → Chain m' p ts
Chain-agree P m m' same p [] h covers = h
Chain-agree P m m' same p (t ∷ ts) h covers =
    let next =
      load64-agree m' m (Task.next t)
        (λ q lo hi. same q (covers.0 q (omega (arith, h.1.fits)) (omega (arith, h.1.fits)))) in
    (h.0, h.1, rw next (Chain-agree P m m' same (load64 m (Task.next t)) ts h.2 covers.1))

-- A change of the n bytes from a and the l bytes from b, where no task is, spares the queue.
pub Chain-spared :
    (m m' : Bytes) (a n b l : ℕ)
    → ((q : ℕ) → Outside a n q → Outside b l q → m' q ≡ m q)
    → (p : Ptr) (ts : List Ptr) → Chain m p ts
    → Away a n ts
    → Away b l ts
    → Chain m' p ts
Chain-spared m m' a n b l same p ts h far away =
    Chain-agree (λ q. Outside a n q × Outside b l q) m m' (λ q out. same q out.0 out.1) p ts h
      (Covers-Away ts far away)
  where
    Covers-Away :
        (ts : List Ptr) → Away a n ts → Away b l ts → Covers (λ q. Outside a n q × Outside b l q) ts
    Covers-Away [] far away = tt
    Covers-Away (t ∷ ts) far away =
        (λ q lo hi. (omega (arith, far.0), omega (arith, away.0)), Covers-Away ts far.1 away.1)

pub Chain-store :
    (m : Bytes) (a v p : ℕ) (ts : List Ptr)
    → Chain m p ts
    → Away a 8 ts
    → Chain (store64 m a v) p ts
Chain-store m a v p ts h far =
    Chain-spared m (store64 m a v) a 8 a 8 (λ q out _. store64-Outside m a v q out) p ts h far far

pub Away-part : (a n b l : ℕ) (ts : List Ptr) → Away a n ts → a ≤ b → b + l ≤ a + n → Away b l ts
Away-part a n b l [] h lo hi = tt
Away-part a n b l (t ∷ ts) h lo hi = (omega (arith, h.0), Away-part a n b l ts h.1 lo hi)

-- The address q is not one of the 8 bytes of a task that lead to the next.
abbrev pub OffLinks : ℕ → List Ptr → Type 0
OffLinks q [] = Unit {0}
OffLinks q (t ∷ ts) = Outside (Task.next t) 8 q × OffLinks q ts

abbrev pub last_of : Ptr → List Ptr → Ptr
last_of t [] = t
last_of t (u ∷ ts) = last_of u ts

pub OffLinks-last :
    (q : ℕ) (t : Ptr) (ts : List Ptr) → OffLinks q (t ∷ ts) → Outside (Task.next (last_of t ts)) 8 q
OffLinks-last q t [] h = h.0
OffLinks-last q t (u ∷ ts) h = OffLinks-last q u ts h.1

-- A byte that no task has is no byte of a link.
pub OffLinks-Away :
    (m : Bytes) (p : Ptr) (a n q : ℕ) (ts : List Ptr)
    → Chain m p ts
    → Away a n ts
    → a ≤ q
    → q < a + n
    → OffLinks q ts
OffLinks-Away m p a n q [] h far lo hi = tt
OffLinks-Away m p a n q (t ∷ ts) h far lo hi = (
  omega (arith, far.0, h.1.fits),
  OffLinks-Away m (load64 m (Task.next t)) a n q ts h.2 far.1 lo hi,
)

-- A byte that is no task's is no byte of a link.
pub OffLinks-Covers :
    (P : ℕ → Type 0) (m : Bytes) (p q : ℕ) (ts : List Ptr)
    → Chain m p ts
    → Covers P ts
    → ¬ P q
    → OffLinks q ts
OffLinks-Covers P m p q [] h covers out = tt
OffLinks-Covers P m p q (t ∷ ts) h covers out = (
  elim (Outside-cases (Task.next t) 8 q) [
    | inl off ↦ off
    | inr (lo, hi) ↦ absurd (out (covers.0 q (omega (arith, h.1.fits)) (omega (arith, h.1.fits))))
  ],
  OffLinks-Covers P m (load64 m (Task.next t)) q ts h.2 covers.1 out,
)
