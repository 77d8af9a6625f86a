-- ===== src/Heap/Nodes.antt =====
-- The list of free nodes of a page (src/kernel.c): where the nodes lie, and how the words of memory
-- lead from one to the next.
use side_h_os.Base.{ℕ, ◌+◌, ◌≤◌, ◌<◌, ◌≡◌, ◌⊎◌, List, [], ◌∷◌, ◌++◌, arith, ◌∙◌, sym}
use side_h_os.Base.Word.{u64_mod}
use side_h_os.Bytes.{Bytes, load64, store64}
use side_h_os.Bytes.Words.{load64-agree, load64-store64-Apart}
use side_h_os.Kernel.Node

-- The address and the length of a free node.
abbrev pub Cell : Type 0
Cell = ℕ × ℕ

-- The nodes lie in [lo, hi), in order of address, and no two overlap.
abbrev pub Layout : (lo hi : ℕ) → List Cell → Type 0
Layout lo hi [] = lo ≤ hi
Layout lo hi ((a, l) ∷ xs) = (lo ≤ a) × Layout (a + 16 + l) hi xs

-- The word at s leads to the first node, and each node to the next; the last word is NULL.
abbrev pub Linked : Bytes → (s : ℕ) → List Cell → Type 0
Linked m s [] = load64 m s ≡ 0
Linked m s ((a, l) ∷ xs) =
    (load64 m s ≡ a) × (load64 m (Node.length a) ≡ l) × Linked m (Node.next a) xs

-- The same without the word behind the last node.
abbrev pub Thread : Bytes → (s : ℕ) → List Cell → Type 0
Thread m s [] = Unit {0}
Thread m s ((a, l) ∷ xs) =
    (load64 m s ≡ a) × (load64 m (Node.length a) ≡ l) × Thread m (Node.next a) xs

-- The address of the word behind the last node.
abbrev pub end_slot : ℕ → List Cell → ℕ
end_slot s [] = s
end_slot s ((a, l) ∷ xs) = end_slot (Node.next a) xs

-- Two memories agree on [u, v).
abbrev pub Agree : Bytes → Bytes → (u v : ℕ) → Type 0
Agree m m' u v = (q : ℕ) → u ≤ q → q < v → m q ≡ m' q

pub Layout-le : (lo hi : ℕ) (xs : List Cell) → Layout lo hi xs → lo ≤ hi
Layout-le lo hi [] h = h
Layout-le lo hi ((a, l) ∷ xs) h = omega (arith, Layout-le (a + 16 + l) hi xs h.1)

-- A layout splits at a node.
pub Layout-split :
    (lo hi : ℕ) (xs : List Cell) (a l : ℕ) (ys : List Cell)
    → Layout lo hi (xs ++ (a, l) ∷ ys)
    → Layout lo a xs × Layout (a + 16 + l) hi ys
Layout-split lo hi [] a l ys h = h
Layout-split lo hi ((b, k) ∷ xs) a l ys h =
    let (low, high) = Layout-split (b + 16 + k) hi xs a l ys h.1 in ((h.0, low), high)

pub Layout-join :
    (lo mid hi : ℕ) (xs ys : List Cell)
    → Layout lo mid xs
    → Layout mid hi ys
    → Layout lo hi (xs ++ ys)
Layout-join lo mid hi [] [] h t = omega arith
Layout-join lo mid hi [] ((a, l) ∷ ys) h t = (omega arith, t.1)
Layout-join lo mid hi ((b, k) ∷ xs) ys h t = (h.0, Layout-join (b + 16 + k) mid hi xs ys h.1 t)

-- More room on both sides.
pub Layout-weaken :
    (lo lo' hi hi' : ℕ) (xs : List Cell) → lo' ≤ lo → hi ≤ hi' → Layout lo hi xs → Layout lo' hi' xs
Layout-weaken lo lo' hi hi' [] p q h = omega arith
Layout-weaken lo lo' hi hi' ((a, l) ∷ xs) p q h =
    (omega arith, Layout-weaken (a + 16 + l) (a + 16 + l) hi hi' xs (omega arith) q h.1)

pub Linked-split :
    (m : Bytes) (s : ℕ) (xs ys : List Cell)
    → Linked m s (xs ++ ys)
    → Thread m s xs × Linked m (end_slot s xs) ys
Linked-split m s [] ys h = (tt, h)
Linked-split m s ((a, l) ∷ xs) ys h =
    let (t, e) = Linked-split m (Node.next a) xs ys h.2 in ((h.0, h.1, t), e)

pub Linked-join :
    (m : Bytes) (s : ℕ) (xs ys : List Cell)
    → Thread m s xs
    → Linked m (end_slot s xs) ys
    → Linked m s (xs ++ ys)
Linked-join m s [] ys t h = h
Linked-join m s ((a, l) ∷ xs) ys t h = (t.0, t.1, Linked-join m (Node.next a) xs ys t.2 h)

module _ (m m' : Bytes) where
  pub load64-Agree : (u v a : ℕ) → Agree m m' u v → u ≤ a → a + 8 ≤ v → load64 m' a ≡ load64 m a
  load64-Agree u v a same lo hi =
      sym (load64-agree m m' a (λ q l h. same q (omega arith) (omega arith)))

  -- The list survives a change that spares its first word and the room of its nodes.
  pub Linked-Agree :
      (s lo hi : ℕ) (xs : List Cell)
      → Linked m s xs
      → Layout lo hi xs
      → hi ≤ u64_mod
      → load64 m' s ≡ load64 m s
      → Agree m m' lo hi
      → Linked m' s xs
  Linked-Agree s lo hi [] h lay top first same = first ∙ h
  Linked-Agree s lo hi ((a, l) ∷ xs) h lay top first same =
      let below = Layout-le (a + 16 + l) hi xs lay.1 in
      (
        first ∙ h.0,
        load64-Agree lo hi a same lay.0 (omega arith) ∙ h.1,
        Linked-Agree (Node.next a) (a + 16 + l) hi xs h.2 lay.1 top
            (load64-Agree lo hi (Node.next a) same (omega arith) (omega arith))
            (λ q u v. same q (omega arith) v),
      )

  pub Thread-Agree :
      (s lo hi : ℕ) (xs : List Cell)
      → Thread m s xs
      → Layout lo hi xs
      → hi ≤ u64_mod
      → load64 m' s ≡ load64 m s
      → Agree m m' lo hi
      → Thread m' s xs
  Thread-Agree s lo hi [] h lay top first same = tt
  Thread-Agree s lo hi ((a, l) ∷ xs) h lay top first same =
      let below = Layout-le (a + 16 + l) hi xs lay.1 in
      (
        first ∙ h.0,
        load64-Agree lo hi a same lay.0 (omega arith) ∙ h.1,
        Thread-Agree (Node.next a) (a + 16 + l) hi xs h.2 lay.1 top
            (load64-Agree lo hi (Node.next a) same (omega arith) (omega arith))
            (λ q u v. same q (omega arith) v),
      )

-- The last word lies at or behind the first, and in front of what follows the nodes.
pub end_slot_bounds :
    (s lo hi : ℕ) (xs : List Cell)
    → Layout lo hi xs
    → s + 8 ≤ lo
    → hi ≤ u64_mod
    → (s ≤ end_slot s xs) × (end_slot s xs + 8 ≤ hi)
end_slot_bounds s lo hi [] lay near top = (omega arith, omega arith)
end_slot_bounds s lo hi ((a, l) ∷ xs) lay near top =
    let below = Layout-le (a + 16 + l) hi xs lay.1 in
    let rest = end_slot_bounds (Node.next a) (a + 16 + l) hi xs lay.1 (omega arith) top in
    omega (arith, rest)

-- A store into the last word spares the way to it.
pub Thread-store :
    (m : Bytes) (s lo hi v : ℕ) (xs : List Cell)
    → Thread m s xs
    → Layout lo hi xs
    → s + 8 ≤ lo
    → hi ≤ u64_mod
    → Thread (store64 m (end_slot s xs) v) s xs
Thread-store m s lo hi v [] t lay near top = tt
Thread-store m s lo hi v ((a, l) ∷ xs) t lay near top =
    let below = Layout-le (a + 16 + l) hi xs lay.1 in
    let ahead = (end_slot_bounds (Node.next a) (a + 16 + l) hi xs lay.1 (omega arith) top).0 in
    (
      load64-store64-Apart m _ s v (omega arith) ∙ t.0,
      load64-store64-Apart m _ a v (omega arith) ∙ t.1,
      Thread-store m (Node.next a) (a + 16 + l) hi v xs t.2 lay.1 (omega arith) top,
    )

-- The pointer p leads to the first node, or is NULL.
abbrev pub Points : Bytes → (p : ℕ) → List Cell → Type 0
Points m p [] = p ≡ 0
Points m p ((a, l) ∷ xs) = (p ≡ a) × (load64 m (Node.length a) ≡ l) × Linked m (Node.next a) xs

pub Linked-Points : (m : Bytes) (s : ℕ) (xs : List Cell) → Linked m s xs → Points m (load64 m s) xs
Linked-Points m s [] h = h
Linked-Points m s ((a, l) ∷ xs) h = h

pub Points-Linked :
    (m : Bytes) (s p : ℕ) (xs : List Cell) → load64 m s ≡ p → Points m p xs → Linked m s xs
Points-Linked m s p [] e h = e ∙ h
Points-Linked m s p ((a, l) ∷ xs) e h = (e ∙ h.0, h.1, h.2)

pub Points-Agree :
    (m m' : Bytes) (p lo hi : ℕ) (xs : List Cell)
    → Points m p xs
    → Layout lo hi xs
    → hi ≤ u64_mod
    → Agree m m' lo hi
    → Points m' p xs
Points-Agree m m' p lo hi [] h lay top same = h
Points-Agree m m' p lo hi ((a, l) ∷ xs) h lay top same =
    let below = Layout-le (a + 16 + l) hi xs lay.1 in
    (
      h.0,
      load64-Agree m m' lo hi a same lay.0 (omega arith) ∙ h.1,
      Linked-Agree m m' (Node.next a) (a + 16 + l) hi xs h.2 lay.1 top
          (load64-Agree m m' lo hi (Node.next a) same (omega arith) (omega arith))
          (λ q u v. same q (omega arith) v),
    )

-- A pointer to nodes is a 64-bit word.
pub Points-lt :
    (m : Bytes) (p lo hi : ℕ) (xs : List Cell)
    → Points m p xs
    → Layout lo hi xs
    → hi ≤ u64_mod
    → p < u64_mod
Points-lt m p lo hi [] h lay top = omega arith
Points-lt m p lo hi ((a, l) ∷ xs) h lay top = omega (arith, Layout-le (a + 16 + l) hi xs lay.1)

-- The address q lies in no node.
abbrev pub Clear : ℕ → List Cell → Type 0
Clear q [] = Unit {0}
Clear q ((a, l) ∷ xs) = ((q < a) ⊎ (a + 16 + l ≤ q)) × Clear q xs

pub Clear-split :
    (q : ℕ) (xs : List Cell) (a l : ℕ) (ys : List Cell)
    → Clear q (xs ++ (a, l) ∷ ys)
    → Clear q xs × ((q < a) ⊎ (a + 16 + l ≤ q))
Clear-split q [] a l ys h = (tt, h.0)
Clear-split q ((b, k) ∷ xs) a l ys h = let (t, c) = Clear-split q xs a l ys h.1 in ((h.0, t), c)

-- The last word lies in the first word or in a node.
pub end_slot-Clear :
    (q s lo hi : ℕ) (xs : List Cell)
    → Layout lo hi xs
    → hi ≤ u64_mod
    → Clear q xs
    → (q < s) ⊎ (s + 8 ≤ q)
    → (q < end_slot s xs) ⊎ (end_slot s xs + 8 ≤ q)
end_slot-Clear q s lo hi [] lay top clear off = off
end_slot-Clear q s lo hi ((a, l) ∷ xs) lay top clear off =
    let below = Layout-le (a + 16 + l) hi xs lay.1 in
    end_slot-Clear q (Node.next a) (a + 16 + l) hi xs lay.1 top clear.1 (omega arith)
