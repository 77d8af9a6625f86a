-- ===== src/Heap/Merge.antt =====
-- The last loop of kfree (src/kernel.c): from one free node on, nodes with exactly a size word between
-- them become one.
use side_h_os.Base.{
  ℕ, zero, suc, ◌+◌, ◌≤◌, ◌<◌, ◌≡◌, refl, inl, inr, some, List, [], ◌∷◌, arith, ap, ◌∙◌, sym, ◌==◌,
  if◌then◌else◌, true, false, Bool-cases, ==_iff, length,
}
use side_h_os.Base.Word.{add64, u64_mod}
use side_h_os.Bytes.{Bytes, load64, store64}
use side_h_os.Bytes.Words.{Outside, load64-store64, load64-past, load64-agree, store64-Outside}
use side_h_os.Kernel.{null_no, Ptr, null}
use side_h_os.Kernel.Node
use side_h_os.Heap.{end_of_cursor, merge_next, merge_loop}
use side_h_os.Heap.Nodes.{
  Cell, Layout, Linked, Points, Layout-le, Layout-weaken, Linked-Points, Points-Linked,
  Points-Agree, Points-lt,
}

-- The nodes from (a, l) on, once those with 8 bytes between them have become one.
abbrev pub merge_from : (a l : ℕ) → List Cell → List Cell
merge_from a l [] = (a, l) ∷ []
merge_from a l ((b, k) ∷ xs) =
    if a + 16 + l + 8 == b then merge_from a (l + 16 + k) xs else (a, l) ∷ merge_from b k xs

-- The address q is not in the header of a node.
abbrev pub OffHeaders : ℕ → List Cell → Type 0
OffHeaders q [] = Unit {0}
OffHeaders q ((a, l) ∷ xs) = Outside a 16 q × OffHeaders q xs

pub OffHeaders-below : (q lo hi : ℕ) (xs : List Cell) → Layout lo hi xs → q < lo → OffHeaders q xs
OffHeaders-below q lo hi [] lay low = tt
OffHeaders-below q lo hi ((a, l) ∷ xs) lay low =
    (omega arith, OffHeaders-below q (a + 16 + l) hi xs lay.1 (omega arith))

pub merge_from-Layout :
    (lo hi a l : ℕ) (xs : List Cell)
    → lo ≤ a
    → Layout (a + 16 + l) hi xs
    → Layout lo hi (merge_from a l xs)
merge_from-Layout lo hi a l [] low lay = (low, lay)
merge_from-Layout lo hi a l ((b, k) ∷ xs) low lay = elim (Bool-cases (a + 16 + l + 8 == b)) [
  | inl near ↦
      let e : a + 16 + l + 8 ≡ b = (==_iff _ _).0 near in
      rw near (
        merge_from-Layout lo hi a (l + 16 + k) xs low (
          Layout-weaken (b + 16 + k) (a + 16 + (l + 16 + k)) hi hi xs (omega arith) (omega arith)
            lay.1))
  | inr far ↦ rw far (low, merge_from-Layout (a + 16 + l) hi b k xs lay.0 lay.1)
]

-- Memory once the two nodes (a, l) and (b, k) are one.
abbrev merged : Bytes → (a l b k : ℕ) → Bytes
merged m a l b k =
    store64 (store64 (store64 m a (l + 16)) a (l + 16 + k)) (Node.next a) (load64 m (Node.next b))

-- The two nodes (a, l) and (b, k) become one.
module _ (m : Bytes) (a l b k hi : ℕ) (xs : List Cell) (length_a : load64 m a ≡ l)
    (next_a : load64 m (Node.next a) ≡ b) (length_b : load64 m b ≡ k)
    (rest : Linked m (Node.next b) xs) (near : a + 16 + l + 8 ≡ b) (lay : Layout (b + 16 + k) hi xs)
    (top : hi ≤ u64_mod) where
  below : b + 16 + k ≤ hi
  below = Layout-le (b + 16 + k) hi xs lay

  abbrev m₁ : Bytes
  m₁ = store64 m a (l + 16)

  abbrev m₂ : Bytes
  m₂ = store64 m₁ a (l + 16 + k)

  abbrev m₃ : Bytes
  m₃ = merged m a l b k

  merge_next-eq : merge_next a m ≡ m₃
  merge_next-eq =
      let sum : add64 l 16 ≡ l + 16 = omega (arith, below) in
      let written : load64 m₁ a ≡ l + 16 = load64-store64 m a (l + 16) (omega (arith, below)) in
      let length_next : load64 m₁ b ≡ k = load64-past m a b (l + 16) (omega arith) length_b in
      let total : add64 (l + 16) k ≡ l + 16 + k = omega (arith, below) in
      let last : load64 m₂ (Node.next b) ≡ load64 m (Node.next b) =
        load64-past m₁ a (Node.next b) (l + 16 + k) (omega (arith, below))
          (load64-past m a (Node.next b) (l + 16) (omega (arith, below)) refl) in
      rw (length_a, next_a, sum, written, length_next, total, last) refl

  merged-length : load64 m₃ a ≡ l + 16 + k
  merged-length =
      load64-past m₂ (Node.next a) a _ (omega (arith, below))
        (load64-store64 m₁ a (l + 16 + k) (omega (arith, below)))

  merged-others : (q : ℕ) → Outside a 16 q → m₃ q ≡ m q
  merged-others q out =
      store64-Outside m₂ (Node.next a) _ q (omega (arith, below))
      ∙ store64-Outside m₁ a _ q (omega arith)
      ∙ store64-Outside m a _ q (omega arith)

  merged-Linked : Linked m₃ (Node.next a) xs
  merged-Linked =
      let points = Linked-Points m (Node.next b) xs rest in
      Points-Linked m₃ (Node.next a) (load64 m (Node.next b)) xs
        (load64-store64 m₂ (Node.next a) _ (Points-lt m _ (b + 16 + k) hi xs points lay top))
        (Points-Agree m m₃ (load64 m (Node.next b)) (b + 16 + k) hi xs points lay top
          (λ q u v. sym (merged-others q (omega arith))))

-- What the loop leaves: the nodes from a on, merged, and memory outside the headers of the old ones.
pub record Merged (m : Bytes) (a l : ℕ) (xs : List Cell) (m' : Bytes) : Type 0 where
  pub points : Points m' a (merge_from a l xs)
  pub others : (q : ℕ) → OffHeaders q ((a, l) ∷ xs) → m' q ≡ m q

-- One round, with a node behind the cursor.
merge_loop-near :
    (f : ℕ) (m : Bytes) (a b : Ptr)
    → 0 < a
    → 0 < b
    → load64 m (Node.next a) ≡ b
    → (end_of_cursor m a == b) ≡ true
    → merge_loop (suc f) a m ≡ merge_loop f a (merge_next a m)
unfolding merge_loop
merge_loop-near f m a b pos_a pos_b next near =
    let near' : (end_of_cursor m a == load64 m (Node.next a)) ≡ true = rw next near in
    let not_null : (load64 m (Node.next a) == null) ≡ false = rw next (null_no b pos_b) in
    rw (null_no a pos_a, not_null, near') refl

merge_loop-far :
    (f : ℕ) (m : Bytes) (a b : Ptr)
    → 0 < a
    → 0 < b
    → load64 m (Node.next a) ≡ b
    → (end_of_cursor m a == b) ≡ false
    → merge_loop (suc f) a m ≡ merge_loop f b m
unfolding merge_loop
merge_loop-far f m a b pos_a pos_b next far =
    let far' : (end_of_cursor m a == load64 m (Node.next a)) ≡ false = rw next far in
    let not_null : (load64 m (Node.next a) == null) ≡ false = rw next (null_no b pos_b) in
    rw (null_no a pos_a, not_null, far') (ap (λ p. merge_loop f p m) next)

pub merge_loop-Merged :
    (f a l hi : ℕ) (xs : List Cell) (m : Bytes)
    → load64 m a ≡ l
    → Linked m (Node.next a) xs
    → Layout (a + 16 + l) hi xs
    → 0 < a
    → hi ≤ u64_mod
    → length xs < f
    → (m' : Bytes) × (merge_loop f a m ≡ some m') × Merged m a l xs m'
unfolding merge_loop
merge_loop-Merged zero a l hi xs m e link lay pos top fuel = elim fuel [ ]
merge_loop-Merged (suc f) a l hi [] m e link lay pos top fuel =
    (m, rw (null_no a pos, link) refl, record { points = (refl, e, link); others = λ q off. refl })
merge_loop-Merged (suc f) a l hi ((b, k) ∷ xs) m e link lay pos top fuel =
    let under = Layout-le (b + 16 + k) hi xs lay.1 in
    let end_eq : end_of_cursor m a ≡ a + 16 + l + 8 = rw e (omega arith) in
    elim (Bool-cases (a + 16 + l + 8 == b)) [
      | inl near ↦
          let at : a + 16 + l + 8 ≡ b = (==_iff _ _).0 near in
          let low : hi ≤ u64_mod = omega arith in
          let m₁ = merged m a l b k in
          let step : merge_next a m ≡ m₁ =
            merge_next-eq m a l b k hi xs e link.0 link.1 link.2 at lay.1 low in
          let (m', run, rest) =
            merge_loop-Merged f a (l + 16 + k) hi xs m₁
              (merged-length m a l b k hi xs e link.0 link.1 link.2 at lay.1 low)
              (merged-Linked m a l b k hi xs e link.0 link.1 link.2 at lay.1 low)
              (Layout-weaken (b + 16 + k) (a + 16 + (l + 16 + k)) hi hi xs (omega arith)
                (omega arith) lay.1)
              pos top (omega arith) in
          (
            m',
            merge_loop-near f m a b pos (omega arith) link.0 (ap (λ (v : ℕ). v == b) end_eq ∙ near)
                ∙ ap (λ m. merge_loop f a m) step
                ∙ run,
            record {
              points = rw near rest.points;
              others = λ q off.
                  rest.others q (off.0, off.1.1)
                  ∙ merged-others m a l b k hi xs e link.0 link.1 link.2 at lay.1 low q off.0;
            },
          )
      | inr far ↦
          let (m', run, rest) =
            merge_loop-Merged f b k hi xs m link.1 link.2 lay.1 (omega arith) top (omega arith) in
          let before : (q : ℕ) → q < b → m' q ≡ m q = λ q h.
            rest.others q
              (omega arith, OffHeaders-below q (b + 16 + k) hi xs lay.1 (omega arith)) in
          (
            m',
            merge_loop-far f m a b pos (omega arith) link.0 (ap (λ (v : ℕ). v == b) end_eq ∙ far)
                ∙ run,
            record {
              points = rw far (
                refl,
                load64-agree m' m a (λ q u v. before q (omega arith)) ∙ e,
                Points-Linked m' (Node.next a) b (merge_from b k xs)
                    (load64-agree m' m (Node.next a) (λ q u v. before q (omega arith)) ∙ link.0)
                    rest.points,
              );
              others = λ q off. rest.others q off.1;
            },
          )
    ]
