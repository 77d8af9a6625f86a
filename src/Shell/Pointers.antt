-- ===== src/Shell/Pointers.antt =====
-- The list of pointers of src/kernel.c as a stack.
use side_h_os.Base.{
  ℕ, zero, suc, ◌+◌, ◌-◌, ◌%◌, ◌≤◌, ◌<◌, ◌≡◌, refl, ◌⊎◌, inl, inr, List, [], ◌∷◌, arith, ap, sym,
  true, false, ◌==◌, Bool-cases, ==_iff,
}
use mathlib.Core.Path.{ap₂}
use side_h_os.Kernel.{Ptr, null, uint8_max, PointerList, replace}
use side_h_os.Shell.{pointer_push, pointer_pop}

-- The first n entries, the last one first.
abbrev pub entries_upto : (ℕ → Ptr) → ℕ → List Ptr
entries_upto f zero = []
entries_upto f (suc n) = f n ∷ entries_upto f n

-- The pointers that are kept, the one pushed last first.
abbrev pub contents : PointerList → List Ptr
contents l = entries_upto l.entries l.cursor

entries_upto-replace :
    (f : ℕ → Ptr) (n i : ℕ) (p : Ptr) → n ≤ i → entries_upto (replace f i p) n ≡ entries_upto f n
entries_upto-replace f zero i p h = refl
entries_upto-replace f (suc n) i p h =
    ap₂ ◌∷◌ (below f n i p h) (entries_upto-replace f n i p (omega arith))
  where
    below : (f : ℕ → Ptr) (n i : ℕ) (p : Ptr) → suc n ≤ i → replace f i p n ≡ f n
    below f n i p h = ground arith

replace-at : (f : ℕ → Ptr) (i : ℕ) (p : Ptr) → replace f i p i ≡ p
replace-at f i p = ground arith

-- pointer_push of a list of fewer than 255 pointers puts the pointer on top and returns true; a list of 255 pointers stays as it is, and it returns false.
pub pointer_push-contents :
    (l : PointerList) (p : Ptr)
    → l.cursor ≤ 255
    → ((l.cursor < 255)
        × ((pointer_push l p).0 ≡ true)
        × (contents (pointer_push l p).1 ≡ p ∷ contents l)
        × ((pointer_push l p).1.cursor ≤ 255))
      ⊎ ((l.cursor ≡ 255) × (pointer_push l p ≡ (false, l)))
unfolding pointer_push
pointer_push-contents l p h = elim (Bool-cases (l.cursor == uint8_max)) [
  | inl full ↦ inr ((==_iff _ _).0 full, rw full refl)
  | inr room ↦
      let below : l.cursor < 255 = ground (arith, room) in
      inl (
        below,
        rw room refl,
        rw (room, next l.cursor below)
            (ap₂ ◌∷◌ (replace-at l.entries l.cursor p)
              (entries_upto-replace l.entries l.cursor l.cursor p (omega arith))),
        rw (room, next l.cursor below) (omega arith),
      )
]
  where
    next : (c : ℕ) → c < 255 → (c + 1) % 256 ≡ suc c
    next c h = omega arith

-- pointer_pop takes the pointer on top; of an empty list it returns NULL and the list as it is.
pub pointer_pop-contents :
    (l : PointerList)
    → ((l.cursor ≡ 0) × (pointer_pop l ≡ (null, l)))
      ⊎ ((contents l ≡ (pointer_pop l).0 ∷ contents (pointer_pop l).1)
          × (suc (pointer_pop l).1.cursor ≡ l.cursor))
unfolding pointer_pop
pointer_pop-contents l = elim (Bool-cases (l.cursor == 0)) [
  | inl empty ↦ inl ((==_iff _ _).0 empty, rw empty refl)
  | inr some_left ↦
      let pred : suc (l.cursor - 1) ≡ l.cursor = ground (arith, some_left) in
      inr (rw some_left (ap (λ n. entries_upto l.entries n) (sym pred)), rw some_left pred)
]
