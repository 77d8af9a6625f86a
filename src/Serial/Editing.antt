-- ===== src/Serial/Editing.antt =====
-- The line that serial_read_str edits (src/serial.c): what each character does to it, and how memory
-- holds it.
use side_h_os.Base.{
  ℕ, ◌+◌, ◌-◌, ◌≤◌, ◌<◌, ◌≡◌, ◌≢◌, refl, ◌⊎◌, List, [], ◌∷◌, ◌++◌, arith, ap, ◌∙◌, ltb, ◌==◌,
  if◌then◌else◌, ◌&&◌, ◌||◌, Bool, length, length-append,
}
use side_h_os.Bytes.{Bytes, write8}

-- The line without its last character.
abbrev pub drop_last : List ℕ → List ℕ
drop_last [] = []
drop_last (x ∷ []) = []
drop_last (x ∷ y ∷ xs) = x ∷ drop_last (y ∷ xs)

abbrev pub erases : ℕ → Bool
erases c = c == 8 || c == 127

-- What a character does to the line: a backspace or delete takes the last character back, where there
-- is one; any other character is added, up to 255 of them.
abbrev pub type_char : List ℕ → ℕ → List ℕ
type_char l c =
    if erases c && ltb 0 (length l)
    then drop_last l
    else if ltb (length l) 255
    then l ++ c ∷ []
    else l

-- What the terminal is sent back for it.
abbrev pub echo : List ℕ → ℕ → List ℕ
echo l c =
    if erases c && ltb 0 (length l)
    then 8 ∷ b' ' ∷ 8 ∷ []
    else if ltb (length l) 255
    then c ∷ []
    else []

abbrev pub type_all : List ℕ → List ℕ → List ℕ
type_all l [] = l
type_all l (c ∷ cs) = type_all (type_char l c) cs

abbrev pub echo_all : List ℕ → List ℕ → List ℕ
echo_all l [] = []
echo_all l (c ∷ cs) = echo l c ++ echo_all (type_char l c) cs

-- From the address p on, memory holds the characters.
abbrev pub Holds : Bytes → ℕ → List ℕ → Type 0
Holds m p [] = Unit {0}
Holds m p (x ∷ xs) = (m p ≡ x) × Holds m (p + 1) xs

-- No character ends the line.
abbrev pub NoEnd : List ℕ → Type 0
NoEnd [] = Unit {0}
NoEnd (c ∷ cs) = (c ≢ 13) × (c ≢ 10) × NoEnd cs

pub length-drop_last : (l : List ℕ) → length (drop_last l) ≡ length l - 1
length-drop_last [] = refl
length-drop_last (x ∷ []) = refl
length-drop_last (x ∷ y ∷ xs) = omega (arith, length-drop_last (y ∷ xs))

pub Holds-agree :
    (m m' : Bytes) (p : ℕ) (l : List ℕ)
    → ((q : ℕ) → p ≤ q → q < p + length l → m' q ≡ m q)
    → Holds m p l
    → Holds m' p l
Holds-agree m m' p [] same h = tt
Holds-agree m m' p (x ∷ xs) same h = (
  same p (omega arith) (omega arith) ∙ h.0,
  Holds-agree m m' (p + 1) xs (λ q u v. same q (omega arith) (omega arith)) h.1,
)

Holds-drop_last : (m : Bytes) (p : ℕ) (l : List ℕ) → Holds m p l → Holds m p (drop_last l)
Holds-drop_last m p [] h = tt
Holds-drop_last m p (x ∷ []) h = tt
Holds-drop_last m p (x ∷ y ∷ xs) h = (h.0, Holds-drop_last m (p + 1) (y ∷ xs) h.1)

Holds-append :
    (m : Bytes) (p : ℕ) (l : List ℕ) (c : ℕ)
    → Holds m p l
    → m (p + length l) ≡ c
    → Holds m p (l ++ c ∷ [])
Holds-append m p [] c h e = (ap m (omega arith) ∙ e, tt)
Holds-append m p (x ∷ xs) c h e = (h.0, Holds-append m (p + 1) xs c h.1 (ap m (omega arith) ∙ e))

pub write8-other : (m : Bytes) (a v q : ℕ) → a ≢ q → write8 m a v q ≡ m q
write8-other m a v q ne = ground arith

pub write8-same : (m : Bytes) (a v : ℕ) → write8 m a v a ≡ v
write8-same m a v = ground arith

-- The buffer holds the line, which fits, and memory outside the 256 bytes from it is that of m₀.
pub record Edited (m₀ : Bytes) (buffer : ℕ) (l : List ℕ) (m : Bytes) : Type 0 where
  pub holds : Holds m buffer l
  pub fits : length l ≤ 255
  pub others : (q : ℕ) → (q < buffer) ⊎ (buffer + 256 ≤ q) → m q ≡ m₀ q

module _ (m₀ : Bytes) (buffer : ℕ) (l : List ℕ) (m : Bytes) (h : Edited m₀ buffer l m) where
  pub erase-Edited :
      0 < length l → Edited m₀ buffer (drop_last l) (write8 m (buffer + (length l - 1)) 0)
  erase-Edited pos = record {
    holds =
        Holds-agree m _ buffer (drop_last l)
          (λ q u v. write8-other m _ 0 q (λ e. omega (arith, length-drop_last l)))
          (Holds-drop_last m buffer l h.holds);
    fits = omega (arith, length-drop_last l, h.fits);
    others = λ q out. write8-other m _ 0 q (λ e. omega (arith, h.fits)) ∙ h.others q out;
  }

  pub add-Edited :
      (c : ℕ)
      → length l < 255
      → Edited m₀ buffer
          (l ++ c ∷ [])
          (write8 (write8 m (buffer + length l) c) (buffer + (length l + 1)) 0)
  add-Edited c room = record {
    holds =
        Holds-append _ buffer l c
          (Holds-agree m _ buffer l
            (λ q u v.
              write8-other (write8 m (buffer + length l) c) (buffer + (length l + 1)) 0 q
                (λ e. omega arith)
              ∙ write8-other m (buffer + length l) c q (λ e. omega arith))
            h.holds)
          (write8-other (write8 m (buffer + length l) c) (buffer + (length l + 1)) 0
              (buffer + length l) (λ e. omega arith)
            ∙ write8-same m (buffer + length l) c);
    fits = omega (arith, length-append l (c ∷ []));
    others = λ q out.
        write8-other (write8 m (buffer + length l) c) (buffer + (length l + 1)) 0 q
          (λ e. omega arith)
        ∙ write8-other m (buffer + length l) c q (λ e. omega arith)
        ∙ h.others q out;
  }
