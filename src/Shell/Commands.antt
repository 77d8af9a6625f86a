-- ===== src/Shell/Commands.antt =====
-- Which command kshell runs (src/kernel.c): strcmp against each name, in order.
use Prim.Native.String.{String}
use side_h_os.Base.{
  ℕ, zero, suc, ◌+◌, ◌<◌, ◌≡◌, refl, ◌≢◌, ◌⊎◌, inl, inr, List, [], ◌∷◌, arith, ap, ◌∙◌, sym, Bool,
  true, false, ◌==◌, ◌&&◌, Bool-cases, length, ℤ, pos, negsuc,
}
use mathlib.Core.Bool.{not}
use side_h_os.Bytes.{Chars}
use side_h_os.Bytes.Compare.{IsString, strcmp-Tells}
use side_h_os.Kernel.{Kernel, Cmd, ok, ◌>>◌, modify}
use side_h_os.Console.{codes, kputs}
use side_h_os.Shell.{literal_from, literal, is_zero, is_command, commands, dispatch, kshell}

-- No character is NUL.
abbrev pub plain : List ℕ → Bool
plain [] = true
plain (c ∷ cs) = not (c == 0) && plain cs

plain-cons : (c : ℕ) (cs : List ℕ) → plain (c ∷ cs) ≡ true → (c ≢ 0) × (plain cs ≡ true)
plain-cons c cs h = elim (Bool-cases (c == 0)) [
  | inl nul ↦ ground arith
  | inr other_char ↦ ground arith
]

and-left : (a b : Bool) → a && b ≡ true → a ≡ true
and-left true b h = refl
and-left false b h = h

and-right : (a b : Bool) → a && b ≡ true → b ≡ true
and-right true b h = h
and-right false b h = absurd (no_way h)
  where
    no_way : false ≢ true
    no_way e = cc

-- The characters of a literal that holds no NUL.
literal_from-IsString :
    (cs : List ℕ) (a : Chars) (i : ℕ)
    → ((j : ℕ) → a (i + j) ≡ literal_from cs j)
    → plain cs ≡ true
    → IsString a i cs
literal_from-IsString [] a i same h = ap a (omega arith) ∙ same 0
literal_from-IsString (c ∷ cs) a i same h = (
  ap a (omega arith) ∙ same 0,
  (plain-cons c cs h).0,
  literal_from-IsString cs a (i + 1) (λ j. ap a (omega arith) ∙ same (suc j)) (plain-cons c cs h).1,
)

-- The body that stands behind the first name equal to the text, or the answer to an unknown one.
pub data Chosen (xs : List ℕ) : List (String × Cmd (Unit {0})) → Cmd (Unit {0}) → Type 0 where
  unknown : Chosen xs [] (kputs "Invalid command")
  this :
      {name : String} {body : Cmd (Unit {0})} {rest : List (String × Cmd (Unit {0}))}
      → codes name ≡ xs
      → Chosen xs ((name, body) ∷ rest) body
  other :
      {name : String} {body : Cmd (Unit {0})} {rest : List (String × Cmd (Unit {0}))}
      {c : Cmd (Unit {0})}
      → codes name ≢ xs
      → Chosen xs rest c
      → Chosen xs ((name, body) ∷ rest) c

abbrev all_plain : List (String × Cmd (Unit {0})) → Bool
all_plain [] = true
all_plain ((name, body) ∷ rest) = plain (codes name) && all_plain rest

is_zero_iff : (v : ℤ) → ((v ≡ pos 0) × (is_zero v ≡ true)) ⊎ ((v ≢ pos 0) × (is_zero v ≡ false))
is_zero_iff (pos zero) = inl (refl, refl)
is_zero_iff (pos (suc n)) = inr (λ e. cc, ground arith)
is_zero_iff (negsuc n) = inr (λ e. cc, refl)

-- The command, and then the empty command line.
abbrev pub then_clear : Cmd (Unit {0}) → Cmd (Unit {0})
then_clear body = body >> modify (λ k. record k { command = λ _. 0 })

module _ (k : Kernel) (fuel : ℕ) (xs : List ℕ) (text : IsString k.command 0 xs)
    (enough : length xs < fuel) where
  is_command-eq :
      (name : String)
      → plain (codes name) ≡ true
      → ((codes name ≡ xs) × (is_command fuel name k ≡ ok true k))
        ⊎ ((codes name ≢ xs) × (is_command fuel name k ≡ ok false k))
  unfolding is_command
  is_command-eq name h =
      let tells =
        strcmp-Tells fuel k.command (literal name) xs (codes name) text
          (literal_from-IsString (codes name) (literal name) 0
            (λ j. ap (literal name) (omega arith)) h)
          enough in
      elim (is_zero_iff tells.value) [
        | inl (zero_value, yes_zero) ↦
            inl (sym (tells.zero_iff.0 zero_value), rw (tells.returns, yes_zero) refl)
        | inr (nonzero, no_zero) ↦
            inr (λ e. nonzero (tells.zero_iff.1 (sym e)), rw (tells.returns, no_zero) refl)
      ]

  dispatch-Chosen :
      (cs : List (String × Cmd (Unit {0}))) (body : Cmd (Unit {0}))
      → all_plain cs ≡ true
      → Chosen xs cs body
      → dispatch fuel cs k ≡ body k
  unfolding dispatch
  dispatch-Chosen [] body h unknown = refl
  dispatch-Chosen ((name, b) ∷ rest) body h (this e) =
      elim (is_command-eq name (and-left (plain (codes name)) (all_plain rest) h)) [
        | inl (_, run) ↦ rw run refl
        | inr (ne, _) ↦ absurd (ne e)
      ]
  dispatch-Chosen ((name, b) ∷ rest) body h (other ne chosen) =
      elim (is_command-eq name (and-left (plain (codes name)) (all_plain rest) h)) [
        | inl (e, _) ↦ absurd (ne e)
        | inr (_, run) ↦
            rw run
              (dispatch-Chosen rest body (and-right (plain (codes name)) (all_plain rest) h) chosen)
      ]

  -- Where the command line holds a text, with more fuel than it is long, kshell does what stands behind the first name equal to the text, or answers "Invalid command" where no name is, and then clears the command line.
  pub kshell-Chosen :
      (body : Cmd (Unit {0})) → Chosen xs (commands fuel) body → kshell fuel k ≡ then_clear body k
  unfolding kshell
  kshell-Chosen body chosen = rw (dispatch-Chosen (commands fuel) body refl chosen) refl
