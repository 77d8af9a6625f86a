-- ===== src/Kernel/Returns.antt =====
-- Total correctness of a run: no fault, enough fuel, and a postcondition of the result and the state.
use mathlib.Core.Path.{◌≡◌, refl, subst₂}
use side_h_os.Kernel.{Kernel, Run, ok, fault, out_of_fuel, Cmd, and_then}

pub data Returns {A : Type 0} (P : A → Kernel → Type 0) : Run A → Type 0 where
  returns : {a : A} {k : Kernel} → P a k → Returns P (ok a k)

module _ {A : Type 0} {P : A → Kernel → Type 0} where
  pub bind :
      {B : Type 0} {Q : B → Kernel → Type 0} {r : Run A} {next : A → Cmd B}
      → Returns P r
      → ((a : A) (k : Kernel) → P a k → Returns Q (next a k))
      → Returns Q (and_then r next)
  bind (returns p) then_next = then_next _ _ p

  pub mono :
      {Q : A → Kernel → Type 0} {r : Run A}
      → Returns P r
      → ((a : A) (k : Kernel) → P a k → Q a k)
      → Returns Q r
  mono (returns p) weaken = returns (weaken _ _ p)

-- The result of a run that is known satisfies the postcondition.
pub Returns-ok :
    {A : Type 0} {P : A → Kernel → Type 0} {r : Run A} (a : A) (k : Kernel)
    → Returns P r
    → r ≡ ok a k
    → P a k
Returns-ok {P} a k (returns p) e = subst₂ P (cc) (cc) p

pub and_then_assoc :
    {A B C : Type 0} (r : Run A) (f : A → Kernel → Run B) (g : B → Kernel → Run C)
    → and_then (and_then r f) g ≡ and_then r (λ a k. and_then (f a k) g)
and_then_assoc (ok a k) f g = refl
and_then_assoc fault f g = refl
and_then_assoc out_of_fuel f g = refl

pub Returns-result :
    {A : Type 0} {P : A → Kernel → Type 0} {r : Run A}
    → Returns P r
    → (a : A) × (k : Kernel) × (r ≡ ok a k) × P a k
Returns-result (returns p) = (_, _, refl, p)
