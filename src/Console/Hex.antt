-- ===== src/Console/Hex.antt =====
-- kputhex (src/kernel.c): the digits that it writes say the value.
use native.Mathlib.Nat.{div-div-eq-div-mul, div-add-mod, pow-suc, mod-eq_of_lt, mod-lt}
use native.Mathlib.Decide.{ℕ_discrete}
use side_h_os.Base.{
  ℕ, zero, suc, ◌+◌, ◌-◌, ◌*◌, ◌/◌, ◌%◌, ◌^◌, ◌<◌, ◌≤◌, ◌≡◌, refl, ◌≢◌, ◌⊎◌, true, false, List, [],
  ◌∷◌, arith, ltb, if◌then◌else◌, ap, ◌∙◌,
}
use side_h_os.Console.{hex_digit, hex_loop, hex}

-- The value of a hexadecimal digit in lower case.
abbrev pub digit_value : ℕ → ℕ
digit_value c = if ltb c b'a' then c - b'0' else c - b'a' + 10

-- A hexadecimal digit in lower case.
abbrev pub IsDigit : ℕ → Type 0
IsDigit c = ((b'0' ≤ c) × (c ≤ b'9')) ⊎ ((b'a' ≤ c) × (c ≤ b'f'))

abbrev pub AllDigits : List ℕ → Type 0
AllDigits [] = Unit {0}
AllDigits (c ∷ cs) = IsDigit c × AllDigits cs

hex_digit-IsDigit : (x : ℕ) → x < 16 → IsDigit (hex_digit x)
hex_digit-IsDigit x h = ground arith

hex_loop-AllDigits : (v n : ℕ) → AllDigits (hex_loop v true n)
unfolding hex_loop
hex_loop-AllDigits v zero = tt
hex_loop-AllDigits v (suc n) =
    (hex_digit-IsDigit (v / 16 ^ n % 16) (omega arith), hex_loop-AllDigits v n)

-- The number that digits say behind a number `acc`.
abbrev pub read_hex : (acc : ℕ) → List ℕ → ℕ
read_hex acc [] = acc
read_hex acc (c ∷ cs) = read_hex (acc * 16 + digit_value c) cs

digit_value-hex_digit : (x : ℕ) → x < 16 → digit_value (hex_digit x) ≡ x
digit_value-hex_digit x h = ground arith

-- The remainder modulo a product, from the digit at that place and the remainder below it.
mod-mul : (v d : ℕ) → v % (d * 16) ≡ v / d % 16 * d + v % d
mod-mul v d =
    let parts = div-add-mod v d in
    let whole = div-add-mod v (d * 16) in
    let digits = ap (λ (t : ℕ). d * t) (div-add-mod (v / d) 16) in
    let high = ap (λ (t : ℕ). d * (16 * t)) (div-div-eq-div-mul v d 16) in omega arith

hex_loop-started : (v acc n : ℕ) → read_hex acc (hex_loop v true n) ≡ acc * 16 ^ n + v % 16 ^ n
unfolding hex_loop
hex_loop-started v acc zero = omega arith
hex_loop-started v acc (suc n) =
    let digit = v / 16 ^ n % 16 in
    rw (digit_value-hex_digit digit (omega arith), pow-suc)
      (omega (arith, hex_loop-started v (acc * 16 + digit) n, mod-mul v (16 ^ n)))

-- The shortest digits of v: "0" alone, or a first digit that is not 0.
pub data IsNumeral (v : ℕ) : List ℕ → Type 0 where
  zero_alone : {ds : List ℕ} → ds ≡ b'0' ∷ [] → v ≡ 0 → IsNumeral v ds
  leading :
      {c : ℕ} {cs : List ℕ}
      → c ≢ b'0'
      → AllDigits (c ∷ cs)
      → read_hex 0 (c ∷ cs) ≡ v
      → IsNumeral v (c ∷ cs)

pow_pos : (n : ℕ) → 0 < 16 ^ n
pow_pos zero = omega arith
pow_pos (suc n) = rw pow-suc (omega (arith, pow_pos n))

module _ (v : ℕ) where
  -- The digit at place n.
  abbrev place : ℕ → ℕ
  place n = v / 16 ^ n % 16

  hex_loop_skip :
      (n : ℕ) → place (suc n) ≡ 0 → hex_loop v false (suc (suc n)) ≡ hex_loop v false (suc n)
  unfolding hex_loop
  hex_loop_skip n none_set = ground arith

  hex_loop_write :
      (n : ℕ) → place n ≢ 0 → hex_loop v false (suc n) ≡ hex_digit (place n) ∷ hex_loop v true n
  unfolding hex_loop
  hex_loop_write n set = ground arith

  hex_loop_last : place 0 ≡ 0 → hex_loop v false 1 ≡ b'0' ∷ []
  unfolding hex_loop
  hex_loop_last e = ground arith

  hex_digit-ne : (x : ℕ) → x < 16 → x ≢ 0 → hex_digit x ≢ b'0'
  hex_digit-ne x h p e = ground arith

  -- Below the place n + 1, the digits from place n on say all of v.
  read_hex-top : (n : ℕ) → v < 16 ^ suc n → read_hex 0 (hex_digit (place n) ∷ hex_loop v true n) ≡ v
  read_hex-top n small =
      let top : 0 * 16 + digit_value (hex_digit (place n)) ≡ place n =
        omega (arith, digit_value-hex_digit (place n) (omega arith)) in
      let small' : v < 16 ^ n * 16 = rw pow-suc at small in
      ap (λ a. read_hex a (hex_loop v true n)) top
      ∙ omega (arith, hex_loop-started v (place n) n, mod-mul v (16 ^ n), mod-eq_of_lt small')

  top_digit :
      (n : ℕ) → v < 16 ^ suc n → place n ≢ 0 → IsNumeral v (hex_digit (place n) ∷ hex_loop v true n)
  top_digit n small set =
      leading (hex_digit-ne (place n) (omega arith) set)
        (hex_digit-IsDigit (place n) (omega arith), hex_loop-AllDigits v n) (read_hex-top n small)

  none_above : (n : ℕ) → v < 16 ^ suc n → place n ≡ 0 → v < 16 ^ n
  none_above n small none_set =
      let small' : v < 16 ^ n * 16 = rw pow-suc at small in
      omega (
        arith,
        mod-mul v (16 ^ n),
        mod-eq_of_lt small',
        mod-lt v (pow_pos n),
        ap (λ (t : ℕ). t * 16 ^ n) none_set,
      )

  hex_loop-IsNumeral : (n : ℕ) → v < 16 ^ suc n → IsNumeral v (hex_loop v false (suc n))
  hex_loop-IsNumeral zero small = elim (ℕ_discrete (place 0) 0) [
    | yes e ↦ zero_alone (hex_loop_last e) (omega arith)
    | no ne ↦ rw (hex_loop_write 0 ne) (top_digit 0 small ne)
  ]
  hex_loop-IsNumeral (suc n) small = elim (ℕ_discrete (place (suc n)) 0) [
    | yes e ↦ rw (hex_loop_skip n e) (hex_loop-IsNumeral n (none_above (suc n) small e))
    | no ne ↦ rw (hex_loop_write (suc n) ne) (top_digit (suc n) small ne)
  ]

-- For a 64-bit value v, kputhex(v) writes "0x" and then hexadecimal digits, 0 to 9 and a to f, that say v, with no digit 0 in front of others.
pub hex-IsNumeral :
    (v : ℕ) → v < 2 ^ 64 → (ds : List ℕ) × (hex v ≡ b'0' ∷ b'x' ∷ ds) × IsNumeral v ds
unfolding hex
hex-IsNumeral v h = (hex_loop v false 16, refl, hex_loop-IsNumeral v 15 h)
