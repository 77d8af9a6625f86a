-- ===== src/Console.antt =====
-- Output of src/kernel.c: kputs and kputhex, as the bytes that they hand to serial_write in order.
pub mod Hex
mod Tests
use Prim.Native.Char.{code}
use Prim.Native.String.{String}
use side_h_os.Base.{
  ℕ, zero, suc, ◌+◌, ◌-◌, ◌*◌, ◌/◌, ◌%◌, ◌^◌, Bool, true, false, List, [], ◌∷◌, ◌++◌, ltb, ◌==◌,
  if◌then◌else◌, ◌&&◌,
}
use mathlib.Core.Bool.{not}
use side_h_os.Kernel.{Kernel, Cmd, ok}

-- The bytes of an ASCII text.
abbrev pub codes : String → List ℕ
codes String.[] = []
codes (String.◌∷◌ c s) = code c ∷ codes s

abbrev pub send : List ℕ → Cmd (Unit {0})
send bytes k = ok tt (record k { sent = k.sent ++ bytes })

abbrev pub kputs : String → Cmd (Unit {0})
kputs s = send (codes s)

-- (nibble < 10) ? ('0' + nibble) : ('a' + nibble - 10)
abbrev pub hex_digit : ℕ → ℕ
hex_digit nibble = if ltb nibble 10 then b'0' + nibble else b'a' + nibble - 10

-- The rounds of the loop at shift = 4 * (n - 1), …, 0, and the line behind it.
unfoldable pub hex_loop : (value : ℕ) (started : Bool) (n : ℕ) → List ℕ
hex_loop value started zero = if started then [] else b'0' ∷ []
hex_loop value started (suc n) =
    let nibble = value / 16 ^ n % 16 in
    let skip = hex_loop value false n in
    let rest = hex_loop value true n in
    if not started && (nibble == 0 && not (n == 0)) then skip else hex_digit nibble ∷ rest

unfoldable pub hex : ℕ → List ℕ
unfolding hex_loop
hex value = b'0' ∷ b'x' ∷ hex_loop value false 16

abbrev pub kputhex : ℕ → Cmd (Unit {0})
kputhex value = send (hex value)
