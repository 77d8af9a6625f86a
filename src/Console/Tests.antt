-- ===== src/Console/Tests.antt =====
-- kputhex (src/kernel.c) at a few values.
use side_h_os.Base.{ℕ, ◌≡◌, refl, List, ◌∷◌, arith}
use side_h_os.Console.{codes, hex}
use side_h_os.Console.Hex.{IsNumeral, hex-IsNumeral}

hex_zero : hex 0 ≡ codes "0x0"
unfolding hex
hex_zero = refl

hex_max : hex 0xffff_ffff_ffff_ffff ≡ codes "0xffffffffffffffff"
unfolding hex
hex_max = refl

hex_address : hex 0x10_20f8 ≡ codes "0x1020f8"
unfolding hex
hex_address = refl

hex-IsNumeral_example : (ds : List ℕ) × (hex 0x1f ≡ b'0' ∷ b'x' ∷ ds) × IsNumeral 0x1f ds
hex-IsNumeral_example = hex-IsNumeral 0x1f (omega arith)
