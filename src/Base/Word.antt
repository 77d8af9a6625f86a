-- ===== src/Base/Word.antt =====
-- `uint64_t` as native numbers below 2 ^ 64: sums and differences wrap, and the masks of kernel.c
-- (`& ~0xfff`, `& ~0xF`) round down to a multiple.
use Prim.Native.Nat.{ℕ, ◌+◌, ◌-◌, ◌*◌, ◌/◌, ◌%◌, ◌^◌}

abbrev pub u64_mod : ℕ
u64_mod = 2 ^ 64

abbrev pub add64 : ℕ → ℕ → ℕ
add64 a b = (a + b) % u64_mod

abbrev pub sub64 : ℕ → ℕ → ℕ
sub64 a b = (a + u64_mod - b) % u64_mod

abbrev pub mul64 : ℕ → ℕ → ℕ
mul64 a b = a * b % u64_mod

-- x & ~0xfff, on a 64-bit value
abbrev pub page_floor : ℕ → ℕ
page_floor x = x / 4096 * 4096
