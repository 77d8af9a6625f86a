-- ===== src/Bytes/Fill.antt =====
-- memset (src/kernel.h): it fills its n bytes and nothing else.
use side_h_os.Base.{ℕ, zero, suc, ◌+◌, ◌%◌, ◌≤◌, ◌≡◌, ◌∙◌, ◌&&◌, arith, ltb, leb, if◌then◌else◌}
use side_h_os.Bytes.Words.{Outside, load64_zero}
use side_h_os.Bytes.{load64, Bytes, write8, memset_loop, memset}

memset_loop_lem :
    (n : ℕ) (m : Bytes) (s c i q : ℕ)
    → memset_loop m s c i n q ≡ (if leb (s + i) q && ltb q (s + i + n) then c % 256 else m q)
unfolding memset_loop
memset_loop_lem zero m s c i q = ground arith
memset_loop_lem (suc n) m s c i q =
    memset_loop_lem n (write8 m (s + i) (c % 256)) s c (i + 1) q ∙ ground arith

-- After memset(s, c, n) each byte of [s, s + n) is the low byte of c, and every other byte of memory is what it was.
pub memset_lem :
    (m : Bytes) (s c n q : ℕ)
    → memset m s c n q ≡ (if leb s q && ltb q (s + n) then c % 256 else m q)
unfolding memset
memset_lem m s c n q = memset_loop_lem n m s c 0 q ∙ ground arith

-- A word inside a range that was filled with 0 is 0.
pub load64-memset_zero :
    (m : Bytes) (s n a : ℕ) → s ≤ a → a + 8 ≤ s + n → load64 (memset m s 0 n) a ≡ 0
load64-memset_zero m s n a lo hi =
    load64_zero (memset m s 0 n) a λ q l u. ground (arith, memset_lem m s 0 n q)

pub memset-Outside : (m : Bytes) (s c n q : ℕ) → Outside s n q → memset m s c n q ≡ m q
memset-Outside m s c n q out = ground (arith, memset_lem m s c n q)
