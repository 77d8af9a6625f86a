-- ===== src/Bytes/Copy.antt =====
-- memcpy and memmove (src/kernel.h).
use side_h_os.Base.{
  ℕ, zero, suc, ◌+◌, ◌-◌, ◌≤◌, ◌≡◌, ◌∙◌, ◌⊎◌, ◌&&◌, arith, ltb, leb, if◌then◌else◌,
}
use side_h_os.Bytes.{Bytes, write8, copy_up, copy_down, memcpy, memmove}

-- The memory m with n bytes from src, as they stand in m, laid over the n bytes from dest.
abbrev pub moved : Bytes → (dest src n : ℕ) → Bytes
moved m dest src n q = if leb dest q && ltb q (dest + n) then m (src + (q - dest)) else m q

-- Upwards is right where no byte still to be read has been written.
copy_up_lem :
    (n : ℕ) (m : Bytes) (dest src i q : ℕ)
    → (dest ≤ src) ⊎ (src + (i + n) ≤ dest)
    → copy_up m dest src i n q
      ≡ (if leb (dest + i) q && ltb q (dest + i + n) then m (src + (q - dest)) else m q)
unfolding copy_up
copy_up_lem zero m dest src i q fits = ground arith
copy_up_lem (suc n) m dest src i q fits =
    copy_up_lem n (write8 m (dest + i) (m (src + i))) dest src (i + 1) q (omega arith)
    ∙ ground arith

-- Downwards is right where src lies below dest.
copy_down_lem :
    (n : ℕ) (m : Bytes) (dest src q : ℕ)
    → src ≤ dest
    → copy_down m dest src n q ≡ moved m dest src n q
unfolding copy_down
copy_down_lem zero m dest src q below = ground arith
copy_down_lem (suc n) m dest src q below =
    copy_down_lem n (write8 m (dest + n) (m (src + n))) dest src q below ∙ ground arith

-- After memcpy(dest, src, n), of two ranges that do not overlap, each byte of [dest, dest + n) is the byte of src at the same distance, and every other byte of memory is what it was.
pub memcpy_lem :
    (m : Bytes) (dest src n q : ℕ)
    → (src + n ≤ dest) ⊎ (dest + n ≤ src)
    → memcpy m dest src n q ≡ moved m dest src n q
unfolding memcpy
memcpy_lem m dest src n q apart = copy_up_lem n m dest src 0 q (omega arith) ∙ ground arith

-- After memmove(dest, src, n), whether or not the two ranges overlap, each byte of [dest, dest + n) is the byte that src held at the same distance before the call, and every other byte of memory is what it was.
pub memmove_lem : (m : Bytes) (dest src n q : ℕ) → memmove m dest src n q ≡ moved m dest src n q
unfolding memmove
memmove_lem m dest src n q =
    ground (arith, copy_up_lem n m dest src 0 q, copy_down_lem n m dest src q)
