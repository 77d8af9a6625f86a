-- ===== src/Bytes/Tests.antt =====
-- The memory functions of src/kernel.h at small inputs, and their theorems there.
use side_h_os.Base.{
  ◌+◌, ◌≡◌, refl, ◌&&◌, [], ◌∷◌, ltb, leb, if◌then◌else◌, arith, some, pos, ◌%◌, ◌==◌,
}
use side_h_os.Bytes.{Bytes, Chars, load64, store64, memset, memcpy, memmove, memcmp, strcmp}
use side_h_os.Bytes.Fill.{memset_lem}
use side_h_os.Bytes.Copy.{moved, memcpy_lem, memmove_lem}
use side_h_os.Bytes.Compare.{Verdict, memcmp-Verdict, Tells, strcmp-Tells}

-- Every byte is its address, modulo 256.
abbrev ramp : Bytes
ramp a = a % 256

abbrev ping : Chars
ping i =
    if i == 0
    then b'p'
    else if i == 1
    then b'i'
    else if i == 2
    then b'n'
    else if i == 3
    then b'g'
    else 0

abbrev pin : Chars
pin i = if i == 3 then 0 else ping i

load64-store64_example : load64 (store64 ramp 16 0x1122_3344_5566_7788) 16 ≡ 0x1122_3344_5566_7788
unfolding load64 store64
load64-store64_example = refl

store64_bytes : store64 ramp 16 0x1122_3344_5566_7788 17 ≡ 0x77
unfolding store64
store64_bytes = refl

memmove_overlaps : memmove ramp 11 10 4 14 ≡ 13
unfolding memmove
memmove_overlaps = refl

strcmp_differs : strcmp 9 ping pin ≡ some (pos b'g')
unfolding strcmp
strcmp_differs = refl

memset_lem_example :
    memset ramp 10 0x1ff 4 12 ≡ (if leb 10 12 && ltb 12 (10 + 4) then 0x1ff % 256 else ramp 12)
memset_lem_example = memset_lem ramp 10 0x1ff 4 12

memcpy_lem_example : memcpy ramp 100 10 4 102 ≡ moved ramp 100 10 4 102
memcpy_lem_example = memcpy_lem ramp 100 10 4 102 (omega arith)

memmove_lem_example : memmove ramp 11 10 4 13 ≡ moved ramp 11 10 4 13
memmove_lem_example = memmove_lem ramp 11 10 4 13

memcmp-Verdict_example : Verdict ramp 10 20 4 (memcmp ramp 10 20 4)
memcmp-Verdict_example = memcmp-Verdict ramp 10 20 4

strcmp-Tells_example :
    Tells (b'p' ∷ b'i' ∷ b'n' ∷ b'g' ∷ []) (b'p' ∷ b'i' ∷ b'n' ∷ []) (strcmp 9 ping pin)
strcmp-Tells_example =
    strcmp-Tells 9 ping pin (b'p' ∷ b'i' ∷ b'n' ∷ b'g' ∷ []) (b'p' ∷ b'i' ∷ b'n' ∷ []) (omega arith)
      (omega arith) (omega arith)
