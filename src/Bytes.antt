-- ===== src/Bytes.antt =====
-- The memory as bytes: kernel.h's memset, memcpy, memmove, memcmp and strcmp (src/kernel.h), and the
-- little-endian 64-bit loads and stores that a field access of kernel.c compiles to. An address is a
-- number, a memory a function from addresses to bytes; every address can be read and written.
pub mod Words
pub mod Fill
pub mod Copy
pub mod Compare
mod Tests
use side_h_os.Base.{
  ℕ, zero, suc, ◌+◌, ◌*◌, ◌/◌, ◌%◌, Option, none, some, ◌&&◌, ltb, ◌==◌, if◌then◌else◌, ℤ, pos,
  negsuc, sub_ℕ,
}
use mathlib.Core.Bool.{not}

abbrev pub Bytes : Type 0
Bytes = ℕ → ℕ

abbrev pub write8 : Bytes → ℕ → ℕ → Bytes
write8 m a v q = if a == q then v else m q

-- The n bytes from `a`, least significant first.
unfoldable pub load_le : ℕ → Bytes → ℕ → ℕ
load_le zero m a = 0
load_le (suc n) m a = m a + 256 * load_le n m (a + 1)

unfoldable pub store_le : ℕ → Bytes → ℕ → ℕ → Bytes
store_le zero m a v = m
store_le (suc n) m a v = store_le n (write8 m a (v % 256)) (a + 1) (v / 256)

unfoldable pub load64 : Bytes → ℕ → ℕ
unfolding load_le
load64 m a = load_le 8 m a

unfoldable pub store64 : Bytes → ℕ → ℕ → Bytes
unfolding store_le
store64 m a v = store_le 8 m a v

-- for (i = i; i < i + n; i++) p[i] = (uint8_t)c;
memset_loop : Bytes → (s c i n : ℕ) → Bytes
memset_loop m s c i zero = m
memset_loop m s c i (suc n) = memset_loop (write8 m (s + i) (c % 256)) s c (i + 1) n

unfoldable pub memset : Bytes → (s c n : ℕ) → Bytes
unfolding memset_loop
memset m s c n = memset_loop m s c 0 n

-- pdest[i] = psrc[i], upwards from i; the loop of memcpy and the first loop of memmove
copy_up : Bytes → (dest src i n : ℕ) → Bytes
copy_up m dest src i zero = m
copy_up m dest src i (suc n) = copy_up (write8 m (dest + i) (m (src + i))) dest src (i + 1) n

unfoldable pub memcpy : Bytes → (dest src n : ℕ) → Bytes
unfolding copy_up
memcpy m dest src n = copy_up m dest src 0 n

-- for (i = n; i > 0; i--) pdest[i-1] = psrc[i-1];
copy_down : Bytes → (dest src n : ℕ) → Bytes
copy_down m dest src zero = m
copy_down m dest src (suc n) = copy_down (write8 m (dest + n) (m (src + n))) dest src n

unfoldable pub memmove : Bytes → (dest src n : ℕ) → Bytes
unfolding copy_up copy_down
memmove m dest src n =
    if ltb dest src
    then copy_up m dest src 0 n
    else if ltb src dest
    then copy_down m dest src n
    else m

-- for (i = i; i < i + n; i++) if (p1[i] != p2[i]) return p1[i] < p2[i] ? -1 : 1;
memcmp_loop : Bytes → (s1 s2 i n : ℕ) → ℤ
memcmp_loop m s1 s2 i zero = pos 0
memcmp_loop m s1 s2 i (suc n) =
    let rest = memcmp_loop m s1 s2 (i + 1) n in
    if m (s1 + i) == m (s2 + i)
    then rest
    else if ltb (m (s1 + i)) (m (s2 + i))
    then negsuc 0
    else pos 1

unfoldable pub memcmp : Bytes → (s1 s2 n : ℕ) → ℤ
unfolding memcmp_loop
memcmp m s1 s2 n = memcmp_loop m s1 s2 0 n

-- A `const char *`: the bytes by their distance from the pointer.
abbrev pub Chars : Type 0
Chars = ℕ → ℕ

-- while (*a && (*a == *b)) { a++; b++; }, with both pointers i bytes on
strcmp_loop : (fuel : ℕ) → (a b : Chars) → (i : ℕ) → Option ℤ
strcmp_loop zero a b i = none
strcmp_loop (suc f) a b i =
    let rest = strcmp_loop f a b (i + 1) in
    if not (a i == 0) && (a i == b i) then rest else some (sub_ℕ (a i) (b i))

unfoldable pub strcmp : (fuel : ℕ) → (a b : Chars) → Option ℤ
unfolding strcmp_loop
strcmp f a b = strcmp_loop f a b 0
