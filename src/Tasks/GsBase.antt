-- ===== src/Tasks/GsBase.antt =====
-- The base address of %gs (src/kernel.h): set_gs_base and get_gs_base by the instructions `wrmsr` and
-- `rdmsr`, which move a model register in two halves of 32 bits, and get_cpu_state.
use side_h_os.Base.{ℕ, ◌+◌, ◌*◌, ◌/◌, ◌%◌, ◌^◌, ◌<◌, ◌≡◌, ◌≢◌, refl, arith}
use side_h_os.Base.Word.{u64_mod}
use side_h_os.Kernel.{Ptr, replace}

-- The model registers by their numbers.
abbrev pub Msrs : Type 0
Msrs = ℕ → ℕ

abbrev half : ℕ
half = 2 ^ 32

abbrev gs_base : ℕ
gs_base = 0xc000_0101

abbrev pub wrmsr : (c a d : ℕ) → Msrs → Msrs
wrmsr c a d msrs = replace msrs c (d * half + a)

abbrev pub set_gs_base : Ptr → Msrs → Msrs
set_gs_base ptr = wrmsr gs_base (ptr % half) (ptr / half % half)

abbrev pub get_gs_base : Msrs → Ptr
get_gs_base msrs = let lo = msrs gs_base % half in let hi = msrs gs_base / half in hi * half + lo

abbrev pub get_cpu_state : Msrs → Ptr
get_cpu_state msrs = get_gs_base msrs

-- After set_gs_base a processor finds its structure, and no other model register has changed.
pub get_cpu_state-set_gs_base :
    (ptr : Ptr) (msrs : Msrs)
    → ptr < u64_mod
    → (get_cpu_state (set_gs_base ptr msrs) ≡ ptr)
      × ((c : ℕ) → c ≢ gs_base → set_gs_base ptr msrs c ≡ msrs c)
get_cpu_state-set_gs_base ptr msrs small = (omega (arith, at), λ c other. elsewhere c other)
  where
    at : set_gs_base ptr msrs gs_base ≡ ptr / half % half * half + ptr % half
    at = refl

    elsewhere : (c : ℕ) → c ≢ gs_base → set_gs_base ptr msrs c ≡ msrs c
    elsewhere c other = ground arith
