-- ===== src/Shell/Tests.antt =====
-- The shell of src/kernel.c at a few commands.
use side_h_os.Base.{
  ℕ, List, ◌++◌, some, inl, ◌≡◌, refl, ◌⊎◌, ◌<◌, ◌≤◌, suc, ◌∷◌, [], arith, true, false,
}
use side_h_os.Kernel.{Kernel, PointerList, initial, null}
use side_h_os.Console.{kputs}
use side_h_os.Shell.{kshell, pointer_push, pointer_pop}
use side_h_os.Shell.Pointers.{contents, pointer_push-contents, pointer_pop-contents}
use side_h_os.Shell.Commands.{this, other, then_clear}
use side_h_os.Shell.Line.{kgets, kshell-kgets}
use side_h_os.Serial.Samples.{Wire, wire, wire-IsLine}
use side_h_os.Serial.Editing.{echo_all}
use side_h_os.Serial.Input.{Reads}

-- "sse" with an "x" taken back, and a carriage return.
abbrev keys : List ℕ
keys = b's' ∷ b's' ∷ b'x' ∷ 8 ∷ b'e' ∷ []

abbrev typing : Wire
typing = record { input = keys ++ 13 ∷ []; output = [] }

abbrev blank : Kernel
blank = initial (λ _. 0)

kshell-kgets_example :
    (k : Kernel) × (w : Wire) × (kgets wire 9 6 blank typing ≡ some (k, w))
    × (k ≡ record blank { command = k.command })
    × (kshell 9 k ≡ then_clear (kputs "SSE\r\n") k)
    × Reads wire wire-IsLine (echo_all [] keys ++ 13 ∷ 10 ∷ []) [] typing w
kshell-kgets_example =
    kshell-kgets wire wire-IsLine 9 6 13 keys [] typing blank (kputs "SSE\r\n") (omega arith)
      (inl refl) refl
      (
        (λ e. omega arith),
        (λ e. omega arith),
        (
          (λ e. omega arith),
          (λ e. omega arith),
          (
            (λ e. omega arith),
            (λ e. omega arith),
            ((λ e. omega arith), (λ e. omega arith), ((λ e. omega arith), (λ e. omega arith), tt)),
          ),
        ),
      )
      (
        (λ e. omega arith),
        ((λ e. omega arith), ((λ e. omega arith), ((λ e. omega arith), ((λ e. omega arith), tt)))),
      )
      (omega arith) (omega arith) (omega arith) (other (λ e. cc) (this refl))

abbrev one_pointer : PointerList
one_pointer = record { entries = λ _. 0x1000; cursor = 1 }

pointer_push-contents_example :
    ((1 < 255)
      × ((pointer_push one_pointer 0x2000).0 ≡ true)
      × (contents (pointer_push one_pointer 0x2000).1 ≡ 0x2000 ∷ 0x1000 ∷ [])
      × ((pointer_push one_pointer 0x2000).1.cursor ≤ 255))
    ⊎ ((one_pointer.cursor ≡ 255) × (pointer_push one_pointer 0x2000 ≡ (false, one_pointer)))
pointer_push-contents_example = pointer_push-contents one_pointer 0x2000 (omega arith)

pointer_pop-contents_example :
    ((one_pointer.cursor ≡ 0) × (pointer_pop one_pointer ≡ (null, one_pointer)))
    ⊎ ((0x1000 ∷ [] ≡ (pointer_pop one_pointer).0 ∷ contents (pointer_pop one_pointer).1)
        × (suc (pointer_pop one_pointer).1.cursor ≡ one_pointer.cursor))
pointer_pop-contents_example = pointer_pop-contents one_pointer
