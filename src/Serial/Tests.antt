-- ===== src/Serial/Tests.antt =====
-- The driver of src/serial.c on a line that is always ready.
use side_h_os.Base.{
  ℕ, ◌+◌, ◌≡◌, refl, inl, some, List, [], ◌∷◌, ◌++◌, arith, ◌==◌, if◌then◌else◌, length,
}
use side_h_os.Bytes.{Bytes}
use side_h_os.Serial.{serial_write_str, serial_read_str}
use side_h_os.Serial.Samples.{Wire, wire, wire-IsLine}
use side_h_os.Serial.Output.{Sends, serial_write_str-Sends}
use side_h_os.Serial.Editing.{type_all, echo_all, Edited}
use side_h_os.Serial.Input.{Reads, serial_read_str-Edited}

-- "ok" and a NUL at the address 0x100.
abbrev text : Bytes
text q = if q == 0x100 then b'o' else if q == 0x101 then b'k' else 0

abbrev idle : Wire
idle = record { input = []; output = [] }

serial_write_str-Sends_example :
    (w : Wire) × (serial_write_str wire 1 3 text 0x100 idle ≡ some (tt, w))
    × Sends wire wire-IsLine (b'o' ∷ b'k' ∷ []) idle w
serial_write_str-Sends_example =
    serial_write_str-Sends wire wire-IsLine 1 3 text 0x100 (b'o' ∷ b'k' ∷ []) idle (omega arith)
      (omega arith) (refl, (λ e. omega arith), (refl, (λ e. omega arith), refl)) (omega arith)
      (omega arith)

-- "a", "b", a backspace, "c" and a carriage return.
abbrev typing : Wire
typing = record { input = b'a' ∷ b'b' ∷ 8 ∷ b'c' ∷ 13 ∷ []; output = [] }

abbrev keys : List ℕ
keys = b'a' ∷ b'b' ∷ 8 ∷ b'c' ∷ []

edited : type_all [] keys ≡ b'a' ∷ b'c' ∷ []
edited = refl

serial_read_str-Edited_example :
    (m : Bytes) × (w : Wire) × (serial_read_str wire 1 5 text 0x200 typing ≡ some (m, w))
    × Edited text 0x200 (type_all [] keys) m
    × (m (0x200 + length (type_all [] keys)) ≡ 0)
    × Reads wire wire-IsLine (echo_all [] keys ++ 13 ∷ 10 ∷ []) [] typing w
serial_read_str-Edited_example =
    serial_read_str-Edited wire wire-IsLine 1 5 text 0x200 13 keys [] typing (omega arith)
      (inl refl) refl
      (
        (λ e. omega arith),
        (λ e. omega arith),
        (
          (λ e. omega arith),
          (λ e. omega arith),
          ((λ e. omega arith), (λ e. omega arith), ((λ e. omega arith), (λ e. omega arith), tt)),
        ),
      )
      (omega arith)
