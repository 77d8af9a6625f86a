-- ===== src/Serial/Line.antt =====
-- What src/serial.c relies on of the port: the documented behaviour of a 16550 line.
use side_h_os.Base.{ℕ, ◌+◌, ◌%◌, ◌/◌, ◌<◌, ◌≡◌, ◌≢◌, List, [], ◌∷◌, ◌++◌}
use side_h_os.Serial.{Ports, com1}

-- `sent` are the bytes that were handed to the line, `typed` those that wait to be read. Reading the
-- status changes neither, and the transmitter is ready after fewer than `patience` looks at it.
pub record IsLine {D : Type 0} (ports : Ports D) : Type 0 where
  pub sent : D → List ℕ
  pub typed : D → List ℕ
  pub wait : D → ℕ
  pub patience : ℕ
  pub wait_patience : (d : D) → wait d < patience
  pub status_sent : (d : D) → sent (ports.inb (com1 + 5) d).1 ≡ sent d
  pub status_typed : (d : D) → typed (ports.inb (com1 + 5) d).1 ≡ typed d
  pub status_wait :
      (d : D) → (ports.inb (com1 + 5) d).0 / 32 % 2 ≡ 0 → wait (ports.inb (com1 + 5) d).1 < wait d
  pub status_ready : (d : D) → typed d ≢ [] → (ports.inb (com1 + 5) d).0 % 2 ≡ 1
  pub write_sent : (c : ℕ) (d : D) → sent (ports.outb com1 c d) ≡ sent d ++ c ∷ []
  pub write_typed : (c : ℕ) (d : D) → typed (ports.outb com1 c d) ≡ typed d
  pub read_char :
      (c : ℕ) (cs : List ℕ) (d : D)
      → typed d ≡ c ∷ cs
      → ((ports.inb com1 d).0 ≡ c)
        × (typed (ports.inb com1 d).1 ≡ cs)
        × (sent (ports.inb com1 d).1 ≡ sent d)
