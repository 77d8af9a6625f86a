-- ===== src/Serial.antt =====
-- The serial port driver, src/serial.c. The port is hardware: a state, and what reading and writing
-- an I/O port does to it. The loops that wait for the port run on fuel.
pub mod Line
pub mod Output
pub mod Editing
pub mod Input
pub mod Samples
mod Tests
use side_h_os.Base.{
  ℕ, zero, suc, ◌+◌, ◌-◌, ◌*◌, ◌/◌, ◌%◌, Bool, true, false, Option, none, some, List, [], ◌∷◌, ltb,
  ◌==◌, if◌then◌else◌, ◌&&◌, ◌||◌,
}
use side_h_os.Base.Word.{add64, sub64}
use side_h_os.Bytes.{Bytes, write8}

abbrev pub com1 : ℕ
com1 = 0x3f8

-- The instructions `inb` and `outb`.
pub record Ports (D : Type 0) : Type 0 where
  pub inb : (port : ℕ) → D → ℕ × D
  pub outb : (port val : ℕ) → D → D

-- A command over the port: a value and the port behind it, or a loop out of fuel.
abbrev pub Io : Type 0 → Type 0 → Type 0
Io D A = D → Option (A × D)

module _ {D A B : Type 0} where
  abbrev pub then_io : Option (A × D) → (A → Io D B) → Option (B × D)
  then_io none next = none
  then_io (some (a, d)) next = next a d

  infixl 5 ◌>>=◌
  abbrev pub ◌>>=◌ : Io D A → (A → Io D B) → Io D B
  ◌>>=◌ io next d = then_io (io d) next

  infixl 5 ◌>>◌
  abbrev pub ◌>>◌ : Io D A → Io D B → Io D B
  io >> next = io >>= λ _. next

abbrev pub pure : {D A : Type 0} → A → Io D A
pure a d = some (a, d)

-- An index of type int8_t, as its bit pattern, in an array at p: 128 and above are negative.
abbrev pub at_int8 : (p i : ℕ) → ℕ
at_int8 p i = if ltb i 128 then add64 p i else sub64 p (256 - i)

module _ {D : Type 0} (ports : Ports D) where
  abbrev pub serial_init : D → D
  serial_init d =
      let d = ports.outb (com1 + 1) 0x00 d in
      let d = ports.outb (com1 + 3) 0x80 d in
      let d = ports.outb (com1 + 0) 0x03 d in
      let d = ports.outb (com1 + 1) 0x00 d in
      let d = ports.outb (com1 + 3) 0x03 d in
      let d = ports.outb (com1 + 2) 0xc7 d in ports.outb (com1 + 4) 0x0b d

  -- inb(COM1 + 5) & 0x20
  abbrev pub serial_can_send : D → ℕ × D
  serial_can_send d = let (status, d') = ports.inb (com1 + 5) d in (status / 32 % 2 * 32, d')

  -- inb(COM1 + 5) & 1
  abbrev pub serial_received : D → ℕ × D
  serial_received d = let (status, d') = ports.inb (com1 + 5) d in (status % 2, d')

  -- while (!serial_can_send());
  unfoldable pub wait_send : (fuel : ℕ) → Io D (Unit {0})
  wait_send zero d = none
  wait_send (suc f) d =
      let (ready, d') = serial_can_send d in
      let rest = wait_send f d' in if ready == 0 then rest else some (tt, d')

  unfoldable pub serial_write : (fuel c : ℕ) → Io D (Unit {0})
  unfolding wait_send
  serial_write fuel c = wait_send fuel >> λ d. some (tt, ports.outb com1 c d)

  -- while (!serial_received());
  unfoldable pub wait_received : (fuel : ℕ) → Io D (Unit {0})
  wait_received zero d = none
  wait_received (suc f) d =
      let (ready, d') = serial_received d in
      let rest = wait_received f d' in if ready == 0 then rest else some (tt, d')

  unfoldable pub serial_read : (fuel : ℕ) → Io D ℕ
  unfolding wait_received
  serial_read fuel = wait_received fuel >> λ d. some (ports.inb com1 d)

  -- while (s[index] != '\0') serial_write(s[index++]);
  unfoldable pub write_loop : (fuel rounds : ℕ) → Bytes → (s index : ℕ) → Io D (Unit {0})
  unfolding serial_write
  write_loop fuel zero m s index d = none
  write_loop fuel (suc n) m s index d =
      let rest =
        (serial_write fuel (m (at_int8 s index)) >> write_loop fuel n m s ((index + 1) % 256)) d in
      if m (at_int8 s index) == 0 then some (tt, d) else rest

  unfoldable pub serial_write_str : (fuel rounds : ℕ) → Bytes → (s : ℕ) → Io D (Unit {0})
  unfolding write_loop
  serial_write_str fuel rounds m s = write_loop fuel rounds m s 0

  -- What serial_read_str does with a character that does not end the line: the memory with the
  -- buffer, and the index.
  unfoldable pub edit : (fuel : ℕ) → (buffer character : ℕ) → Bytes × ℕ → Io D (Bytes × ℕ)
  unfolding serial_write
  edit fuel buffer character (m, index) =
      if (character == 8 || character == 127) && ltb 0 index
      then (do
        serial_write fuel 8
        serial_write fuel b' '
        serial_write fuel 8
        pure (write8 m (buffer + (index - 1)) 0, index - 1))
      else if ltb index 255
      then (do
        serial_write fuel character
        pure (write8 (write8 m (buffer + index) character) (buffer + (index + 1)) 0, index + 1))
      else pure (m, index)

  -- while (1) { … }
  unfoldable pub read_loop : (fuel rounds : ℕ) → (buffer : ℕ) → Bytes × ℕ → Io D (Bytes × ℕ)
  unfolding serial_read serial_write edit
  read_loop fuel zero buffer s d = none
  read_loop fuel (suc n) buffer s d = then_io (serial_read fuel d) (λ character.
      if character == 13 || character == 10
      then serial_write fuel 13 >> serial_write fuel 10 >> pure s
      else edit fuel buffer character s >>= λ s. read_loop fuel n buffer s)

  -- The memory after the line, with buffer[index] = '\0' at the end.
  unfoldable pub serial_read_str : (fuel rounds : ℕ) → Bytes → (buffer : ℕ) → Io D Bytes
  unfolding read_loop
  serial_read_str fuel rounds m buffer = do
    (m, index) ← read_loop fuel rounds buffer (m, 0)
    pure (write8 m (buffer + index) 0)
