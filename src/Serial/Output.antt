-- ===== src/Serial/Output.antt =====
-- Output over the serial port (src/serial.c): serial_write and serial_write_str.
use mathlib.Core.List.{append_assoc, append-nil}
use side_h_os.Base.{
  ℕ, zero, suc, ◌+◌, ◌%◌, ◌≤◌, ◌<◌, ◌≡◌, ◌≢◌, refl, inl, inr, some, false, List, [], ◌∷◌, ◌++◌,
  arith, ap, ◌∙◌, sym, ◌==◌, Bool-cases, length,
}
use side_h_os.Base.Word.{u64_mod}
use side_h_os.Bytes.{Bytes}
use side_h_os.Bytes.Compare.{IsString}
use side_h_os.Serial.{
  Ports, com1, at_int8, wait_send, serial_write, write_loop, serial_write_str, serial_can_send,
}
use side_h_os.Serial.Line.{IsLine}

index_eq : (s i : ℕ) → s + 128 ≤ u64_mod → i < 128 → at_int8 s i ≡ s + i
index_eq s i room small = ground arith

not_nul : (c : ℕ) → c ≢ 0 → (c == 0) ≡ false
not_nul c h = ground arith

next_eq : (i : ℕ) → i < 128 → (i + 1) % 256 ≡ i + 1
next_eq i h = omega arith

module _ {D : Type 0} (ports : Ports D) (line : IsLine ports) where
  -- The port behind d has sent the bytes `out` more, and has the same bytes to read.
  pub record Sends (out : List ℕ) (d d' : D) : Type 0 where
    pub sent : line.sent d' ≡ line.sent d ++ out
    pub typed : line.typed d' ≡ line.typed d

  pub Sends-nil : (d : D) → Sends [] d d
  Sends-nil d = record { sent = sym (append-nil _); typed = refl }

  pub Sends-append :
      {xs ys : List ℕ} {d d₁ d₂ : D} → Sends xs d d₁ → Sends ys d₁ d₂ → Sends (xs ++ ys) d d₂
  Sends-append {xs} {ys} {d} s t = record {
    sent = t.sent ∙ ap (λ zs. zs ++ ys) s.sent ∙ append_assoc (line.sent d) xs ys;
    typed = t.typed ∙ s.typed;
  }

  wait_send-Sends :
      (f : ℕ) (d : D)
      → line.wait d < f
      → (d' : D) × (wait_send ports f d ≡ some (tt, d')) × Sends [] d d'
  unfolding wait_send
  wait_send-Sends zero d h = elim h [ ]
  wait_send-Sends (suc f) d h =
      let looked : Sends [] d (ports.inb (com1 + 5) d).1 = record {
        sent = line.status_sent d ∙ sym (append-nil _);
        typed = line.status_typed d;
      } in
      elim (Bool-cases ((serial_can_send ports d).0 == 0)) [
        | inl busy ↦
            let (d', e, rest) =
              wait_send-Sends f (ports.inb (com1 + 5) d).1
                (omega (arith, line.status_wait d (ground arith))) in
            (d', rw busy e, Sends-append looked rest)
        | inr ready ↦ ((ports.inb (com1 + 5) d).1, rw ready refl, looked)
      ]

  -- With fuel for as many looks at the status as the line may need, serial_write ends, and exactly the byte c is sent.
  pub serial_write-Sends :
      (fuel c : ℕ) (d : D)
      → line.patience ≤ fuel
      → (d' : D) × (serial_write ports fuel c d ≡ some (tt, d')) × Sends (c ∷ []) d d'
  unfolding serial_write
  serial_write-Sends fuel c d enough =
      let (d', e, s) = wait_send-Sends fuel d (omega (arith, line.wait_patience d)) in
      (
        ports.outb com1 c d',
        rw e refl,
        Sends-append s (record { sent = line.write_sent c d'; typed = line.write_typed c d' }),
      )

  write_loop-Sends :
      (fuel : ℕ) (m : Bytes) (s : ℕ)
      → line.patience ≤ fuel
      → s + 128 ≤ u64_mod
      → (rounds i : ℕ) (cs : List ℕ) (d : D) → IsString (λ j. m (s + j)) i cs
      → i + length cs < 128
      → length cs < rounds
      → (d' : D) × (write_loop ports fuel rounds m s i d ≡ some (tt, d')) × Sends cs d d'
  unfolding write_loop
  write_loop-Sends fuel m s enough room zero i cs d text short h = elim h [ ]
  write_loop-Sends fuel m s enough room (suc n) i [] d text short h =
      (d, rw (index_eq s i room (omega arith), text) refl, Sends-nil d)
  write_loop-Sends fuel m s enough room (suc n) i (c ∷ cs) d text short h =
      let (d₁, e₁, one) = serial_write-Sends fuel c d enough in
      let (d₂, e₂, rest) =
        write_loop-Sends fuel m s enough room n (i + 1) cs d₁ text.2 (omega arith) (omega arith) in
      (
        d₂,
        rw (index_eq s i room (omega arith), text.0, not_nul c text.1, e₁, next_eq i (omega arith))
            e₂,
        Sends-append one rest,
      )

  -- serial_write_str of a NUL-terminated text of fewer than 128 characters, in memory that does not wrap around, ends where the fuel is enough for the line and the rounds are more than the characters, and sends exactly the characters, in order.
  pub serial_write_str-Sends :
      (fuel rounds : ℕ) (m : Bytes) (s : ℕ) (cs : List ℕ) (d : D)
      → line.patience ≤ fuel
      → s + 128 ≤ u64_mod
      → IsString (λ j. m (s + j)) 0 cs
      → length cs < 128
      → length cs < rounds
      → (d' : D) × (serial_write_str ports fuel rounds m s d ≡ some (tt, d')) × Sends cs d d'
  unfolding serial_write_str
  serial_write_str-Sends fuel rounds m s cs d enough room text short h =
      write_loop-Sends fuel m s enough room rounds 0 cs d text (omega arith) h
