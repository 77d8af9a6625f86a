-- ===== src/Serial/Input.antt =====
-- Input over the serial port (src/serial.c): serial_read, and the line editor serial_read_str.
use mathlib.Core.List.{append_assoc, append-nil}
use side_h_os.Base.{
  ℕ, zero, suc, ◌+◌, ◌-◌, ◌≤◌, ◌<◌, ◌≡◌, ◌≢◌, refl, ◌⊎◌, inl, inr, some, List, [], ◌∷◌, ◌++◌, arith,
  ap, ◌∙◌, sym, ltb, ◌==◌, ◌&&◌, ◌||◌, true, false, Bool-cases, length, length-append, ltb→lt,
}
use side_h_os.Bytes.{Bytes, write8}
use side_h_os.Serial.{
  Ports, com1, wait_received, serial_read, edit, read_loop, serial_read_str, serial_received,
}
use side_h_os.Serial.Line.{IsLine}
use side_h_os.Serial.Output.{Sends, Sends-nil, Sends-append, serial_write-Sends}
use side_h_os.Serial.Editing.{
  erases, type_char, echo, type_all, echo_all, NoEnd, length-drop_last, Holds-agree, write8-other,
  write8-same, Edited, erase-Edited, add-Edited,
}

module _ {D : Type 0} (ports : Ports D) (line : IsLine ports) where
  -- The port behind d' has the bytes `rest` to read, and has sent the bytes `out` since d.
  pub record Reads (out rest : List ℕ) (d d' : D) : Type 0 where
    pub sent : line.sent d' ≡ line.sent d ++ out
    pub typed : line.typed d' ≡ rest

  -- Where a byte waits, serial_read takes it, at the first look.
  pub serial_read-Reads :
      (fuel c : ℕ) (cs : List ℕ) (d : D)
      → line.typed d ≡ c ∷ cs
      → 0 < fuel
      → (d' : D) × (serial_read ports fuel d ≡ some (c, d')) × Reads [] cs d d'
  unfolding serial_read wait_received
  serial_read-Reads zero c cs d waits pos = elim pos [ ]
  serial_read-Reads (suc f) c cs d waits pos =
      let looked = (ports.inb (com1 + 5) d).1 in
      let ready : ((serial_received ports d).0 == 0) ≡ false =
        not_zero _ (line.status_ready d (λ e. nonempty c cs (sym waits ∙ e))) in
      let (value, rest, sent) = line.read_char c cs looked (line.status_typed d ∙ waits) in
      (
        (ports.inb com1 looked).1,
        rw ready (ap some (ap (λ v. (v, (ports.inb com1 looked).1)) value)),
        record { sent = sent ∙ line.status_sent d ∙ sym (append-nil _); typed = rest },
      )
    where
      not_zero : (x : ℕ) → x ≡ 1 → (x == 0) ≡ false
      not_zero x e = ground arith

      nonempty : (c : ℕ) (cs : List ℕ) → (c ∷ cs) ≢ []
      nonempty c cs e = cc

  -- One character that does not end the line.
  edit-Edited :
      (fuel c : ℕ) (m₀ : Bytes) (buffer : ℕ) (l : List ℕ) (m : Bytes) (d : D)
      → line.patience ≤ fuel
      → Edited m₀ buffer l m
      → (m' : Bytes) × (d' : D) × (edit ports fuel buffer c (m, length l) d
          ≡ some ((m', length (type_char l c)), d'))
        × Edited m₀ buffer (type_char l c) m'
        × Sends ports line (echo l c) d d'
  unfolding edit
  edit-Edited fuel c m₀ buffer l m d enough h = elim (Bool-cases (erases c && ltb 0 (length l))) [
    | inl back ↦
        let (d₁, e₁, s₁) = serial_write-Sends ports line fuel 8 d enough in
        let (d₂, e₂, s₂) = serial_write-Sends ports line fuel b' ' d₁ enough in
        let (d₃, e₃, s₃) = serial_write-Sends ports line fuel 8 d₂ enough in
        (
          write8 m (buffer + (length l - 1)) 0,
          d₃,
          rw (back, e₁, e₂, e₃, length-drop_last l) refl,
          rw back (erase-Edited m₀ buffer l m h (ground (arith, back))),
          rw back (Sends-append ports line s₁ (Sends-append ports line s₂ s₃)),
        )
    | inr plain ↦ elim (Bool-cases (ltb (length l) 255)) [
      | inl room ↦
          let (d₁, e₁, s₁) = serial_write-Sends ports line fuel c d enough in
          (
            write8 (write8 m (buffer + length l) c) (buffer + (length l + 1)) 0,
            d₁,
            rw (plain, room, e₁, length-append l (c ∷ [])) refl,
            rw (plain, room) (add-Edited m₀ buffer l m h c (ltb→lt _ _ room)),
            rw (plain, room) s₁,
          )
      | inr full ↦ (
        m,
        d,
        rw (plain, full) refl,
        rw (plain, full) h,
        rw (plain, full) (Sends-nil ports line d),
      )
    ]
  ]

  read_loop-Edited :
      (fuel : ℕ) (m₀ : Bytes) (buffer stop : ℕ) (rest : List ℕ)
      → line.patience ≤ fuel
      → (stop ≡ 13) ⊎ (stop ≡ 10)
      → (rounds : ℕ) (cs l : List ℕ) (m : Bytes) (d : D) → line.typed d ≡ cs ++ stop ∷ rest
      → NoEnd cs
      → length cs < rounds
      → Edited m₀ buffer l m
      → (m' : Bytes) × (d' : D) × (read_loop ports fuel rounds buffer (m, length l) d
          ≡ some ((m', length (type_all l cs)), d'))
        × Edited m₀ buffer (type_all l cs) m'
        × Reads (echo_all l cs ++ 13 ∷ 10 ∷ []) rest d d'
  unfolding read_loop
  read_loop-Edited fuel m₀ buffer stop rest enough ends zero cs l m d waits none h ed = elim h [ ]
  read_loop-Edited fuel m₀ buffer stop rest enough ends (suc n) [] l m d waits none h ed =
      let (d₀, e₀, r₀) =
        serial_read-Reads fuel stop rest d waits (omega (arith, line.wait_patience d)) in
      let (d₁, e₁, s₁) = serial_write-Sends ports line fuel 13 d₀ enough in
      let (d₂, e₂, s₂) = serial_write-Sends ports line fuel 10 d₁ enough in
      let s = Sends-append ports line s₁ s₂ in
      (
        m,
        d₂,
        rw (e₀, is_end stop ends, e₁, e₂) refl,
        ed,
        record {
          sent = s.sent ∙ ap (λ out. out ++ 13 ∷ 10 ∷ []) (r₀.sent ∙ append-nil _);
          typed = s.typed ∙ r₀.typed;
        },
      )
    where
      is_end : (c : ℕ) → (c ≡ 13) ⊎ (c ≡ 10) → (c == 13 || c == 10) ≡ true
      is_end c h = ground arith
  read_loop-Edited fuel m₀ buffer stop rest enough ends (suc n) (c ∷ cs) l m d waits none h ed =
      let (d₀, e₀, r₀) =
        serial_read-Reads fuel c (cs ++ stop ∷ rest) d waits
          (omega (arith, line.wait_patience d)) in
      let (m₁, d₁, e₁, ed₁, s₁) = edit-Edited fuel c m₀ buffer l m d₀ enough ed in
      let (m₂, d₂, e₂, ed₂, r₂) =
        read_loop-Edited fuel m₀ buffer stop rest enough ends n cs (type_char l c) m₁ d₁
          (s₁.typed ∙ r₀.typed) none.2 (omega arith) ed₁ in
      (
        m₂,
        d₂,
        rw (e₀, no_end c none.0 none.1, e₁) e₂,
        ed₂,
        record {
          sent =
              r₂.sent
              ∙ ap (λ out. out ++ (echo_all (type_char l c) cs ++ 13 ∷ 10 ∷ []))
                  (s₁.sent ∙ ap (λ out. out ++ echo l c) (r₀.sent ∙ append-nil _))
              ∙ append_assoc (line.sent d) (echo l c) _
              ∙ ap (λ out. line.sent d ++ out) (sym (append_assoc (echo l c) _ _));
          typed = r₂.typed;
        },
      )
    where
      no_end : (c : ℕ) → c ≢ 13 → c ≢ 10 → (c == 13 || c == 10) ≡ false
      no_end c h g = ground arith

  -- Where the characters cs wait to be read and then a carriage return or a line feed, serial_read_str ends, with fuel enough for the line and more rounds than characters. It has read exactly these; the buffer holds the edited line with a NUL behind it: a backspace or delete takes the last character of the line back, where there is one, and is itself added to an empty line, like any other character, each only while the line has fewer than 255; memory outside the 256 bytes from the buffer is what it was; and the port has sent the echo of the characters and a new line.
  pub serial_read_str-Edited :
      (fuel rounds : ℕ) (m : Bytes) (buffer stop : ℕ) (cs rest : List ℕ) (d : D)
      → line.patience ≤ fuel
      → (stop ≡ 13) ⊎ (stop ≡ 10)
      → line.typed d ≡ cs ++ stop ∷ rest
      → NoEnd cs
      → length cs < rounds
      → (m' : Bytes) × (d' : D) × (serial_read_str ports fuel rounds m buffer d ≡ some (m', d'))
        × Edited m buffer (type_all [] cs) m'
        × (m' (buffer + length (type_all [] cs)) ≡ 0)
        × Reads (echo_all [] cs ++ 13 ∷ 10 ∷ []) rest d d'
  unfolding serial_read_str
  serial_read_str-Edited fuel rounds m buffer stop cs rest d enough ends waits none h =
      let start : Edited m buffer [] m = record {
        holds = tt;
        fits = omega arith;
        others = λ q out. refl;
      } in
      let (m₁, d₁, e₁, ed, r) =
        read_loop-Edited fuel m buffer stop rest enough ends rounds cs [] m d waits none h start in
      let l = type_all [] cs in
      (
        write8 m₁ (buffer + length l) 0,
        d₁,
        rw e₁ refl,
        record {
          holds =
              Holds-agree m₁ _ buffer l
                (λ q u v. write8-other m₁ (buffer + length l) 0 q (λ e. omega arith)) ed.holds;
          fits = ed.fits;
          others = λ q out.
              write8-other m₁ (buffer + length l) 0 q (λ e. omega (arith, ed.fits))
              ∙ ed.others q out;
        },
        write8-same m₁ (buffer + length l) 0,
        r,
      )
