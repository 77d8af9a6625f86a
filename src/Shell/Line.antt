-- ===== src/Shell/Line.antt =====
-- The command line of the shell (src/kernel.c): kgets reads it from the serial port, by src/serial.c,
-- into CommandContext.command, and kshell runs the command that it names.
use side_h_os.Base.{
  ℕ, ◌+◌, ◌≤◌, ◌<◌, ◌≡◌, ◌≢◌, refl, ◌⊎◌, inl, inr, List, [], ◌∷◌, ◌++◌, arith, ap, ◌∙◌, Bool-cases,
  length, ltb, ◌&&◌, some,
}
use side_h_os.Bytes.{Bytes}
use side_h_os.Bytes.Compare.{IsString}
use side_h_os.Kernel.{Kernel, Cmd}
use side_h_os.Serial.{Ports, Io, ◌>>=◌, pure, serial_read_str}
use side_h_os.Serial.Line.{IsLine}
use side_h_os.Serial.Editing.{NoEnd, Holds, type_char, type_all, drop_last, echo_all, erases}
use side_h_os.Serial.Input.{Reads, serial_read_str-Edited}
use side_h_os.Shell.{commands, kshell}
use side_h_os.Shell.Commands.{Chosen, then_clear, kshell-Chosen}

-- The kernel behind it; the pointer that kgets answers is that of its command line. A line of 255
-- characters has its NUL one byte behind the array command[255], which is here one more place of it.
unfoldable pub kgets : {D : Type 0} → Ports D → (fuel rounds : ℕ) → Kernel → Io D Kernel
kgets ports fuel rounds k = do
  command ← serial_read_str ports fuel rounds k.command 0
  pure (record k { command = command })

-- No character is NUL.
abbrev pub NoNul : List ℕ → Type 0
NoNul [] = Unit {0}
NoNul (c ∷ cs) = (c ≢ 0) × NoNul cs

NoNul-drop_last : (l : List ℕ) → NoNul l → NoNul (drop_last l)
NoNul-drop_last [] h = tt
NoNul-drop_last (x ∷ []) h = tt
NoNul-drop_last (x ∷ y ∷ xs) h = (h.0, NoNul-drop_last (y ∷ xs) h.1)

NoNul-append : (l : List ℕ) (c : ℕ) → NoNul l → c ≢ 0 → NoNul (l ++ c ∷ [])
NoNul-append [] c h ne = (ne, tt)
NoNul-append (x ∷ xs) c h ne = (h.0, NoNul-append xs c h.1 ne)

NoNul-type_char : (l : List ℕ) (c : ℕ) → NoNul l → c ≢ 0 → NoNul (type_char l c)
NoNul-type_char l c h ne = elim (Bool-cases (erases c && ltb 0 (length l))) [
  | inl erased ↦ rw erased (NoNul-drop_last l h)
  | inr kept ↦ elim (Bool-cases (ltb (length l) 255)) [
    | inl room ↦ rw (kept, room) (NoNul-append l c h ne)
    | inr full ↦ rw (kept, full) h
  ]
]

NoNul-type_all : (l cs : List ℕ) → NoNul l → NoNul cs → NoNul (type_all l cs)
NoNul-type_all l [] h g = h
NoNul-type_all l (c ∷ cs) h g = NoNul-type_all (type_char l c) cs (NoNul-type_char l c h g.0) g.1

Holds-IsString :
    (m : Bytes) (p : ℕ) (l : List ℕ) → Holds m p l → NoNul l → m (p + length l) ≡ 0 → IsString m p l
Holds-IsString m p [] h g nul = ap m (omega arith) ∙ nul
Holds-IsString m p (x ∷ xs) h g nul =
    (h.0, g.0, Holds-IsString m (p + 1) xs h.1 g.1 (ap m (omega arith) ∙ nul))

module _ {D : Type 0} (ports : Ports D) (line : IsLine ports) where
  -- Where fewer than 255 characters, none of them NUL, wait to be read and then a carriage return or a line feed, kgets ends, with fuel enough for the port and for the edited line, and more rounds than characters. It changes the command line and no other static variable, and sends the echo of the characters and a new line. Then kshell does what stands behind the first name that is equal to the edited line, or answers "Invalid command" where no name is, and clears the command line. The edited line has the characters in order; a backspace or delete takes the last one back where there is one, and is itself added where there is none.
  pub kshell-kgets :
      (fuel rounds stop : ℕ) (cs rest : List ℕ) (d : D) (k : Kernel) (body : Cmd (Unit {0}))
      → line.patience ≤ fuel
      → (stop ≡ 13) ⊎ (stop ≡ 10)
      → line.typed d ≡ cs ++ stop ∷ rest
      → NoEnd cs
      → NoNul cs
      → length cs < rounds
      → length cs < 255
      → length (type_all [] cs) < fuel
      → Chosen (type_all [] cs) (commands fuel) body
      → (k' : Kernel) × (d' : D) × (kgets ports fuel rounds k d ≡ some (k', d'))
        × (k' ≡ record k { command = k'.command })
        × (kshell fuel k' ≡ then_clear body k')
        × Reads ports line (echo_all [] cs ++ 13 ∷ 10 ∷ []) rest d d'
  unfolding kgets
  kshell-kgets fuel rounds stop cs rest d k body enough ends waits none no_nul h in_array short
        chosen =
      let (m, d', run, edited, nul, reads) =
        serial_read_str-Edited ports line fuel rounds k.command 0 stop cs rest d enough ends waits
          none h in
      let text =
        Holds-IsString m 0 (type_all [] cs) edited.holds (NoNul-type_all [] cs tt no_nul) nul in
      (
        record k { command = m },
        d',
        rw run refl,
        refl,
        kshell-Chosen (record k { command = m }) fuel (type_all [] cs) text short body chosen,
        reads,
      )
