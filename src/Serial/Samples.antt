-- ===== src/Serial/Samples.antt =====
-- A line that is always ready, for concrete runs of the driver (src/serial.c).
use side_h_os.Base.{ℕ, ◌≡◌, ◌≢◌, refl, List, [], ◌∷◌, ◌++◌, arith, ◌==◌, if◌then◌else◌, ◌%◌, ◌/◌}
use side_h_os.Serial.{Ports, com1}
use side_h_os.Serial.Line.{IsLine}

pub record Wire : Type 0 where
  pub input : List ℕ
  pub output : List ℕ

abbrev pub status : List ℕ → ℕ
status [] = 0x20
status (c ∷ cs) = 0x21

abbrev pub receive : Wire → ℕ × Wire
receive w = elim w.input [ [] ↦ (0, w) | c ∷ cs ↦ (c, record w { input = cs }) ]

abbrev pub wire : Ports Wire
wire = record {
  inb = λ port w. if port == com1 then receive w else (status w.input, w);
  outb = λ port val w. if port == com1 then record w { output = w.output ++ val ∷ [] } else w;
}

abbrev pub status_ready : (l : List ℕ) → l ≢ [] → status l % 2 ≡ 1
status_ready [] h = absurd (h refl)
status_ready (c ∷ cs) h = refl

abbrev pub status_sends : (l : List ℕ) → status l / 32 % 2 ≡ 1
status_sends [] = refl
status_sends (c ∷ cs) = refl

abbrev pub wire-IsLine : IsLine wire
wire-IsLine = record {
  sent = λ w. w.output;
  typed = λ w. w.input;
  wait = λ w. 0;
  patience = 1;
  wait_patience = λ w. omega arith;
  status_sent = λ w. refl;
  status_typed = λ w. refl;
  status_wait = λ w e. absurd (omega (arith, status_sends w.input));
  status_ready = λ w h. status_ready w.input h;
  write_sent = λ c w. refl;
  write_typed = λ c w. refl;
  read_char = λ c cs w e. rw e (refl, refl, refl);
}
