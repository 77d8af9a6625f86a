-- ===== src/Tasks/Compute.antt =====
-- factorial and fibonacci (src/kernel.c): what they return and report.
use native.Mathlib.Nat.{
  mul_assoc, mul-one, add-zero, div-add-mod, mul-add-mod_self_left, mod-eq_of_lt,
}
use side_h_os.Base.{
  ℕ, zero, suc, ◌+◌, ◌-◌, ◌*◌, ◌/◌, ◌%◌, ◌≤◌, ◌<◌, ◌≡◌, refl, arith, ap, ◌∙◌, sym, List, ◌++◌,
  le→ltb, lt→ltb, leb, some, true, false, ◌⊎◌, inl, inr,
}
use side_h_os.Base.Word.{add64, mul64, u64_mod}
use side_h_os.Kernel.{Kernel, ok}
use side_h_os.Lock.{put_serial_lock}
use side_h_os.Console.{codes, hex, send}
use mathlib.Core.List.{append_assoc}
use side_h_os.Tasks.{factorial_loop, fibonacci_loop, factorial, fibonacci, report, serial_tries}

abbrev pub fact : ℕ → ℕ
fact zero = 1
fact (suc n) = suc n * fact n

abbrev pub fib : ℕ → ℕ
fib zero = 0
fib (suc zero) = 1
fib (suc (suc n)) = fib n + fib (suc n)

-- The loops by the rounds that they go.
abbrev factorial_rounds : (i rounds result : ℕ) → ℕ
factorial_rounds i zero result = result
factorial_rounds i (suc r) result = factorial_rounds (i + 1) r (mul64 result i)

abbrev fibonacci_rounds : (rounds a b : ℕ) → ℕ
fibonacci_rounds zero a b = b
fibonacci_rounds (suc r) a b = fibonacci_rounds r b (add64 a b)

lt→leb : (n i : ℕ) → n < i → leb i n ≡ false
lt→leb n i h = ground arith

le→leb : (i n : ℕ) → i ≤ n → leb i n ≡ true
le→leb i n h = ground arith

module _ (n : ℕ) (fits : n + 1 < u64_mod) where
  step_up : (i : ℕ) → i ≤ n → add64 i 1 ≡ i + 1
  step_up i h = omega arith

  factorial_loop-rounds :
      (f r i result : ℕ)
      → r ≡ n + 1 - i
      → r < f
      → factorial_loop f n i result ≡ some (factorial_rounds i r result)
  unfolding factorial_loop
  factorial_loop-rounds zero r i result e h = absurd (omega arith)
  factorial_loop-rounds (suc f) zero i result e h = rw (lt→leb n i (omega arith)) refl
  factorial_loop-rounds (suc f) (suc r) i result e h =
      rw (le→leb i n (omega arith), step_up i (omega arith))
        (factorial_loop-rounds f r (i + 1) (mul64 result i) (omega arith) (omega arith))

  fibonacci_loop-rounds :
      (f r i a b : ℕ)
      → r ≡ n + 1 - i
      → r < f
      → fibonacci_loop f n i a b ≡ some (fibonacci_rounds r a b)
  unfolding fibonacci_loop
  fibonacci_loop-rounds zero r i a b e h = absurd (omega arith)
  fibonacci_loop-rounds (suc f) zero i a b e h = rw (lt→leb n i (omega arith)) refl
  fibonacci_loop-rounds (suc f) (suc r) i a b e h =
      rw (le→leb i n (omega arith), step_up i (omega arith))
        (fibonacci_loop-rounds f r (i + 1) b (add64 a b) (omega arith) (omega arith))

-- i * (i + 1) * …, r factors
abbrev rising : ℕ → ℕ → ℕ
rising i zero = 1
rising i (suc r) = i * rising (i + 1) r

-- A factor may be taken modulo 2 ^ 64 first.
mod-mul : (x y : ℕ) → x % u64_mod * y % u64_mod ≡ x * y % u64_mod
mod-mul x y = sym (
    ap (λ t. t * y % u64_mod) (sym (div-add-mod x u64_mod))
    ∙ ap (λ t. t % u64_mod) (spread (x / u64_mod) (x % u64_mod) y)
    ∙ mul-add-mod_self_left u64_mod (x / u64_mod * y) (x % u64_mod * y))
  where
    spread : (q r y : ℕ) → (u64_mod * q + r) * y ≡ u64_mod * (q * y) + r * y
    spread q r y = omega arith

factorial_rounds-rising :
    (r i result : ℕ) → factorial_rounds i r result % u64_mod ≡ result * rising i r % u64_mod
factorial_rounds-rising zero i result = omega arith
factorial_rounds-rising (suc r) i result =
    factorial_rounds-rising r (i + 1) (mul64 result i)
    ∙ mod-mul (result * i) (rising (i + 1) r)
    ∙ ap (λ t. t % u64_mod) (mul_assoc result i (rising (i + 1) r))

-- The loop keeps its result below 2 ^ 64.
factorial_rounds-lt : (r i result : ℕ) → result < u64_mod → factorial_rounds i r result < u64_mod
factorial_rounds-lt zero i result h = h
factorial_rounds-lt (suc r) i result h =
    factorial_rounds-lt r (i + 1) (mul64 result i) (omega arith)

fact-rising : (r i : ℕ) → fact i * rising (i + 1) r ≡ fact (i + r)
fact-rising zero i = mul-one (fact i) ∙ ap fact (sym (add-zero i))
fact-rising (suc r) i =
    let next : rising (i + 1 + 1) r ≡ rising (suc i + 1) r = ap (λ j. rising j r) (add_one i) in
    let here : i + 1 ≡ suc i = omega arith in
    ap (λ t. fact i * ((i + 1) * t)) next
    ∙ swap (fact i) i (rising (suc i + 1) r)
    ∙ fact-rising r (suc i)
    ∙ ap fact (suc_out i r)
  where
    add_one : (i : ℕ) → i + 1 + 1 ≡ suc i + 1
    add_one i = omega arith

    swap : (f i t : ℕ) → f * ((i + 1) * t) ≡ suc i * f * t
    swap f i t = omega arith

    suc_out : (i r : ℕ) → suc i + r ≡ i + suc r
    suc_out i r = omega arith

factorial_rounds-fact : (n : ℕ) → factorial_rounds 2 (n - 1) 1 ≡ fact n % u64_mod
factorial_rounds-fact n =
    sym (mod-eq_of_lt (factorial_rounds-lt (n - 1) 2 1 (omega arith)))
    ∙ factorial_rounds-rising (n - 1) 2 1
    ∙ ap (λ t. t % u64_mod) (from_one n)
  where
    from_one : (n : ℕ) → 1 * rising 2 (n - 1) ≡ fact n
    from_one zero = refl
    from_one (suc n) = ap (λ m. 1 * rising 2 m) (pred n) ∙ fact-rising n 1 ∙ ap fact (add_one n)
      where
        pred : (n : ℕ) → suc n - 1 ≡ n
        pred n = omega arith

        add_one : (n : ℕ) → 1 + n ≡ suc n
        add_one n = omega arith

fibonacci_rounds-fib :
    (r i : ℕ)
    → fibonacci_rounds r (fib i % u64_mod) (fib (suc i) % u64_mod) ≡ fib (suc i + r) % u64_mod
fibonacci_rounds-fib zero i = ap (λ n. fib n % u64_mod) (sym (add-zero (suc i)))
fibonacci_rounds-fib (suc r) i =
    ap (λ b. fibonacci_rounds r (fib (suc i) % u64_mod) b) step
    ∙ fibonacci_rounds-fib r (suc i)
    ∙ ap (λ n. fib n % u64_mod) (suc_out (suc i) r)
  where
    step : add64 (fib i % u64_mod) (fib (suc i) % u64_mod) ≡ fib (suc (suc i)) % u64_mod
    step = omega arith

    suc_out : (i r : ℕ) → suc i + r ≡ i + suc r
    suc_out i r = omega arith

-- What a task of this kind sends: the name and the two numbers.
abbrev pub line_of : (name : List ℕ) → (n result : ℕ) → List ℕ
line_of name n result =
    codes "Lock tries - "
    ++ hex 0
    ++ codes " - "
    ++ name
    ++ hex n
    ++ codes " - "
    ++ hex result
    ++ codes "\r\n"

abbrev pub with_sent : List ℕ → Kernel → Kernel
with_sent out k = record k { sent = k.sent ++ out }

append-assoc8 :
    (s a b c d e f g h : List ℕ)
    → (((((((s ++ a) ++ b) ++ c) ++ d) ++ e) ++ f) ++ g) ++ h
      ≡ s ++ (a ++ b ++ c ++ d ++ e ++ f ++ g ++ h)
append-assoc8 s a b c d e f g h = simp append_assoc refl

serial_tries-none :
    (fuel : ℕ) (k : Kernel)
    → k.serial_lock ≡ 0
    → 0 < fuel
    → serial_tries fuel 0 k ≡ ok 0 (put_serial_lock 1 k)
unfolding serial_tries
serial_tries-none zero k free h = absurd (omega arith)
serial_tries-none (suc f) k free h = rw free refl

report-eq :
    (fuel : ℕ) (name : List ℕ) (n result : ℕ) (k : Kernel)
    → k.serial_lock ≡ 0
    → 0 < fuel
    → report fuel (send name) n result k ≡ ok result (with_sent (line_of name n result) k)
report-eq fuel name n result k free enough = rw (serial_tries-none fuel k free enough) (
    ap2 free (
      append-assoc8 k.sent (codes "Lock tries - ") (hex 0) (codes " - ") name (hex n) (codes " - ")
        (hex result) (codes "\r\n")))
  where
    ap2 :
        {out : List ℕ}
        → k.serial_lock ≡ 0
        → out ≡ k.sent ++ line_of name n result
        → ok result (record k { serial_lock = 0; sent = out })
          ≡ ok result (with_sent (line_of name n result) k)
    ap2 free e =
        ap (λ out. ok result (record k { serial_lock = 0; sent = out })) e
        ∙ ap (λ l. ok result (record k { serial_lock = l; sent = k.sent ++ line_of name n result }))
            (sym free)

-- For n below 2 ^ 64 - 1, with the serial lock open and more fuel than n, factorial(n) returns n! modulo 2 ^ 64, sends one line with n and that result, and changes nothing else; the lock is open again.
pub factorial-fact :
    (fuel n : ℕ) (k : Kernel)
    → n + 1 < u64_mod
    → n < fuel
    → k.serial_lock ≡ 0
    → factorial fuel n k
      ≡ ok (fact n % u64_mod) (with_sent (line_of (codes "Factorial - ") n (fact n % u64_mod)) k)
unfolding factorial
factorial-fact fuel n k fits enough free =
    rw
      (
        factorial_loop-rounds n fits fuel (n - 1) 2 1 (omega arith) (omega arith),
        factorial_rounds-fact n,
      )
      (report-eq fuel (codes "Factorial - ") n (fact n % u64_mod) k free (omega arith))

-- For n from 2 to 2 ^ 64 - 2, with the serial lock open and more fuel than n, fibonacci(n) returns the n-th Fibonacci number modulo 2 ^ 64, sends one line with n and that result, and changes nothing else; the lock is open again. For n below 2, fibonacci(n) returns n, the n-th Fibonacci number, and changes nothing.
pub fibonacci-fib :
    (fuel n : ℕ) (k : Kernel)
    → n + 1 < u64_mod
    → n < fuel
    → k.serial_lock ≡ 0
    → ((2 ≤ n)
        × (fibonacci fuel n k
            ≡ ok
                (fib n % u64_mod)
                (with_sent (line_of (codes "Fibonacci - ") n (fib n % u64_mod)) k)))
      ⊎ ((n < 2) × (fib n ≡ n) × (fibonacci fuel n k ≡ ok n k))
unfolding fibonacci
fibonacci-fib fuel n k fits enough free = elim (small_or_not n) [
  | inl many ↦ inl (
    many,
    rw
        (
          le→ltb n 2 many,
          fibonacci_loop-rounds n fits fuel (n - 1) 2 0 1 (omega arith) (omega arith),
          loop n many,
        )
        (report-eq fuel (codes "Fibonacci - ") n (fib n % u64_mod) k free (omega arith)),
  )
  | inr few ↦ inr (few, few_fib n few, rw (lt→ltb n 2 few) refl)
]
  where
    small_or_not : (n : ℕ) → (2 ≤ n) ⊎ (n < 2)
    small_or_not n = omega arith

    few_fib : (n : ℕ) → n < 2 → fib n ≡ n
    few_fib zero h = refl
    few_fib (suc zero) h = refl
    few_fib (suc (suc n)) h = absurd (omega arith)

    loop : (n : ℕ) → 2 ≤ n → fibonacci_rounds (n - 1) 0 1 ≡ fib n % u64_mod
    loop n h = fibonacci_rounds-fib (n - 1) 0 ∙ ap (λ n. fib n % u64_mod) (back n h)
      where
        back : (n : ℕ) → 2 ≤ n → suc 0 + (n - 1) ≡ n
        back n h = omega arith
