-- ===== src/Config/Numbers.antt =====
-- Numbers in the environment, as `intEnv` of internal/config/config.go reads them.
use traffic_backend_queue.Common.{
  ℕ, zero, suc, ◌+◌, ◌-◌, ◌*◌, ◌/◌, ◌%◌, ◌^◌, ◌≡◌, ◌≤◌, ◌<◌, refl, ◌∙◌, ap, true, [], ◌∷◌, ltb,
  if◌then◌else◌, All, arith, ℤ, pos, Bool-cases, inl, inr, ◌≢◌,
}
use traffic_backend_queue.Config.{
  Text, is_digit, fits, read_digits, number, read_signed, atoi, int_or, int_env, Environment,
  Variable, number_or,
}

-- The number that a run of digits denotes, after the number before it.
abbrev pub horner : ℕ → Text → ℕ
horner n [] = n
horner n (c ∷ cs) = horner (10 * n + (c - b'0')) cs

abbrev pub AllDigits : Text → Type 0
AllDigits = All λ c. is_digit c ≡ true

le-horner : (n : ℕ) (cs : Text) → n ≤ horner n cs
le-horner n [] = omega arith
le-horner n (c ∷ cs) = omega (arith, le-horner (10 * n + (c - b'0')) cs)

-- The digits of a number below 64 bits are read as that number.
read_digits-fits :
    (n : ℕ) (cs : Text)
    → AllDigits cs
    → horner n cs < 2 ^ 64
    → read_digits n cs ≡ fits (horner n cs)
unfolding read_digits
read_digits-fits n [] a h = refl
read_digits-fits n (c ∷ cs) a h = ground (
  arith,
  a.0,
  le-horner (10 * n + (c - b'0')) cs,
  read_digits-fits (10 * n + (c - b'0')) cs a.1 h,
)

-- The decimal digits of a number, in front of a text. As many rounds as the number are enough.
print : ℕ → ℕ → Text → Text
print zero n s = s
print (suc fuel) n s =
    let rest = print fuel (n / 10) ((b'0' + n % 10) ∷ s) in
    if ltb n 10 then (b'0' + n) ∷ s else rest

unfoldable pub decimal : ℕ → Text
unfolding print
decimal n = print (suc n) n []

horner-print :
    (fuel n : ℕ) (s : Text)
    → n < fuel
    → AllDigits s
    → (horner 0 (print fuel n s) ≡ horner n s) × AllDigits (print fuel n s) × (print fuel n s ≢ [])
unfolding print
horner-print zero n s h a = absurd (omega arith)
horner-print (suc fuel) n s h a = elim (Bool-cases (ltb n 10)) [
  | inl small ↦ rw (small, print) (ground arith, (ground arith, a), λ e. cc)
  | inr large ↦
      let (x, y, z) =
        horner-print fuel (n / 10) ((b'0' + n % 10) ∷ s) (ground arith) (ground arith, a) in
      rw (large, print) (x ∙ ap (λ m. horner m s) (omega arith), y, z)
]

atoi-digits :
    (s : Text) → AllDigits s → s ≢ [] → horner 0 s < 2 ^ 63 → atoi s ≡ number (pos (horner 0 s))
unfolding atoi read_signed
atoi-digits [] a n h = absurd (n refl)
atoi-digits (c ∷ cs) a n h =
    let r = read_digits-fits 0 (c ∷ cs) a (omega arith) in ground (arith, r, a.0)

-- A variable set to the decimal digits of a number below 2 ^ 63 is read as that number, whatever the
-- default is.
pub int_env-decimal :
    (env : Environment) (k : Variable) (default : ℤ) (n : ℕ)
    → n < 2 ^ 63
    → env k ≡ decimal n
    → int_env env k default ≡ pos n
unfolding int_env decimal
int_env-decimal env k default n h e =
    let (same, digits, there) = horner-print (suc n) n [] (omega arith) tt in
    let read = atoi-digits (decimal n) digits there (omega (arith, same)) in
    ap (int_or default) e ∙ int_or-number (decimal n) there (read ∙ ap (λ m. number (pos m)) same)
  where
    int_or-number : (s : Text) → s ≢ [] → atoi s ≡ number (pos n) → int_or default s ≡ pos n
    int_or-number [] there q = absurd (there refl)
    int_or-number (c ∷ cs) there q = ap (number_or default) q
