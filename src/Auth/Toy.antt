-- ===== src/Auth/Toy.antt =====
-- A concrete stand-in for golang-jwt, for the examples: it signs one payload only.
use Prim.Native.String.{String}
use traffic_backend_queue.Common.{
  ℕ, ◌≡◌, Bool, true, false, ◌&&◌, ◌==◌, Option, none, some, ltb, if◌then◌else◌, arith,
}
use native.Mathlib.Nat.{le_refl}
use traffic_backend_queue.Auth.{Jwt, Payload}

same_option : Option ℕ → Option ℕ → Bool
same_option none none = true
same_option (some a) (some b) = a == b
same_option _ _ = false

same_payload : Payload → Payload → Bool
unfolding same_option
same_payload p q =
    p.uid == q.uid && p.jti == q.jti && p.iat == q.iat && p.exp == q.exp && same_option p.sid q.sid

pub toy_sign : Payload → String → Payload → Option String
unfolding same_payload
toy_sign q secret p = if same_payload p q then some "token" else none

pub toy_parse : Payload → String → ℕ → String → Option Payload
toy_parse q secret now token = if ltb now q.exp then some q else none

same_option-eq : (a b : Option ℕ) → same_option a b ≡ true → a ≡ b
unfolding same_option
same_option-eq none none h = ground arith
same_option-eq none (some b) h = ground arith
same_option-eq (some a) none h = ground arith
same_option-eq (some a) (some b) h = ground arith

pub toy_parse-sign :
    (q : Payload) (secret : String) (now : ℕ) (p : Payload) (token : String)
    → toy_sign q secret p ≡ some token
    → toy_parse q secret now token ≡ (if ltb now p.exp then some p else none)
unfolding toy_sign toy_parse same_payload
toy_parse-sign q secret now p token h = ground (arith, same_option-eq p.sid q.sid)

unfoldable pub toy : Payload → Jwt
unfolding toy_sign toy_parse
toy q = record {
  sign = toy_sign q;
  parse = toy_parse q;
  numeric_date = λ t. t;
  numeric_date-le = λ t. le_refl t;
  parse-sign = toy_parse-sign q;
}

-- User 7 is issued a token at time 100, for 60 units of time.
abbrev pub user_payload : Payload
user_payload = record { uid = 7; sid = none; jti = 5; iat = 100; exp = 160 }

abbrev pub admission_payload : Payload
admission_payload = record { uid = 7; sid = some 1; jti = 5; iat = 100; exp = 160 }
