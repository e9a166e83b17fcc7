-- ===== src/Auth/Tokens.antt =====
-- What the tokens of internal/auth let through.
use Prim.Native.String.{String}
use traffic_backend_queue.Common.{
  ℕ, ◌+◌, ◌*◌, ◌≤◌, ◌<◌, ◌≡◌, true, false, none, some, ltb, List, [], ◌∷◌, All, All-map,
  if◌then◌else◌, arith, ==_refl,
}
use traffic_backend_queue.Auth.{
  Jwt, AdmissionClaims, admission, invalid_admission, pass, deny, issue_user_token,
  issue_admission_token, admission_middleware, Consumed, consume_admission,
}

module _ (jwt : Jwt) (secret : String) where
  -- The admission middleware gives back the user, the sale and the id that an admission token was
  -- issued with, until the token expires, and denies it from then on.
  pub admission_roundtrip :
      (user sale jti ttl issued now : ℕ) (token : String)
      → issue_admission_token jwt secret user sale jti ttl issued ≡ some token
      → admission_middleware jwt secret now (admission token) ≡ (
          if ltb now (jwt.numeric_date (issued + ttl))
          then pass (record { user_id = user; sale_id = some sale; jti = jti })
          else deny invalid_admission)
  unfolding issue_admission_token admission_middleware
  admission_roundtrip user sale jti ttl issued now token h =
      ground (arith, jwt.parse-sign secret now _ token h)

  -- A user token, which registration gives to everybody, passes the admission middleware too, until
  -- it expires: the middleware does not ask which kind of token it was given.
  pub user_token_admits :
      (user jti ttl issued now : ℕ) (token : String)
      → issue_user_token jwt secret user jti ttl issued ≡ some token
      → now < jwt.numeric_date (issued + ttl)
      → admission_middleware jwt secret now (admission token)
        ≡ pass (record { user_id = user; sale_id = none; jti = jti })
  unfolding issue_user_token admission_middleware
  user_token_admits user jti ttl issued now token h later =
      ground (arith, jwt.parse-sign secret now _ token h)

-- One call of `consume_admission` with the clock, the sale and the id of the token.
pub record Use : Type 0 where
  pub now : ℕ
  pub sale : ℕ
  pub jti : ℕ

pub consume_all : (ttl : ℕ) → List Use → Consumed → Consumed
consume_all ttl [] c = c
consume_all ttl (u ∷ us) c = consume_all ttl us (consume_admission false ttl u.now u.sale u.jti c).0

-- A key that is there when a call runs keeps its time of expiry.
consume_all-live :
    (ttl until sale jti : ℕ) (us : List Use) (c : Consumed)
    → All (λ u. u.now < until) us
    → c sale jti ≡ some until
    → consume_all ttl us c sale jti ≡ some until
unfolding consume_all consume_admission
consume_all-live ttl until sale jti [] c a h = h
consume_all-live ttl until sale jti (u ∷ us) c a h =
    consume_all-live ttl until sale jti us (consume_admission false ttl u.now u.sale u.jti c).0 a.1
      (ground (arith, a.0, h))

consume_admission-some :
    (ttl now sale jti : ℕ) (c : Consumed)
    → (consume_admission false ttl now sale jti c).1 ≡ some true
    → (consume_admission false ttl now sale jti c).0 sale jti ≡ some (now + ttl)
unfolding consume_admission
consume_admission-some ttl now sale jti c h = ground (arith, ==_refl sale, ==_refl jti)

consume_again :
    (ttl now until sale jti : ℕ) (c : Consumed)
    → c sale jti ≡ some until
    → now < until
    → consume_admission false ttl now sale jti c ≡ (c, some false)
unfolding consume_admission
consume_again ttl now until sale jti c h lt = ground arith

accepted :
    (jwt : Jwt) (secret : String) (user sale jti ttl issued now : ℕ) (token : String)
    (claims : AdmissionClaims)
    → issue_admission_token jwt secret user sale jti ttl issued ≡ some token
    → admission_middleware jwt secret now (admission token) ≡ pass claims
    → (claims.jti ≡ jti) × (now < issued + ttl)
accepted jwt secret user sale jti ttl issued now token claims h e = ground (
  arith,
  admission_roundtrip jwt secret user sale jti ttl issued now token h,
  jwt.numeric_date-le (issued + ttl),
)

-- An admission token that was consumed once for a sale, with twice its life as the time to live, is
-- not consumed for that sale again at any time at which the middleware still accepts it, whatever
-- other tokens are consumed in between.
pub admission_single_use :
    (jwt : Jwt) (secret : String) (user sale jti ttl issued first second at : ℕ) (token : String)
    (claims : AdmissionClaims) (us : List Use) (c : Consumed)
    → issue_admission_token jwt secret user sale jti ttl issued ≡ some token
    → issued ≤ first
    → (consume_admission false (ttl * 2) first at jti c).1 ≡ some true
    → All (λ u. u.now ≤ second) us
    → admission_middleware jwt secret second (admission token) ≡ pass claims
    → let c' = consume_all (ttl * 2) us (consume_admission false (ttl * 2) first at jti c).0 in
      consume_admission false (ttl * 2) second at claims.jti c' ≡ (c', some false)
admission_single_use jwt secret user sale jti ttl issued first second at token claims us c h le one
      between e =
    let (same, early) = accepted jwt secret user sale jti ttl issued second token claims h e in
    let c₁ = (consume_admission false (ttl * 2) first at jti c).0 in
    let kept =
      consume_all-live (ttl * 2) (first + ttl * 2) at jti us c₁
        (All-map (λ u. u.now ≤ second) (λ u. u.now < first + ttl * 2) us (λ u b. omega arith)
          between)
        (consume_admission-some (ttl * 2) first at jti c one) in
    rw same (
      consume_again (ttl * 2) second (first + ttl * 2) at jti (consume_all (ttl * 2) us c₁) kept
        (omega arith))
