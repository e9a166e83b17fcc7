-- ===== src/Auth.antt =====
-- internal/auth: user tokens, admission tokens, the two middlewares, and the single use of an
-- admission token.
pub mod Tokens
pub mod Toy
pub mod Examples
use Prim.Native.String.{String}
use traffic_backend_queue.Common.{
  ℕ, ◌+◌, ◌≤◌, Bool, true, false, ◌==◌, ◌&&◌, Option, none, some, ◌≡◌, ltb, if◌then◌else◌,
}

-- The claims in a token. A user token has no `sid`, which the program decodes as "".
pub record Payload : Type 0 where
  pub uid : ℕ
  pub sid : Option ℕ
  pub jti : ℕ
  pub iat : ℕ
  pub exp : ℕ

-- The package golang-jwt, with its documented behaviour: a token signed with a secret parses under
-- that secret, into any struct of claims, until it expires, and times are cut to whole seconds.
pub record Jwt : Type 0 where
  pub sign : String → Payload → Option String
  pub parse : String → ℕ → String → Option Payload
  pub numeric_date : ℕ → ℕ
  pub numeric_date-le : (t : ℕ) → numeric_date t ≤ t
  pub parse-sign :
      (secret : String) (now : ℕ) (p : Payload) (token : String)
      → sign secret p ≡ some token
      → parse secret now token ≡ (if ltb now p.exp then some p else none)

pub record Claims : Type 0 where
  pub user_id : ℕ

pub record AdmissionClaims : Type 0 where
  pub user_id : ℕ
  pub sale_id : Option ℕ
  pub jti : ℕ

-- The header `Authorization`, split at the prefixes "Bearer " and "Admission ".
pub data Authorization : Type 0 where
  bearer : String → Authorization
  admission : String → Authorization
  other : Authorization

pub data Denial : Type 0 where
  unauthorized admission_required invalid_admission : Denial

-- What a middleware does: answer itself, or call the next handler with values in the context.
pub data Gate {ℓ} (A : Type ℓ) : Type ℓ where
  pass : A → Gate A
  deny : Denial → Gate A

module _ (jwt : Jwt) where
  -- `jti` is the text of `uuid.New()`, drawn by the caller.
  unfoldable pub issue_user_token : String → ℕ → ℕ → ℕ → ℕ → Option String
  issue_user_token secret user_id jti ttl now = jwt.sign secret (record {
    uid = user_id;
    sid = none;
    jti = jti;
    iat = jwt.numeric_date now;
    exp = jwt.numeric_date (now + ttl);
  })

  unfoldable pub issue_admission_token : String → ℕ → ℕ → ℕ → ℕ → ℕ → Option String
  issue_admission_token secret user_id sale_id jti ttl now = jwt.sign secret (record {
    uid = user_id;
    sid = some sale_id;
    jti = jti;
    iat = jwt.numeric_date now;
    exp = jwt.numeric_date (now + ttl);
  })

  unfoldable pub parse_user_token : String → ℕ → String → Option Claims
  parse_user_token secret now token = elim (jwt.parse secret now token) [
    | none ↦ none
    | some p ↦ some (record { user_id = p.uid })
  ]

  unfoldable pub parse_admission_token : String → ℕ → String → Option AdmissionClaims
  parse_admission_token secret now token = elim (jwt.parse secret now token) [
    | none ↦ none
    | some p ↦ some (record { user_id = p.uid; sale_id = p.sid; jti = p.jti })
  ]

  unfoldable pub middleware : String → ℕ → Authorization → Gate Claims
  unfolding parse_user_token
  middleware secret now (bearer token) = elim (parse_user_token secret now token) [
    | none ↦ deny unauthorized
    | some claims ↦ pass claims
  ]
  middleware secret now (admission token) = deny unauthorized
  middleware secret now other = deny unauthorized

  unfoldable pub admission_middleware : String → ℕ → Authorization → Gate AdmissionClaims
  unfolding parse_admission_token
  admission_middleware secret now (bearer token) = deny admission_required
  admission_middleware secret now (admission token) =
      elim (parse_admission_token secret now token) [
        | none ↦ deny invalid_admission
        | some claims ↦ pass claims
      ]
  admission_middleware secret now other = deny admission_required

-- The keys `admission:used:<sale>:<jti>:consumed` of Redis, each with the time at which it expires.
abbrev pub Consumed : Type 0
Consumed = ℕ → ℕ → Option ℕ

abbrev pub live : ℕ → Option ℕ → Bool
live now none = false
live now (some expires) = ltb now expires

-- `SET key 1 NX PX ttl`: the answer is `none` if Redis fails, and otherwise whether the key was set.
unfoldable pub consume_admission : Bool → (ttl now sale jti : ℕ) → Consumed → Consumed × Option Bool
consume_admission fails ttl now sale jti c =
    if fails then (c, none) else if live now (c sale jti) then (c, some false) else (
      λ sale' jti'. if sale == sale' && jti == jti' then some (now + ttl) else c sale' jti',
      some true,
    )
