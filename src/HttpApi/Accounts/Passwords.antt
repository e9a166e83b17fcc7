-- ===== src/HttpApi/Accounts/Passwords.antt =====
-- Who can sign in, over the handlers register and login of internal/httpapi/handlers.go.
use Prim.Native.String.{String}
use traffic_backend_queue.Common.{
  ℕ, ◌+◌, ◌≡◌, ◌<◌, refl, sym, ap, ◌∙◌, Bool, true, false, Option, none, some, List, [], ◌∷◌, arith,
  Option-cases, Bool-cases, inl, inr,
}
use traffic_backend_queue.Auth.{Jwt, bearer, pass, middleware, parse_user_token, issue_user_token}
use traffic_backend_queue.HttpApi.Accounts.{
  Bcrypt, Account, Answer, error, signed_in, find_account, insert_account, user_token_ttl,
  Credentials, Draws, register, login,
}

-- A request for a registration, with what the libraries draw for it and whether its INSERT fails.
pub record Registration : Type 0 where
  pub insert_fails : Bool
  pub draws : Draws
  pub body : Option Credentials

insert_account-found :
    (fails : Bool) (a : Account) (as' bs : List Account)
    → insert_account fails a as' ≡ some bs
    → (find_account a.email bs ≡ some a)
      × ((email : ℕ) (b : Account)
          → find_account email as' ≡ some b
          → find_account email bs ≡ some b)
unfolding insert_account find_account
insert_account-found fails a as' bs h = (ground arith, λ email b q. ground arith)

module _ (bcrypt : Bcrypt) (jwt : Jwt) (secret : String) where
  pub register_all : List Registration → List Account → List Account
  register_all [] accounts = accounts
  register_all (r ∷ rs) accounts =
      register_all rs (register bcrypt jwt secret r.insert_fails r.draws r.body accounts).0

  -- The ways through a registration.
  register_cases :
      (P : List Account × Answer → Type 0) (fails : Bool) (d : Draws) (body : Option Credentials)
      (accounts : List Account)
      → ((status : ℕ) (code : String) → P (accounts, error status code))
      → ((req : Credentials) (h : ℕ) (accounts' : List Account)
          → body ≡ some req
          → bcrypt.hash d.salt req.password ≡ some h
          → insert_account fails
              (record { id = d.id; email = req.email; password_hash = h })
              accounts
            ≡ some accounts'
          → P (
            accounts',
            signed_in 201 d.id (issue_user_token jwt secret d.id d.jti user_token_ttl d.now),
          ))
      → P (register bcrypt jwt secret fails d body accounts)
  unfolding register
  register_cases P fails d none accounts refused made = refused 400 "bad_request"
  register_cases P fails d (some req) accounts refused made =
      elim (Option-cases (bcrypt.hash d.salt req.password)) [
        | inl e ↦ rw (e, register) (refused 500 "internal")
        | inr (h, e) ↦
            elim (Option-cases (
              insert_account fails (record { id = d.id; email = req.email; password_hash = h })
                accounts)) [
                  | inl q ↦ rw (e, q, register) (refused 409 "exists")
                  | inr (accounts', q) ↦ rw (e, q, register) (made req h accounts' refl e q)
                ]
      ]

  register_keeps :
      (fails : Bool) (d : Draws) (body : Option Credentials) (accounts : List Account) (email : ℕ)
      (a : Account)
      → find_account email accounts ≡ some a
      → find_account email (register bcrypt jwt secret fails d body accounts).0 ≡ some a
  register_keeps fails d body accounts email a h =
      register_cases (λ r. find_account email r.0 ≡ some a) fails d body accounts (λ st code. h)
        (λ req k accounts' b e q. (insert_account-found fails _ accounts accounts' q).1 email a h)

  register_all_keeps :
      (rs : List Registration) (accounts : List Account) (email : ℕ) (a : Account)
      → find_account email accounts ≡ some a
      → find_account email (register_all rs accounts) ≡ some a
  unfolding register_all
  register_all_keeps [] accounts email a h = h
  register_all_keeps (r ∷ rs) accounts email a h =
      register_all_keeps rs (register bcrypt jwt secret r.insert_fails r.draws r.body accounts).0
        email a (register_keeps r.insert_fails r.draws r.body accounts email a h)

  -- The row that a registration has made.
  Made : Draws → Credentials → List Account × Answer → Type 0
  Made d req r =
      (user : ℕ) (token : Option String)
      → r.1 ≡ signed_in 201 user token
      → (a : Account) × (find_account req.email r.0 ≡ some a)
        × (a.id ≡ user)
        × (bcrypt.compare a.password_hash req.password ≡ true)

  register-Made :
      (fails : Bool) (d : Draws) (req : Credentials) (accounts : List Account)
      → Made d req (register bcrypt jwt secret fails d (some req) accounts)
  unfolding Made
  register-Made fails d req accounts =
      register_cases (Made d req) fails d (some req) accounts (λ st code user token h. cc)
        (λ req' h accounts' b e q user token s.
          let a : Account = record { id = d.id; email = req'.email; password_hash = h } in
          let same : req' ≡ req = cc in
          (
            a,
            ap (λ (x : Credentials). find_account x.email accounts') (sym same)
                ∙ (insert_account-found fails a accounts accounts' q).0,
            ground arith,
            ap (λ (x : Credentials). bcrypt.compare h x.password) (sym same)
                ∙ bcrypt.compare-hash d.salt req'.password h e,
          ))

  -- Who has registered can sign in with the same email and password, as the same user, where the query
  -- of the sign-in does not fail, whatever is registered in between.
  pub login-register :
      (fails : Bool) (d d' : Draws) (req : Credentials) (accounts : List Account) (user : ℕ)
      (token : Option String) (rs : List Registration)
      → (register bcrypt jwt secret fails d (some req) accounts).1 ≡ signed_in 201 user token
      → login bcrypt jwt secret false d'
          (some req)
          (register_all rs (register bcrypt jwt secret fails d (some req) accounts).0)
        ≡ signed_in 200 user (issue_user_token jwt secret user d'.jti user_token_ttl d'.now)
  unfolding login Made
  login-register fails d d' req accounts user token rs h =
      let (a, found, same, right) = register-Made fails d req accounts user token h in
      let kept =
        register_all_keeps rs (register bcrypt jwt secret fails d (some req) accounts).0 req.email a
          found in
      ground (arith, kept, same, right)

  -- The token of a sign-in passes the middleware of the waiting room as that user, until it expires.
  pub login-middleware :
      (d : Draws) (req : Credentials) (accounts : List Account) (status user now : ℕ)
      (token : String)
      → login bcrypt jwt secret false d (some req) accounts ≡ signed_in status user (some token)
      → now < jwt.numeric_date (d.now + user_token_ttl)
      → middleware jwt secret now (bearer token) ≡ pass (record { user_id = user })
  unfolding login middleware parse_user_token issue_user_token
  login-middleware d req accounts status user now token h lt =
      elim (Option-cases (find_account req.email accounts)) [
        | inl e ↦ absurd (ground arith)
        | inr (a, e) ↦ elim (Bool-cases (bcrypt.compare a.password_hash req.password)) [
          | inr c ↦ absurd (ground arith)
          | inl c ↦ ground (
            arith,
            jwt.parse-sign secret now
                (record {
                  uid = a.id;
                  sid = none;
                  jti = d.jti;
                  iat = jwt.numeric_date d.now;
                  exp = jwt.numeric_date (d.now + user_token_ttl);
                })
                token,
          )
        ]
      ]
