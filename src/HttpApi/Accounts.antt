-- ===== src/HttpApi/Accounts.antt =====
-- register and login of internal/httpapi/handlers.go, over the table `users`. The texts of a request
-- are numbers. The package bcrypt is a parameter.
pub mod Passwords
pub mod Examples
use Prim.Native.String.{String}
use traffic_backend_queue.Common.{
  ℕ, ◌*◌, ◌≡◌, Bool, true, false, ◌&&◌, ◌||◌, not, Option, none, some, List, [], ◌∷◌, ◌==◌,
  if◌then◌else◌, is_some,
}
use traffic_backend_queue.Auth.{Jwt, issue_user_token}

-- The package bcrypt, with its documented behaviour: it refuses to hash a password that is too long,
-- and a hash compares equal to the password that it was made from.
pub record Bcrypt : Type 0 where
  pub hash : (salt password : ℕ) → Option ℕ
  pub compare : (hash password : ℕ) → Bool
  pub compare-hash : (salt password h : ℕ) → hash salt password ≡ some h → compare h password ≡ true

-- A row of `users`.
pub record Account : Type 0 where
  pub id : ℕ
  pub email : ℕ
  pub password_hash : ℕ

-- An error with its HTTP status and its code, or the user and the token, which is `none` where the
-- program writes an empty text.
pub data Answer : Type 0 where
  error : ℕ → String → Answer
  signed_in : (http_status user : ℕ) → Option String → Answer

-- SELECT id, password_hash FROM users WHERE email = $1; the column is UNIQUE.
unfoldable pub find_account : ℕ → List Account → Option Account
find_account email [] = none
find_account email (a ∷ as') = if a.email == email then some a else find_account email as'

unfoldable pub account_id_taken : ℕ → List Account → Bool
account_id_taken id [] = false
account_id_taken id (a ∷ as') = a.id == id || account_id_taken id as'

-- INSERT INTO users …, which meets the primary key and UNIQUE (email).
unfoldable pub insert_account : Bool → Account → List Account → Option (List Account)
unfolding find_account account_id_taken
insert_account fails a accounts =
    if fails || account_id_taken a.id accounts || is_some (find_account a.email accounts)
    then none
    else some (a ∷ accounts)

-- 24 hours in nanoseconds.
abbrev pub user_token_ttl : ℕ
user_token_ttl = 24 * 3600 * 1000000000

-- What the body of a request decodes to: `none` if it is no JSON of the expected form.
pub record Credentials : Type 0 where
  pub email : ℕ
  pub password : ℕ

-- What the libraries draw for one request, and the clock.
pub record Draws : Type 0 where
  pub now : ℕ
  pub salt : ℕ
  pub id : ℕ
  pub jti : ℕ

module _ (bcrypt : Bcrypt) (jwt : Jwt) (secret : String) where
  unfoldable pub register :
      (insert_fails : Bool) → Draws → Option Credentials → List Account → List Account × Answer
  unfolding insert_account
  register insert_fails d none accounts = (accounts, error 400 "bad_request")
  register insert_fails d (some req) accounts = elim (bcrypt.hash d.salt req.password) [
    | none ↦ (accounts, error 500 "internal")
    | some h ↦
        elim (insert_account insert_fails
          (record { id = d.id; email = req.email; password_hash = h }) accounts) [
            | none ↦ (accounts, error 409 "exists")
            | some accounts' ↦ (
              accounts',
              signed_in 201 d.id (issue_user_token jwt secret d.id d.jti user_token_ttl d.now),
            )
          ]
  ]

  unfoldable pub login : (query_fails : Bool) → Draws → Option Credentials → List Account → Answer
  unfolding find_account
  login query_fails d none accounts = error 400 "bad_request"
  login query_fails d (some req) accounts =
      if query_fails then error 401 "unauthorized" else elim (find_account req.email accounts) [
        | none ↦ error 401 "unauthorized"
        | some a ↦
            if not (bcrypt.compare a.password_hash req.password)
            then error 401 "unauthorized"
            else signed_in 200 a.id (issue_user_token jwt secret a.id d.jti user_token_ttl d.now)
      ]
