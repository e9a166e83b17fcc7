-- ===== src/HttpApi/Accounts/Examples.antt =====
-- Registrations at concrete accounts.
use traffic_backend_queue.Common.{
  ℕ, ◌+◌, ◌≡◌, refl, true, false, ◌==◌, none, some, List, [], ◌∷◌, arith,
}
use traffic_backend_queue.Auth.{Payload, issue_user_token}
use traffic_backend_queue.Auth.Toy.{toy}
use traffic_backend_queue.HttpApi.Accounts.{
  Bcrypt, signed_in, Credentials, Draws, user_token_ttl, register, login, insert_account,
}
use traffic_backend_queue.HttpApi.Accounts.Passwords.{Registration, register_all, login-register}

plain_compare : (salt password h : ℕ) → some password ≡ some h → (h == password) ≡ true
plain_compare salt password h e = ground arith

-- A stand-in for bcrypt: the password is its own hash.
abbrev plain : Bcrypt
plain = record {
  hash = λ salt password. some password;
  compare = λ h password. h == password;
  compare-hash = plain_compare;
}

abbrev draws : Draws
draws = record { now = 100; salt = 1; id = 7; jti = 5 }

abbrev credentials : Credentials
credentials = record { email = 3; password = 4 }

abbrev later : List Registration
later =
    record { insert_fails = false; draws = record draws { id = 8 }; body = some (credentials) }
    ∷ record { insert_fails = false; draws = draws; body = none }
    ∷ []

abbrev payload : Payload
payload = record { uid = 7; sid = none; jti = 5; iat = 100; exp = 100 + user_token_ttl }

login-register_example :
    login plain (toy payload) "secret" false draws (some credentials) (
      register_all plain
        (toy payload)
        "secret"
        later
        (register plain (toy payload) "secret" false draws (some credentials) []).0)
    ≡ signed_in 200 7 (issue_user_token (toy payload) "secret" 7 5 user_token_ttl 100)
unfolding register insert_account
login-register_example =
    login-register plain (toy payload) "secret" false draws draws credentials [] 7
      (issue_user_token (toy payload) "secret" 7 5 user_token_ttl 100) later refl
