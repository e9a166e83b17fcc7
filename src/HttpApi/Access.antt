-- ===== src/HttpApi/Access.antt =====
-- Who gets past the admission middleware of internal/httpapi to the holds and the checkout.
use Prim.Native.String.{String}
use traffic_backend_queue.Common.{
  ℕ, ◌+◌, ◌≡◌, ◌≢◌, ◌<◌, refl, Option, none, some, List, Option-cases, inl, inr, ◌⊎◌, arith,
}
use traffic_backend_queue.Storage.{find_entry}
use traffic_backend_queue.Auth.{
  Jwt, Payload, Authorization, admission, bearer, other, Denial, deny, admission_middleware,
  issue_admission_token, issue_user_token,
}
use traffic_backend_queue.Auth.Tokens.{admission_roundtrip, user_token_admits}
use traffic_backend_queue.Inventory
use traffic_backend_queue.Inventory.{HoldResult, hold}
use traffic_backend_queue.HttpApi.{
  seats_held, App, Config, Moment, CheckoutEnv, create_hold, route_hold, route_checkout, hold_reply,
}

module _ (jwt : Jwt) (cfg : Config) (m : Moment) where
  -- The request carries an admission header with a token that golang-jwt accepts.
  abbrev pub Carries : Authorization → Type 0
  Carries h =
      (token : String) × (p : Payload) × (h ≡ admission token)
      × (jwt.parse cfg.jwt_secret m.now token ≡ some p)

  pass_cases :
      (h : Authorization)
      → ((d : Denial) × (admission_middleware jwt cfg.jwt_secret m.now h ≡ deny d)) ⊎ Carries h
  unfolding admission_middleware
  pass_cases (bearer token) = inl (_, refl)
  pass_cases other = inl (_, refl)
  pass_cases (admission token) = elim (Option-cases (jwt.parse cfg.jwt_secret m.now token)) [
    | inl e ↦ inl (Denial.invalid_admission, ground arith)
    | inr (p, e) ↦ inr (token, p, refl, e)
  ]

  -- Holds and checkouts change something only for requests that carry, in an admission header, a
  -- token that golang-jwt accepts.
  pub route_hold-Carries :
      (f : Inventory.Faults) (h : Authorization) (sale : ℕ) (body : Option (List ℕ × Option ℕ))
      (env : CheckoutEnv) (ip : ℕ) (hold_id key : Option ℕ) (app : App)
      → ((route_hold jwt f cfg m h sale body app).0 ≢ app)
        ⊎ ((route_checkout jwt env cfg m h sale ip hold_id key app).0 ≢ app)
      → Carries h
  unfolding route_hold route_checkout
  route_hold-Carries f h sale body env ip hold_id key app changed = elim (pass_cases h) [
    | inr c ↦ c
    | inl (d, e) ↦ absurd (elim changed [
      | inl c ↦ c (rw (e, route_hold) refl)
      | inr c ↦ c (rw (e, route_checkout) refl)
    ])
  ]

  -- The sale of an admission token plays no part: while the token lasts, it holds seats of every
  -- sale just as for the sale that it was issued for.
  pub hold_any_sale :
      (f : Inventory.Faults) (user issued_for sale jti ttl issued : ℕ) (token : String)
      (body : Option (List ℕ × Option ℕ)) (app : App)
      → issue_admission_token jwt cfg.jwt_secret user issued_for jti ttl issued ≡ some token
      → m.now < jwt.numeric_date (issued + ttl)
      → route_hold jwt f cfg m (admission token) sale body app
        ≡ create_hold f cfg m sale user body app
  unfolding route_hold
  hold_any_sale f user issued_for sale jti ttl issued token body app h lt =
      ground
        (arith, admission_roundtrip jwt cfg.jwt_secret user issued_for jti ttl issued m.now token h)

  -- The waiting room can be skipped: a user who is not in the queue of a sale holds its seats with
  -- the user token of the registration, sent as an admission token, whenever the seats can be held
  -- at all.
  pub hold_skips_queue :
      (f : Inventory.Faults) (user sale jti ttl issued key : ℕ) (token : String) (ids : List ℕ)
      (app : App) (r : HoldResult)
      → find_entry sale user app.store.db.queue_entries ≡ none
      → issue_user_token jwt cfg.jwt_secret user jti ttl issued ≡ some token
      → m.now < jwt.numeric_date (issued + ttl)
      → (hold f cfg.hold_ttl m.now m.db_now m.id sale user key ids app.store.db).1
        ≡ Inventory.Result.ok r
      → (route_hold jwt f cfg m (admission token) sale (some (ids, some key)) app).1 ≡ seats_held r
  unfolding route_hold create_hold hold_reply
  hold_skips_queue f user sale jti ttl issued key token ids app r absent h lt e =
      ground (arith, user_token_admits jwt cfg.jwt_secret user jti ttl issued m.now token h lt, e)
