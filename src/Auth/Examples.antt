-- ===== src/Auth/Examples.antt =====
-- The theorems about internal/auth at concrete tokens.
use traffic_backend_queue.Common.{◌*◌, ◌≡◌, refl, false, none, some, [], ◌∷◌, arith}
use traffic_backend_queue.Auth.{
  admission_middleware, issue_admission_token, consume_admission, Consumed,
}
use traffic_backend_queue.Auth.Toy.{toy, admission_payload}
use traffic_backend_queue.Auth.Tokens.{admission_single_use, consume_all}

abbrev unused : Consumed
unused sale jti = none

abbrev used_once : Consumed
used_once =
    consume_all (60 * 2) (record { now = 120; sale = 1; jti = 6 } ∷ [])
      (consume_admission false (60 * 2) 110 1 5 unused).0

admission_single_use_example :
    consume_admission false (60 * 2) 130 1 5 used_once ≡ (used_once, some false)
unfolding toy issue_admission_token consume_admission admission_middleware
admission_single_use_example =
    admission_single_use (toy admission_payload) "secret" 7 1 5 60 100 110 130 1 "token"
      (record { user_id = 7; sale_id = some 1; jti = 5 })
      (record { now = 120; sale = 1; jti = 6 } ∷ []) unused refl (omega arith) refl (omega arith)
      refl
