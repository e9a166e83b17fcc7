-- ===== src/Lottery/Examples.antt =====
-- The theorems about internal/lottery at a concrete sale.
use traffic_backend_queue.Common.{some, ℕ, ◌+◌, ◌*◌, ◌≡◌, refl, false, none, [], ◌∷◌, List, arith}
use traffic_backend_queue.Storage.{AccessCode, Db, find_sale}
use traffic_backend_queue.Inventory.Examples.{hall}
use traffic_backend_queue.Lottery.{
  Drawn, find_code, select_code, spend_code, pre_register, insert_code, has_code, is_registered,
}
use traffic_backend_queue.Lottery.Calls.{Statement, registers, inserts, spends, opens, run}
use traffic_backend_queue.Lottery.Codes.{hash_count, select_code_once}

abbrev triple : ℕ → ℕ
triple code = 3 * code

abbrev drawn : Drawn
drawn = record { id = λ u. 100 + u; code = λ u. 200 + u }

abbrev code : AccessCode
code = record { id = 1; sale_id = 1; user_id = 6; code_hash = 15; used_at = none }

abbrev shop : Db
shop = record hall { access_codes = code ∷ [] }

-- The user 7 registers, and another validation of the code has found the same row.
abbrev between : List Statement
between = registers false 1 7 ∷ inserts 2 1 7 15 ∷ []

abbrev after : List Statement
after = spends false 400 1 ∷ opens false 450 1 ∷ []

select_code_once_example :
    select_code triple false 1 6 5 (run (spend_code false 300 1 (run shop between)) after) ≡ none
unfolding select_code find_code hash_count
select_code_once_example =
    select_code_once triple 1 6 5 1 300 shop (omega arith) refl between after false 1 6

-- Two validations whose SELECTs come before either UPDATE both accept the code.
both_accept :
    (select_code triple false 1 6 5 shop ≡ some 1)
    × (select_code triple false 1 6 5 (run shop between) ≡ some 1)
unfolding select_code find_code run pre_register insert_code has_code is_registered find_sale
both_accept = (refl, refl)
