-- ===== src/Lottery.antt =====
-- internal/lottery/service.go: registration for a sale, the draw, and the access codes. `hash` stands
-- for the hexadecimal text of crypto/sha256.
pub mod Calls
pub mod Codes
pub mod Draws
pub mod Examples
use traffic_backend_queue.Common.{
  ℕ, ◌+◌, Bool, true, false, ◌&&◌, ◌||◌, not, Option, none, some, List, [], ◌∷◌, ◌==◌,
  if◌then◌else◌, is_some, contains, take, ℤ, pos, negsuc,
}
use traffic_backend_queue.Storage.{
  Sale, Phase, presale, general_sale, PreRegistration, AccessCode, Db, find_sale,
}

pub is_registered : (sale user : ℕ) → List PreRegistration → Bool
is_registered sale user [] = false
is_registered sale user (r ∷ rs) =
    (r.sale_id == sale && r.user_id == user) || is_registered sale user rs

-- Whether the foreign keys to `sales` and `users` are met.
abbrev pub is_known : (sale user : ℕ) → Db → Bool
is_known sale user d = is_some (find_sale sale d.sales) && contains user d.users

-- The tables, and whether the call went well.
unfoldable pub pre_register : (fails : Bool) → (sale user : ℕ) → Db → Db × Bool
unfolding is_registered
pre_register fails sale user d =
    if fails
    then (d, false)
    else if is_registered sale user d.pre_registrations
    then (d, true)
    else if not (is_known sale user d)
    then (d, false)
    else (
      record d {
        pre_registrations = record { sale_id = sale; user_id = user } ∷ d.pre_registrations;
      },
      true,
    )

pub has_code : (id code_hash : ℕ) → List AccessCode → Bool
has_code id code_hash [] = false
has_code id code_hash (c ∷ cs) = c.id == id || c.code_hash == code_hash || has_code id code_hash cs

-- INSERT INTO access_codes … ON CONFLICT DO NOTHING: the primary key and UNIQUE (code_hash).
unfoldable pub insert_code : (id sale user code_hash : ℕ) → Db → Option Db
unfolding has_code
insert_code id sale user code_hash d =
    if has_code id code_hash d.access_codes
    then some d
    else if not (is_known sale user d)
    then none
    else some (record d {
      access_codes =
          record { id = id; sale_id = sale; user_id = user; code_hash = code_hash; used_at = none }
          ∷ d.access_codes;
    })

-- What happens to a row of the draw: it is read, or its Scan or INSERT fails, or the rows end before
-- it with an error, which `rows.Err` reports.
pub data RowEvent : Type 0 where
  row_read scan_fails insert_fails broken_off : RowEvent

pub data DrawEnd : Type 0 where
  complete failed cut_short : DrawEnd

abbrev pub set_phase : Phase → Sale → Sale
set_phase phase s = record s { phase = phase }

pub update_sale : (Sale → Sale) → ℕ → List Sale → List Sale
update_sale f sale [] = []
update_sale f sale (s ∷ ss) = (if s.id == sale then f s else s) ∷ update_sale f sale ss

-- What the database and the package uuid draw for the user of a row.
pub record Drawn : Type 0 where
  pub id : ℕ → ℕ
  pub code : ℕ → ℕ

-- SELECT id … WHERE … used_at IS NULL
unfoldable pub find_code : (sale user code_hash : ℕ) → List AccessCode → Option AccessCode
find_code sale user code_hash [] = none
find_code sale user code_hash (c ∷ cs) =
    if c.sale_id == sale
      && (c.user_id == user && (c.code_hash == code_hash && not (is_some c.used_at)))
    then some c
    else find_code sale user code_hash cs

-- UPDATE access_codes SET used_at = NOW() WHERE id = $1
unfoldable pub mark_used : (db_now id : ℕ) → List AccessCode → List AccessCode
mark_used db_now id [] = []
mark_used db_now id (c ∷ cs) =
    (if c.id == id then record c { used_at = some db_now } else c) ∷ mark_used db_now id cs

-- `Draw` after its loop: the presale opens unless the loop failed, and that error is ignored.
unfoldable pub end_draw : (phase_fails : Bool) → (sale : ℕ) → Db × ℕ × DrawEnd → Db × ℕ × Bool
unfolding update_sale
end_draw phase_fails sale (d, count, failed) = (d, count, false)
end_draw true sale (d, count, complete) = (d, count, true)
end_draw true sale (d, count, cut_short) = (d, count, false)
end_draw false sale (d, count, complete) =
    (record d { sales = update_sale (set_phase presale) sale d.sales }, count, true)
end_draw false sale (d, count, cut_short) =
    (record d { sales = update_sale (set_phase presale) sale d.sales }, count, false)

module _ (hash : ℕ → ℕ) where
  -- The loop over the rows, each with the id of its user: how many codes it counts, and how it ends.
  unfoldable pub draw_rows : Drawn → (ℕ → RowEvent) → ℕ → List ℕ → Db → Db × ℕ × DrawEnd
  unfolding insert_code
  draw_rows drawn event sale [] d = (d, 0, complete)
  draw_rows drawn event sale (u ∷ us) d = elim (event u) [
    | broken_off ↦ (d, 0, cut_short)
    | scan_fails ↦ (d, 0, failed)
    | insert_fails ↦ (d, 0, failed)
    | row_read ↦ elim (insert_code (drawn.id u) sale u (hash (drawn.code u)) d) [
      | none ↦ (d, 0, failed)
      | some d' ↦ let (d'', n, end) = draw_rows drawn event sale us d' in (d'', n + 1, end)
    ]
  ]

  -- `order` is the order that `random()` gives the users that are registered for the sale. The tables,
  -- the count, and whether the call went well; PostgreSQL refuses a negative LIMIT.
  unfoldable pub draw :
      (query_fails phase_fails : Bool)
      → Drawn
      → (ℕ → RowEvent)
      → (sale : ℕ) → (winners : ℤ) → (order : List ℕ) → Db
      → Db × ℕ × Bool
  unfolding draw_rows end_draw
  draw query_fails phase_fails drawn event sale (negsuc n) order d = (d, 0, false)
  draw query_fails phase_fails drawn event sale (pos n) order d =
      if query_fails
      then (d, 0, false)
      else end_draw phase_fails sale (draw_rows drawn event sale (take n order) d)

  -- The SELECT of `ValidateAccessCode`: the id of the row that it finds. A query that fails finds none.
  unfoldable pub select_code : (query_fails : Bool) → (sale user code : ℕ) → Db → Option ℕ
  unfolding find_code
  select_code query_fails sale user code d =
      if query_fails then none else elim (find_code sale user (hash code) d.access_codes) [
        | none ↦ none
        | some c ↦ some c.id
      ]

-- The UPDATE of `ValidateAccessCode`, whose error is ignored.
unfoldable pub spend_code : (update_fails : Bool) → (db_now id : ℕ) → Db → Db
unfolding mark_used
spend_code update_fails db_now id d =
    if update_fails then d else record d { access_codes = mark_used db_now id d.access_codes }

-- `ValidateAccessCode` where no statement of another call comes between its two: no transaction and
-- no lock keeps them together. The interleaved calls are in Lottery/Calls.
unfoldable pub validate_access_code :
    (hash : ℕ → ℕ) (query_fails update_fails : Bool) → (db_now sale user code : ℕ) → Db → Db × Bool
unfolding select_code spend_code
validate_access_code hash query_fails update_fails db_now sale user code d =
    elim (select_code hash query_fails sale user code d) [
      | none ↦ (d, false)
      | some id ↦ (spend_code update_fails db_now id d, true)
    ]

unfoldable pub open_general_sale : (fails : Bool) → (db_now sale : ℕ) → Db → Db × Bool
unfolding update_sale
open_general_sale fails db_now sale d = if fails then (d, false) else (
  record d {
    sales = update_sale (λ s. record s { phase = general_sale; opens_at = db_now }) sale d.sales;
  },
  true,
)
