-- ===== src/WaitingRoom/Polls.antt =====
-- What `Status` of internal/waitingroom/service.go guarantees.
use Prim.Native.String.{String}
use traffic_backend_queue.Common.{
  refl, true, ◌≤◌, ℕ, ◌-◌, ◌≡◌, Bool, ◌||◌, some, from_option, is_some, arith, ◌⊎◌, leb,
}
use traffic_backend_queue.Storage.{Sale, find_sale, QueueEntry, Store, find_entry}
use traffic_backend_queue.Auth.{Jwt, issue_admission_token}
use traffic_backend_queue.WaitingRoom.{
  ok, Faults, Status, status, update_admitted, no_faults, get_sale, status_of,
  effective_admit_position,
}

abbrev pub window : Store → ℕ → ℕ
window s sale = from_option 0 (s.redis.next_admit sale)

-- The entry may go to the checkout.
abbrev pub admits : Store → QueueEntry → Bool
admits s e = is_some e.admitted_at || leb e.position (window s e.sale_id)

module _ (jwt : Jwt) where
  -- A poll leaves the store alone or marks the user's own entry as admitted.
  pub status_store :
      (f : Faults) (secret : String) (ttl now db_now jti sale user : ℕ) (s : Store)
      → ((status jwt f secret ttl now db_now jti sale user s).0 ≡ s)
        ⊎ ((status jwt f secret ttl now db_now jti sale user s).0
            ≡ update_admitted db_now sale user s)
  unfolding status
  status_store f secret ttl now db_now jti sale user s = ground arith

  -- A poll that succeeds reports the position of the user's entry, admits the user exactly if the
  -- entry is marked as admitted or the window has reached the position, and hands out an admission
  -- token exactly to those it admits; nobody is ahead of a user whom the window has reached.
  pub status-ok :
      (f : Faults) (secret : String) (ttl now db_now jti sale user : ℕ) (s : Store) (st : Status)
      → (status jwt f secret ttl now db_now jti sale user s).1 ≡ ok st
      → (e : QueueEntry) × (find_entry sale user s.db.queue_entries ≡ some e)
        × (st.position ≡ e.position)
        × (st.admitted ≡ (is_some e.admitted_at || leb e.position (window s sale)))
        × (is_some st.admission_token ≡ st.admitted)
        × (st.ahead_count ≡ e.position - window s sale)
  unfolding status
  status-ok f secret ttl now db_now jti sale user s st h = ground arith

  -- A poll for an entry that the window has reached succeeds and hands out the token.
  pub status-reached :
      (secret : String) (ttl now db_now jti sale user : ℕ) (s : Store) (info : Sale)
      (e : QueueEntry) (token : String)
      → find_sale sale s.db.sales ≡ some info
      → find_entry sale user s.db.queue_entries ≡ some e
      → issue_admission_token jwt secret user sale jti ttl now ≡ some token
      → e.position ≤ window s sale
      → (st : Status) × ((status jwt no_faults secret ttl now db_now jti sale user s).1 ≡ ok st)
        × (st.position ≡ e.position)
        × (st.admitted ≡ true)
        × (st.admission_token ≡ some token)
  unfolding status get_sale status_of effective_admit_position
  status-reached secret ttl now db_now jti sale user s info e token there found signs le =
      (status_of info e (window s sale) (some token), ground arith, refl, ground arith, refl)
