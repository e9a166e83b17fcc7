-- ===== src/HttpApi/Queueing.antt =====
-- The handlers of the waiting room in internal/httpapi/handlers.go.

use traffic_backend_queue.Common.{
  ℕ, ◌≡◌, ◌≢◌, ◌≤◌, Bool, true, false, some, List, [], ◌∷◌, Option-cases, Bool-cases, inl, inr,
  arith, length,
}
use traffic_backend_queue.Storage.{Store}
use traffic_backend_queue.Auth.{Jwt}
use traffic_backend_queue.WaitingRoom
use traffic_backend_queue.WaitingRoom.{Status, status, join}
use traffic_backend_queue.WaitingRoom.Entries.{Inv}
use traffic_backend_queue.WaitingRoom.Join.{Behind, join_new_last}
use traffic_backend_queue.Antibot
use traffic_backend_queue.Antibot.{allow_join}
use traffic_backend_queue.HttpApi.{error, queued, App, Config, Moment, join_reply, queue_join}

join_reply-created :
    (r : WaitingRoom.Result (ℕ × Bool)) (p : ℕ)
    → join_reply r ≡ queued 201 p
    → r ≡ WaitingRoom.Result.ok (p, true)
unfolding join_reply
join_reply-created (WaitingRoom.Result.ok (q, true)) p h = ground arith
join_reply-created (WaitingRoom.Result.ok (q, false)) p h = absurd (ground arith)
join_reply-created (WaitingRoom.Result.err WaitingRoom.Error.no_rows) p h = cc
join_reply-created (WaitingRoom.Result.err _) p h = cc

-- A 201 for a join means that the limiter let the user and the address through, and that the
-- position is new and behind every entry that the sale had.
pub queue_join-created :
    (lf : Antibot.Faults) (f : WaitingRoom.Faults) (m : Moment) (sale user ip p : ℕ) (app : App)
    → Inv app.store
    → (queue_join lf f m sale user ip app).1 ≡ queued 201 p
    → ((allow_join lf m.now user ip app.counters).1 ≡ some true)
      × ((join f m.now m.db_now sale user app.store).1 ≡ WaitingRoom.Result.ok (p, true))
      × Behind sale p app.store.db.queue_entries
unfolding queue_join
queue_join-created lf f m sale user ip p app v h =
    elim (Option-cases (allow_join lf m.now user ip app.counters).1) [
      | inl e ↦ absurd (ground arith)
      | inr (b, e) ↦ elim (Bool-cases b) [
        | inr c ↦ absurd (ground arith)
        | inl c ↦
            let made =
              join_reply-created (join f m.now m.db_now sale user app.store).1 p (ground arith) in
            (ground arith, made, join_new_last f m.now m.db_now sale user p app.store v made)
      ]
    ]

-- A join that the limiter turns away does not touch the queue.
pub queue_join_limited :
    (lf : Antibot.Faults) (f : WaitingRoom.Faults) (m : Moment) (sale user ip : ℕ) (app : App)
    → (allow_join lf m.now user ip app.counters).1 ≢ some true
    → ((queue_join lf f m sale user ip app).0.store ≡ app.store)
      × ((queue_join lf f m sale user ip app).1 ≡ error 429 "rate_limited")
unfolding queue_join
queue_join_limited lf f m sale user ip app n = ground arith

-- Only the last message may say that the user is admitted.
abbrev pub UntilAdmitted : List Status → Type 0
UntilAdmitted [] = Unit
UntilAdmitted (st ∷ []) = Unit
UntilAdmitted (st ∷ (st' ∷ sts)) = (st.admitted ≡ false) × UntilAdmitted (st' ∷ sts)

abbrev Sent : ℕ → List Status → Type 0
Sent k sts = (length sts ≤ k) × UntilAdmitted sts

module _ (jwt : Jwt) (f : WaitingRoom.Faults) (cfg : Config) (moments : ℕ → Moment)
    (sale user : ℕ) where
  abbrev poll : ℕ → Store → Store × WaitingRoom.Result Status
  poll k s =
      let m = moments k in
      status jwt f cfg.jwt_secret cfg.admission_ttl m.now m.db_now m.id sale user s
