-- ===== src/Startup/Admitting.antt =====
-- The worker of cmd/worker/main.go and the polls of internal/waitingroom/service.go together: everyone
-- in the waiting room is admitted in the end.
use Prim.Native.String.{String}
use traffic_backend_queue.Common.{
  ℕ, ◌+◌, ◌*◌, ◌≡◌, ◌≤◌, refl, ◌∙◌, ap, true, false, some, List, [], ◌∷◌, All, length, arith,
}
use traffic_backend_queue.Storage.{Sale, QueueEntry, Store, find_sale, find_entry}
use traffic_backend_queue.Auth.{Jwt, issue_admission_token}
use traffic_backend_queue.WaitingRoom.{no_faults, Status, status, ok}
use traffic_backend_queue.WaitingRoom.Polls.{window, status-reached}
use traffic_backend_queue.Inventory.Untouched.{SameQueue, release_expired-SameQueue}
use traffic_backend_queue.Worker.{on_sale, batch, run_admission, tick}
use traffic_backend_queue.Worker.Drip.{UniqueSales, run_admission-window, run_admission-db}
use traffic_backend_queue.Startup.Programs.{Tick, ticks}

-- The worker reads the sales and counts the window of this sale up, which is still on sale.
abbrev pub Admits : ℕ → Sale → Tick → Type 0
Admits sale info t =
    (t.query_fails ≡ false) × (t.incr_fails sale ≡ false) × (on_sale t.db_now info ≡ true)

after_tick : Tick → Store → Store
unfolding tick
after_tick t s = tick t.query_fails t.incr_fails t.release_fails t.fault t.db_now s

after_tick-SameQueue : (t : Tick) (s : Store) → SameQueue s.db (after_tick t s).db
unfolding after_tick
after_tick-SameQueue t s =
    let s' = run_admission t.query_fails t.incr_fails t.db_now s in
    let same = run_admission-db t.query_fails t.incr_fails t.db_now s in
    let (a, b) = release_expired-SameQueue t.release_fails t.fault t.db_now s'.db in
    (a ∙ ap (λ d. d.sales) same, b ∙ ap (λ d. d.queue_entries) same)

after_tick-window :
    (sale : ℕ) (info : Sale) (t : Tick) (s : Store)
    → UniqueSales s.db.sales
    → find_sale sale s.db.sales ≡ some info
    → Admits sale info t
    → window (after_tick t s) sale ≡ window s sale + batch info.admit_per_minute
unfolding after_tick
after_tick-window sale info t s u h (reads, counts, on) =
    rw reads (run_admission-window t.incr_fails t.db_now sale s info counts u h ∙ rw on refl)

ticks-window :
    (sale : ℕ) (info : Sale) (ts : List Tick) (s : Store)
    → UniqueSales s.db.sales
    → find_sale sale s.db.sales ≡ some info
    → All (Admits sale info) ts
    → (window (ticks ts s) sale ≡ window s sale + length ts * batch info.admit_per_minute)
      × SameQueue s.db (ticks ts s).db
unfolding ticks after_tick
ticks-window sale info [] s u h a = (omega arith, (refl, refl))
ticks-window sale info (t ∷ ts) s u h a =
    let s' = after_tick t s in
    let (sales, queue) = after_tick-SameQueue t s in
    let (w, (sales', queue')) =
      ticks-window sale info ts s' (rw sales u) (ap (find_sale sale) sales ∙ h) a.1 in
    (ground (arith, w, after_tick-window sale info t s u h a.0), (sales' ∙ sales, queue' ∙ queue))

-- Everyone in the waiting room is admitted in the end: after as many ticks of the worker as it takes
-- for the batches of the sale to add up to the position of a user's entry, with the sale on sale and
-- its window counted up at each, a poll of the user in which no call fails and the token is signed
-- succeeds, admits the user and hands out that token. Whatever else fails in the ticks, such as the
-- windows of other sales or the releases, does not matter.
pub all_admitted :
    (jwt : Jwt) (secret : String) (ttl now db_now jti sale user : ℕ) (ts : List Tick) (s : Store)
    (info : Sale) (e : QueueEntry) (token : String)
    → UniqueSales s.db.sales
    → find_sale sale s.db.sales ≡ some info
    → find_entry sale user s.db.queue_entries ≡ some e
    → All (Admits sale info) ts
    → e.position ≤ length ts * batch info.admit_per_minute
    → issue_admission_token jwt secret user sale jti ttl now ≡ some token
    → (st : Status) × ((status jwt no_faults secret ttl now db_now jti sale user (ticks ts s)).1
        ≡ ok st)
      × (st.position ≡ e.position)
      × (st.admitted ≡ true)
      × (st.admission_token ≡ some token)
all_admitted jwt secret ttl now db_now jti sale user ts s info e token u there found a le signs =
    let (reached, (sales, queue)) = ticks-window sale info ts s u there a in
    status-reached jwt secret ttl now db_now jti sale user (ticks ts s) info e token
      (ap (find_sale sale) sales ∙ there) (ap (find_entry sale user) queue ∙ found) signs
      (omega (arith, reached, le))
