-- ===== src/Simulation.antt =====
-- internal/simulation/engine.go: the engine that plays fans and bots against the server. The server
-- is an argument, which answers each request of a round; the counters of the statistics and of the
-- scenarios are natural numbers.
pub mod Workers
pub mod Rounds
pub mod Counts
pub mod Examples
use Prim.Native.String.{String}
use traffic_backend_queue.Common.{
  ℕ, ◌+◌, ◌-◌, ◌*◌, ◌≡◌, Bool, true, false, ◌&&◌, ◌||◌, not, Option, none, some, List, [], ◌∷◌,
  ◌++◌, ◌==◌, if◌then◌else◌, leb, is_some, ℤ, pos, is_positive,
}

pub record Config : Type 0 where
  pub launch_spike : Bool
  pub backdoor_race : Bool
  pub late_surge : Bool
  pub refresh_storm : Bool
  pub reconnect_churn : Bool
  pub scalper_bots : Bool
  pub mixed_realistic : Bool

pub data Name : Type 0 where
  launch_spike backdoor_race late_surge refresh_storm reconnect_churn scalper_bots mixed_realistic :
      Name

abbrev pub toggle : Config → Name → Bool
toggle c launch_spike = c.launch_spike
toggle c backdoor_race = c.backdoor_race
toggle c late_surge = c.late_surge
toggle c refresh_storm = c.refresh_storm
toggle c reconnect_churn = c.reconnect_churn
toggle c scalper_bots = c.scalper_bots
toggle c mixed_realistic = c.mixed_realistic

abbrev pub only {ℓ} : {A : Type ℓ} → Bool → A → List A
only true a = a ∷ []
only false a = []

unfoldable pub active_names : Config → List Name
active_names c =
    only c.launch_spike launch_spike
    ++ (only c.backdoor_race backdoor_race
        ++ (only c.late_surge late_surge
            ++ (only c.refresh_storm refresh_storm
                ++ (only c.reconnect_churn reconnect_churn
                    ++ (only c.scalper_bots scalper_bots
                        ++ only c.mixed_realistic mixed_realistic)))))

unfoldable pub any_on : Config → Bool
any_on c =
    c.launch_spike || c.backdoor_race || c.late_surge || c.refresh_storm || c.reconnect_churn
    || c.scalper_bots || c.mixed_realistic

pub record Stats : Type 0 where
  pub requests_total : ℕ
  pub errors_total : ℕ
  pub blocked_total : ℕ
  pub last_latency_ms : ℕ

-- A goroutine that runs `loop`: its name, its interval in milliseconds and the sale that it plays.
pub record Worker : Type 0 where
  pub name : Name
  pub interval_ms : ℕ
  pub sale : ℕ

-- `workers` are the goroutines that are started and not told to stop.
pub record Engine : Type 0 where
  pub cfg : Config
  pub sale_id : Option ℕ
  pub workers : List Worker
  pub stats : Stats
  pub per_scenario : Name → ℕ

abbrev pub all_off : Config
all_off = record {
  launch_spike = false;
  backdoor_race = false;
  late_surge = false;
  refresh_storm = false;
  reconnect_churn = false;
  scalper_bots = false;
  mixed_realistic = false;
}

unfoldable pub new_engine : Engine
new_engine = record {
  cfg = all_off;
  sale_id = none;
  workers = [];
  stats = record { requests_total = 0; errors_total = 0; blocked_total = 0; last_latency_ms = 0 };
  per_scenario = λ name. 0;
}

unfoldable pub set_sale_id : Option ℕ → Engine → Engine
set_sale_id id e = record e { sale_id = id }

abbrev pub worker : ℕ → Name → ℕ → Worker
worker sale name interval = record { name = name; interval_ms = interval; sale = sale }

-- The `go` statements of `restartWorkers`.
unfoldable pub start_workers : Config → ℕ → List Worker
start_workers c sale =
    only (c.launch_spike || c.mixed_realistic) (worker sale launch_spike 50)
    ++ (only (c.backdoor_race || c.mixed_realistic) (worker sale backdoor_race 200)
        ++ (only c.late_surge (worker sale late_surge 100)
            ++ (only (c.refresh_storm || c.mixed_realistic) (worker sale refresh_storm 30)
                ++ (only (c.reconnect_churn || c.mixed_realistic) (worker sale reconnect_churn 500)
                    ++ only (c.scalper_bots || c.mixed_realistic) (worker sale scalper_bots 50)))))

unfoldable pub restart_workers : Engine → Engine
unfolding any_on start_workers
restart_workers e = elim e.sale_id [
  | none ↦ record e { workers = [] }
  | some sale ↦
      if not (any_on e.cfg)
      then record e { workers = [] }
      else record e { workers = start_workers e.cfg sale }
]

unfoldable pub update_config : Config → Engine → Engine
unfolding restart_workers
update_config c e = restart_workers (record e { cfg = c })

pub data Tag : Type 0 where
  spike back late refresh reconn scalper : Tag

-- The requests that a round sends. A token is `none` where the program has an empty text.
pub data Request : Type 0 where
  register : Tag → Request
  join : (sale : ℕ) → String → Request
  poll : (sale : ℕ) → String → Request
  checkout : (sale : ℕ) → Option String → Request
  transfer : Option String → Request

-- `token` is what the body decodes to.
pub record Response : Type 0 where
  pub status_code : ℕ
  pub token : Option String

-- `none` is an error of the client, such as a timeout. The latency of the second request of
-- `doScalper` is counted from the first.
pub record Reply : Type 0 where
  pub response : Option Response
  pub latency_ms : ℕ

-- No round sends one request twice, so a server may answer by the request.
abbrev pub Server : Type 0
Server = Request → Reply

unfoldable pub record_request : (status latency : ℕ) → (blocked : Bool) → Stats → Stats
record_request status latency blocked s = record {
  requests_total = s.requests_total + 1;
  errors_total = if leb 500 status then s.errors_total + 1 else s.errors_total;
  blocked_total = if blocked then s.blocked_total + 1 else s.blocked_total;
  last_latency_ms = latency;
}

-- A request whose error is recorded with the status 0, and one whose error is not recorded.
abbrev pub sent : Reply → (ℕ → Bool) → Stats → Stats
sent r blocked s = elim r.response [
  | none ↦ record_request 0 r.latency_ms false s
  | some x ↦ record_request x.status_code r.latency_ms (blocked x.status_code) s
]

abbrev pub sent_if_answered : Reply → (ℕ → Bool) → Stats → Stats
sent_if_answered r blocked s = elim r.response [
  | none ↦ s
  | some x ↦ record_request x.status_code r.latency_ms (blocked x.status_code) s
]

abbrev pub never : ℕ → Bool
never status = false

abbrev pub new_token : Option Response → Option String
new_token none = none
new_token (some x) = if x.status_code == 201 || x.status_code == 200 then x.token else none

unfoldable pub register_fake : Server → Tag → Stats → Stats × Option String
unfolding record_request
register_fake server tag s =
    let r = server (register tag) in (sent r (λ st. st == 429) s, new_token r.response)

unfoldable pub do_launch_spike : Server → ℕ → Stats → Stats
unfolding register_fake
do_launch_spike server sale s =
    let (s', tok) = register_fake server spike s in
    elim tok [ none ↦ s' | some t ↦ sent (server (join sale t)) (λ st. st == 429 || st == 503) s' ]

unfoldable pub do_backdoor : Server → ℕ → Stats → Stats
unfolding register_fake
do_backdoor server sale s =
    let (s', tok) = register_fake server back s in
    sent_if_answered (server (checkout sale tok)) (λ st. st == 403 || st == 429) s'

unfoldable pub do_join : Server → Tag → ℕ → Stats → Stats
unfolding register_fake
do_join server tag sale s =
    let (s', tok) = register_fake server tag s in
    elim tok [ none ↦ s' | some t ↦ sent_if_answered (server (join sale t)) never s' ]

-- `doRefresh` and `doReconnect`: the join in between is not recorded.
unfoldable pub do_poll : Server → Tag → ℕ → Stats → Stats
unfolding register_fake
do_poll server tag sale s =
    let (s', tok) = register_fake server tag s in
    elim tok [ none ↦ s' | some t ↦ sent_if_answered (server (poll sale t)) never s' ]

unfoldable pub do_scalper : Server → ℕ → Stats → Stats
unfolding register_fake
do_scalper server sale s =
    let (s', tok) = register_fake server scalper s in
    let s'' = sent_if_answered (server (transfer tok)) (λ st. st == 403) s' in
    elim (server (transfer tok)).response [
      | none ↦ s'
      | some x ↦ sent_if_answered (server (checkout sale tok)) (λ st. st == 403 || st == 429) s''
    ]

-- The function that `restartWorkers` gives to the loop of each name.
unfoldable pub run_round : Server → Name → ℕ → Stats → Stats
unfolding do_launch_spike do_backdoor do_join do_poll do_scalper
run_round server launch_spike sale s = do_launch_spike server sale s
run_round server backdoor_race sale s = do_backdoor server sale s
run_round server late_surge sale s = do_join server late sale s
run_round server refresh_storm sale s = do_poll server refresh sale s
run_round server reconnect_churn sale s = do_poll server reconn sale s
run_round server scalper_bots sale s = do_scalper server sale s
run_round server mixed_realistic sale s = s

abbrev pub same_name : Name → Name → Bool
same_name launch_spike launch_spike = true
same_name backdoor_race backdoor_race = true
same_name late_surge late_surge = true
same_name refresh_storm refresh_storm = true
same_name reconnect_churn reconnect_churn = true
same_name scalper_bots scalper_bots = true
same_name mixed_realistic mixed_realistic = true
same_name _ _ = false

-- One tick of the loop of a worker.
unfoldable pub worker_tick : Server → Worker → Engine → Engine
unfolding run_round
worker_tick server w e = record e {
  stats = run_round server w.name w.sale e.stats;
  per_scenario =
      λ name. if same_name w.name name then e.per_scenario name + 1 else e.per_scenario name;
}
