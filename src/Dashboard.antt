-- ===== src/Dashboard.antt =====
-- internal/dashboard/stats.go: the numbers that the live dashboard shows. A rate is a fraction; the
-- float64 of the source rounds it, which moves no comparison while the counters have fewer than 50
-- bits.
pub mod Counts
pub mod Examples
use traffic_backend_queue.Common.{
  ℕ, ◌+◌, ◌*◌, Bool, true, false, ◌&&◌, Option, none, some, List, [], ◌∷◌, ◌==◌, if◌then◌else◌,
  is_some, from_option, length, map, select, leb, ltb,
}
use traffic_backend_queue.Storage.{QueueEntry, Store, available}
use traffic_backend_queue.Inventory.{available_in}
use traffic_backend_queue.Orders.Stats.{distinct_count, tickets_of, unless_fails}
use traffic_backend_queue.Simulation.{Config, Name, Engine, Stats, active_names}

-- StatsSnapshot of internal/simulation/engine.go
pub record Snapshot : Type 0 where
  pub stats : Stats
  pub config : Config
  pub per_scenario : Name → ℕ
  pub active_scenarios : List Name

unfoldable pub snapshot : Engine → Snapshot
unfolding active_names
snapshot e = record {
  stats = e.stats;
  config = e.cfg;
  per_scenario = e.per_scenario;
  active_scenarios = active_names e.cfg;
}

pub data Health : Type 0 where
  healthy under_load degraded : Health

pub record Fraction : Type 0 where
  pub over : ℕ
  pub under : ℕ

abbrev pub exceeds : Fraction → ℕ → Bool
exceeds r n = ltb (n * r.under) r.over

abbrev pub nought : Fraction
nought = record { over = 0; under = 1 }

abbrev second : ℕ
second = 1000000000

-- The share of requests that failed, in percent.
unfoldable pub error_rate : Stats → Fraction
error_rate s =
    if ltb 0 s.requests_total
    then record { over = 100 * s.errors_total; under = s.requests_total }
    else nought

-- Requests in a second since the start of the engine, of which one second counts at least.
unfoldable pub requests_per_sec : (elapsed : ℕ) → Stats → Fraction
requests_per_sec elapsed s =
    if ltb 0 s.requests_total
    then record {
      over = s.requests_total * second;
      under = if ltb elapsed second then second else elapsed;
    }
    else nought

unfoldable pub health_of : (elapsed : ℕ) → Stats → Health
unfolding error_rate requests_per_sec
health_of elapsed s =
    if exceeds (error_rate s) 5
    then degraded
    else if exceeds (requests_per_sec elapsed s) 500
    then under_load
    else healthy

-- The reads of `Live`, in their order.
pub data Query : Type 0 where
  depth next_admit admitted tickets buyers holds seats : Query

pub record LiveStats : Type 0 where
  pub sale_id : ℕ
  pub queue_depth : ℕ
  pub next_admit_position : ℕ
  pub admitted_count : ℕ
  pub tickets_sold : ℕ
  pub unique_buyers : ℕ
  pub active_holds : ℕ
  pub available_seats : ℕ
  pub simulation : Snapshot
  pub health : Health
  pub error_rate_pct : Fraction
  pub requests_rate : Fraction
  pub last_latency_ms : ℕ

-- COALESCE(MAX(position), 0)
unfoldable pub max_position : ℕ → List QueueEntry → ℕ
max_position sale [] = 0
max_position sale (e ∷ es) =
    let rest = max_position sale es in
    if e.sale_id == sale then (if leb rest e.position then e.position else rest) else rest

abbrev pub admitted_in : ℕ → QueueEntry → Bool
admitted_in sale e = e.sale_id == sale && is_some e.admitted_at

-- The reads are no transaction: each finds the tables, the keys and the time of its own moment. A read
-- that fails leaves its number at 0.
unfoldable pub live :
    (fails : Query → Bool)
    → (elapsed : ℕ) → (db_now : Query → ℕ) → (sale : ℕ) → Engine
    → (Query → Store)
    → LiveStats
unfolding snapshot health_of max_position distinct_count
live fails elapsed db_now sale sim found =
    let snap = snapshot sim in
    record {
      sale_id = sale;
      queue_depth = unless_fails (fails depth) (max_position sale (found depth).db.queue_entries);
      next_admit_position =
          unless_fails (fails next_admit)
            (from_option 0 ((found next_admit).redis.next_admit sale));
      admitted_count =
          unless_fails (fails admitted)
            (length (select (admitted_in sale) (found admitted).db.queue_entries));
      tickets_sold = unless_fails (fails tickets) (length (tickets_of sale (found tickets).db));
      unique_buyers =
          unless_fails (fails buyers)
            (distinct_count (map (λ t. t.user_id) (tickets_of sale (found buyers).db)));
      active_holds = unless_fails (fails holds) (
          length (
            select (λ h. h.sale_id == sale && ltb (db_now holds) h.expires_at)
              (found holds).db.holds));
      available_seats =
          unless_fails (fails seats) (length (select (available_in sale) (found seats).db.seats));
      simulation = snap;
      health = health_of elapsed snap.stats;
      error_rate_pct = error_rate snap.stats;
      requests_rate = requests_per_sec elapsed snap.stats;
      last_latency_ms = snap.stats.last_latency_ms;
    }
