-- ===== src/Loadtest/Requests.antt =====
-- internal/loadtest/job.go and limits.go: requests, jobs and results, and the limits of the shared
-- demo.
use Prim.Native.String.{String}
use traffic_backend_queue.Common.{
  ℕ, ◌+◌, ◌*◌, Bool, true, false, ◌&&◌, not, Option, none, some, List, if◌then◌else◌, ℤ, pos,
  is_positive, less,
}

-- `unset` is the empty text, which a file without a status decodes to.
pub data Status : Type 0 where
  unset queued running passed failed error : Status

pub data Scenario : Type 0 where
  launch_spike backdoor_race late_surge refresh_storm reconnect_churn bot_checkout scalper_network
        queue_fairness second_sale_regression mixed_realistic :
      Scenario
  unknown : String → Scenario

unfoldable pub valid_scenario : Scenario → Bool
valid_scenario (unknown name) = false
valid_scenario launch_spike = true
valid_scenario _ = true

-- A duration of k6: the empty text, one that `time.ParseDuration` reads, or one that it refuses.
pub data Duration : Type 0 where
  empty : Duration
  nanoseconds : ℤ → Duration
  malformed : String → Duration

pub record Job : Type 0 where
  pub run_id : ℕ
  pub scenario : Scenario
  pub sale_id : Option ℕ
  pub vus_max : ℤ
  pub ramp_up : Duration
  pub steady : Duration
  pub ramp_down : Duration
  pub admit_per_minute : ℤ
  pub waiting_room_cap : ℤ
  pub total_seats : ℤ
  pub created_at : ℕ

pub record RunRequest : Type 0 where
  pub scenario : Scenario
  pub sale_id : Option ℕ
  pub vus_max : ℤ
  pub ramp_up : Duration
  pub steady : Duration
  pub ramp_down : Duration
  pub admit_per_minute : ℤ
  pub waiting_room_cap : ℤ
  pub total_seats : ℤ

-- `metrics` and `extra` are left out: they are passed through. `none` is the
-- empty text, and the missing list of failures.
pub record RunResult : Type 0 where
  pub run_id : ℕ
  pub scenario : Option Scenario
  pub sale_id : Option ℕ
  pub status : Status
  pub has_passed : Bool
  pub failures : Option (List String)
  pub started_at : Option ℕ
  pub finished_at : Option ℕ
  pub message : Option String

-- Limits caps shared-demo load tests so the API stays responsive.
pub record Caps : Type 0 where
  pub max_vus : ℤ
  pub max_queue_depth : ℤ
  pub max_concurrent : ℤ
  pub max_steady : ℤ
  pub default_vus : ℤ

abbrev pub second : ℕ
second = 1000000000

unfoldable pub default_limits : Caps
default_limits = record {
  max_vus = pos 150;
  max_queue_depth = pos 3;
  max_concurrent = pos 1;
  max_steady = pos (90 * second);
  default_vus = pos 80;
}

abbrev pub or_default : Duration → ℕ → Duration
or_default empty d = nanoseconds (pos (d * second))
or_default (nanoseconds n) d = nanoseconds n
or_default (malformed s) d = malformed s

-- A maximum that is not positive means no limit.
abbrev pub capped : ℤ → ℤ → ℤ
capped most n = if is_positive most && less most n then most else n

abbrev pub cap_steady : ℤ → Duration → Duration
cap_steady most (nanoseconds n) = nanoseconds (capped most n)
cap_steady most empty = empty
cap_steady most (malformed s) = malformed s

abbrev pub positive_or : ℤ → ℤ → ℤ
positive_or n d = if is_positive n then n else d

unfoldable pub apply : Caps → RunRequest → RunRequest
apply l req = record req {
  vus_max = capped l.max_vus (positive_or req.vus_max l.default_vus);
  ramp_up = or_default req.ramp_up 10;
  steady = cap_steady l.max_steady (or_default req.steady 30);
  ramp_down = or_default req.ramp_down 10;
  admit_per_minute = positive_or req.admit_per_minute (pos 6000);
  waiting_room_cap = positive_or req.waiting_room_cap (pos 100000);
  total_seats = positive_or req.total_seats (pos 500);
}

pub data Error : Type 0 where
  queue_full already_busy invalid_scenario io_failed not_exist : Error

-- `none` accepts.
unfoldable pub can_accept : Caps → ℕ → ℕ → Option Error
can_accept l pending run =
    let max_q = positive_or l.max_queue_depth (pos 3) in
    let max_run = positive_or l.max_concurrent (pos 1) in
    if not (less (pos run) max_run)
    then some already_busy
    else if not (less (pos (pending + run)) max_q)
    then some queue_full
    else none
