-- ===== src/Startup.antt =====
-- cmd/api/main.go: what the server is put together from, with Connect of internal/db/db.go and of
-- internal/redisclient/redis.go. Listening, the signals and the shutdown are input and output.
pub mod Defaults
pub mod Unreadable
pub mod Programs
pub mod Checking
pub mod Admitting
pub mod Examples
use traffic_backend_queue.Common.{◌&&◌, ℕ, Bool, not, Option, List, if◌then◌else◌, ℤ, pos}
use traffic_backend_queue.Config.{
  Text, Environment, Config, load, default_dirs, duration, second, wrap,
}
use traffic_backend_queue.Loadtest.{Caps, positive_or}
use traffic_backend_queue.HttpApi.Demo.{SetupEnv, World, default_sale_params, setup_demo}

unfoldable pub limits_of : Config → Caps
unfolding duration
limits_of c = record {
  max_vus = c.loadtest_max_vus;
  max_queue_depth = c.loadtest_max_queue;
  max_concurrent = c.loadtest_max_concurrent;
  max_steady = duration c.loadtest_max_steady_sec second;
  default_vus = c.loadtest_default_vus;
}

-- What the server runs with.
pub record Server : Type 0 where
  pub config : Config
  pub limits : Caps
  pub jobs_dir : Text
  pub results_dir : Text

pub data Start : Type 0 where
  no_database no_redis : Start
  serves : Server → Start

-- How the servers of the two stores answer: `opens url most least` of pgxpool, and the URL and the
-- PING of Redis.
pub record Outside : Type 0 where
  pub opens : Text → ℤ → ℤ → Bool
  pub reads_url : Text → Bool
  pub answers_ping : Text → Bool

-- Connect of internal/db/db.go; the numbers of connections are int32.
unfoldable pub open_pool : Outside → Text → (max_conns min_conns : ℤ) → Bool
unfolding wrap
open_pool outside url max_conns min_conns =
    outside.opens url (wrap 32 (positive_or max_conns (pos 50)))
      (wrap 32 (positive_or min_conns (pos 5)))

-- Connect of internal/redisclient/redis.go
unfoldable pub connect_redis : Outside → Text → Bool
connect_redis outside url = outside.reads_url url && outside.answers_ping url

-- The two connections that the API server, the worker and the queue check begin with.
pub data Connected : Type 0 where
  database_fails redis_fails connected : Connected

unfoldable pub connect : Outside → Config → Connected
unfolding open_pool connect_redis
connect outside c =
    if not (open_pool outside c.database_url c.db_max_conns c.db_min_conns)
    then database_fails
    else if not (connect_redis outside c.redis_url)
    then redis_fails
    else connected

unfoldable pub start : Outside → Environment → Start
unfolding load connect limits_of default_dirs
start outside env =
    let c = load env in
    let (jobs, results) = default_dirs env in
    elim (connect outside c) [
      | database_fails ↦ no_database
      | redis_fails ↦ no_redis
      | connected ↦
          serves
            (record { config = c; limits = limits_of c; jobs_dir = jobs; results_dir = results })
    ]

-- The goroutine of the demo, two seconds after the start: its engine has the admin key of the server.
-- `key` takes the text of a key to the key.
unfoldable pub auto_setup : (Text → Option ℕ) → Config → SetupEnv → World → World
unfolding setup_demo
auto_setup key c env w =
    let (w', r) =
      setup_demo (key c.admin_api_key) (key c.admin_api_key) env default_sale_params w in
    if c.demo_auto_setup then w' else w
