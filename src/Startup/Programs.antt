-- ===== src/Startup/Programs.antt =====
-- The programs beside the server, from their start: cmd/worker/main.go, cmd/assert-queue/main.go and
-- cmd/loadtest-runner/main.go.
use traffic_backend_queue.Common.{
  ℕ, ◌*◌, Bool, Option, none, some, List, [], ◌∷◌, if◌then◌else◌, ltb,
}
use traffic_backend_queue.Storage.{Db, Store}
use traffic_backend_queue.Config.{Text, Environment, Variable, load, default_dirs, get_env, codes}
use traffic_backend_queue.Inventory.{TxFault}
use traffic_backend_queue.Worker
use traffic_backend_queue.AssertQueue.{Row, rows_of, inversions}
use traffic_backend_queue.Loadtest
use traffic_backend_queue.Loadtest.{clean_stale_running, second}
use traffic_backend_queue.LoadtestRunner
use traffic_backend_queue.LoadtestRunner.{Env}
use traffic_backend_queue.Startup.{Outside, connect, connected}

-- One tick of the worker: when it is, and what fails.
pub record Tick : Type 0 where
  pub db_now : ℕ
  pub query_fails : Bool
  pub incr_fails : ℕ → Bool
  pub release_fails : Bool
  pub fault : ℕ → TxFault

unfoldable pub ticks : List Tick → Store → Store
ticks [] s = s
ticks (t ∷ ts) s =
    ticks ts (Worker.tick t.query_fails t.incr_fails t.release_fails t.fault t.db_now s)

-- `none` where the worker ends before its loop.
unfoldable pub run_worker : Outside → Environment → List Tick → Store → Option Store
unfolding load connect ticks
run_worker outside env ts s = elim (connect outside (load env)) [
  | connected ↦ some (ticks ts s)
  | _ ↦ none
]

-- The exit code of the check on the rows of a sale.
unfoldable pub exit_code : List Row → ℕ
unfolding inversions
exit_code [] = 0
exit_code (r ∷ rows) = if ltb 0 (inversions (r ∷ rows)) then 1 else 0

-- The exit code of the check; `sale` is the flag.
unfoldable pub check_queue :
    Outside → Environment → (sale : Option ℕ) → (query_fails : Bool) → Db → ℕ
unfolding load connect exit_code rows_of
check_queue outside env none query_fails d = 2
check_queue outside env (some sale) query_fails d = elim (connect outside (load env)) [
  | connected ↦ if query_fails then 1 else exit_code (rows_of sale d.queue_entries)
  | _ ↦ 1
]

-- What the runner reads from the environment.
pub record RunnerSettings : Type 0 where
  pub jobs_dir : Text
  pub results_dir : Text
  pub scripts_dir : Text
  pub base_url : Text
  pub admin_key : Text

unfoldable pub runner_settings : Environment → RunnerSettings
unfolding get_env default_dirs
runner_settings env =
    let (jobs, results) = default_dirs env in
    record {
      jobs_dir = jobs;
      results_dir = results;
      scripts_dir = get_env env Variable.k6_scripts_dir (codes "/scripts");
      base_url = get_env env Variable.base_url (codes "http://api:8080");
      admin_key = get_env env Variable.admin_key (codes "dev-admin-key");
    }

-- One tick of the runner: when it is, what fails, and what its run of k6 does.
pub record RunnerTick : Type 0 where
  pub env : Env
  pub list_fails : Bool
  pub running_fails : Bool
  pub started : ℕ
  pub now : ℕ

unfoldable pub runner_ticks : List RunnerTick → Loadtest.Store → Loadtest.Store
runner_ticks [] s = s
runner_ticks (t ∷ ts) s =
    runner_ticks ts (LoadtestRunner.tick t.env t.list_fails t.running_fails t.started t.now s)

-- The runner removes the markers of runs that started two hours ago, and then ticks. `none` where it
-- has no directories.
unfoldable pub run_runner :
    (dirs_fail : Bool) → (now : ℕ) → List RunnerTick → Loadtest.Store → Option Loadtest.Store
unfolding clean_stale_running runner_ticks
run_runner dirs_fail now ts s =
    if dirs_fail
    then none
    else some (runner_ticks ts (clean_stale_running (2 * 3600 * second) now s).0)
