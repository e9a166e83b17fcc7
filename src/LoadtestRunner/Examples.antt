-- ===== src/LoadtestRunner/Examples.antt =====
-- The theorems about cmd/loadtest-runner at a concrete run.
use traffic_backend_queue.Common.{◌≡◌, refl, true, false, none, some, [], ◌∷◌, pos}
use traffic_backend_queue.Loadtest.{
  ResultFile, launch_spike, nanoseconds, Job, RunResult, report, Report, Store, report_result,
  read_result, is_job_claimed, parse_k6_report, read_file, write_file, write_result, write_running,
}
use traffic_backend_queue.LoadtestRunner.{untouched, wrote, Env, run_job, evaluate, finish, correct}
use traffic_backend_queue.LoadtestRunner.Ends.{IsFinal}
use traffic_backend_queue.LoadtestRunner.Outcomes.{lets_pass, run_job-IsFinal, run_job_passed}

abbrev job : Job
job = record {
  run_id = 4;
  scenario = launch_spike;
  sale_id = some 1;
  vus_max = pos 80;
  ramp_up = nanoseconds (pos 10);
  steady = nanoseconds (pos 30);
  ramp_down = nanoseconds (pos 10);
  admit_per_minute = pos 6000;
  waiting_room_cap = pos 1000;
  total_seats = pos 50;
  created_at = 100;
}

abbrev store : Store
store = record { jobs = (4, some job) ∷ []; results = [] }

abbrev summary : Report
summary = record {
  scenario = none;
  sale_id = some 1;
  has_passed = true;
  failures = none;
  finished_at = some 180;
}

abbrev good : Env
good = record {
  running_write_fails = false;
  script_exists = true;
  summary = wrote (report summary);
  exit_error = none;
  final_write_fails = false;
  remove_fails = false;
}

-- k6 dies before it writes its summary.
abbrev crashed : Env
crashed = record good { summary = untouched; exit_error = some "exit status 137" }

run_job-IsFinal_example :
    (x : RunResult) × (read_result (run_job crashed 110 200 job store).0 4 ≡ some x)
    × IsFinal x.status
    × (is_job_claimed (run_job crashed 110 200 job store).0 4 ≡ true)
run_job-IsFinal_example = run_job-IsFinal crashed 110 200 job store refl refl

abbrev ended : RunResult
ended = record (report_result 4 summary) { scenario = some launch_spike }

run_job_passed_example :
    (good.script_exists ≡ true)
    × (good.exit_error ≡ none)
    × ((file : ResultFile) × (good.summary ≡ wrote file) × (lets_pass file ≡ true))
unfolding run_job evaluate parse_k6_report read_result finish correct read_file write_file
    write_result write_running
run_job_passed_example = run_job_passed good 110 200 job store ended refl refl refl refl
