-- ===== src/LoadtestRunner.antt =====
-- cmd/loadtest-runner/main.go: one job at a time, run by k6. What k6 does to its summary file, and
-- how it ends, are arguments. The text of an error stands without the output of k6.
pub mod Ends
pub mod Outcomes
pub mod Examples
use Prim.Native.String.{String}
use traffic_backend_queue.Common.{
  ℕ, Bool, true, false, not, ◌&&◌, ◌||◌, Option, none, some, List, [], ◌∷◌, if◌then◌else◌, ltb,
  is_some,
}
use traffic_backend_queue.Loadtest.{
  Status, passed, failed, Job, RunResult, ResultFile, other_json, garbage, result, report, Store,
  Error, io_failed, read_file, write_file, remove_file, write_result, write_running,
  parse_k6_report, list_pending_jobs, count_active,
}

-- What a run leaves in the place of the summary.
pub data Summary : Type 0 where
  untouched removed : Summary
  wrote : ResultFile → Summary

-- Which writes fail, whether the script is there, and how k6 ends.
pub record Env : Type 0 where
  pub running_write_fails : Bool
  pub script_exists : Bool
  pub summary : Summary
  pub exit_error : Option String
  pub final_write_fails : Bool
  pub remove_fails : Bool

abbrev pub leave : ℕ → Summary → Store → Store
leave id untouched s = s
leave id removed s = record s { results = remove_file id s.results }
leave id (wrote file) s = record s { results = write_file id file s.results }

abbrev pub outcome : Job → Bool → Status → Option String → Option ℕ → ℕ → RunResult
outcome job has_passed status message sale_id now = record {
  run_id = job.run_id;
  scenario = some job.scenario;
  sale_id = sale_id;
  status = status;
  has_passed = has_passed;
  failures = none;
  started_at = none;
  finished_at = some now;
  message = message;
}

-- The result is written, and then the job file is removed if `clean` says so.
unfoldable pub finish : Env → Bool → RunResult → Job → Store → Store × Option Error
finish env clean r job s =
    if env.final_write_fails
    then (s, some io_failed)
    else let s' = write_result r s in
      (
        if clean && not env.remove_fails
            then record s' { jobs = remove_file job.run_id s'.jobs }
            else s',
        none,
      )

abbrev pub or_else {ℓ} : {A : Type ℓ} → Option A → Option A → Option A
or_else none b = b
or_else (some a) b = some a

-- A run that k6 reports as passed, and that ends with an error, has failed.
unfoldable pub correct : Option String → Job → RunResult → RunResult
correct exit job r =
    let filled = record r {
      sale_id = or_else r.sale_id job.sale_id;
      scenario = or_else r.scenario (some job.scenario);
    } in
    elim exit [
      | none ↦ filled
      | some e ↦ elim r.status [
        | passed ↦ record filled {
          status = failed;
          has_passed = false;
          failures = or_else r.failures (some (e ∷ []));
        }
        | _ ↦ filled
      ]
    ]

-- From the summary on.
unfoldable pub evaluate : Env → ℕ → Job → Store → Store × Option Error
unfolding finish correct
evaluate env now job s = elim (read_file job.run_id s.results) [
  | none ↦
      finish env true
        (outcome job false Status.error
          (or_else env.exit_error (some "k6 finished without summary")) job.sale_id now)
        job s
  | some raw ↦ elim (parse_k6_report job.run_id raw) [
    | some r ↦ finish env true (correct env.exit_error job r) job s
    | none ↦ elim raw [
      | other_json ↦
          finish env false
            (outcome job (not (is_some env.exit_error))
              (if is_some env.exit_error then failed else passed) env.exit_error job.sale_id now)
            job s
      | _ ↦ finish env false (outcome job false Status.error (some "parse error") none now) job s
    ]
  ]
]

unfoldable pub run_job : Env → (started now : ℕ) → Job → Store → Store × Option Error
unfolding evaluate
run_job env started now job s =
    if env.running_write_fails
    then (s, some io_failed)
    else let s' = write_running job.run_id started s in
      if not env.script_exists
      then finish env true
          (outcome job false Status.error (some "scenario script not found") none now) job s'
      else evaluate env now job (leave job.run_id env.summary s')

-- One tick of the loop: the oldest pending job, unless a run is going on.
unfoldable pub tick : Env → (list_fails running_fails : Bool) → (started now : ℕ) → Store → Store
unfolding run_job
tick env list_fails running_fails started now s =
    if list_fails || running_fails
    then s
    else if ltb 0 (count_active started s).1
    then s
    else elim (list_pending_jobs s) [ [] ↦ s | job ∷ jobs ↦ (run_job env started now job s).0 ]
