-- ===== src/Loadtest.antt =====
-- internal/loadtest: the limits of shared load tests, and the store of jobs and results. A directory
-- is the list of its files `<run id>.json`; a file that holds no JSON of the expected form reads as
-- `none`. Times are numbers of nanoseconds.
mod Requests
pub mod Limits
pub mod Runs
pub mod Listing
pub mod Files
pub mod Examples
unfoldable pub use Requests.*
use Prim.Native.String.{String}
use traffic_backend_queue.Common.{
  ℕ, ◌+◌, ◌-◌, ◌*◌, Bool, true, false, ◌&&◌, ◌||◌, not, Option, none, some, List, [], ◌∷◌, ltb, leb,
  ◌==◌, if◌then◌else◌, is_some, length, ℤ, pos, is_positive, less, sort_by,
}

-- What a run of k6 writes with `handleSummary`: the id of the run, which is the name of the file, and
-- a time in RFC 3339 or none.
pub record Report : Type 0 where
  pub scenario : Option Scenario
  pub sale_id : Option ℕ
  pub has_passed : Bool
  pub failures : Option (List String)
  pub finished_at : Option ℕ

-- A file of the directory of results: a result of this program, a report of k6, or neither.
pub data ResultFile : Type 0 where
  result : RunResult → ResultFile
  report : Report → ResultFile
  other_json garbage : ResultFile

abbrev pub Dir : Type 0 → Type 0
Dir A = List (ℕ × A)

pub record Store : Type 0 where
  pub jobs : Dir (Option Job)
  pub results : Dir ResultFile

unfoldable pub read_file : {A : Type 0} → ℕ → Dir A → Option A
read_file id [] = none
read_file id ((j, a) ∷ d) = if j == id then some a else read_file id d

-- A file is written under another name and renamed.
unfoldable pub write_file : {A : Type 0} → ℕ → A → Dir A → Dir A
write_file id a [] = (id, a) ∷ []
write_file id a ((j, b) ∷ d) = if j == id then (id, a) ∷ d else (j, b) ∷ write_file id a d

-- No file has the name afterwards.
unfoldable pub remove_file : {A : Type 0} → ℕ → Dir A → Dir A
remove_file id [] = []
remove_file id ((j, b) ∷ d) = let rest = remove_file id d in if j == id then rest else (j, b) ∷ rest

abbrev pub parse_result : ℕ → Option ResultFile → Option RunResult
parse_result id (some (result r)) = some r
parse_result id (some (report r)) = some (record {
  run_id = id;
  scenario = r.scenario;
  sale_id = r.sale_id;
  status = unset;
  has_passed = r.has_passed;
  failures = r.failures;
  started_at = none;
  finished_at = r.finished_at;
  message = none;
})
parse_result id (some other_json) = none
parse_result id (some garbage) = none
parse_result id none = none

unfoldable pub read_result : Store → ℕ → Option RunResult
unfolding read_file
read_result s id = parse_result id (read_file id s.results)

abbrev pub report_result : ℕ → Report → RunResult
report_result id r = record {
  run_id = id;
  scenario = r.scenario;
  sale_id = r.sale_id;
  status = if r.has_passed then passed else failed;
  has_passed = r.has_passed;
  failures = r.failures;
  started_at = none;
  finished_at = r.finished_at;
  message = none;
}

-- What a result of this program decodes to as a report of k6.
abbrev pub as_report : RunResult → Report
as_report r = record {
  scenario = r.scenario;
  sale_id = r.sale_id;
  has_passed = r.has_passed;
  failures = r.failures;
  finished_at = r.finished_at;
}

unfoldable pub parse_k6_report : ℕ → ResultFile → Option RunResult
parse_k6_report id (result r) = some (report_result id (as_report r))
parse_k6_report id (report r) = some (report_result id r)
parse_k6_report id other_json = none
parse_k6_report id garbage = none

unfoldable pub write_job : Job → Store → Store
unfolding write_file
write_job job s = record s { jobs = write_file job.run_id (some job) s.jobs }

abbrev pub join_option : {A : Type 0} → Option (Option A) → Option A
join_option none = none
join_option (some a) = a

unfoldable pub read_job : Store → ℕ → Option Job
unfolding read_file
read_job s id = join_option (read_file id s.jobs)

unfoldable pub write_result : RunResult → Store → Store
unfolding write_file
write_result r s = record s { results = write_file r.run_id (result r) s.results }

abbrev pub running_result : ℕ → ℕ → RunResult
running_result id now = record {
  run_id = id;
  scenario = none;
  sale_id = none;
  status = running;
  has_passed = false;
  failures = none;
  started_at = some now;
  finished_at = none;
  message = none;
}

unfoldable pub write_running : ℕ → ℕ → Store → Store
unfolding write_result
write_running id now s = write_result (running_result id now) s

abbrev pub claims_job : Option RunResult → Bool
claims_job none = false
claims_job (some r) = elim r.status [ unset ↦ false | queued ↦ false | _ ↦ true ]

unfoldable pub is_job_claimed : Store → ℕ → Bool
is_job_claimed s id = claims_job (read_result s id)

-- The entries of the directory of jobs that are not claimed and can be read.
pub pending_jobs : Store → Dir (Option Job) → List Job
pending_jobs s [] = []
pending_jobs s ((id, none) ∷ d) = pending_jobs s d
pending_jobs s ((id, some job) ∷ d) =
    if is_job_claimed s id then pending_jobs s d else job ∷ pending_jobs s d

abbrev pub is_older : Job → Job → Bool
is_older a b = ltb a.created_at b.created_at

-- Oldest first.
unfoldable pub list_pending_jobs : Store → List Job
unfolding pending_jobs sort_by
list_pending_jobs s = sort_by is_older (pending_jobs s s.jobs)

abbrev pub stale_after : ℕ
stale_after = 45 * 60 * second

abbrev pub is_stale : ℕ → Option ℕ → Bool
is_stale now none = false
is_stale now (some started) = ltb (started + stale_after) now

abbrev pub counts_running : ℕ → Option RunResult → Bool
counts_running now none = false
counts_running now (some r) = elim r.status [
  | running ↦ not (is_stale now r.started_at)
  | _ ↦ false
]

pub running_count : ℕ → Dir ResultFile → ℕ
running_count now [] = 0
running_count now ((id, file) ∷ d) =
    (if counts_running now (parse_result id (some file)) then 1 else 0) + running_count now d

-- The queued jobs, and the runs that are marked running and not stale.
unfoldable pub count_active : ℕ → Store → ℕ × ℕ
unfolding running_count list_pending_jobs
count_active now s = (length (list_pending_jobs s), running_count now s.results)

unfoldable pub get_status : ℕ → ℕ → Store → Option RunResult
unfolding read_result read_job
get_status now id s = elim (read_result s id) [
  | some r ↦ some (elim r.status [
    | running ↦
        if is_stale now r.started_at
        then record r { status = error; message = some "run timed out (stale running state)" }
        else r
    | _ ↦ r
  ])
  | none ↦ elim (read_job s id) [
    | some job ↦ some (record (running_result id now) { status = queued; started_at = none })
    | none ↦ none
  ]
]

-- The markers that `CleanStaleRunning` removes.
abbrev pub is_abandoned : ℕ → ℕ → Option RunResult → Bool
is_abandoned max_age now none = false
is_abandoned max_age now (some r) = elim r.status [
  | running ↦ not (is_recent r.started_at) && not (is_some r.finished_at)
  | _ ↦ false
]
  where
    is_recent : Option ℕ → Bool
    is_recent none = false
    is_recent (some started) = ltb now (started + max_age)

pub clean_results : ℕ → ℕ → Dir ResultFile → Dir ResultFile × ℕ
clean_results max_age now [] = ([], 0)
clean_results max_age now ((id, file) ∷ d) =
    let (d', n) = clean_results max_age now d in
    if is_abandoned max_age now (parse_result id (some file))
    then (d', n + 1)
    else ((id, file) ∷ d', n)

unfoldable pub clean_stale_running : ℕ → ℕ → Store → Store × ℕ
unfolding clean_results
clean_stale_running max_age now s =
    let (d, n) = clean_results max_age now s.results in (record s { results = d }, n)

pub data Submitted : Type 0 where
  accepted : Job → Submitted
  refused : Error → Submitted

abbrev pub job_of : RunRequest → ℕ → ℕ → Job
job_of req id now = record {
  run_id = id;
  scenario = req.scenario;
  sale_id = req.sale_id;
  vus_max = req.vus_max;
  ramp_up = req.ramp_up;
  steady = req.steady;
  ramp_down = req.ramp_down;
  admit_per_minute = req.admit_per_minute;
  waiting_room_cap = req.waiting_room_cap;
  total_seats = req.total_seats;
  created_at = now;
}

unfoldable pub submit :
    (list_fails write_fails : Bool) → Caps → (id now : ℕ) → RunRequest → Store → Store × Submitted
unfolding count_active can_accept write_job
submit list_fails write_fails l id now req s =
    if not (valid_scenario req.scenario)
    then (s, refused invalid_scenario)
    else if list_fails
    then (s, refused io_failed)
    else let (pending, run) = count_active now s in
      elim (can_accept l pending run) [
        | some e ↦ (s, refused e)
        | none ↦
            let job = job_of (apply l req) id now in
            if write_fails then (s, refused io_failed) else (write_job job s, accepted job)
      ]
