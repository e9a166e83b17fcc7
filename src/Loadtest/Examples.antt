-- ===== src/Loadtest/Examples.antt =====
-- The theorems about internal/loadtest at a concrete request.
use traffic_backend_queue.Common.{
  ◌+◌, ◌≡◌, refl, suc, true, false, some, [], ◌∷◌, pos, negsuc, is_positive, less,
}
use traffic_backend_queue.Loadtest.{
  launch_spike, empty, nanoseconds, Job, RunRequest, RunResult, default_limits, apply, result,
  Store, read_file, read_job, running_result, count_active, get_status, job_of, submit, positive_or,
  queued, can_accept, list_pending_jobs, valid_scenario,
}
use traffic_backend_queue.Loadtest.Limits.{IsWithin, apply-IsWithin}
use traffic_backend_queue.Loadtest.Runs.{submit-queued}

abbrev request : RunRequest
request = record {
  scenario = launch_spike;
  sale_id = some 1;
  vus_max = pos 400;
  ramp_up = empty;
  steady = nanoseconds (pos 200000000000);
  ramp_down = empty;
  admit_per_minute = negsuc 0;
  waiting_room_cap = pos 0;
  total_seats = pos 50;
}

-- Another run has been marked running.
abbrev store : Store
store = record { jobs = []; results = (3, result (running_result 3 50)) ∷ [] }

abbrev free : Store
free = record { jobs = []; results = [] }

abbrev job : Job
job = job_of (apply default_limits request) 4 100

apply-IsWithin_example :
    (is_positive (apply default_limits request).vus_max ≡ true)
    × (less default_limits.max_vus (apply default_limits request).vus_max ≡ false)
    × IsWithin default_limits.max_steady (apply default_limits request).steady
    × (is_positive (apply default_limits request).admit_per_minute ≡ true)
    × (is_positive (apply default_limits request).waiting_room_cap ≡ true)
    × (is_positive (apply default_limits request).total_seats ≡ true)
unfolding default_limits
apply-IsWithin_example = apply-IsWithin default_limits request refl refl refl

submit-queued_example :
    let s' = (submit false false default_limits 4 100 request free).0 in
    (less (pos (count_active 100 free).1) (positive_or default_limits.max_concurrent (pos 1))
      ≡ true)
    × (less
          (pos ((count_active 100 free).0 + (count_active 100 free).1))
          (positive_or default_limits.max_queue_depth (pos 3))
        ≡ true)
    × ((count_active 100 s').0 ≡ suc (count_active 100 free).0)
    × ((count_active 100 s').1 ≡ (count_active 100 free).1)
    × (read_job s' 4 ≡ some job)
    × ((r : RunResult) × (get_status 100 4 s' ≡ some r) × (r.status ≡ queued))
unfolding submit default_limits count_active can_accept list_pending_jobs read_file valid_scenario
submit-queued_example =
    submit-queued false false default_limits 4 100 request free job refl refl refl
