-- ===== src/Loadtest/Runs.antt =====
-- What internal/loadtest does to the jobs that wait and the results.
use traffic_backend_queue.Common.{
  length-sort_by, ℕ, suc, ◌+◌, ◌≡◌, refl, sym, ◌∙◌, Bool, true, false, not, Option, none, some, [],
  ◌∷◌, arith, length, select, less, pos, Option-cases, Bool-cases, inl, inr, ap,
}
use traffic_backend_queue.Loadtest.{
  Job, RunRequest, RunResult, Caps, apply, ResultFile, Store, Dir, read_file, write_file,
  parse_result, read_result, read_job, write_job, is_job_claimed, pending_jobs, is_older,
  list_pending_jobs, count_active, can_accept, get_status, is_abandoned, clean_results,
  clean_stale_running, accepted, job_of, submit, positive_or, queued, running_result,
}
use traffic_backend_queue.Loadtest.Files.{read_file-write_file}

-- Whether a job is claimed depends on the results alone.
pending_jobs-write_job :
    (job : Job) (s : Store) (d : Dir (Option Job))
    → pending_jobs (write_job job s) d ≡ pending_jobs s d
unfolding pending_jobs is_job_claimed read_result write_job
pending_jobs-write_job job s [] = refl
pending_jobs-write_job job s ((i, none) ∷ d) = pending_jobs-write_job job s d
pending_jobs-write_job job s ((i, some j) ∷ d) = ground (arith, pending_jobs-write_job job s d)

length-pending_jobs :
    (s : Store) (id : ℕ) (job : Job) (d : Dir (Option Job))
    → read_file id d ≡ none
    → is_job_claimed s id ≡ false
    → length (pending_jobs s (write_file id (some job) d)) ≡ suc (length (pending_jobs s d))
unfolding pending_jobs write_file read_file
length-pending_jobs s id job [] h c = ground arith
length-pending_jobs s id job ((i, none) ∷ d) h c = ground (arith, length-pending_jobs s id job d)
length-pending_jobs s id job ((i, some j) ∷ d) h c = ground (arith, length-pending_jobs s id job d)

-- A submission that is accepted, taken apart.
pub submit-accepted :
    (list_fails write_fails : Bool) (l : Caps) (id now : ℕ) (req : RunRequest) (s : Store)
    (job : Job)
    → (submit list_fails write_fails l id now req s).1 ≡ accepted job
    → (can_accept l (count_active now s).0 (count_active now s).1 ≡ none)
      × (job ≡ job_of (apply l req) id now)
      × ((submit list_fails write_fails l id now req s).0 ≡ write_job job s)
unfolding submit
submit-accepted list_fails write_fails l id now req s job h =
    elim (Option-cases (can_accept l (count_active now s).0 (count_active now s).1)) [
      | inr (e, q) ↦ absurd (ground arith)
      | inl q ↦ (q, ground arith, ground arith)
    ]

can_accept_room :
    (l : Caps) (pending run : ℕ)
    → can_accept l pending run ≡ none
    → (less (pos run) (positive_or l.max_concurrent (pos 1)) ≡ true)
      × (less (pos (pending + run)) (positive_or l.max_queue_depth (pos 3)) ≡ true)
unfolding can_accept
can_accept_room l pending run h = (ground arith, ground arith)

count_active-write_job :
    (now : ℕ) (job : Job) (s : Store)
    → read_file job.run_id s.jobs ≡ none
    → is_job_claimed s job.run_id ≡ false
    → ((count_active now (write_job job s)).0 ≡ suc (count_active now s).0)
      × ((count_active now (write_job job s)).1 ≡ (count_active now s).1)
unfolding count_active list_pending_jobs write_job
count_active-write_job now job s fresh free = (
  length-sort_by is_older _
      ∙ ap length (pending_jobs-write_job job s (write_job job s).jobs)
      ∙ length-pending_jobs s job.run_id job s.jobs fresh free
      ∙ ap suc (sym (length-sort_by is_older (pending_jobs s s.jobs))),
  refl,
)

write_job_status :
    (now : ℕ) (job : Job) (s : Store)
    → read_file job.run_id s.results ≡ none
    → (read_job (write_job job s) job.run_id ≡ some job)
      × ((r : RunResult) × (get_status now job.run_id (write_job job s) ≡ some r)
          × (r.status ≡ queued))
unfolding get_status read_job read_result write_job
write_job_status now job s unused =
    let stored = read_file-write_file job.run_id job.run_id (some job) s.jobs in
    (
      ground (arith, stored),
      (
        record (running_result job.run_id now) { status = queued; started_at = none },
        ground (arith, stored, unused),
        refl,
      ),
    )

-- A submission whose id is new and that is accepted leaves room for it: the runs going on were below
-- their maximum, the jobs and runs were below the depth of the queue, one more job waits, as many
-- runs go on as before, and the status of the new run is queued.
pub submit-queued :
    (list_fails write_fails : Bool) (l : Caps) (id now : ℕ) (req : RunRequest) (s : Store)
    (job : Job)
    → read_file id s.jobs ≡ none
    → read_file id s.results ≡ none
    → (submit list_fails write_fails l id now req s).1 ≡ accepted job
    → let s' = (submit list_fails write_fails l id now req s).0 in
      (less (pos (count_active now s).1) (positive_or l.max_concurrent (pos 1)) ≡ true)
      × (less
            (pos ((count_active now s).0 + (count_active now s).1))
            (positive_or l.max_queue_depth (pos 3))
          ≡ true)
      × ((count_active now s').0 ≡ suc (count_active now s).0)
      × ((count_active now s').1 ≡ (count_active now s).1)
      × (read_job s' id ≡ some (job_of (apply l req) id now))
      × ((r : RunResult) × (get_status now id s' ≡ some r) × (r.status ≡ queued))
unfolding is_job_claimed read_result
submit-queued list_fails write_fails l id now req s job fresh unused h =
    let (room, made, stored) = submit-accepted list_fails write_fails l id now req s job h in
    let (a, b) = can_accept_room l (count_active now s).0 (count_active now s).1 room in
    let new = job_of (apply l req) id now in
    let (more, same) = count_active-write_job now new s fresh (ground (arith, unused)) in
    let (found, status) = write_job_status now new s unused in
    let end = stored ∙ ap (λ j. write_job j s) made in
    (
      a,
      b,
      ap (λ t. (count_active now t).0) end ∙ more,
      ap (λ t. (count_active now t).1) end ∙ same,
      ap (λ t. read_job t id) end ∙ found,
      (status.0, ap (get_status now id) end ∙ status.1, status.2),
    )

clean_results-select :
    (max_age now : ℕ) (d : Dir ResultFile)
    → ((clean_results max_age now d).0
        ≡ select (λ f. not (is_abandoned max_age now (parse_result f.0 (some f.1)))) d)
      × ((clean_results max_age now d).1
          ≡ length (select (λ f. is_abandoned max_age now (parse_result f.0 (some f.1))) d))
unfolding clean_results
clean_results-select max_age now [] = (refl, refl)
clean_results-select max_age now ((id, file) ∷ d) =
    let (a, b) = clean_results-select max_age now d in
    elim (Bool-cases (is_abandoned max_age now (parse_result id (some file)))) [
      | inl e ↦ (ground arith, ground arith)
      | inr e ↦ (ground arith, ground arith)
    ]

-- The cleaning removes just the abandoned marks of running jobs, in one pass, and counts them; jobs
-- are not touched.
pub clean_stale_running-select :
    (max_age now : ℕ) (s : Store)
    → let (s', n) = clean_stale_running max_age now s in
      (s'.results
        ≡ select (λ f. not (is_abandoned max_age now (parse_result f.0 (some f.1)))) s.results)
      × (n
          ≡ length (select (λ f. is_abandoned max_age now (parse_result f.0 (some f.1))) s.results))
      × (s'.jobs ≡ s.jobs)
unfolding clean_stale_running
clean_stale_running-select max_age now s =
    let (a, b) = clean_results-select max_age now s.results in (a, b, refl)
