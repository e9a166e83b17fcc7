-- ===== src/LoadtestRunner/Outcomes.antt =====
-- What cmd/loadtest-runner/main.go guarantees of a run.
use Prim.Native.String.{String}
use traffic_backend_queue.Common.{
  sym, Bool, ℕ, ◌≡◌, ◌≢◌, refl, ◌∙◌, ap, true, false, Option, none, some, arith, Bool-cases, inl,
  inr,
}
use traffic_backend_queue.Loadtest.{
  ResultFile, report, other_json, garbage, read_file, Status, passed, failed, Job, RunResult,
  result, Store, Error, write_result, write_running, parse_k6_report, read_result, running_result,
  report_result, as_report, is_job_claimed,
}
use traffic_backend_queue.Loadtest.Files.{read_file-remove_file}
use traffic_backend_queue.LoadtestRunner.{
  Summary, removed, wrote, leave, untouched, Env, outcome, finish, correct, evaluate, run_job,
}
use traffic_backend_queue.LoadtestRunner.Ends.{
  evaluate_cases, unreadable, parse_k6_report-IsFinal, correct-IsFinal, read_file-write_self,
  finish-read_result, IsFinal, IsFinal-claims, run_job-Ends,
}

-- However k6 ends and whatever it leaves behind, a run whose two results can be written ends with a
-- result that says passed, failed or error, and the job counts as claimed, so it is not run again.
pub run_job-IsFinal :
    (env : Env) (started now : ℕ) (job : Job) (s : Store)
    → env.running_write_fails ≡ false
    → env.final_write_fails ≡ false
    → (x : RunResult) × (read_result (run_job env started now job s).0 job.run_id ≡ some x)
      × IsFinal x.status
      × (is_job_claimed (run_job env started now job s).0 job.run_id ≡ true)
run_job-IsFinal env started now job s a b =
    let (x, e, final, _, _) = run_job-Ends env started now job s a b in
    (x, e, final, IsFinal-claims (run_job env started now job s).0 job.run_id x e final)

some_injective : {a b : ResultFile} → some a ≡ some b → a ≡ b
some_injective e = cc

-- The mark of a running job, read as a report of k6.
abbrev marked : ℕ → ℕ → RunResult
marked id started = report_result id (as_report (running_result id started))

run_job-untouched :
    (env : Env) (started now : ℕ) (job : Job) (s : Store)
    → env.running_write_fails ≡ false
    → env.script_exists ≡ true
    → env.summary ≡ untouched
    → run_job env started now job s
      ≡ finish env true
          (correct env.exit_error job (marked job.run_id started))
          job
          (write_running job.run_id started s)
unfolding run_job evaluate write_running write_result parse_k6_report
run_job-untouched env started now job s a c d =
    ground (
      arith,
      read_file-write_self job.run_id (result (running_result job.run_id started)) s.results,
    )

correct-marked :
    (exit : Option String) (job : Job) (started : ℕ)
    → let x = correct exit job (marked job.run_id started) in
      (x.run_id ≡ job.run_id)
      × (x.status ≡ failed)
      × (x.failures ≡ none)
      × (x.message ≡ none)
      × (x.finished_at ≡ none)
unfolding correct
correct-marked none job started = (refl, refl, refl, refl, refl)
correct-marked (some e) job started = (refl, refl, refl, refl, refl)

-- Where k6 leaves the file as it is, the file still holds the mark of the running job, which reads
-- as a report that did not pass: the run is recorded as failed with no failure, no message and no
-- time, and never as finished without a summary.
pub run_job_untouched :
    (env : Env) (started now : ℕ) (job : Job) (s : Store)
    → env.running_write_fails ≡ false
    → env.final_write_fails ≡ false
    → env.script_exists ≡ true
    → env.summary ≡ untouched
    → (x : RunResult) × (read_result (run_job env started now job s).0 job.run_id ≡ some x)
      × (x.status ≡ failed)
      × (x.failures ≡ none)
      × (x.message ≡ none)
      × (x.finished_at ≡ none)
run_job_untouched env started now job s a b c d =
    let (same, st, fs, msg, fin) = correct-marked env.exit_error job started in
    let (e, _) =
      finish-read_result env true (correct env.exit_error job (marked job.run_id started)) job
        (write_running job.run_id started s) b same in
    (
      correct env.exit_error job (marked job.run_id started),
      ap (λ (r : Store × Option Error). read_result r.0 job.run_id)
            (run_job-untouched env started now job s a c d)
          ∙ e,
      st,
      fs,
      msg,
      fin,
    )

-- Whether a file, read as a summary, lets a run pass: a result or a report that says that it passed,
-- or other JSON, of which nothing is read.
abbrev pub lets_pass : ResultFile → Bool
lets_pass (result x) = x.has_passed
lets_pass (report x) = x.has_passed
lets_pass other_json = true
lets_pass garbage = false

parse_k6_report-lets_pass :
    (id : ℕ) (raw : ResultFile) (r : RunResult)
    → parse_k6_report id raw ≡ some r
    → r.status ≡ passed
    → lets_pass raw ≡ true
unfolding parse_k6_report
parse_k6_report-lets_pass id (result x) r h p = elim (Bool-cases x.has_passed) [
  | inl b ↦ b
  | inr b ↦ absurd (ground (arith, b, h, p))
]
parse_k6_report-lets_pass id (report x) r h p = elim (Bool-cases x.has_passed) [
  | inl b ↦ b
  | inr b ↦ absurd (ground (arith, b, h, p))
]
parse_k6_report-lets_pass id other_json r h p = refl
parse_k6_report-lets_pass id garbage r h p = absurd cc

correct-passed :
    (exit : Option String) (job : Job) (r : RunResult)
    → (correct exit job r).status ≡ passed
    → r.status ≡ passed
unfolding correct
correct-passed none job r h = h
correct-passed (some e) job r h = absurd (ground arith)

-- If the job's result says passed, the file that was found lets the run pass.
abbrev FoundPassing : Job → Store → Store × Option Error → Type 0
FoundPassing job s r =
    (x : RunResult)
    → read_result r.0 job.run_id ≡ some x
    → x.status ≡ passed
    → (raw : ResultFile) × (read_file job.run_id s.results ≡ some raw) × (lets_pass raw ≡ true)

finish_not_passed :
    (env : Env) (clean : Bool) (r : RunResult) (job : Job) (s : Store) (x : RunResult)
    → env.final_write_fails ≡ false
    → r.run_id ≡ job.run_id
    → r.status ≢ passed
    → read_result (finish env clean r job s).0 job.run_id ≡ some x
    → x.status ≢ passed
finish_not_passed env clean r job s x ok same not_passed e p =
    let (q, _) = finish-read_result env clean r job s ok same in
    let given : r ≡ x = cc in not_passed (ap (λ (y : RunResult). y.status) given ∙ p)

unreadable-FoundPassing :
    (env : Env) (now : ℕ) (job : Job) (s : Store) (raw : ResultFile)
    → env.final_write_fails ≡ false
    → read_file job.run_id s.results ≡ some raw
    → FoundPassing job s (unreadable env now job s raw)
unreadable-FoundPassing env now job s other_json ok found x e p = (other_json, found, refl)
unreadable-FoundPassing env now job s _ ok found x e p =
    absurd (finish_not_passed env false _ job s x ok refl (λ h. cc) e p)

evaluate-FoundPassing :
    (env : Env) (now : ℕ) (job : Job) (s : Store)
    → env.final_write_fails ≡ false
    → FoundPassing job s (evaluate env now job s)
evaluate-FoundPassing env now job s ok =
    evaluate_cases (FoundPassing job s) env now job s
      (λ e x q p. absurd (finish_not_passed env true _ job s x ok refl (λ h. cc) q p))
      (λ raw r e q x h p.
        let (same, final) = parse_k6_report-IsFinal job.run_id raw r q in
        let (same', _) = correct-IsFinal env.exit_error job r final in
        let (w, _) =
          finish-read_result env true (correct env.exit_error job r) job s ok (same' ∙ same) in
        let given : correct env.exit_error job r ≡ x = cc in
        let was =
          correct-passed env.exit_error job r (ap (λ (y : RunResult). y.status) given ∙ p) in
        (raw, e, parse_k6_report-lets_pass job.run_id raw r q was))
      (λ raw e q. unreadable-FoundPassing env now job s raw ok e)

-- Of the three ways to leave the summary, only a file that was written lets a run pass.
left_passing :
    (id started : ℕ) (summary : Summary) (s : Store) (raw : ResultFile)
    → read_file id (leave id summary (write_running id started s)).results ≡ some raw
    → lets_pass raw ≡ true
    → summary ≡ wrote raw
unfolding write_running write_result
left_passing id started untouched s raw e p =
    let mark = result (running_result id started) in
    let marked : mark ≡ raw = some_injective (sym (read_file-write_self id mark s.results) ∙ e) in
    absurd (ground (arith, ap lets_pass marked, p))
left_passing id started removed s raw e p =
    absurd (ground (arith, read_file-remove_file id (write_running id started s).results, e))
left_passing id started (wrote file) s raw e p =
    let there = read_file-write_self id file (write_running id started s).results in
    ap wrote (some_injective (sym there ∙ e))

-- A run whose two results can be written is recorded as passed only if the script exists, k6 ended
-- without an error, and k6 wrote a summary of its own which says that the run passed, or which is JSON
-- of another shape.
pub run_job_passed :
    (env : Env) (started now : ℕ) (job : Job) (s : Store) (x : RunResult)
    → env.running_write_fails ≡ false
    → env.final_write_fails ≡ false
    → read_result (run_job env started now job s).0 job.run_id ≡ some x
    → x.status ≡ passed
    → (env.script_exists ≡ true)
      × (env.exit_error ≡ none)
      × ((file : ResultFile) × (env.summary ≡ wrote file) × (lets_pass file ≡ true))
unfolding run_job
run_job_passed env started now job s x a b e p =
    let (y, f, _, _, quiet) = run_job-Ends env started now job s a b in
    let same : y ≡ x = cc in
    let calm = quiet (ap (λ (r : RunResult). r.status) same ∙ p) in
    let s' = write_running job.run_id started s in
    elim (Bool-cases env.script_exists) [
      | inl c ↦
          let (raw, found, passes) =
            evaluate-FoundPassing env now job (leave job.run_id env.summary s') b x
              (ground (arith, a, c, e)) p in
          (c, calm, (raw, left_passing job.run_id started env.summary s raw found passes, passes))
      | inr c ↦ absurd (
          finish_not_passed env true
            (outcome job false Status.error (some "scenario script not found") none now) job s' x b
            refl (λ h. cc) (ground (arith, a, c, e)) p)
    ]
