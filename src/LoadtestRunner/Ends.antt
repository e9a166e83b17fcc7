-- ===== src/LoadtestRunner/Ends.antt =====
-- How a run of cmd/loadtest-runner/main.go ends, case by case.
use Prim.Native.String.{String}
use traffic_backend_queue.Common.{
  ℕ, ◌≡◌, refl, ◌∙◌, Bool, true, false, not, Option, none, some, List, if◌then◌else◌, is_some,
  arith, ==_refl, Option-cases, Bool-cases, inl, inr, ◌⊎◌,
}
use traffic_backend_queue.Loadtest.{
  Status, passed, failed, Job, RunResult, ResultFile, other_json, garbage, result, report, Store,
  Error, read_file, write_file, write_result, parse_k6_report, read_result, is_job_claimed,
}
use traffic_backend_queue.Loadtest.Files.{read_file-write_file}
use traffic_backend_queue.LoadtestRunner.{Env, outcome, finish, correct, evaluate, run_job, or_else}

pub read_file-write_self :
    {A : Type 0} (i : ℕ) (a : A) (d : List (ℕ × A)) → read_file i (write_file i a d) ≡ some a
read_file-write_self i a d = read_file-write_file i i a d ∙ ground (arith, ==_refl i)

pub finish-read_result :
    (env : Env) (clean : Bool) (r : RunResult) (job : Job) (s : Store)
    → env.final_write_fails ≡ false
    → r.run_id ≡ job.run_id
    → (read_result (finish env clean r job s).0 job.run_id ≡ some r)
      × ((finish env clean r job s).1 ≡ none)
unfolding finish write_result read_result
finish-read_result env clean r job s ok same =
    ground (arith, read_file-write_self r.run_id (result r) s.results, same)

-- Only a finished run has one of these statuses.
abbrev pub IsFinal : Status → Type 0
IsFinal st = (st ≡ passed) ⊎ ((st ≡ failed) ⊎ (st ≡ Status.error))

-- A result of the runner for the job, with the file that it found.
abbrev pub Ends : Env → Job → Store → Store × Option Error → Type 0
Ends env job s r =
    (x : RunResult) × (read_result r.0 job.run_id ≡ some x)
    × IsFinal x.status
    × (r.1 ≡ none)
    × (x.status ≡ passed → env.exit_error ≡ none)

pub finish-Ends :
    (env : Env) (clean : Bool) (r : RunResult) (job : Job) (s : Store)
    → env.final_write_fails ≡ false
    → r.run_id ≡ job.run_id
    → IsFinal r.status
    → (r.status ≡ passed → env.exit_error ≡ none)
    → Ends env job s (finish env clean r job s)
finish-Ends env clean r job s ok same final quiet =
    let (a, b) = finish-read_result env clean r job s ok same in (r, a, final, b, quiet)

pub parse_k6_report-IsFinal :
    (id : ℕ) (file : ResultFile) (r : RunResult)
    → parse_k6_report id file ≡ some r
    → (r.run_id ≡ id) × IsFinal r.status
unfolding parse_k6_report
parse_k6_report-IsFinal id (result x) r h = elim (Bool-cases x.has_passed) [
  | inl b ↦ (ground arith, inl (ground arith))
  | inr b ↦ (ground arith, inr (inl (ground arith)))
]
parse_k6_report-IsFinal id (report x) r h = elim (Bool-cases x.has_passed) [
  | inl b ↦ (ground arith, inl (ground arith))
  | inr b ↦ (ground arith, inr (inl (ground arith)))
]
parse_k6_report-IsFinal id other_json r h = cc
parse_k6_report-IsFinal id garbage r h = cc

pub correct-IsFinal :
    (exit : Option String) (job : Job) (r : RunResult)
    → IsFinal r.status
    → ((correct exit job r).run_id ≡ r.run_id) × IsFinal (correct exit job r).status
unfolding correct
correct-IsFinal none job r h = (refl, h)
correct-IsFinal (some e) job r (inl h) = (ground arith, inr (inl (ground arith)))
correct-IsFinal (some e) job r (inr (inl h)) = (ground arith, inr (inl (ground arith)))
correct-IsFinal (some e) job r (inr (inr h)) = (ground arith, inr (inr (ground arith)))

pub correct_quiet :
    (exit : Option String) (job : Job) (r : RunResult)
    → (correct exit job r).status ≡ passed
    → exit ≡ none
unfolding correct
correct_quiet none job r h = refl
correct_quiet (some e) job r h = absurd (ground arith)

abbrev pub unreadable : Env → ℕ → Job → Store → ResultFile → Store × Option Error
unreadable env now job s other_json =
    finish env false
      (outcome job (not (is_some env.exit_error))
        (if is_some env.exit_error then failed else passed) env.exit_error job.sale_id now)
      job s
unreadable env now job s _ =
    finish env false (outcome job false Status.error (some "parse error") none now) job s

-- The ways through `evaluate`.
pub evaluate_cases {ℓ} :
    (P : Store × Option Error → Type ℓ) (env : Env) (now : ℕ) (job : Job) (s : Store)
    → (read_file job.run_id s.results ≡ none
        → P (
            finish env true
              (outcome job false Status.error
                (or_else env.exit_error (some "k6 finished without summary"))
                job.sale_id
                now)
              job
              s))
    → ((raw : ResultFile) (r : RunResult)
        → read_file job.run_id s.results ≡ some raw
        → parse_k6_report job.run_id raw ≡ some r
        → P (finish env true (correct env.exit_error job r) job s))
    → ((raw : ResultFile)
        → read_file job.run_id s.results ≡ some raw
        → parse_k6_report job.run_id raw ≡ none
        → P (unreadable env now job s raw))
    → P (evaluate env now job s)
unfolding evaluate
evaluate_cases P env now job s missing parsed odd =
    elim (Option-cases (read_file job.run_id s.results)) [
      | inl e ↦ rw (e, evaluate) (missing e)
      | inr (raw, e) ↦ elim (Option-cases (parse_k6_report job.run_id raw)) [
        | inl q ↦ rw (e, q, evaluate) (read_odd raw (odd raw e q))
        | inr (r, q) ↦ rw (e, q, evaluate) (parsed raw r e q)
      ]
    ]
  where
    read_odd :
        (raw : ResultFile)
        → P (unreadable env now job s raw)
        → P (elim raw [
          | other_json ↦
              finish env false
                (outcome job
                  (not (is_some env.exit_error))
                  (if is_some env.exit_error then failed else passed)
                  env.exit_error
                  job.sale_id
                  now)
                job
                s
          | _ ↦
              finish env false (outcome job false Status.error (some "parse error") none now) job s
        ])
    read_odd other_json h = h
    read_odd _ h = h

pub exit_status-IsFinal : (x : Option String) → IsFinal (if is_some x then failed else passed)
exit_status-IsFinal none = inl refl
exit_status-IsFinal (some m) = inr (inl refl)

pub exit_status_quiet :
    (x : Option String) → (if is_some x then failed else passed) ≡ passed → x ≡ none
exit_status_quiet none h = refl
exit_status_quiet (some m) h = cc

pub unreadable-Ends :
    (env : Env) (now : ℕ) (job : Job) (s : Store) (raw : ResultFile)
    → env.final_write_fails ≡ false
    → Ends env job s (unreadable env now job s raw)
unreadable-Ends env now job s other_json ok =
    finish-Ends env false _ job s ok refl (exit_status-IsFinal env.exit_error)
      (exit_status_quiet env.exit_error)
unreadable-Ends env now job s _ ok =
    finish-Ends env false _ job s ok refl (inr (inr refl)) (λ h. cc)

pub evaluate-Ends :
    (env : Env) (now : ℕ) (job : Job) (s : Store)
    → env.final_write_fails ≡ false
    → Ends env job s (evaluate env now job s)
evaluate-Ends env now job s ok =
    evaluate_cases (Ends env job s) env now job s
      (λ e. finish-Ends env true _ job s ok refl (inr (inr refl)) (λ h. cc))
      (λ raw r e q.
        let (same, final) = parse_k6_report-IsFinal job.run_id raw r q in
        let (same', final') = correct-IsFinal env.exit_error job r final in
        finish-Ends env true (correct env.exit_error job r) job s ok (same' ∙ same) final'
          (correct_quiet env.exit_error job r))
      (λ raw e q. unreadable-Ends env now job s raw ok)

pub IsFinal-claims :
    (st : Store) (id : ℕ) (x : RunResult)
    → read_result st id ≡ some x
    → IsFinal x.status
    → is_job_claimed st id ≡ true
unfolding is_job_claimed
IsFinal-claims st id x e h = ground arith

pub run_job-Ends :
    (env : Env) (started now : ℕ) (job : Job) (s : Store)
    → env.running_write_fails ≡ false
    → env.final_write_fails ≡ false
    → Ends env job s (run_job env started now job s)
unfolding run_job
run_job-Ends env started now job s a b = elim (Bool-cases env.script_exists) [
  | inl c ↦ rw (a, c, run_job) (evaluate-Ends env now job _ b)
  | inr c ↦ rw (a, c, run_job) (finish-Ends env true _ job _ b refl (inr (inr refl)) (λ h. cc))
]
