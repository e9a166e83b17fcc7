-- ===== src/HttpApi/Demo/Starting.antt =====
-- What a load test that startLoadTest of internal/httpapi/loadtest_handlers.go accepts has.
use traffic_backend_queue.Common.{
  ℕ, ◌≡◌, ◌∙◌, refl, sym, ap, true, Bool, Bool-cases, Option, Option-cases, none, some, inl, inr,
  arith,
}
use traffic_backend_queue.Loadtest.{
  Error, Store, Caps, Scenario, Job, RunRequest, Submitted, accepted, refused, valid_scenario,
  submit, read_job, write_job, apply,
}
use traffic_backend_queue.Loadtest.Runs.{submit-accepted}
use traffic_backend_queue.Loadtest.Files.{read_file-write_file}
use traffic_backend_queue.HttpApi.Demo.{
  SetupEnv, World, started, start_load_test, requested_sale, submit_reply,
}

submit_reply-started :
    (sale sale' : Option ℕ) (s : Submitted) (run : ℕ) (scenario : Scenario)
    → submit_reply sale s ≡ started 202 run sale' scenario
    → (job : Job) × (s ≡ accepted job)
      × (run ≡ job.run_id)
      × (scenario ≡ job.scenario)
      × (sale' ≡ sale)
submit_reply-started sale sale' (accepted job) run scenario h =
    (job, refl, ground arith, ground arith, ground arith)
submit_reply-started sale sale' (refused Error.queue_full) run scenario h = absurd (ground arith)
submit_reply-started sale sale' (refused Error.already_busy) run scenario h = absurd (ground arith)
submit_reply-started sale sale' (refused e) run scenario h = absurd (ground arith)

read_job-write_job : (job : Job) (s : Store) → read_job (write_job job s) job.run_id ≡ some job
unfolding read_job write_job
read_job-write_job job s =
    ground (arith, read_file-write_file job.run_id job.run_id (some job) s.jobs)

module _ (admin_api_key engine_key : Option ℕ) (list_fails write_fails : Bool) (l : Caps) (run : ℕ)
    (env : SetupEnv) where
  -- A load test that is started has a known scenario, and plays the sale of the request, or of the
  -- engine, or of a new setup, in this order. Its job is in the store under the id of the answer, with
  -- that sale and scenario.
  pub start_load_test-started :
      (body : Option RunRequest) (w : World) (run' : ℕ) (sale : Option ℕ) (scenario : Scenario)
      → (start_load_test admin_api_key engine_key list_fails write_fails l run env body w).1
        ≡ started 202 run' sale scenario
      → (req : RunRequest) × (body ≡ some req)
        × (valid_scenario req.scenario ≡ true)
        × ((requested_sale admin_api_key engine_key env req w).1 ≡ some sale)
        × ((job : Job) × (read_job
                (start_load_test admin_api_key engine_key list_fails write_fails l run env body
                  w).0.loads
                run'
              ≡ some job)
            × (job.sale_id ≡ sale)
            × (job.scenario ≡ req.scenario)
            × (scenario ≡ req.scenario))
  unfolding start_load_test apply
  start_load_test-started none w run' sale scenario h = absurd (ground arith)
  start_load_test-started (some req) w run' sale scenario h =
      elim (Bool-cases (valid_scenario req.scenario)) [
        | inr bad ↦ absurd (ground arith)
        | inl good ↦ elim (Option-cases (requested_sale admin_api_key engine_key env req w).1) [
          | inl e ↦ absurd (ground arith)
          | inr (chosen, e) ↦
              let loads = (requested_sale admin_api_key engine_key env req w).0.loads in
              let req' = record req { sale_id = chosen } in
              let (job, is_accepted, same_run, same_scenario, same_sale) =
                submit_reply-started chosen sale
                  (submit list_fails write_fails l run env.now req' loads).1 run' scenario
                  (ground (arith, good, e, h)) in
              let (_, made, stored) =
                submit-accepted list_fails write_fails l run env.now req' loads job is_accepted in
              (
                req,
                refl,
                good,
                e ∙ ap some (sym same_sale),
                (
                  job,
                  ground (arith, good, e, stored, same_run, read_job-write_job job loads),
                  ap (λ j. j.sale_id) made ∙ sym same_sale,
                  ap (λ j. j.scenario) made,
                  same_scenario ∙ ap (λ j. j.scenario) made,
                ),
              )
        ]
      ]
