-- ===== src/Simulation/Counts.antt =====
-- What the statistics of internal/simulation/engine.go add up to.

use traffic_backend_queue.Common.{
  ℕ, zero, suc, ◌+◌, ◌*◌, ◌∙◌, ◌≡◌, ◌≢◌, ◌≤◌, refl, Option, none, some, List, [], ◌∷◌,
  if◌then◌else◌, arith, All, Bool-cases, Option-cases, inl, inr,
}
use traffic_backend_queue.Simulation.{
  Config, Name, launch_spike, backdoor_race, late_surge, refresh_storm, reconnect_churn,
  scalper_bots, mixed_realistic, Worker, Engine, any_on, set_sale_id, start_workers,
  restart_workers, update_config, Server, same_name, worker_tick,
}
use traffic_backend_queue.Simulation.Workers.{start_workers-sale}
use traffic_backend_queue.Simulation.Rounds.{run_round-Grows}

abbrev pub get_elem? : List Worker → ℕ → Option Worker
get_elem? [] i = none
get_elem? (x ∷ xs) zero = some x
get_elem? (x ∷ xs) (suc i) = get_elem? xs i

-- What happens to an engine: a new configuration, a new sale, or a round of the `i`-th loop of some
-- configuration, which may have been told to stop in between.
pub data Event : Type 0 where
  updates : Config → Event
  sets_sale : Option ℕ → Event
  ticks : Server → Config → (sale i : ℕ) → Event

abbrev tick_of : Server → Option Worker → Engine → Engine
tick_of server none e = e
tick_of server (some w) e = worker_tick server w e

unfoldable pub play : Engine → List Event → Engine
play e [] = e
play e (updates c ∷ es) = play (update_config c e) es
play e (sets_sale id ∷ es) = play (set_sale_id id e) es
play e (ticks server c sale i ∷ es) =
    play (tick_of server (get_elem? (start_workers c sale) i) e) es

-- The rounds that the counters of the scenarios have counted.
abbrev pub rounds : (Name → ℕ) → ℕ
rounds f =
    f launch_spike
    + f backdoor_race
    + f late_surge
    + f refresh_storm
    + f reconnect_churn
    + f scalper_bots
    + f mixed_realistic

pub record Consistent (e : Engine) : Type 0 where
  pub errors : e.stats.errors_total ≤ e.stats.requests_total
  pub blocked : e.stats.blocked_total ≤ e.stats.requests_total
  pub least : rounds e.per_scenario ≤ e.stats.requests_total
  pub most : e.stats.requests_total ≤ 3 * rounds e.per_scenario
  pub mixed : e.per_scenario mixed_realistic ≡ 0

rounds-tick :
    (n : Name) (f : Name → ℕ) → rounds (λ m. if same_name n m then f m + 1 else f m) ≡ rounds f + 1
rounds-tick launch_spike f = omega arith
rounds-tick backdoor_race f = omega arith
rounds-tick late_surge f = omega arith
rounds-tick refresh_storm f = omega arith
rounds-tick reconnect_churn f = omega arith
rounds-tick scalper_bots f = omega arith
rounds-tick mixed_realistic f = omega arith

mixed-tick :
    (n : Name) (f : Name → ℕ)
    → n ≢ mixed_realistic
    → (if same_name n mixed_realistic then f mixed_realistic + 1 else f mixed_realistic)
      ≡ f mixed_realistic
mixed-tick launch_spike f ne = refl
mixed-tick backdoor_race f ne = refl
mixed-tick late_surge f ne = refl
mixed-tick refresh_storm f ne = refl
mixed-tick reconnect_churn f ne = refl
mixed-tick scalper_bots f ne = refl
mixed-tick mixed_realistic f ne = absurd (ne refl)

worker_tick-Consistent :
    (server : Server) (w : Worker) (e : Engine)
    → w.name ≢ mixed_realistic
    → Consistent e
    → Consistent (worker_tick server w e)
unfolding worker_tick
worker_tick-Consistent server w e ne v =
    let g = run_round-Grows server w.name w.sale e.stats ne in
    let more = rounds-tick w.name e.per_scenario in
    record {
      errors = omega (arith, v.errors, g.errors);
      blocked = omega (arith, v.blocked, g.blocked);
      least = omega (arith, v.least, g.least, more);
      most = omega (arith, v.most, g.most, more);
      mixed = mixed-tick w.name e.per_scenario ne ∙ v.mixed;
    }

get_elem?-All :
    (P : Worker → Type 0) (ws : List Worker) (i : ℕ) (w : Worker)
    → All P ws
    → get_elem? ws i ≡ some w
    → P w
get_elem?-All P [] i w h e = cc
get_elem?-All P (x ∷ xs) zero w h e = let q : x ≡ w = cc in rw (← q) h.0
get_elem?-All P (x ∷ xs) (suc i) w h e = get_elem?-All P xs i w h.1 e

restart_workers-Consistent : (e : Engine) → Consistent e → Consistent (restart_workers e)
unfolding restart_workers
restart_workers-Consistent e v = elim (Option-cases e.sale_id) [
  | inl q ↦
      rw (q, restart_workers)
        (record {
          errors = v.errors;
          blocked = v.blocked;
          least = v.least;
          most = v.most;
          mixed = v.mixed;
        })
  | inr (sale, q) ↦ elim (Bool-cases (any_on e.cfg)) [
    | inl b ↦
        rw (q, b, restart_workers)
          (record {
            errors = v.errors;
            blocked = v.blocked;
            least = v.least;
            most = v.most;
            mixed = v.mixed;
          })
    | inr b ↦
        rw (q, b, restart_workers)
          (record {
            errors = v.errors;
            blocked = v.blocked;
            least = v.least;
            most = v.most;
            mixed = v.mixed;
          })
  ]
]

tick_of-Consistent :
    (server : Server) (c : Config) (sale i : ℕ) (e : Engine)
    → Consistent e
    → Consistent (tick_of server (get_elem? (start_workers c sale) i) e)
tick_of-Consistent server c sale i e v = elim (Option-cases (get_elem? (start_workers c sale) i)) [
  | inl q ↦ rw q v
  | inr (w, q) ↦ rw q (
      worker_tick-Consistent server w e
        (get_elem?-All (λ x. (x.sale ≡ sale) × (x.name ≢ mixed_realistic)) (start_workers c sale) i
          w (start_workers-sale c sale) q).1
        v)
]

-- From counts for which it holds, such as those of a new engine, whatever the server answers and however configurations, sales and rounds follow each other, no
-- more errors and refusals are counted than requests, each counted round stands for one to three
-- requests, and the counter of the mixed load stays at 0.
pub play-Consistent : (e : Engine) (es : List Event) → Consistent e → Consistent (play e es)
unfolding play update_config set_sale_id
play-Consistent e [] v = v
play-Consistent e (updates c ∷ es) v = play-Consistent (update_config c e) es (
    restart_workers-Consistent (record e { cfg = c })
      (record {
        errors = v.errors;
        blocked = v.blocked;
        least = v.least;
        most = v.most;
        mixed = v.mixed;
      }))
play-Consistent e (sets_sale id ∷ es) v = play-Consistent (set_sale_id id e) es (record {
  errors = v.errors;
  blocked = v.blocked;
  least = v.least;
  most = v.most;
  mixed = v.mixed;
})
play-Consistent e (ticks server c sale i ∷ es) v =
    play-Consistent (tick_of server (get_elem? (start_workers c sale) i) e) es
      (tick_of-Consistent server c sale i e v)
