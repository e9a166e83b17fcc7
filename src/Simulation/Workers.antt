-- ===== src/Simulation/Workers.antt =====
-- Which workers internal/simulation/engine.go runs.
use traffic_backend_queue.Common.{
  ℕ, ◌+◌, ◌≡◌, ◌≢◌, refl, Bool, true, false, ◌&&◌, ◌||◌, List, [], ◌∷◌, ◌++◌, if◌then◌else◌, arith,
  All, Bool-cases, Option-cases, inl, inr, is_some,
}
use traffic_backend_queue.Simulation.{
  Config, Name, launch_spike, backdoor_race, late_surge, refresh_storm, reconnect_churn,
  scalper_bots, mixed_realistic, toggle, only, any_on, Worker, worker, Engine, start_workers,
  restart_workers, update_config, same_name,
}

-- The loops that a configuration asks for: the mixed load stands for all but the late surge.
abbrev pub wanted : Config → Name → Bool
wanted c late_surge = c.late_surge
wanted c mixed_realistic = false
wanted c name = toggle c name || c.mixed_realistic

pub count_workers : Name → List Worker → ℕ
count_workers n [] = 0
count_workers n (w ∷ ws) = (if same_name w.name n then 1 else 0) + count_workers n ws

count_workers-append :
    (n : Name) (xs ys : List Worker)
    → count_workers n (xs ++ ys) ≡ count_workers n xs + count_workers n ys
unfolding count_workers
count_workers-append n [] ys = omega arith
count_workers-append n (x ∷ xs) ys = omega (arith, count_workers-append n xs ys)

count_workers-only :
    (n : Name) (b : Bool) (w : Worker)
    → count_workers n (only b w) ≡ (if b && same_name w.name n then 1 else 0)
unfolding count_workers
count_workers-only n true w = omega arith
count_workers-only n false w = refl

count_workers-start_workers :
    (n : Name) (c : Config) (sale : ℕ)
    → count_workers n (start_workers c sale) ≡ (if wanted c n then 1 else 0)
unfolding start_workers
count_workers-start_workers launch_spike c sale =
    simp (count_workers-append, count_workers-only) (ground arith)
count_workers-start_workers backdoor_race c sale =
    simp (count_workers-append, count_workers-only) (ground arith)
count_workers-start_workers late_surge c sale =
    simp (count_workers-append, count_workers-only) (ground arith)
count_workers-start_workers refresh_storm c sale =
    simp (count_workers-append, count_workers-only) (ground arith)
count_workers-start_workers reconnect_churn c sale =
    simp (count_workers-append, count_workers-only) (ground arith)
count_workers-start_workers scalper_bots c sale =
    simp (count_workers-append, count_workers-only) (ground arith)
count_workers-start_workers mixed_realistic c sale =
    simp (count_workers-append, count_workers-only) (ground arith)

any_on-wanted : (c : Config) (n : Name) → any_on c ≡ false → wanted c n ≡ false
unfolding any_on
any_on-wanted c launch_spike h = ground arith
any_on-wanted c backdoor_race h = ground arith
any_on-wanted c late_surge h = ground arith
any_on-wanted c refresh_storm h = ground arith
any_on-wanted c reconnect_churn h = ground arith
any_on-wanted c scalper_bots h = ground arith
any_on-wanted c mixed_realistic h = refl

All-only :
    (P : Worker → Type 0) (b : Bool) (w : Worker) (ws : List Worker)
    → P w
    → All P ws
    → All P (only b w ++ ws)
All-only P true w ws p h = (p, h)
All-only P false w ws p h = h

All-one : (P : Worker → Type 0) (b : Bool) (w : Worker) → P w → All P (only b w)
All-one P true w p = (p, tt)
All-one P false w p = tt

pub start_workers-sale :
    (c : Config) (sale : ℕ)
    → All (λ w. (w.sale ≡ sale) × (w.name ≢ mixed_realistic)) (start_workers c sale)
unfolding start_workers
start_workers-sale c sale =
    let P : Worker → Type 0 = λ w. (w.sale ≡ sale) × (w.name ≢ mixed_realistic) in
    All-only P (c.launch_spike || c.mixed_realistic) (worker sale launch_spike 50) _ (refl, λ e. cc)
      (All-only P (c.backdoor_race || c.mixed_realistic) (worker sale backdoor_race 200) _
        (refl, λ e. cc)
        (All-only P c.late_surge (worker sale late_surge 100) _ (refl, λ e. cc)
          (All-only P (c.refresh_storm || c.mixed_realistic) (worker sale refresh_storm 30) _
            (refl, λ e. cc)
            (All-only P (c.reconnect_churn || c.mixed_realistic) (worker sale reconnect_churn 500) _
              (refl, λ e. cc)
              (All-one P (c.scalper_bots || c.mixed_realistic) (worker sale scalper_bots 50)
                (refl, λ e. cc))))))

-- After an update of the configuration, whatever ran before, one loop runs for each scenario that is
-- on and, with the mixed load, for each but the late surge, and no other; without a sale none runs.
pub update_config-workers :
    (c : Config) (e : Engine) (n : Name)
    → count_workers n (update_config c e).workers
      ≡ (if is_some e.sale_id && wanted c n then 1 else 0)
unfolding update_config restart_workers count_workers
update_config-workers c e n = elim (Option-cases e.sale_id) [
  | inl q ↦ rw (q, restart_workers) refl
  | inr (sale, q) ↦ elim (Bool-cases (any_on c)) [
    | inl b ↦ rw (q, b, restart_workers) (count_workers-start_workers n c sale)
    | inr b ↦ rw (q, b, any_on-wanted c n b, restart_workers) refl
  ]
]
