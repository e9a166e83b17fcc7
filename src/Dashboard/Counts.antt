-- ===== src/Dashboard/Counts.antt =====
-- When the dashboard shows the server as degraded.
use traffic_backend_queue.Common.{◌*◌, ◌≡◌, ◌<◌, ℕ, arith, Bool-cases, inl, inr, ◌↔◌}
use traffic_backend_queue.Simulation.{Stats}
use traffic_backend_queue.Dashboard.{degraded, health_of, error_rate, exceeds, requests_per_sec}

-- The dashboard shows the server as degraded exactly if there have been requests of which more than
-- one in twenty failed.
pub health_of-degraded :
    (elapsed : ℕ) (s : Stats)
    → (health_of elapsed s ≡ degraded)
      ↔ ((0 < s.requests_total) × (s.requests_total < 20 * s.errors_total))
unfolding health_of error_rate
health_of-degraded elapsed s = elim (Bool-cases (exceeds (error_rate s) 5)) [
  | inl bad ↦ (λ h. ground arith, λ h. ground arith)
  | inr good ↦ (
    λ h. elim (Bool-cases (exceeds (requests_per_sec elapsed s) 500)) [
      | inl fast ↦ absurd (ground arith)
      | inr slow ↦ absurd (ground arith)
    ],
    λ h. absurd (ground arith),
  )
]
