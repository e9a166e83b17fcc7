-- ===== src/Simulation/Rounds.antt =====
-- How much one round of internal/simulation/engine.go adds to the statistics.
use Prim.Native.String.{String}
use traffic_backend_queue.Common.{
  ℕ, ◌+◌, ◌≢◌, ◌≤◌, refl, Bool, false, Option, none, some, ◌==◌, ◌||◌, arith, Option-cases, inl,
  inr,
}
use traffic_backend_queue.Simulation.{
  Name, launch_spike, backdoor_race, late_surge, refresh_storm, reconnect_churn, scalper_bots,
  mixed_realistic, Stats, Tag, Server, Request, Reply, record_request, sent, sent_if_answered,
  never, register_fake, do_launch_spike, do_backdoor, do_join, do_poll, do_scalper, run_round,
  spike, back, late, refresh, reconn, scalper, join, poll, checkout, transfer,
}

-- From `s` to `r` at least `k` and at most `m` requests are counted, and no more errors or refusals
-- than requests.
pub record Grows (k m : ℕ) (s r : Stats) : Type 0 where
  pub least : s.requests_total + k ≤ r.requests_total
  pub most : r.requests_total ≤ s.requests_total + m
  pub errors : r.errors_total + s.requests_total ≤ s.errors_total + r.requests_total
  pub blocked : r.blocked_total + s.requests_total ≤ s.blocked_total + r.requests_total

pub Grows-trans :
    (k m i j : ℕ) (s t r : Stats) → Grows k m s t → Grows i j t r → Grows (k + i) (m + j) s r
Grows-trans k m i j s t r g h = record {
  least = omega (arith, g.least, h.least);
  most = omega (arith, g.most, h.most);
  errors = omega (arith, g.errors, h.errors);
  blocked = omega (arith, g.blocked, h.blocked);
}

pub weaken : (k m i j : ℕ) (s r : Stats) → Grows k m s r → i ≤ k → m ≤ j → Grows i j s r
weaken k m i j s r g a b = record {
  least = omega (arith, g.least);
  most = omega (arith, g.most);
  errors = g.errors;
  blocked = g.blocked;
}

pub same : (s : Stats) → Grows 0 0 s s
same s = record {
  least = omega arith;
  most = omega arith;
  errors = omega arith;
  blocked = omega arith;
}

pub record_request-Grows :
    (st latency : ℕ) (b : Bool) (s : Stats) → Grows 1 1 s (record_request st latency b s)
unfolding record_request
record_request-Grows st latency b s = record {
  least = ground arith;
  most = ground arith;
  errors = ground arith;
  blocked = ground arith;
}

pub sent-Grows : (r : Reply) (p : ℕ → Bool) (s : Stats) → Grows 1 1 s (sent r p s)
sent-Grows r p s = elim (Option-cases r.response) [
  | inl e ↦ rw e (record_request-Grows 0 r.latency_ms false s)
  | inr (x, e) ↦ rw e (record_request-Grows x.status_code r.latency_ms (p x.status_code) s)
]

pub sent_if_answered-Grows :
    (r : Reply) (p : ℕ → Bool) (s : Stats) → Grows 0 1 s (sent_if_answered r p s)
sent_if_answered-Grows r p s = elim (Option-cases r.response) [
  | inl e ↦ rw e (weaken 0 0 0 1 s s (same s) (omega arith) (omega arith))
  | inr (x, e) ↦ rw e (
      weaken 1 1 0 1 s (record_request x.status_code r.latency_ms (p x.status_code) s)
        (record_request-Grows x.status_code r.latency_ms (p x.status_code) s) (omega arith)
        (omega arith))
]

pub register_fake-Grows :
    (server : Server) (tag : Tag) (s : Stats) → Grows 1 1 s (register_fake server tag s).0
unfolding register_fake
register_fake-Grows server tag s = sent-Grows (server (Request.register tag)) (λ st. st == 429) s

-- A round that ends where the registration gave no token.
pub then_if_token :
    (s : Stats) (r : Stats × Option String) (f : String → Stats → Stats)
    → Grows 1 1 s r.0
    → ((t : String) (x : Stats) → Grows 0 1 x (f t x))
    → Grows 1 2 s (elim r.1 [ none ↦ r.0 | some t ↦ f t r.0 ])
then_if_token s r f g h = elim (Option-cases r.1) [
  | inl e ↦ rw e (weaken 1 1 1 2 s r.0 g (omega arith) (omega arith))
  | inr (t, e) ↦ rw e (Grows-trans 1 1 0 1 s r.0 (f t r.0) g (h t r.0))
]

-- The second half of the scalper's round.
pub transfer_then :
    (first second : Reply) (s s' : Stats)
    → Grows 1 1 s s'
    → Grows 1 3 s (elim (first.response) [
      | none ↦ s'
      | some x ↦
          sent_if_answered second
            (λ st. st == 403 || st == 429)
            (sent_if_answered first (λ st. st == 403) s')
    ])
transfer_then first second s s' g = elim (Option-cases first.response) [
  | inl e ↦ rw e (weaken 1 1 1 3 s s' g (omega arith) (omega arith))
  | inr (x, e) ↦
      let t = sent_if_answered first (λ st. st == 403) s' in
      rw e (
        Grows-trans 1 2 0 1 s t (sent_if_answered second (λ st. st == 403 || st == 429) t)
          (Grows-trans 1 1 0 1 s s' t g (sent_if_answered-Grows first (λ st. st == 403) s'))
          (sent_if_answered-Grows second (λ st. st == 403 || st == 429) t))
]

pub run_round-Grows :
    (server : Server) (n : Name) (sale : ℕ) (s : Stats)
    → n ≢ mixed_realistic
    → Grows 1 3 s (run_round server n sale s)
unfolding run_round do_launch_spike do_backdoor do_join do_poll do_scalper
run_round-Grows server launch_spike sale s ne =
    weaken 1 2 1 3 s (do_launch_spike server sale s)
      (then_if_token s (register_fake server spike s) _ (register_fake-Grows server spike s) (λ t x.
        weaken 1 1 0 1 x _ (sent-Grows (server (join sale t)) (λ st. st == 429 || st == 503) x)
          (omega arith) (omega arith)))
      (omega arith) (omega arith)
run_round-Grows server backdoor_race sale s ne =
    weaken 1 2 1 3 s (do_backdoor server sale s)
      (Grows-trans 1 1 0 1 s (register_fake server back s).0 (do_backdoor server sale s)
        (register_fake-Grows server back s)
        (sent_if_answered-Grows (server (checkout sale (register_fake server back s).1)) _ _))
      (omega arith) (omega arith)
run_round-Grows server late_surge sale s ne =
    weaken 1 2 1 3 s (do_join server late sale s)
      (then_if_token s (register_fake server late s) _ (register_fake-Grows server late s)
        (λ t x. sent_if_answered-Grows (server (join sale t)) never x))
      (omega arith) (omega arith)
run_round-Grows server refresh_storm sale s ne =
    weaken 1 2 1 3 s (do_poll server refresh sale s)
      (then_if_token s (register_fake server refresh s) _ (register_fake-Grows server refresh s)
        (λ t x. sent_if_answered-Grows (server (poll sale t)) never x))
      (omega arith) (omega arith)
run_round-Grows server reconnect_churn sale s ne =
    weaken 1 2 1 3 s (do_poll server reconn sale s)
      (then_if_token s (register_fake server reconn s) _ (register_fake-Grows server reconn s)
        (λ t x. sent_if_answered-Grows (server (poll sale t)) never x))
      (omega arith) (omega arith)
run_round-Grows server scalper_bots sale s ne =
    transfer_then (server (transfer (register_fake server scalper s).1))
      (server (checkout sale (register_fake server scalper s).1)) s
      (register_fake server scalper s).0 (register_fake-Grows server scalper s)
run_round-Grows server mixed_realistic sale s ne = absurd (ne refl)
