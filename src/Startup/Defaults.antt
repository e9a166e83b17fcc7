-- ===== src/Startup/Defaults.antt =====
-- The server of cmd/api/main.go where the environment sets nothing.
use traffic_backend_queue.Common.{ℕ, ◌≡◌, refl, true, Option, none, some, List, [], ◌∷◌, All, arith}
use traffic_backend_queue.Config.{Text, Environment, Variable, load}
use traffic_backend_queue.Loadtest.{default_limits}
use traffic_backend_queue.HttpApi.{admin_auth}
use traffic_backend_queue.HttpApi.Demo.{SetupEnv, World, default_sale_params}
use traffic_backend_queue.HttpApi.Demo.Setup.{IsHealthy, setup_demo-Ready, Ready}
use traffic_backend_queue.Startup.{limits_of, auto_setup}

abbrev pub Unset : Environment → List Variable → Type 0
Unset env = All λ k. env k ≡ []

abbrev pub load_test_variables : List Variable
load_test_variables =
    Variable.loadtest_max_vus ∷ Variable.loadtest_max_queue ∷ Variable.loadtest_max_concurrent
    ∷ Variable.loadtest_max_steady_sec ∷ Variable.loadtest_default_vus ∷ []

-- Where no variable of the load tests is set, the limits of the server, which come from the numbers
-- in internal/config/config.go, are the default limits of internal/loadtest/limits.go.
pub limits_of-default :
    (env : Environment) → Unset env load_test_variables → limits_of (load env) ≡ default_limits
unfolding limits_of load default_limits
limits_of-default env (vus, (queue, (run, (steady, (default, _))))) =
    rw (vus, queue, run, steady, default) refl

admin_auth_same : (k : Option ℕ) → admin_auth k k ≡ true
unfolding admin_auth
admin_auth_same none = refl
admin_auth_same (some k) = ground arith

abbrev pub own_key : (Text → Option ℕ) → Environment → Option ℕ
own_key key vars = key (load vars).admin_api_key

-- Where DEMO_AUTO_SETUP is not set, the server answers its own calls, and no statement of the database
-- fails, a server with any admin key sets up a demo sale: the sale of the engine is set to it, its
-- seats are laid out, and it is open for joining from then on.
pub auto_setup-Ready :
    (key : Text → Option ℕ) (vars : Environment) (env : SetupEnv) (w : World)
    → vars Variable.demo_auto_setup ≡ []
    → IsHealthy (own_key key vars) (own_key key vars) env default_sale_params w
    → Ready
        (own_key key vars)
        (own_key key vars)
        env.now
        env.sale_env.id
        (auto_setup key (load vars) env w)
unfolding auto_setup load
auto_setup-Ready key vars env w unset h =
    let k = own_key key vars in
    rw unset (setup_demo-Ready k k env default_sale_params w (admin_auth_same k) h)
