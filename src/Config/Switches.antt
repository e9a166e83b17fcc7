-- ===== src/Config/Switches.antt =====
-- Switches in the environment, as `boolEnv` of internal/config/config.go reads them.
use traffic_backend_queue.Common.{◌≡◌, refl, ap, [], ◌∷◌, arith, Bool}
use traffic_backend_queue.Config.{Text, to_lower, switch, bool_or, bool_env, Environment, Variable}

to_lower_idem : (s : Text) → to_lower (to_lower s) ≡ to_lower s
unfolding to_lower
to_lower_idem [] = refl
to_lower_idem (c ∷ cs) = ground (arith, to_lower_idem cs)

bool_or-to_lower :
    (default : Bool) (s t : Text) → to_lower s ≡ to_lower t → bool_or default s ≡ bool_or default t
unfolding to_lower
bool_or-to_lower default [] [] e = refl
bool_or-to_lower default [] (d ∷ t) e = cc
bool_or-to_lower default (c ∷ s) [] e = cc
bool_or-to_lower default (c ∷ s) (d ∷ t) e = ap (switch default) e

-- Texts that differ only in the case of their letters switch alike.
pub bool_env-to_lower :
    (env other : Environment) (k : Variable) (default : Bool)
    → to_lower (env k) ≡ to_lower (other k)
    → bool_env env k default ≡ bool_env other k default
unfolding bool_env
bool_env-to_lower env other k default e = bool_or-to_lower default (env k) (other k) e
