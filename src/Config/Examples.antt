-- ===== src/Config/Examples.antt =====
-- Numbers and switches of internal/config/config.go at concrete texts.
use traffic_backend_queue.Common.{◌≡◌, ◌^◌, ◌-◌, refl, true, false, [], pos, negsuc, arith}
use traffic_backend_queue.Config.{
  Environment, Variable, codes, atoi, number, bad_syntax, out_of_range, int_env, to_lower, bool_env,
  duration, minute, load, read_signed, read_digits,
}
use traffic_backend_queue.Config.Numbers.{decimal, int_env-decimal}
use traffic_backend_queue.Config.Switches.{bool_env-to_lower}

-- DB_MAX_CONNS is 150.
abbrev vars : Environment
vars Variable.db_max_conns = codes "150"
vars Variable.demo_auto_setup = codes "OFF"
vars _ = []

abbrev other_vars : Environment
other_vars Variable.demo_auto_setup = codes "off"
other_vars _ = []

atoi_signs : atoi (codes "-12") ≡ number (negsuc 11)
unfolding atoi read_signed read_digits
atoi_signs = refl

atoi_letters : atoi (codes "12min") ≡ bad_syntax
unfolding atoi read_signed read_digits
atoi_letters = refl

-- The digit that passes 64 bits ends the reading.
atoi_large : atoi (codes "99999999999999999999x") ≡ out_of_range (pos (2 ^ 63 - 1))
unfolding atoi read_signed read_digits
atoi_large = refl

int_env-decimal_example : int_env vars Variable.db_max_conns (pos 50) ≡ pos 150
unfolding decimal
int_env-decimal_example = int_env-decimal vars Variable.db_max_conns (pos 50) 150 (omega arith) refl

bool_env-to_lower_example :
    bool_env vars Variable.demo_auto_setup true ≡ bool_env other_vars Variable.demo_auto_setup true
unfolding to_lower
bool_env-to_lower_example = bool_env-to_lower vars other_vars Variable.demo_auto_setup true refl

switched_off : bool_env vars Variable.demo_auto_setup true ≡ false
unfolding bool_env
switched_off = refl

default_hold_ttl : (load (λ k. [])).hold_ttl ≡ duration (pos 12) minute
unfolding load atoi read_signed read_digits
default_hold_ttl = refl
