-- ===== src/Tests/Configuring.antt =====
-- instanceiterator/configurator.go on a configuration with a minute between the polls.
use on_demand_service_broker.Prelude.{ℕ, ◌≤◌, ◌≡◌, refl, [], ok, arith}
use on_demand_service_broker.Prelude.Int.{pos}
use on_demand_service_broker.Configurator.{InstanceIteratorConfig, Configured, new_configurator}
use on_demand_service_broker.Configurator.Bounds.{longest, IsKept, new_configurator-bounds}

abbrev conf : InstanceIteratorConfig
conf = record {
  username = "admin";
  password = "secret";
  url = "https://broker";
  polling_interval = pos 60;
  attempt_interval = pos 300;
  attempt_limit = pos 5;
  max_in_flight = pos 4;
  canaries = pos 1;
  canary_selection_params = [];
}

abbrev configured : Configured
configured = record {
  polling_nanoseconds = pos 60000000000;
  attempt_nanoseconds = pos 300000000000;
  settings = record { attempt_limit = 5; max_in_flight = 4; canary_selection_params = [] };
  canary_number = 1;
}

let_through : new_configurator (ok tt) conf ≡ ok configured
unfolding new_configurator
let_through = refl

short : (seconds n : ℕ) → seconds ≤ longest → pos seconds ≡ pos n → n ≤ longest
short seconds n h e = let same : seconds ≡ n = cc in omega (arith, h, same)

new_configurator-bounds_example : IsKept (ok tt) conf configured
new_configurator-bounds_example =
    new_configurator-bounds (ok tt) conf configured (λ n e. short 60 n (omega arith) e)
      (λ n e. short 300 n (omega arith) e) let_through
