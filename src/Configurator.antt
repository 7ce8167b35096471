-- ===== src/Configurator.antt =====
-- instanceiterator/configurator.go: what the iterator is configured with. The certificates are a parameter:
-- appending them may fail. A Go `int` of the configuration lies between -2^63 and 2^63 - 1; a
-- duration is counted in nanoseconds, and a product wraps round.
pub mod Bounds
use Prim.Native.Nat.{◌%◌, ◌^◌}
use on_demand_service_broker.Prelude.{
  ℕ, ◌+◌, ◌-◌, ◌*◌, ltb, zero, suc, Bool, true, false, ◌||◌, ◌==◌, List, String, other, wrapped,
  Result, ok, err, panic, if◌then◌else◌,
}
use on_demand_service_broker.Prelude.Dict.{Dict}
use on_demand_service_broker.Prelude.Int.{ℤ, pos, negsuc}
use on_demand_service_broker.Iterator.Data.{Settings}

-- config.InstanceIteratorConfig, by the fields that are read here.
pub record InstanceIteratorConfig : Type 0 where
  pub username : String
  pub password : String
  pub url : String
  pub polling_interval : ℤ
  pub attempt_interval : ℤ
  pub attempt_limit : ℤ
  pub max_in_flight : ℤ
  pub canaries : ℤ
  pub canary_selection_params : Dict String

-- The numbers that NewConfigurator keeps; those that the iterator's loops read are its settings.
pub record Configured : Type 0 where
  pub polling_nanoseconds : ℤ
  pub attempt_nanoseconds : ℤ
  pub settings : Settings
  pub canary_number : ℕ

module _ {A B : Type 0} where
  abbrev pub and_then : Result A → (A → Result B) → Result B
  and_then (ok a) f = f a
  and_then (err e) f = err e
  and_then panic f = panic

-- A number of 64 bits, read as a signed one.
unfoldable pub signed : ℕ → ℤ
signed n = if ltb n (2 ^ 63) then pos n else negsuc (2 ^ 64 - n - 1)

-- time.Duration(seconds) * time.Second
unfoldable pub nanoseconds : ℕ → ℤ
unfolding signed
nanoseconds seconds = signed ((seconds * 1000000000) % 2 ^ 64)

-- `if n <= 0 { return 0, errors.New(...) }`
abbrev pub positive : String → ℤ → Result ℕ
positive message (pos zero) = err (other message)
positive message (pos (suc n)) = ok (suc n)
positive message (negsuc n) = err (other message)

unfoldable pub polling_interval : InstanceIteratorConfig → Result ℤ
unfolding nanoseconds
polling_interval conf =
    and_then (positive "the pollingInterval must be greater than zero" conf.polling_interval)
      (λ n. ok (nanoseconds n))

unfoldable pub attempt_interval : InstanceIteratorConfig → Result ℤ
unfolding nanoseconds
attempt_interval conf =
    and_then (positive "the attemptInterval must be greater than zero" conf.attempt_interval)
      (λ n. ok (nanoseconds n))

unfoldable pub attempt_limit : InstanceIteratorConfig → Result ℕ
attempt_limit conf = positive "the attempt limit must be greater than zero" conf.attempt_limit

unfoldable pub max_in_flight : InstanceIteratorConfig → Result ℕ
max_in_flight conf = positive "the max in flight must be greater than zero" conf.max_in_flight

abbrev pub not_negative : ℤ → Result ℕ
not_negative (pos n) = ok n
not_negative (negsuc n) = err (other "the number of canaries cannot be negative")

unfoldable pub canaries : InstanceIteratorConfig → Result ℕ
canaries conf = not_negative conf.canaries

module _ (append_certs : Result (Unit {0})) where
  abbrev certs_or_fail : Result (Unit {0}) → Result (Unit {0})
  certs_or_fail (ok u) = ok u
  certs_or_fail (err e) =
      err (wrapped "error getting a certificate pool to append our trusted cert to" e)
  certs_or_fail panic = panic

  -- brokerServices, as far as it may fail.
  unfoldable pub broker_services : InstanceIteratorConfig → Result (Unit {0})
  broker_services conf =
      if conf.username == "" || (conf.password == "" || conf.url == "")
      then err (other "the brokerUsername, brokerPassword and brokerUrl are required to function")
      else certs_or_fail append_certs

  unfoldable pub new_configurator : InstanceIteratorConfig → Result Configured
  unfolding broker_services polling_interval attempt_interval attempt_limit max_in_flight canaries
  new_configurator conf = and_then (broker_services conf) λ _.
      and_then (polling_interval conf) λ polling. and_then (attempt_interval conf) λ attempt.
        and_then (attempt_limit conf) λ limit. and_then (max_in_flight conf) λ in_flight.
          and_then (canaries conf) λ canary_number. ok (record {
            polling_nanoseconds = polling;
            attempt_nanoseconds = attempt;
            settings = record {
              attempt_limit = limit;
              max_in_flight = in_flight;
              canary_selection_params = conf.canary_selection_params;
            };
            canary_number = canary_number;
          })
