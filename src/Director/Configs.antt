-- ===== src/Director/Configs.antt =====
-- boshdirector/bosh_configs.go: the configs of a deployment.
use on_demand_service_broker.Prelude.{Bool, List, [], ◌∷◌, String, Io, ◌>>=◌, pure}
use on_demand_service_broker.Task.{BoshConfig}
use on_demand_service_broker.Director.{Director, built, wrapping}

module _ {W : Type 0} (d : Director W) where
  unfoldable pub get_configs : String → Io W (List BoshConfig)
  get_configs name = built d >>= λ _. wrapping "BOSH error getting configs" (d.list_configs name)

  unfoldable pub update_config : String → String → String → Io W (Unit {0})
  update_config config_type name content = built d >>= λ _.
      wrapping "BOSH error updating config" (d.update_config config_type name content)

  unfoldable pub delete_config : String → String → Io W Bool
  delete_config config_type name =
      built d >>= λ _. wrapping "BOSH error deleting config" (d.delete_config config_type name)

  -- The loop over the configs.
  delete_listed_configs : List BoshConfig → Io W (Unit {0})
  delete_listed_configs [] = pure tt
  delete_listed_configs (c ∷ cs) =
      wrapping "BOSH error deleting config" (d.delete_config c.config_type c.config_name) >>= λ _.
      delete_listed_configs cs

  unfoldable pub delete_configs : String → Io W (Unit {0})
  unfolding delete_listed_configs
  delete_configs name = built d >>= λ _.
      wrapping "BOSH error getting configs" (d.list_configs name) >>= λ configs.
      delete_listed_configs configs
