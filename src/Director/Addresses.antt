-- ===== src/Director/Addresses.antt =====
-- boshdirector/links_api.go: the DNS addresses of a binding.
use on_demand_service_broker.Prelude.{List, [], ◌∷◌, String, Io, ◌>>=◌, pure, try}
use on_demand_service_broker.Prelude.Dict.{Dict, insert}
use on_demand_service_broker.Config.{BindingDns}
use on_demand_service_broker.Director.{Director}

module _ {W : Type 0} (d : Director W) where
  -- A round of the loop over the requests; the error of the deletion is dropped.
  unfoldable pub link_address : String → BindingDns → Io W String
  link_address deployment request =
      d.link_provider_id deployment request.instance_group request.link_provider >>= λ provider_id.
      d.create_link_consumer provider_id >>= λ consumer_id.
      d.get_link_address consumer_id request.azs request.status >>= λ address.
      try (d.delete_link_consumer consumer_id) (λ _. pure address) (λ _. pure address)

  unfoldable pub add_addresses : String → List BindingDns → Dict String → Io W (Dict String)
  unfolding link_address insert
  add_addresses deployment [] addresses = pure addresses
  add_addresses deployment (request ∷ requests) addresses =
      link_address deployment request >>= λ address.
      add_addresses deployment requests (insert request.name address addresses)

  unfoldable pub get_dns_addresses : String → List BindingDns → Io W (Dict String)
  unfolding add_addresses
  get_dns_addresses deployment requests = add_addresses deployment requests []
