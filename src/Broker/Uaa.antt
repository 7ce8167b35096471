-- ===== src/Broker/Uaa.antt =====
-- broker/service_instance_client.go: the UAA client of an instance. A type assertion that fails panics.
use on_demand_service_broker.Prelude.{
  Option, none, some, String, Io, ◌>>=◌, pure, try, panic, if◌then◌else◌,
}
use on_demand_service_broker.Prelude.Dict.{Dict}
use on_demand_service_broker.Json.{Object, Value, text, get}
use on_demand_service_broker.Broker.Clients.{Clients}

module _ {W : Type 0} where
  abbrev pub text_or_panic : Option Value → Io W String
  text_or_panic none = pure ""
  text_or_panic (some (text s)) = pure s
  text_or_panic (some value) = λ w. (panic, w)

  unfoldable pub get_instance_name_from_context : Object → Io W String
  unfolding get
  get_instance_name_from_context context = text_or_panic (get "instance_name" context)

  unfoldable pub get_space_guid_from_context : Object → Io W String
  unfolding get
  get_space_guid_from_context context = text_or_panic (get "space_guid" context)

module _ {W : Type 0} (b : Clients W) where
  abbrev pub client_or_create : String → Object → Option (Dict String) → Io W (Option (Dict String))
  unfolding get_instance_name_from_context get_space_guid_from_context
  client_or_create instance_id context (some client) = pure (some client)
  client_or_create instance_id context none = get_instance_name_from_context context >>= λ name.
      get_space_guid_from_context context >>= λ space_guid.
      b.uaa.create_client instance_id name space_guid

  unfoldable pub get_service_instance_client : String → Object → Io W (Option (Dict String))
  unfolding client_or_create
  get_service_instance_client instance_id context =
      b.uaa.get_client instance_id >>= client_or_create instance_id context

  -- The error of deleting the client is only logged.
  unfoldable pub update_service_instance_client :
      String → String → Option (Dict String) → Object → Io W (Unit {0})
  unfolding get_space_guid_from_context
  update_service_instance_client instance_id dashboard_url none context = pure tt
  update_service_instance_client instance_id dashboard_url (some client) context =
      if b.uaa.has_client_definition
      then (get_space_guid_from_context context >>= λ space_guid.
          b.uaa.update_client instance_id dashboard_url space_guid >>= λ _. pure tt)
      else try (b.broker.delete_client instance_id) (λ _. pure tt) pure
