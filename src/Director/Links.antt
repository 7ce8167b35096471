-- ===== src/Director/Links.antt =====
-- On the link consumers that GetDNSAddresses of boshdirector/links_api.go makes.
use on_demand_service_broker.Prelude.{
  ℕ, ◌+◌, ◌-◌, ◌≡◌, refl, subst, ◌∙◌, ◌⊎◌, inl, inr, List, [], ◌∷◌, String, Error, Result, ok, err,
  panic, next, try, follow, pure, arith,
}
use on_demand_service_broker.Prelude.Dict.{Dict, insert}
use on_demand_service_broker.Prelude.Worlds.{Keeps}
use on_demand_service_broker.Config.{BindingDns}
use on_demand_service_broker.Director.{Director}
use on_demand_service_broker.Director.Addresses.{link_address, add_addresses, get_dns_addresses}

module _ {W : Type 0} (d : Director W) (open_count : W → ℕ) where
  -- One more consumer where the call succeeds.
  abbrev pub Opens : ℕ → Result String × W → Type 0
  Opens n (ok id, v) = open_count v ≡ n + 1
  Opens n (err e, v) = open_count v ≡ n
  Opens n (panic, v) = open_count v ≡ n

  -- `open_count` is the number of link consumers at the director: making one adds one, and deleting one,
  -- which succeeds, takes one away.
  pub record CountsConsumers : Type 0 where
    pub provider_keeps : (n g p : String) → Keeps open_count (d.link_provider_id n g p)
    pub consumer_opens : (p : String) (w : W) → Opens (open_count w) (d.create_link_consumer p w)
    pub address_keeps :
        (id : String) (azs : List String) (status : String)
        → Keeps open_count (d.get_link_address id azs status)
    pub deletion_succeeds : (id : String) (w : W) → (d.delete_link_consumer id w).0 ≡ ok tt
    pub deletion_closes :
        (id : String) (w : W) → open_count (d.delete_link_consumer id w).1 ≡ open_count w - 1

  -- The address of a consumer cannot be read.
  abbrev pub AddressFails : Error → W → Type 0
  AddressFails e v =
      (id : String) × (azs : List String) × (status : String) × (asked : W) × (d.get_link_address id
          azs status asked
        ≡ (err e, v))

  abbrev pub LeavesOpen : {A : Type 0} → ℕ → Result A × W → Type 0
  LeavesOpen n (ok a, v) = open_count v ≡ n
  LeavesOpen n (err e, v) = (open_count v ≡ n) ⊎ ((open_count v ≡ n + 1) × AddressFails e v)
  LeavesOpen n (panic, v) = (open_count v ≡ n) ⊎ (open_count v ≡ n + 1)

  module _ (c : CountsConsumers) where
    closed :
        (n : ℕ) (address id : String) (w : W)
        → open_count w ≡ n + 1
        → LeavesOpen n (try (d.delete_link_consumer id) (λ _. pure address) (λ _. pure address) w)
    closed n address id w h =
        by_deletion (d.delete_link_consumer id w) (c.deletion_succeeds id w)
          (omega (arith, h, c.deletion_closes id w))
      where
        by_deletion :
            (r : Result (Unit {0}) × W)
            → r.0 ≡ ok tt
            → open_count r.1 ≡ n
            → LeavesOpen n (follow (λ _. pure address) (λ _. pure address) r)
        by_deletion (ok u, v) e k = k
        by_deletion (err x, v) e k = cc
        by_deletion (panic, v) e k = cc

    opened :
        (n : ℕ) (request : BindingDns) (id : String) (w : W)
        → open_count w ≡ n + 1
        → LeavesOpen n (
            next
              (λ address. try (d.delete_link_consumer id) (λ _. pure address) (λ _. pure address))
              (d.get_link_address id request.azs request.status w))
    opened n request id w h =
        by_address (d.get_link_address id request.azs request.status w) refl
          ((c.address_keeps id request.azs request.status).at w ∙ h)
      where
        by_address :
            (r : Result String × W)
            → d.get_link_address id request.azs request.status w ≡ r
            → open_count r.1 ≡ n + 1
            → LeavesOpen n (
                next
                  (λ address.
                    try (d.delete_link_consumer id) (λ _. pure address) (λ _. pure address))
                  r)
        by_address (ok address, v) e k = closed n address id v k
        by_address (err x, v) e k = inr (k, (id, request.azs, request.status, w, e))
        by_address (panic, v) e k = inr k

    link_address-LeavesOpen :
        (deployment : String) (request : BindingDns) (n : ℕ) (w : W)
        → open_count w ≡ n
        → LeavesOpen n (link_address d deployment request w)
    unfolding link_address
    link_address-LeavesOpen deployment request n w h =
        by_provider (d.link_provider_id deployment request.instance_group request.link_provider w)
          ((c.provider_keeps deployment request.instance_group request.link_provider).at w ∙ h)
      where
        by_consumer :
            (r : Result String × W)
            → Opens n r
            → LeavesOpen n (
                next
                  (λ id v.
                    next
                      (λ address.
                        try (d.delete_link_consumer id) (λ _. pure address) (λ _. pure address))
                      (d.get_link_address id request.azs request.status v))
                  r)
        by_consumer (ok id, v) o = opened n request id v o
        by_consumer (err x, v) o = inl o
        by_consumer (panic, v) o = inl o

        by_provider :
            (r : Result String × W)
            → open_count r.1 ≡ n
            → LeavesOpen n (
                next
                  (λ p v.
                    next
                      (λ id u.
                        next
                          (λ address.
                            try (d.delete_link_consumer id) (λ _. pure address) (λ _. pure address))
                          (d.get_link_address id request.azs request.status u))
                      (d.create_link_consumer p v))
                  r)
        by_provider (ok p, v) k =
            by_consumer (d.create_link_consumer p v)
              (subst (λ m. Opens m (d.create_link_consumer p v)) k (c.consumer_opens p v))
        by_provider (err x, v) k = inl k
        by_provider (panic, v) k = inl k

    add_addresses-LeavesOpen :
        (deployment : String) (requests : List BindingDns) (addresses : Dict String) (n : ℕ) (w : W)
        → open_count w ≡ n
        → LeavesOpen n (add_addresses d deployment requests addresses w)
    unfolding add_addresses
    add_addresses-LeavesOpen deployment [] addresses n w h = h
    add_addresses-LeavesOpen deployment (request ∷ requests) addresses n w h =
        by_round (link_address d deployment request w)
          (link_address-LeavesOpen deployment request n w h)
          (λ address v k.
            add_addresses-LeavesOpen deployment requests (insert request.name address addresses) n v
              k)
      where
        by_round :
            (r : Result String × W)
            → LeavesOpen n r
            → ((address : String) (v : W)
                → open_count v ≡ n
                → LeavesOpen n
                    (add_addresses d deployment requests (insert request.name address addresses) v))
            → LeavesOpen n (
                next
                  (λ address.
                    add_addresses d deployment requests (insert request.name address addresses))
                  r)
        by_round (ok address, v) l later = later address v l
        by_round (err x, v) l later = l
        by_round (panic, v) l later = l

    -- Where GetDNSAddresses succeeds, it leaves as many link consumers as there were. Where it fails, it
    -- leaves as many or one more; after an error it leaves one more only if its last call is a look-up
    -- of the address of a consumer that has failed. This holds where every deletion of a consumer
    -- succeeds.
    pub get_dns_addresses-LeavesOpen :
        (deployment : String) (requests : List BindingDns) (w : W)
        → LeavesOpen (open_count w) (get_dns_addresses d deployment requests w)
    unfolding get_dns_addresses
    get_dns_addresses-LeavesOpen deployment requests w =
        add_addresses-LeavesOpen deployment requests [] (open_count w) w refl
