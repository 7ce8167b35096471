-- ===== src/Deleter/Purge.antt =====
-- On what a purge by purger/purger.go leaves where it succeeds.
use on_demand_service_broker.Prelude.{
  ℕ, ◌≡◌, refl, sym, ◌∙◌, Option, none, some, List, [], ◌∷◌, String, Result, ok, err, panic, ◌>>=◌,
  next,
}
use on_demand_service_broker.Deleter.{
  CfClient, none_left, delete_listed, delete_instances, delete_all_service_instances, deregister,
  purger_failed, purger_failed_loop, delete_instances_and_deregister, then_loop, after_loop,
}

module _ {W : Type 0} (c : CfClient W) (fuel : ℕ) (offering_id : String) where
  -- The platform lists no instance of the offering, and that is the last call before a world.
  abbrev pub NoneLeft : W → Type 0
  NoneLeft v = (asked : W) × (c.get_service_instances offering_id asked ≡ (ok [], v))

  listing_ok :
      (w v : W) → (c.get_service_instances offering_id >>= none_left c) w ≡ (ok tt, v) → NoneLeft v
  listing_ok w v = by_list (c.get_service_instances offering_id w) refl
    where
      by_list :
          (r : Result (List String) × W)
          → c.get_service_instances offering_id w ≡ r
          → next (none_left c) r ≡ (ok tt, v)
          → NoneLeft v
      by_list (ok [], v') e h = (w, e ∙ (λ i. (ok [], (h i).1)))
      by_list (ok (g ∷ gs), v') e h = cc
      by_list (err x, v') e h = cc
      by_list (panic, v') e h = cc

  delete_all-ok :
      (w v : W) → delete_all_service_instances c fuel offering_id w ≡ some (ok tt, v) → NoneLeft v
  unfolding delete_all_service_instances
  delete_all-ok w v = by_list (c.get_service_instances offering_id w) refl
    where
      finish :
          (o : Option (Result (Unit {0}) × W))
          → after_loop (λ _ u. some ((c.get_service_instances offering_id >>= none_left c) u)) o
            ≡ some (ok tt, v)
          → NoneLeft v
      finish none h = cc
      finish (some (ok t, u)) h = listing_ok u v (unwrapped h)
        where
          unwrapped :
              {r : Result (Unit {0}) × W}
              → ◌≡◌ {A = Option (Result (Unit {0}) × W)} (some r) (some (ok tt, v))
              → r ≡ (ok tt, v)
          unwrapped e = cc
      finish (some (err x, u)) h = cc
      finish (some (panic, u)) h = cc

      by_list :
          (r : Result (List String) × W)
          → c.get_service_instances offering_id w ≡ r
          → then_loop (delete_listed c fuel offering_id) r ≡ some (ok tt, v)
          → NoneLeft v
      by_list (ok [], u) e h = (w, e ∙ sym (same h))
        where
          same :
              ◌≡◌ {A = Option (Result (Unit {0}) × W)} (some (ok tt, u)) (some (ok tt, v))
              → ◌≡◌ {A = Result (List String) × W} (ok [], v) (ok [], u)
          same k = cc
      by_list (ok (g ∷ gs), u) e h = finish (delete_instances c fuel (g ∷ gs) u) h
      by_list (err x, u) e h = cc
      by_list (panic, u) e h = cc

  -- A purge that succeeds has disabled the access to all plans of the offering; the platform then has
  -- listed no instance of the offering, and in the world after that listing the broker has been
  -- deregistered without error, which is the last thing that the purge does.
  pub purge_leaves_nothing :
      (broker_name : String) (w v : W)
      → delete_instances_and_deregister c fuel offering_id broker_name w ≡ some (ok tt, v)
      → ((c.disable_service_access_for_all_plans offering_id w).0 ≡ ok tt)
        × (emptied : W) × NoneLeft emptied
        × (deregister c broker_name emptied ≡ (ok tt, v))
  unfolding delete_instances_and_deregister
  purge_leaves_nothing broker_name w v =
      by_access (c.disable_service_access_for_all_plans offering_id w)
    where
      deregistered :
          (r : Result (Unit {0}) × W)
          → ◌≡◌ {A = Option (Result (Unit {0}) × W)} (some (purger_failed c r)) (some (ok tt, v))
          → r ≡ (ok tt, v)
      deregistered (ok x, u) h = cc
      deregistered (err x, u) h = cc
      deregistered (panic, u) h = cc

      by_deletion :
          (u : W) (o : Option (Result (Unit {0}) × W))
          → delete_all_service_instances c fuel offering_id u ≡ o
          → after_loop
              (λ _ w2. some (purger_failed c (deregister c broker_name w2)))
              (purger_failed_loop c o)
            ≡ some (ok tt, v)
          → (emptied : W) × NoneLeft emptied × (deregister c broker_name emptied ≡ (ok tt, v))
      by_deletion u none e h = cc
      by_deletion u (some (ok x, emptied)) e h =
          (emptied, delete_all-ok u emptied e, deregistered (deregister c broker_name emptied) h)
      by_deletion u (some (err x, u')) e h = cc
      by_deletion u (some (panic, u')) e h = cc

      by_access :
          (r : Result (Unit {0}) × W)
          → then_loop
              (λ _ w1.
                after_loop
                  (λ _ w2. some (purger_failed c (deregister c broker_name w2)))
                  (purger_failed_loop c (delete_all_service_instances c fuel offering_id w1)))
              (purger_failed c r)
            ≡ some (ok tt, v)
          → (r.0 ≡ ok tt)
            × (emptied : W) × NoneLeft emptied
            × (deregister c broker_name emptied ≡ (ok tt, v))
      by_access (ok x, u) h =
          let (emptied, n, d) =
            by_deletion u (delete_all_service_instances c fuel offering_id u) refl h in
          (refl, emptied, n, d)
      by_access (err x, u) h = cc
      by_access (panic, u) h = cc
