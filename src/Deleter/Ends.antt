-- ===== src/Deleter/Ends.antt =====
-- On the end of the deletion of all instances by deleter/deleter.go.
use on_demand_service_broker.Prelude.{
  ℕ, zero, suc, ◌≤◌, ◌<◌, ◌≡◌, refl, subst, inl, inr, Bool-cases, Option, none, some, List, [], ◌∷◌,
  String, Error, has_type, Result, ok, err, panic, Io, ◌>>=◌, arith,
}
use on_demand_service_broker.Deleter.{
  LastOperation, is_delete, operation_failed, is_fatal, CfClient, read_deletion, poll_loop,
  poll_instance_delete_status, delete_each, unless_not_found, delete_bindings, delete_service_keys,
  delete_in_progress, request_deletion, start_deletion, delete_instances, none_left, delete_listed,
  delete_all_service_instances, then_loop, after_loop,
}
use on_demand_service_broker.Deleter.Waiting.{Undecided}
use on_demand_service_broker.Deleter.Lowering.{
  Lowers, Lowers-next, Lowers-try, Lowers-if, Lowers-still,
}

-- `m` bounds the questions for a last operation that are left undecided: each of them lowers it, and
-- no call or sleep raises it.
pub record Settles {W : Type 0} (c : CfClient W) (m : W → ℕ) : Type 0 where
  pub instances_le : (i : String) → Lowers m (c.get_service_instances i)
  pub bindings_le : (g : String) → Lowers m (c.get_bindings_for_instance g)
  pub binding_le : (g : String) → Lowers m (c.delete_binding g)
  pub keys_le : (g : String) → Lowers m (c.get_service_keys_for_instance g)
  pub key_le : (g : String) → Lowers m (c.delete_service_key g)
  pub deletion_le : (g : String) → Lowers m (c.delete_service_instance g)
  pub last_le : (g : String) → Lowers m (c.get_last_operation_for_instance g)
  pub last_lt :
      (g : String) (w : W)
      → Undecided (c.get_last_operation_for_instance g w).0
      → m (c.get_last_operation_for_instance g w).1 < m w
  pub offset_le : (w : W) → m (c.sleep_offset w) ≤ m w
  pub interval_le : (w : W) → m (c.sleep_interval w) ≤ m w

module _ {W : Type 0} (c : CfClient W) (m : W → ℕ) (s : Settles c m) where
  each-Lowers :
      (delete : String → Io W (Unit {0})) (guids : List String)
      → ((g : String) → Lowers m (delete g))
      → Lowers m (delete_each c delete guids)
  each-Lowers delete [] l = Lowers-still
  each-Lowers delete (g ∷ guids) l = Lowers-next (l g) (λ _. each-Lowers delete guids l)

  not_found-Lowers : (e : Error) → Lowers m (unless_not_found c e)
  not_found-Lowers e = Lowers-if (has_type "ResourceNotFoundError" e) Lowers-still Lowers-still

  bindings-Lowers : (guid : String) → Lowers m (delete_bindings c guid)
  unfolding delete_bindings
  bindings-Lowers guid =
      Lowers-try (s.bindings_le guid) not_found-Lowers
        (λ guids. each-Lowers c.delete_binding guids s.binding_le)

  keys-Lowers : (guid : String) → Lowers m (delete_service_keys c guid)
  unfolding delete_service_keys
  keys-Lowers guid =
      Lowers-try (s.keys_le guid) not_found-Lowers
        (λ guids. each-Lowers c.delete_service_key guids s.key_le)

  progress-Lowers : (guid : String) → Lowers m (delete_in_progress c guid)
  unfolding delete_in_progress
  progress-Lowers guid = Lowers-next (s.last_le guid) (λ _. Lowers-still)

  request-Lowers : (guid : String) → Lowers m (request_deletion c guid)
  unfolding request_deletion
  request-Lowers guid =
      Lowers-next (Lowers-try (progress-Lowers guid) (λ _. Lowers-still) (λ _. Lowers-still))
        (λ b. Lowers-if b Lowers-still (s.deletion_le guid))

  start-Lowers : (guid : String) → Lowers m (start_deletion c guid)
  unfolding start_deletion
  start-Lowers guid =
      Lowers-next (bindings-Lowers guid)
        λ _. Lowers-next (keys-Lowers guid) λ _. request-Lowers guid

  -- A loop that returns, in a world that is not above a bound.
  abbrev Ends : ℕ → Option (Result (Unit {0}) × W) → Type 0
  Ends n o = (r : Result (Unit {0}) × W) × (o ≡ some r) × (m r.1 ≤ n)

  read-Ends :
      (n : ℕ) (rest : W → Option (Result (Unit {0}) × W)) (r : Result LastOperation × W)
      → m r.1 ≤ n
      → (Undecided r.0 → Ends n (rest r.1))
      → Ends n (read_deletion c rest r)
  read-Ends n rest (panic, w) l go = ((panic, w), refl, l)
  read-Ends n rest (ok last, w) l go = elim (Bool-cases (is_delete last)) [
    | inr d ↦ rw d (_, refl, l)
    | inl d ↦ elim (Bool-cases (operation_failed last)) [
      | inl f ↦ rw (d, f) (_, refl, l)
      | inr f ↦ rw (d, f) (go (d, f))
    ]
  ]
  read-Ends n rest (err e, w) l go = elim (Bool-cases (has_type "ResourceNotFoundError" e)) [
    | inl h ↦ rw h (_, refl, l)
    | inr h ↦ elim (Bool-cases (is_fatal e)) [
      | inl f ↦ rw (h, f) (_, refl, l)
      | inr f ↦ rw (h, f) (go (h, f))
    ]
  ]

  poll-Ends : (fuel : ℕ) (guid : String) (w : W) → m w < fuel → Ends (m w) (poll_loop c fuel guid w)
  unfolding poll_loop
  poll-Ends zero guid w h = absurd (omega arith)
  poll-Ends (suc fuel) guid w h =
      let v = c.sleep_interval w in
      read-Ends (m w) _ (c.get_last_operation_for_instance guid v)
        (omega (arith, (s.last_le guid).at v, s.interval_le w))
        λ u.
          let v' = (c.get_last_operation_for_instance guid v).1 in
          let (r, e, l) =
            poll-Ends fuel guid v' (omega (arith, h, s.last_lt guid v u, s.interval_le w)) in
          (r, e, omega (arith, l, (s.last_le guid).at v, s.interval_le w))

  wait-Ends :
      (fuel : ℕ) (guid : String) (w : W)
      → m w < fuel
      → Ends (m w) (poll_instance_delete_status c fuel guid w)
  unfolding poll_instance_delete_status
  wait-Ends fuel guid w h =
      let (r, e, l) = poll-Ends fuel guid (c.sleep_offset w) (omega (arith, h, s.offset_le w)) in
      (r, e, omega (arith, l, s.offset_le w))

  then-Ends :
      (n : ℕ) (f : W → Option (Result (Unit {0}) × W)) (r : Result (Unit {0}) × W)
      → m r.1 ≤ n
      → (m r.1 ≤ n → Ends n (f r.1))
      → Ends n (then_loop (λ _. f) r)
  then-Ends n f (ok u, w) l go = go l
  then-Ends n f (err e, w) l go = (_, refl, l)
  then-Ends n f (panic, w) l go = (_, refl, l)

  after-Ends :
      (n : ℕ) (f : W → Option (Result (Unit {0}) × W)) (o : Option (Result (Unit {0}) × W))
      → Ends n o
      → ((w : W) → m w ≤ n → Ends n (f w))
      → Ends n (after_loop (λ _. f) o)
  after-Ends n f none (r, e, l) go = cc
  after-Ends n f (some r) (r', e, l) go = then-Ends n f r (subst (λ q. m q.1 ≤ n) same l) (go r.1)
    where
      same : r' ≡ r
      same = cc

  instances-Ends :
      (fuel n : ℕ) (guids : List String) (w : W)
      → m w ≤ n
      → n < fuel
      → Ends n (delete_instances c fuel guids w)
  unfolding delete_instances
  instances-Ends fuel n [] w l h = (_, refl, l)
  instances-Ends fuel n (guid ∷ guids) w l h =
      after-Ends n (delete_instances c fuel guids) _
        (then-Ends n (poll_instance_delete_status c fuel guid) (start_deletion c guid w)
          (omega (arith, l, (start-Lowers guid).at w)) λ l'. waited l')
        (λ v l'. instances-Ends fuel n guids v l' h)
    where
      waited :
          m (start_deletion c guid w).1 ≤ n
          → Ends n (poll_instance_delete_status c fuel guid (start_deletion c guid w).1)
      waited l' =
          let (r, e, k) = wait-Ends fuel guid (start_deletion c guid w).1 (omega (arith, l', h)) in
          (r, e, omega (arith, k, l'))

  -- The deletion of all instances of an offering ends, whatever it finds, with fuel above the bound on
  -- the questions that are left undecided: there is a bound that no call raises and that each
  -- question for a last operation lowers whose answer leaves the deletion undecided.
  pub delete_all_service_instances_ends :
      (fuel : ℕ) (offering_id : String) (w : W)
      → m w < fuel
      → (r : Result (Unit {0}) × W) × (delete_all_service_instances c fuel offering_id w ≡ some r)
  unfolding delete_all_service_instances
  delete_all_service_instances_ends fuel offering_id w h =
      by_list (c.get_service_instances offering_id w) ((s.instances_le offering_id).at w)
    where
      finish :
          (o : Option (Result (Unit {0}) × W))
          → Ends (m w) o
          → (r : Result (Unit {0}) × W) × (after_loop
                (λ _ v. some ((c.get_service_instances offering_id >>= none_left c) v))
                o
              ≡ some r)
      finish none (r, e, l) = cc
      finish (some (ok u, v)) e = (_, refl)
      finish (some (err x, v)) e = (_, refl)
      finish (some (panic, v)) e = (_, refl)

      by_list :
          (r : Result (List String) × W)
          → m r.1 ≤ m w
          → (q : Result (Unit {0}) × W) × (then_loop (delete_listed c fuel offering_id) r ≡ some q)
      by_list (ok [], v) l = (_, refl)
      by_list (ok (guid ∷ guids), v) l =
          finish (delete_instances c fuel (guid ∷ guids) v)
            (instances-Ends fuel (m w) (guid ∷ guids) v l h)
      by_list (err x, v) l = (_, refl)
      by_list (panic, v) l = (_, refl)
