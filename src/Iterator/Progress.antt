-- ===== src/Iterator/Progress.antt =====
-- On triggerOperation of instanceiterator/iterator.go in the main phase, and what is left to do after
-- it.
use on_demand_service_broker.Prelude.{
  ℕ, ◌+◌, ◌≤◌, ◌≡◌, refl, ◌∙◌, sym, subst, inl, inr, Bool-cases, Bool, true, false, List, [], ◌∷◌,
  ◌++◌, length, drop, String, arith,
}
use on_demand_service_broker.Prelude.Int.{ℤ, pos, negsuc, less, is_zero}
use on_demand_service_broker.IteratorState.Data.{IteratorState, info_of}
use on_demand_service_broker.IteratorState.Queries.{
  processable, pending_instance, count_instances_in_current_phase,
}
use on_demand_service_broker.Iterator.Data.{Env, Settings, Run}
use on_demand_service_broker.Iterator.Steps.{
  operations_to_trigger_count, Round, stop, go_on, trigger_round, step_over, trigger_from,
  trigger_operation,
}
use on_demand_service_broker.Iterator.TriggerRule.{Round-cases}
use on_demand_service_broker.Iterator.Measure.{Settles, measure}
use on_demand_service_broker.Iterator.Closing.{
  Closes, refl-Closes, RoundCloses, trigger_round-closes,
}
use on_demand_service_broker.Iterator.Place.{
  IsAt, gain, stays, gain_skips, gain_bound, processable_main, not_pending, IsAt-next,
}

-- One turn of the loop, by its cases.
module _ {W : Type 0} (env : Env W) (total n : ℕ) (needed : ℤ) (guid : String) (todo : List String)
    (r : Run W) where
  abbrev From : Run W → Type 0
  From r' = trigger_from env total needed n (guid ∷ todo) r ≡ r'

  abbrev Turn : Round W → Type 0
  Turn x = trigger_round env total (pending_instance r.state guid) (step_over r) ≡ x

  From-enough : less (pos n) needed ≡ false → From r
  unfolding trigger_from
  From-enough h = rw (h, trigger_from) refl

  From-miss :
      less (pos n) needed ≡ true
      → processable r.state guid ≡ false
      → From (trigger_from env total needed n todo (step_over r))
  unfolding trigger_from
  From-miss h k = rw (h, k, trigger_from) refl

  From-stop :
      (q : Run W)
      → less (pos n) needed ≡ true
      → processable r.state guid ≡ true
      → Turn (stop q)
      → From q
  unfolding trigger_from
  From-stop q h k e = rw (h, k, e, trigger_from) refl

  From-accepted :
      (q : Run W)
      → less (pos n) needed ≡ true
      → processable r.state guid ≡ true
      → Turn (go_on true q)
      → From (trigger_from env total needed (n + 1) todo q)
  unfolding trigger_from
  From-accepted q h k e = rw (h, k, e, trigger_from) refl

  From-other :
      (q : Run W)
      → less (pos n) needed ≡ true
      → processable r.state guid ≡ true
      → Turn (go_on false q)
      → From (trigger_from env total needed n todo q)
  unfolding trigger_from
  From-other q h k e = rw (h, k, e, trigger_from) refl

module _ {W : Type 0} (rest : W → ℕ) where
  -- The run after a loop is at some place, with less to do by `by`.
  abbrev pub Lowers : ℕ → Run W → Run W → Type 0
  Lowers by r r' =
      ((done : List String) × (todo : List String) × IsAt done todo r'.state)
      × (measure rest r' + by ≤ measure rest r)
      × (r'.state.guids ≡ r.state.guids)

  Lowers-after :
      (by : ℕ) (r q r' : Run W)
      → Closes rest 1 r.state q.state r.world q.world
      → by ≤ 1
      → Lowers 0 q r'
      → Lowers by r r'
  Lowers-after by r q r' c h l = (l.0, omega (arith, l.1, c.less_left, h), l.2 ∙ c.guids)

  Lowers-less : (by : ℕ) (r r' : Run W) → Lowers by r r' → Lowers 0 r r'
  Lowers-less by r r' l = (l.0, omega (arith, l.1), l.2)

module _ {W : Type 0} (rest : W → ℕ) (env : Env W) (settles : Settles env rest) where
  trigger_from-Lowers :
      (n total : ℕ) (needed : ℤ) (done todo : List String) (r : Run W)
      → IsAt done todo r.state
      → Lowers rest
          (gain (less (pos n) needed) r.state.states todo)
          r
          (trigger_from env total needed n todo r)
  unfolding trigger_from info_of
  trigger_from-Lowers n total needed done [] r a = ((done, [], a), omega arith, refl)
  trigger_from-Lowers n total needed done (guid ∷ todo) r a =
      let more = less (pos n) needed in
      let by : ℕ = gain more r.state.states (guid ∷ todo) in
      let r1 = step_over r in
      let bound = gain_bound more r.state.states (guid ∷ todo) in
      let turn = trigger_round env total (pending_instance r.state guid) r1 in
      elim (Bool-cases more) [
        | inr enough ↦
            subst (Lowers rest by r) (sym (From-enough env total n needed guid todo r enough)) (
              (done, guid ∷ todo, a),
              stays (measure rest r) more r.state.states (guid ∷ todo) enough,
              refl,
            )
        | inl wanted ↦ elim (Bool-cases (processable r.state guid)) [
          | inr miss ↦
              (let waits = sym (processable_main r.state guid a.main) ∙ miss in
                let l = trigger_from-Lowers n total needed (done ++ guid ∷ []) todo r1 (
                  IsAt-next rest 0 done guid todo r.state r1.state r.world r.world a
                    (refl-Closes rest r1.state r.world) (not_pending _ waits)) in
                subst (Lowers rest by r)
                  (sym (From-miss env total n needed guid todo r wanted miss))
                  (l.0, omega (arith, l.1, gain_skips more r.state.states guid todo waits), l.2))
          | inl can ↦
              (let closed =
                  trigger_round-closes rest env settles total (pending_instance r.state guid) r1
                    can in
                elim (Round-cases turn) [
                  | inl (q, e) ↦
                      (let c = subst (RoundCloses rest guid r1.state r1.world) e closed in
                        subst (Lowers rest by r)
                          (sym (From-stop env total n needed guid todo r q wanted can e))
                          (Lowers-after rest by r1 q q c.0 bound (
                            (
                              done ++ guid ∷ [],
                              todo,
                              IsAt-next rest 1 done guid todo r.state q.state r.world q.world a c.0
                                  c.1,
                            ),
                            omega arith,
                            refl,
                          )))
                  | inr (inl (q, e)) ↦
                      (let c = subst (RoundCloses rest guid r1.state r1.world) e closed in
                        let l =
                          trigger_from-Lowers (n + 1) total needed (done ++ guid ∷ []) todo q (
                            IsAt-next rest 1 done guid todo r.state q.state r.world q.world a c.0
                              c.1) in
                        subst (Lowers rest by r)
                          (sym (From-accepted env total n needed guid todo r q wanted can e))
                          (Lowers-after rest by r1 q (trigger_from env total needed (n + 1) todo q)
                            c.0 bound
                            (Lowers-less rest _ q (trigger_from env total needed (n + 1) todo q)
                              l)))
                  | inr (inr (q, e)) ↦
                      (let c = subst (RoundCloses rest guid r1.state r1.world) e closed in
                        let l = trigger_from-Lowers n total needed (done ++ guid ∷ []) todo q (
                          IsAt-next rest 1 done guid todo r.state q.state r.world q.world a c.0
                            c.1) in
                        subst (Lowers rest by r)
                          (sym (From-other env total n needed guid todo r q wanted can e))
                          (Lowers-after rest by r1 q (trigger_from env total needed n todo q) c.0
                            bound
                            (Lowers-less rest _ q (trigger_from env total needed n todo q) l)))
                ])
        ]
      ]

  drop_done : (done todo : List String) → drop (length done) (done ++ todo) ≡ todo
  drop_done [] todo = refl
  drop_done (x ∷ done) todo = drop_done done todo

  dropped :
      (done todo : List String) (s : IteratorState)
      → IsAt done todo s
      → drop s.position s.guids ≡ todo
  dropped done todo s a = rw (a.split, a.place) (drop_done done todo)

  at_zero : (b : Bool) (needed : ℤ) → is_zero needed ≡ true → less (pos 0) needed ≡ false
  at_zero b (pos m) h = ground arith
  at_zero b (negsuc m) h = refl

  pub trigger_operation-Lowers :
      (settings : Settings) (done todo : List String) (r : Run W)
      → IsAt done todo r.state
      → Lowers rest
          (gain
            (less (pos 0) (operations_to_trigger_count settings.max_in_flight r.state))
            r.state.states
            todo)
          r
          (trigger_operation env settings r)
  unfolding trigger_operation
  trigger_operation-Lowers settings done todo r a =
      let needed = operations_to_trigger_count settings.max_in_flight r.state in
      elim (Bool-cases (is_zero needed)) [
        | inl none_needed ↦ rw none_needed (
          (done, todo, a),
          stays (measure rest r) (less (pos 0) needed) r.state.states todo
              (at_zero true needed none_needed),
          refl,
        )
        | inr some_needed ↦ rw some_needed (
            subst
              (λ guids.
                Lowers rest (gain (less (pos 0) needed) r.state.states todo) r
                  (trigger_from env (count_instances_in_current_phase r.state) needed 0 guids r))
              (sym (dropped done todo r.state a))
              (trigger_from-Lowers 0 (count_instances_in_current_phase r.state) needed done todo r
                a))
      ]
