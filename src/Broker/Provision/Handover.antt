-- ===== src/Broker/Provision/Handover.antt =====
-- On the operation data that broker/provision.go hands over, and what broker/lifecycle_runner.go makes of it.
use on_demand_service_broker.Prelude.{
  ℕ, ◌≡◌, refl, subst, inl, inr, Bool, true, false, Option, none, some, [], ◌∷◌, length, String,
  ◌==◌, Result, ok, err, panic, try, fail, pure, has_type, Bool-cases,
}
use on_demand_service_broker.Prelude.Answers.{Gives, next-Gives, follow-Gives, given, passes}
use on_demand_service_broker.Json.{Object, get}
use on_demand_service_broker.Config.{LifecycleErrands, Plan, find_plan_by_id, post_deploy_errands}
use on_demand_service_broker.OperationData.{OperationData, create}
use on_demand_service_broker.Task.{Deployed}
use on_demand_service_broker.Lifecycle.{valid_post_deploy_op_type}
use on_demand_service_broker.Lifecycle.Script.{polled_times, done_task}
use on_demand_service_broker.Lifecycle.PostDeploy.{IsDeployment, all_run, deployment_runs_script}
use on_demand_service_broker.Broker.{deployment_name}
use on_demand_service_broker.Broker.Clients.{Clients}
use on_demand_service_broker.Broker.Uaa.{
  get_space_guid_from_context, get_instance_name_from_context,
}
use on_demand_service_broker.Broker.Catalog.{services}
use on_demand_service_broker.Decider.{can_provision}
use on_demand_service_broker.Broker.{bosh_request_error}
use on_demand_service_broker.Broker.Provision.{
  ProvisionDetails, ProvisionedServiceSpec, context_id_if, created_data, deploy_instance,
  finish_provision, provision_instance, provision_steps, provision, from_context, plan_or_fail,
  check_absent, check_room, check_plan_schemas, convert_details_to_map, decided,
}

module _ {W : Type 0} (b : Clients W) where
  -- The context is empty, or a unique identifier where the plan has lifecycle errands.
  abbrev pub ContextOf : Option LifecycleErrands → String → Type 0
  ContextOf none context = context ≡ ""
  ContextOf (some errands) context = (w : W) × ((b.broker.new_uuid w).0 ≡ ok context)

  -- Operation data of the creation of an instance of a plan.
  pub record Creates (plan : Plan) (d : OperationData) : Type 0 where
    pub creates : d.operation_type ≡ create
    pub with_errands : d.errands ≡ post_deploy_errands plan
    pub present_style : d.post_deploy_errand.name ≡ ""
    pub context : ContextOf plan.lifecycle_errands d.bosh_context_id

  created :
      (plan : Plan) (context : String) (deployed : Deployed)
      → ContextOf plan.lifecycle_errands context
      → Creates plan (created_data b plan context deployed)
  created plan context deployed h = record {
    creates = refl;
    with_errands = refl;
    present_style = refl;
    context = h;
  }

  context_given :
      (errands : Option LifecycleErrands) (w : W) (context : String)
      → (context_id_if b errands w).0 ≡ ok context
      → ContextOf errands context
  context_given none w context e = cc
  context_given (some errands) w context e = (w, e)

  abbrev Hands : Plan → ProvisionedServiceSpec → Type 0
  Hands plan spec = Creates plan spec.operation_data

  module _ (instance_id : String) where
    finish-Gives :
        (space_guid : String) (plan : Plan) (context : String) (deployed : Deployed) (w : W)
        → ContextOf plan.lifecycle_errands context
        → Gives (Hands plan) (finish_provision b instance_id space_guid plan context deployed w)
    unfolding finish_provision
    finish-Gives space_guid plan context deployed w h =
        follow-Gives (Hands plan) (b.adapter.generate_dashboard_url instance_id _ _ w) _ _
          (λ e v. elim (Bool-cases (has_type "NotImplementedError" e)) [
            | inl t ↦ rw t (created plan context deployed h)
            | inr t ↦ rw t tt
          ])
          (λ url _.
            follow-Gives (Hands plan) (b.uaa.update_client instance_id url space_guid _) _ _
              (λ _ _. tt) (λ _ _. created plan context deployed h))

    deploy-Gives :
        (name : String) (params : Object) (plan : Plan) (w : W)
        → Gives (Hands plan) (deploy_instance b instance_id name params plan w)
    unfolding deploy_instance
    deploy-Gives name params plan w =
        next-Gives (Hands plan) (context_id_if b plan.lifecycle_errands w) _ λ context e.
          next-Gives (Hands plan)
            (from_context get_space_guid_from_context (get "context" params) _) _
            λ space_guid _.
              follow-Gives (Hands plan) (b.uaa.create_client instance_id name space_guid _) _ _
                (λ _ _. tt)
                λ client _.
                  follow-Gives (Hands plan)
                    (b.deployer.create (deployment_name instance_id) plan.id params context client
                      _)
                    _ _ (λ _ _. tt)
                    λ deployed _.
                      finish-Gives space_guid plan context deployed _
                        (context_given plan.lifecycle_errands w context e)

    module _ (plan_id : String) where
      abbrev HandsOver : ProvisionedServiceSpec → Type 0
      HandsOver spec =
          (plan : Plan) × (find_plan_by_id b.broker.service_offering plan_id ≡ some plan)
          × Creates plan spec.operation_data

      weaken :
          (plan : Plan) (r : Result ProvisionedServiceSpec × W)
          → find_plan_by_id b.broker.service_offering plan_id ≡ some plan
          → Gives (Hands plan) r
          → Gives HandsOver r
      weaken plan (ok spec, w) p g = (plan, p, g)
      weaken plan (err e, w) p g = tt
      weaken plan (panic, w) p g = tt

      plan_of_ok :
          (o : Option Plan) (w : W) (plan : Plan) → (plan_or_fail o w).0 ≡ ok plan → o ≡ some plan
      plan_of_ok none w plan e = cc
      plan_of_ok (some p) w plan e = cc

      instance-Gives :
          (params : Object) (name : String) (w : W)
          → Gives HandsOver (provision_instance b instance_id plan_id params name w)
      unfolding provision_instance
      instance-Gives params name w =
          let found = find_plan_by_id b.broker.service_offering plan_id in
          next-Gives HandsOver (plan_or_fail found w) _ λ plan p.
            next-Gives HandsOver (check_absent b instance_id _) _ λ _ _.
              next-Gives HandsOver (check_room b plan _) _ λ _ _.
                next-Gives HandsOver (check_plan_schemas b params plan _) _
                  λ _ _. weaken plan _ (plan_of_ok found w plan p) (deploy-Gives name params plan _)

    steps-Gives :
        (details : ProvisionDetails) (w : W)
        → Gives (HandsOver details.plan_id) (provision_steps b instance_id details w)
    unfolding provision_steps
    steps-Gives details w =
        let Q = HandsOver details.plan_id in
        next-Gives Q (convert_details_to_map details.raw_parameters details.as_map w) _ λ params _.
          next-Gives Q (services b _) _ λ catalog _.
            next-Gives Q
              (decided (can_provision b.equals catalog details.plan_id details.maintenance_info) _)
              _
              λ _ _.
                next-Gives Q (try b.broker.get_info (λ e. fail (bosh_request_error e)) pure _) _
                  λ _ _.
                    next-Gives Q
                      (from_context get_instance_name_from_context (get "context" params) _) _
                      λ name _. instance-Gives details.plan_id params name _

    provision-Gives :
        (details : ProvisionDetails) (async_allowed : Bool) (w : W)
        → Gives (HandsOver details.plan_id) (provision b instance_id details async_allowed w)
    unfolding provision
    provision-Gives details false w = tt
    provision-Gives details true w =
        let Q = HandsOver details.plan_id in
        follow-Gives Q (provision_steps b instance_id details w) _ _ (λ _ _. tt)
          (passes Q (provision_steps b instance_id details w) (steps-Gives details w))

  IsDeployment-of :
      (plan : Plan) (errands : LifecycleErrands) (d : OperationData)
      → ((w : W) (id : String) → (b.broker.new_uuid w).0 ≡ ok id → id == "" ≡ false)
      → plan.lifecycle_errands ≡ some errands
      → Creates plan d
      → IsDeployment d
  unfolding valid_post_deploy_op_type
  IsDeployment-of plan errands d uuids h c = record {
    deploys = rw c.creates refl;
    in_context = not_empty (subst (λ e. ContextOf e d.bosh_context_id) h c.context);
    present_style = c.present_style;
  }
    where
      not_empty : ContextOf (some errands) d.bosh_context_id → d.bosh_context_id == "" ≡ false
      not_empty (w, e) = uuids w d.bosh_context_id e

  -- When a request for a new instance succeeds, for a plan with lifecycle errands, the operation data
  -- that it hands over makes the later polls run the post-deploy errands of the plan in order, each
  -- once, and nothing else, however often they come after that. The unique identifiers are not
  -- empty, and every task, the deployment's included, is done before the next poll.
  pub provision_runs_errands :
      ((w : W) (id : String) → (b.broker.new_uuid w).0 ≡ ok id → id == "" ≡ false)
      → (instance_id : String) (details : ProvisionDetails) (async_allowed : Bool) (w v : W)
        (spec : ProvisionedServiceSpec) (plan : Plan) (errands : LifecycleErrands) (extra : ℕ)
      → provision b instance_id details async_allowed w ≡ (ok spec, v)
      → find_plan_by_id b.broker.service_offering details.plan_id ≡ some plan
      → plan.lifecycle_errands ≡ some errands
      → let d = spec.operation_data in
        let name = deployment_name instance_id in
        (polled_times extra name d (
          polled_times
            (length (post_deploy_errands plan))
            name
            d
            (record { tasks = done_task ∷ []; commands = [] }))).commands
        ≡ all_run (post_deploy_errands plan) []
  provision_runs_errands uuids instance_id details async_allowed w v spec plan errands extra e p h =
      let (found, p', c) =
        given (HandsOver instance_id details.plan_id)
          (provision b instance_id details async_allowed w) spec v
          (provision-Gives instance_id details async_allowed w) e in
      let same : found ≡ plan = cc in
      let c' : Creates plan spec.operation_data =
        subst (λ q. Creates q spec.operation_data) same c in
      subst
        (λ es.
          (polled_times extra (deployment_name instance_id) spec.operation_data (
            polled_times (length es) (deployment_name instance_id) spec.operation_data
              (record { tasks = done_task ∷ []; commands = [] }))).commands
          ≡ all_run es [])
        c'.with_errands
        (deployment_runs_script (deployment_name instance_id) spec.operation_data
          (IsDeployment-of plan errands spec.operation_data uuids h c') extra)
