-- ===== src/Base/Computes.antt =====
-- `list_compute_hosts` and `config_all_computes` of base.py.
pub mod Restore
use whitebox_tempest_plugin.Prelude.{List, [], ◌∷◌, Option, none, some, map}
use whitebox_tempest_plugin.Config.{Conf}
use whitebox_tempest_plugin.Exceptions.{Result, ok, err, key_error}
use whitebox_tempest_plugin.Exceptions.Action.{Action, pure, from_result, ◌>>=◌}
use whitebox_tempest_plugin.Python.Dict.{Dict, lookup}
use whitebox_tempest_plugin.Python.Equality.{text_instance}
use whitebox_tempest_plugin.Python.Text.{Text, codes}
use whitebox_tempest_plugin.Clients.ServiceManager.{
  ServiceManager, ConfOpt, nova_service_manager, init_manager, config_options,
}
use whitebox_tempest_plugin.Utils.{Machine, on_world, multicontext}
use whitebox_tempest_plugin.Waiters.{ServicesClient}
use whitebox_tempest_plugin.World.{World}

-- `service['host']`
abbrev pub host_of : Dict Text Text → Result Text
host_of service = elim (lookup (codes "host") service) [
  | none ↦ err key_error
  | some host ↦ ok host
]

module _ {S : Type 0} where
  -- A list comprehension whose expression may raise.
  unfoldable pub for_each : {A B : Type 0} → (A → Action S B) → List A → Action S (List B)
  for_each f [] = pure []
  for_each f (a ∷ l) = do b ← f a; bs ← for_each f l; pure (b ∷ bs)

module _ (W : World) (conf : Conf) (services_client : ServicesClient) where
  unfoldable pub list_compute_hosts : Action W.State (List Text)
  list_compute_hosts = do
    services ← W.list_services_of (codes "nova-compute")
    for_each (λ service. from_result (host_of service)) services

  unfoldable pub service_managers : List Text → Action (Machine W) (List ServiceManager)
  service_managers = for_each λ compute.
      init_manager W conf compute (codes "nova-compute")
        (nova_service_manager compute services_client)

  -- The managers of all computes, each in the context of its options.
  unfoldable pub configure_each :
      {B : Type 0}
      → List ConfOpt
      → List ServiceManager
      → (List (Unit {0}) → Action W.State B)
      → Action W.State B
  unfolding multicontext
  configure_each options managers =
      multicontext (map (λ m. config_options W conf m options) managers)

  -- The body acts on the world: the cache that the managers' constructors have filled is constant.
  unfoldable pub config_all_computes :
      {B : Type 0} → List ConfOpt → (List (Unit {0}) → Action W.State B) → Action (Machine W) B
  config_all_computes options body = do
    computes ← on_world list_compute_hosts
    svc_mgrs ← service_managers computes
    on_world (configure_each options svc_mgrs body)
