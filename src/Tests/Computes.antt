-- ===== src/Tests/Computes.antt =====
-- Two computes, each with a configuration file of its own.
use whitebox_tempest_plugin.Prelude.{◌≡◌, refl, true, List, [], ◌∷◌, none, some, All, if◌then◌else◌}
use whitebox_tempest_plugin.Exceptions.{Result, ok, err, key_error}
use whitebox_tempest_plugin.Exceptions.Action.{Action}
use whitebox_tempest_plugin.Python.Text.{Text, codes, text_eq, split}
use whitebox_tempest_plugin.Clients.Ssh.{execute}
use whitebox_tempest_plugin.Clients.ServiceManager.{
  ServiceManager, ConfOpt, crudini_get, crudini_set, crudini_del, restart, start, stop,
  set_conf_opt,
}
use whitebox_tempest_plugin.Clients.ServiceManager.File.{IsCrudini}
use whitebox_tempest_plugin.Clients.ServiceManager.Options.{KeepsFile}
use whitebox_tempest_plugin.Clients.ServiceManager.View.{View, in_keys}
use whitebox_tempest_plugin.Base.Computes.{configure_each}
use whitebox_tempest_plugin.Base.Computes.Restore.{
  Site, Leaves, IsSite, managers, configure_each_restores,
}
use whitebox_tempest_plugin.World.{World}
use whitebox_tempest_plugin.Tests.Host.{Box, reply, conf}
use whitebox_tempest_plugin.Tests.Files.{manager, seen, host-IsCrudini}
use whitebox_tempest_plugin.Tests.Waiters.{box, client}

abbrev Boxes : Type 0
Boxes = Box × Box

abbrev at_first : Result Text × Box → Box → Result Text × Boxes
at_first (r, a) b = (r, (a, b))

abbrev at_second : Box → Result Text × Box → Result Text × Boxes
at_second a (r, b) = (r, (a, b))

abbrev two_hosts : World
two_hosts = record {
  State = Boxes;
  clock = λ s. s.0.now;
  sleep = λ n s. s;
  exec_command = λ connection command s.
      if text_eq connection.address (codes "compute1")
      then at_first (reply (split b' ' command) s.0) s.1
      else at_second s.0 (reply (split b' ' command) s.1);
  list_services_of = λ binary s. (ok [], s);
  list_services = λ name binary s. (ok [], s);
  list_migrations = λ s. (ok [], s);
  list_resource_provider_traits = λ provider s. (ok [], s);
  load_nodes = λ path s. (ok (some []), s);
  show_server = λ server s. (err key_error, s);
  Xml = Unit {0};
  fromstring = λ text. ok tt;
  findall = λ xml path. [];
  find = λ xml path. none;
}

abbrev other_manager : ServiceManager
other_manager = record manager { ssh = record manager.ssh { ctlplane_address = codes "compute2" } }

abbrev first_file : Boxes → View
first_file s = seen s.0

abbrev second_file : Boxes → View
second_file s = seen s.1

first-IsCrudini : IsCrudini two_hosts conf manager first_file
unfolding execute crudini_get crudini_set crudini_del text_eq
first-IsCrudini = record {
  get_answers = λ section option s. host-IsCrudini.get_answers section option s.0;
  view-get = λ section option s. host-IsCrudini.view-get section option s.0;
  set_returns = λ section option value s. host-IsCrudini.set_returns section option value s.0;
  view-set = λ section option value s. host-IsCrudini.view-set section option value s.0;
  del_returns = λ section option s. host-IsCrudini.del_returns section option s.0;
  view-del = λ section option s. host-IsCrudini.view-del section option s.0;
}

second-IsCrudini : IsCrudini two_hosts conf other_manager second_file
unfolding execute crudini_get crudini_set crudini_del text_eq
second-IsCrudini = record {
  get_answers = λ section option s. host-IsCrudini.get_answers section option s.1;
  view-get = λ section option s. host-IsCrudini.view-get section option s.1;
  set_returns = λ section option value s. host-IsCrudini.set_returns section option value s.1;
  view-set = λ section option value s. host-IsCrudini.view-set section option value s.1;
  del_returns = λ section option s. host-IsCrudini.del_returns section option s.1;
  view-del = λ section option s. host-IsCrudini.view-del section option s.1;
}

first-KeepsFile : KeepsFile two_hosts conf manager first_file
unfolding restart start stop execute split reply text_eq
first-KeepsFile = record { restart_returns = λ s. refl; view-restart = λ s. refl }

second-KeepsFile : KeepsFile two_hosts conf other_manager second_file
unfolding restart start stop execute split reply text_eq
second-KeepsFile = record { restart_returns = λ s. refl; view-restart = λ s. refl }

first-Leaves : Leaves two_hosts conf manager second_file
unfolding restart start stop execute split reply text_eq
first-Leaves = record { run_keeps = λ command s. refl; restart_keeps = λ s. refl }

abbrev sites : List (Site two_hosts conf)
sites = (manager, first_file) ∷ (other_manager, second_file) ∷ []

sites_lem : All (IsSite two_hosts conf) sites
sites_lem = (
  record { crudini = first-IsCrudini; keeps_file = first-KeepsFile },
  (record { crudini = second-IsCrudini; keeps_file = second-KeepsFile }, tt),
)

abbrev opts : List ConfOpt
opts =
    record {
      section = codes "compute";
      option = codes "cpu_shared_set";
      value = some (codes "0-3");
    }
    ∷ []

-- A body that removes the option on the second host and raises.
abbrev body : List (Unit {0}) → Action Boxes Text
body _ s = (
  err key_error,
  (set_conf_opt two_hosts conf other_manager (codes "compute") (codes "cpu_shared_set") none s).1,
)

abbrev start_boxes : Boxes
start_boxes = (box, box)

listed : in_keys (codes "compute") (codes "cpu_shared_set") opts ≡ true
unfolding text_eq
listed = refl

configure_each_restores_example :
    All
      (λ (b : Site two_hosts conf).
        b.1
          (configure_each two_hosts conf client opts
            (managers two_hosts conf sites)
            body
            start_boxes).1
          (codes "compute")
          (codes "cpu_shared_set")
        ≡ b.1 start_boxes (codes "compute") (codes "cpu_shared_set"))
      sites
configure_each_restores_example =
    configure_each_restores two_hosts conf client opts (codes "compute") (codes "cpu_shared_set")
      refl refl listed sites body start_boxes sites_lem ((first-Leaves, tt), (tt, tt))
      (refl, (refl, tt))
