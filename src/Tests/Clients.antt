-- ===== src/Tests/Clients.antt =====
-- The managers and clients on the host of the tests.
use whitebox_tempest_plugin.Prelude.{
  ◌≡◌, refl, true, false, List, [], ◌∷◌, none, some, arith, all, if◌then◌else◌,
}
use whitebox_tempest_plugin.Exceptions.{ok, err, timeout_exception, key_error, unbound_local_error}
use whitebox_tempest_plugin.Exceptions.Action.{Action}
use whitebox_tempest_plugin.Python.Dict.{lookup}
use whitebox_tempest_plugin.Python.Equality.{text_instance}
use whitebox_tempest_plugin.Python.Text.{Text, codes, text_eq, split, strip, has_part}
use whitebox_tempest_plugin.Clients.Ssh.{execute, parse_logs, parse_logs-zgrep}
use whitebox_tempest_plugin.Clients.ServiceManager.{
  ServiceManager, run_field, ConfOpt, crudini_get, crudini_set, crudini_del, leave_options,
  restore_all, nova_service_manager, virt_qemud_manager, start, stop, restart, set_all,
  enter_options, config_options, get_conf_opt, set_conf_opt,
}
use whitebox_tempest_plugin.Clients.ServiceManager.File.{IsCrudini}
use whitebox_tempest_plugin.Clients.ServiceManager.Lifecycle.{nova_start, nova_restart}
use whitebox_tempest_plugin.Clients.ServiceManager.Options.{
  config_options_restores, config_options_repeated, config_options-restart_raises,
  view-enter_options,
}
use whitebox_tempest_plugin.Clients.ServiceManager.View.{
  in_keys, distinct_keys, snapshot, write_all, is_sendable,
}
use whitebox_tempest_plugin.Utils.{
  Machine, get_all_hosts_details, get_host_details, get_host_details_cached,
}
use whitebox_tempest_plugin.Waiters.{poll_status, wait_for_nova_service_state}
use whitebox_tempest_plugin.Tests.Host.{Box, reply, host, conf, inventory}
use whitebox_tempest_plugin.Tests.Files.{manager, seen, host-IsCrudini, host-KeepsFile}
use whitebox_tempest_plugin.Tests.Waiters.{box, client, host-IsTimed}

abbrev cpus : Text → ConfOpt
cpus value = record {
  section = codes "compute";
  option = codes "cpu_shared_set";
  value = some value;
}

abbrev debug_off : ConfOpt
debug_off = record { section = codes "DEFAULT"; option = codes "debug"; value = none }

-- A file with one option in it.
abbrev debug_box : Box
debug_box = record box {
  file = λ section option. if text_eq option (codes "debug") then some (codes "true") else none;
}

abbrev opts : List ConfOpt
opts = cpus (codes "0-3") ∷ debug_off ∷ []

-- A body that writes an option of the list and raises.
abbrev body : Unit {0} → Action Box Text
body _ s = (
  err key_error,
  (set_conf_opt host conf manager (codes "compute") (codes "cpu_shared_set") none s).1,
)

opts_run :
    seen (config_options host conf manager opts body debug_box).1 (codes "DEFAULT") (codes "debug")
    ≡ some (codes "true")
unfolding config_options enter_options leave_options set_all restore_all get_conf_opt set_conf_opt
    crudini_get crudini_set crudini_del execute reply split has_part restart stop start text_eq
    strip wait_for_nova_service_state poll_status lookup
opts_run = refl

snapshot_run : all is_sendable (snapshot (seen debug_box) opts) ≡ true
unfolding text_eq strip
snapshot_run = refl

distinct_run : distinct_keys opts ≡ true
unfolding text_eq
distinct_run = refl

config_options_restores_example :
    let left = body tt (enter_options host conf manager opts debug_box).1 in
    ((config_options host conf manager opts body debug_box).0 ≡ left.0)
    × ((section option : Text)
        → seen (config_options host conf manager opts body debug_box).1 section option ≡ (
            if in_keys section option opts
            then seen debug_box section option
            else seen left.1 section option))
config_options_restores_example =
    config_options_restores host conf manager seen host-IsCrudini host-KeepsFile opts body debug_box
      refl snapshot_run distinct_run

debug_last : in_keys (codes "compute") (codes "cpu_shared_set") (debug_off ∷ []) ≡ false
unfolding text_eq
debug_last = refl

abbrev repeated : List ConfOpt
repeated = cpus (codes "0-3") ∷ debug_off ∷ cpus (codes "5") ∷ []

repeated-snapshot : all is_sendable (snapshot (seen debug_box) repeated) ≡ true
unfolding text_eq strip
repeated-snapshot = refl

config_options_repeated_example :
    seen
      (config_options host conf manager repeated body debug_box).1
      (codes "compute")
      (codes "cpu_shared_set")
    ≡ some (codes "0-3")
config_options_repeated_example =
    config_options_repeated host conf manager seen host-IsCrudini host-KeepsFile []
      (cpus (codes "0-3")) (debug_off ∷ []) (cpus (codes "5")) [] body debug_box refl
      repeated-snapshot refl refl debug_last refl

view-enter_options_example :
    ((enter_options host conf manager opts debug_box).0 ≡ ok (snapshot (seen debug_box) opts))
    × (seen
          (enter_options host conf manager opts debug_box).1
          (codes "compute")
          (codes "cpu_shared_set")
        ≡ some (codes "0-3"))
view-enter_options_example =
    view-enter_options host conf manager seen host-IsCrudini host-KeepsFile [] (cpus (codes "0-3"))
      (debug_off ∷ []) debug_box refl debug_last

-- A manager whose start waits for a state, on a host whose binary stays down for a hundred polls.
abbrev nova : ServiceManager
nova = record manager { kind = nova_service_manager (codes "compute1") client }

abbrev virt : ServiceManager
virt = record manager { kind = virt_qemud_manager (codes "compute1") client }

start_run : (start host conf nova box).0 ≡ ok (some [])
unfolding start execute reply split wait_for_nova_service_state poll_status lookup text_eq
start_run = refl

stop_run : (stop host conf nova box).0 ≡ ok (some [])
unfolding stop execute reply split wait_for_nova_service_state poll_status lookup text_eq
stop_run = refl

virt-start_run : (start host conf virt box).0 ≡ ok (some [])
unfolding start execute reply split wait_for_nova_service_state poll_status lookup text_eq
virt-start_run = refl

virt-stop_run : (stop host conf virt box).0 ≡ ok (some [])
unfolding stop execute reply split wait_for_nova_service_state poll_status lookup text_eq
virt-stop_run = refl

nova_start_example :
    (t : Box) × (poll_status host (codes "compute1") (codes "nova-compute") (codes "state") t
      ≡ (ok (codes "up"), (start host conf nova box).1))
nova_start_example =
    nova_start host host-IsTimed conf nova (codes "compute1") client (omega arith) box (some [])
      refl start_run

restart_run : (restart host conf nova box).0 ≡ ok tt
unfolding restart start stop execute reply split wait_for_nova_service_state poll_status lookup
    text_eq
restart_run = refl

nova_restart_example :
    (stopped : Text) × (started : Text) × (t : Box) × (u : Box) × (v : Box) × ((run_field host conf
        nova nova.stop_command box).0
      ≡ ok stopped)
    × (poll_status host (codes "compute1") (codes "nova-compute") (codes "state") t
        ≡ (ok (codes "down"), u))
    × ((run_field host conf nova nova.start_command u).0 ≡ ok started)
    × (poll_status host (codes "compute1") (codes "nova-compute") (codes "state") v
        ≡ (ok (codes "up"), (restart host conf nova box).1))
nova_restart_example =
    nova_restart host host-IsTimed conf nova (codes "compute1") client (omega arith) box refl
      restart_run

-- A host whose binary stays down: the restart of the manager raises, after the time is over.
abbrev down_box : Box
down_box = record debug_box { polls_left = 100 }

abbrev set_box : Box
set_box = (set_all host conf nova opts down_box).1

restart_raises_run : (restart host conf nova set_box).0 ≡ err timeout_exception
unfolding set_all restart get_conf_opt set_conf_opt crudini_get crudini_set crudini_del execute
    reply split has_part stop start text_eq strip wait_for_nova_service_state poll_status lookup
restart_raises_run = refl

restart_keeps_run : seen (restart host conf nova set_box).1 ≡ seen set_box
unfolding set_all restart get_conf_opt set_conf_opt crudini_get crudini_set crudini_del execute
    reply split has_part stop start text_eq strip wait_for_nova_service_state poll_status lookup
restart_keeps_run = refl

-- The class of a manager has no part in its calls of `crudini`.
nova-IsCrudini : IsCrudini host conf nova seen
unfolding crudini_get crudini_set crudini_del
nova-IsCrudini = record {
  get_answers = host-IsCrudini.get_answers;
  view-get = host-IsCrudini.view-get;
  set_returns = host-IsCrudini.set_returns;
  view-set = host-IsCrudini.view-set;
  del_returns = host-IsCrudini.del_returns;
  view-del = host-IsCrudini.view-del;
}

config_options-restart_raises_example :
    ((config_options host conf nova opts body down_box).0 ≡ err timeout_exception)
    × (seen (config_options host conf nova opts body down_box).1 ≡ write_all (seen down_box) opts)
config_options-restart_raises_example =
    config_options-restart_raises host conf nova seen nova-IsCrudini opts body down_box
      timeout_exception refl restart_raises_run restart_keeps_run

abbrev machine : Machine host
machine = record { nodes = none; world = box }

read_run : (get_all_hosts_details host conf machine).0 ≡ ok (some inventory)
unfolding get_all_hosts_details
read_run = refl

get_host_details_cached_example :
    let m' = (get_all_hosts_details host conf machine).1 in
    get_host_details host conf (codes "compute1") m'
    ≡ (ok (lookup (codes "compute1") inventory), m')
get_host_details_cached_example =
    get_host_details_cached host conf (codes "compute1") machine inventory read_run

parse_logs-zgrep_example :
    parse_logs host conf manager.ssh (codes "error") box ≡ (err unbound_local_error, box)
parse_logs-zgrep_example = parse_logs-zgrep host conf manager.ssh (codes "error") box refl
