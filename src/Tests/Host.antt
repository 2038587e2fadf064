-- ===== src/Tests/Host.antt =====
-- A host for the tests: a configuration file that `crudini` edits, a clock, and a services API that
-- reports the binary up after some polls.
use whitebox_tempest_plugin.Prelude.{
  ℕ, zero, suc, ◌+◌, Bool, false, ◌&&◌, List, [], ◌∷◌, Option, none, some, if◌then◌else◌,
}
use whitebox_tempest_plugin.Prelude.Int.{ℤ, pos}
use whitebox_tempest_plugin.Config.{Conf}
use whitebox_tempest_plugin.Exceptions.{Result, ok, err, ssh_exec_command_failed}
use whitebox_tempest_plugin.Python.Dict.{Dict}
use whitebox_tempest_plugin.Python.Text.{Text, codes, text_eq, split}
use whitebox_tempest_plugin.Clients.ServiceManager.View.{View}
use whitebox_tempest_plugin.World.{World, ServiceEntry, Nodes}

pub record Box : Type 0 where
  pub file : View
  pub now : ℕ
  pub polls_left : ℕ

abbrev pub is_crudini : Text → Text → Text → Bool
is_crudini tool flag wanted = text_eq tool (codes "crudini") && text_eq flag wanted

abbrev pub at_place : Text → Text → Text → Text → Bool
at_place section option a b = text_eq a section && text_eq b option

abbrev pub answer_get : Option Text → Box → Result Text × Box
answer_get none box = (err (ssh_exec_command_failed (codes "Parameter not found")), box)
answer_get (some v) box = (ok v, box)

-- `crudini` at the words of a command line; any other command does nothing.
unfoldable pub reply : List Text → Box → Result Text × Box
unfolding text_eq
reply (sudo ∷ tool ∷ flag ∷ path ∷ section ∷ option ∷ []) box =
    if is_crudini tool flag (codes "--get")
    then answer_get (box.file section option) box
    else if is_crudini tool flag (codes "--del")
    then (
      ok [],
      record box { file = λ a b. if at_place section option a b then none else box.file a b },
    )
    else (ok [], box)
reply (sudo ∷ tool ∷ flag ∷ path ∷ section ∷ option ∷ value ∷ []) box =
    if is_crudini tool flag (codes "--set")
    then (
      ok [],
      record box { file = λ a b. if at_place section option a b then some value else box.file a b },
    )
    else (ok [], box)
reply _ box = (ok [], box)

abbrev service_dict : Text → Text → List (Dict Text Text)
service_dict state status = ((codes "state", state) ∷ (codes "status", status) ∷ []) ∷ []

abbrev nova_compute : ServiceEntry
nova_compute = record {
  container_name = none;
  config_path = some (codes "nova.conf");
  start_command = some (codes "start");
  stop_command = some (codes "stop");
  mask_command = none;
  unmask_command = none;
}

abbrev pub inventory : Nodes
inventory =
    (
      codes "compute1",
      record {
        services =
            some ((codes "nova-compute", nova_compute) ∷ (codes "libvirt", nova_compute) ∷ []);
        cpu_dedicated_set = none;
        cpu_shared_set = none;
      },
    )
    ∷ []

-- A poll takes a second.
abbrev pub poll_at : ℕ → Box → Result (List (Dict Text Text)) × Box
poll_at zero box =
    (ok (service_dict (codes "up") (codes "enabled")), record box { now = box.now + 1 })
poll_at (suc n) box = (
  ok (service_dict (codes "down") (codes "disabled")),
  record box { now = box.now + 1; polls_left = n },
)

abbrev pub poll_services : Box → Result (List (Dict Text Text)) × Box
poll_services box = poll_at box.polls_left box

-- The pins of a server, and the only elements that its XML has.
abbrev pub pins : List (Dict Text Text)
pins =
    ((codes "vcpu", codes "0") ∷ (codes "cpuset", codes "4-5") ∷ [])
    ∷ ((codes "vcpu", codes "1") ∷ (codes "cpuset", codes "6") ∷ [])
    ∷ []

abbrev pub first : List (Dict Text Text) → Option (Dict Text Text)
first [] = none
first (element ∷ _) = some element

abbrev pub host : World
host = record {
  State = Box;
  clock = λ box. box.now;
  sleep = λ n box. record box { now = box.now + n };
  exec_command = λ connection command. reply (split b' ' command);
  list_services_of = λ binary box. (ok (((codes "host", codes "compute1") ∷ []) ∷ []), box);
  list_services = λ name binary. poll_services;
  list_migrations = λ box. (ok (codes "done" ∷ []), box);
  list_resource_provider_traits = λ provider box. (ok (codes "CUSTOM_A" ∷ []), box);
  load_nodes = λ path box. (ok (some inventory), box);
  show_server =
      λ server box. (ok (record { host = codes "compute1"; instance_name = codes "i-1" }), box);
  Xml = List (Dict Text Text);
  fromstring = λ text. ok pins;
  findall = λ xml path. xml;
  find = λ xml path. first xml;
}

abbrev topology : Dict Text (List ℤ)
topology = (codes "0", pos 0 ∷ pos 1 ∷ []) ∷ (codes "1", pos 2 ∷ []) ∷ []

abbrev pub conf : Conf
conf = record {
  whitebox = record {
    nodes_yaml = codes "nodes.yaml";
    ctlplane_ssh_username = codes "stack";
    ctlplane_ssh_private_key_path = codes "id_rsa";
    containers = false;
    ctlplane_addresses = [];
    container_runtime = codes "docker";
  };
  whitebox_nova_compute = record {
    log_query_command = codes "zgrep";
    journalctl_unit = codes "n-cpu";
    state_path = codes "/var/lib/nova";
  };
  whitebox_database = record {
    host = codes "db";
    internal_ip = none;
    user = codes "nova";
    password = codes "secret";
    nova_cell1_db_name = codes "nova_cell1";
    ssh_gateway_port = 3306;
  };
  whitebox_hardware = record { cpu_topology = topology };
  compute = record { build_timeout = 10; build_interval = 2; image_ref = codes "cirros" };
  network = record { project_network_cidr = codes "10.100.0.0/16" };
  resource_name_prefix = codes "tempest";
}
