-- ===== src/World.antt =====
-- What the plugin's code calls and does not implement: the remote hosts behind tempest.lib's SSH
-- client, the clock, the services API, and the nodes file. Each is a parameter of the model.
use whitebox_tempest_plugin.Prelude.{ℕ, List, Option}
use whitebox_tempest_plugin.Exceptions.{Result}
use whitebox_tempest_plugin.Exceptions.Action.{Action}
use whitebox_tempest_plugin.Python.Dict.{Dict}
use whitebox_tempest_plugin.Python.Text.{Text}

-- The entry of a service in nodes.yaml; `none` where a key is absent.
pub record ServiceEntry : Type 0 where
  pub container_name : Option Text
  pub config_path : Option Text
  pub start_command : Option Text
  pub stop_command : Option Text
  pub mask_command : Option Text
  pub unmask_command : Option Text

-- The entry of a host in nodes.yaml.
pub record HostEntry : Type 0 where
  pub services : Option (Dict Text ServiceEntry)
  pub cpu_dedicated_set : Option Text
  pub cpu_shared_set : Option Text

-- nodes.yaml, as `yaml.safe_load` returns it.
abbrev pub Nodes : Type 0
Nodes = Dict Text HostEntry

-- The arguments of tempest.lib.common.ssh.Client.
pub record Connection : Type 0 where
  pub address : Text
  pub username : Text
  pub key_filename : Text

-- What the code reads of `show_server(server_id)['server']`: the values of
-- OS-EXT-SRV-ATTR:host and OS-EXT-SRV-ATTR:instance_name.
pub record ServerDetails : Type 0 where
  pub host : Text
  pub instance_name : Text

pub record World : Type 1 where
  pub State : Type 0
  -- `int(time.time())`
  pub clock : State → ℕ
  -- `time.sleep(seconds)`
  pub sleep : ℕ → State → State
  -- `ssh.Client(...).exec_command(command)`
  pub exec_command : Connection → Text → Action State Text
  -- `list_services(binary=binary)['services']`, each service a dict
  pub list_services_of : Text → Action State (List (Dict Text Text))
  -- `client.list_services(host=host, binary=binary)['services']`, each service a dict
  pub list_services : Text → Text → Action State (List (Dict Text Text))
  -- `migrations_client.list_migrations()['migrations']`, the statuses alone
  pub list_migrations : Action State (List Text)
  -- `list_resource_provider_traits(provider)['traits']`
  pub list_resource_provider_traits : Text → Action State (List Text)
  -- `open(path)` and `yaml.safe_load`, which returns None for an empty file
  pub load_nodes : Text → Action State (Option Nodes)
  -- `show_server(server_id)['server']`
  pub show_server : Text → Action State ServerDetails
  -- `xml.etree.ElementTree`: `fromstring`, and `findall` and `find` of the root, which yield the
  -- attributes of the elements that a path selects
  pub Xml : Type 0
  pub fromstring : Text → Result Xml
  pub findall : Xml → Text → List (Dict Text Text)
  pub find : Xml → Text → Option (Dict Text Text)
