-- ===== src/Clients/Ssh.antt =====
-- `SSHClient` of services/clients.py, and the clients whose methods are one remote command:
-- `VirshXMLClient`, `LogParserClient`, `QEMUImgClient` (with its output unparsed).
use whitebox_tempest_plugin.Prelude.{
  ◌≡◌, Bool, true, [], ◌∷◌, ◌++◌, Option, none, some, arith, if◌then◌else◌,
}
use whitebox_tempest_plugin.Config.{Conf}
use whitebox_tempest_plugin.Exceptions.{
  Result, ok, err, attribute_error, missing_service_section_exception, unbound_local_error,
}
use whitebox_tempest_plugin.Exceptions.Action.{Action, pure, from_result, ◌>>=◌}
use whitebox_tempest_plugin.Python.Equality.{text_instance}
use whitebox_tempest_plugin.Python.Dict.{lookup}
use whitebox_tempest_plugin.Python.Text.{Text, codes, text_eq}
use whitebox_tempest_plugin.Python.Text.Laws.{text_eq_iff}
use whitebox_tempest_plugin.Utils.{Machine, get_host_details, get_ctlplane_address}
use whitebox_tempest_plugin.World.{World, HostEntry, ServiceEntry}

pub record SshClient : Type 0 where
  pub ssh_key : Text
  pub ssh_user : Text
  pub host_parameters : Option HostEntry
  pub ctlplane_address : Text

-- `'%s' % value`
abbrev pub format_opt : Option Text → Text
format_opt none = codes "None"
format_opt (some t) = t

-- The words of a command, with a blank between them.
infixr 60 ◌<+>◌
abbrev pub ◌<+>◌ : Text → Text → Text
s <+> t = s ++ (b' ' ∷ t)

-- `CONF.whitebox.containers and container_name`
abbrev pub in_container : Conf → Option Text → Option Text
in_container conf none = none
in_container conf (some []) = none
in_container conf (some (c ∷ name)) = if conf.whitebox.containers then some (c ∷ name) else none

-- The command line that `execute` sends.
unfoldable pub command_line : Conf → Text → Option Text → Bool → Text
command_line conf command container_name sudo = elim (in_container conf container_name) [
  | some name ↦
      codes "sudo" <+> conf.whitebox.container_runtime <+> codes "exec -u root" <+> name <+> command
  | none ↦ if sudo then codes "sudo" <+> command else command
]

module _ (W : World) (conf : Conf) where
  -- `SSHClient.__init__`
  unfoldable pub ssh_client : Text → Action (Machine W) SshClient
  ssh_client host = do
    host_parameters ← get_host_details W conf host
    ctlplane_address ← from_result (get_ctlplane_address conf host)
    pure (record {
      ssh_key = conf.whitebox.ctlplane_ssh_private_key_path;
      ssh_user = conf.whitebox.ctlplane_ssh_username;
      host_parameters = host_parameters;
      ctlplane_address = ctlplane_address;
    })

  unfoldable pub execute : SshClient → Text → Option Text → Bool → Action W.State Text
  unfolding command_line
  execute client command container_name sudo =
      W.exec_command
        (record {
          address = client.ctlplane_address;
          username = client.ssh_user;
          key_filename = client.ssh_key;
        })
        (command_line conf command container_name sudo)

-- `host_parameters.get('services', {}).get(service)`, and the exception where there is none. A host
-- that nodes.yaml does not name has None for its parameters.
unfoldable pub service_section : Option HostEntry → Text → Result ServiceEntry
service_section none service = err attribute_error
service_section (some host) service = elim host.services [
  | none ↦ err (missing_service_section_exception service)
  | some services ↦ elim (lookup service services) [
    | none ↦ err (missing_service_section_exception service)
    | some entry ↦ ok entry
  ]
]

-- VirshXMLClient and QEMUImgClient: an SSH client with the container of libvirt.
pub record LibvirtClient : Type 0 where
  pub ssh : SshClient
  pub container_name : Option Text

module _ (W : World) (conf : Conf) where
  unfoldable pub libvirt_client : Text → Action (Machine W) LibvirtClient
  libvirt_client host = do
    ssh ← ssh_client W conf host
    entry ← from_result (service_section ssh.host_parameters (codes "libvirt"))
    pure (record { ssh = ssh; container_name = entry.container_name })

  module _ (client : LibvirtClient) where
    abbrev run_in_libvirt : Text → Action W.State Text
    run_in_libvirt command = execute W conf client.ssh command client.container_name true

    unfoldable pub dumpxml : Text → Action W.State Text
    dumpxml domain = run_in_libvirt (codes "virsh dumpxml" <+> domain)

    unfoldable pub capabilities : Action W.State Text
    capabilities = run_in_libvirt (codes "virsh capabilities")

    unfoldable pub domblklist : Text → Action W.State Text
    domblklist server_id = run_in_libvirt (codes "virsh domblklist" <+> server_id)

    unfoldable pub secret_dumpxml : Text → Action W.State Text
    secret_dumpxml secret_uuid = run_in_libvirt (codes "virsh secret-dumpxml" <+> secret_uuid)

  -- The two locals of `LogParserClient.parse` that its branches assign; `none` is a local that has
  -- no value yet.
  abbrev Locals : Type 0
  Locals = Text × Option (Option Text)

  -- `services_dict.get('nova-compute').get('container_name')`
  log_container : Option HostEntry → Result (Option Text)
  log_container none = err attribute_error
  log_container (some host) = elim host.services [
    | none ↦ err attribute_error
    | some services ↦ elim (lookup (codes "nova-compute") services) [
      | none ↦ err attribute_error
      | some entry ↦ ok entry.container_name
    ]
  ]

  quoted : Text → Text
  quoted query_string = b'\'' ∷ (query_string ++ (b'\'' ∷ []))

  log_command : SshClient → Text → Action W.State Locals
  log_command client query_string =
      if text_eq conf.whitebox_nova_compute.log_query_command (codes "zgrep")
      then pure (codes "sh -c \"zgrep" <+> quoted query_string <+> codes "/var/log/nova/*\"", none)
      else (do
        container_name ← from_result (log_container client.host_parameters)
        pure (
          codes "journalctl -u"
              <+> conf.whitebox_nova_compute.journalctl_unit
              <+> codes "-g"
              <+> quoted query_string,
          some container_name,
        ))

  -- Reading a local that has no value raises UnboundLocalError.
  read_local : Option (Option Text) → Result (Option Text)
  read_local none = err unbound_local_error
  read_local (some v) = ok v

  -- `LogParserClient.parse`
  unfoldable pub parse_logs : SshClient → Text → Action W.State Text
  unfolding log_container quoted log_command read_local
  parse_logs client query_string = do
    locals ← log_command client query_string
    container_name ← from_result (read_local locals.1)
    execute W conf client locals.0 container_name true

  -- With zgrep configured, a query of the logs raises UnboundLocalError before any command is sent,
  -- whatever the host and the query: that branch does not assign the name of the container.
  pub parse_logs-zgrep :
      (client : SshClient) (query_string : Text) (s : W.State)
      → conf.whitebox_nova_compute.log_query_command ≡ codes "zgrep"
      → parse_logs client query_string s ≡ (err unbound_local_error, s)
  unfolding parse_logs
  parse_logs-zgrep client query_string s h =
      ground (arith, text_eq_iff conf.whitebox_nova_compute.log_query_command (codes "zgrep"))
