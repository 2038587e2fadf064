-- ===== src/Clients/ServiceManager.antt =====
-- `ServiceManager` of services/clients.py with its subclasses `NovaServiceManager` and
-- `VirtQEMUdManager`. The class decides how the service is started and stopped.
pub mod View
pub mod File
pub mod Options
pub mod Scripts
pub mod Lifecycle
pub mod CpuSets
use whitebox_tempest_plugin.Prelude.{
  ℕ, Bool, true, false, List, [], ◌∷◌, ◌++◌, Option, none, some, if◌then◌else◌,
}
use whitebox_tempest_plugin.Prelude.Int.{ℤ}
use whitebox_tempest_plugin.Config.{Conf}
use whitebox_tempest_plugin.Exceptions.{Error, Result, ok, err, ssh_exec_command_failed}
use whitebox_tempest_plugin.Exceptions.Action.{
  Action, pure, raise, from_result, try_finally, ◌>>=◌, ◌>>◌,
}
use whitebox_tempest_plugin.Python.Text.{Text, codes, strip, has_part}
use whitebox_tempest_plugin.Hardware.CpuSpec.{parse_cpu_spec}
use whitebox_tempest_plugin.Clients.Ssh.{
  SshClient, ssh_client, execute, service_section, format_opt, ◌<+>◌,
}
use whitebox_tempest_plugin.Utils.{Machine, ContextManager}
use whitebox_tempest_plugin.Waiters.{ServicesClient, wait_for_nova_service_state}
use whitebox_tempest_plugin.World.{World}

-- The class of a manager, with the fields that its constructor adds.
pub data Class : Type 0 where
  service_manager : Class
  nova_service_manager : Text → ServicesClient → Class
  virt_qemud_manager : Text → ServicesClient → Class

pub record ServiceManager : Type 0 where
  pub ssh : SshClient
  pub kind : Class
  pub service : Text
  pub config_path : Option Text
  pub start_command : Option Text
  pub stop_command : Option Text
  pub mask_command : Option Text
  pub unmask_command : Option Text

-- A section, an option of it, and its value, where None deletes the option.
pub record ConfOpt : Type 0 where
  pub section : Text
  pub option : Text
  pub value : Option Text

-- Whether a field is set to a text that is not empty.
abbrev pub is_set : Option Text → Bool
is_set none = false
is_set (some []) = false
is_set (some (c ∷ t)) = true

module _ (W : World) (conf : Conf) where
  -- `__init__` of the three classes
  unfoldable pub init_manager : Text → Text → Class → Action (Machine W) ServiceManager
  init_manager hostname service kind = do
    ssh ← ssh_client W conf hostname
    entry ← from_result (service_section ssh.host_parameters service)
    pure (record {
      ssh = ssh;
      kind = kind;
      service = service;
      config_path = entry.config_path;
      start_command = entry.start_command;
      stop_command = entry.stop_command;
      mask_command = entry.mask_command;
      unmask_command = entry.unmask_command;
    })

  module _ (m : ServiceManager) where
    -- A command of a field, which a missing one turns into the text None.
    abbrev pub run_field : Option Text → Action W.State Text
    run_field command = execute W conf m.ssh (format_opt command) none true

    abbrev pub run : Text → Action W.State Text
    run command = execute W conf m.ssh command none true

    unfoldable pub crudini_get : Text → Text → Text
    crudini_get section option =
        codes "crudini --get" <+> format_opt m.config_path <+> section <+> option

    unfoldable pub crudini_set : Text → Text → Text → Text
    crudini_set section option value =
        codes "crudini --set" <+> format_opt m.config_path <+> section <+> option <+> value

    unfoldable pub crudini_del : Text → Text → Text
    crudini_del section option =
        codes "crudini --del" <+> format_opt m.config_path <+> section <+> option

    -- The value of `get_conf_opt`, or its `except` branch.
    abbrev pub read_value : Result Text → Result (Option Text)
    read_value (ok value) = ok (some (strip value))
    read_value (err (ssh_exec_command_failed message)) =
        if has_part message (codes "not found")
        then ok none
        else err (ssh_exec_command_failed message)
    read_value (err e) = err e

    unfoldable pub get_conf_opt : Text → Text → Action W.State (Option Text)
    get_conf_opt section option s =
        let (r, s') = run (crudini_get section option) s in (read_value r, s')

    unfoldable pub del_conf_opt : Text → Text → Action W.State Text
    del_conf_opt section option = run (crudini_del section option)

    unfoldable pub set_conf_opt : Text → Text → Option Text → Action W.State Text
    set_conf_opt section option none = run (crudini_del section option)
    set_conf_opt section option (some value) = run (crudini_set section option value)

    abbrev wait_state : ServicesClient → Text → Text → Text → Text → Action W.State Unit
    wait_state client host binary status_field state =
        wait_for_nova_service_state W client host binary status_field state

    -- `self.unmask_command` decides both whether to mask and whether to unmask.
    abbrev pub run_if_unmask : Option Text → Action W.State Text
    run_if_unmask command = if is_set m.unmask_command then run_field command else pure []

    unfoldable pub start_as : Class → Action W.State (Option Text)
    start_as service_manager = do
      run_if_unmask m.unmask_command
      run_field m.start_command
      pure none
    start_as (nova_service_manager host client) = do
      result ← run_field m.start_command
      wait_state client host m.service (codes "state") (codes "up")
      pure (some result)
    start_as (virt_qemud_manager host client) = do
      result ← run_field m.start_command
      wait_state client host (codes "nova-compute") (codes "status") (codes "enabled")
      pure (some result)

    unfoldable pub stop_as : Class → Action W.State (Option Text)
    stop_as service_manager = do run_field m.stop_command; run_if_unmask m.mask_command; pure none
    stop_as (nova_service_manager host client) = do
      result ← run_field m.stop_command
      wait_state client host m.service (codes "state") (codes "down")
      pure (some result)
    stop_as (virt_qemud_manager host client) = do
      result ← run_field m.stop_command
      wait_state client host (codes "nova-compute") (codes "status") (codes "disabled")
      pure (some result)

    unfoldable pub start : Action W.State (Option Text)
    unfolding start_as
    start = start_as m.kind

    unfoldable pub stop : Action W.State (Option Text)
    unfolding stop_as
    stop = stop_as m.kind

    unfoldable pub restart : Action W.State Unit
    restart = do stop; start; pure tt

    -- The values before, each read just before its option is set.
    unfoldable pub set_all : List ConfOpt → Action W.State (List ConfOpt)
    set_all [] = pure []
    set_all (o ∷ opts) = do
      initial ← get_conf_opt o.section o.option
      set_conf_opt o.section o.option o.value
      initial_values ← set_all opts
      pure (record { section = o.section; option = o.option; value = initial } ∷ initial_values)

    unfoldable pub restore_all : List ConfOpt → Action W.State Unit
    restore_all [] = pure tt
    restore_all (o ∷ opts) = do set_conf_opt o.section o.option o.value; restore_all opts

    -- `config_options` up to its `yield`, and behind it.
    unfoldable pub enter_options : List ConfOpt → Action W.State (List ConfOpt)
    enter_options opts = do initial_values ← set_all opts; restart; pure initial_values

    unfoldable pub leave_options : List ConfOpt → Action W.State Unit
    leave_options initial_values = do restore_all initial_values; restart

    module _ {B : Type 0} where
      unfoldable pub config_options : List ConfOpt → ContextManager W.State Unit B
      config_options opts body = do
        initial_values ← enter_options opts
        try_finally (body tt) (leave_options initial_values)

      unfoldable pub stopped : ContextManager W.State Unit B
      stopped body = do stop; try_finally (body tt) start

    -- `hardware.parse_cpu_spec(value)` unless the value is None or empty
    abbrev pub cpus_of : Option Text → Result (List ℤ)
    cpus_of none = ok []
    cpus_of (some []) = ok []
    cpus_of (some (c ∷ t)) = parse_cpu_spec (c ∷ t)

    abbrev pub or_get : Option Text → Text → Text → Action W.State (Option Text)
    or_get none section option = get_conf_opt section option
    or_get (some value) section option = pure (some value)

    unfoldable pub get_cpu_shared_set : Action W.State (List ℤ)
    get_cpu_shared_set = do
      shared_set ← get_conf_opt (codes "compute") (codes "cpu_shared_set")
      from_result (cpus_of shared_set)

    unfoldable pub get_cpu_dedicated_set : Action W.State (List ℤ)
    get_cpu_dedicated_set = do
      found ← get_conf_opt (codes "compute") (codes "cpu_dedicated_set")
      dedicated_set ← or_get found (codes "DEFAULT") (codes "vcpu_pin_set")
      from_result (cpus_of dedicated_set)
