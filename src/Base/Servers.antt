-- ===== src/Base/Servers.antt =====
-- The helpers of base.py that act on a server: reboot, live migration, evacuation, and the shutdown
-- of its domain.
pub mod Moves
pub mod Shutdown
use whitebox_tempest_plugin.Prelude.{
  ℕ, zero, suc, ◌+◌, ◌-◌, Bool, true, false, not, List, [], ◌∷◌, ◌++◌, Option, none, some, leb,
  if◌then◌else◌,
}
use whitebox_tempest_plugin.Config.{Conf}
use whitebox_tempest_plugin.Exceptions.{Result, ok, err, timeout_exception, no_fuel}
use whitebox_tempest_plugin.Exceptions.Action.{Action, pure, from_result, assert_that, ◌>>=◌, ◌>>◌}
use whitebox_tempest_plugin.Python.Dict.{Dict}
use whitebox_tempest_plugin.Python.Text.{Text, codes, text_eq, has_part}
use whitebox_tempest_plugin.Base.Api.{Api}
use whitebox_tempest_plugin.Clients.Ssh.{
  SshClient, ssh_client, execute, LibvirtClient, libvirt_client, secret_dumpxml,
}
use whitebox_tempest_plugin.Utils.{Machine, on_world}
use whitebox_tempest_plugin.Waiters.{ServicesClient, settle, wait_for_server_migration_complete}
use whitebox_tempest_plugin.World.{World}

-- What `live_migrate` asserts of the hosts: an empty target counts as none.
abbrev pub has_landed : Option Text → Text → Text → Bool
has_landed (some (c ∷ target_host)) orig_host host = text_eq (c ∷ target_host) host
has_landed _ orig_host host = not (text_eq orig_host host)

module _ {S : Type 0} (api : Api S) where
  unfoldable pub reboot_server : Text → Text → Action S Unit
  reboot_server server_id type = do
    api.reboot_server server_id type
    api.wait_for_server_status server_id (codes "ACTIVE")

  unfoldable pub live_migrate : Text → Text → Option Text → Action S Unit
  live_migrate server_id state target_host = do
    orig_host ← api.get_host_for_server server_id
    api.live_migrate_server server_id target_host
    api.wait_for_server_status server_id state
    host ← api.get_host_for_server server_id
    assert_that (has_landed target_host orig_host host)

module _ (W : World) where
  unfoldable pub evacuate_server :
      Api W.State → ServicesClient → Text → Dict Text Text → Action W.State Unit
  evacuate_server api client server_id kwargs = do
    api.evacuate_server server_id kwargs
    wait_for_server_migration_complete W client

  module _ (conf : Conf) where
    unfoldable pub get_secret_xml : Text → Text → Action (Machine W) W.Xml
    get_secret_xml secret_uuid host = do
      virshxml ← libvirt_client W conf host
      xml ← on_world (secret_dumpxml W conf virshxml secret_uuid)
      from_result (W.fromstring xml)

    -- `domain_name in domains`: the wait goes on, or it is over.
    unfoldable pub domain_check : SshClient → Text → Action W.State (Option Unit)
    domain_check client domain_name = do
      domains ← execute W conf client (codes "virsh list --name") none true
      pure (if has_part domains domain_name then none else some tt)

    -- The loop polls without a sleep: `continue` skips it. So the rounds that it takes depend on how
    -- long a poll takes, and the fuel is an argument.
    unfoldable pub shutdown_loop : SshClient → Text → ℕ → ℕ → Action W.State Unit
    unfolding domain_check
    shutdown_loop client domain_name zero start_time s = (err no_fuel, s)
    shutdown_loop client domain_name (suc fuel) start_time s =
        let polled = domain_check client domain_name s in
        let again = shutdown_loop client domain_name fuel start_time polled.1 in
        if leb (W.clock s - start_time) conf.compute.build_timeout
        then settle polled.0 polled.1 again
        else (err timeout_exception, s)

    unfoldable pub wait_for_domain_shutdown : ℕ → SshClient → Text → Action W.State Unit
    wait_for_domain_shutdown fuel client domain_name s =
        shutdown_loop client domain_name fuel (W.clock s) s

    unfoldable pub shutdown_server_domain : ℕ → Text → Text → Action (Machine W) Unit
    shutdown_server_domain fuel server_id host = do
      server ← on_world (W.show_server server_id)
      client ← ssh_client W conf host
      on_world (execute W conf client (codes "virsh shutdown " ++ server.instance_name) none true)
      on_world (wait_for_domain_shutdown fuel client server.instance_name)
