-- ===== src/Numa/Helper.antt =====
-- The methods of `NUMAHelperMixin`.
pub mod Sets
use whitebox_tempest_plugin.Prelude.{List, [], ◌++◌, map}
use whitebox_tempest_plugin.Prelude.Int.{ℤ}
use whitebox_tempest_plugin.Config.{Conf}
use whitebox_tempest_plugin.Exceptions.Action.{Action, from_result, ◌>>=◌}
use whitebox_tempest_plugin.Python.Text.{Text, codes}
use whitebox_tempest_plugin.Python.Text.Number.{str_int}
use whitebox_tempest_plugin.Clients.Ssh.{libvirt_client, dumpxml}
use whitebox_tempest_plugin.Numa.Pins.{add_pins, parse_joined}
use whitebox_tempest_plugin.Utils.{Machine, on_world}
use whitebox_tempest_plugin.World.{World}

unfoldable pub vcpu_path : ℤ → Text
vcpu_path cpu_id = codes "./cputune/vcpupin[@vcpu='" ++ str_int cpu_id ++ codes "']"

module _ (W : World) (conf : Conf) where
  unfoldable pub get_server_xml : Text → Action (Machine W) W.Xml
  get_server_xml server_id = do
    server ← on_world (W.show_server server_id)
    virshxml ← libvirt_client W conf server.host
    xml ← on_world (dumpxml W conf virshxml server.instance_name)
    from_result (W.fromstring xml)

  unfoldable pub get_pinning_as_set : Text → Action (Machine W) (List ℤ)
  get_pinning_as_set server_id = do
    root ← get_server_xml server_id
    from_result (add_pins [] (W.findall root (codes "./cputune/vcpupin")))

  unfoldable pub get_server_emulator_threads : Text → Action (Machine W) (List ℤ)
  get_server_emulator_threads server_id = do
    root ← get_server_xml server_id
    from_result (add_pins [] (W.findall root (codes "./cputune/emulatorpin")))

  unfoldable pub get_host_pcpus_for_guest_vcpu : Text → List ℤ → Action (Machine W) (List ℤ)
  get_host_pcpus_for_guest_vcpu server_id instance_cpu_ids = do
    root ← get_server_xml server_id
    from_result (parse_joined (map (λ cpu_id. W.find root (vcpu_path cpu_id)) instance_cpu_ids))
