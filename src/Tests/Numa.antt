-- ===== src/Tests/Numa.antt =====
-- The pins of the server of the tests.
use whitebox_tempest_plugin.Prelude.{◌≡◌, refl, true, [], ◌∷◌, some, map}
use whitebox_tempest_plugin.Prelude.Int.{ℤ, pos}
use whitebox_tempest_plugin.Exceptions.{ok}
use whitebox_tempest_plugin.Python.Equality.{int_eq}
use whitebox_tempest_plugin.Python.Set.{contains, add, union, difference}
use whitebox_tempest_plugin.Python.Range.{range}
use whitebox_tempest_plugin.Python.Text.Number.{int}
use whitebox_tempest_plugin.Python.Dict.{lookup}
use whitebox_tempest_plugin.Hardware.CpuSpec.{apply_rule, parse_cpu_spec}
use whitebox_tempest_plugin.Clients.Ssh.{
  libvirt_client, ssh_client, service_section, dumpxml, execute,
}
use whitebox_tempest_plugin.Numa.Pins.{add_pins, pin_cpus, parse_joined}
use whitebox_tempest_plugin.Python.Text.{codes, text_eq, split, split_once, strip, join}
use whitebox_tempest_plugin.Numa.Helper.{
  get_server_xml, get_pinning_as_set, get_server_emulator_threads, vcpu_path,
  get_host_pcpus_for_guest_vcpu,
}
use whitebox_tempest_plugin.Numa.Helper.Sets.{
  contains-get_pinning_as_set, get_host_pcpus_for_guest_vcpu_sound,
}
use whitebox_tempest_plugin.Numa.Pins.Union.{some_pin, some_vcpu}
use whitebox_tempest_plugin.Utils.{
  Machine, get_host_details, get_all_hosts_details, get_ctlplane_address,
}
use whitebox_tempest_plugin.Tests.Host.{host, reply, conf, inventory}
use whitebox_tempest_plugin.Tests.Waiters.{box}

abbrev machine : Machine host
machine = record { nodes = some inventory; world = box }

pinning_run :
    (get_pinning_as_set host conf (codes "server") machine).0 ≡ ok (pos 6 ∷ pos 4 ∷ pos 5 ∷ [])
unfolding get_pinning_as_set add_pins get_server_xml libvirt_client ssh_client get_host_details
    get_all_hosts_details get_ctlplane_address service_section lookup text_eq dumpxml execute split
    reply pin_cpus parse_cpu_spec apply_rule strip split_once int difference union add contains
    range
pinning_run = refl

emulator_run :
    (get_server_emulator_threads host conf (codes "server") machine).0
    ≡ ok (pos 6 ∷ pos 4 ∷ pos 5 ∷ [])
unfolding get_server_emulator_threads add_pins get_server_xml libvirt_client ssh_client
    get_host_details get_all_hosts_details get_ctlplane_address service_section lookup text_eq
    dumpxml execute split reply pin_cpus parse_cpu_spec apply_rule strip split_once int difference
    union add contains range
emulator_run = refl

guest_run :
    (get_host_pcpus_for_guest_vcpu host conf (codes "server") (pos 0 ∷ []) machine).0
    ≡ ok (pos 5 ∷ pos 4 ∷ [])
unfolding get_host_pcpus_for_guest_vcpu parse_joined join vcpu_path get_server_xml libvirt_client
    ssh_client get_host_details get_all_hosts_details get_ctlplane_address service_section lookup
    text_eq dumpxml execute split reply pin_cpus parse_cpu_spec apply_rule strip split_once int
    difference union add contains range
guest_run = refl

has_4 : contains (pos 5 ∷ pos 4 ∷ []) (pos 4) ≡ true
unfolding contains
has_4 = refl

contains-get_pinning_as_set_example :
    (root : host.Xml) × ((get_server_xml host conf (codes "server") machine).0 ≡ ok root)
    × ((x : ℤ)
        → contains (pos 6 ∷ pos 4 ∷ pos 5 ∷ []) x
          ≡ some_pin (host.findall root (codes "./cputune/vcpupin")) x)
contains-get_pinning_as_set_example =
    contains-get_pinning_as_set host conf (codes "server") machine (pos 6 ∷ pos 4 ∷ pos 5 ∷ [])
      pinning_run

get_host_pcpus_for_guest_vcpu_sound_example :
    (root : host.Xml) × ((get_server_xml host conf (codes "server") machine).0 ≡ ok root)
    × (some_vcpu (map (λ cpu_id. host.find root (vcpu_path cpu_id)) (pos 0 ∷ [])) (pos 4) ≡ true)
get_host_pcpus_for_guest_vcpu_sound_example =
    get_host_pcpus_for_guest_vcpu_sound host conf (codes "server") machine (pos 0 ∷ [])
      (pos 5 ∷ pos 4 ∷ []) (pos 4) guest_run has_4
