-- ===== src/Numa/Helper/Sets.antt =====
-- What the methods of the NUMA helper return, for the XML that libvirt reports.
use whitebox_tempest_plugin.Prelude.{◌≡◌, true, List, [], map}
use whitebox_tempest_plugin.Prelude.Int.{ℤ}
use whitebox_tempest_plugin.Config.{Conf}
use whitebox_tempest_plugin.Exceptions.{ok}
use whitebox_tempest_plugin.Exceptions.Action.{resume_returned}
use whitebox_tempest_plugin.Python.Equality.{int_eq}
use whitebox_tempest_plugin.Python.Set.{contains}
use whitebox_tempest_plugin.Python.Text.{Text, codes}
use whitebox_tempest_plugin.Numa.Helper.{
  get_server_xml, get_pinning_as_set, get_server_emulator_threads, vcpu_path,
  get_host_pcpus_for_guest_vcpu,
}
use whitebox_tempest_plugin.Numa.Pins.Union.{
  some_pin, some_vcpu, contains-add_pins, parse_joined_sound,
}
use whitebox_tempest_plugin.Utils.{Machine}
use whitebox_tempest_plugin.World.{World}

module _ (W : World) (conf : Conf) (server_id : Text) (m : Machine W) where
  -- If the pinning of a server is returned, its XML was read, and the set has exactly the CPUs that
  -- some vcpupin element of the XML lists.
  pub contains-get_pinning_as_set :
      (s : List ℤ)
      → (get_pinning_as_set W conf server_id m).0 ≡ ok s
      → (root : W.Xml) × ((get_server_xml W conf server_id m).0 ≡ ok root)
        × ((x : ℤ) → contains s x ≡ some_pin (W.findall root (codes "./cputune/vcpupin")) x)
  unfolding get_pinning_as_set contains
  contains-get_pinning_as_set s h =
      let xml = get_server_xml W conf server_id m in
      let (root, e, added) = resume_returned xml.0 _ xml.1 h in
      (root, e, λ x. contains-add_pins (W.findall root (codes "./cputune/vcpupin")) [] s x added)

  -- If the emulator threads of a server are returned, its XML was read, and the set has exactly the
  -- CPUs that some emulatorpin element of the XML lists.
  pub contains-get_server_emulator_threads :
      (s : List ℤ)
      → (get_server_emulator_threads W conf server_id m).0 ≡ ok s
      → (root : W.Xml) × ((get_server_xml W conf server_id m).0 ≡ ok root)
        × ((x : ℤ) → contains s x ≡ some_pin (W.findall root (codes "./cputune/emulatorpin")) x)
  unfolding get_server_emulator_threads contains
  contains-get_server_emulator_threads s h =
      let xml = get_server_xml W conf server_id m in
      let (root, e, added) = resume_returned xml.0 _ xml.1 h in
      (
        root,
        e,
        λ x. contains-add_pins (W.findall root (codes "./cputune/emulatorpin")) [] s x added,
      )

  -- A host CPU that is returned for a list of guest CPUs is listed by the vcpupin element of one of
  -- these guest CPUs: joining their specifications into one adds no CPU.
  pub get_host_pcpus_for_guest_vcpu_sound :
      (instance_cpu_ids s : List ℤ) (x : ℤ)
      → (get_host_pcpus_for_guest_vcpu W conf server_id instance_cpu_ids m).0 ≡ ok s
      → contains s x ≡ true
      → (root : W.Xml) × ((get_server_xml W conf server_id m).0 ≡ ok root)
        × (some_vcpu (map (λ cpu_id. W.find root (vcpu_path cpu_id)) instance_cpu_ids) x ≡ true)
  unfolding get_host_pcpus_for_guest_vcpu
  get_host_pcpus_for_guest_vcpu_sound instance_cpu_ids s x h inside =
      let xml = get_server_xml W conf server_id m in
      let (root, e, parsed) = resume_returned xml.0 _ xml.1 h in
      (root, e, parse_joined_sound _ s x parsed inside)
