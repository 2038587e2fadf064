-- ===== src/Tests/Devices.antt =====
-- Reading block devices, an interface, and the binding of a port.
use whitebox_tempest_plugin.Prelude.{
  All, ◌++◌, some, none, ◌≡◌, refl, true, List, [], ◌∷◌, Option, none, map, all,
}
use whitebox_tempest_plugin.Exceptions.{ok}
use whitebox_tempest_plugin.Python.Dict.{Dict, lookup}
use whitebox_tempest_plugin.Python.Text.{Text, codes, has_part, split_once, text_eq, split}
use whitebox_tempest_plugin.Python.Equality.{text_instance}
use whitebox_tempest_plugin.Python.Text.Laws.{lacks, split_once-append}
use whitebox_tempest_plugin.Base.Api.{word, Attribute}
use whitebox_tempest_plugin.Base.Devices.{
  read_sources, PciDevice, Queries, get_expected_xml_interface_type, get_xml_interface_device,
  get_port_attribute, search_pci_devices, verify_devices, verify_neutron_port_binding,
}
use whitebox_tempest_plugin.Base.Devices.Sources.{
  Line, row, other, line_text, is_table, last_source, read_sources-last_source,
}
use whitebox_tempest_plugin.Base.Devices.Bound.{Bound}
use whitebox_tempest_plugin.Base.Devices.Bindings.{verify_neutron_port_binding-All}
use whitebox_tempest_plugin.Base.Devices.Interfaces.{
  Interface, matching, SelectsInterfaces, direct, get_xml_interface_device-matching,
}
use whitebox_tempest_plugin.Clients.Database.{cursor, on_connection}
use whitebox_tempest_plugin.Clients.Ssh.{
  libvirt_client, ssh_client, service_section, dumpxml, execute,
}
use whitebox_tempest_plugin.Clients.Database.Release.{Ledger}
use whitebox_tempest_plugin.Numa.Helper.{get_server_xml}
use whitebox_tempest_plugin.Utils.{
  Machine, get_host_details, get_all_hosts_details, get_ctlplane_address,
}
use whitebox_tempest_plugin.World.{World}
use whitebox_tempest_plugin.Tests.Host.{host, conf, reply}
use whitebox_tempest_plugin.Tests.Database.{driver, idle}
use whitebox_tempest_plugin.Tests.Idle.{port, idle_api}
use whitebox_tempest_plugin.Tests.Waiters.{box}

-- What virsh prints for two disks.
abbrev table : List Line
table =
    other (codes " Target   Source")
    ∷ other (codes "------------------------")
    ∷ row 1 5 0 (codes "vda") (codes "/dev/sdb")
    ∷ row 1 5 0 (codes "vdb") (codes "/var/disk")
    ∷ other []
    ∷ []

is_a_table : all (is_table (codes "vdb")) table ≡ true
unfolding has_part
is_a_table = refl

read_sources-last_source_example :
    read_sources (codes "vdb") none (map line_text table)
    ≡ ok (last_source (codes "vdb") none table)
read_sources-last_source_example = read_sources-last_source (codes "vdb") none table is_a_table

abbrev device : PciDevice
device = record {
  address = codes "0000:04:00.1";
  status = codes "allocated";
  dev_type = codes "type-VF";
}

abbrev queries : Queries driver
queries = record {
  execute_query = λ c query s. (ok tt, s);
  fetch_devices = λ c s. (ok (device ∷ []), s);
  fetch_counts = λ c s. (ok (1 ∷ []), s);
}

bound :
    verify_neutron_port_binding driver queries conf idle_api (codes "s") (codes "p") idle
    ≡ (ok tt, idle)
unfolding verify_neutron_port_binding get_port_attribute search_pci_devices cursor verify_devices
    text_eq lookup on_connection
bound = refl

verify_neutron_port_binding-All_example :
    (binding_profile : Option Attribute) × (pci_info : List PciDevice) × (vnic_type : Option
      Attribute)
    × (u : Ledger) × (v : Ledger) × (get_port_attribute driver queries conf idle_api
          (codes "p")
          (codes "binding:profile")
          idle
        ≡ (ok binding_profile, u))
    × (search_pci_devices driver queries conf (codes "instance_uuid") (codes "s") u
        ≡ (ok pci_info, v))
    × (get_port_attribute driver queries conf idle_api (codes "p") (codes "binding:vnic_type") v
        ≡ (ok vnic_type, idle))
    × All (Bound binding_profile vnic_type) pci_info
verify_neutron_port_binding-All_example =
    verify_neutron_port_binding-All driver queries conf idle_api (codes "s") (codes "p") idle idle
      bound

-- A host whose XML has one interface, which findall selects by the path of its type and address.
abbrev element : Dict Text Text
element = (codes "type", codes "hostdev") ∷ []

abbrev its_interface : Interface
its_interface = record {
  kind = codes "hostdev";
  mac = codes "fa:16:3e:00:00:01";
  attributes = element;
}

-- The text up to the next quote, and the text behind it.
up_to_quote : Text → Text × Text
up_to_quote path = elim (split_once b'\'' path) [ none ↦ (path, []) | some parts ↦ parts ]

abbrev selected : Text → List (Dict Text Text)
selected path =
    let kind = up_to_quote (up_to_quote path).1 in
    let mac = up_to_quote (up_to_quote kind.1).1 in
    map (λ (i : Interface). i.attributes) (matching kind.0 mac.0 (its_interface ∷ []))

abbrev one_interface : World
one_interface = record host { findall = λ xml. selected }

up_to_quote_lem : (s t : Text) → lacks b'\'' s ≡ true → up_to_quote (s ++ (b'\'' ∷ t)) ≡ (s, t)
unfolding up_to_quote
up_to_quote_lem s t h = rw (up_to_quote, split_once-append b'\'' s t h) refl

selected_by :
    (path : Text) {before between kind mac a b c d : Text}
    → up_to_quote path ≡ (before, a)
    → up_to_quote a ≡ (kind, b)
    → up_to_quote b ≡ (between, c)
    → up_to_quote c ≡ (mac, d)
    → selected path ≡ map (λ (i : Interface). i.attributes) (matching kind mac (its_interface ∷ []))
selected_by path e f g h = rw (e, f, g, h) refl

selected_lem :
    (kind mac : Text)
    → lacks b'\'' kind ≡ true
    → lacks b'\'' mac ≡ true
    → selected (
        codes "./devices/interface[@type='"
        ++ (kind ++ (codes "']/mac[@address='" ++ (mac ++ codes "'].."))))
      ≡ map (λ (i : Interface). i.attributes) (matching kind mac (its_interface ∷ []))
selected_lem kind mac h k =
    let behind = codes "]/mac[@address='" ++ (mac ++ codes "']..") in
    selected_by _
      (up_to_quote_lem (codes "./devices/interface[@type=") (kind ++ (b'\'' ∷ behind)) refl)
      (up_to_quote_lem kind behind h)
      (up_to_quote_lem (codes "]/mac[@address=") (mac ++ codes "']..") refl)
      (up_to_quote_lem mac (codes "]..") k)

one_interface-SelectsInterfaces : SelectsInterfaces one_interface (λ root. its_interface ∷ [])
one_interface-SelectsInterfaces = record { selects = λ root. selected_lem }

abbrev machine : Machine one_interface
machine = record { nodes = none; world = box }

abbrev machine' : Machine one_interface
machine' = (get_xml_interface_device one_interface conf idle_api (codes "s") (codes "p") machine).1

found_one :
    get_xml_interface_device one_interface conf idle_api (codes "s") (codes "p") machine
    ≡ (ok element, machine')
unfolding get_xml_interface_device get_server_xml text_eq lookup get_expected_xml_interface_type
    libvirt_client ssh_client get_host_details get_all_hosts_details get_ctlplane_address
    service_section dumpxml execute reply split split_once up_to_quote
found_one = refl

port_type : lookup (codes "binding:vnic_type") port ≡ some (word (codes "direct"))
unfolding lookup text_eq
port_type = refl

port_mac : lookup (codes "mac_address") port ≡ some (word (codes "fa:16:3e:00:00:01"))
unfolding lookup text_eq
port_mac = refl

get_xml_interface_device-matching_example :
    (root : one_interface.Xml) × (u : Machine one_interface) × (i : Interface) × (get_server_xml
        one_interface conf
        (codes "s")
        u
      ≡ (ok root, machine'))
    × (matching (codes "hostdev") (codes "fa:16:3e:00:00:01") (its_interface ∷ []) ≡ i ∷ [])
    × (element ≡ i.attributes)
get_xml_interface_device-matching_example =
    get_xml_interface_device-matching one_interface conf idle_api (λ root. its_interface ∷ [])
      one_interface-SelectsInterfaces (codes "s") (codes "p") machine machine' element port
      (codes "direct") (codes "hostdev") (codes "fa:16:3e:00:00:01") refl port_type direct port_mac
      refl refl found_one
