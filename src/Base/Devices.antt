-- ===== src/Base/Devices.antt =====
-- The helpers of base.py that read a server's block devices and interfaces, and its PCI devices.
pub mod Sources
pub mod Bound
pub mod Bindings
pub mod Interfaces
use whitebox_tempest_plugin.Prelude.{
  ℕ, Bool, true, false, ◌||◌, List, [], ◌∷◌, ◌++◌, Option, none, some, if◌then◌else◌,
}
use whitebox_tempest_plugin.Config.{Conf}
use whitebox_tempest_plugin.Exceptions.{
  Result, ok, err, key_error, index_error, type_error, value_error, assertion_error,
}
use whitebox_tempest_plugin.Exceptions.Action.{
  Action, pure, raise, from_result, assert_that, ◌>>=◌, ◌>>◌,
}
use whitebox_tempest_plugin.Python.Dict.{Dict, lookup}
use whitebox_tempest_plugin.Python.Equality.{text_instance}
use whitebox_tempest_plugin.Python.Text.{Text, codes, text_eq, has_part, split_space, splitlines}
use whitebox_tempest_plugin.Base.Api.{Api, Attribute, word, profile}
use whitebox_tempest_plugin.Clients.Database.{Driver, database_client, cursor}
use whitebox_tempest_plugin.Clients.Ssh.{libvirt_client, domblklist}
use whitebox_tempest_plugin.Numa.Helper.{get_server_xml}
use whitebox_tempest_plugin.Utils.{Machine, on_world}
use whitebox_tempest_plugin.World.{World}

-- `source` behind a line, from the words of a line that has the name.
abbrev pub next_source : Bool → List Text → Option Text → Result (Option Text)
next_source false words source = ok source
next_source true (target ∷ source' ∷ []) source = ok (some source')
next_source true _ source = err value_error

-- The loop over the lines of `virsh domblklist`, with the `source` that it has so far.
unfoldable pub read_sources : Text → Option Text → List Text → Result (Option Text)
read_sources device_name source [] = ok source
read_sources device_name source (line ∷ lines) =
    elim (next_source (has_part line device_name) (split_space line) source) [
      | err e ↦ err e
      | ok source' ↦ read_sources device_name source' lines
    ]

-- `port[key]`
abbrev pub attribute : Text → Dict Text Attribute → Result Attribute
attribute key port = elim (lookup key port) [ none ↦ err key_error | some a ↦ ok a ]

abbrev pub vnic_mapping : Dict Text Text
vnic_mapping =
    (codes "vdpa", codes "vdpa")
    ∷ (codes "direct", codes "hostdev")
    ∷ (codes "macvtap", codes "direct")
    ∷ []

-- `VNIC_MAPPING_DICT.get(vnic_type)`; a dict is no key of a dict.
abbrev pub mapped : Attribute → Result (Option Text)
mapped (word vnic_type) = ok (lookup vnic_type vnic_mapping)
mapped (profile d) = err type_error

unfoldable pub get_expected_xml_interface_type : Dict Text Attribute → Result (Option Text)
get_expected_xml_interface_type port = elim (attribute (codes "binding:vnic_type") port) [
  | err e ↦ err e
  | ok vnic_type ↦ mapped vnic_type
]

-- `'%s' % name`
abbrev pub format_name : Option Text → Text
format_name none = codes "None"
format_name (some name) = name

unfoldable pub interface_path : Option Text → Text → Text
interface_path interface_type mac =
    codes "./devices/interface[@type='"
    ++ (format_name interface_type ++ (codes "']/mac[@address='" ++ (mac ++ codes "']..")))

-- `assertEqual(len(list), 1)` and `list[0]`
abbrev pub only_one : List (Dict Text Text) → Result (Dict Text Text)
only_one (element ∷ []) = ok element
only_one _ = err assertion_error

module _ (W : World) (conf : Conf) (api : Api W.State) where
  unfoldable pub get_server_blockdevice_path : Text → Text → Action (Machine W) (Option Text)
  unfolding read_sources
  get_server_blockdevice_path server_id device_name = do
    host ← on_world (api.get_host_for_server server_id)
    virshxml ← libvirt_client W conf host
    blklist ← on_world (domblklist W conf virshxml server_id)
    from_result (read_sources device_name none (splitlines blklist))

  unfoldable pub get_xml_interface_device : Text → Text → Action (Machine W) (Dict Text Text)
  unfolding get_expected_xml_interface_type interface_path
  get_xml_interface_device server_id port_id = do
    port_info ← on_world (api.show_port port_id)
    interface_type ← from_result (get_expected_xml_interface_type port_info)
    root ← get_server_xml W conf server_id
    mac ← from_result (attribute (codes "mac_address") port_info)
    from_result (only_one (W.findall root (interface_path interface_type (api.format mac))))

  unfoldable pub get_hugepage_xml_element : Text → Action (Machine W) (List (Dict Text Text))
  get_hugepage_xml_element server_id = do
    root ← get_server_xml W conf server_id
    pure (W.findall root (codes ".memoryBacking/hugepages/page"))

-- A row of pci_devices, in the columns that the code selects.
pub record PciDevice : Type 0 where
  pub address : Text
  pub status : Text
  pub dev_type : Text

-- `binding_profile['pci_slot']`
abbrev pub pci_slot : Option Attribute → Result Text
pci_slot (some (profile d)) = elim (lookup (codes "pci_slot") d) [
  | none ↦ err key_error
  | some slot ↦ ok slot
]
pci_slot _ = err type_error

-- `vnic_type == name`
abbrev pub is_word : Option Attribute → Text → Bool
is_word (some (word w)) name = text_eq w name
is_word _ name = false

-- The types of device that a port of a vnic type can be bound to.
abbrev pub has_dev_type : Option Attribute → Text → Bool
has_dev_type vnic_type dev_type =
    if is_word vnic_type (codes "vdpa")
    then text_eq dev_type (codes "vdpa")
    else if is_word vnic_type (codes "direct-physical")
    then text_eq dev_type (codes "type-PF")
    else text_eq dev_type (codes "type-VF") || text_eq dev_type (codes "type-PCI")

module _ {S : Type 0} where
  -- The assertions on a device, in turn.
  unfoldable pub verify_device : Option Attribute → Option Attribute → PciDevice → Action S Unit
  verify_device binding_profile vnic_type device = do
    assert_that (text_eq (codes "allocated") device.status)
    slot ← from_result (pci_slot binding_profile)
    assert_that (text_eq device.address slot)
    assert_that (has_dev_type vnic_type device.dev_type)

  unfoldable pub verify_devices :
      Option Attribute → Option Attribute → List PciDevice → Action S Unit
  unfolding verify_device
  verify_devices binding_profile vnic_type [] = pure tt
  verify_devices binding_profile vnic_type (device ∷ pci_info) = do
    verify_device binding_profile vnic_type device
    verify_devices binding_profile vnic_type pci_info

-- The cursor's calls: `execute`, and `fetchall` of the rows of a query on the columns of a device or
-- on a count.
pub record Queries {S : Type 0} (D : Driver S) : Type 0 where
  pub execute_query : D.Cursor → Text → Action S Unit
  pub fetch_devices : D.Cursor → Action S (List PciDevice)
  pub fetch_counts : D.Cursor → Action S (List ℕ)

unfoldable pub devices_query : Text → Text → Text
devices_query column value =
    codes "SELECT address,status,dev_type FROM pci_devices WHERE "
    ++ column
    ++ codes " = \""
    ++ value
    ++ codes "\""

-- `if pci_address`
abbrev pub and_address : Option Text → Text
and_address (some (c ∷ address)) = codes " AND address = \"" ++ (c ∷ address) ++ codes "\""
and_address _ = []

unfoldable pub count_query : Text → Option Text → Text
count_query status pci_address =
    codes "select COUNT(*) from pci_devices WHERE status = \""
    ++ status
    ++ codes "\""
    ++ and_address pci_address

-- `data[0]['COUNT(*)']`
abbrev pub first_count : List ℕ → Result ℕ
first_count [] = err index_error
first_count (n ∷ data') = ok n

module _ {S : Type 0} (D : Driver S) (q : Queries D) (conf : Conf) where
  unfoldable pub search_pci_devices : Text → Text → Action S (List PciDevice)
  unfolding devices_query
  search_pci_devices column value =
      cursor D conf (database_client conf) conf.whitebox_database.nova_cell1_db_name false
        (λ c. do q.execute_query c (devices_query column value); q.fetch_devices c)

  unfoldable pub get_pci_status_count : Text → Option Text → Action S ℕ
  unfolding count_query
  get_pci_status_count status pci_address = do
    data' ←
        cursor D conf (database_client conf) conf.whitebox_database.nova_cell1_db_name false
          (λ c. do q.execute_query c (count_query status pci_address); q.fetch_counts c)
    from_result (first_count data')

  module _ (api : Api S) where
    -- `port.get(attribute)`
    unfoldable pub get_port_attribute : Text → Text → Action S (Option Attribute)
    get_port_attribute port_id key = do port ← api.show_port port_id; pure (lookup key port)

    unfoldable pub verify_neutron_port_binding : Text → Text → Action S Unit
    unfolding get_port_attribute search_pci_devices verify_devices
    verify_neutron_port_binding server_id port_id = do
      binding_profile ← get_port_attribute port_id (codes "binding:profile")
      pci_info ← search_pci_devices (codes "instance_uuid") server_id
      vnic_type ← get_port_attribute port_id (codes "binding:vnic_type")
      verify_devices binding_profile vnic_type pci_info
