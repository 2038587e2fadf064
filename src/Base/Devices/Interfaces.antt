-- ===== src/Base/Devices/Interfaces.antt =====
-- What the search of a server's interface returns.
use whitebox_tempest_plugin.Prelude.{
  ◌≡◌, refl, pair_eq, ap, sym, ◌∙◌, map, ◌++◌, ◌&&◌, true, if◌then◌else◌, List, [], ◌∷◌, Option,
  some,
}
use whitebox_tempest_plugin.Config.{Conf}
use whitebox_tempest_plugin.Exceptions.{ok}
use whitebox_tempest_plugin.Exceptions.Action.{returned_through}
use whitebox_tempest_plugin.Python.Dict.{Dict, lookup}
use whitebox_tempest_plugin.Python.Equality.{text_instance}
use whitebox_tempest_plugin.Python.Text.{Text, codes, text_eq}
use whitebox_tempest_plugin.Python.Text.Laws.{lacks}
use whitebox_tempest_plugin.Base.Api.{Api, Attribute, word}
use whitebox_tempest_plugin.Base.Devices.{
  attribute, get_expected_xml_interface_type, interface_path, only_one, get_xml_interface_device,
}
use whitebox_tempest_plugin.Numa.Helper.{get_server_xml}
use whitebox_tempest_plugin.Utils.{Machine, on_world}
use whitebox_tempest_plugin.World.{World}

only_one_lem :
    (l : List (Dict Text Text)) (element : Dict Text Text)
    → only_one l ≡ ok element
    → l ≡ element ∷ []
only_one_lem [] element h = cc
only_one_lem (x ∷ []) element h = cc
only_one_lem (x ∷ y ∷ l) element h = cc

found_through :
    (W : World) (conf : Conf) (api : Api W.State) (server_id port_id : Text) (s t : Machine W)
    (element : Dict Text Text)
    → get_xml_interface_device W conf api server_id port_id s ≡ (ok element, t)
    → (port : Dict Text Attribute) × (interface_type : Option Text) × (mac : Attribute)
      × (root : W.Xml) × ((api.show_port port_id s.world).0 ≡ ok port)
      × (get_expected_xml_interface_type port ≡ ok interface_type)
      × (attribute (codes "mac_address") port ≡ ok mac)
      × ((u : Machine W) × (get_server_xml W conf server_id u ≡ (ok root, t)))
      × (W.findall root (interface_path interface_type (api.format mac)) ≡ element ∷ [])
unfolding get_xml_interface_device
found_through W conf api server_id port_id s t element h =
    let (port, e0, h0) = returned_through (api.show_port port_id s.world).0 _ _ _ _ h in
    let u = (on_world (api.show_port port_id) s).1 in
    let (interface_type, e1, h1) =
      returned_through (get_expected_xml_interface_type port) _ _ _ _ h0 in
    let m = get_server_xml W conf server_id u in
    let (root, e2, h2) = returned_through m.0 _ _ _ _ h1 in
    let (mac, e3, h3) = returned_through (attribute (codes "mac_address") port) _ _ _ _ h2 in
    let found = W.findall root (interface_path interface_type (api.format mac)) in
    (
      port,
      interface_type,
      mac,
      root,
      e0,
      e1,
      e3,
      (u, pair_eq e2 (ap (λ p. p.1) h3)),
      only_one_lem found element (ap (λ p. p.0) h3),
    )

-- An interface of a domain, as its XML has it: its type, its MAC address, and its attributes.
pub record Interface : Type 0 where
  pub kind : Text
  pub mac : Text
  pub attributes : Dict Text Text

abbrev pub matching : Text → Text → List Interface → List Interface
matching kind mac [] = []
matching kind mac (i ∷ l) =
    let rest = matching kind mac l in
    if text_eq i.kind kind && text_eq i.mac mac then i ∷ rest else rest

-- The predicates `[@type='...']` and `[@address='...']` of ElementTree: the path selects the interfaces
-- with the type and the MAC address, neither of which has a quote in it.
pub record SelectsInterfaces (W : World) (interfaces : W.Xml → List Interface) : Type 0 where
  pub selects :
      (root : W.Xml) (kind mac : Text)
      → lacks b'\'' kind ≡ true
      → lacks b'\'' mac ≡ true
      → W.findall root (
          codes "./devices/interface[@type='"
          ++ (kind ++ (codes "']/mac[@address='" ++ (mac ++ codes "'].."))))
        ≡ map (λ (i : Interface). i.attributes) (matching kind mac (interfaces root))

-- The type of the interface that a port with a vnic type has in the XML.
pub data InterfaceType : Text → Text → Type 0 where
  vdpa : InterfaceType (codes "vdpa") (codes "vdpa")
  direct : InterfaceType (codes "direct") (codes "hostdev")
  macvtap : InterfaceType (codes "macvtap") (codes "direct")

found_attribute :
    (key : Text) (port : Dict Text Attribute) (a : Attribute)
    → lookup key port ≡ some a
    → attribute key port ≡ ok a
found_attribute key port a h = rw (attribute, h) refl

expected_type :
    (port : Dict Text Attribute) (v kind : Text)
    → lookup (codes "binding:vnic_type") port ≡ some (word v)
    → InterfaceType v kind
    → get_expected_xml_interface_type port ≡ ok (some kind)
unfolding get_expected_xml_interface_type lookup text_eq
expected_type port v kind h vdpa =
    rw
      (get_expected_xml_interface_type, found_attribute (codes "binding:vnic_type") port (word v) h)
      refl
expected_type port v kind h direct =
    rw
      (get_expected_xml_interface_type, found_attribute (codes "binding:vnic_type") port (word v) h)
      refl
expected_type port v kind h macvtap =
    rw
      (get_expected_xml_interface_type, found_attribute (codes "binding:vnic_type") port (word v) h)
      refl

kind_lacks : (v kind : Text) → InterfaceType v kind → lacks b'\'' kind ≡ true
kind_lacks v kind vdpa = refl
kind_lacks v kind direct = refl
kind_lacks v kind macvtap = refl

ok_injective : {A : Type 0} {a b : A} → ok a ≡ ok b → a ≡ b
ok_injective h = cc

path_of :
    (W : World) (root : W.Xml) (interface_type : Option Text) (address kind mac : Text)
    → interface_type ≡ some kind
    → address ≡ mac
    → W.findall root (
        codes "./devices/interface[@type='"
        ++ (kind ++ (codes "']/mac[@address='" ++ (mac ++ codes "'].."))))
      ≡ W.findall root (interface_path interface_type address)
unfolding interface_path
path_of W root interface_type address kind mac e f = rw (e, f) refl

only_matching :
    (l : List Interface) (element : Dict Text Text)
    → map (λ (i : Interface). i.attributes) l ≡ element ∷ []
    → (i : Interface) × (l ≡ i ∷ []) × (element ≡ i.attributes)
only_matching [] element h = cc
only_matching (i ∷ []) element h = (i, refl, cc)
only_matching (i ∷ j ∷ l) element h = cc

-- Where findall selects interfaces by their type and MAC address, an interface that is returned for a
-- port of vnic type vdpa, direct or macvtap is the only one of the server's interfaces that has the
-- port's MAC address and the type vdpa, hostdev or direct, respectively; the address has no quote in it.
pub get_xml_interface_device-matching :
    (W : World) (conf : Conf) (api : Api W.State) (interfaces : W.Xml → List Interface)
    (F : SelectsInterfaces W interfaces) (server_id port_id : Text) (s t : Machine W)
    (element : Dict Text Text) (port : Dict Text Attribute) (vnic_type kind mac : Text)
    → (api.show_port port_id s.world).0 ≡ ok port
    → lookup (codes "binding:vnic_type") port ≡ some (word vnic_type)
    → InterfaceType vnic_type kind
    → lookup (codes "mac_address") port ≡ some (word mac)
    → api.format (word mac) ≡ mac
    → lacks b'\'' mac ≡ true
    → get_xml_interface_device W conf api server_id port_id s ≡ (ok element, t)
    → (root : W.Xml) × (u : Machine W) × (i : Interface) × (get_server_xml W conf server_id u
        ≡ (ok root, t))
      × (matching kind mac (interfaces root) ≡ i ∷ [])
      × (element ≡ i.attributes)
get_xml_interface_device-matching W conf api interfaces F server_id port_id s t element port
      vnic_type kind mac shown v k m f q h =
    let (port', interface_type, mac', root, e0, e1, e3, (u, got), found) =
      found_through W conf api server_id port_id s t element h in
    let same : port' ≡ port = ok_injective (sym e0 ∙ shown) in
    let typed : interface_type ≡ some kind =
      ok_injective (
        sym e1 ∙ ap get_expected_xml_interface_type same ∙ expected_type port vnic_type kind v k) in
    let address : mac' ≡ word mac = ok_injective (
      sym e3
      ∙ ap (attribute (codes "mac_address")) same
      ∙ found_attribute (codes "mac_address") port (word mac) m) in
    let selected =
      sym (F.selects root kind mac (kind_lacks vnic_type kind k) q)
      ∙ path_of W root interface_type (api.format mac') kind mac typed (ap api.format address ∙ f)
      ∙ found in
    let (i, one, is_i) = only_matching (matching kind mac (interfaces root)) element selected in
    (root, u, i, got, one, is_i)
