-- ===== src/Hardware/Pci.antt =====
-- `get_pci_address` and `get_pci_address_from_xml_device` of hardware.py.
use whitebox_tempest_plugin.Prelude.{
  ◌≡◌, refl, true, ◌&&◌, not, [], ◌∷◌, ◌++◌, none, some, arith, eqb, all, all-append, if◌then◌else◌,
}
use whitebox_tempest_plugin.Exceptions.{Result, ok, err, attribute_error, ◌>>=◌}
use whitebox_tempest_plugin.Python.Equality.{text_instance}
use whitebox_tempest_plugin.Python.Dict.{Dict, lookup}
use whitebox_tempest_plugin.Python.Set.{contains}
use whitebox_tempest_plugin.Python.Text.{Text, text_eq, codes, split, split_once}
use whitebox_tempest_plugin.Python.Text.Laws.{
  lacks, text_eq_iff, split-append, split_of_lacks, split_once-append,
}

unfoldable pub get_pci_address : Text → Text → Text → Text → Text
get_pci_address domain bus slot func = domain ++ (b':' ∷ (bus ++ (b':' ∷ (slot ++ (b'.' ∷ func)))))

-- `text.replace('0x', '')`
unfoldable pub remove_0x : Text → Text
remove_0x [] = []
remove_0x (c ∷ []) = c ∷ []
remove_0x (c ∷ d ∷ s) =
    let skipped = remove_0x s in
    let kept = c ∷ remove_0x (d ∷ s) in if eqb c b'0' && eqb d b'x' then skipped else kept

-- `element.get(name).replace('0x', '')`: None has no such method.
unfoldable pub hex_attribute : Dict Text Text → Text → Result Text
hex_attribute element name = elim (lookup name element) [
  | none ↦ err attribute_error
  | some v ↦ ok (remove_0x v)
]

unfoldable pub get_pci_address_from_xml_device : Dict Text Text → Result Text
get_pci_address_from_xml_device pci_addr_element = do
  domain ← hex_attribute pci_addr_element (codes "domain")
  bus ← hex_attribute pci_addr_element (codes "bus")
  slot ← hex_attribute pci_addr_element (codes "slot")
  func ← hex_attribute pci_addr_element (codes "function")
  ok (get_pci_address domain bus slot func)

-- An address of parts that hold neither a colon nor a dot is cut into these parts again, at the
-- colons and then at the dot.
pub split-get_pci_address :
    (domain bus slot func : Text)
    → all (lacks b':') (domain ∷ bus ∷ slot ∷ func ∷ []) ≡ true
    → lacks b'.' slot ≡ true
    → (split b':' (get_pci_address domain bus slot func)
        ≡ domain ∷ bus ∷ (slot ++ (b'.' ∷ func)) ∷ [])
      × (split_once b'.' (slot ++ (b'.' ∷ func)) ≡ some (slot, func))
unfolding get_pci_address
split-get_pci_address domain bus slot func h dot = (
  rw
      (
        split-append b':' domain _ (ground arith),
        split-append b':' bus _ (ground arith),
        split_of_lacks b':' (slot ++ (b'.' ∷ func))
            (all-append (λ c. not (eqb c b':')) slot (b'.' ∷ func) (ground arith) (ground arith)),
      )
      refl,
  split_once-append b'.' slot func dot,
)

remove_0x_of_lacks : (s : Text) → lacks b'x' s ≡ true → remove_0x s ≡ s
unfolding remove_0x
remove_0x_of_lacks [] h = refl
remove_0x_of_lacks (c ∷ []) h = refl
remove_0x_of_lacks (c ∷ d ∷ s) h = ground (arith, remove_0x_of_lacks (d ∷ s))

abbrev hex : Text → Text
hex s = b'0' ∷ b'x' ∷ s

remove_0x-hex : (s : Text) → lacks b'x' s ≡ true → remove_0x (hex s) ≡ s
unfolding remove_0x
remove_0x-hex s h = remove_0x_of_lacks s h

hex_attribute-hex :
    (element : Dict Text Text) (name s : Text)
    → lookup name element ≡ some (hex s)
    → lacks b'x' s ≡ true
    → hex_attribute element name ≡ ok s
unfolding hex_attribute
hex_attribute-hex element name s e h = ground (arith, remove_0x-hex s h)

-- The element that libvirt writes for an address.
unfoldable pub address_element : Text → Text → Text → Text → Dict Text Text
address_element domain bus slot func =
    (codes "domain", hex domain)
    ∷ (codes "bus", hex bus)
    ∷ (codes "slot", hex slot)
    ∷ (codes "function", hex func)
    ∷ []

-- The address in an element with four hexadecimal attributes, each with its prefix 0x, is the
-- address of the four numbers without their prefixes.
pub get_pci_address_from_xml_device-address_element :
    (domain bus slot func : Text)
    → all (lacks b'x') (domain ∷ bus ∷ slot ∷ func ∷ []) ≡ true
    → get_pci_address_from_xml_device (address_element domain bus slot func)
      ≡ ok (get_pci_address domain bus slot func)
unfolding get_pci_address_from_xml_device
get_pci_address_from_xml_device-address_element domain bus slot func h =
    let e = address_element domain bus slot func in
    rw
      (
        hex_attribute-hex e (codes "domain") domain (unfold address_element lookup text_eq in refl)
            (ground arith),
        hex_attribute-hex e (codes "bus") bus (unfold address_element lookup text_eq in refl)
            (ground arith),
        hex_attribute-hex e (codes "slot") slot (unfold address_element lookup text_eq in refl)
            (ground arith),
        hex_attribute-hex e (codes "function") func (unfold address_element lookup text_eq in refl)
            (ground arith),
      )
      refl

-- An element that lacks one of the four attributes raises AttributeError.
pub get_pci_address_from_xml_device_raises :
    (element : Dict Text Text) (name : Text)
    → contains (codes "domain" ∷ codes "bus" ∷ codes "slot" ∷ codes "function" ∷ []) name ≡ true
    → lookup name element ≡ none
    → get_pci_address_from_xml_device element ≡ err attribute_error
unfolding get_pci_address_from_xml_device hex_attribute contains
get_pci_address_from_xml_device_raises element name m h = ground (
  arith,
  text_eq_iff name (codes "domain"),
  text_eq_iff name (codes "bus"),
  text_eq_iff name (codes "slot"),
  text_eq_iff name (codes "function"),
)
