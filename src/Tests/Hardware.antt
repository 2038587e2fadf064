-- ===== src/Tests/Hardware.antt =====
-- CPU specifications and PCI addresses.
use whitebox_tempest_plugin.Prelude.{◌≡◌, refl, true, ◌&&◌, not, List, [], ◌∷◌, none, some}
use whitebox_tempest_plugin.Prelude.Int.{ℤ, pos, leb_ℤ}
use whitebox_tempest_plugin.Exceptions.{ok, err, invalid_cpu_spec}
use whitebox_tempest_plugin.Python.Dict.{Dict, lookup}
use whitebox_tempest_plugin.Python.Equality.{int_eq, text_instance}
use whitebox_tempest_plugin.Python.Range.{range}
use whitebox_tempest_plugin.Python.Set.{contains, add, union, difference}
use whitebox_tempest_plugin.Python.Text.{Text, codes, text_eq, split, split_once, strip, join}
use whitebox_tempest_plugin.Python.Text.Number.{int, str_nat}
use whitebox_tempest_plugin.Hardware.CpuSpec.{apply_rule, parse_cpu_spec, format_cpu_spec}
use whitebox_tempest_plugin.Hardware.CpuSpec.Print.{Rule, one, span, omit, omit_span, print_rules}
use whitebox_tempest_plugin.Hardware.CpuSpec.RoundTrip.{
  any_lists, any_omits, parse_cpu_spec-print_rules, parse_cpu_spec-format_cpu_spec,
}
use whitebox_tempest_plugin.Hardware.CpuSpec.Order.{group, parse_cpu_spec_swap}
use whitebox_tempest_plugin.Hardware.CpuSpec.Bounds.{parse_cpu_spec-nonneg, parse_cpu_spec_raises}
use whitebox_tempest_plugin.Hardware.Pci.{
  get_pci_address, get_pci_address_from_xml_device, address_element, split-get_pci_address,
  get_pci_address_from_xml_device-address_element,
}

abbrev rules : List Rule
rules = span 4 12 ∷ omit 8 ∷ one 15 ∷ omit_span 5 6 ∷ []

-- A result is a list without an order of its own.
rules_run : parse_cpu_spec (codes "0-2, ^1,7") ≡ ok (pos 7 ∷ pos 2 ∷ pos 0 ∷ [])
unfolding parse_cpu_spec split apply_rule strip split_once int difference add contains union range
rules_run = refl

rules_print : print_rules rules ≡ codes "4-12,^8,15,^5-6"
unfolding print_rules join str_nat
rules_print = refl

parse_cpu_spec-print_rules_example :
    (s : List ℤ) × (parse_cpu_spec (print_rules rules) ≡ ok s)
    × ((x : ℤ) → contains s x ≡ (any_lists rules x && not (any_omits rules x)))
parse_cpu_spec-print_rules_example =
    parse_cpu_spec-print_rules (span 4 12) (omit 8 ∷ one 15 ∷ omit_span 5 6 ∷ []) refl

parse_cpu_spec-format_cpu_spec_example :
    (s : List ℤ) × (parse_cpu_spec (format_cpu_spec (pos 3 ∷ pos 10 ∷ [])) ≡ ok s)
    × ((x : ℤ) → contains s x ≡ contains (pos 3 ∷ pos 10 ∷ []) x)
parse_cpu_spec-format_cpu_spec_example = parse_cpu_spec-format_cpu_spec (3 ∷ 10 ∷ [])

group_run :
    parse_cpu_spec (group (codes "0-2") (codes "^1") (codes "7") (codes " "))
    ≡ ok (pos 7 ∷ pos 2 ∷ pos 0 ∷ [])
unfolding parse_cpu_spec split apply_rule strip split_once int difference add contains union range
    join
group_run = refl

parse_cpu_spec_swap_example :
    (t : List ℤ) × (parse_cpu_spec (group (codes "0-2") (codes "7") (codes "^1") (codes " "))
      ≡ ok t)
    × ((x : ℤ) → contains t x ≡ contains (pos 7 ∷ pos 2 ∷ pos 0 ∷ []) x)
parse_cpu_spec_swap_example =
    parse_cpu_spec_swap (codes "0-2") (codes "^1") (codes "7") (codes " ")
      (pos 7 ∷ pos 2 ∷ pos 0 ∷ []) group_run

has_7 : contains (pos 7 ∷ pos 2 ∷ pos 0 ∷ []) (pos 7) ≡ true
unfolding contains
has_7 = refl

parse_cpu_spec-nonneg_example : leb_ℤ (pos 0) (pos 7) ≡ true
parse_cpu_spec-nonneg_example =
    parse_cpu_spec-nonneg (codes "0-2, ^1,7") (pos 7 ∷ pos 2 ∷ pos 0 ∷ []) (pos 7) rules_run has_7

rules_bad : parse_cpu_spec (codes "3-1") ≡ err (invalid_cpu_spec (codes "3-1"))
unfolding parse_cpu_spec split apply_rule strip split_once int
rules_bad = refl

parse_cpu_spec_raises_example : invalid_cpu_spec (codes "3-1") ≡ invalid_cpu_spec (codes "3-1")
parse_cpu_spec_raises_example =
    parse_cpu_spec_raises (codes "3-1") (invalid_cpu_spec (codes "3-1")) rules_bad

split-get_pci_address_example :
    (split b':' (get_pci_address (codes "0000") (codes "05") (codes "00") (codes "1"))
      ≡ codes "0000" ∷ codes "05" ∷ codes "00.1" ∷ [])
    × (split_once b'.' (codes "00.1") ≡ some (codes "00", codes "1"))
split-get_pci_address_example =
    split-get_pci_address (codes "0000") (codes "05") (codes "00") (codes "1") refl refl

get_pci_address_from_xml_device-address_element_example :
    get_pci_address_from_xml_device
      (address_element (codes "0000") (codes "05") (codes "00") (codes "1"))
    ≡ ok (get_pci_address (codes "0000") (codes "05") (codes "00") (codes "1"))
get_pci_address_from_xml_device-address_element_example =
    get_pci_address_from_xml_device-address_element (codes "0000") (codes "05") (codes "00")
      (codes "1") refl

abbrev no_slot : Dict Text Text
no_slot =
    (codes "domain", codes "0x0000")
    ∷ (codes "bus", codes "0x05")
    ∷ (codes "function", codes "0x1")
    ∷ []

slot_is_asked :
    contains (codes "domain" ∷ codes "bus" ∷ codes "slot" ∷ codes "function" ∷ []) (codes "slot")
    ≡ true
unfolding contains text_eq
slot_is_asked = refl

slot_is_absent : lookup (codes "slot") no_slot ≡ none
unfolding lookup text_eq
slot_is_absent = refl
