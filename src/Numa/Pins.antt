-- ===== src/Numa/Pins.antt =====
-- The loops of the NUMA helper on the elements of a server's XML, each as its attributes.
pub mod Union
use whitebox_tempest_plugin.Prelude.{List, [], ◌∷◌, Option, none, some}
use whitebox_tempest_plugin.Prelude.Int.{ℤ}
use whitebox_tempest_plugin.Exceptions.{Result, ok, err, attribute_error, type_error, ◌>>=◌}
use whitebox_tempest_plugin.Python.Dict.{Dict, lookup}
use whitebox_tempest_plugin.Python.Equality.{int_eq, text_instance}
use whitebox_tempest_plugin.Python.Set.{union}
use whitebox_tempest_plugin.Python.Text.{Text, codes, join}
use whitebox_tempest_plugin.Hardware.CpuSpec.{parse_cpu_spec}

-- `hardware.parse_cpu_spec(pin.get('cpuset'))`: None has no method `split`.
unfoldable pub pin_cpus : Dict Text Text → Result (List ℤ)
pin_cpus pin = elim (lookup (codes "cpuset") pin) [
  | none ↦ err attribute_error
  | some cpuset ↦ parse_cpu_spec cpuset
]

-- `for pin in pins: pinset |= ...`
unfoldable pub add_pins : List ℤ → List (Dict Text Text) → Result (List ℤ)
add_pins pinset [] = ok pinset
add_pins pinset (pin ∷ pins) = do cpus ← pin_cpus pin; add_pins (union pinset cpus) pins

-- `[vcpu.attrib.get('cpuset') for vcpu in vcpus]`, where a missing element is None.
unfoldable pub cpusets_of : List (Option (Dict Text Text)) → Result (List (Option Text))
cpusets_of [] = ok []
cpusets_of (none ∷ vcpus) = err attribute_error
cpusets_of (some vcpu ∷ vcpus) = do
  cpusets ← cpusets_of vcpus
  ok (lookup (codes "cpuset") vcpu ∷ cpusets)

-- The arguments of `','.join`, which raises on a None.
unfoldable pub all_texts : List (Option Text) → Result (List Text)
all_texts [] = ok []
all_texts (none ∷ cpusets) = err type_error
all_texts (some cpuset ∷ cpusets) = do texts ← all_texts cpusets; ok (cpuset ∷ texts)

-- `hardware.parse_cpu_spec(','.join(cpusets))`
unfoldable pub parse_joined : List (Option (Dict Text Text)) → Result (List ℤ)
unfolding cpusets_of all_texts
parse_joined vcpus = do
  cpusets ← cpusets_of vcpus
  texts ← all_texts cpusets
  parse_cpu_spec (join (b',' ∷ []) texts)
