-- ===== src/Hardware/Topology.antt =====
-- `get_all_cpus` of hardware.py: the CPUs of the configured topology.
use whitebox_tempest_plugin.Prelude.{◌≡◌, refl, Bool, false, ◌||◌, List, [], ◌∷◌, ◌++◌, arith}
use whitebox_tempest_plugin.Prelude.Int.{ℤ}
use whitebox_tempest_plugin.Config.{Conf}
use whitebox_tempest_plugin.Python.Dict.{Dict, values}
use whitebox_tempest_plugin.Python.Equality.{int_eq}
use whitebox_tempest_plugin.Python.Set.{contains}
use whitebox_tempest_plugin.Python.Text.{Text}

-- `[cpus.extend(c) for c in ...]`
abbrev pub extend_all : List ℤ → List (List ℤ) → List ℤ
extend_all cpus [] = cpus
extend_all cpus (c ∷ cs) = extend_all (cpus ++ c) cs

unfoldable pub get_all_cpus : Conf → List ℤ
get_all_cpus conf = extend_all [] (values conf.whitebox_hardware.cpu_topology)

abbrev pub some_node : Dict Text (List ℤ) → ℤ → Bool
some_node [] x = false
some_node ((node, cpus) ∷ topology) x = contains cpus x || some_node topology x

contains-append : (s t : List ℤ) (x : ℤ) → contains (s ++ t) x ≡ (contains s x || contains t x)
unfolding contains
contains-append [] t x = refl
contains-append (y ∷ s) t x = ground (arith, contains-append s t x)

contains-extend_all :
    (topology : Dict Text (List ℤ)) (cpus : List ℤ) (x : ℤ)
    → contains (extend_all cpus (values topology)) x ≡ (contains cpus x || some_node topology x)
contains-extend_all [] cpus x = ground arith
contains-extend_all ((node, c) ∷ topology) cpus x =
    ground (arith, contains-extend_all topology (cpus ++ c) x, contains-append cpus c x)

-- The list of all CPUs has exactly the CPUs that some node of the configured topology lists.
pub contains-get_all_cpus :
    (conf : Conf) (x : ℤ)
    → contains (get_all_cpus conf) x ≡ some_node conf.whitebox_hardware.cpu_topology x
unfolding get_all_cpus contains
contains-get_all_cpus conf x = contains-extend_all conf.whitebox_hardware.cpu_topology [] x
