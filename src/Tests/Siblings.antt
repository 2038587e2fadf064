-- ===== src/Tests/Siblings.antt =====
-- The list of siblings of the doctest of get_siblings_list.
use whitebox_tempest_plugin.Prelude.{◌≡◌, refl, List, [], ◌∷◌}
use whitebox_tempest_plugin.Prelude.Int.{ℤ, pos}
use whitebox_tempest_plugin.Exceptions.{ok, err, value_error}
use whitebox_tempest_plugin.Python.Equality.{int_eq}
use whitebox_tempest_plugin.Python.Range.{range}
use whitebox_tempest_plugin.Python.Set.{contains}
use whitebox_tempest_plugin.Python.Text.{codes, split, strip, join}
use whitebox_tempest_plugin.Python.Text.Number.{int, str_nat}
use whitebox_tempest_plugin.Hardware.CpuSpec.{parse_cpu_spec}
use whitebox_tempest_plugin.Hardware.CpuSpec.Print.{Rule, one, span, print_rules}
use whitebox_tempest_plugin.Numa.Siblings.{get_siblings_list}
use whitebox_tempest_plugin.Numa.Siblings.Agreement.{get_siblings_list-parse_cpu_spec}

abbrev rules : List Rule
rules = span 0 2 ∷ one 3 ∷ one 4 ∷ span 5 6 ∷ one 9 ∷ []

rules_print : print_rules rules ≡ codes "0-2,3,4,5-6,9"
unfolding print_rules join str_nat
rules_print = refl

siblings_run :
    get_siblings_list (codes "0-2,3,4,5-6,9")
    ≡ ok (pos 0 ∷ pos 1 ∷ pos 2 ∷ pos 3 ∷ pos 4 ∷ pos 5 ∷ pos 6 ∷ pos 9 ∷ [])
unfolding get_siblings_list split int strip range
siblings_run = refl

-- A caret is no part of a number.
caret_run : get_siblings_list (codes "0-2,^1") ≡ err value_error
unfolding get_siblings_list split int strip range
caret_run = refl

get_siblings_list-parse_cpu_spec_example :
    (s : List ℤ) × (t : List ℤ) × (get_siblings_list (print_rules rules) ≡ ok s)
    × (parse_cpu_spec (print_rules rules) ≡ ok t)
    × ((x : ℤ) → contains s x ≡ contains t x)
get_siblings_list-parse_cpu_spec_example =
    get_siblings_list-parse_cpu_spec (span 0 2) (one 3 ∷ one 4 ∷ span 5 6 ∷ one 9 ∷ []) refl refl
