-- ===== src/Hardware/CpuSpec.antt =====
-- `parse_cpu_spec` and `format_cpu_spec` of hardware.py. Proofs stand in the modules below.
pub mod Rules
pub mod Order
pub mod Print
pub mod RoundTrip
pub mod Bounds
use whitebox_tempest_plugin.Prelude.{
  Bool, true, false, List, [], ◌∷◌, Option, none, some, map, eqb, if◌then◌else◌,
}
use whitebox_tempest_plugin.Prelude.Int.{ℤ, pos, next, ltb_ℤ}
use whitebox_tempest_plugin.Exceptions.{Result, ok, err, invalid_cpu_spec, ◌>>=◌}
use whitebox_tempest_plugin.Python.Equality.{int_eq}
use whitebox_tempest_plugin.Python.Range.{range}
use whitebox_tempest_plugin.Python.Set.{add, union, difference}
use whitebox_tempest_plugin.Python.Text.{Text, split, split_once, strip, join}
use whitebox_tempest_plugin.Python.Text.Number.{int, str_int}

-- The two sets that the loop fills.
pub record CpuSets : Type 0 where
  pub cpuset_ids : List ℤ
  pub cpuset_reject_ids : List ℤ

abbrev pub no_cpus : CpuSets
no_cpus = record { cpuset_ids = []; cpuset_reject_ids = [] }

-- `int(text)`, with a ValueError turned into InvalidCPUSpec.
unfoldable pub int_or_raise : Text → Text → Result ℤ
int_or_raise spec s = elim (int s) [ none ↦ err (invalid_cpu_spec spec) | some n ↦ ok n ]

-- Takes a leading caret off the first part of a range.
unfoldable pub take_caret : Text → Bool × Text
take_caret [] = (false, [])
take_caret (c ∷ s) = if eqb c b'^' then (true, s) else (false, c ∷ s)

-- A rule with a dash in it, cut at the first dash.
unfoldable pub apply_range : Text → Text → Text → CpuSets → Result CpuSets
unfolding take_caret int_or_raise
apply_range spec first second sets =
    let (reject, first') = take_caret first in
    do
      start ← int_or_raise spec (strip first')
      end ← int_or_raise spec (strip second)
      if ltb_ℤ end start
          then err (invalid_cpu_spec spec)
          else if reject
          then ok (record sets {
            cpuset_reject_ids = union sets.cpuset_reject_ids (range start (next end));
          })
          else ok (record sets { cpuset_ids = union sets.cpuset_ids (range start (next end)) })

-- A rule with no dash in it, by its first character and the others.
unfoldable pub apply_single : Text → Text → CpuSets → Result CpuSets
unfolding int_or_raise
apply_single spec [] sets = ok sets
apply_single spec (c ∷ s) sets =
    if eqb c b'^'
    then (do
      n ← int_or_raise spec (strip s)
      ok (record sets { cpuset_reject_ids = add sets.cpuset_reject_ids n }))
    else (do n ← int_or_raise spec (c ∷ s); ok (record sets { cpuset_ids = add sets.cpuset_ids n }))

-- The body of the loop on a stripped rule and its parts around the first dash.
unfoldable pub apply_parts : Text → Text → Option (Text × Text) → CpuSets → Result CpuSets
unfolding apply_range apply_single
apply_parts spec [] parts sets = ok sets
apply_parts spec (c ∷ s) none sets = apply_single spec (c ∷ s) sets
apply_parts spec (c ∷ s) (some (first, second)) sets = apply_range spec first second sets

unfoldable pub apply_rule : Text → Text → CpuSets → Result CpuSets
unfolding apply_parts
apply_rule spec rule sets = let r = strip rule in apply_parts spec r (split_once b'-' r) sets

unfoldable pub apply_rules : Text → List Text → CpuSets → Result CpuSets
apply_rules spec [] sets = ok sets
apply_rules spec (rule ∷ rules) sets = apply_rule spec rule sets >>= apply_rules spec rules

unfoldable pub parse_cpu_spec : Text → Result (List ℤ)
unfolding apply_rules
parse_cpu_spec spec = do
  sets ← apply_rules spec (split b',' spec) no_cpus
  ok (difference sets.cpuset_ids sets.cpuset_reject_ids)

unfoldable pub format_cpu_spec : List ℤ → Text
format_cpu_spec cpu_list = join (b',' ∷ []) (map str_int cpu_list)
