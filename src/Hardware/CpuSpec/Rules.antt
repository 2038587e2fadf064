-- ===== src/Hardware/CpuSpec/Rules.antt =====
-- What one rule of a specification adds to the two sets, whatever they hold: the loop of
-- `parse_cpu_spec` is a union over the rules.
use whitebox_tempest_plugin.Prelude.{
  ◌≡◌, refl, Bool, true, false, ◌||◌, not, ◌&&◌, List, [], ◌∷◌, Option, none, some, arith, eqb,
  if◌then◌else◌,
}
use whitebox_tempest_plugin.Prelude.Int.{ℤ, next, ltb_ℤ}
use whitebox_tempest_plugin.Exceptions.{Result, ok, err, invalid_cpu_spec, ◌>>=◌}
use whitebox_tempest_plugin.Python.Equality.{int_eq}
use whitebox_tempest_plugin.Python.Range.{range}
use whitebox_tempest_plugin.Python.Set.{
  contains, union, difference, contains-union, contains-difference,
}
use whitebox_tempest_plugin.Python.Text.{Text, split, split_once, strip}
use whitebox_tempest_plugin.Python.Text.Number.{int}
use whitebox_tempest_plugin.Hardware.CpuSpec.{
  CpuSets, no_cpus, take_caret, apply_parts, apply_rule, apply_rules, parse_cpu_spec,
}

-- The numbers that a rule lists, and those that it excludes; `none` where it is malformed.
abbrev pub Listing : Type 0
Listing = CpuSets

unfoldable pub range_listing : Bool → Option ℤ → Option ℤ → Option Listing
range_listing reject (some start) (some end) =
    if ltb_ℤ end start
    then none
    else if reject
    then some (record { cpuset_ids = []; cpuset_reject_ids = range start (next end) })
    else some (record { cpuset_ids = range start (next end); cpuset_reject_ids = [] })
range_listing reject _ _ = none

unfoldable pub single_listing : Bool → Option ℤ → Option Listing
single_listing reject none = none
single_listing true (some n) = some (record { cpuset_ids = []; cpuset_reject_ids = n ∷ [] })
single_listing false (some n) = some (record { cpuset_ids = n ∷ []; cpuset_reject_ids = [] })

unfoldable pub parts_listing : Text → Option (Text × Text) → Option Listing
unfolding range_listing single_listing
parts_listing [] parts = some no_cpus
parts_listing (c ∷ s) none =
    if eqb c b'^' then single_listing true (int (strip s)) else single_listing false (int (c ∷ s))
parts_listing (c ∷ s) (some (first, second)) =
    let (reject, first') = take_caret first in
    range_listing reject (int (strip first')) (int (strip second))

unfoldable pub rule_listing : Text → Option Listing
unfolding parts_listing
rule_listing rule = let r = strip rule in parts_listing r (split_once b'-' r)

abbrev pub join_sets : CpuSets → Listing → CpuSets
join_sets sets l = record {
  cpuset_ids = union sets.cpuset_ids l.cpuset_ids;
  cpuset_reject_ids = union sets.cpuset_reject_ids l.cpuset_reject_ids;
}

abbrev pub join_or_raise : Text → CpuSets → Option Listing → Result CpuSets
join_or_raise spec sets none = err (invalid_cpu_spec spec)
join_or_raise spec sets (some l) = ok (join_sets sets l)

apply_parts_lem :
    (spec r : Text) (parts : Option (Text × Text)) (sets : CpuSets)
    → apply_parts spec r parts sets ≡ join_or_raise spec sets (parts_listing r parts)
unfolding apply_parts parts_listing union
apply_parts_lem spec [] parts sets = refl
apply_parts_lem spec (c ∷ s) none sets = ground arith
apply_parts_lem spec (c ∷ s) (some (first, second)) sets = ground arith

pub apply_rule_lem :
    (spec rule : Text) (sets : CpuSets)
    → apply_rule spec rule sets ≡ join_or_raise spec sets (rule_listing rule)
unfolding apply_rule rule_listing
apply_rule_lem spec rule sets =
    let r = strip rule in apply_parts_lem spec r (split_once b'-' r) sets

-- The listings of all rules, or `none` where a rule is malformed.
unfoldable pub listings : List Text → Option (List Listing)
listings [] = some []
listings (rule ∷ rules) = elim (rule_listing rule) [
  | none ↦ none
  | some l ↦ elim (listings rules) [ none ↦ none | some ls ↦ some (l ∷ ls) ]
]

abbrev pub join_all : CpuSets → List Listing → CpuSets
join_all sets [] = sets
join_all sets (l ∷ ls) = join_all (join_sets sets l) ls

abbrev pub join_all_or_raise : Text → CpuSets → Option (List Listing) → Result CpuSets
join_all_or_raise spec sets none = err (invalid_cpu_spec spec)
join_all_or_raise spec sets (some ls) = ok (join_all sets ls)

pub apply_rules_lem :
    (spec : Text) (rules : List Text) (sets : CpuSets)
    → apply_rules spec rules sets ≡ join_all_or_raise spec sets (listings rules)
unfolding apply_rules listings
apply_rules_lem spec [] sets = refl
apply_rules_lem spec (rule ∷ rules) sets =
    rw apply_rule_lem (go (apply_rules_lem spec rules) (rule_listing rule))
  where
    go :
        ((t : CpuSets) → apply_rules spec rules t ≡ join_all_or_raise spec t (listings rules))
        → (o : Option Listing)
        → (join_or_raise spec sets o >>= apply_rules spec rules)
          ≡ join_all_or_raise spec sets (elim o [
            | none ↦ none
            | some l ↦ elim (listings rules) [ none ↦ none | some ls ↦ some (l ∷ ls) ]
          ])
    go ih none = refl
    go ih (some l) = ground (arith, ih (join_sets sets l))

-- Some listing has the number, and some listing excludes it.
abbrev pub listed : List Listing → ℤ → Bool
listed [] x = false
listed (l ∷ ls) x = contains l.cpuset_ids x || listed ls x

abbrev pub excluded : List Listing → ℤ → Bool
excluded [] x = false
excluded (l ∷ ls) x = contains l.cpuset_reject_ids x || excluded ls x

contains-join_all :
    (ls : List Listing) (sets : CpuSets) (x : ℤ)
    → contains (join_all sets ls).cpuset_ids x ≡ (contains sets.cpuset_ids x || listed ls x)
contains-join_all [] sets x = ground arith
contains-join_all (l ∷ ls) sets x = ground (
  arith,
  contains-join_all ls (join_sets sets l) x,
  contains-union sets.cpuset_ids l.cpuset_ids x,
)

contains-join_all_reject :
    (ls : List Listing) (sets : CpuSets) (x : ℤ)
    → contains (join_all sets ls).cpuset_reject_ids x
      ≡ (contains sets.cpuset_reject_ids x || excluded ls x)
contains-join_all_reject [] sets x = ground arith
contains-join_all_reject (l ∷ ls) sets x = ground (
  arith,
  contains-join_all_reject ls (join_sets sets l) x,
  contains-union sets.cpuset_reject_ids l.cpuset_reject_ids x,
)

-- The result for the listings of the rules.
abbrev pub cpus : List Listing → List ℤ
cpus ls = difference (join_all no_cpus ls).cpuset_ids (join_all no_cpus ls).cpuset_reject_ids

pub contains-cpus :
    (ls : List Listing) (x : ℤ) → contains (cpus ls) x ≡ (listed ls x && not (excluded ls x))
unfolding contains
contains-cpus ls x = ground (
  arith,
  contains-difference (join_all no_cpus ls).cpuset_ids (join_all no_cpus ls).cpuset_reject_ids x,
  contains-join_all ls no_cpus x,
  contains-join_all_reject ls no_cpus x,
)

pub parse_cpu_spec_ok :
    (spec : Text) (ls : List Listing)
    → listings (split b',' spec) ≡ some ls
    → parse_cpu_spec spec ≡ ok (cpus ls)
unfolding parse_cpu_spec
parse_cpu_spec_ok spec ls h = rw (apply_rules_lem, h) refl

pub parse_cpu_spec_err :
    (spec : Text)
    → listings (split b',' spec) ≡ none
    → parse_cpu_spec spec ≡ err (invalid_cpu_spec spec)
unfolding parse_cpu_spec
parse_cpu_spec_err spec h = rw (apply_rules_lem, h) refl
