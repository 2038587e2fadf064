-- ===== src/Numa/Siblings/Agreement.antt =====
-- The list of siblings has the CPUs that the parser of CPU specifications reads from the same text.
use whitebox_tempest_plugin.Prelude.{
  ℕ, ◌≡◌, refl, ap, ◌∙◌, Bool, true, false, ◌||◌, ◌&&◌, List, [], ◌∷◌, ◌++◌, map, all, arith,
}
use whitebox_tempest_plugin.Prelude.Int.{ℤ, pos, next, leb_ℤ, eqb_ℤ}
use whitebox_tempest_plugin.Exceptions.{ok}
use whitebox_tempest_plugin.Python.Equality.{int_eq}
use whitebox_tempest_plugin.Python.Range.{range, contains-range}
use whitebox_tempest_plugin.Python.Set.{contains, contains-append}
use whitebox_tempest_plugin.Python.Text.{split}
use whitebox_tempest_plugin.Python.Text.Laws.{split-join, split_of_lacks, split-append}
use whitebox_tempest_plugin.Python.Text.Number.{str_nat, int-str_nat, str_nat-lacks}
use whitebox_tempest_plugin.Hardware.CpuSpec.{parse_cpu_spec}
use whitebox_tempest_plugin.Hardware.CpuSpec.Print.{
  Rule, one, span, omit, omit_span, is_valid, lists, print_rule, print_rules,
}
use whitebox_tempest_plugin.Hardware.CpuSpec.RoundTrip.{
  any_lists, any_omits, map-lacks, parse_cpu_spec-print_rules,
}
use whitebox_tempest_plugin.Numa.Siblings.{to_number, sub_siblings, add_siblings, get_siblings_list}

-- A rule that lists CPUs, and omits none.
abbrev pub is_listing : Rule → Bool
is_listing (one n) = true
is_listing (span m n) = true
is_listing _ = false

to_number-str_nat : (n : ℕ) → to_number (str_nat n) ≡ ok (pos n)
unfolding to_number
to_number-str_nat n = rw (to_number, int-str_nat n) refl

contains_one : (n : ℕ) (x : ℤ) → contains (pos n ∷ []) x ≡ eqb_ℤ x (pos n)
unfolding contains
contains_one n x = ground arith

contains_span :
    (m n : ℕ) (x : ℤ)
    → contains (range (pos m) (next (pos n))) x ≡ (leb_ℤ (pos m) x && leb_ℤ x (pos n))
contains_span m n x = rw contains-range (ground arith)

split-str_nat : (n : ℕ) → split b'-' (str_nat n) ≡ str_nat n ∷ []
split-str_nat n = split_of_lacks b'-' (str_nat n) (str_nat-lacks b'-' n refl)

sub_siblings-print_rule :
    (rule : Rule)
    → is_listing rule ≡ true
    → (s : List ℤ) × (sub_siblings (split b'-' (print_rule rule)) ≡ ok s)
      × ((x : ℤ) → contains s x ≡ lists rule x)
unfolding print_rule sub_siblings
sub_siblings-print_rule (one n) h =
    (pos n ∷ [], rw (split-str_nat n, to_number-str_nat n) refl, contains_one n)
sub_siblings-print_rule (span m n) h = (
  range (pos m) (next (pos n)),
  rw
      (
        split-append b'-' (str_nat m) (str_nat n) (str_nat-lacks b'-' m refl),
        split-str_nat n,
        to_number-str_nat m,
        to_number-str_nat n,
      )
      refl,
  contains_span m n,
)
sub_siblings-print_rule (omit n) h = cc
sub_siblings-print_rule (omit_span m n) h = cc

add_siblings-print_rules :
    (rules : List Rule) (siblings : List ℤ)
    → all is_listing rules ≡ true
    → (s : List ℤ) × (add_siblings siblings (map print_rule rules) ≡ ok s)
      × ((x : ℤ) → contains s x ≡ (contains siblings x || any_lists rules x))
unfolding add_siblings
add_siblings-print_rules [] siblings h = (siblings, refl, λ x. ground arith)
add_siblings-print_rules (rule ∷ rules) siblings h =
    let (more, e, has) = sub_siblings-print_rule rule (ground arith) in
    let (s, f, same) = add_siblings-print_rules rules (siblings ++ more) (ground arith) in
    (s, rw e f, λ x. ground (arith, same x, contains-append siblings more x, has x))

omits_none : (rules : List Rule) (x : ℤ) → all is_listing rules ≡ true → any_omits rules x ≡ false
omits_none [] x h = refl
omits_none (one n ∷ rules) x h = omits_none rules x h
omits_none (span m n ∷ rules) x h = omits_none rules x h
omits_none (omit n ∷ rules) x h = cc
omits_none (omit_span m n ∷ rules) x h = cc

-- On a text printed from one rule or more that list CPUs and omit none, and whose ranges are not
-- reversed, get_siblings_list and parse_cpu_spec both return, and what they return has the same members.
pub get_siblings_list-parse_cpu_spec :
    (rule : Rule) (rules : List Rule)
    → all is_valid (rule ∷ rules) ≡ true
    → all is_listing (rule ∷ rules) ≡ true
    → (s : List ℤ) × (t : List ℤ) × (get_siblings_list (print_rules (rule ∷ rules)) ≡ ok s)
      × (parse_cpu_spec (print_rules (rule ∷ rules)) ≡ ok t)
      × ((x : ℤ) → contains s x ≡ contains t x)
unfolding get_siblings_list print_rules
get_siblings_list-parse_cpu_spec rule rules v h =
    let parts =
      split-join b',' (print_rule rule) (map print_rule rules) (map-lacks (rule ∷ rules)) in
    let (s, e, same) = add_siblings-print_rules (rule ∷ rules) [] h in
    let (t, f, parsed) = parse_cpu_spec-print_rules rule rules v in
    (
      s,
      t,
      ap (add_siblings []) parts ∙ e,
      f,
      λ x. unfold contains in (ground (arith, same x, parsed x, omits_none (rule ∷ rules) x h)),
    )
