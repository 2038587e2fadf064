-- ===== src/Hardware/CpuSpec/RoundTrip.antt =====
-- A specification that is written from rules is parsed to the set that the rules describe.
use whitebox_tempest_plugin.Prelude.{
  ℕ, ◌≡◌, refl, ◌∙◌, ap, Bool, true, false, ◌||◌, ◌&&◌, not, List, [], ◌∷◌, map, some, arith, all,
}
use whitebox_tempest_plugin.Prelude.Int.{ℤ, pos}
use whitebox_tempest_plugin.Exceptions.{ok}
use whitebox_tempest_plugin.Python.Equality.{int_eq}
use whitebox_tempest_plugin.Python.Set.{contains, difference}
use whitebox_tempest_plugin.Python.Text.{Text, split, strip, join}
use whitebox_tempest_plugin.Python.Text.Laws.{lacks, split-join}
use whitebox_tempest_plugin.Python.Text.Number.{str_nat, str_int}
use whitebox_tempest_plugin.Hardware.CpuSpec.{apply_rule, parse_cpu_spec, format_cpu_spec}
use whitebox_tempest_plugin.Hardware.CpuSpec.Rules.{
  Listing, rule_listing, listings, listed, excluded, cpus, contains-cpus, parse_cpu_spec_ok,
}
use whitebox_tempest_plugin.Hardware.CpuSpec.Print.{
  Rule, one, is_valid, lists, omits, print_rule, print_rules, print_rule-lacks,
  rule_listing-print_rule,
}

-- Some rule lists the number, or omits it.
abbrev pub any_lists : List Rule → ℤ → Bool
any_lists [] x = false
any_lists (r ∷ rules) x = lists r x || any_lists rules x

abbrev pub any_omits : List Rule → ℤ → Bool
any_omits [] x = false
any_omits (r ∷ rules) x = omits r x || any_omits rules x

listings-cons :
    (rule : Text) (rules : List Text) {l : Listing} {ls : List Listing}
    → rule_listing rule ≡ some l
    → listings rules ≡ some ls
    → listings (rule ∷ rules) ≡ some (l ∷ ls)
unfolding listings
listings-cons rule rules e f = ground arith

listings-print_rules :
    (rules : List Rule)
    → all is_valid rules ≡ true
    → (ls : List Listing) × (listings (map print_rule rules) ≡ some ls)
      × ((x : ℤ) → listed ls x ≡ any_lists rules x)
      × ((x : ℤ) → excluded ls x ≡ any_omits rules x)
unfolding listings
listings-print_rules [] v = ([], refl, λ x. refl, λ x. refl)
listings-print_rules (r ∷ rules) v =
    let (l, e, d) = rule_listing-print_rule r (ground arith) in
    let (ls, f, ids, rejects) = listings-print_rules rules (ground arith) in
    (
      l ∷ ls,
      listings-cons (print_rule r) (map print_rule rules) e f,
      λ x. cc (d.ids x, ids x),
      λ x. cc (d.rejects x, rejects x),
    )

pub map-lacks : (rules : List Rule) → all (lacks b',') (map print_rule rules) ≡ true
map-lacks [] = refl
map-lacks (r ∷ rules) = ground (arith, print_rule-lacks r, map-lacks rules)

-- A specification printed from one rule or more, whose ranges are not reversed, is accepted, and
-- the result has exactly the numbers that some rule lists and no rule omits, wherever these stand.
pub parse_cpu_spec-print_rules :
    (rule : Rule) (rules : List Rule)
    → all is_valid (rule ∷ rules) ≡ true
    → (s : List ℤ) × (parse_cpu_spec (print_rules (rule ∷ rules)) ≡ ok s)
      × ((x : ℤ) → contains s x ≡ (any_lists (rule ∷ rules) x && not (any_omits (rule ∷ rules) x)))
unfolding print_rules
parse_cpu_spec-print_rules rule rules v =
    let (ls, e, ids, rejects) = listings-print_rules (rule ∷ rules) v in
    let parts =
      split-join b',' (print_rule rule) (map print_rule rules) (map-lacks (rule ∷ rules)) in
    (
      cpus ls,
      parse_cpu_spec_ok _ ls (ap listings parts ∙ e),
      λ x. rw contains-cpus (cc (ids x, rejects x)),
    )

-- `format_cpu_spec` of CPU numbers prints one rule for each.
format_cpu_spec-rules :
    (cpu_list : List ℕ) → format_cpu_spec (map pos cpu_list) ≡ print_rules (map one cpu_list)
unfolding format_cpu_spec print_rules str_nat str_int
format_cpu_spec-rules cpu_list = ap (join (b',' ∷ [])) (go cpu_list)
  where
    go : (ns : List ℕ) → map str_int (map pos ns) ≡ map print_rule (map one ns)
    go [] = refl
    go (n ∷ ns) = rw (go ns) refl

any_lists-one : (ns : List ℕ) (x : ℤ) → any_lists (map one ns) x ≡ contains (map pos ns) x
unfolding contains
any_lists-one [] x = refl
any_lists-one (n ∷ ns) x = rw (any_lists-one ns x) refl

any_omits-one : (ns : List ℕ) (x : ℤ) → any_omits (map one ns) x ≡ false
any_omits-one [] x = refl
any_omits-one (n ∷ ns) x = any_omits-one ns x

one-is_valid : (ns : List ℕ) → all is_valid (map one ns) ≡ true
one-is_valid [] = refl
one-is_valid (n ∷ ns) = one-is_valid ns

-- The print of a list of CPU numbers is parsed back to the numbers of the list.
pub parse_cpu_spec-format_cpu_spec :
    (cpu_list : List ℕ)
    → (s : List ℤ) × (parse_cpu_spec (format_cpu_spec (map pos cpu_list)) ≡ ok s)
      × ((x : ℤ) → contains s x ≡ contains (map pos cpu_list) x)
parse_cpu_spec-format_cpu_spec [] = (
  [],
  unfold parse_cpu_spec format_cpu_spec join split apply_rule strip difference in refl,
  λ x. refl,
)
parse_cpu_spec-format_cpu_spec (cpu ∷ ns) =
    let (s, e, same) = parse_cpu_spec-print_rules (one cpu) (map one ns) (one-is_valid ns) in
    (
      s,
      ap parse_cpu_spec (format_cpu_spec-rules (cpu ∷ ns)) ∙ e,
      λ x. ground (arith, same x, any_lists-one (cpu ∷ ns) x, any_omits-one (cpu ∷ ns) x),
    )
