-- ===== src/Hardware/CpuSpec/Print.antt =====
-- Rules as data, their print, and the listing that the parser reads from the print.
use whitebox_tempest_plugin.Prelude.{
  ℕ, ◌≡◌, refl, ◌∙◌, Bool, true, false, ◌&&◌, List, [], ◌∷◌, ◌++◌, map, Option, none, some, arith,
  leb, all, all-append,
}
use whitebox_tempest_plugin.Prelude.Int.{ℤ, pos, next, leb_ℤ, eqb_ℤ}
use whitebox_tempest_plugin.Python.Equality.{int_eq}
use whitebox_tempest_plugin.Python.Range.{range, contains-range}
use whitebox_tempest_plugin.Python.Set.{contains}
use whitebox_tempest_plugin.Python.Text.{Text, split_once, strip, join}
use whitebox_tempest_plugin.Python.Text.Laws.{
  lacks, no_space, strip_of_no_space, split_once_of_lacks, split_once-append,
}
use whitebox_tempest_plugin.Python.Text.Number.{
  int, is_digit, str_nat, int-str_nat, str_nat-digits, str_nat-no_space, str_nat-lacks,
}
use whitebox_tempest_plugin.Hardware.CpuSpec.{take_caret}
use whitebox_tempest_plugin.Hardware.CpuSpec.Rules.{Listing, parts_listing, rule_listing}

-- The rules that a specification is made of: one CPU or a range, listed or excluded.
pub data Rule : Type 0 where
  one : ℕ → Rule
  span : ℕ → ℕ → Rule
  omit : ℕ → Rule
  omit_span : ℕ → ℕ → Rule

-- A range does not end below its start.
abbrev pub is_valid : Rule → Bool
is_valid (span m n) = leb m n
is_valid (omit_span m n) = leb m n
is_valid _ = true

abbrev pub lists : Rule → ℤ → Bool
lists (one n) x = eqb_ℤ x (pos n)
lists (span m n) x = leb_ℤ (pos m) x && leb_ℤ x (pos n)
lists _ x = false

abbrev pub omits : Rule → ℤ → Bool
omits (omit n) x = eqb_ℤ x (pos n)
omits (omit_span m n) x = leb_ℤ (pos m) x && leb_ℤ x (pos n)
omits _ x = false

unfoldable pub print_rule : Rule → Text
print_rule (one n) = str_nat n
print_rule (span m n) = str_nat m ++ (b'-' ∷ str_nat n)
print_rule (omit n) = b'^' ∷ str_nat n
print_rule (omit_span m n) = b'^' ∷ (str_nat m ++ (b'-' ∷ str_nat n))

unfoldable pub print_rules : List Rule → Text
unfolding print_rule
print_rules rules = join (b',' ∷ []) (map print_rule rules)

-- The listing of a rule has what the rule lists and excludes what it omits.
pub record Describes (l : Listing) (rule : Rule) : Type 0 where
  pub ids : (x : ℤ) → contains l.cpuset_ids x ≡ lists rule x
  pub rejects : (x : ℤ) → contains l.cpuset_reject_ids x ≡ omits rule x

pub print_rule-lacks : (rule : Rule) → lacks b',' (print_rule rule) ≡ true
unfolding print_rule
print_rule-lacks (one n) = str_nat-lacks b',' n refl
print_rule-lacks (span m n) =
    all-append _ (str_nat m) _ (str_nat-lacks b',' m refl) (str_nat-lacks b',' n refl)
print_rule-lacks (omit n) = str_nat-lacks b',' n refl
print_rule-lacks (omit_span m n) =
    all-append _ (str_nat m) _ (str_nat-lacks b',' m refl) (str_nat-lacks b',' n refl)

print_rule-no_space : (rule : Rule) → no_space (print_rule rule) ≡ true
unfolding print_rule
print_rule-no_space (one n) = str_nat-no_space n
print_rule-no_space (span m n) =
    all-append _ (str_nat m) _ (str_nat-no_space m) (str_nat-no_space n)
print_rule-no_space (omit n) = str_nat-no_space n
print_rule-no_space (omit_span m n) =
    all-append _ (str_nat m) _ (str_nat-no_space m) (str_nat-no_space n)

abbrev only_ids : List ℤ → Listing
only_ids s = record { cpuset_ids = s; cpuset_reject_ids = [] }

abbrev only_rejects : List ℤ → Listing
only_rejects s = record { cpuset_ids = []; cpuset_reject_ids = s }

contains_one : (n : ℕ) (x : ℤ) → contains (pos n ∷ []) x ≡ eqb_ℤ x (pos n)
unfolding contains
contains_one n x = ground arith

contains_span :
    (m n : ℕ) (x : ℤ)
    → contains (range (pos m) (next (pos n))) x ≡ (leb_ℤ (pos m) x && leb_ℤ x (pos n))
contains_span m n x = rw contains-range (ground arith)

rule_listing_of_parts :
    (t : Text) (parts : Option (Text × Text))
    → no_space t ≡ true
    → split_once b'-' t ≡ parts
    → rule_listing t ≡ parts_listing t parts
unfolding rule_listing
rule_listing_of_parts t parts h e = rw (strip_of_no_space t h, e) refl

-- A printed number begins with a digit, so no caret is taken off it.
one_parts :
    (s : Text) (n : ℕ)
    → all is_digit s ≡ true
    → int s ≡ some (pos n)
    → parts_listing s none ≡ some (only_ids (pos n ∷ []))
unfolding parts_listing
one_parts [] n d e = unfold int in cc
one_parts (c ∷ s) n d e = ground arith

span_parts :
    (s t : Text) (m n : ℕ)
    → all is_digit s ≡ true
    → int (strip s) ≡ some (pos m)
    → int (strip t) ≡ some (pos n)
    → leb m n ≡ true
    → parts_listing (s ++ (b'-' ∷ t)) (some (s, t)) ≡ some (only_ids (range (pos m) (next (pos n))))
unfolding parts_listing take_caret
span_parts [] t m n d e f v = unfold int in cc
span_parts (c ∷ s) t m n d e f v = ground arith

int-strip-str_nat : (n : ℕ) → int (strip (str_nat n)) ≡ some (pos n)
int-strip-str_nat n = rw (strip_of_no_space (str_nat n) (str_nat-no_space n)) (int-str_nat n)

omit_parts : (n : ℕ) → parts_listing (b'^' ∷ str_nat n) none ≡ some (only_rejects (pos n ∷ []))
unfolding parts_listing
omit_parts n = rw int-strip-str_nat refl

omit_span_parts :
    (m n : ℕ) (rest : Text)
    → leb m n ≡ true
    → parts_listing (b'^' ∷ rest) (some (b'^' ∷ str_nat m, str_nat n))
      ≡ some (only_rejects (range (pos m) (next (pos n))))
unfolding parts_listing take_caret
omit_span_parts m n rest v = rw (int-strip-str_nat m, int-strip-str_nat n) (ground arith)

dash_lacks : (n : ℕ) → lacks b'-' (str_nat n) ≡ true
dash_lacks n = str_nat-lacks b'-' n refl

pub rule_listing-print_rule :
    (rule : Rule)
    → is_valid rule ≡ true
    → (l : Listing) × (rule_listing (print_rule rule) ≡ some l) × Describes l rule
unfolding print_rule
rule_listing-print_rule (one n) v = (
  only_ids (pos n ∷ []),
  rule_listing_of_parts _ none (str_nat-no_space n) (split_once_of_lacks b'-' _ (dash_lacks n))
      ∙ one_parts (str_nat n) n (str_nat-digits n) (int-str_nat n),
  record { ids = contains_one n; rejects = λ x. unfold contains in refl },
)
rule_listing-print_rule (span m n) v = (
  only_ids (range (pos m) (next (pos n))),
  rule_listing_of_parts _ _ (print_rule-no_space (span m n))
        (split_once-append b'-' (str_nat m) (str_nat n) (dash_lacks m))
      ∙ span_parts (str_nat m) (str_nat n) m n (str_nat-digits m) (int-strip-str_nat m)
          (int-strip-str_nat n) v,
  record { ids = contains_span m n; rejects = λ x. unfold contains in refl },
)
rule_listing-print_rule (omit n) v = (
  only_rejects (pos n ∷ []),
  rule_listing_of_parts _ none (print_rule-no_space (omit n))
        (split_once_of_lacks b'-' (b'^' ∷ str_nat n) (dash_lacks n))
      ∙ omit_parts n,
  record { ids = λ x. unfold contains in refl; rejects = contains_one n },
)
rule_listing-print_rule (omit_span m n) v = (
  only_rejects (range (pos m) (next (pos n))),
  rule_listing_of_parts _ _ (print_rule-no_space (omit_span m n))
        (split_once-append b'-' (b'^' ∷ str_nat m) (str_nat n) (dash_lacks m))
      ∙ omit_span_parts m n _ v,
  record { ids = λ x. unfold contains in refl; rejects = contains_span m n },
)
