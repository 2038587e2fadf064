-- ===== src/Hardware/CpuSpec/Bounds.antt =====
-- What an accepted specification can yield.
use whitebox_tempest_plugin.Prelude.{
  ℕ, ◌≡◌, ◌≢◌, ap, refl, Bool, true, false, ◌&&◌, List, [], ◌∷◌, Option, none, some, arith,
  Option-cases, inl, inr, eqb, Bool-cases,
}
use whitebox_tempest_plugin.Prelude.Int.{ℤ, pos, negsuc, next, leb_ℤ}
use whitebox_tempest_plugin.Exceptions.{Error, invalid_cpu_spec, ok, err}
use whitebox_tempest_plugin.Python.Equality.{int_eq}
use whitebox_tempest_plugin.Python.Range.{contains-range}
use whitebox_tempest_plugin.Python.Set.{contains}
use whitebox_tempest_plugin.Python.Text.{Text, split, split_once, strip}
use whitebox_tempest_plugin.Python.Text.Laws.{
  lacks, lacks-strip, split_once-lacks, lacks_of_split_once,
}
use whitebox_tempest_plugin.Python.Text.Number.{int, int-nonneg}
use whitebox_tempest_plugin.Prelude.Int.{eqb_ℤ_iff}
use whitebox_tempest_plugin.Hardware.CpuSpec.{take_caret, parse_cpu_spec}
use whitebox_tempest_plugin.Hardware.CpuSpec.Rules.{
  Listing, range_listing, single_listing, parts_listing, rule_listing, listings, listed,
  contains-cpus, parse_cpu_spec_ok, parse_cpu_spec_err,
}
use whitebox_tempest_plugin.Hardware.CpuSpec.Order.{parse_cpu_spec_inv}

take_caret-lacks : (s : Text) → lacks b'-' s ≡ true → lacks b'-' (take_caret s).1 ≡ true
unfolding take_caret
take_caret-lacks [] h = refl
take_caret-lacks (c ∷ s) h = ground arith

-- A listing whose numbers are not negative.
abbrev IsNonneg : Listing → Type 0
IsNonneg l = (x : ℤ) → contains l.cpuset_ids x ≡ true → leb_ℤ (pos 0) x ≡ true

single-IsNonneg :
    (reject : Bool) (o : Option ℤ) (l : Listing)
    → ((n : ℕ) → o ≢ some (negsuc n))
    → single_listing reject o ≡ some l
    → IsNonneg l
unfolding single_listing contains
single-IsNonneg reject none l h e x m = cc
single-IsNonneg true (some a) l h e x m = ground arith
single-IsNonneg false (some (pos n)) l h e x m = ground (arith, eqb_ℤ_iff x (pos n))
single-IsNonneg false (some (negsuc n)) l h e x m = absurd (h n refl)

range-IsNonneg :
    (reject : Bool) (start end : Option ℤ) (l : Listing)
    → ((n : ℕ) → start ≢ some (negsuc n))
    → range_listing reject start end ≡ some l
    → IsNonneg l
unfolding range_listing contains
range-IsNonneg reject none end l h e x m = cc
range-IsNonneg reject (some a) none l h e x m = cc
range-IsNonneg reject (some (pos n)) (some b) l h e x m =
    ground (arith, contains-range (pos n) (next b) x)
range-IsNonneg reject (some (negsuc n)) (some b) l h e x m = absurd (h n refl)

and_right : (a b : Bool) → (a && b) ≡ true → b ≡ true
and_right a b h = ground arith

parts-IsNonneg :
    (r : Text) (parts : Option (Text × Text)) (l : Listing)
    → split_once b'-' r ≡ parts
    → parts_listing r parts ≡ some l
    → IsNonneg l
unfolding parts_listing
parts-IsNonneg [] parts l p e = λ x m. unfold contains in ground arith
parts-IsNonneg (c ∷ s) none l p e = elim (Bool-cases (eqb c b'^')) [
  | inl caret ↦
      single-IsNonneg true (int (strip s)) l
        (λ n.
          int-nonneg (strip s) n
            (lacks-strip b'-' s (and_right _ _ (lacks_of_split_once b'-' (c ∷ s) p))))
        (rw caret at e)
  | inr other ↦
      single-IsNonneg false (int (c ∷ s)) l
        (λ n. int-nonneg (c ∷ s) n (lacks_of_split_once b'-' (c ∷ s) p)) (rw other at e)
]
parts-IsNonneg (c ∷ s) (some (first, second)) l p e =
    let first' = (take_caret first).1 in
    let part = split_once-lacks b'-' (c ∷ s) first second p in
    range-IsNonneg (take_caret first).0 (int (strip first')) (int (strip second)) l
      (λ n. int-nonneg (strip first') n (lacks-strip b'-' first' (take_caret-lacks first part))) e

rule-IsNonneg : (rule : Text) (l : Listing) → rule_listing rule ≡ some l → IsNonneg l
unfolding rule_listing
rule-IsNonneg rule l = parts-IsNonneg (strip rule) (split_once b'-' (strip rule)) l refl

listed-nonneg :
    (rules : List Text) (ls : List Listing) (x : ℤ)
    → listings rules ≡ some ls
    → listed ls x ≡ true
    → leb_ℤ (pos 0) x ≡ true
unfolding listings
listed-nonneg [] ls x e m = ground arith
listed-nonneg (rule ∷ rules) [] x e m = cc
listed-nonneg (rule ∷ rules) (l ∷ ls) x e m = elim (Bool-cases (contains l.cpuset_ids x)) [
  | inl here ↦ rule-IsNonneg rule l (ground arith) x here
  | inr there ↦ listed-nonneg rules ls x (ground arith) (ground arith)
]

-- Every CPU that an accepted specification yields is a number from 0 up.
pub parse_cpu_spec-nonneg :
    (spec : Text) (s : List ℤ) (x : ℤ)
    → parse_cpu_spec spec ≡ ok s
    → contains s x ≡ true
    → leb_ℤ (pos 0) x ≡ true
parse_cpu_spec-nonneg spec s x h m =
    let (ls, e, s_eq) = parse_cpu_spec_inv spec h in
    listed-nonneg (split b',' spec) ls x e
      (ground (arith, contains-cpus ls x, ap (λ u. contains u x) s_eq))

-- The only exception of the parser is InvalidCPUSpec, and it names the whole specification.
pub parse_cpu_spec_raises :
    (spec : Text) (e : Error) → parse_cpu_spec spec ≡ err e → e ≡ invalid_cpu_spec spec
parse_cpu_spec_raises spec e h = elim (Option-cases (listings (split b',' spec))) [
  | inl bad ↦ cc (parse_cpu_spec_err spec bad)
  | inr (ls, good) ↦ cc (parse_cpu_spec_ok spec ls good)
]
