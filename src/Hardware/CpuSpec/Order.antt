-- ===== src/Hardware/CpuSpec/Order.antt =====
-- The order of the rules of a specification does not matter.
use whitebox_tempest_plugin.Prelude.{
  sym, ap, ◌∙◌, ◌≡◌, refl, ◌||◌, List, [], ◌∷◌, ◌++◌, Option, none, some, arith, Option-cases, inl,
  inr,
}
use whitebox_tempest_plugin.Prelude.Int.{ℤ}
use whitebox_tempest_plugin.Exceptions.{ok}
use whitebox_tempest_plugin.Python.Equality.{int_eq}
use whitebox_tempest_plugin.Python.Set.{contains}
use whitebox_tempest_plugin.Python.Text.{Text, split, join}
use whitebox_tempest_plugin.Python.Text.Laws.{split_at_sep}
use whitebox_tempest_plugin.Hardware.CpuSpec.{parse_cpu_spec}
use whitebox_tempest_plugin.Hardware.CpuSpec.Rules.{
  Listing, listings, listed, excluded, cpus, contains-cpus, parse_cpu_spec_ok, parse_cpu_spec_err,
}

abbrev pub both : Option (List Listing) → Option (List Listing) → Option (List Listing)
both none _ = none
both (some ls) none = none
both (some ls) (some ms) = some (ls ++ ms)

pub listings-append : (rs ss : List Text) → listings (rs ++ ss) ≡ both (listings rs) (listings ss)
unfolding listings
listings-append [] ss = ground arith
listings-append (r ∷ rs) ss = ground (arith, listings-append rs ss)

pub listed-append :
    (ls ms : List Listing) (x : ℤ) → listed (ls ++ ms) x ≡ (listed ls x || listed ms x)
listed-append [] ms x = refl
listed-append (l ∷ ls) ms x = ground (arith, listed-append ls ms x)

pub excluded-append :
    (ls ms : List Listing) (x : ℤ) → excluded (ls ++ ms) x ≡ (excluded ls x || excluded ms x)
excluded-append [] ms x = refl
excluded-append (l ∷ ls) ms x = ground (arith, excluded-append ls ms x)

-- A parse that succeeds has a listing for each rule.
pub parse_cpu_spec_inv :
    (spec : Text) {s : List ℤ}
    → parse_cpu_spec spec ≡ ok s
    → (ls : List Listing) × (listings (split b',' spec) ≡ some ls) × (s ≡ cpus ls)
parse_cpu_spec_inv spec h = elim (Option-cases (listings (split b',' spec))) [
  | inl e ↦ cc (parse_cpu_spec_err spec e)
  | inr (ls, e) ↦ (ls, e, cc (parse_cpu_spec_ok spec ls e))
]

abbrev pub group : Text → Text → Text → Text → Text
group a b c d = join (b',' ∷ []) (a ∷ b ∷ c ∷ d ∷ [])

listings-group :
    (a b c d : Text)
    → listings (split b',' (group a b c d))
      ≡ both (listings (split b',' a)) (
          both (listings (split b',' b)) (both (listings (split b',' c)) (listings (split b',' d))))
unfolding join
listings-group a b c d = simp (split_at_sep, listings-append)

module _ (ls ms ns os : List Listing) (x : ℤ) where
  listed_swap : listed (ls ++ (ns ++ (ms ++ os))) x ≡ listed (ls ++ (ms ++ (ns ++ os))) x
  listed_swap = simp listed-append (ground arith)

  excluded_swap : excluded (ls ++ (ns ++ (ms ++ os))) x ≡ excluded (ls ++ (ms ++ (ns ++ os))) x
  excluded_swap = simp excluded-append (ground arith)

-- Four results that exist together exist in another order too.
both_swap :
    (a b c d : Option (List Listing)) (ls : List Listing)
    → both a (both b (both c d)) ≡ some ls
    → (ms : List Listing) × (both a (both c (both b d)) ≡ some ms)
      × ((x : ℤ) → contains (cpus ms) x ≡ contains (cpus ls) x)
both_swap none b c d ls h = cc
both_swap (some a) none c d ls h = cc
both_swap (some a) (some b) none d ls h = cc
both_swap (some a) (some b) (some c) none ls h = cc
both_swap (some a) (some b) (some c) (some d) ls h = (
  a ++ (c ++ (b ++ d)),
  refl,
  λ x. cc (
    contains-cpus (a ++ (c ++ (b ++ d))) x,
    contains-cpus (a ++ (b ++ (c ++ d))) x,
    listed_swap a b c d x,
    excluded_swap a b c d x,
  ),
)

-- If a specification made of four groups of rules is accepted, it is accepted with the two middle
-- groups exchanged, and yields a set with the same members: an exclusion takes effect before and
-- behind the ranges that it cuts.
pub parse_cpu_spec_swap :
    (a b c d : Text) (s : List ℤ)
    → parse_cpu_spec (group a b c d) ≡ ok s
    → (t : List ℤ) × (parse_cpu_spec (group a c b d) ≡ ok t)
      × ((x : ℤ) → contains t x ≡ contains s x)
parse_cpu_spec_swap a b c d s h =
    let (ls, e, s_eq) = parse_cpu_spec_inv (group a b c d) h in
    let (ms, f, same) =
      both_swap (listings (split b',' a)) (listings (split b',' b)) (listings (split b',' c))
        (listings (split b',' d)) ls (sym (listings-group a b c d) ∙ e) in
    (
      cpus ms,
      parse_cpu_spec_ok (group a c b d) ms (listings-group a c b d ∙ f),
      λ x. same x ∙ ap (λ u. contains u x) (sym s_eq),
    )
