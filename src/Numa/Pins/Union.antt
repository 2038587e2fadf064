-- ===== src/Numa/Pins/Union.antt =====
-- The CPUs that come out of a list of pins.
use whitebox_tempest_plugin.Prelude.{
  ◌≡◌, refl, ap, sym, ◌∙◌, Bool, true, false, ◌||◌, List, [], ◌∷◌, ◌++◌, Option, none, some, arith,
  Bool-cases, inl, inr,
}
use whitebox_tempest_plugin.Prelude.Int.{ℤ}
use whitebox_tempest_plugin.Exceptions.{Result, ok, err, returned}
use whitebox_tempest_plugin.Python.Dict.{Dict, lookup}
use whitebox_tempest_plugin.Python.Equality.{int_eq, text_instance}
use whitebox_tempest_plugin.Python.Set.{contains, union, difference, contains-union}
use whitebox_tempest_plugin.Python.Text.{Text, codes, split, strip, join}
use whitebox_tempest_plugin.Python.Text.Laws.{split_at_sep}
use whitebox_tempest_plugin.Hardware.CpuSpec.{apply_rule, parse_cpu_spec}
use whitebox_tempest_plugin.Hardware.CpuSpec.Rules.{
  Listing, listings, listed, excluded, cpus, contains-cpus, parse_cpu_spec_ok,
}
use whitebox_tempest_plugin.Hardware.CpuSpec.Order.{
  both, listings-append, listed-append, excluded-append, parse_cpu_spec_inv,
}
use whitebox_tempest_plugin.Numa.Pins.{pin_cpus, add_pins, cpusets_of, all_texts, parse_joined}

-- Whether a parse returns a set with the number in it.
abbrev pub yields : Result (List ℤ) → ℤ → Bool
yields (ok cpus) x = contains cpus x
yields (err e) x = false

abbrev pub some_pin : List (Dict Text Text) → ℤ → Bool
some_pin [] x = false
some_pin (pin ∷ pins) x = yields (pin_cpus pin) x || some_pin pins x

-- If the loop over the pins returns, its result has what was in the set before and the CPUs of
-- every pin, and nothing else.
pub contains-add_pins :
    (pins : List (Dict Text Text)) (pinset s : List ℤ) (x : ℤ)
    → add_pins pinset pins ≡ ok s
    → contains s x ≡ (contains pinset x || some_pin pins x)
unfolding add_pins
contains-add_pins [] pinset s x h = ground arith
contains-add_pins (pin ∷ pins) pinset s x h =
    let (cpus', e, rest) = returned (pin_cpus pin) h in
    rw e (
      ground (
        arith,
        contains-union pinset cpus' x,
        contains-add_pins pins (union pinset cpus') s x rest,
      ))

-- Whether some specification of the list has the number in its set.
abbrev pub some_spec : List Text → ℤ → Bool
some_spec [] x = false
some_spec (spec ∷ specs) x = yields (parse_cpu_spec spec) x || some_spec specs x

abbrev joined : List Text → Text
joined = join (b',' ∷ [])

joined_step :
    (a b : Option (List Listing)) (ls : List Listing)
    → both a b ≡ some ls
    → (l : List Listing) × (m : List Listing) × (a ≡ some l) × (b ≡ some m) × (ls ≡ l ++ m)
joined_step none b ls h = cc
joined_step (some a) none ls h = cc
joined_step (some a) (some b) ls h = (a, b, refl, refl, cc)

alone :
    (spec : Text) (ls : List Listing) (x : ℤ)
    → listings (split b',' spec) ≡ some ls
    → listed ls x ≡ true
    → excluded ls x ≡ false
    → yields (parse_cpu_spec spec) x ≡ true
alone spec ls x h a b = rw (parse_cpu_spec_ok spec ls h) (ground (arith, contains-cpus ls x))

-- A number that the rules of a joined specification list and do not exclude is in the set of a part.
joined_lem :
    (spec : Text) (specs : List Text) (ls : List Listing) (x : ℤ)
    → listings (split b',' (joined (spec ∷ specs))) ≡ some ls
    → listed ls x ≡ true
    → excluded ls x ≡ false
    → some_spec (spec ∷ specs) x ≡ true
unfolding join
joined_lem spec [] ls x h a b = ground (arith, alone spec ls x h a b)
joined_lem spec (q ∷ specs) ls x h a b =
    let rest = joined (q ∷ specs) in
    let split_eq = split_at_sep b',' spec rest in
    let (l, m, e, f, ls_eq) =
      joined_step (listings (split b',' spec)) (listings (split b',' rest)) ls (
        sym (listings-append (split b',' spec) (split b',' rest))
        ∙ (ap listings (sym split_eq) ∙ h)) in
    let in_one : (listed l x || listed m x) ≡ true =
      sym (listed-append l m x) ∙ (ap (λ u. listed u x) (sym ls_eq) ∙ a) in
    let in_none : (excluded l x || excluded m x) ≡ false =
      sym (excluded-append l m x) ∙ (ap (λ u. excluded u x) (sym ls_eq) ∙ b) in
    elim (Bool-cases (listed l x)) [
      | inl here ↦ ground (arith, alone spec l x e here (ground arith))
      | inr there ↦ ground (arith, joined_lem q specs m x f (ground arith) (ground arith))
    ]

abbrev pub some_vcpu : List (Option (Dict Text Text)) → ℤ → Bool
some_vcpu [] x = false
some_vcpu (none ∷ vcpus) x = some_vcpu vcpus x
some_vcpu (some vcpu ∷ vcpus) x = yields (pin_cpus vcpu) x || some_vcpu vcpus x

texts_inv :
    (o : Option Text) (c : List (Option Text)) (texts : List Text)
    → all_texts (o ∷ c) ≡ ok texts
    → (t : Text) × (ts : List Text) × (o ≡ some t) × (all_texts c ≡ ok ts) × (texts ≡ t ∷ ts)
unfolding all_texts
texts_inv none c texts h = cc
texts_inv (some t) c texts h = let (ts, e, f) = returned (all_texts c) h in (t, ts, refl, e, cc)

pin_cpus_of_some :
    (vcpu : Dict Text Text) (t : Text)
    → lookup (codes "cpuset") vcpu ≡ some t
    → pin_cpus vcpu ≡ parse_cpu_spec t
unfolding pin_cpus
pin_cpus_of_some vcpu t h = ground arith

some_spec_lem :
    (vcpus : List (Option (Dict Text Text))) (cpusets : List (Option Text)) (texts : List Text)
    (x : ℤ)
    → cpusets_of vcpus ≡ ok cpusets
    → all_texts cpusets ≡ ok texts
    → some_spec texts x ≡ some_vcpu vcpus x
unfolding cpusets_of
some_spec_lem [] cpusets texts x h k =
    let no_cpusets : cpusets ≡ [] = cc in
    let no_texts : ok [] ≡ ok texts = unfold all_texts in (rw no_cpusets at k) in
    let e : texts ≡ [] = cc in rw e refl
some_spec_lem (none ∷ vcpus) cpusets texts x h k = cc
some_spec_lem (some vcpu ∷ vcpus) cpusets texts x h k =
    let (c, e, f) = returned (cpusets_of vcpus) h in
    let c_eq : cpusets ≡ lookup (codes "cpuset") vcpu ∷ c = cc in
    let (t, ts, p, g, q) = texts_inv (lookup (codes "cpuset") vcpu) c texts (rw c_eq at k) in
    rw (q, pin_cpus_of_some vcpu t p, some_spec_lem vcpus c ts x e g) refl

joined_text :
    (texts : List Text) (s : List ℤ) (x : ℤ)
    → parse_cpu_spec (joined texts) ≡ ok s
    → contains s x ≡ true
    → some_spec texts x ≡ true
joined_text [] s x h a =
    let empty : ok [] ≡ ok s = unfold parse_cpu_spec join split apply_rule strip difference in h in
    let e : s ≡ [] = cc in let inside : contains [] x ≡ true = rw e at a in unfold contains in cc
joined_text (spec ∷ specs) s x h a =
    let (ls, e, s_eq) = parse_cpu_spec_inv (joined (spec ∷ specs)) h in
    let inside = sym (contains-cpus ls x) ∙ (ap (λ u. contains u x) (sym s_eq) ∙ a) in
    joined_lem spec specs ls x e (ground arith) (ground arith)

-- The host CPUs found for guest CPUs are all pins of one of these guest CPUs: joining the
-- specifications of the pins adds none.
pub parse_joined_sound :
    (vcpus : List (Option (Dict Text Text))) (s : List ℤ) (x : ℤ)
    → parse_joined vcpus ≡ ok s
    → contains s x ≡ true
    → some_vcpu vcpus x ≡ true
unfolding parse_joined
parse_joined_sound vcpus s x h a =
    let (cpusets, e, rest) = returned (cpusets_of vcpus) h in
    let (texts, f, parsed) = returned (all_texts cpusets) rest in
    sym (some_spec_lem vcpus cpusets texts x e f) ∙ joined_text texts s x parsed a
