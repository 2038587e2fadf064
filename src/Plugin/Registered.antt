-- ===== src/Plugin/Registered.antt =====
-- What is registered, against what is listed.
use whitebox_tempest_plugin.Prelude.{
  ◌≡◌, refl, ap, sym, ◌∙◌, Bool, true, false, ◌&&◌, List, [], ◌∷◌, ◌++◌, none, some, arith,
  Bool-cases, inl, inr, both_left, both_right,
}
use mathlib.Core.Path.{fun_ext}
use whitebox_tempest_plugin.Config.Options.{
  Opt, general_group, nova_compute_group, database_group, hardware_group,
}
use whitebox_tempest_plugin.Config.Options.General.{general_opts}
use whitebox_tempest_plugin.Config.Options.Services.{nova_compute_opts, database_opts}
use whitebox_tempest_plugin.Config.Options.Hardware.{hardware_opts}
use whitebox_tempest_plugin.Config.Options.Features.{compute_features_group_opts}
use whitebox_tempest_plugin.Exceptions.{Result, ok, err}
use whitebox_tempest_plugin.Exceptions.Action.{Action, pure, resume, ◌>>◌}
use whitebox_tempest_plugin.Plugin.{register_opts, get_opt_lists}
use whitebox_tempest_plugin.Python.Text.{Text, text_eq}
use whitebox_tempest_plugin.Python.Text.Laws.{text_eq→≡, text_eq_refl}
use whitebox_tempest_plugin.Plugin.Registry.{
  Registry, find_opt, find_listed, distinct_names, IsRegistrar, overlay_other, overlay_all,
  lacks_group, distinct_groups, overlay_all_found, overlay_all-none,
}

-- All that the plugin registers.
abbrev pub tables : Text → List (Text × List Opt)
tables features = get_opt_lists ++ ((features, compute_features_group_opts) ∷ [])

abbrev all_distinct : List (Text × List Opt) → Bool
all_distinct [] = true
all_distinct ((g, opts) ∷ lists) = distinct_names opts && all_distinct lists

-- Nothing is registered at any place of the lists.
abbrev pub AllFree : Registry → List (Text × List Opt) → Type 0
AllFree registry lists =
    (group name : Text) (o : Opt)
    → find_listed group name lists ≡ some o
    → registry group name ≡ none

abbrev register_all :
    {S : Type 0} → (Text → List Opt → Action S Unit) → List (Text × List Opt) → Action S Unit
register_all register [] = pure tt
register_all register ((g, opts) ∷ lists) = register g opts >> register_all register lists

find_listed_head :
    (g name : Text) (opts : List Opt) (lists : List (Text × List Opt))
    → find_listed g name ((g, opts) ∷ lists) ≡ find_opt name opts
unfolding find_listed
find_listed_head g name opts lists = rw (text_eq_refl g) refl

find_listed_tail :
    (g group name : Text) (opts : List Opt) (lists : List (Text × List Opt))
    → text_eq group g ≡ false
    → find_listed group name ((g, opts) ∷ lists) ≡ find_listed group name lists
unfolding find_listed
find_listed_tail g group name opts lists h = rw h refl

find_listed_lacking :
    (group name : Text) (lists : List (Text × List Opt))
    → lacks_group group lists ≡ true
    → find_listed group name lists ≡ none
unfolding find_listed
find_listed_lacking group name [] h = refl
find_listed_lacking group name ((g, opts) ∷ lists) h =
    ground (arith, find_listed_lacking group name lists)

some-none : {o : Opt} → some o ≡ none → ⊥
some-none h = cc

other_group :
    (g group name : Text) (o : Opt) (lists : List (Text × List Opt))
    → lacks_group g lists ≡ true
    → find_listed group name lists ≡ some o
    → text_eq group g ≡ false
other_group g group name o lists h k = elim (Bool-cases (text_eq group g)) [
  | inl same ↦
      let gone : find_listed group name lists ≡ none =
        rw (text_eq→≡ group g same) (find_listed_lacking g name lists h) in
      absurd (some-none (sym k ∙ gone))
  | inr other ↦ other
]

module _ {S : Type 0} (register : Text → List Opt → Action S Unit) (registered : S → Registry)
    (R : IsRegistrar register registered) where
  register_all_lem :
      (lists : List (Text × List Opt)) (s : S)
      → distinct_groups lists ≡ true
      → all_distinct lists ≡ true
      → AllFree (registered s) lists
      → ((register_all register lists s).0 ≡ ok tt)
        × (registered (register_all register lists s).1 ≡ overlay_all lists (registered s))
  register_all_lem [] s d n f = (refl, refl)
  register_all_lem ((g, opts) ∷ lists) s d n f =
      let (e, r) =
        R.registers g opts s (both_left _ _ n)
          (λ name o h. f g name o (find_listed_head g name opts lists ∙ h)) in
      let s' = (register g opts s).1 in
      let free : AllFree (registered s') lists = λ group name o h.
        let apart = other_group g group name o lists (both_left _ _ d) h in
        ap (λ x. x group name) r
        ∙ overlay_other g opts (registered s) group name apart
        ∙ f group name o (find_listed_tail g group name opts lists apart ∙ h) in
      let (e', r') = register_all_lem lists s' (both_right _ _ d) (both_right _ _ n) free in
      rw (e, e') (refl, r' ∙ ap (overlay_all lists) r)

all_distinct-tables : (features : Text) → all_distinct (tables features) ≡ true
unfolding get_opt_lists text_eq
all_distinct-tables features = refl

resume-pure : {S : Type 0} (r : Result (Unit {0})) (s : S) → resume r (λ u. pure tt) s ≡ (r, s)
resume-pure (ok u) s = refl
resume-pure (err e) s = refl

last_call : {S : Type 0} (action : Action S (Unit {0})) → (action >> pure tt) ≡ action
last_call action = fun_ext λ s. resume-pure (action s).0 (action s).1

register_opts-register_all :
    {S : Type 0} (register : Text → List Opt → Action S Unit) (features : Text)
    → register_opts register features ≡ register_all register (tables features)
unfolding register_opts get_opt_lists
register_opts-register_all register features =
    ap
      (λ last.
        register general_group general_opts
        >> (register nova_compute_group nova_compute_opts
            >> (register database_group database_opts
                >> (register hardware_group hardware_opts >> last))))
      (sym (last_call (register features compute_features_group_opts)))

-- Where the group of compute features is none of the plugin's own groups, and nothing is registered yet
-- at the names of the plugin's options, register_opts returns; then each option that get_opt_lists lists,
-- and each option of compute features, is registered in its group as it is defined, and whatever else was
-- registered is as before.
pub register_opts-tables :
    {S : Type 0} (register : Text → List Opt → Action S Unit) (registered : S → Registry)
    (R : IsRegistrar register registered) (features : Text) (s : S)
    → distinct_groups (tables features) ≡ true
    → AllFree (registered s) (tables features)
    → let after = register_opts register features s in
      (after.0 ≡ ok tt)
      × ((group name : Text) (o : Opt)
          → find_listed group name (tables features) ≡ some o
          → registered after.1 group name ≡ some o)
      × ((group name : Text)
          → find_listed group name (tables features) ≡ none
          → registered after.1 group name ≡ registered s group name)
register_opts-tables register registered R features s d f =
    let same = ap (λ action. action s) (register_opts-register_all register features) in
    let (e, r) =
      register_all_lem register registered R (tables features) s d (all_distinct-tables features)
        f in
    let r' = ap (λ x. registered x.1) same ∙ r in
    (
      ap (λ x. x.0) same ∙ e,
      λ group name o h.
          ap (λ x. x group name) r'
          ∙ overlay_all_found (tables features) (registered s) group name o d h,
      λ group name h.
          ap (λ x. x group name) r'
          ∙ overlay_all-none (tables features) (registered s) group name d h,
    )
