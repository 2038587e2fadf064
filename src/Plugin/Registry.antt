-- ===== src/Plugin/Registry.antt =====
-- What is registered at the groups and names of options, and a registrar of them.
use whitebox_tempest_plugin.Prelude.{
  ◌≡◌, refl, ◌∙◌, Bool, true, false, not, ◌&&◌, List, [], ◌∷◌, Option, none, some, arith,
  if◌then◌else◌, Bool-cases, inl, inr, both_left, both_right,
}
use whitebox_tempest_plugin.Config.Options.{Opt}
use whitebox_tempest_plugin.Exceptions.{ok}
use whitebox_tempest_plugin.Exceptions.Action.{Action}
use whitebox_tempest_plugin.Python.Text.{Text, text_eq}
use whitebox_tempest_plugin.Python.Text.Laws.{text_eq→≡}

-- What is registered at a group and a name.
abbrev pub Registry : Type 0
Registry = Text → Text → Option Opt

abbrev pub find_opt : Text → List Opt → Option Opt
find_opt name [] = none
find_opt name (o ∷ opts) =
    let rest = find_opt name opts in if text_eq o.name name then some o else rest

abbrev pub or_else : Option Opt → Option Opt → Option Opt
or_else none b = b
or_else (some a) b = some a

-- The options of a group, over what was registered.
unfoldable pub overlay : Text → List Opt → Registry → Registry
overlay g opts registry group name =
    if text_eq group g
    then or_else (find_opt name opts) (registry group name)
    else registry group name

-- An option of the lists, in the first list of its group.
unfoldable pub find_listed : Text → Text → List (Text × List Opt) → Option Opt
find_listed group name [] = none
find_listed group name ((g, opts) ∷ lists) =
    let rest = find_listed group name lists in if text_eq group g then find_opt name opts else rest

abbrev is_none : Option Opt → Bool
is_none none = true
is_none (some o) = false

-- No two options of a group share a name.
abbrev pub distinct_names : List Opt → Bool
distinct_names [] = true
distinct_names (o ∷ opts) = is_none (find_opt o.name opts) && distinct_names opts

-- Nothing is registered at the names of the options.
abbrev pub Free : Registry → Text → List Opt → Type 0
Free registry g opts =
    (name : Text) (o : Opt) → find_opt name opts ≡ some o → registry g name ≡ none

-- A registrar that finds nothing at the names of the options registers the options and nothing else. It
-- may raise where there is something, as oslo.config does for another option of the name.
pub record IsRegistrar {S : Type 0} (register_opt_group : Text → List Opt → Action S Unit)
    (registered : S → Registry) : Type 0 where
  pub registers :
      (g : Text) (opts : List Opt) (s : S)
      → distinct_names opts ≡ true
      → Free (registered s) g opts
      → ((register_opt_group g opts s).0 ≡ ok tt)
        × (registered (register_opt_group g opts s).1 ≡ overlay g opts (registered s))

pub overlay_other :
    (g : Text) (opts : List Opt) (registry : Registry) (group name : Text)
    → text_eq group g ≡ false
    → overlay g opts registry group name ≡ registry group name
unfolding overlay
overlay_other g opts registry group name h = rw h refl

overlay_found :
    (g : Text) (opts : List Opt) (registry : Registry) (group name : Text) (o : Opt)
    → text_eq group g ≡ true
    → find_opt name opts ≡ some o
    → overlay g opts registry group name ≡ some o
unfolding overlay
overlay_found g opts registry group name o h k = rw (h, k) refl

-- Registration of the lists in turn.
abbrev pub overlay_all : List (Text × List Opt) → Registry → Registry
overlay_all [] registry = registry
overlay_all ((g, opts) ∷ lists) registry = overlay_all lists (overlay g opts registry)

-- No list is of the group.
abbrev pub lacks_group : Text → List (Text × List Opt) → Bool
lacks_group group [] = true
lacks_group group ((g, opts) ∷ lists) = not (text_eq group g) && lacks_group group lists

abbrev pub distinct_groups : List (Text × List Opt) → Bool
distinct_groups [] = true
distinct_groups ((g, opts) ∷ lists) = lacks_group g lists && distinct_groups lists

overlay_all_other :
    (lists : List (Text × List Opt)) (registry : Registry) (group name : Text)
    → lacks_group group lists ≡ true
    → overlay_all lists registry group name ≡ registry group name
overlay_all_other [] registry group name h = refl
overlay_all_other ((g, opts) ∷ lists) registry group name h =
    overlay_all_other lists (overlay g opts registry) group name (ground arith)
    ∙ overlay_other g opts registry group name (ground arith)

pub overlay_all_found :
    (lists : List (Text × List Opt)) (registry : Registry) (group name : Text) (o : Opt)
    → distinct_groups lists ≡ true
    → find_listed group name lists ≡ some o
    → overlay_all lists registry group name ≡ some o
unfolding find_listed
overlay_all_found [] registry group name o d h = cc
overlay_all_found ((g, opts) ∷ lists) registry group name o d h =
    elim (Bool-cases (text_eq group g)) [
      | inl same ↦
          let e : group ≡ g = text_eq→≡ group g same in
          let absent : lacks_group group lists ≡ true = rw e (ground arith) in
          overlay_all_other lists (overlay g opts registry) group name absent
          ∙ overlay_found g opts registry group name o same (ground arith)
      | inr other ↦
          overlay_all_found lists (overlay g opts registry) group name o (ground arith)
            (ground arith)
    ]

overlay_missing :
    (g : Text) (opts : List Opt) (registry : Registry) (group name : Text)
    → text_eq group g ≡ true
    → find_opt name opts ≡ none
    → overlay g opts registry group name ≡ registry group name
unfolding overlay
overlay_missing g opts registry group name h k = rw (h, k) refl

pub overlay_all-none :
    (lists : List (Text × List Opt)) (registry : Registry) (group name : Text)
    → distinct_groups lists ≡ true
    → find_listed group name lists ≡ none
    → overlay_all lists registry group name ≡ registry group name
unfolding find_listed
overlay_all-none [] registry group name d h = refl
overlay_all-none ((g, opts) ∷ lists) registry group name d h = elim (Bool-cases (text_eq group g)) [
  | inl same ↦
      let absent : lacks_group group lists ≡ true = rw (text_eq→≡ group g same) (both_left _ _ d) in
      overlay_all_other lists (overlay g opts registry) group name absent
      ∙ overlay_missing g opts registry group name same (rw same at h)
  | inr other ↦
      overlay_all-none lists (overlay g opts registry) group name (both_right _ _ d) (rw other at h)
      ∙ overlay_other g opts registry group name other
]
