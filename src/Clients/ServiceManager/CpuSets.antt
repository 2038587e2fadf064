-- ===== src/Clients/ServiceManager/CpuSets.antt =====
-- `get_cpu_shared_set` and `get_cpu_dedicated_set`, against what the configuration file holds.
use whitebox_tempest_plugin.Prelude.{
  ◌≡◌, refl, ap, ◌∙◌, true, ◌&&◌, not, List, [], ◌∷◌, Option, none, some, arith, all,
}
use whitebox_tempest_plugin.Prelude.Int.{ℤ}
use whitebox_tempest_plugin.Config.{Conf}
use whitebox_tempest_plugin.Exceptions.{ok}
use whitebox_tempest_plugin.Python.Equality.{int_eq}
use whitebox_tempest_plugin.Python.Set.{contains}
use whitebox_tempest_plugin.Python.Text.{Text, codes}
use whitebox_tempest_plugin.Hardware.CpuSpec.{parse_cpu_spec}
use whitebox_tempest_plugin.Hardware.CpuSpec.Print.{Rule, is_valid, print_rules}
use whitebox_tempest_plugin.Hardware.CpuSpec.RoundTrip.{
  any_lists, any_omits, parse_cpu_spec-print_rules,
}
use whitebox_tempest_plugin.Clients.ServiceManager.{
  ServiceManager, ConfOpt, get_conf_opt, cpus_of, or_get, get_cpu_shared_set, get_cpu_dedicated_set,
  enter_options,
}
use whitebox_tempest_plugin.Clients.ServiceManager.File.{
  IsCrudini, get_conf_opt_lem, view-get_conf_opt,
}
use whitebox_tempest_plugin.Clients.ServiceManager.Options.{KeepsFile, view-enter_options}
use whitebox_tempest_plugin.Clients.ServiceManager.View.{View, is_sendable}
use whitebox_tempest_plugin.World.{World}

abbrev pub or_else : Option Text → Option Text → Option Text
or_else none b = b
or_else (some a) b = some a

abbrev pub shared_set_opt : Text → ConfOpt
shared_set_opt text = record {
  section = codes "compute";
  option = codes "cpu_shared_set";
  value = some text;
}

module _ (W : World) (conf : Conf) (m : ServiceManager) (view : W.State → View)
    (C : IsCrudini W conf m view) where
  -- The shared set is parsed from [compute]cpu_shared_set, and is empty where the option is absent
  -- or empty.
  pub get_cpu_shared_set_lem :
      (s : W.State)
      → (get_cpu_shared_set W conf m s).0
        ≡ cpus_of W conf m (view s (codes "compute") (codes "cpu_shared_set"))
  unfolding get_cpu_shared_set
  get_cpu_shared_set_lem s =
      rw (get_conf_opt_lem W conf m view C (codes "compute") (codes "cpu_shared_set") s refl refl)
        refl

  or_get_lem :
      (found : Option Text) (s : W.State)
      → (or_get W conf m found (codes "DEFAULT") (codes "vcpu_pin_set") s).0
        ≡ ok (or_else found (view s (codes "DEFAULT") (codes "vcpu_pin_set")))
  or_get_lem none s =
      get_conf_opt_lem W conf m view C (codes "DEFAULT") (codes "vcpu_pin_set") s refl refl
  or_get_lem (some v) s = refl

  -- The dedicated set is parsed from [compute]cpu_dedicated_set where that is present, and from the
  -- older [DEFAULT]vcpu_pin_set where it is not; the set is empty where both are absent. A
  -- cpu_dedicated_set without a value gives the empty set, whatever vcpu_pin_set says.
  pub get_cpu_dedicated_set_lem :
      (s : W.State)
      → (get_cpu_dedicated_set W conf m s).0
        ≡ cpus_of W conf m (
            or_else
              (view s (codes "compute") (codes "cpu_dedicated_set"))
              (view s (codes "DEFAULT") (codes "vcpu_pin_set")))
  unfolding get_cpu_dedicated_set
  get_cpu_dedicated_set_lem s =
      let s1 = (get_conf_opt W conf m (codes "compute") (codes "cpu_dedicated_set") s).1 in
      let found = view s (codes "compute") (codes "cpu_dedicated_set") in
      let same =
        view-get_conf_opt W conf m view C (codes "compute") (codes "cpu_dedicated_set") s refl
          refl in
      rw
        (
          get_conf_opt_lem W conf m view C (codes "compute") (codes "cpu_dedicated_set") s refl
              refl,
          or_get_lem found s1,
          same,
        )
        refl

  cpus_of_parsed :
      (text : Text) (s : List ℤ)
      → is_sendable (shared_set_opt text) ≡ true
      → parse_cpu_spec text ≡ ok s
      → cpus_of W conf m (some text) ≡ ok s
  cpus_of_parsed [] s h p = cc
  cpus_of_parsed (c ∷ t) s h p = p

  -- When a body begins in config_options with [compute]cpu_shared_set set to a specification printed
  -- from rules whose ranges are not reversed, the manager reports the set that the rules describe,
  -- where crudini edits the file, and every restart returns and leaves it alone.
  pub get_cpu_shared_set-enter_options :
      (K : KeepsFile W conf m view) (rule : Rule) (rules : List Rule) (s : W.State)
      → is_sendable (shared_set_opt (print_rules (rule ∷ rules))) ≡ true
      → all is_valid (rule ∷ rules) ≡ true
      → (cpus : List ℤ) × ((get_cpu_shared_set W conf m
            (enter_options W conf m (shared_set_opt (print_rules (rule ∷ rules)) ∷ []) s).1).0
          ≡ ok cpus)
        × ((x : ℤ)
            → contains cpus x ≡ (any_lists (rule ∷ rules) x && not (any_omits (rule ∷ rules) x)))
  get_cpu_shared_set-enter_options K rule rules s h v =
      let text = print_rules (rule ∷ rules) in
      let opt = shared_set_opt text in
      let (cpus, e, same) = parse_cpu_spec-print_rules rule rules v in
      let set = (view-enter_options W conf m view C K [] opt [] s (ground arith) refl).1 in
      (
        cpus,
        get_cpu_shared_set_lem (enter_options W conf m (opt ∷ []) s).1
            ∙ (ap (cpus_of W conf m) set ∙ cpus_of_parsed text cpus h e),
        same,
      )
