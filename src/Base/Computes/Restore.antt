-- ===== src/Base/Computes/Restore.antt =====
-- `config_all_computes` gives every compute its configuration back.
use whitebox_tempest_plugin.Prelude.{
  ◌≡◌, refl, ap, ◌∙◌, Bool, true, false, List, [], ◌∷◌, Option, none, some, map, All, All-map2, all,
  arith, if◌then◌else◌,
}
use whitebox_tempest_plugin.Config.{Conf}
use whitebox_tempest_plugin.Exceptions.{Result, ok, err}
use whitebox_tempest_plugin.Exceptions.Action.{Action, resume, try_finally, ◌>>=◌}
use whitebox_tempest_plugin.Python.Text.{Text}
use whitebox_tempest_plugin.Clients.ServiceManager.{
  ServiceManager, ConfOpt, run, restart, get_conf_opt, set_conf_opt, set_all, restore_all,
  enter_options, leave_options, config_options,
}
use whitebox_tempest_plugin.Clients.ServiceManager.File.{IsCrudini}
use whitebox_tempest_plugin.Clients.ServiceManager.Options.{KeepsFile, config_options_restores}
use whitebox_tempest_plugin.Clients.ServiceManager.View.{
  View, snapshot, in_keys, distinct_keys, is_sendable,
}
use whitebox_tempest_plugin.Base.Computes.{configure_each}
use whitebox_tempest_plugin.Waiters.{ServicesClient}
use whitebox_tempest_plugin.World.{World}

-- An action leaves what a view shows as it was.
abbrev pub Keeps : {S V A : Type 0} → (S → V) → Action S A → Type 0
Keeps view action = (s : _) → view (action s).1 ≡ view s

abbrev returned_ok : {A : Type 0} → Result A → Bool
returned_ok (ok a) = true
returned_ok (err e) = false

module _ {S V A B : Type 0} (view : S → V) where
  resume-Keeps :
      (r : Result A) (f : A → Action S B) (s : S)
      → ((a : A) → Keeps view (f a))
      → view (resume r f s).1 ≡ view s
  resume-Keeps (ok a) f s h = h a s
  resume-Keeps (err e) f s h = refl

  bind-Keeps :
      (m : Action S A) (f : A → Action S B)
      → Keeps view m
      → ((a : A) → Keeps view (f a))
      → Keeps view (m >>= f)
  bind-Keeps m f h k s = resume-Keeps (m s).0 f (m s).1 k ∙ h s

module _ (W : World) (conf : Conf) where
  -- A manager and the configuration file that it edits.
  abbrev pub Site : Type 0
  Site = ServiceManager × (W.State → View)

  -- The commands of a manager leave the file of another alone.
  pub record Leaves (m : ServiceManager) (view : W.State → View) : Type 0 where
    pub run_keeps : (command : Text) → Keeps view (run W conf m command)
    pub restart_keeps : Keeps view (restart W conf m)

  pub record IsSite (site : Site) : Type 0 where
    pub crudini : IsCrudini W conf site.0 site.1
    pub keeps_file : KeepsFile W conf site.0 site.1

  -- The managers ahead of a site in the list leave its file alone.
  abbrev pub Apart : List Site → Type 0
  Apart [] = Unit
  Apart (a ∷ sites) = All (λ (b : Site). Leaves a.0 b.1) sites × Apart sites

  module _ (m : ServiceManager) (view : W.State → View) (L : Leaves m view) where
    set_conf_opt-Keeps :
        (section option : Text) (v : Option Text)
        → Keeps view (set_conf_opt W conf m section option v)
    unfolding set_conf_opt
    set_conf_opt-Keeps section option none s = L.run_keeps _ s
    set_conf_opt-Keeps section option (some v) s = L.run_keeps _ s

    get_conf_opt-Keeps : (section option : Text) → Keeps view (get_conf_opt W conf m section option)
    unfolding get_conf_opt
    get_conf_opt-Keeps section option s = L.run_keeps _ s

    set_all-Keeps : (opts : List ConfOpt) → Keeps view (set_all W conf m opts)
    unfolding set_all
    set_all-Keeps [] = λ s. refl
    set_all-Keeps (o ∷ opts) =
        bind-Keeps view (get_conf_opt W conf m o.section o.option) _
          (get_conf_opt-Keeps o.section o.option)
          λ initial.
            bind-Keeps view (set_conf_opt W conf m o.section o.option o.value) _
              (set_conf_opt-Keeps o.section o.option o.value)
              λ out. bind-Keeps view (set_all W conf m opts) _ (set_all-Keeps opts) λ values s. refl

    restore_all-Keeps : (opts : List ConfOpt) → Keeps view (restore_all W conf m opts)
    unfolding restore_all
    restore_all-Keeps [] = λ s. refl
    restore_all-Keeps (o ∷ opts) =
        bind-Keeps view (set_conf_opt W conf m o.section o.option o.value) _
          (set_conf_opt-Keeps o.section o.option o.value) λ out. restore_all-Keeps opts

    enter_options-Keeps : (opts : List ConfOpt) → Keeps view (enter_options W conf m opts)
    unfolding enter_options
    enter_options-Keeps opts =
        bind-Keeps view (set_all W conf m opts) _ (set_all-Keeps opts)
          λ values. bind-Keeps view (restart W conf m) _ L.restart_keeps λ u s. refl

    leave_options-Keeps : (values : List ConfOpt) → Keeps view (leave_options W conf m values)
    unfolding leave_options
    leave_options-Keeps values =
        bind-Keeps view (restore_all W conf m values) _ (restore_all-Keeps values)
          λ u. L.restart_keeps

    after_enter :
        {B : Type 0} (r : Result (List ConfOpt)) (s : W.State) (inner : Action W.State B)
        (section option : Text)
        → view
            (resume r (λ values. try_finally inner (leave_options W conf m values)) s).1
            section
            option
          ≡ (if returned_ok r then view (inner s).1 section option else view s section option)
    after_enter (ok values) s inner section option =
        ap (λ v. v section option) (leave_options-Keeps values (inner s).1)
    after_enter (err e) s inner section option = refl

    -- What the body leaves of an option in the file of another manager is what is found at the end.
    config_options_keeps :
        {B : Type 0} (opts : List ConfOpt) (inner : Unit → Action W.State B) (s : W.State)
        (section option : Text)
        → view (inner tt (enter_options W conf m opts s).1).1 section option ≡ view s section option
        → view (config_options W conf m opts inner s).1 section option ≡ view s section option
    unfolding config_options
    config_options_keeps opts inner s section option h =
        let r = (enter_options W conf m opts s).0 in
        let entered = (enter_options W conf m opts s).1 in
        let same = ap (λ v. v section option) (enter_options-Keeps opts s) in
        after_enter r entered (inner tt) section option ∙ ground (arith, h, same)

  abbrev pub managers : List Site → List ServiceManager
  managers = map λ (site : Site). site.0

  -- If the hosts' managers each edit their own file by crudini, and every restart returns and leaves the
  -- files alone, then behind a body that runs in
  -- config_all_computes every host has each listed option as it was before, whatever the body did
  -- to the options and whether it returned or raised; no option is listed twice, and all values are
  -- single words.
  pub configure_each_restores :
      {B : Type 0} (client : ServicesClient) (opts : List ConfOpt) (section option : Text)
      → all is_sendable opts ≡ true
      → distinct_keys opts ≡ true
      → in_keys section option opts ≡ true
      → (sites : List Site) (body : List Unit → Action W.State B) (s : W.State) → All IsSite sites
      → Apart sites
      → All (λ (b : Site). all is_sendable (snapshot (b.1 s) opts) ≡ true) sites
      → All
          (λ (b : Site).
            b.1 (configure_each W conf client opts (managers sites) body s).1 section option
            ≡ b.1 s section option)
          sites
  unfolding configure_each
  configure_each_restores client opts section option h d k [] body s is_site apart old = tt
  configure_each_restores client opts section option h d k ((m, view) ∷ sites) body s is_site apart
        old =
      let entered = (enter_options W conf m opts s).1 in
      let inner = λ (u : Unit {0}).
        configure_each W conf client opts (managers sites) (λ us. body (u ∷ us)) in
      let site = is_site.0 in
      let restored =
        config_options_restores W conf m view site.crudini site.keeps_file opts inner s h old.0 d in
      let old' =
        All-map2 (λ (b : Site). Leaves m b.1)
          (λ (b : Site). all is_sendable (snapshot (b.1 s) opts) ≡ true)
          (λ (b : Site). all is_sendable (snapshot (b.1 entered) opts) ≡ true)
          (λ b l o. rw (enter_options-Keeps m b.1 l opts s) o) sites apart.0 old.1 in
      let rest =
        configure_each_restores client opts section option h d k sites (λ us. body (tt ∷ us))
          entered is_site.1 apart.1 old' in
      (
        restored.1 section option ∙ rw k refl,
        All-map2 (λ (b : Site). Leaves m b.1)
            (λ (b : Site). b.1 (inner tt entered).1 section option ≡ b.1 entered section option)
            (λ (b : Site).
              b.1 (config_options W conf m opts inner s).1 section option ≡ b.1 s section option)
            (λ b l e.
              config_options_keeps m b.1 l opts inner s section option
                (e ∙ ap (λ v. v section option) (enter_options-Keeps m b.1 l opts s)))
            sites apart.0 rest,
      )
