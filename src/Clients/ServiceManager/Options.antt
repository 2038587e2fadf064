-- ===== src/Clients/ServiceManager/Options.antt =====
-- `config_options`: what the body finds in the configuration file, and what is left behind it.
use whitebox_tempest_plugin.Prelude.{
  ◌≡◌, refl, ap, ◌∙◌, true, false, List, [], ◌∷◌, ◌++◌, Option, arith, all, if◌then◌else◌,
}
use whitebox_tempest_plugin.Config.{Conf}
use whitebox_tempest_plugin.Exceptions.{Error, ok, err}
use whitebox_tempest_plugin.Exceptions.Action.{Action}
use whitebox_tempest_plugin.Python.Text.{Text}
use whitebox_tempest_plugin.Clients.ServiceManager.{
  ServiceManager, ConfOpt, get_conf_opt, set_conf_opt, set_all, restore_all, restart, enter_options,
  leave_options, config_options,
}
use whitebox_tempest_plugin.Clients.ServiceManager.File.{
  IsCrudini, get_conf_opt_lem, view-get_conf_opt, set_conf_opt-Returns, view-set_conf_opt,
}
use whitebox_tempest_plugin.Clients.ServiceManager.View.{
  View, write, write_all, snapshot, in_keys, distinct_keys, is_sendable, write_all-snapshot,
  write_all-append, write_all-snapshot_repeated,
}
use whitebox_tempest_plugin.World.{World}

-- A restart returns and leaves the configuration file alone.
pub record KeepsFile (W : World) (conf : Conf) (m : ServiceManager) (view : W.State → View)
    : Type 0 where
  pub restart_returns : (s : W.State) → (restart W conf m s).0 ≡ ok tt
  pub view-restart : (s : W.State) → view (restart W conf m s).1 ≡ view s

module _ (W : World) (conf : Conf) (m : ServiceManager) (view : W.State → View)
    (C : IsCrudini W conf m view) where
  abbrev get_opt : ConfOpt → Action W.State (Option Text)
  get_opt o = get_conf_opt W conf m o.section o.option

  abbrev set_opt : ConfOpt → Action W.State Text
  set_opt o = set_conf_opt W conf m o.section o.option o.value

  view-set-get :
      (o : ConfOpt) (s : W.State)
      → is_sendable o ≡ true
      → view (set_opt o (get_opt o s).1).1 ≡ write (view s) o
  view-set-get o s h =
      view-set_conf_opt W conf m view C o _ h
      ∙ ap (λ v. write v o)
          (view-get_conf_opt W conf m view C o.section o.option s (ground arith) (ground arith))

  set_all_lem :
      (opts : List ConfOpt) (s : W.State)
      → all is_sendable opts ≡ true
      → ((set_all W conf m opts s).0 ≡ ok (snapshot (view s) opts))
        × (view (set_all W conf m opts s).1 ≡ write_all (view s) opts)
  unfolding set_all
  set_all_lem [] s h = (refl, refl)
  set_all_lem (o ∷ opts) s h =
      let got =
        get_conf_opt_lem W conf m view C o.section o.option s (ground arith) (ground arith) in
      let (out, e) = set_conf_opt-Returns W conf m view C o (get_opt o s).1 (ground arith) in
      let (f, g) = set_all_lem opts (set_opt o (get_opt o s).1).1 (ground arith) in
      rw (got, e, f, g, view-set-get o s (ground arith)) (refl, refl)

  -- If the restart on entry raises and leaves the file alone, config_options raises what it raised,
  -- whatever the body, and the new values stay in the file: the restoring part is not reached. crudini
  -- edits the file, and the options are single words.
  pub config_options-restart_raises :
      {B : Type 0} (opts : List ConfOpt) (body : Unit → Action W.State B) (s : W.State) (e : Error)
      → all is_sendable opts ≡ true
      → (restart W conf m (set_all W conf m opts s).1).0 ≡ err e
      → view (restart W conf m (set_all W conf m opts s).1).1 ≡ view (set_all W conf m opts s).1
      → ((config_options W conf m opts body s).0 ≡ err e)
        × (view (config_options W conf m opts body s).1 ≡ write_all (view s) opts)
  unfolding config_options enter_options
  config_options-restart_raises opts body s e h raised kept =
      let (f, g) = set_all_lem opts s h in rw (f, raised, kept, g) (refl, refl)

module _ (W : World) (conf : Conf) (m : ServiceManager) (view : W.State → View)
    (C : IsCrudini W conf m view) (K : KeepsFile W conf m view) where
  restore_all_lem :
      (opts : List ConfOpt) (s : W.State)
      → all is_sendable opts ≡ true
      → ((restore_all W conf m opts s).0 ≡ ok tt)
        × (view (restore_all W conf m opts s).1 ≡ write_all (view s) opts)
  unfolding restore_all
  restore_all_lem [] s h = (refl, refl)
  restore_all_lem (o ∷ opts) s h =
      let (out, e) = set_conf_opt-Returns W conf m view C o s (ground arith) in
      let (f, g) =
        restore_all_lem opts (set_conf_opt W conf m o.section o.option o.value s).1
          (ground arith) in
      rw (e, f, g, view-set_conf_opt W conf m view C o s (ground arith)) (refl, refl)

  pub enter_options_lem :
      (opts : List ConfOpt) (s : W.State)
      → all is_sendable opts ≡ true
      → ((enter_options W conf m opts s).0 ≡ ok (snapshot (view s) opts))
        × (view (enter_options W conf m opts s).1 ≡ write_all (view s) opts)
  unfolding enter_options
  enter_options_lem opts s h =
      let (f, g) = set_all_lem W conf m view C opts s h in
      let s' = (set_all W conf m opts s).1 in
      rw (f, K.restart_returns s', K.view-restart s', g) (refl, refl)

  leave_options_lem :
      (opts : List ConfOpt) (s : W.State)
      → all is_sendable opts ≡ true
      → ((leave_options W conf m opts s).0 ≡ ok tt)
        × (view (leave_options W conf m opts s).1 ≡ write_all (view s) opts)
  unfolding leave_options
  leave_options_lem opts s h =
      let (f, g) = restore_all_lem opts s h in
      let s' = (restore_all W conf m opts s).1 in
      rw (f, K.restart_returns s', K.view-restart s', g) (refl, refl)

  module _ {B : Type 0} where
    pub config_options_lem :
        (opts : List ConfOpt) (body : Unit → Action W.State B) (s : W.State)
        → all is_sendable opts ≡ true
        → all is_sendable (snapshot (view s) opts) ≡ true
        → let entered = (enter_options W conf m opts s).1 in
          let left = body tt entered in
          ((config_options W conf m opts body s).0 ≡ left.0)
          × (view (config_options W conf m opts body s).1
              ≡ write_all (view left.1) (snapshot (view s) opts))
    unfolding config_options
    config_options_lem opts body s h k =
        let entered = (enter_options W conf m opts s).1 in
        let (f, g) = enter_options_lem opts s h in
        let (e, v) = leave_options_lem (snapshot (view s) opts) (body tt entered).1 k in
        rw (f, e, v) (refl, refl)

    -- Where crudini edits the file, and every restart returns and leaves the file alone: a body that
    -- runs under options of which none is listed twice returns or raises what it would,
    -- and leaves each of these options with the value that it had on entry, or absent if it was,
    -- and every other option as the body left it; the options and their old values are single words.
    pub config_options_restores :
        (opts : List ConfOpt) (body : Unit → Action W.State B) (s : W.State)
        → all is_sendable opts ≡ true
        → all is_sendable (snapshot (view s) opts) ≡ true
        → distinct_keys opts ≡ true
        → let left = body tt (enter_options W conf m opts s).1 in
          ((config_options W conf m opts body s).0 ≡ left.0)
          × ((section option : Text)
              → view (config_options W conf m opts body s).1 section option ≡ (
                  if in_keys section option opts
                  then view s section option
                  else view left.1 section option))
    config_options_restores opts body s h k d =
        let (e, v) = config_options_lem opts body s h k in
        (
          e,
          λ section option.
              ap (λ w. w section option) v ∙ write_all-snapshot opts (view s) _ section option d,
        )

    -- If an option is listed more than once, its old value is lost: the value of its last entry but
    -- one stays behind the body, whatever the body does and whatever else is listed. crudini edits
    -- the file, every restart returns and leaves the file alone, and the options and their old
    -- values are single words.
    pub config_options_repeated :
        (first : List ConfOpt) (o : ConfOpt) (between : List ConfOpt) (again : ConfOpt)
        (behind : List ConfOpt) (body : Unit → Action W.State B) (s : W.State)
        → let opts = first ++ (o ∷ (between ++ (again ∷ behind))) in
          all is_sendable opts ≡ true
          → all is_sendable (snapshot (view s) opts) ≡ true
          → o.section ≡ again.section
          → o.option ≡ again.option
          → in_keys again.section again.option between ≡ false
          → in_keys again.section again.option behind ≡ false
          → view (config_options W conf m opts body s).1 again.section again.option ≡ o.value
    config_options_repeated first o between again behind body s h k p q b c =
        let opts = first ++ (o ∷ (between ++ (again ∷ behind))) in
        let (e, v) = config_options_lem opts body s h k in
        ap (λ w. w again.section again.option) v
        ∙ write_all-snapshot_repeated first o between again behind (view s) _ p q b c

  -- When the body begins, each option has the value that the last entry for it gives, where crudini
  -- edits the file, every restart returns and leaves it alone, and the entries are single words.
  pub view-enter_options :
      (before : List ConfOpt) (o : ConfOpt) (behind : List ConfOpt) (s : W.State)
      → all is_sendable (before ++ (o ∷ behind)) ≡ true
      → in_keys o.section o.option behind ≡ false
      → ((enter_options W conf m (before ++ (o ∷ behind)) s).0
          ≡ ok (snapshot (view s) (before ++ (o ∷ behind))))
        × (view (enter_options W conf m (before ++ (o ∷ behind)) s).1 o.section o.option ≡ o.value)
  view-enter_options before o behind s h k =
      let (e, v) = enter_options_lem (before ++ (o ∷ behind)) s h in
      (e, ap (λ w. w o.section o.option) v ∙ write_all-append before o behind (view s) k)
