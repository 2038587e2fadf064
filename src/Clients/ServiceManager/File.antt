-- ===== src/Clients/ServiceManager/File.antt =====
-- What the methods of `ServiceManager` rely on at the remote host: `crudini` reads and writes the
-- configuration file, and the commands of the service leave the file alone.
use whitebox_tempest_plugin.Prelude.{◌≡◌, refl, true, Option, none, some}
use whitebox_tempest_plugin.Config.{Conf}
use whitebox_tempest_plugin.Exceptions.{Result, ok, err, ssh_exec_command_failed}
use whitebox_tempest_plugin.Python.Text.{Text, codes, strip, has_part}
use whitebox_tempest_plugin.Clients.ServiceManager.{
  ServiceManager, ConfOpt, run, read_value, crudini_get, crudini_set, crudini_del, get_conf_opt,
  set_conf_opt,
}
use whitebox_tempest_plugin.Clients.ServiceManager.View.{View, write, is_word, is_sendable}
use whitebox_tempest_plugin.World.{World}

abbrev pub Returns : {A : Type 0} → Result A → Type 0
Returns {A} r = (a : A) × (r ≡ ok a)

-- The answer of `crudini --get` to an option with a value, which it prints with white space round
-- it, and to one that is absent.
abbrev pub Answers : Option Text → Result Text → Type 0
Answers (some v) r = (out : Text) × (r ≡ ok out) × (strip out ≡ v)
Answers none r =
    (message : Text) × (r ≡ err (ssh_exec_command_failed message))
    × (has_part message (codes "not found") ≡ true)

pub record IsCrudini (W : World) (conf : Conf) (m : ServiceManager) (view : W.State → View)
    : Type 0 where
  pub get_answers :
      (section option : Text) (s : W.State)
      → is_word section ≡ true
      → is_word option ≡ true
      → Answers (view s section option) (run W conf m (crudini_get W conf m section option) s).0
  pub view-get :
      (section option : Text) (s : W.State)
      → is_word section ≡ true
      → is_word option ≡ true
      → view (run W conf m (crudini_get W conf m section option) s).1 ≡ view s
  pub set_returns :
      (section option value : Text) (s : W.State)
      → is_sendable (record { section = section; option = option; value = some value }) ≡ true
      → Returns (run W conf m (crudini_set W conf m section option value) s).0
  pub view-set :
      (section option value : Text) (s : W.State)
      → is_sendable (record { section = section; option = option; value = some value }) ≡ true
      → view (run W conf m (crudini_set W conf m section option value) s).1
        ≡ write (view s) (record { section = section; option = option; value = some value })
  pub del_returns :
      (section option : Text) (s : W.State)
      → is_sendable (record { section = section; option = option; value = none }) ≡ true
      → Returns (run W conf m (crudini_del W conf m section option) s).0
  pub view-del :
      (section option : Text) (s : W.State)
      → is_sendable (record { section = section; option = option; value = none }) ≡ true
      → view (run W conf m (crudini_del W conf m section option) s).1
        ≡ write (view s) (record { section = section; option = option; value = none })

module _ (W : World) (conf : Conf) (m : ServiceManager) (view : W.State → View)
    (C : IsCrudini W conf m view) where
  read_value_of_answer :
      (v : Option Text) (r : Result Text) → Answers v r → read_value W conf m r ≡ ok v
  read_value_of_answer (some v) r (out, e, f) = rw (e, f) refl
  read_value_of_answer none r (message, e, f) = rw e (rw f refl)

  -- `get_conf_opt` returns the value of the option, and None where it is absent.
  pub get_conf_opt_lem :
      (section option : Text) (s : W.State)
      → is_word section ≡ true
      → is_word option ≡ true
      → (get_conf_opt W conf m section option s).0 ≡ ok (view s section option)
  unfolding get_conf_opt
  get_conf_opt_lem section option s h k =
      read_value_of_answer (view s section option) _ (C.get_answers section option s h k)

  pub view-get_conf_opt :
      (section option : Text) (s : W.State)
      → is_word section ≡ true
      → is_word option ≡ true
      → view (get_conf_opt W conf m section option s).1 ≡ view s
  unfolding get_conf_opt
  view-get_conf_opt section option s h k = C.view-get section option s h k

  pub set_conf_opt-Returns :
      (o : ConfOpt) (s : W.State)
      → is_sendable o ≡ true
      → Returns (set_conf_opt W conf m o.section o.option o.value s).0
  unfolding set_conf_opt
  set_conf_opt-Returns o s h = go o.value h
    where
      go :
          (v : Option Text)
          → is_sendable (record o { value = v }) ≡ true
          → Returns (set_conf_opt W conf m o.section o.option v s).0
      go none h = C.del_returns o.section o.option s h
      go (some v) h = C.set_returns o.section o.option v s h

  -- `set_conf_opt` writes the option, and a value of None removes it.
  pub view-set_conf_opt :
      (o : ConfOpt) (s : W.State)
      → is_sendable o ≡ true
      → view (set_conf_opt W conf m o.section o.option o.value s).1 ≡ write (view s) o
  unfolding set_conf_opt
  view-set_conf_opt o s h = go o.value h
    where
      go :
          (v : Option Text)
          → is_sendable (record o { value = v }) ≡ true
          → view (set_conf_opt W conf m o.section o.option v s).1
            ≡ write (view s) (record o { value = v })
      go none h = C.view-del o.section o.option s h
      go (some v) h = C.view-set o.section o.option v s h
