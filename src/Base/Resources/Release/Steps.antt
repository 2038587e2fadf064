-- ===== src/Base/Resources/Release/Steps.antt =====
-- A test as a sequence of calls of the helpers of base.py, and the cloud behind its clean-ups.
use whitebox_tempest_plugin.Prelude.{ℕ, ◌≡◌, refl, List, [], Option}
use whitebox_tempest_plugin.Config.{Conf}
use whitebox_tempest_plugin.Exceptions.{Result, ok, err}
use whitebox_tempest_plugin.Exceptions.Action.{Action}
use whitebox_tempest_plugin.Python.Dict.{Dict}
use whitebox_tempest_plugin.Python.Text.{Text}
use whitebox_tempest_plugin.Base.Api.{Api, Value, FlavorArguments, EncryptionArguments}
use whitebox_tempest_plugin.Base.Resources.{
  Case, on_cloud, create_test_server, create_flavor, create_keypair, create_volume_type,
  create_encryption_type, create_encrypted_volume, create_net_from_physical_network, create_subnet,
  create_port_from_vnic_type, copy_default_image,
}
use whitebox_tempest_plugin.Base.Resources.Release.{Resource, nothing, Keeps, IsApi, run_all}
use whitebox_tempest_plugin.Base.Resources.Release.Order.{run_all_lem}
use whitebox_tempest_plugin.Base.Resources.Release.Triples.{Covered, Post, call-Safe}
use whitebox_tempest_plugin.Base.Resources.Release.Helpers.{
  create_test_server-Safe, create_flavor-Safe, create_port-Safe, copy_default_image-Safe,
  create_net-Safe, create_subnet-Safe, create_keypair-Safe,
}
use whitebox_tempest_plugin.Base.Resources.Release.Types.{
  create_volume_type-Safe, create_encryption_type-Safe, create_encrypted_volume-Safe,
}

module _ {S : Type 0} (api : Api S) (held : S → List Resource) (conf : Conf)
    (class_name : Text) where
  -- What a test can do next, from a state: a call of a helper, whether it returns or raises, or
  -- another call of the cloud that neither creates nor deletes.
  pub data Step (c : Case S) : Case S → Type 1 where
    new_server : (arguments : api.ServerArguments) → Step c (create_test_server api arguments c).1
    new_flavor :
        (arguments : FlavorArguments) (specs : Dict Text Text)
        → Step c (create_flavor api arguments specs c).1
    new_keypair : (name : Option Text) → Step c (create_keypair api class_name conf name c).1
    new_volume_type :
        (name backend : Option Text) (specs kwargs : Dict Text Text)
        → Step c (create_volume_type api class_name name backend specs kwargs c).1
    new_encryption_type :
        (type_id : Option Text) (arguments : EncryptionArguments)
        → Step c (create_encryption_type api class_name type_id arguments c).1
    new_encrypted_volume :
        (name : Text) (arguments : EncryptionArguments)
        → Step c (create_encrypted_volume api class_name name arguments c).1
    new_network :
        (vlan : ℕ) (physical : Text)
        → Step c (create_net_from_physical_network api class_name vlan physical c).1
    new_subnet : (network_id : Text) → Step c (create_subnet api class_name conf network_id c).1
    new_port :
        (net vnic_type : Text) (policy : Option Text)
        → Step c (create_port_from_vnic_type api net vnic_type policy c).1
    new_image : (properties : Dict Text Value) → Step c (copy_default_image api conf properties c).1
    other_call :
        {A : Type 0} (action : Action S A) → Keeps held action → Step c (on_cloud action c).1

  -- A run of a test.
  pub data Run (c : Case S) : Case S → Type 1 where
    begun : Run c c
    then_step : {d e : Case S} → Run c d → Step d e → Run c e

  module _ (I : IsApi api held) (base : List Resource) where
    Post-Covered :
        {A : Type 0} (r : Result A) (c : Case S)
        → Post held base (λ (a : A). Covered held base) (r, c)
        → Covered held base c
    Post-Covered (ok a) c h = h
    Post-Covered (err e) c h = h

    Step-Covered : {c d : Case S} → Step c d → Covered held base c → Covered held base d
    Step-Covered {c} (new_server arguments) h =
        Post-Covered _ _ (create_test_server-Safe api held I base arguments c h)
    Step-Covered {c} (new_flavor arguments specs) h =
        Post-Covered _ _ (create_flavor-Safe api held I base arguments specs c h)
    Step-Covered {c} (new_keypair name) h =
        Post-Covered _ _ (create_keypair-Safe api held I base class_name conf name c h)
    Step-Covered {c} (new_volume_type name backend specs kwargs) h =
        Post-Covered _ _
          (create_volume_type-Safe api held I base class_name name backend specs kwargs c h)
    Step-Covered {c} (new_encryption_type type_id arguments) h =
        Post-Covered _ _
          (create_encryption_type-Safe api held I base class_name type_id arguments c h)
    Step-Covered {c} (new_encrypted_volume name arguments) h =
        Post-Covered _ _
          (create_encrypted_volume-Safe api held I base class_name name arguments c h)
    Step-Covered {c} (new_network vlan physical) h =
        Post-Covered _ _ (create_net-Safe api held I base class_name vlan physical c h)
    Step-Covered {c} (new_subnet network_id) h =
        Post-Covered _ _ (create_subnet-Safe api held I base class_name conf network_id c h)
    Step-Covered {c} (new_port net vnic_type policy) h =
        Post-Covered _ _ (create_port-Safe api held I base net vnic_type policy c h)
    Step-Covered {c} (new_image properties) h =
        Post-Covered _ _ (copy_default_image-Safe api held I base conf properties c h)
    Step-Covered {c} (other_call action k) h = Post-Covered _ _ (call-Safe held base action k c h)

    Run-Covered : {c d : Case S} → Run c d → Covered held base c → Covered held base d
    Run-Covered begun h = h
    Run-Covered (then_step run step) h = Step-Covered step (Run-Covered run h)

  -- In a cloud as IsApi describes it, where calls add just what they create, the newest resource can be
  -- deleted, and a server or a volume goes when the wait behind its deletion returns, a test that begins with no clean-ups leaves nothing behind: whichever helpers it
  -- calls, in whatever order, and whether they return or raise, its clean-ups, run the last first,
  -- leave the cloud with the resources that it held before the test.
  pub nothing_left :
      (I : IsApi api held) (s : S) (d : Case S)
      → Run (record { cleanups = []; cloud = s }) d
      → held (run_all api d.cleanups d.cloud) ≡ held s
  nothing_left I s d run = run_all_lem api held I (Run-Covered I (held s) run nothing) d.cloud refl
