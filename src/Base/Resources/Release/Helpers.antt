-- ===== src/Base/Resources/Release/Helpers.antt =====
-- The helpers of base.py that create servers, flavors, key pairs, networks, subnets, ports and images
-- leave everything they make covered by a clean-up.
use whitebox_tempest_plugin.Prelude.{ℕ, refl, List, [], ◌∷◌, Option, none, some}
use whitebox_tempest_plugin.Config.{Conf}
use whitebox_tempest_plugin.Exceptions.{Result, ok, err}
use whitebox_tempest_plugin.Exceptions.Action.{Action, pure, from_result}
use whitebox_tempest_plugin.Python.Dict.{Dict}
use whitebox_tempest_plugin.Python.Text.{Text, codes}
use whitebox_tempest_plugin.Base.Api.{Api, Value, FlavorArguments}
use whitebox_tempest_plugin.Base.Resources.{
  admin_delete_server, delete_keypair, delete_image, delete_network, delete_subnet, delete_port,
  on_cloud, or_empty, item, create_test_server, create_flavor, name_or_random, create_keypair,
  create_net_from_physical_network, create_subnet, vnic_params, create_port_from_vnic_type,
  image_arguments, copy_default_image,
}
use whitebox_tempest_plugin.Base.Resources.Release.{Resource, Keeps, IsApi}
use whitebox_tempest_plugin.Base.Resources.Release.Triples.{
  Safe, bind-Safe, call-Safe, registered-Safe,
}

module _ {S : Type 0} (held : S → List Resource) (base : List Resource) where
  pub pure-Safe : {A : Type 0} (a : A) → Safe held base (pure a)
  pure-Safe a c h = h

  pub from_result-Safe : {A : Type 0} (r : Result A) → Safe held base (from_result r)
  from_result-Safe (ok a) c h = h
  from_result-Safe (err e) c h = h

  pub name_or_random-Safe :
      (name : Text) (random : Action S Text)
      → Keeps held random
      → Safe held base (name_or_random name random)
  unfolding name_or_random
  name_or_random-Safe [] random k = call-Safe held base random k
  name_or_random-Safe (x ∷ name) random k = pure-Safe (x ∷ name)

  pub image_arguments-Safe :
      (image properties : Dict Text Value) → Safe held base (image_arguments image properties)
  unfolding image_arguments
  image_arguments-Safe image properties =
      bind-Safe held base (from_result (item (codes "container_format") image)) _
        (from_result-Safe _)
        λ a.
          bind-Safe held base (from_result (item (codes "disk_format") image)) _
            (from_result-Safe _)
            λ b.
              bind-Safe held base (from_result (item (codes "min_disk") image)) _
                (from_result-Safe _)
                λ d.
                  bind-Safe held base (from_result (item (codes "min_ram") image)) _
                    (from_result-Safe _) λ e c h. h

module _ {S : Type 0} (api : Api S) (held : S → List Resource) (I : IsApi api held)
    (base : List Resource) where
  pub create_test_server-Safe :
      (arguments : api.ServerArguments) → Safe held base (create_test_server api arguments)
  unfolding create_test_server
  create_test_server-Safe arguments =
      registered-Safe held base admin_delete_server (api.create_test_server arguments) pure
        (λ a. refl) (I.create_test_server_lem arguments) (pure-Safe held base)

  pub create_flavor-Safe :
      (arguments : FlavorArguments) (specs : Dict Text Text)
      → Safe held base (create_flavor api arguments specs)
  unfolding create_flavor
  create_flavor-Safe arguments [] =
      call-Safe held base (api.create_flavor arguments) (I.held-create_flavor arguments)
  create_flavor-Safe arguments (spec ∷ specs) =
      bind-Safe held base (on_cloud (api.create_flavor arguments)) _
        (call-Safe held base (api.create_flavor arguments) (I.held-create_flavor arguments))
        λ id.
          bind-Safe held base (on_cloud (api.set_flavor_extra_spec id (spec ∷ specs))) _
            (call-Safe held base _ (I.held-set_flavor_extra_spec id (spec ∷ specs)))
            λ u. pure-Safe held base id

  pub create_port-Safe :
      (net vnic_type : Text) (policy : Option Text)
      → Safe held base (create_port_from_vnic_type api net vnic_type policy)
  unfolding create_port_from_vnic_type
  create_port-Safe net vnic_type policy =
      registered-Safe held base delete_port
        (api.create_port net (vnic_params vnic_type (or_empty policy))) pure (λ a. refl)
        (I.create_port_lem net _) (pure-Safe held base)

  pub copy_default_image-Safe :
      (conf : Conf) (properties : Dict Text Value)
      → Safe held base (copy_default_image api conf properties)
  unfolding copy_default_image
  copy_default_image-Safe conf properties =
      bind-Safe held base (on_cloud (api.show_image conf.compute.image_ref)) _
        (call-Safe held base _ (I.held-show_image conf.compute.image_ref))
        λ image.
          bind-Safe held base (on_cloud (api.show_image_file conf.compute.image_ref)) _
            (call-Safe held base _ (I.held-show_image_file _))
            λ bits.
              bind-Safe held base (image_arguments image properties) _
                (image_arguments-Safe held base image properties)
                λ d.
                  registered-Safe held base delete_image (api.create_image d) _ (λ a. refl)
                    (I.create_image_lem d)
                    λ id.
                      bind-Safe held base (on_cloud (api.store_image_file id bits)) _
                        (call-Safe held base _ (I.held-store_image_file id bits))
                        λ u. pure-Safe held base id

  module _ (class_name : Text) where
    random_name-Safe :
        (prefix : Option Text) (name : Text) → Safe held base (on_cloud (api.rand_name prefix name))
    random_name-Safe prefix name = call-Safe held base _ (I.held-rand_name prefix name)

    pub create_net-Safe :
        (vlan : ℕ) (physical : Text)
        → Safe held base (create_net_from_physical_network api class_name vlan physical)
    unfolding create_net_from_physical_network
    create_net-Safe vlan physical =
        bind-Safe held base (on_cloud (api.rand_name none class_name)) _
          (random_name-Safe none class_name)
          λ name.
            registered-Safe held base delete_network (api.create_network _) pure (λ a. refl)
              (I.create_network_lem _) (pure-Safe held base)

    pub create_subnet-Safe :
        (conf : Conf) (network_id : Text)
        → Safe held base (create_subnet api class_name conf network_id)
    unfolding create_subnet
    create_subnet-Safe conf network_id =
        bind-Safe held base (on_cloud (api.rand_name none class_name)) _
          (random_name-Safe none class_name)
          λ name.
            registered-Safe held base delete_subnet (api.create_subnet _) pure (λ a. refl)
              (I.create_subnet_lem _) (pure-Safe held base)

    pub create_keypair-Safe :
        (conf : Conf) (name : Option Text)
        → Safe held base (create_keypair api class_name conf name)
    unfolding create_keypair
    create_keypair-Safe conf name =
        bind-Safe held base
          (name_or_random (or_empty name)
            (api.rand_name (some conf.resource_name_prefix) class_name))
          _
          (name_or_random-Safe held base (or_empty name) _
            (I.held-rand_name (some conf.resource_name_prefix) class_name))
          λ name'.
            registered-Safe held base (λ u. delete_keypair name') (api.create_keypair name')
              (λ u. pure name') (λ a. refl) (I.create_keypair_lem name')
              (λ u. pure-Safe held base name')
