-- ===== src/Base/Resources.antt =====
-- The helpers of base.py that create resources, each with the clean-up that it registers. Clients
-- that the helpers take as arguments are those of the administrator, their default.
pub mod Release
use whitebox_tempest_plugin.Prelude.{
  ℕ, Bool, true, false, List, [], ◌∷◌, ◌++◌, Option, none, some, if◌then◌else◌,
}
use whitebox_tempest_plugin.Config.{Conf}
use whitebox_tempest_plugin.Exceptions.{
  Error, Result, ok, err, key_error, assertion_error, not_found,
}
use whitebox_tempest_plugin.Exceptions.Action.{Action, pure, from_result, ◌>>=◌, ◌>>◌}
use whitebox_tempest_plugin.Python.Dict.{Dict, lookup, insert}
use whitebox_tempest_plugin.Python.Equality.{text_instance}
use whitebox_tempest_plugin.Python.Text.{Text, codes, text_eq}
use whitebox_tempest_plugin.Base.Api.{
  Api, Value, FlavorArguments, NetworkArguments, SubnetArguments, VolumeType, TypeResponse, Volume,
  EncryptionArguments,
}

-- The calls that the helpers hand to `addCleanup`.
pub data Cleanup : Type 0 where
  admin_delete_server delete_keypair delete_image delete_network delete_subnet delete_port :
      Text → Cleanup
  cleanup_volume_type : VolumeType → Cleanup

-- A test: what it has registered, the last first, and the cloud.
pub record Case (S : Type 0) : Type 0 where
  pub cleanups : List Cleanup
  pub cloud : S

module _ {S : Type 0} where
  abbrev pub on_cloud : {A : Type 0} → Action S A → Action (Case S) A
  on_cloud action c = ((action c.cloud).0, record c { cloud = (action c.cloud).1 })

  -- `self.addCleanup`
  abbrev pub add_cleanup : Cleanup → Action (Case S) Unit
  add_cleanup cleanup c = (ok tt, record c { cleanups = cleanup ∷ c.cleanups })

  -- `try: action except Exception: LOG.exception(...)`
  abbrev pub logged : {A : Type 0} → Action S A → Action S Unit
  logged action s = (ok tt, (action s).1)

  abbrev pub forgive_not_found : {A : Type 0} → Result A × S → Result (Unit {0}) × S
  forgive_not_found (ok a, s) = (ok tt, s)
  forgive_not_found (err not_found, s) = (ok tt, s)
  forgive_not_found (err e, s) = (err e, s)

  -- `test_utils.call_and_ignore_notfound_exc`
  abbrev pub ignore_not_found : {A : Type 0} → Action S A → Action S Unit
  ignore_not_found action s = forgive_not_found (action s)

-- `not name`
abbrev pub or_empty : Option Text → Text
or_empty none = []
or_empty (some t) = t

-- The extra specs, with a backend where one is given.
abbrev pub with_backend : Text → Dict Text Text → Dict Text Text
with_backend [] extra_specs = extra_specs
with_backend (c ∷ backend) extra_specs =
    insert (codes "volume_backend_name") (c ∷ backend) extra_specs

-- `image[key]`
abbrev pub item : Text → Dict Text Value → Result Value
item key image = elim (lookup key image) [ none ↦ err key_error | some v ↦ ok v ]

-- `d.update(other)`
abbrev pub update : {V : Type 0} → Dict Text V → Dict Text V → Dict Text V
update d [] = d
update d ((k, v) ∷ other) = update (insert k v d) other

module _ {S : Type 0} where
  -- The name that is given, or a random one where it is missing or empty.
  unfoldable pub name_or_random : Text → Action S Text → Action (Case S) Text
  name_or_random [] random = on_cloud random
  name_or_random (c ∷ name) random = pure (c ∷ name)

  unfoldable pub image_arguments :
      Dict Text Value → Dict Text Value → Action (Case S) (Dict Text Value)
  image_arguments image properties = do
    container_format ← from_result (item (codes "container_format") image)
    disk_format ← from_result (item (codes "disk_format") image)
    min_disk ← from_result (item (codes "min_disk") image)
    min_ram ← from_result (item (codes "min_ram") image)
    pure (
        update
          ((codes "container_format", container_format)
            ∷ (codes "disk_format", disk_format)
            ∷ (codes "min_disk", min_disk)
            ∷ (codes "min_ram", min_ram)
            ∷ [])
          properties)

unfoldable pub vnic_params : Text → Text → Dict Text Text
vnic_params vnic_type [] = (codes "binding:vnic_type", vnic_type) ∷ []
vnic_params vnic_type (c ∷ policy) =
    (codes "binding:vnic_type", vnic_type) ∷ (codes "numa_affinity_policy", c ∷ policy) ∷ []

-- `assertIn('id', volume_type)`, and the type with its id.
abbrev pub checked_id : Option Text → Text → Result VolumeType
checked_id none name = err assertion_error
checked_id (some id) name = ok (record { id = id; name = name })

unfoldable pub with_id : TypeResponse → Result VolumeType
with_id response = checked_id response.id response.name

-- The volumes whose type has the name.
abbrev pub of_type : Text → List Volume → List Volume
of_type type_name [] = []
of_type type_name (v ∷ volumes) =
    let rest = of_type type_name volumes in
    if text_eq v.volume_type type_name then v ∷ rest else rest

module _ {S : Type 0} (api : Api S) where
  unfoldable pub admin_delete : Text → Action S Unit
  admin_delete server_id =
      logged (do api.delete_server server_id; api.wait_for_server_termination server_id)

  unfoldable pub delete_volumes : List Volume → Action S Unit
  delete_volumes [] = pure tt
  delete_volumes (v ∷ volumes) = do
    ignore_not_found (api.delete_volume v.id)
    api.wait_for_resource_deletion v.id
    delete_volumes volumes

  unfoldable pub delete_type_with_volumes : VolumeType → Action S Unit
  unfolding delete_volumes
  delete_type_with_volumes volume_type = do
    volumes ← api.list_volumes
    delete_volumes (of_type volume_type.name volumes)
    api.delete_volume_type volume_type.id

  unfoldable pub run_cleanup : Cleanup → Action S Unit
  unfolding admin_delete delete_type_with_volumes
  run_cleanup (admin_delete_server id) = admin_delete id
  run_cleanup (delete_keypair name) = api.delete_keypair name
  run_cleanup (delete_image id) = api.delete_image id
  run_cleanup (delete_network id) = api.delete_network id
  run_cleanup (delete_subnet id) = api.delete_subnet id
  run_cleanup (delete_port id) = api.delete_port id
  run_cleanup (cleanup_volume_type volume_type) = delete_type_with_volumes volume_type

  unfoldable pub create_test_server : api.ServerArguments → Action (Case S) Text
  create_test_server arguments = do
    server_id ← on_cloud (api.create_test_server arguments)
    add_cleanup (admin_delete_server server_id)
    pure server_id

  unfoldable pub create_flavor : FlavorArguments → Dict Text Text → Action (Case S) Text
  create_flavor arguments [] = on_cloud (api.create_flavor arguments)
  create_flavor arguments (spec ∷ extra_specs) = do
    flavor_id ← on_cloud (api.create_flavor arguments)
    on_cloud (api.set_flavor_extra_spec flavor_id (spec ∷ extra_specs))
    pure flavor_id

  module _ (class_name : Text) where
    unfoldable pub create_keypair : Conf → Option Text → Action (Case S) Text
    unfolding name_or_random
    create_keypair conf name = do
      name' ←
          name_or_random (or_empty name) (api.rand_name (some conf.resource_name_prefix) class_name)
      on_cloud (api.create_keypair name')
      add_cleanup (delete_keypair name')
      pure name'

    unfoldable pub create_volume_type :
        Option Text → Option Text → Dict Text Text → Dict Text Text → Action (Case S) VolumeType
    unfolding name_or_random with_id
    create_volume_type name backend_name extra_specs kwargs = do
      name' ←
          name_or_random (or_empty name) (api.rand_name none (class_name ++ codes "-volume-type"))
      randomized_name ← on_cloud (api.rand_name none (codes "scenario-type-" ++ name'))
      response ← on_cloud (
          api.create_volume_type randomized_name (with_backend (or_empty backend_name) extra_specs)
            kwargs)
      volume_type ← from_result (with_id response)
      add_cleanup (cleanup_volume_type volume_type)
      pure volume_type

    unfoldable pub type_or_new : Text → Action (Case S) Text
    unfolding create_volume_type
    type_or_new [] = do volume_type ← create_volume_type none none [] []; pure volume_type.id
    type_or_new (c ∷ type_id) = pure (c ∷ type_id)

    unfoldable pub create_encryption_type : Option Text → EncryptionArguments → Action (Case S) Unit
    unfolding type_or_new
    create_encryption_type type_id arguments = do
      id ← type_or_new (or_empty type_id)
      on_cloud (api.create_encryption_type id arguments)

    unfoldable pub create_encrypted_volume : Text → EncryptionArguments → Action (Case S) Text
    unfolding create_volume_type create_encryption_type
    create_encrypted_volume volume_type arguments = do
      created ← create_volume_type (some volume_type) none [] []
      create_encryption_type (some created.id) arguments
      on_cloud (api.create_volume created.name)

    unfoldable pub create_net_from_physical_network : ℕ → Text → Action (Case S) Text
    create_net_from_physical_network vlan_id physical_net = do
      name_net ← on_cloud (api.rand_name none class_name)
      net ← on_cloud (
          api.create_network (record {
            name = name_net;
            network_type = codes "vlan";
            physical_network = physical_net;
            segmentation_id = vlan_id;
            shared = true;
          }))
      add_cleanup (delete_network net)
      pure net

    unfoldable pub create_subnet : Conf → Text → Action (Case S) Text
    create_subnet conf network_id = do
      name_subnet ← on_cloud (api.rand_name none class_name)
      subnet ← on_cloud (
          api.create_subnet (record {
            name = name_subnet;
            network_id = network_id;
            cidr = conf.network.project_network_cidr;
            ip_version = 4;
          }))
      add_cleanup (delete_subnet subnet)
      pure subnet

  unfoldable pub create_port_from_vnic_type : Text → Text → Option Text → Action (Case S) Text
  unfolding vnic_params
  create_port_from_vnic_type net vnic_type numa_affinity_policy = do
    port ← on_cloud (api.create_port net (vnic_params vnic_type (or_empty numa_affinity_policy)))
    add_cleanup (delete_port port)
    pure port

  unfoldable pub copy_default_image : Conf → Dict Text Value → Action (Case S) Text
  unfolding image_arguments
  copy_default_image conf properties = do
    image ← on_cloud (api.show_image conf.compute.image_ref)
    image_data ← on_cloud (api.show_image_file conf.compute.image_ref)
    create_dict ← image_arguments image properties
    new_image ← on_cloud (api.create_image create_dict)
    add_cleanup (delete_image new_image)
    on_cloud (api.store_image_file new_image image_data)
    pure new_image
