-- ===== src/Base/Api.antt =====
-- The calls of the OpenStack clients and of Tempest's base class that base.py makes, as a parameter.
use whitebox_tempest_plugin.Prelude.{ℕ, Bool, List, Option}
use whitebox_tempest_plugin.Exceptions.Action.{Action}
use whitebox_tempest_plugin.Python.Dict.{Dict}
use whitebox_tempest_plugin.Python.Text.{Text}

-- An attribute of an image.
pub data Value : Type 0 where
  text : Text → Value
  number : ℕ → Value

-- An attribute of a port: its binding profile is a dict.
pub data Attribute : Type 0 where
  word : Text → Attribute
  profile : Dict Text Text → Attribute

pub record FlavorArguments : Type 0 where
  pub ram : ℕ
  pub vcpus : ℕ
  pub disk : ℕ
  pub name : Option Text
  pub is_public : Text

pub record NetworkArguments : Type 0 where
  pub name : Text
  pub network_type : Text
  pub physical_network : Text
  pub segmentation_id : ℕ
  pub shared : Bool

pub record SubnetArguments : Type 0 where
  pub name : Text
  pub network_id : Text
  pub cidr : Text
  pub ip_version : ℕ

pub record VolumeType : Type 0 where
  pub id : Text
  pub name : Text

-- What the creation of a volume type answers: a dict that may lack an id.
pub record TypeResponse : Type 0 where
  pub id : Option Text
  pub name : Text

pub record Volume : Type 0 where
  pub id : Text
  pub volume_type : Text

pub record EncryptionArguments : Type 0 where
  pub provider : Option Text
  pub key_size : Option ℕ
  pub cipher : Option Text
  pub control_location : Option Text

-- The creating calls return the id of what they create.
pub record Api (S : Type 0) : Type 1 where
  -- `data_utils.rand_name`, with the prefix where one is given
  pub rand_name : Option Text → Text → Action S Text
  -- the arguments of Tempest's `create_test_server`, and the call
  pub ServerArguments : Type 0
  pub create_test_server : ServerArguments → Action S Text
  pub delete_server : Text → Action S Unit
  pub wait_for_server_termination : Text → Action S Unit
  pub wait_for_server_status : Text → Text → Action S Unit
  pub reboot_server : Text → Text → Action S Unit
  pub get_host_for_server : Text → Action S Text
  -- `live_migrate_server(server_id, block_migration='auto', host=target_host)`
  pub live_migrate_server : Text → Option Text → Action S Unit
  pub evacuate_server : Text → Dict Text Text → Action S Unit
  pub create_flavor : FlavorArguments → Action S Text
  pub set_flavor_extra_spec : Text → Dict Text Text → Action S Unit
  pub create_keypair : Text → Action S Unit
  pub delete_keypair : Text → Action S Unit
  pub show_image : Text → Action S (Dict Text Value)
  pub show_image_file : Text → Action S Text
  pub create_image : Dict Text Value → Action S Text
  pub delete_image : Text → Action S Unit
  pub store_image_file : Text → Text → Action S Unit
  pub list_volumes : Action S (List Volume)
  pub create_volume : Text → Action S Text
  pub delete_volume : Text → Action S Unit
  pub wait_for_resource_deletion : Text → Action S Unit
  -- a name, extra specs and other keyword arguments
  pub create_volume_type : Text → Dict Text Text → Dict Text Text → Action S TypeResponse
  pub delete_volume_type : Text → Action S Unit
  pub create_encryption_type : Text → EncryptionArguments → Action S Unit
  pub create_network : NetworkArguments → Action S Text
  pub delete_network : Text → Action S Unit
  pub create_subnet : SubnetArguments → Action S Text
  pub delete_subnet : Text → Action S Unit
  -- `create_port(network_id=..., **vnic_params)`
  pub create_port : Text → Dict Text Text → Action S Text
  pub delete_port : Text → Action S Unit
  -- `show_port(port_id)['port']`
  pub show_port : Text → Action S (Dict Text Attribute)
  -- `'%s' % attribute`
  pub format : Attribute → Text
