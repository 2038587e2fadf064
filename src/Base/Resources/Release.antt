-- ===== src/Base/Resources/Release.antt =====
-- What the cloud holds while a test runs, and behind its clean-ups.
pub mod Order
pub mod Triples
pub mod Helpers
pub mod Types
pub mod Steps
use whitebox_tempest_plugin.Prelude.{
  ◌≡◌, ◌≢◌, refl, ap, sym, ◌∙◌, Bool, true, false, ◌&&◌, not, List, [], ◌∷◌, Option, some, arith,
  if◌then◌else◌,
}
use whitebox_tempest_plugin.Exceptions.{Error, Result, ok, err}
use whitebox_tempest_plugin.Exceptions.Action.{Action}
use whitebox_tempest_plugin.Python.Dict.{Dict}
use whitebox_tempest_plugin.Python.Text.{Text, text_eq}
use whitebox_tempest_plugin.Python.Text.Laws.{text_eq_refl}
use whitebox_tempest_plugin.Base.Api.{
  Api, Value, VolumeType, TypeResponse, Volume, EncryptionArguments, FlavorArguments,
  NetworkArguments, SubnetArguments,
}
use whitebox_tempest_plugin.Base.Resources.{
  Cleanup, admin_delete_server, delete_keypair, delete_image, delete_network, delete_subnet,
  delete_port, cleanup_volume_type, or_empty, of_type, delete_volumes, delete_type_with_volumes,
  admin_delete, run_cleanup,
}

pub data Resource : Type 0 where
  server keypair image network subnet port : Text → Resource
  volume_type : VolumeType → Resource
  volume : Volume → Resource

abbrev pub resource_of : Cleanup → Resource
resource_of (admin_delete_server id) = server id
resource_of (delete_keypair name) = keypair name
resource_of (delete_image id) = image id
resource_of (delete_network id) = network id
resource_of (delete_subnet id) = subnet id
resource_of (delete_port id) = port id
resource_of (cleanup_volume_type t) = volume_type t

abbrev pub is_plain : Cleanup → Bool
is_plain (cleanup_volume_type t) = false
is_plain _ = true

abbrev pub volumes_in : List Resource → List Volume
volumes_in [] = []
volumes_in (volume v ∷ held) = v ∷ volumes_in held
volumes_in (_ ∷ held) = volumes_in held

-- No volume is of a type with the name.
abbrev pub is_unused : Text → List Volume → Bool
is_unused name [] = true
is_unused name (v ∷ volumes) = not (text_eq v.volume_type name) && is_unused name volumes

-- The clean-ups that are registered, and what they are for: a list of resources, the newest first,
-- that stands on those that were there before.
pub data Owns (base : List Resource) : List Cleanup → List Resource → Type 0 where
  nothing : Owns base [] base
  plain :
      {cleanups : List Cleanup} {held : List Resource} (c : Cleanup)
      → is_plain c ≡ true
      → Owns base cleanups held
      → Owns base (c ∷ cleanups) (resource_of c ∷ held)
  a_type :
      {cleanups : List Cleanup} {held : List Resource} (t : VolumeType)
      → is_unused t.name (volumes_in held) ≡ true
      → Owns base cleanups held
      → Owns base (cleanup_volume_type t ∷ cleanups) (volume_type t ∷ held)
  type_and_volume :
      {cleanups : List Cleanup} {held : List Resource} (t : VolumeType) (id : Text)
      → is_unused t.name (volumes_in held) ≡ true
      → Owns base cleanups held
      → Owns base
          (cleanup_volume_type t ∷ cleanups)
          (volume (record { id = id; volume_type = t.name }) ∷ volume_type t ∷ held)

abbrev pub Made :
    {A : Type 0} → (A → List Resource) → List Resource → List Resource → Result A → Type 0
Made made before after (ok a) = after ≡ made a
Made made before after (err e) = after ≡ before

-- A creating call that returns adds what it creates, and one that raises adds nothing.
abbrev pub Creates : {S A : Type 0} → (S → List Resource) → (A → Resource) → Action S A → Type 0
Creates held make action =
    (s : _) → Made (λ a. make a ∷ held s) (held s) (held (action s).1) (action s).0

-- The newest resource can be deleted: nothing depends on it.
abbrev pub Deletes : {S A : Type 0} → (S → List Resource) → Resource → Action S A → Type 0
Deletes {S} {A} held r action =
    (s : S) (rest : List Resource)
    → held s ≡ r ∷ rest
    → ((a : A) × ((action s).0 ≡ ok a)) × (held (action s).1 ≡ rest)

abbrev pub Keeps : {S A : Type 0} → (S → List Resource) → Action S A → Type 0
Keeps held action = (s : _) → held (action s).1 ≡ held s

abbrev pub type_of : TypeResponse → VolumeType
type_of r = record { id = or_empty r.id; name = r.name }

-- What the tests rely on: calls that create, calls that delete the newest resource, and calls that
-- do neither; the deletion of a server or a volume is over when a wait for it returns. Flavors are not
-- among the resources: Tempest's own create_flavor removes them, behind the last test of a class. A new
-- volume type has a name that no volume uses.
pub record IsApi {S : Type 0} (api : Api S) (held : S → List Resource) : Type 1 where
  pub held-rand_name : (prefix : Option Text) (name : Text) → Keeps held (api.rand_name prefix name)
  pub create_test_server_lem :
      (a : api.ServerArguments) → Creates held server (api.create_test_server a)
  -- a resource whose deletion has begun, with those that stay
  pub Going : Resource → List Resource → S → Type 0
  pub delete_server_lem :
      (id : Text) (s : S) (rest : List Resource)
      → held s ≡ server id ∷ rest
      → ((api.delete_server id s).0 ≡ ok tt) × Going (server id) rest (api.delete_server id s).1
  pub wait_for_server_termination_lem :
      (id : Text) (s : S) (rest : List Resource)
      → Going (server id) rest s
      → held (api.wait_for_server_termination id s).1 ≡ rest
  pub create_keypair_lem :
      (name : Text) → Creates held (λ (_ : Unit {0}). keypair name) (api.create_keypair name)
  pub delete_keypair_lem : (name : Text) → Deletes held (keypair name) (api.delete_keypair name)
  pub held-show_image : (id : Text) → Keeps held (api.show_image id)
  pub held-show_image_file : (id : Text) → Keeps held (api.show_image_file id)
  pub create_image_lem : (d : Dict Text Value) → Creates held image (api.create_image d)
  pub delete_image_lem : (id : Text) → Deletes held (image id) (api.delete_image id)
  pub held-store_image_file : (id bits : Text) → Keeps held (api.store_image_file id bits)
  pub list_volumes_lem : (s : S) → (api.list_volumes s).0 ≡ ok (volumes_in (held s))
  pub held-list_volumes : Keeps held api.list_volumes
  pub create_volume_lem :
      (t : Text)
      → Creates held (λ id. volume (record { id = id; volume_type = t })) (api.create_volume t)
  pub delete_volume_lem :
      (v : Volume) (s : S) (rest : List Resource)
      → held s ≡ volume v ∷ rest
      → ((api.delete_volume v.id s).0 ≡ ok tt) × Going (volume v) rest (api.delete_volume v.id s).1
  pub wait_for_resource_deletion_lem :
      (v : Volume) (s : S) (rest : List Resource)
      → Going (volume v) rest s
      → ((api.wait_for_resource_deletion v.id s).0 ≡ ok tt)
        × (held (api.wait_for_resource_deletion v.id s).1 ≡ rest)
  pub create_volume_type_lem :
      (name : Text) (specs kwargs : Dict Text Text)
      → Creates held (λ r. volume_type (type_of r)) (api.create_volume_type name specs kwargs)
  pub created_is_unused :
      (name : Text) (specs kwargs : Dict Text Text) (s : S) (r : TypeResponse)
      → (api.create_volume_type name specs kwargs s).0 ≡ ok r
      → is_unused r.name (volumes_in (held s)) ≡ true
  -- ids are not empty
  pub created_id :
      (name : Text) (specs kwargs : Dict Text Text) (s : S) (r : TypeResponse)
      → (api.create_volume_type name specs kwargs s).0 ≡ ok r
      → (id : Text) × (r.id ≡ some id) × (id ≢ [])
  pub delete_volume_type_lem :
      (t : VolumeType) (s : S) (rest : List Resource)
      → is_unused t.name (volumes_in rest) ≡ true
      → held s ≡ volume_type t ∷ rest
      → held (api.delete_volume_type t.id s).1 ≡ rest
  pub held-create_flavor : (a : FlavorArguments) → Keeps held (api.create_flavor a)
  pub held-set_flavor_extra_spec :
      (id : Text) (specs : Dict Text Text) → Keeps held (api.set_flavor_extra_spec id specs)
  pub held-create_encryption_type :
      (id : Text) (a : EncryptionArguments) → Keeps held (api.create_encryption_type id a)
  pub create_network_lem : (a : NetworkArguments) → Creates held network (api.create_network a)
  pub delete_network_lem : (id : Text) → Deletes held (network id) (api.delete_network id)
  pub create_subnet_lem : (a : SubnetArguments) → Creates held subnet (api.create_subnet a)
  pub delete_subnet_lem : (id : Text) → Deletes held (subnet id) (api.delete_subnet id)
  pub create_port_lem :
      (net : Text) (d : Dict Text Text) → Creates held port (api.create_port net d)
  pub delete_port_lem : (id : Text) → Deletes held (port id) (api.delete_port id)

-- `doCleanups` of unittest: the clean-ups in turn, the last registered first; one that raises is
-- reported and does not stop the others.
abbrev pub run_all : {S : Type 0} → Api S → List Cleanup → S → S
run_all api [] s = s
run_all api (c ∷ cleanups) s = run_all api cleanups (run_cleanup api c s).1
