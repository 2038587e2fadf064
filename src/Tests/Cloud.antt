-- ===== src/Tests/Cloud.antt =====
-- A small cloud, and a test that makes an encrypted volume, a network with a subnet and a port, and a
-- server.
use whitebox_tempest_plugin.Prelude.{
  ℕ, suc, ◌≡◌, ◌≢◌, refl, ap, sym, Bool, true, false, List, [], ◌∷◌, none, some, length,
  if◌then◌else◌,
}
use whitebox_tempest_plugin.Exceptions.{Result, ok, err, not_found, key_error}
use whitebox_tempest_plugin.Exceptions.Action.{Action}
use whitebox_tempest_plugin.Python.Text.{Text, codes, text_eq}
use whitebox_tempest_plugin.Python.Text.Laws.{text_eq_refl}
use whitebox_tempest_plugin.Base.Api.{Api, VolumeType, TypeResponse, EncryptionArguments}
use whitebox_tempest_plugin.Base.Resources.{
  Case, create_encrypted_volume, create_net_from_physical_network, create_subnet,
  create_port_from_vnic_type, create_test_server, create_volume_type, name_or_random,
  create_encryption_type, type_or_new, vnic_params,
}
use whitebox_tempest_plugin.Base.Resources.Release.{
  Resource, server, keypair, image, network, subnet, port, volume_type, volume, volumes_in,
  is_unused, type_of, IsApi, Made, Deletes, run_all,
}
use whitebox_tempest_plugin.Base.Resources.Release.Steps.{
  Run, begun, then_step, new_encrypted_volume, new_network, new_subnet, new_port, new_server,
  nothing_left,
}
use whitebox_tempest_plugin.Tests.Host.{conf}

ok_injective : {A : Type 0} {a b : A} → ok a ≡ ok b → a ≡ b
ok_injective h = cc

record Cloud : Type 0 where
  held : List Resource
  next_id : ℕ

abbrev is_server : Text → Resource → Bool
is_server id (server x) = text_eq x id
is_server id _ = false

abbrev is_keypair : Text → Resource → Bool
is_keypair id (keypair x) = text_eq x id
is_keypair id _ = false

abbrev is_image : Text → Resource → Bool
is_image id (image x) = text_eq x id
is_image id _ = false

abbrev is_network : Text → Resource → Bool
is_network id (network x) = text_eq x id
is_network id _ = false

abbrev is_subnet : Text → Resource → Bool
is_subnet id (subnet x) = text_eq x id
is_subnet id _ = false

abbrev is_port : Text → Resource → Bool
is_port id (port x) = text_eq x id
is_port id _ = false

abbrev is_type : Text → Resource → Bool
is_type id (volume_type x) = text_eq x.id id
is_type id _ = false

abbrev is_volume : Text → Resource → Bool
is_volume id (volume x) = text_eq x.id id
is_volume id _ = false

abbrev without : (Resource → Bool) → List Resource → List Resource
without p [] = []
without p (r ∷ rs) = let rest = without p rs in if p r then rs else r ∷ rest

abbrev found : (Resource → Bool) → List Resource → Result (Unit {0})
found p [] = err not_found
found p (r ∷ rs) = let rest = found p rs in if p r then ok tt else rest

abbrev new_id : Cloud → Text
new_id s = s.next_id ∷ []

abbrev adds : (Text → Resource) → Action Cloud Text
adds make s = (ok (new_id s), record { held = make (new_id s) ∷ s.held; next_id = suc s.next_id })

abbrev removes : (Resource → Bool) → Action Cloud Unit
removes p s = (found p s.held, record s { held = without p s.held })

-- The deletion is accepted; the resource is there until the wait for it.
abbrev accepts : (Resource → Bool) → Action Cloud Unit
accepts p s = (found p s.held, s)

abbrev does_nothing : Action Cloud Unit
does_nothing s = (ok tt, s)

abbrev says : Action Cloud Text
says s = (ok (codes "x"), s)

abbrev new_type : Bool → Text → Action Cloud TypeResponse
new_type false name s = (err key_error, s)
new_type true name s =
    let t : VolumeType = record { id = new_id s; name = name } in
    (
      ok (record { id = some t.id; name = name }),
      record { held = volume_type t ∷ s.held; next_id = suc s.next_id },
    )

abbrev cloud_api : Api Cloud
cloud_api = record {
  rand_name = λ prefix name s. (ok name, s);
  ServerArguments = Unit {0};
  create_test_server = λ u. adds server;
  delete_server = λ id. accepts (is_server id);
  wait_for_server_termination = λ id. removes (is_server id);
  wait_for_server_status = λ id status. does_nothing;
  reboot_server = λ id type. does_nothing;
  get_host_for_server = λ id. says;
  live_migrate_server = λ id host. does_nothing;
  evacuate_server = λ id kwargs. does_nothing;
  create_flavor = λ a. says;
  set_flavor_extra_spec = λ id specs. does_nothing;
  create_keypair = λ name s. (ok tt, record s { held = keypair name ∷ s.held });
  delete_keypair = λ name. removes (is_keypair name);
  show_image = λ id s. (ok [], s);
  show_image_file = λ id. says;
  create_image = λ d. adds image;
  delete_image = λ id. removes (is_image id);
  store_image_file = λ id bits. does_nothing;
  list_volumes = λ s. (ok (volumes_in s.held), s);
  create_volume = λ t. adds λ id. volume (record { id = id; volume_type = t });
  delete_volume = λ id. accepts (is_volume id);
  wait_for_resource_deletion = λ id. removes (is_volume id);
  create_volume_type = λ name specs kwargs s. new_type (is_unused name (volumes_in s.held)) name s;
  delete_volume_type = λ id. removes (is_type id);
  create_encryption_type = λ id a. does_nothing;
  create_network = λ a. adds network;
  delete_network = λ id. removes (is_network id);
  create_subnet = λ a. adds subnet;
  delete_subnet = λ id. removes (is_subnet id);
  create_port = λ net d. adds port;
  delete_port = λ id. removes (is_port id);
  show_port = λ id s. (ok [], s);
  format = λ a. [];
}

abbrev holds : Cloud → List Resource
holds s = s.held

removes_lem :
    (p : Resource → Bool) (r : Resource)
    → p r ≡ true
    → Deletes (λ (s : Cloud). s.held) r (removes p)
removes_lem p r h s rest e = ((tt, rw (e, h) refl), rw (e, h) refl)

new_type-Made :
    (b : Bool) (name : Text) (s : Cloud)
    → Made
        (λ (r : TypeResponse). volume_type (type_of r) ∷ s.held)
        s.held
        (new_type b name s).1.held
        (new_type b name s).0
new_type-Made true name s = refl
new_type-Made false name s = refl

type_unused :
    (b : Bool) (name : Text) (s : Cloud) (t : TypeResponse)
    → is_unused name (volumes_in s.held) ≡ b
    → (new_type b name s).0 ≡ ok t
    → is_unused t.name (volumes_in s.held) ≡ true
type_unused true name s t e h = rw (← ok_injective h) e
type_unused false name s t e h = cc

type_id :
    (b : Bool) (name : Text) (s : Cloud) (t : TypeResponse)
    → (new_type b name s).0 ≡ ok t
    → (id : Text) × (t.id ≡ some id) × (id ≢ [])
type_id true name s t h =
    (new_id s, ap (λ (r : TypeResponse). r.id) (sym (ok_injective h)), λ n. cc)
type_id false name s t h = cc

cloud_api-IsApi : IsApi cloud_api holds
cloud_api-IsApi = record {
  held-rand_name = λ prefix name s. refl;
  create_test_server_lem = λ a s. refl;
  Going = λ r rest s. s.held ≡ r ∷ rest;
  delete_server_lem = λ id s rest e. (rw (e, text_eq_refl id) refl, e);
  wait_for_server_termination_lem =
      λ id s rest e. (removes_lem (is_server id) (server id) (text_eq_refl id) s rest e).1;
  create_keypair_lem = λ name s. refl;
  delete_keypair_lem = λ name. removes_lem (is_keypair name) (keypair name) (text_eq_refl name);
  held-show_image = λ id s. refl;
  held-show_image_file = λ id s. refl;
  create_image_lem = λ d s. refl;
  delete_image_lem = λ id. removes_lem (is_image id) (image id) (text_eq_refl id);
  held-store_image_file = λ id bits s. refl;
  list_volumes_lem = λ s. refl;
  held-list_volumes = λ s. refl;
  create_volume_lem = λ t s. refl;
  delete_volume_lem = λ v s rest e. (rw (e, text_eq_refl v.id) refl, e);
  wait_for_resource_deletion_lem =
      λ v s rest e. (rw (e, text_eq_refl v.id) refl, rw (e, text_eq_refl v.id) refl);
  create_volume_type_lem =
      λ name specs kwargs s. new_type-Made (is_unused name (volumes_in s.held)) name s;
  created_is_unused =
      λ name specs kwargs s t. type_unused (is_unused name (volumes_in s.held)) name s t refl;
  created_id = λ name specs kwargs s t. type_id (is_unused name (volumes_in s.held)) name s t;
  delete_volume_type_lem =
      λ t s rest u e. (removes_lem (is_type t.id) (volume_type t) (text_eq_refl t.id) s rest e).1;
  held-create_flavor = λ a s. refl;
  held-set_flavor_extra_spec = λ id specs s. refl;
  held-create_encryption_type = λ id a s. refl;
  create_network_lem = λ a s. refl;
  delete_network_lem = λ id. removes_lem (is_network id) (network id) (text_eq_refl id);
  create_subnet_lem = λ a s. refl;
  delete_subnet_lem = λ id. removes_lem (is_subnet id) (subnet id) (text_eq_refl id);
  create_port_lem = λ net d s. refl;
  delete_port_lem = λ id. removes_lem (is_port id) (port id) (text_eq_refl id);
}

abbrev at_start : Cloud
at_start = record { held = network (codes "public") ∷ []; next_id = 1 }

abbrev arguments : EncryptionArguments
arguments = record {
  provider = some (codes "luks");
  key_size = some 256;
  cipher = none;
  control_location = none;
}

abbrev class_name : Text
class_name = codes "EncryptionTest"

abbrev begin : Case Cloud
begin = record { cleanups = []; cloud = at_start }

abbrev with_volume : Case Cloud
with_volume = (create_encrypted_volume cloud_api class_name (codes "luks") arguments begin).1

abbrev with_network : Case Cloud
with_network =
    (create_net_from_physical_network cloud_api class_name 100 (codes "sriov") with_volume).1

abbrev with_subnet : Case Cloud
with_subnet = (create_subnet cloud_api class_name conf (codes "net") with_network).1

abbrev with_port : Case Cloud
with_port = (create_port_from_vnic_type cloud_api (codes "net") (codes "direct") none with_subnet).1

abbrev with_server : Case Cloud
with_server = (create_test_server cloud_api tt with_port).1

abbrev the_run : Run cloud_api holds conf class_name begin with_server
the_run =
    then_step
      (then_step
        (then_step
          (then_step (then_step begun (new_encrypted_volume (codes "luks") arguments))
            (new_network 100 (codes "sriov")))
          (new_subnet (codes "net")))
        (new_port (codes "net") (codes "direct") none))
      (new_server tt)

-- The run makes six resources.
six_made : length (holds with_server.cloud) ≡ 7
unfolding create_encrypted_volume create_volume_type name_or_random create_encryption_type
    type_or_new create_net_from_physical_network create_subnet create_port_from_vnic_type
    vnic_params create_test_server text_eq
six_made = refl

nothing_left_example :
    holds (run_all cloud_api with_server.cleanups with_server.cloud) ≡ holds at_start
nothing_left_example =
    nothing_left cloud_api holds conf class_name cloud_api-IsApi at_start with_server the_run
