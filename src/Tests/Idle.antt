-- ===== src/Tests/Idle.antt =====
-- An API whose calls return and do nothing, with one server and one port.
use whitebox_tempest_plugin.Prelude.{[], ◌∷◌, some}
use whitebox_tempest_plugin.Exceptions.{ok}
use whitebox_tempest_plugin.Exceptions.Action.{Action}
use whitebox_tempest_plugin.Python.Dict.{Dict}
use whitebox_tempest_plugin.Python.Text.{Text, codes}
use whitebox_tempest_plugin.Base.Api.{Api, Attribute, word, profile}

abbrev pub port : Dict Text Attribute
port =
    (codes "binding:vnic_type", word (codes "direct"))
    ∷ (codes "mac_address", word (codes "fa:16:3e:00:00:01"))
    ∷ (codes "binding:profile", profile ((codes "pci_slot", codes "0000:04:00.1") ∷ []))
    ∷ []

abbrev pub format : Attribute → Text
format (word w) = w
format (profile d) = codes "{}"

module _ {S : Type 0} where
  abbrev nothing : Action S Unit
  nothing s = (ok tt, s)

  abbrev an_id : Action S Text
  an_id s = (ok (codes "id"), s)

  abbrev pub idle_api : Api S
  idle_api = record {
    rand_name = λ prefix name s. (ok name, s);
    ServerArguments = Unit {0};
    create_test_server = λ u. an_id;
    delete_server = λ id. nothing;
    wait_for_server_termination = λ id. nothing;
    wait_for_server_status = λ id status. nothing;
    reboot_server = λ id type. nothing;
    get_host_for_server = λ id s. (ok (codes "compute1"), s);
    live_migrate_server = λ id host. nothing;
    evacuate_server = λ id kwargs. nothing;
    create_flavor = λ a. an_id;
    set_flavor_extra_spec = λ id specs. nothing;
    create_keypair = λ name. nothing;
    delete_keypair = λ name. nothing;
    show_image = λ id s. (ok [], s);
    show_image_file = λ id. an_id;
    create_image = λ d. an_id;
    delete_image = λ id. nothing;
    store_image_file = λ id bits. nothing;
    list_volumes = λ s. (ok [], s);
    create_volume = λ t. an_id;
    delete_volume = λ id. nothing;
    wait_for_resource_deletion = λ id. nothing;
    create_volume_type =
        λ name specs kwargs s. (ok (record { id = some (codes "id"); name = name }), s);
    delete_volume_type = λ id. nothing;
    create_encryption_type = λ id a. nothing;
    create_network = λ a. an_id;
    delete_network = λ id. nothing;
    create_subnet = λ a. an_id;
    delete_subnet = λ id. nothing;
    create_port = λ net d. an_id;
    delete_port = λ id. nothing;
    show_port = λ id s. (ok port, s);
    format = format;
  }
