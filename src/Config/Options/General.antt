-- ===== src/Config/Options/General.antt =====
-- The options of config.py in [whitebox].
use whitebox_tempest_plugin.Prelude.{false, List, [], ◌∷◌, none, some}
use whitebox_tempest_plugin.Python.Text.{codes}
use whitebox_tempest_plugin.Config.Options.{
  Opt, text, number, flag, str_opt, int_opt, bool_opt, dict_opt, list_opt,
}

abbrev pub general_opts : List Opt
general_opts =
    (record {
      name = codes "nodes_yaml";
      kind = str_opt;
      default = none;
      choices = [];
      deprecated = [];
    })
    ∷ (record {
      name = codes "ctlplane_ssh_username";
      kind = str_opt;
      default = some (text (codes "heat-admin"));
      choices = [];
      deprecated = (codes "target_ssh_user", codes "whitebox") ∷ [];
    })
    ∷ (record {
      name = codes "ctlplane_ssh_private_key_path";
      kind = str_opt;
      default = some (text (codes "/home/stack/.ssh/id_rsa"));
      choices = [];
      deprecated = (codes "target_private_key_path", codes "whitebox") ∷ [];
    })
    ∷ (record {
      name = codes "containers";
      kind = bool_opt;
      default = some (flag false);
      choices = [];
      deprecated = [];
    })
    ∷ (record {
      name = codes "ctlplane_addresses";
      kind = dict_opt;
      default = none;
      choices = [];
      deprecated = (codes "hypervisors", codes "whitebox") ∷ [];
    })
    ∷ (record {
      name = codes "max_compute_nodes";
      kind = int_opt;
      default = some (number 31337);
      choices = [];
      deprecated = [];
    })
    ∷ (record {
      name = codes "available_cinder_storage";
      kind = int_opt;
      default = some (number 0);
      choices = [];
      deprecated = [];
    })
    ∷ (record {
      name = codes "container_runtime";
      kind = str_opt;
      default = some (text (codes "docker"));
      choices = some (codes "docker") ∷ some (codes "podman") ∷ [];
      deprecated = [];
    })
    ∷ (record {
      name = codes "file_backed_memory_size";
      kind = int_opt;
      default = some (number 0);
      choices = [];
      deprecated = [];
    })
    ∷ (record {
      name = codes "selinux_label";
      kind = str_opt;
      default = none;
      choices = [];
      deprecated = [];
    })
    ∷ (record {
      name = codes "selinux_imagelabel";
      kind = str_opt;
      default = none;
      choices = [];
      deprecated = [];
    })
    ∷ (record {
      name = codes "flavor_volume_size";
      kind = int_opt;
      default = some (number 1);
      choices = [];
      deprecated = [];
    })
    ∷ (record {
      name = codes "flavor_ram_size";
      kind = int_opt;
      default = some (number 64);
      choices = [];
      deprecated = [];
    })
    ∷ (record {
      name = codes "cpu_model";
      kind = str_opt;
      default = none;
      choices = [];
      deprecated = [];
    })
    ∷ (record {
      name = codes "cpu_model_extra_flags";
      kind = list_opt;
      default = none;
      choices = [];
      deprecated = [];
    })
    ∷ (record {
      name = codes "pmem_flavor_size";
      kind = str_opt;
      default = none;
      choices = [];
      deprecated = [];
    })
    ∷ (record {
      name = codes "pmem_expected_size";
      kind = str_opt;
      default = none;
      choices = [];
      deprecated = [];
    })
    ∷ (record {
      name = codes "rx_queue_size";
      kind = int_opt;
      default = none;
      choices = [];
      deprecated = [];
    })
    ∷ (record {
      name = codes "default_video_model";
      kind = str_opt;
      default = none;
      choices = [];
      deprecated = [];
    })
    ∷ (record {
      name = codes "max_disk_devices_to_attach";
      kind = int_opt;
      default = none;
      choices = [];
      deprecated = [];
    })
    ∷ (record {
      name = codes "libvirt_hw_machine_type";
      kind = str_opt;
      default = some (text (codes "pc"));
      choices = some (codes "pc") ∷ some (codes "q35") ∷ [];
      deprecated = [];
    })
    ∷ (record {
      name = codes "provider_config_location";
      kind = str_opt;
      default = some (text (codes "/etc/nova/provider_config"));
      choices = [];
      deprecated = [];
    })
    ∷ (record {
      name = codes "hugepage_guest_ram_size";
      kind = int_opt;
      default = some (number 64);
      choices = [];
      deprecated = [];
    })
    ∷ (record {
      name = codes "http_iso_image";
      kind = str_opt;
      default = some (text (codes "/opt/stack/devstack/files/Core-14.0.iso"));
      choices = [];
      deprecated = [];
    })
    ∷ []
