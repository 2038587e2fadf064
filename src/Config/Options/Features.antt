-- ===== src/Config/Options/Features.antt =====
-- The options of config.py in Tempest's group of compute features.
use whitebox_tempest_plugin.Prelude.{true, false, List, [], ◌∷◌, some}
use whitebox_tempest_plugin.Python.Text.{codes}
use whitebox_tempest_plugin.Config.Options.{Opt, flag, bool_opt}

abbrev pub compute_features_group_opts : List Opt
compute_features_group_opts =
    (record {
      name = codes "virtio_rng";
      kind = bool_opt;
      default = some (flag false);
      choices = [];
      deprecated = [];
    })
    ∷ (record {
      name = codes "rbd_download";
      kind = bool_opt;
      default = some (flag false);
      choices = [];
      deprecated = [];
    })
    ∷ (record {
      name = codes "sriov_hotplug";
      kind = bool_opt;
      default = some (flag true);
      choices = [];
      deprecated = [];
    })
    ∷ (record {
      name = codes "supports_image_level_numa_affinity";
      kind = bool_opt;
      default = some (flag true);
      choices = [];
      deprecated = [];
    })
    ∷ (record {
      name = codes "supports_port_level_numa_affinity";
      kind = bool_opt;
      default = some (flag true);
      choices = [];
      deprecated = [];
    })
    ∷ (record {
      name = codes "uefi_boot";
      kind = bool_opt;
      default = some (flag true);
      choices = [];
      deprecated = [];
    })
    ∷ (record {
      name = codes "uefi_secure_boot";
      kind = bool_opt;
      default = some (flag false);
      choices = [];
      deprecated = [];
    })
    ∷ (record {
      name = codes "vtpm_device_supported";
      kind = bool_opt;
      default = some (flag false);
      choices = [];
      deprecated = [];
    })
    ∷ (record {
      name = codes "vtpm_live_migration_supported";
      kind = bool_opt;
      default = some (flag true);
      choices = [];
      deprecated = [];
    })
    ∷ (record {
      name = codes "vdpa_cold_migration_supported";
      kind = bool_opt;
      default = some (flag false);
      choices = [];
      deprecated = [];
    })
    ∷ (record {
      name = codes "vgpu_cold_migration_supported";
      kind = bool_opt;
      default = some (flag false);
      choices = [];
      deprecated = [];
    })
    ∷ (record {
      name = codes "stable_compute_uuid_supported";
      kind = bool_opt;
      default = some (flag false);
      choices = [];
      deprecated = [];
    })
    ∷ (record {
      name = codes "bochs_display_support";
      kind = bool_opt;
      default = some (flag false);
      choices = [];
      deprecated = [];
    })
    ∷ (record {
      name = codes "cpu_power_management";
      kind = bool_opt;
      default = some (flag false);
      choices = [];
      deprecated = [];
    })
    ∷ (record {
      name = codes "vencrypt";
      kind = bool_opt;
      default = some (flag true);
      choices = [];
      deprecated = [];
    })
    ∷ (record {
      name = codes "iothreads";
      kind = bool_opt;
      default = some (flag true);
      choices = [];
      deprecated = [];
    })
    ∷ []
