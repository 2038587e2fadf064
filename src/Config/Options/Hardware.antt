-- ===== src/Config/Options/Hardware.antt =====
-- The options of config.py in [whitebox-hardware].
use whitebox_tempest_plugin.Prelude.{List, [], ◌∷◌, none, some}
use whitebox_tempest_plugin.Python.Text.{codes}
use whitebox_tempest_plugin.Config.Options.{
  Opt, number, no_items, str_opt, int_opt, dict_opt, list_opt, dict_of_ints_opt, list_of_ints_opt,
}

abbrev pub hardware_opts : List Opt
hardware_opts =
    (record {
      name = codes "vgpu_vendor_id";
      kind = str_opt;
      default = none;
      choices = [];
      deprecated = [];
    })
    ∷ (record {
      name = codes "sriov_nic_vendor_id";
      kind = str_opt;
      default = none;
      choices = [];
      deprecated = [];
    })
    ∷ (record {
      name = codes "sriov_vf_product_id";
      kind = str_opt;
      default = none;
      choices = [];
      deprecated = [];
    })
    ∷ (record {
      name = codes "sriov_pf_product_id";
      kind = str_opt;
      default = none;
      choices = [];
      deprecated = [];
    })
    ∷ (record {
      name = codes "macvtap_virtio_vendor_id";
      kind = str_opt;
      default = none;
      choices = [];
      deprecated = [];
    })
    ∷ (record {
      name = codes "macvtap_virtio_product_id";
      kind = str_opt;
      default = none;
      choices = [];
      deprecated = [];
    })
    ∷ (record {
      name = codes "smt_hosts";
      kind = list_opt;
      default = some no_items;
      choices = [];
      deprecated = [];
    })
    ∷ (record {
      name = codes "cpu_topology";
      kind = dict_of_ints_opt;
      default = none;
      choices = [];
      deprecated = [];
    })
    ∷ (record {
      name = codes "configured_hugepage_sizes";
      kind = list_of_ints_opt;
      default = some no_items;
      choices = [];
      deprecated = [];
    })
    ∷ (record {
      name = codes "dedicated_cpus_per_numa";
      kind = int_opt;
      default = some (number 0);
      choices = [];
      deprecated = [];
    })
    ∷ (record {
      name = codes "shared_cpus_per_numa";
      kind = int_opt;
      default = some (number 0);
      choices = [];
      deprecated = [];
    })
    ∷ (record {
      name = codes "realtime_mask";
      kind = str_opt;
      default = none;
      choices = [];
      deprecated = [];
    })
    ∷ (record {
      name = codes "sriov_physnet";
      kind = str_opt;
      default = none;
      choices = [];
      deprecated = [];
    })
    ∷ (record {
      name = codes "sriov_vnic_type";
      kind = str_opt;
      default = none;
      choices =
          none
          ∷ some (codes "direct")
          ∷ some (codes "macvtap")
          ∷ some (codes "direct-physical")
          ∷ [];
      deprecated = [];
    })
    ∷ (record {
      name = codes "sriov_vlan_id";
      kind = int_opt;
      default = none;
      choices = [];
      deprecated = [];
    })
    ∷ (record {
      name = codes "vdpa_physnet";
      kind = str_opt;
      default = none;
      choices = [];
      deprecated = [];
    })
    ∷ (record {
      name = codes "vdpa_vlan_id";
      kind = int_opt;
      default = none;
      choices = [];
      deprecated = [];
    })
    ∷ (record {
      name = codes "physnet_numa_affinity";
      kind = int_opt;
      default = none;
      choices = [];
      deprecated = [];
    })
    ∷ (record {
      name = codes "vgpu_type_mapping";
      kind = dict_opt;
      default = none;
      choices = [];
      deprecated = [];
    })
    ∷ (record {
      name = codes "socket_affinity";
      kind = int_opt;
      default = none;
      choices = [];
      deprecated = [];
    })
    ∷ (record {
      name = codes "socket_topology";
      kind = dict_of_ints_opt;
      default = none;
      choices = [];
      deprecated = [];
    })
    ∷ (record {
      name = codes "pci_passthrough_alias";
      kind = str_opt;
      default = none;
      choices = [];
      deprecated = [];
    })
    ∷ (record {
      name = codes "pci_passthrough_addresses";
      kind = list_opt;
      default = none;
      choices = [];
      deprecated = [];
    })
    ∷ (record {
      name = codes "pci_passthrough_resource_class";
      kind = str_opt;
      default = none;
      choices = [];
      deprecated = [];
    })
    ∷ []
