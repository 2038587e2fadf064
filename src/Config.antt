-- ===== src/Config.antt =====
-- The options of tempest.conf that the modelled code reads (whitebox_tempest_plugin/config.py, and
-- some of Tempest's own), as one record of their values.
pub mod Options
use whitebox_tempest_plugin.Prelude.{ℕ, Bool, List, Option}
use whitebox_tempest_plugin.Prelude.Int.{ℤ}
use whitebox_tempest_plugin.Python.Dict.{Dict}
use whitebox_tempest_plugin.Python.Text.{Text}

-- [whitebox]
pub record Whitebox : Type 0 where
  pub nodes_yaml : Text
  pub ctlplane_ssh_username : Text
  pub ctlplane_ssh_private_key_path : Text
  pub containers : Bool
  pub ctlplane_addresses : Dict Text Text
  pub container_runtime : Text

-- [whitebox-nova-compute]
pub record NovaCompute : Type 0 where
  pub log_query_command : Text
  pub journalctl_unit : Text
  pub state_path : Text

-- [whitebox-database]
pub record Database : Type 0 where
  pub host : Text
  pub internal_ip : Option Text
  pub user : Text
  pub password : Text
  pub nova_cell1_db_name : Text
  pub ssh_gateway_port : ℕ

-- [whitebox-hardware]
pub record HardwareOptions : Type 0 where
  pub cpu_topology : Dict Text (List ℤ)

-- [compute]
pub record Compute : Type 0 where
  pub build_timeout : ℕ
  pub build_interval : ℕ
  pub image_ref : Text

-- [network], as far as the plugin reads it
pub record Network : Type 0 where
  pub project_network_cidr : Text

pub record Conf : Type 0 where
  pub whitebox : Whitebox
  pub whitebox_nova_compute : NovaCompute
  pub whitebox_database : Database
  pub whitebox_hardware : HardwareOptions
  pub compute : Compute
  pub network : Network
  pub resource_name_prefix : Text
