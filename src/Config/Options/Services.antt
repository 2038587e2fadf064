-- ===== src/Config/Options/Services.antt =====
-- The options of config.py in [whitebox-nova-compute] and [whitebox-database].
use whitebox_tempest_plugin.Prelude.{List, [], ◌∷◌, none, some}
use whitebox_tempest_plugin.Python.Text.{codes}
use whitebox_tempest_plugin.Config.Options.{Opt, text, number, str_opt, int_opt}

abbrev pub nova_compute_opts : List Opt
nova_compute_opts =
    (record {
      name = codes "log_query_command";
      kind = str_opt;
      default = some (text (codes "journalctl"));
      choices = some (codes "journalctl") ∷ some (codes "zgrep") ∷ [];
      deprecated = [];
    })
    ∷ (record {
      name = codes "journalctl_unit";
      kind = str_opt;
      default = some (text (codes "devstack@n-cpu"));
      choices = [];
      deprecated = [];
    })
    ∷ (record {
      name = codes "state_path";
      kind = str_opt;
      default = some (text (codes "/var/lib/nova"));
      choices = [];
      deprecated = [];
    })
    ∷ []

abbrev pub database_opts : List Opt
database_opts =
    (record { name = codes "host"; kind = str_opt; default = none; choices = []; deprecated = [] })
    ∷ (record {
      name = codes "internal_ip";
      kind = str_opt;
      default = none;
      choices = [];
      deprecated = [];
    })
    ∷ (record {
      name = codes "user";
      kind = str_opt;
      default = none;
      choices = [];
      deprecated = [];
    })
    ∷ (record {
      name = codes "password";
      kind = str_opt;
      default = none;
      choices = [];
      deprecated = [];
    })
    ∷ (record {
      name = codes "nova_cell1_db_name";
      kind = str_opt;
      default = some (text (codes "nova_cell1"));
      choices = [];
      deprecated = [];
    })
    ∷ (record {
      name = codes "ssh_gateway_port";
      kind = int_opt;
      default = some (number 3306);
      choices = [];
      deprecated = [];
    })
    ∷ []
