-- ===== src/Tests/Database.antt =====
-- A driver that keeps the ledger and nothing else, and one whose commits raise.
use whitebox_tempest_plugin.Prelude.{◌-◌, ◌≡◌, refl, true}
use whitebox_tempest_plugin.Exceptions.{ok, err, key_error, value_error}
use whitebox_tempest_plugin.Exceptions.Action.{Action}
use whitebox_tempest_plugin.Python.Text.{Text, codes}
use whitebox_tempest_plugin.Clients.Database.{Driver, database_client, cursor}
use whitebox_tempest_plugin.Clients.Database.Release.{
  Ledger, IsDriver, Released, one_connection, one_tunnel, one_commit, cursor-Released,
  cursor_commit_raises,
}
use whitebox_tempest_plugin.Tests.Host.{conf}

abbrev pub driver_with : Action Ledger (Unit {0}) → Driver Ledger
driver_with commit = record {
  Connection = Unit {0};
  Cursor = Unit {0};
  Tunnel = Unit {0};
  open_tunnel = λ a s. (ok tt, one_tunnel s);
  close_tunnel = λ t s. (ok tt, record s { tunnels = s.tunnels - 1 });
  connect = λ a s. (ok tt, one_connection s);
  enter_cursor = λ c s. (ok tt, s);
  exit_cursor = λ k s. (ok tt, s);
  commit_connection = λ c. commit;
  close_connection = λ c s. (ok tt, record s { connections = s.connections - 1 });
}

abbrev pub driver : Driver Ledger
driver = driver_with (λ s. (ok tt, one_commit s))

abbrev broken : Driver Ledger
broken = driver_with (λ s. (err value_error, s))

abbrev same : Ledger → Ledger
same l = l

driver-IsDriver : IsDriver driver same
driver-IsDriver = record {
  connect_enters = λ a s. refl;
  enter_returns = λ c s. (tt, refl);
  ledger-enter = λ c s. refl;
  exit_returns = λ k s. refl;
  ledger-exit = λ k s. refl;
  commit_enters = λ c s. refl;
  close_returns = λ c s. refl;
  ledger-close = λ c s. refl;
  tunnel_enters = λ a s. refl;
  close_tunnel_returns = λ t s. refl;
  ledger-close_tunnel = λ t s. refl;
}

broken-IsDriver : IsDriver broken same
broken-IsDriver = record {
  connect_enters = λ a s. refl;
  enter_returns = λ c s. (tt, refl);
  ledger-enter = λ c s. refl;
  exit_returns = λ k s. refl;
  ledger-exit = λ k s. refl;
  commit_enters = λ c s. refl;
  close_returns = λ c s. refl;
  ledger-close = λ c s. refl;
  tunnel_enters = λ a s. refl;
  close_tunnel_returns = λ t s. refl;
  ledger-close_tunnel = λ t s. refl;
}

-- A query that fails.
abbrev query : Unit {0} → Action Ledger Text
query k s = (err key_error, s)

abbrev pub idle : Ledger
idle = record { connections = 0; tunnels = 0; commits = 0 }

cursor-Released_example :
    Released idle (cursor driver conf (database_client conf) (codes "nova_cell1") true query idle).1
cursor-Released_example =
    cursor-Released driver same driver-IsDriver query (λ k s. refl) conf (database_client conf)
      (codes "nova_cell1") true (λ conn t. refl) idle

cursor_commit_raises_example :
    ((cursor broken conf (database_client conf) (codes "nova_cell1") true query idle).0
      ≡ err value_error)
    × ((cursor broken conf (database_client conf) (codes "nova_cell1") true query idle).1
        ≡ one_connection idle)
cursor_commit_raises_example =
    cursor_commit_raises broken same broken-IsDriver query (λ k s. refl) conf (database_client conf)
      (codes "nova_cell1") tt idle value_error (λ t. refl) refl refl
