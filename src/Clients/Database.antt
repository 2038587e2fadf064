-- ===== src/Clients/Database.antt =====
-- `DatabaseClient` of services/clients.py. PyMySQL and sshtunnel are a parameter, the driver.
pub mod Release
use whitebox_tempest_plugin.Prelude.{
  ℕ, Bool, true, false, List, [], ◌∷◌, Option, none, some, if◌then◌else◌,
}
use whitebox_tempest_plugin.Config.{Conf}
use whitebox_tempest_plugin.Exceptions.Action.{Action, pure, try_finally, ◌>>=◌, ◌>>◌}
use whitebox_tempest_plugin.Python.Text.{Text, codes}
use whitebox_tempest_plugin.Utils.{ContextManager}

-- The arguments of `sshtunnel.SSHTunnelForwarder`.
pub record TunnelArguments : Type 0 where
  pub gateway : Text × ℕ
  pub ssh_username : Text
  pub ssh_pkey : Text
  pub remote_bind_address : Text × ℕ
  pub local_bind_address : Text × ℕ

-- The arguments of `pymysql.connect`.
pub record ConnectArguments : Type 0 where
  pub host : Text
  pub port : ℕ
  pub user : Text
  pub password : Text
  pub database : Text

pub record Driver (S : Type 0) : Type 1 where
  pub Connection : Type 0
  pub Cursor : Type 0
  pub Tunnel : Type 0
  -- `SSHTunnelForwarder.__enter__` and `__exit__`
  pub open_tunnel : TunnelArguments → Action S Tunnel
  pub close_tunnel : Tunnel → Action S Unit
  pub connect : ConnectArguments → Action S Connection
  -- `conn.cursor()` with `__enter__`, and its `__exit__`
  pub enter_cursor : Connection → Action S Cursor
  pub exit_cursor : Cursor → Action S Unit
  pub commit_connection : Connection → Action S Unit
  pub close_connection : Connection → Action S Unit

pub record DatabaseClient : Type 0 where
  pub ssh_key : Text
  pub ssh_user : Text

unfoldable pub database_client : Conf → DatabaseClient
database_client conf = record {
  ssh_key = conf.whitebox.ctlplane_ssh_private_key_path;
  ssh_user = conf.whitebox.ctlplane_ssh_username;
}

abbrev pub tunnel_local_bind : Text × ℕ
tunnel_local_bind = (codes "127.42.42.42", 4242)

-- `internal_ip`, where it is set and not empty.
abbrev pub tunnel_target : Option Text → Option Text
tunnel_target none = none
tunnel_target (some []) = none
tunnel_target (some (c ∷ ip)) = some (c ∷ ip)

unfoldable pub tunnel_arguments : Conf → DatabaseClient → Text → TunnelArguments
tunnel_arguments conf client internal_ip = record {
  gateway = (conf.whitebox_database.host, conf.whitebox_database.ssh_gateway_port);
  ssh_username = client.ssh_user;
  ssh_pkey = client.ssh_key;
  remote_bind_address = (internal_ip, 3306);
  local_bind_address = tunnel_local_bind;
}

unfoldable pub connect_arguments : Conf → Text → ℕ → Text → ConnectArguments
connect_arguments conf host port database_name = record {
  host = host;
  port = port;
  user = conf.whitebox_database.user;
  password = conf.whitebox_database.password;
  database = database_name;
}

module _ {S : Type 0} (D : Driver S) where
  -- The `finally` of the innermost `try`.
  unfoldable pub finish : D.Connection → Bool → Action S Unit
  finish conn commit = do
    (if commit then D.commit_connection conn else pure tt)
    D.close_connection conn

module _ {S B : Type 0} (D : Driver S) where
  -- A connection with a cursor for the body.
  unfoldable pub on_connection : ConnectArguments → Bool → ContextManager S D.Cursor B
  unfolding finish
  on_connection arguments commit body = do
    conn ← D.connect arguments
    c ← D.enter_cursor conn
    try_finally (try_finally (body c) (finish D conn commit)) (D.exit_cursor c)

  module _ (conf : Conf) (client : DatabaseClient) where
    -- Through a tunnel to an address, or directly.
    unfoldable pub cursor_through : Option Text → Text → Bool → ContextManager S D.Cursor B
    unfolding tunnel_arguments connect_arguments
    cursor_through (some internal_ip) database_name commit body = do
      tunnel ← D.open_tunnel (tunnel_arguments conf client internal_ip)
      try_finally
          (on_connection
            (connect_arguments conf tunnel_local_bind.0 tunnel_local_bind.1 database_name) commit
            body)
          (D.close_tunnel tunnel)
    cursor_through none database_name commit body =
        on_connection (connect_arguments conf conf.whitebox_database.host 3306 database_name) commit
          body

    unfoldable pub cursor : Text → Bool → ContextManager S D.Cursor B
    unfolding cursor_through
    cursor = cursor_through (tunnel_target conf.whitebox_database.internal_ip)
