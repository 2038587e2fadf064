-- ===== src/Clients/Database/Release.antt =====
-- What `cursor` leaves open and what it commits.
use whitebox_tempest_plugin.Prelude.{
  ℕ, ◌+◌, ◌-◌, ◌≡◌, refl, ap, ◌∙◌, Bool, true, false, Option, none, some, arith, if◌then◌else◌,
}
use whitebox_tempest_plugin.Config.{Conf}
use whitebox_tempest_plugin.Exceptions.{Error, Result, ok, err}
use whitebox_tempest_plugin.Exceptions.Action.{Action}
use whitebox_tempest_plugin.Python.Text.{Text}
use whitebox_tempest_plugin.Clients.Database.{
  Driver, DatabaseClient, TunnelArguments, ConnectArguments, tunnel_target, tunnel_arguments,
  connect_arguments, tunnel_local_bind, finish, on_connection, cursor_through, cursor,
}

-- The connections and tunnels that are open, and the commits so far.
pub record Ledger : Type 0 where
  pub connections : ℕ
  pub tunnels : ℕ
  pub commits : ℕ

-- What a call does to the ledger if it returns; one that raises leaves it as it was.
abbrev pub Enters : {A : Type 0} → (Ledger → Ledger) → Result A → Ledger → Ledger → Type 0
Enters change (ok _) before after = after ≡ change before
Enters change (err _) before after = after ≡ before

abbrev pub one_connection : Ledger → Ledger
one_connection l = record l { connections = l.connections + 1 }

abbrev pub one_tunnel : Ledger → Ledger
one_tunnel l = record l { tunnels = l.tunnels + 1 }

abbrev pub one_commit : Ledger → Ledger
one_commit l = record l { commits = l.commits + 1 }

-- PyMySQL and sshtunnel as documented: a context manager's exit and a close return, a cursor opens
-- nothing of its own, and a call that raises opens nothing.
pub record IsDriver {S : Type 0} (D : Driver S) (ledger : S → Ledger) : Type 0 where
  pub connect_enters :
      (a : ConnectArguments) (s : S)
      → Enters one_connection (D.connect a s).0 (ledger s) (ledger (D.connect a s).1)
  pub enter_returns : (c : D.Connection) (s : S) → (k : D.Cursor) × ((D.enter_cursor c s).0 ≡ ok k)
  pub ledger-enter : (c : D.Connection) (s : S) → ledger (D.enter_cursor c s).1 ≡ ledger s
  pub exit_returns : (k : D.Cursor) (s : S) → (D.exit_cursor k s).0 ≡ ok tt
  pub ledger-exit : (k : D.Cursor) (s : S) → ledger (D.exit_cursor k s).1 ≡ ledger s
  pub commit_enters :
      (c : D.Connection) (s : S)
      → Enters one_commit
          (D.commit_connection c s).0
          (ledger s)
          (ledger (D.commit_connection c s).1)
  pub close_returns : (c : D.Connection) (s : S) → (D.close_connection c s).0 ≡ ok tt
  pub ledger-close :
      (c : D.Connection) (s : S)
      → ledger (D.close_connection c s).1
        ≡ record (ledger s) { connections = (ledger s).connections - 1 }
  pub tunnel_enters :
      (a : TunnelArguments) (s : S)
      → Enters one_tunnel (D.open_tunnel a s).0 (ledger s) (ledger (D.open_tunnel a s).1)
  pub close_tunnel_returns : (t : D.Tunnel) (s : S) → (D.close_tunnel t s).0 ≡ ok tt
  pub ledger-close_tunnel :
      (t : D.Tunnel) (s : S)
      → ledger (D.close_tunnel t s).1 ≡ record (ledger s) { tunnels = (ledger s).tunnels - 1 }

-- As many connections and tunnels are open as before.
abbrev pub Released : Ledger → Ledger → Type 0
Released before after = (after.connections ≡ before.connections) × (after.tunnels ≡ before.tunnels)

abbrev pub after_commit : Bool → Ledger → Ledger
after_commit commit l = if commit then one_commit l else l

abbrev close_one : Ledger → Ledger
close_one l = record l { connections = l.connections - 1 }

close-one_connection : (l : Ledger) → close_one (one_connection l) ≡ l
close-one_connection l = ap (λ n. record l { connections = n }) (omega arith)

after_commit-one_connection :
    (commit : Bool) (l : Ledger)
    → close_one (after_commit commit (one_connection l)) ≡ after_commit commit l
after_commit-one_connection true l = close-one_connection (one_commit l)
after_commit-one_connection false l = close-one_connection l

module _ {S : Type 0} (D : Driver S) (ledger : S → Ledger) (I : IsDriver D ledger) where
  finish_lem :
      (commit : Bool) (conn : D.Connection) (s : S)
      → ((t : S) → (D.commit_connection conn t).0 ≡ ok tt)
      → ((finish D conn commit s).0 ≡ ok tt)
        × (ledger (finish D conn commit s).1 ≡ close_one (after_commit commit (ledger s)))
  unfolding finish
  finish_lem true conn s c =
      let counted : ledger (D.commit_connection conn s).1 ≡ one_commit (ledger s) =
        rw (c s) at (I.commit_enters conn s) in
      rw
        (
          c s,
          I.close_returns conn (D.commit_connection conn s).1,
          I.ledger-close conn (D.commit_connection conn s).1,
          counted,
        )
        (refl, refl)
  finish_lem false conn s c = (I.close_returns conn s, I.ledger-close conn s)

  module _ {B : Type 0} (body : D.Cursor → Action S B)
      (keeps : (k : D.Cursor) (s : S) → ledger (body k s).1 ≡ ledger s) where
    on_connection_lem :
        (a : ConnectArguments) (commit : Bool) (conn : D.Connection) (s : S)
        → (D.connect a s).0 ≡ ok conn
        → ((t : S) → (D.commit_connection conn t).0 ≡ ok tt)
        → (k : D.Cursor) × (t : S) × ((on_connection D a commit body s).0 ≡ (body k t).0)
          × (ledger (on_connection D a commit body s).1 ≡ after_commit commit (ledger s))
    unfolding on_connection
    on_connection_lem a commit conn s h c =
        let s1 = (D.connect a s).1 in
        let opened : ledger s1 ≡ one_connection (ledger s) = rw h at (I.connect_enters a s) in
        let (k, e) = I.enter_returns conn s1 in
        let t = (D.enter_cursor conn s1).1 in
        let (f, g) = finish_lem commit conn (body k t).1 c in
        let left = (finish D conn commit (body k t).1).1 in
        (
          k,
          t,
          rw (h, e, f, I.exit_returns k left) refl,
          rw (h, e, I.ledger-exit k left, g, keeps k t, I.ledger-enter conn s1, opened)
              (after_commit-one_connection commit (ledger s)),
        )

    on_connection-Released :
        (a : ConnectArguments) (commit : Bool) (s : S) (r : Result D.Connection)
        → (D.connect a s).0 ≡ r
        → ((conn : D.Connection) (t : S) → (D.commit_connection conn t).0 ≡ ok tt)
        → Released (ledger s) (ledger (on_connection D a commit body s).1)
    on_connection-Released a commit s (ok conn) h c =
        let (k, t, e, l) = on_connection_lem a commit conn s h (c conn) in rw l (ground arith)
    on_connection-Released a commit s (err e) h c =
        let same : ledger (D.connect a s).1 ≡ ledger s = rw h at (I.connect_enters a s) in
        unfold on_connection in rw (h, same) (refl, refl)

    module _ (conf : Conf) (client : DatabaseClient) (database_name : Text) (commit : Bool)
        (commits_return : (conn : D.Connection) (t : S)
          → (D.commit_connection conn t).0 ≡ ok tt) where
      cursor_through-Released :
          (target : Option Text) (s : S)
          → Released
              (ledger s)
              (ledger (cursor_through D conf client target database_name commit body s).1)
      unfolding cursor_through
      cursor_through-Released none s = on_connection-Released _ commit s _ refl commits_return
      cursor_through-Released (some ip) s = go _ refl
        where
          go :
              (r : Result D.Tunnel)
              → (D.open_tunnel (tunnel_arguments conf client ip) s).0 ≡ r
              → Released
                  (ledger s)
                  (ledger (cursor_through D conf client (some ip) database_name commit body s).1)
          go (ok tunnel) h =
              let s1 = (D.open_tunnel (tunnel_arguments conf client ip) s).1 in
              let a =
                connect_arguments conf tunnel_local_bind.0 tunnel_local_bind.1 database_name in
              let opened : ledger s1 ≡ one_tunnel (ledger s) =
                rw h at (I.tunnel_enters (tunnel_arguments conf client ip) s) in
              let (f, g) =
                on_connection-Released a commit s1 (D.connect a s1).0 refl commits_return in
              rw (h, I.ledger-close_tunnel tunnel (on_connection D a commit body s1).1)
                (
                  f ∙ ap (λ l. l.connections) opened,
                  ap (λ n. n - 1) (g ∙ ap (λ l. l.tunnels) opened) ∙ omega arith,
                )
          go (err e) h =
              let same : ledger (D.open_tunnel (tunnel_arguments conf client ip) s).1 ≡ ledger s =
                rw h at (I.tunnel_enters (tunnel_arguments conf client ip) s) in
              rw (h, same) (refl, refl)

      -- Behind a cursor as many connections and tunnels are open as before it, also when the tunnel or
      -- the connection could not be opened or the body raised, if commits do not raise and the body
      -- opens, closes and commits nothing of its own.
      pub cursor-Released :
          (s : S)
          → Released (ledger s) (ledger (cursor D conf client database_name commit body s).1)
      unfolding cursor
      cursor-Released s =
          cursor_through-Released (tunnel_target conf.whitebox_database.internal_ip) s

      -- Without a tunnel, the cursor returns or raises what the body does once the connection is open,
      -- and it commits once if it was told to, also behind a body that raised; the body opens,
      -- closes and commits nothing of its own, and commits do not raise.
      pub cursor_commits :
          (conn : D.Connection) (s : S)
          → tunnel_target conf.whitebox_database.internal_ip ≡ none
          → (D.connect (connect_arguments conf conf.whitebox_database.host 3306 database_name) s).0
            ≡ ok conn
          → (k : D.Cursor) × (t : S) × ((cursor D conf client database_name commit body s).0
              ≡ (body k t).0)
            × (ledger (cursor D conf client database_name commit body s).1
                ≡ after_commit commit (ledger s))
      unfolding cursor
      cursor_commits conn s direct h =
          rw direct
            (unfold cursor_through in on_connection_lem _ commit conn s h (commits_return conn))

    -- If commits raise, a cursor without a tunnel that is told to commit raises and leaves its
    -- connection open, as the call that closes it stands behind the commit; the body opens, closes and
    -- commits nothing of its own.
    pub cursor_commit_raises :
        (conf : Conf) (client : DatabaseClient) (database_name : Text) (conn : D.Connection) (s : S)
        (e : Error)
        → ((t : S) → (D.commit_connection conn t).0 ≡ err e)
        → tunnel_target conf.whitebox_database.internal_ip ≡ none
        → (D.connect (connect_arguments conf conf.whitebox_database.host 3306 database_name) s).0
          ≡ ok conn
        → ((cursor D conf client database_name true body s).0 ≡ err e)
          × (ledger (cursor D conf client database_name true body s).1 ≡ one_connection (ledger s))
    unfolding cursor cursor_through on_connection finish
    cursor_commit_raises conf client database_name conn s e raises direct h =
        let a = connect_arguments conf conf.whitebox_database.host 3306 database_name in
        let s1 = (D.connect a s).1 in
        let opened : ledger s1 ≡ one_connection (ledger s) = rw h at (I.connect_enters a s) in
        let (k, e1) = I.enter_returns conn s1 in
        let t = (D.enter_cursor conn s1).1 in
        let left = (body k t).1 in
        let same : ledger (D.commit_connection conn left).1 ≡ ledger left =
          rw (raises left) at (I.commit_enters conn left) in
        let end = (D.commit_connection conn left).1 in
        rw
          (
            direct,
            h,
            e1,
            raises left,
            I.exit_returns k end,
            I.ledger-exit k end,
            same,
            keeps k t,
            I.ledger-enter conn s1,
            opened,
          )
          (refl, refl)
