-- ===== src/Utils.antt =====
-- whitebox_tempest_plugin/utils.py: addresses and details of the hosts, and the nesting of context
-- managers. The module's global `_nodes` is a component of the state.
pub mod Json
use whitebox_tempest_plugin.Prelude.{◌≡◌, refl, List, [], ◌∷◌, Option, none, some}
use whitebox_tempest_plugin.Config.{Conf}
use whitebox_tempest_plugin.Exceptions.{
  Result, ok, err, attribute_error, ctrlplane_address_resolution_error,
}
use whitebox_tempest_plugin.Exceptions.Action.{Action, from_result, ◌>>=◌}
use whitebox_tempest_plugin.Python.Equality.{text_instance}
use whitebox_tempest_plugin.Python.Dict.{lookup}
use whitebox_tempest_plugin.Python.Text.{Text}
use whitebox_tempest_plugin.World.{World, HostEntry, Nodes}

unfoldable pub get_ctlplane_address : Conf → Text → Result Text
get_ctlplane_address conf compute_hostname = elim conf.whitebox.ctlplane_addresses [
  | [] ↦ ok compute_hostname
  | a ∷ as' ↦ elim (lookup compute_hostname (a ∷ as')) [
    | none ↦ err (ctrlplane_address_resolution_error compute_hostname)
    | some address ↦ ok address
  ]
]

-- A context manager, as what `with manager as a: body` does with the body.
abbrev pub ContextManager : Type 0 → Type 0 → Type 0 → Type 0
ContextManager S A B = (A → Action S B) → Action S B

-- `ExitStack`: each manager is entered in turn, and a manager that was entered is left, in the
-- reverse order, whatever happens behind it.
unfoldable pub multicontext :
    {S A B : Type 0} → List (ContextManager S A B) → ContextManager S (List A) B
multicontext [] body = body []
multicontext (mgr ∷ mgrs) body = mgr (λ a. multicontext mgrs (λ as'. body (a ∷ as')))

-- The state of the process: the cache of the nodes file, and the world around it.
pub record Machine (W : World) : Type 0 where
  pub nodes : Option Nodes
  pub world : W.State

-- An action on the world, which leaves the cache of the nodes file alone.
abbrev pub on_world : {W : World} {A : Type 0} → Action W.State A → Action (Machine W) A
on_world action m = ((action m.world).0, record m { world = (action m.world).1 })

module _ (W : World) (conf : Conf) where
  -- `_nodes = yaml.safe_load(f)`, which an exception leaves as it was, None.
  keep_nodes : Result (Option Nodes) × W.State → Result (Option Nodes) × Machine W
  keep_nodes (ok nodes, w) = (ok nodes, record { nodes = nodes; world = w })
  keep_nodes (err e, w) = (err e, record { nodes = none; world = w })

  read_nodes : Option Nodes → Action (Machine W) (Option Nodes)
  unfolding keep_nodes
  read_nodes (some nodes) m = (ok (some nodes), m)
  read_nodes none m = keep_nodes (W.load_nodes conf.whitebox.nodes_yaml m.world)

  unfoldable pub get_all_hosts_details : Action (Machine W) (Option Nodes)
  unfolding read_nodes
  get_all_hosts_details m = read_nodes m.nodes m

  -- `_nodes.get(host)`, which None does not have.
  unfoldable pub get_from : Text → Option Nodes → Result (Option HostEntry)
  get_from host none = err attribute_error
  get_from host (some nodes) = ok (lookup host nodes)

  unfoldable pub get_host_details : Text → Action (Machine W) (Option HostEntry)
  unfolding get_from
  get_host_details host = do nodes ← get_all_hosts_details; from_result (get_from host nodes)

  keep_nodes-nodes :
      (r : Result (Option Nodes) × W.State) (nodes : Nodes)
      → (keep_nodes r).0 ≡ ok (some nodes)
      → (keep_nodes r).1.nodes ≡ some nodes
  unfolding keep_nodes
  keep_nodes-nodes (ok n, w) nodes h = cc
  keep_nodes-nodes (err e, w) nodes h = cc

  read_nodes-nodes :
      (o : Option Nodes) (m : Machine W) (nodes : Nodes)
      → m.nodes ≡ o
      → (read_nodes o m).0 ≡ ok (some nodes)
      → (read_nodes o m).1.nodes ≡ some nodes
  unfolding read_nodes
  read_nodes-nodes (some n) m nodes e h = cc
  read_nodes-nodes none m nodes e h = keep_nodes-nodes _ nodes h

  get_all_hosts_details_again :
      (m : Machine W) (nodes : Nodes)
      → m.nodes ≡ some nodes
      → get_all_hosts_details m ≡ (ok (some nodes), m)
  unfolding get_all_hosts_details
  get_all_hosts_details_again m nodes e = rw (e, read_nodes) refl

  -- Once a nodes file that is not empty has been read, the details of any host are looked up in what
  -- it held, and neither the file nor anything else is touched again.
  pub get_host_details_cached :
      (host : Text) (m : Machine W) (nodes : Nodes)
      → (get_all_hosts_details m).0 ≡ ok (some nodes)
      → let m' = (get_all_hosts_details m).1 in
        get_host_details host m' ≡ (ok (lookup host nodes), m')
  unfolding get_host_details
  get_host_details_cached host m nodes h =
      let m' = (get_all_hosts_details m).1 in
      let kept : m'.nodes ≡ some nodes =
        unfold get_all_hosts_details in read_nodes-nodes m.nodes m nodes refl h in
      rw (get_all_hosts_details_again m' nodes kept) refl

  -- An empty nodes file is not cached: the details of a host raise an AttributeError, and the
  -- cache stays as empty as it was.
  pub get_host_details_empty :
      (host : Text) (m : Machine W) (s : W.State)
      → m.nodes ≡ none
      → W.load_nodes conf.whitebox.nodes_yaml m.world ≡ (ok none, s)
      → get_host_details host m ≡ (err attribute_error, record { nodes = none; world = s })
  unfolding get_host_details get_all_hosts_details read_nodes
  get_host_details_empty host m s e h = rw (e, h) refl
