-- ===== src/Clients/NumaClient.antt =====
-- `NUMAClient` of services/clients.py: the CPUs and huge pages of a host's NUMA nodes.
pub mod Topology
pub mod Host
use whitebox_tempest_plugin.Prelude.{
  ℕ, ◌+◌, Bool, true, false, List, [], ◌∷◌, ◌++◌, Option, none, some, length,
}
use whitebox_tempest_plugin.Prelude.Int.{ℤ}
use whitebox_tempest_plugin.Config.{Conf}
use whitebox_tempest_plugin.Exceptions.Action.{Action, pure, from_result, ◌>>=◌}
use whitebox_tempest_plugin.Python.Dict.{Dict, insert, keys, values}
use whitebox_tempest_plugin.Python.Equality.{int_eq}
use whitebox_tempest_plugin.Python.Text.{Text, codes, split}
use whitebox_tempest_plugin.Python.Text.Number.{str_int}
use whitebox_tempest_plugin.Clients.NumaClient.Topology.{
  Pages, read_topology, read_pagesize, read_meminfo, both_counts,
}
use whitebox_tempest_plugin.Clients.Ssh.{SshClient, execute}
use whitebox_tempest_plugin.World.{World}

abbrev pub sum_lengths : List (List ℤ) → ℕ
sum_lengths [] = 0
sum_lengths (cpus ∷ rest) = length cpus + sum_lengths rest

abbrev pub meminfo_command : ℤ → Text
meminfo_command node =
    codes "cat /sys/devices/system/node/node" ++ (str_int node ++ codes "/meminfo")

module _ (W : World) (conf : Conf) (client : SshClient) where
  unfoldable pub get_host_topology : Action W.State (Dict ℤ (List ℤ))
  get_host_topology = do
    numactl ← execute W conf client (codes "numactl -H") none true
    from_result (read_topology (split 10 numactl) [])

  unfoldable pub get_num_cpus : Action W.State ℕ
  get_num_cpus = do nodes ← get_host_topology; pure (sum_lengths (values nodes))

  unfoldable pub get_pagesize : Action W.State (Option ℤ)
  get_pagesize = do
    proc_meminfo ← execute W conf client (codes "cat /proc/meminfo") none false
    from_result (read_pagesize (split 10 proc_meminfo))

  -- The loop over the nodes, with the locals of the node before.
  unfoldable pub read_nodes_pages :
      List ℤ → Pages → Dict ℤ (ℤ × ℤ) → Action W.State (Dict ℤ (ℤ × ℤ))
  read_nodes_pages [] locals pages = pure pages
  read_nodes_pages (node ∷ nodes) locals pages = do
    meminfo ← execute W conf client (meminfo_command node) none false
    locals' ← from_result (read_meminfo (split 10 meminfo) locals)
    counts ← from_result (both_counts locals')
    read_nodes_pages nodes locals' (insert node counts pages)

  unfoldable pub get_hugepages : Action W.State (Dict ℤ (ℤ × ℤ))
  unfolding read_nodes_pages
  get_hugepages = do nodes ← get_host_topology; read_nodes_pages (keys nodes) (none, none) []
