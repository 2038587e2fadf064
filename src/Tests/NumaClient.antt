-- ===== src/Tests/NumaClient.antt =====
-- A host with two NUMA nodes, whose kernel prints no lines on huge pages.
use whitebox_tempest_plugin.Prelude.{
  ◌≡◌, refl, true, false, List, [], ◌∷◌, none, map, all, if◌then◌else◌,
}
use whitebox_tempest_plugin.Prelude.Int.{ℤ, pos}
use whitebox_tempest_plugin.Exceptions.{ok, err, unbound_local_error}
use whitebox_tempest_plugin.Python.Dict.{Dict, lookup, insert}
use whitebox_tempest_plugin.Python.Equality.{int_eq}
use whitebox_tempest_plugin.Python.Text.{
  Text, codes, text_eq, split, split_space, join, has_part, starts_with,
}
use whitebox_tempest_plugin.Python.Text.Laws.{lacks}
use whitebox_tempest_plugin.Python.Text.Number.{int, str_nat, str_int}
use whitebox_tempest_plugin.Clients.Ssh.{execute}
use whitebox_tempest_plugin.Clients.NumaClient.{
  get_host_topology, get_num_cpus, get_hugepages, meminfo_command,
}
use whitebox_tempest_plugin.Clients.NumaClient.Topology.{is_cpu_line, add_node, read_topology}
use whitebox_tempest_plugin.Clients.NumaClient.Topology.Print.{
  Line, cpus_of_node, other, node_line, text_of_line, is_plain_line, nodes_of,
}
use whitebox_tempest_plugin.Clients.NumaClient.Host.{
  last_cpus, is_meminfo_other, numactl, get_host_topology_lem, get_hugepages_raises,
}
use whitebox_tempest_plugin.World.{World}
use whitebox_tempest_plugin.Tests.Host.{host, conf}
use whitebox_tempest_plugin.Tests.Files.{manager}
use whitebox_tempest_plugin.Tests.Waiters.{box}

abbrev lines : List Line
lines =
    cpus_of_node (0, 0 ∷ 2 ∷ [])
    ∷ other (codes "node 0 size: 64 MB")
    ∷ cpus_of_node (1, 3 ∷ [])
    ∷ []

abbrev first_line : Line
first_line = other (codes "available: 2 nodes (0-1)")

abbrev printed : Text
printed = codes "available: 2 nodes (0-1)\nnode 0 cpus: 0 2\nnode 0 size: 64 MB\nnode 1 cpus: 3"

abbrev meminfo : Text
meminfo = codes "Node 0 MemTotal: 64 kB"

abbrev numa_host : World
numa_host = record host {
  exec_command = λ connection command box.
      (ok (if text_eq command (codes "sudo numactl -H") then printed else meminfo), box);
}

abbrev nodes : Dict ℤ (List ℤ)
nodes = (pos 0, pos 0 ∷ pos 2 ∷ []) ∷ (pos 1, pos 3 ∷ []) ∷ []

plain_lines : all is_plain_line (first_line ∷ lines) ≡ true
unfolding is_cpu_line has_part starts_with node_line str_nat join
plain_lines = refl

unbroken_lines : all (lacks 10) (map text_of_line (first_line ∷ lines)) ≡ true
unfolding node_line str_nat join
unbroken_lines = refl

numactl_run :
    (numactl numa_host conf manager.ssh box).0
    ≡ ok (join (10 ∷ []) (map text_of_line (first_line ∷ lines)))
unfolding execute text_eq node_line str_nat join
numactl_run = refl

get_host_topology_lem_example :
    (found : Dict ℤ (List ℤ)) × ((get_host_topology numa_host conf manager.ssh box).0 ≡ ok found)
    × ((x : ℤ) → lookup x found ≡ last_cpus x (nodes_of (first_line ∷ lines)) none)
get_host_topology_lem_example =
    get_host_topology_lem numa_host conf manager.ssh first_line lines box plain_lines unbroken_lines
      numactl_run

topology_run : (get_host_topology numa_host conf manager.ssh box).0 ≡ ok nodes
unfolding get_host_topology read_topology add_node split split_space int insert is_cpu_line has_part
    starts_with execute text_eq
topology_run = refl

num_cpus_run : (get_num_cpus numa_host conf manager.ssh box).0 ≡ ok 3
unfolding get_num_cpus get_host_topology read_topology add_node split split_space int insert
    is_cpu_line has_part starts_with execute text_eq
num_cpus_run = refl

meminfo_run :
    (execute numa_host conf manager.ssh
      (meminfo_command (pos 0))
      none
      false
      (get_host_topology numa_host conf manager.ssh box).1).0
    ≡ ok meminfo
unfolding get_host_topology str_int execute text_eq
meminfo_run = refl

no_huge_pages : all is_meminfo_other (split 10 meminfo) ≡ true
unfolding split has_part starts_with
no_huge_pages = refl

get_hugepages_raises_example :
    (get_hugepages numa_host conf manager.ssh box).0 ≡ err unbound_local_error
get_hugepages_raises_example =
    get_hugepages_raises numa_host conf manager.ssh box nodes (pos 0) (pos 1 ∷ []) meminfo
      topology_run refl meminfo_run no_huge_pages

meminfo_again :
    (execute numa_host conf manager.ssh (meminfo_command (pos 0)) none false box).0 ≡ ok meminfo
unfolding str_int execute text_eq
meminfo_again = refl
