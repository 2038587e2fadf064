-- ===== src/Clients/NumaClient/Host.antt =====
-- What the methods of `NUMAClient` return for what the host prints.
use whitebox_tempest_plugin.Prelude.{
  ◌≡◌, refl, ap, ◌∙◌, Bool, true, false, ◌&&◌, not, List, [], ◌∷◌, Option, none, some, map, arith,
  all, if◌then◌else◌,
}
use whitebox_tempest_plugin.Prelude.Int.{ℤ, pos}
use whitebox_tempest_plugin.Config.{Conf}
use whitebox_tempest_plugin.Exceptions.{Result, ok, err, unbound_local_error}
use whitebox_tempest_plugin.Python.Dict.{Dict, lookup, insert, lookup-insert, keys}
use whitebox_tempest_plugin.Python.Equality.{int_eq, ◌==◌}
use whitebox_tempest_plugin.Python.Text.{Text, codes, split, join, has_part}
use whitebox_tempest_plugin.Python.Text.Laws.{lacks, split-join}
use whitebox_tempest_plugin.Clients.Ssh.{SshClient, execute}
use whitebox_tempest_plugin.Clients.NumaClient.{
  get_host_topology, get_hugepages, meminfo_command, read_nodes_pages,
}
use whitebox_tempest_plugin.Clients.NumaClient.Topology.{Pages, read_meminfo}
use whitebox_tempest_plugin.Clients.NumaClient.Topology.Print.{
  NodeCpus, Line, text_of_line, is_plain_line, nodes_of, topology_of, read_topology_lem,
}
use whitebox_tempest_plugin.World.{World}

-- The CPUs of the last entry for a node.
abbrev pub last_cpus : ℤ → List NodeCpus → Option (List ℤ) → Option (List ℤ)
last_cpus x [] before = before
last_cpus x ((node, cpus) ∷ entries) before =
    last_cpus x entries (if x == pos node then some (map pos cpus) else before)

lookup-topology_of :
    (entries : List NodeCpus) (nodes : Dict ℤ (List ℤ)) (x : ℤ)
    → lookup x (topology_of entries nodes) ≡ last_cpus x entries (lookup x nodes)
lookup-topology_of [] nodes x = refl
lookup-topology_of ((node, cpus) ∷ entries) nodes x =
    lookup-topology_of entries (insert (pos node) (map pos cpus) nodes) x
    ∙ ap (last_cpus x entries) (lookup-insert (pos node) x (map pos cpus) nodes)

abbrev pub is_meminfo_other : Text → Bool
is_meminfo_other line =
    not (has_part line (codes "HugePages_Total")) && not (has_part line (codes "HugePages_Free"))

read_meminfo_of_others :
    (lines : List Text) (pages : Pages)
    → all is_meminfo_other lines ≡ true
    → read_meminfo lines pages ≡ ok pages
unfolding read_meminfo
read_meminfo_of_others [] pages h = refl
read_meminfo_of_others (line ∷ lines) (total, free) h =
    let a : has_part line (codes "HugePages_Total") ≡ false = ground arith in
    let b : has_part line (codes "HugePages_Free") ≡ false = ground arith in
    rw (a, b) (read_meminfo_of_others lines (total, free) (ground arith))

module _ (W : World) (conf : Conf) (client : SshClient) where
  abbrev pub numactl : W.State → Result Text × W.State
  numactl = execute W conf client (codes "numactl -H") none true

  -- The topology of a host has, for each node, the CPUs that the line of numactl for the node
  -- lists, and nothing for other numbers; lines that do not name both a node and CPUs are passed
  -- over.
  pub get_host_topology_lem :
      (line : Line) (lines : List Line) (s : W.State)
      → all is_plain_line (line ∷ lines) ≡ true
      → all (lacks 10) (map text_of_line (line ∷ lines)) ≡ true
      → (numactl s).0 ≡ ok (join (10 ∷ []) (map text_of_line (line ∷ lines)))
      → (nodes : Dict ℤ (List ℤ)) × ((get_host_topology W conf client s).0 ≡ ok nodes)
        × ((x : ℤ) → lookup x nodes ≡ last_cpus x (nodes_of (line ∷ lines)) none)
  unfolding get_host_topology
  get_host_topology_lem line lines s p l h =
      let parts = split-join 10 (text_of_line line) (map text_of_line lines) l in
      (
        topology_of (nodes_of (line ∷ lines)) [],
        rw (h, parts) (read_topology_lem (line ∷ lines) [] p),
        λ x. unfold lookup in lookup-topology_of (nodes_of (line ∷ lines)) [] x,
      )

  -- If the meminfo of the first node has no lines on huge pages, the query of huge pages raises
  -- UnboundLocalError.
  pub get_hugepages_raises :
      (s : W.State) (nodes : Dict ℤ (List ℤ)) (node : ℤ) (others : List ℤ) (out : Text)
      → (get_host_topology W conf client s).0 ≡ ok nodes
      → keys nodes ≡ node ∷ others
      → (execute W conf client
          (meminfo_command node)
          none
          false
          (get_host_topology W conf client s).1).0
        ≡ ok out
      → all is_meminfo_other (split 10 out) ≡ true
      → (get_hugepages W conf client s).0 ≡ err unbound_local_error
  unfolding get_hugepages
  get_hugepages_raises s nodes node others out h k m o =
      rw (h, k, m, read_meminfo_of_others (split 10 out) (none, none) o) refl

  -- A node whose meminfo has no lines on huge pages is given the counts of the node before it.
  pub read_nodes_pages_stale :
      (s : W.State) (node : ℤ) (others : List ℤ) (total free : ℤ) (pages : Dict ℤ (ℤ × ℤ))
      (out : Text)
      → (execute W conf client (meminfo_command node) none false s).0 ≡ ok out
      → all is_meminfo_other (split 10 out) ≡ true
      → read_nodes_pages W conf client (node ∷ others) (some total, some free) pages s
        ≡ read_nodes_pages W conf client others
            (some total, some free)
            (insert node (total, free) pages)
            (execute W conf client (meminfo_command node) none false s).1
  unfolding read_nodes_pages
  read_nodes_pages_stale s node others total free pages out m o =
      rw (m, read_meminfo_of_others (split 10 out) (some total, some free) o) refl
