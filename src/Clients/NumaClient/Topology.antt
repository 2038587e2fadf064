-- ===== src/Clients/NumaClient/Topology.antt =====
-- The loops of `NUMAClient` over the lines of numactl and of meminfo files. A line is taken without
-- its line break, which the code's `int` and `split` pass over.
pub mod Print
use whitebox_tempest_plugin.Prelude.{
  ℕ, zero, suc, Bool, true, false, ◌&&◌, List, [], ◌∷◌, Option, none, some, if◌then◌else◌,
}
use whitebox_tempest_plugin.Prelude.Int.{ℤ}
use whitebox_tempest_plugin.Exceptions.{
  Result, ok, err, index_error, value_error, unbound_local_error, ◌>>=◌,
}
use whitebox_tempest_plugin.Python.Dict.{Dict, insert}
use whitebox_tempest_plugin.Python.Equality.{int_eq}
use whitebox_tempest_plugin.Python.Text.{
  Text, codes, split, split_space, has_part, lstrip, starts_with,
}
use whitebox_tempest_plugin.Python.Text.Number.{int}

-- `parts[n]`
abbrev pub at_index : ℕ → List Text → Result Text
at_index n [] = err index_error
at_index zero (p ∷ ps) = ok p
at_index (suc n) (p ∷ ps) = at_index n ps

-- `int(text)`
abbrev pub to_int : Option ℤ → Result ℤ
to_int none = err value_error
to_int (some n) = ok n

abbrev pub to_ints : List Text → Result (List ℤ)
to_ints [] = ok []
to_ints (t ∷ ts) = do n ← to_int (int t); ns ← to_ints ts; ok (n ∷ ns)

unfoldable pub is_cpu_line : Text → Bool
is_cpu_line line = has_part line (codes "node") && has_part line (codes "cpus")

-- The body of the loop of `get_host_topology` on a line that it takes.
unfoldable pub add_node : Text → Dict ℤ (List ℤ) → Result (Dict ℤ (List ℤ))
add_node line nodes = do
  listed ← at_index 1 (split b':' line)
  cpus ← to_ints (split_space listed)
  word ← at_index 1 (split_space line)
  node ← to_int (int word)
  ok (insert node cpus nodes)

-- The nodes behind a line, which has no part in the other lines.
unfoldable pub read_line : Text → Dict ℤ (List ℤ) → Result (Dict ℤ (List ℤ))
unfolding is_cpu_line add_node
read_line line nodes = if is_cpu_line line then add_node line nodes else ok nodes

unfoldable pub read_topology : List Text → Dict ℤ (List ℤ) → Result (Dict ℤ (List ℤ))
unfolding read_line
read_topology [] nodes = ok nodes
read_topology (line ∷ lines) nodes = do nodes' ← read_line line nodes; read_topology lines nodes'

-- The loop of `get_pagesize`, which returns None behind the last line.
unfoldable pub read_pagesize : List Text → Result (Option ℤ)
read_pagesize [] = ok none
read_pagesize (line ∷ lines) =
    let rest = read_pagesize lines in
    if starts_with line (codes "Hugepagesize")
    then (do
      part ← at_index 1 (split b':' line)
      word ← at_index 0 (split_space part)
      size ← to_int (int word)
      ok (some size))
    else rest

-- The locals `total` and `free`, which no node resets; `none` has no value yet.
abbrev pub Pages : Type 0
Pages = Option ℤ × Option ℤ

-- `int(line.split(':')[1].lstrip())` where a line has the key, and the local as it was elsewhere.
abbrev pub read_count : Text → Text → Option ℤ → Result (Option ℤ)
read_count key line count =
    if has_part line key
    then (do part ← at_index 1 (split b':' line); n ← to_int (int (lstrip part)); ok (some n))
    else ok count

unfoldable pub read_meminfo : List Text → Pages → Result Pages
read_meminfo [] pages = ok pages
read_meminfo (line ∷ lines) (total, free) = do
  total' ← read_count (codes "HugePages_Total") line total
  free' ← read_count (codes "HugePages_Free") line free
  read_meminfo lines (total', free')

-- Reading both locals, which raises where one has no value.
abbrev pub both_counts : Pages → Result (ℤ × ℤ)
both_counts (none, free) = err unbound_local_error
both_counts (some total, none) = err unbound_local_error
both_counts (some total, some free) = ok (total, free)
