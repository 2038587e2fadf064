-- ===== src/Clients/NumaClient/Topology/Print.antt =====
-- The lines that numactl prints for the nodes are read back.
use whitebox_tempest_plugin.Prelude.{
  ℕ, ◌≡◌, refl, ap, sym, ◌∙◌, Bool, true, false, not, List, [], ◌∷◌, ◌++◌, map, some, arith, all,
  all-append, if◌then◌else◌, append_assoc,
}
use whitebox_tempest_plugin.Prelude.Int.{ℤ, pos}
use whitebox_tempest_plugin.Exceptions.{ok}
use whitebox_tempest_plugin.Python.Dict.{Dict, insert}
use whitebox_tempest_plugin.Python.Equality.{int_eq}
use whitebox_tempest_plugin.Python.Text.{
  Text, codes, split, split_space, has_part, starts_with, join,
}
use whitebox_tempest_plugin.Python.Text.Laws.{lacks, no_space, split-append, split_of_lacks}
use whitebox_tempest_plugin.Python.Text.Number.{
  int, str_nat, int-str_nat, str_nat-no_space, str_nat-lacks,
}
use whitebox_tempest_plugin.Python.Text.Words.{
  is_item, split_space-append, split_space-skip, split_space-join, has_part-append,
}
use whitebox_tempest_plugin.Clients.NumaClient.Topology.{
  is_cpu_line, to_ints, add_node, read_line, read_topology,
}

-- A node and its CPUs.
abbrev pub NodeCpus : Type 0
NodeCpus = ℕ × List ℕ

abbrev cpu_words : List ℕ → Text
cpu_words cpus = join (b' ' ∷ []) (map str_nat cpus)

-- The line of a node, such as `node 0 cpus: 0 1 2 3`.
unfoldable pub node_line : NodeCpus → Text
node_line (node, cpus) =
    codes "node" ++ (b' ' ∷ (str_nat node ++ (codes " cpus" ++ (b':' ∷ (b' ' ∷ cpu_words cpus)))))

item_of_int : (s : Text) (a : ℤ) → no_space s ≡ true → int s ≡ some a → is_item s ≡ true
item_of_int [] a n h = unfold int in cc
item_of_int (c ∷ s) a n h = n

str_nat-is_item : (n : ℕ) → is_item (str_nat n) ≡ true
str_nat-is_item n = item_of_int (str_nat n) (pos n) (str_nat-no_space n) (int-str_nat n)

words-are_items : (ns : List ℕ) → all is_item (map str_nat ns) ≡ true
words-are_items [] = refl
words-are_items (n ∷ ns) = ground (arith, str_nat-is_item n, words-are_items ns)

to_ints-str_nat : (ns : List ℕ) → to_ints (map str_nat ns) ≡ ok (map pos ns)
to_ints-str_nat [] = refl
to_ints-str_nat (n ∷ ns) = rw (int-str_nat n, to_ints-str_nat ns) refl

cpu_words-lacks : (ns : List ℕ) → lacks b':' (cpu_words ns) ≡ true
unfolding join
cpu_words-lacks [] = refl
cpu_words-lacks (n ∷ []) = str_nat-lacks b':' n refl
cpu_words-lacks (n ∷ m ∷ ns) =
    all-append _ (str_nat n) _ (str_nat-lacks b':' n refl) (cpu_words-lacks (m ∷ ns))

node_line-is_cpu_line : (entry : NodeCpus) → is_cpu_line (node_line entry) ≡ true
unfolding node_line is_cpu_line
node_line-is_cpu_line (node, cpus) =
    let behind = codes " cpus" ++ (b':' ∷ (b' ' ∷ cpu_words cpus)) in
    let here : has_part behind (codes "cpus") ≡ true = unfold has_part starts_with in refl in
    let first : has_part (node_line (node, cpus)) (codes "node") ≡ true =
      unfold has_part starts_with in refl in
    let second : has_part (node_line (node, cpus)) (codes "cpus") ≡ true =
      has_part-append (codes "node ") (str_nat node ++ behind) (codes "cpus")
        (has_part-append (str_nat node) behind (codes "cpus") here) in
    rw (first, second) refl

abbrev key : ℕ → Text
key node = codes "node " ++ (str_nat node ++ codes " cpus")

key-lacks : (node : ℕ) → lacks b':' (key node) ≡ true
key-lacks node = all-append _ (str_nat node) (codes " cpus") (str_nat-lacks b':' node refl) refl

node_line-key :
    (node : ℕ) (cpus : List ℕ)
    → node_line (node, cpus) ≡ key node ++ (b':' ∷ (b' ' ∷ cpu_words cpus))
unfolding node_line
node_line-key node cpus =
    ap (λ s. codes "node " ++ s)
      (sym (append_assoc (str_nat node) (codes " cpus") (b':' ∷ (b' ' ∷ cpu_words cpus))))

words_of_line :
    (node : ℕ) (cpus : List ℕ)
    → split_space (node_line (node, cpus))
      ≡ codes "node" ∷ str_nat node ∷ split_space (codes "cpus" ++ (b':' ∷ (b' ' ∷ cpu_words cpus)))
unfolding node_line
words_of_line node cpus =
    rw
      (
        split_space-append (codes "node") _ refl,
        split_space-append (str_nat node) _ (str_nat-is_item node),
      )
      refl

add_node-node_line :
    (node : ℕ) (cpus : List ℕ) (nodes : Dict ℤ (List ℤ))
    → add_node (node_line (node, cpus)) nodes ≡ ok (insert (pos node) (map pos cpus) nodes)
unfolding add_node
add_node-node_line node cpus nodes =
    let parts : split b':' (node_line (node, cpus)) ≡ key node ∷ (b' ' ∷ cpu_words cpus) ∷ [] =
      ap (split b':') (node_line-key node cpus)
      ∙ (split-append b':' (key node) (b' ' ∷ cpu_words cpus) (key-lacks node)
          ∙ ap (λ r. key node ∷ r)
              (split_of_lacks b':' (b' ' ∷ cpu_words cpus) (cpu_words-lacks cpus))) in
    let listed : split_space (b' ' ∷ cpu_words cpus) ≡ map str_nat cpus =
      split_space-skip (cpu_words cpus)
      ∙ split_space-join (map str_nat cpus) (words-are_items cpus) in
    rw (parts, listed, to_ints-str_nat cpus, words_of_line node cpus, int-str_nat node) refl

abbrev pub topology_of : List NodeCpus → Dict ℤ (List ℤ) → Dict ℤ (List ℤ)
topology_of [] nodes = nodes
topology_of ((node, cpus) ∷ entries) nodes =
    topology_of entries (insert (pos node) (map pos cpus) nodes)

-- What numactl prints: the lines of nodes, and lines that are not of CPUs.
pub data Line : Type 0 where
  cpus_of_node : NodeCpus → Line
  other : Text → Line

abbrev pub text_of_line : Line → Text
text_of_line (cpus_of_node entry) = node_line entry
text_of_line (other text) = text

abbrev pub is_plain_line : Line → Bool
is_plain_line (cpus_of_node entry) = true
is_plain_line (other text) = not (is_cpu_line text)

abbrev pub nodes_of : List Line → List NodeCpus
nodes_of [] = []
nodes_of (cpus_of_node entry ∷ lines) = entry ∷ nodes_of lines
nodes_of (other text ∷ lines) = nodes_of lines

read_line_lem :
    (text : Text) (nodes : Dict ℤ (List ℤ))
    → read_line text nodes ≡ (if is_cpu_line text then add_node text nodes else ok nodes)
unfolding read_line
read_line_lem text nodes = refl

read_topology-taken :
    (text : Text) (lines : List Text) (nodes nodes' : Dict ℤ (List ℤ))
    → is_cpu_line text ≡ true
    → add_node text nodes ≡ ok nodes'
    → read_topology (text ∷ lines) nodes ≡ read_topology lines nodes'
unfolding read_topology
read_topology-taken text lines nodes nodes' h k = rw (read_line_lem text nodes, h, k) refl

read_topology-skipped :
    (text : Text) (lines : List Text) (nodes : Dict ℤ (List ℤ))
    → is_cpu_line text ≡ false
    → read_topology (text ∷ lines) nodes ≡ read_topology lines nodes
unfolding read_topology
read_topology-skipped text lines nodes h = rw (read_line_lem text nodes, h) refl

pub read_topology_lem :
    (lines : List Line) (nodes : Dict ℤ (List ℤ))
    → all is_plain_line lines ≡ true
    → read_topology (map text_of_line lines) nodes ≡ ok (topology_of (nodes_of lines) nodes)
read_topology_lem [] nodes h = unfold read_topology in refl
read_topology_lem (cpus_of_node (node, cpus) ∷ lines) nodes h =
    let nodes' = insert (pos node) (map pos cpus) nodes in
    read_topology-taken (node_line (node, cpus)) (map text_of_line lines) nodes nodes'
      (node_line-is_cpu_line (node, cpus)) (add_node-node_line node cpus nodes)
    ∙ read_topology_lem lines nodes' h
read_topology_lem (other text ∷ lines) nodes h =
    read_topology-skipped text (map text_of_line lines) nodes (ground arith)
    ∙ read_topology_lem lines nodes (ground arith)
