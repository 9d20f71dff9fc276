-- ===== src/Dependencies/Graph/Nodes.antt =====
-- add_node, has_node and get_dependencies.
use libre_core_mac_loader.Prelude.{
  String, ◌≡◌, ◌||◌, some, List, [], ◌∷◌, map, arith, ◌==◌, string_eq, if◌then◌else◌,
}
use libre_core_mac_loader.Prelude.Text.{lower}
use libre_core_mac_loader.Dependencies.Graph.Defs.{
  Adjacency, put, lookup, add_node, has_node, get_dependencies,
}

pub lookup-put :
    (k j : String) (v : List String) (g : Adjacency)
    → lookup j (put k v g) ≡ (if j == k then some v else lookup j g)
unfolding lookup put
lookup-put k j v [] = ground (arith, string_eq.beq_iff k j, string_eq.beq_iff j k)
lookup-put k j v ((i, w) ∷ g) =
    ground (
      arith,
      string_eq.beq_iff k i,
      string_eq.beq_iff j k,
      string_eq.beq_iff j i,
      lookup-put k j v g,
    )

-- Adding a node gives it the lower-cased dependencies, whatever it had before, and makes it
-- present; it changes no other node. Names that differ in case only are one node.
pub add_node_lem :
    (n m : String) (ds : List String) (g : Adjacency)
    → (get_dependencies m (add_node n ds g)
        ≡ (if lower m == lower n then map lower ds else get_dependencies m g))
      × (has_node m (add_node n ds g) ≡ (lower m == lower n || has_node m g))
unfolding add_node get_dependencies has_node
add_node_lem n m ds g =
    let stored = lookup-put (lower n) (lower m) (map lower ds) g in
    (ground (arith, stored), ground (arith, stored))
