-- ===== src/Dependencies/Graph/Samples.antt =====
-- Small graphs, and what the program does on them.
use libre_core_mac_loader.Prelude.{
  ℕ, ◌<◌, String, ◌≡◌, ◌≢◌, refl, ◌↔◌, Bool, true, false, none, List, [], ◌∷◌, ◌||◌, map, arith,
  ◌==◌, string_eq, contains, if◌then◌else◌,
}
use libre_core_mac_loader.Prelude.Text.{lower}
use libre_core_mac_loader.Dependencies.Graph.Defs.{
  Adjacency, add_node, ok, err, not_found, cycle, out_of_fuel, lookup, entry, has_node,
  get_dependencies, resolve_ordered_set,
}
use libre_core_mac_loader.Dependencies.Graph.Closure.{Needs}
use libre_core_mac_loader.Dependencies.Graph.Search.{IsCycle, IsTopological}
use libre_core_mac_loader.Dependencies.Graph.Order.{
  resolve-IsTopological, resolve-ne-out_of_fuel, resolve-not_found, resolve-IsCycle,
}
use libre_core_mac_loader.Dependencies.Graph.Acyclic.{resolve_complete, resolve_acyclic}
use libre_core_mac_loader.Dependencies.Graph.Nodes.{add_node_lem}

abbrev kexts : Adjacency
kexts = ("whatevergreen", "lilu" ∷ []) ∷ ("lilu", []) ∷ []

built : add_node "Lilu" [] (add_node "WhateverGreen" ("Lilu" ∷ []) []) ≡ kexts
unfolding add_node lower
built = refl

abbrev looping : Adjacency
looping = ("a", "b" ∷ []) ∷ ("b", "a" ∷ []) ∷ []

abbrev never : ℕ → Bool
never n = false

resolved :
    resolve_ordered_set kexts ("WhateverGreen" ∷ []) never ≡ ok ("lilu" ∷ "whatevergreen" ∷ [])
unfolding resolve_ordered_set add_node lower
resolved = refl

absent : resolve_ordered_set kexts ("itlwm" ∷ []) never ≡ err (not_found "itlwm")
unfolding resolve_ordered_set add_node lower
absent = refl

circular : resolve_ordered_set looping ("A" ∷ []) never ≡ err (cycle ("a" ∷ "b" ∷ "a" ∷ []))
unfolding resolve_ordered_set add_node lower
circular = refl

abbrev requested : List String
requested = "WhateverGreen" ∷ []

abbrev plan : List String
plan = "lilu" ∷ "whatevergreen" ∷ []

resolve-IsTopological_example :
    IsTopological kexts plan
    × ((x : String) → (contains plan x ≡ true) ↔ Needs kexts (map lower requested) x)
resolve-IsTopological_example = resolve-IsTopological kexts requested never plan resolved

resolve-ne-out_of_fuel_example : resolve_ordered_set looping ("A" ∷ []) never ≢ err out_of_fuel
resolve-ne-out_of_fuel_example = resolve-ne-out_of_fuel looping ("A" ∷ []) never

resolve-not_found_example :
    Needs kexts (map lower ("itlwm" ∷ [])) "itlwm" × (lookup "itlwm" kexts ≡ none)
resolve-not_found_example = resolve-not_found kexts ("itlwm" ∷ []) never "itlwm" absent

resolve-IsCycle_example : IsCycle looping ("a" ∷ "b" ∷ "a" ∷ [])
resolve-IsCycle_example = resolve-IsCycle looping ("A" ∷ []) never ("a" ∷ "b" ∷ "a" ∷ []) circular

abbrev rank : String → ℕ
rank x = if x == "whatevergreen" then 1 else 0

ranked : (x d : String) → contains (entry kexts x) d ≡ true → rank d < rank x
unfolding entry contains
ranked x d h = ground (
  arith,
  string_eq.beq_iff x "whatevergreen",
  string_eq.beq_iff d "lilu",
  string_eq.beq_iff d "whatevergreen",
  string_eq.beq_iff x "lilu",
  string_eq.beq_iff "lilu" "whatevergreen",
)

needed : (x : String) → Needs kexts (map lower requested) x → contains plan x ≡ true
unfolding entry contains lower
needed x (Needs.asked h) = ground arith
needed x (Needs.through {x = y} n h) =
    ground (arith, string_eq.beq_iff y "whatevergreen", string_eq.beq_iff y "lilu")

present : (x : String) → Needs kexts (map lower requested) x → lookup x kexts ≢ none
unfolding lookup contains
present x n = ground (arith, needed x n)

resolve_complete_example :
    (order : List String) × (resolve_ordered_set kexts requested never ≡ ok order)
resolve_complete_example = resolve_complete kexts requested never rank (λ n. refl) present ranked

resolve_acyclic_example :
    (rank : String → ℕ) × ((x d : String)
      → Needs kexts (map lower requested) x
      → contains (entry kexts x) d ≡ true
      → rank d < rank x)
resolve_acyclic_example = resolve_acyclic kexts requested never plan resolved

add_node_lem_example :
    (get_dependencies "ITLWM" (add_node "itlwm" ("Lilu" ∷ []) kexts) ≡ (
      if lower "ITLWM" == lower "itlwm"
      then map lower ("Lilu" ∷ [])
      else get_dependencies "ITLWM" kexts))
    × (has_node "ITLWM" (add_node "itlwm" ("Lilu" ∷ []) kexts)
        ≡ (lower "ITLWM" == lower "itlwm" || has_node "ITLWM" kexts))
add_node_lem_example = add_node_lem "itlwm" "ITLWM" ("Lilu" ∷ []) kexts
