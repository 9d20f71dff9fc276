-- ===== src/Dependencies/Graph/Defs.antt =====
-- DependencyGraph of macloader/dependencies/graph.py. The dict `_adjacency` is an association list
-- with one entry for each key. A cancellation callback is a function of the number of times that
-- it was called before; a call without one is the constant `false`.
use Prim.Native.String.{compare}
use Prim.Native.Nat.{Ordering}
use libre_core_mac_loader.Prelude.{
  ℕ, zero, suc, ◌+◌, String, Bool, true, false, Option, none, some, List, [], ◌∷◌, ◌++◌, map,
  reverse, ◌==◌, string_eq, contains, length, if◌then◌else◌,
}
use libre_core_mac_loader.Prelude.Text.{lower}

abbrev pub Adjacency : Type 0
Adjacency = List (String × List String)

-- What the resolution raises. `out_of_fuel` is no behaviour of the program: `resolve-ne-out_of_fuel` shows
-- that it never comes.
pub data GraphError : Type 0 where
  cancelled out_of_fuel : GraphError
  not_found : String → GraphError
  cycle : List String → GraphError

pub data Result {ℓ} (A : Type ℓ) : Type ℓ where
  ok : A → Result A
  err : GraphError → Result A

infixl 5 ◌>>=◌
abbrev pub ◌>>=◌ {ℓ κ} : {A : Type ℓ} {B : Type κ} → Result A → (A → Result B) → Result B
ok a >>= f = f a
err e >>= f = err e

-- `d[k] = v`
unfoldable pub put : String → List String → Adjacency → Adjacency
put k v [] = (k, v) ∷ []
put k v ((j, w) ∷ g) = if k == j then (k, v) ∷ g else (j, w) ∷ put k v g

-- `d.get(k)`
unfoldable pub lookup : String → Adjacency → Option (List String)
lookup k [] = none
lookup k ((j, v) ∷ g) = if k == j then some v else lookup k g

unfoldable pub add_node : String → List String → Adjacency → Adjacency
unfolding put
add_node node_id dependencies g = put (lower node_id) (map lower dependencies) g

abbrev or_empty : Option (List String) → List String
or_empty none = []
or_empty (some v) = v

-- The entry of a key, or the empty list.
unfoldable pub entry : Adjacency → String → List String
unfolding lookup
entry g k = or_empty (lookup k g)

unfoldable pub has_node : String → Adjacency → Bool
unfolding lookup
has_node node_id g = elim (lookup (lower node_id) g) [ none ↦ false | some _ ↦ true ]

unfoldable pub get_dependencies : String → Adjacency → List String
unfolding entry
get_dependencies node_id g = entry g (lower node_id)

-- `sorted(...)`, by code points.
abbrev string_leb : String → String → Bool
string_leb a b = elim (compare a b) [ Ordering.gt ↦ false | _ ↦ true ]

unfoldable pub insert_sorted : String → List String → List String
insert_sorted a [] = a ∷ []
insert_sorted a (b ∷ l) = if string_leb a b then a ∷ b ∷ l else b ∷ insert_sorted a l

unfoldable pub sorted : List String → List String
unfolding insert_sorted
sorted [] = []
sorted (a ∷ l) = insert_sorted a (sorted l)

pub data Colour : Type 0 where
  unvisited visiting visited : Colour

-- The locals of the search: `visited`, `ordered`, and the calls of `cancel` made so far.
pub record Search : Type 0 where
  pub colour : String → Colour
  pub ordered : List String
  pub polls : ℕ

unfoldable pub paint : String → Colour → (String → Colour) → String → Colour
paint k c colour j = if j == k then c else colour j

-- The end of `dfs`: the node is visited and stands in `ordered`.
unfoldable pub finish : String → Search → Search
unfolding paint
finish node s = record s {
  colour = paint node visited s.colour;
  ordered = if contains s.ordered node then s.ordered else s.ordered ++ node ∷ [];
}

module _ (cancel : ℕ → Bool) (g : Adjacency) where
  -- The `while to_visit` loop. The head of `to_visit` is the end of Python's list, where `pop` and
  -- `append` work; `all_needed` grows at its front.
  unfoldable pub collect : ℕ → ℕ → List String → List String → Result (List String × ℕ)
  unfolding lookup
  collect fuel polls all_needed [] = ok (all_needed, polls)
  collect zero polls all_needed (current ∷ to_visit) = err out_of_fuel
  collect (suc fuel) polls all_needed (current ∷ to_visit) = elim (cancel polls) [
    | true ↦ err cancelled
    | false ↦ elim (lookup current g) [
      | none ↦ err (not_found current)
      | some parents ↦ elim (contains all_needed current) [
        | true ↦ collect fuel (polls + 1) all_needed to_visit
        | false ↦ collect fuel (polls + 1) (current ∷ all_needed) (reverse parents ++ to_visit)
      ]
    ]
  ]

  module _ (all_needed : List String) where
    -- The `for parent_dep` loop of `dfs`; `call` is the recursive `dfs`.
    unfoldable pub visit_parents :
        (String → List String → Search → Result Search)
        → List String
        → List String
        → Search
        → Result Search
    visit_parents call path [] s = ok s
    visit_parents call path (parent_dep ∷ rest) s =
        let after : Search = record s { polls = s.polls + 1 } in
        elim (cancel s.polls) [
          | true ↦ err cancelled
          | false ↦ elim (contains all_needed parent_dep) [
            | true ↦ elim (s.colour parent_dep) [
              | visiting ↦ err (cycle (path ++ parent_dep ∷ []))
              | unvisited ↦ call parent_dep path after >>= visit_parents call path rest
              | visited ↦ visit_parents call path rest after
            ]
            | false ↦ visit_parents call path rest after
          ]
        ]

    -- `path` is the list without `node`: what `dfs` appends it also pops.
    unfoldable pub dfs : ℕ → String → List String → Search → Result Search
    unfolding paint entry visit_parents finish
    dfs zero node path s = err out_of_fuel
    dfs (suc fuel) node path s =
        let entered : Search = record s {
          colour = paint node visiting s.colour;
          polls = s.polls + 1;
        } in
        elim (cancel s.polls) [
          | true ↦ err cancelled
          | false ↦ visit_parents (dfs fuel) (path ++ node ∷ []) (entry g node) entered >>= λ s'.
              ok (finish node s')
        ]

    -- The loop over the sorted nodes.
    unfoldable pub visit_all : ℕ → List String → Search → Result Search
    unfolding dfs
    visit_all fuel [] s = ok s
    visit_all fuel (node ∷ rest) s = elim (s.colour node) [
      | unvisited ↦ dfs fuel node [] s >>= visit_all fuel rest
      | _ ↦ visit_all fuel rest s
    ]

-- The rounds that the first loop can need: every request, and every listed dependency once.
unfoldable pub weight : Adjacency → ℕ
weight [] = 0
weight ((k, ds) ∷ g) = length ds + weight g

unfoldable pub start_search : ℕ → Search
start_search polls = record { colour = λ _. unvisited; ordered = []; polls = polls }

unfoldable pub resolve_ordered_set : Adjacency → List String → (ℕ → Bool) → Result (List String)
unfolding collect visit_all sorted start_search weight contains
resolve_ordered_set g requested_ids cancel = do
  let requested = map lower requested_ids
  (all_needed, polls) ← collect cancel g (length requested + weight g) 0 [] (reverse requested)
  s ← visit_all cancel g all_needed (length all_needed) (sorted all_needed) (start_search polls)
  ok s.ordered
