-- ===== src/Dependencies/Graph/Order.antt =====
-- What resolve_ordered_set returns, and when it raises what.
use libre_core_mac_loader.Prelude.{
  ℕ, String, ◌≡◌, ◌≢◌, refl, ◌↔◌, Bool, true, ◌||◌, none, List, [], ◌∷◌, ◌++◌, map, arith, ◌==◌,
  string_eq, contains, contains-cons, contains-nil, length, subst,
}
use libre_core_mac_loader.Prelude.Text.{lower}
use libre_core_mac_loader.Dependencies.Graph.Defs.{
  Adjacency, cancelled, out_of_fuel, not_found, cycle, Result, ok, err, ◌>>=◌, lookup,
  insert_sorted, sorted, Search, start_search, visit_all, resolve_ordered_set,
}
use libre_core_mac_loader.Dependencies.Graph.Closure.{Needs, Closed, Collected, collect-Collected}
use libre_core_mac_loader.Dependencies.Graph.Search.{open_count, IsCycle, IsTopological}
use libre_core_mac_loader.Dependencies.Graph.Invariant.{IsGood, Ensures, Ensures-weaken}
use libre_core_mac_loader.Dependencies.Graph.Visit.{VisitsAll, visit_all-VisitsAll}

contains-insert_sorted :
    (a x : String) (l : List String) → contains (insert_sorted a l) x ≡ (x == a || contains l x)
unfolding insert_sorted
contains-insert_sorted a x [] = contains-cons a [] x
contains-insert_sorted a x (b ∷ l) = ground (
  arith,
  contains-insert_sorted a x l,
  contains-cons b (insert_sorted a l) x,
  contains-cons b l x,
  contains-cons a (b ∷ l) x,
)

contains-sorted : (x : String) (l : List String) → contains (sorted l) x ≡ contains l x
unfolding sorted
contains-sorted x [] = refl
contains-sorted x (a ∷ l) =
    ground (arith, contains-insert_sorted a x (sorted l), contains-sorted x l, contains-cons a l x)

open_count-start :
    (polls : ℕ) (l : List String) → open_count (start_search polls).colour l ≡ length l
unfolding start_search open_count
open_count-start polls [] = refl
open_count-start polls (x ∷ l) = omega (arith, open_count-start polls l)

IsGood-start :
    (g : Adjacency) (needed : List String) (polls : ℕ)
    → IsGood g needed [] (start_search polls).colour (start_search polls).ordered
unfolding start_search
IsGood-start g needed polls = record {
  done = λ x h. cc;
  listed = λ x h. cc (contains-nil x);
  stacked = λ x h. cc;
  on_path = λ x h. cc (contains-nil x);
  inside = λ x h. cc (contains-nil x);
  topological = λ front back x e. absurd (nil_ne front back x e);
}
  where
    nil_ne : (front back : List String) (x : String) → ¬ ([] ≡ front ++ x ∷ back)
    nil_ne [] back x e = cc
    nil_ne (f ∷ front) back x e = cc

module _ (g : Adjacency) (requested_ids : List String) (cancel : ℕ → Bool) where
  abbrev pub roots : List String
  roots = map lower requested_ids

  -- A result that is right, or the reason why there is none.
  abbrev pub Resolution : Result (List String) → Type 0
  Resolution (ok order) =
      IsTopological g order × ((x : String) → (contains order x ≡ true) ↔ Needs g roots x)
  Resolution (err cancelled) = (n : ℕ) × (cancel n ≡ true)
  Resolution (err out_of_fuel) = ⊥
  Resolution (err (not_found x)) = Needs g roots x × (lookup x g ≡ none)
  Resolution (err (cycle c)) = IsCycle g c

  Closed-Needs :
      (needed : List String)
      → Closed g roots needed
      → (x : String) → Needs g roots x
      → contains needed x ≡ true
  Closed-Needs needed c x (Needs.asked h) = c.rooted x h
  Closed-Needs needed c x (Needs.through {x = y} n h) = c.closed y x (Closed-Needs needed c y n) h

  Resolution-search :
      (needed : List String)
      → Closed g roots needed
      → (r : Result Search)
      → Ensures g cancel
          (λ s.
            IsGood g needed [] s.colour s.ordered
            × ((d : String) → contains needed d ≡ true → contains s.ordered d ≡ true))
          r
      → Resolution (r >>= λ s. ok s.ordered)
  Resolution-search needed c (ok s) (i, all) =
      (i.topological, λ x. (λ h. c.sound x (i.inside x h), λ n. all x (Closed-Needs needed c x n)))
  Resolution-search needed c (err cancelled) h = h
  Resolution-search needed c (err out_of_fuel) h = h
  Resolution-search needed c (err (not_found x)) h = absurd h
  Resolution-search needed c (err (cycle p)) h = h

  abbrev search : List String → ℕ → Result Search
  search needed polls =
      visit_all cancel g needed (length needed) (sorted needed) (start_search polls)

  search-Ensures :
      (needed : List String) (polls : ℕ)
      → Closed g roots needed
      → Ensures g cancel
          (λ s.
            IsGood g needed [] s.colour s.ordered
            × ((d : String) → contains needed d ≡ true → contains s.ordered d ≡ true))
          (search needed polls)
  search-Ensures needed polls c =
      Ensures-weaken g cancel
        (VisitsAll cancel g needed c.closed (sorted needed) [] (start_search polls)) _ _
        (visit_all-VisitsAll cancel g needed c.closed (length needed) (sorted needed)
          (start_search polls) (λ x h. rw contains-sorted at h)
          (omega (arith, open_count-start polls needed)) (IsGood-start g needed polls))
        (λ s (i, gr, all). (i, λ d h. i.done d (all d (rw contains-sorted h))))

  Resolution-collect :
      (r : Result (List String × ℕ))
      → Collected g roots cancel r
      → Resolution (r >>= λ (needed, polls). search needed polls >>= λ s. ok s.ordered)
  Resolution-collect (ok (needed, polls)) c =
      Resolution-search needed c (search needed polls) (search-Ensures needed polls c)
  Resolution-collect (err cancelled) h = h
  Resolution-collect (err out_of_fuel) h = h
  Resolution-collect (err (not_found x)) h = h
  Resolution-collect (err (cycle c)) h = absurd h

  pub resolve-Resolution : Resolution (resolve_ordered_set g requested_ids cancel)
  unfolding resolve_ordered_set
  resolve-Resolution = Resolution-collect _ (collect-Collected g roots cancel)

  -- A returned order holds exactly the requested nodes and what they need, each once and behind
  -- all of its dependencies.
  pub resolve-IsTopological :
      (order : List String)
      → resolve_ordered_set g requested_ids cancel ≡ ok order
      → IsTopological g order × ((x : String) → (contains order x ≡ true) ↔ Needs g roots x)
  resolve-IsTopological order e = subst Resolution e resolve-Resolution

  -- The loops end: the fuel given to them is enough, whatever the graph and the requests.
  pub resolve-ne-out_of_fuel : resolve_ordered_set g requested_ids cancel ≢ err out_of_fuel
  resolve-ne-out_of_fuel e = subst Resolution e resolve-Resolution

  -- A missing node is reported only if it is needed and not in the graph.
  pub resolve-not_found :
      (x : String)
      → resolve_ordered_set g requested_ids cancel ≡ err (not_found x)
      → Needs g roots x × (lookup x g ≡ none)
  resolve-not_found x e = subst Resolution e resolve-Resolution

  -- A reported cycle is a chain of dependencies that comes back to one of its nodes.
  pub resolve-IsCycle :
      (c : List String) → resolve_ordered_set g requested_ids cancel ≡ err (cycle c) → IsCycle g c
  resolve-IsCycle c e = subst Resolution e resolve-Resolution
