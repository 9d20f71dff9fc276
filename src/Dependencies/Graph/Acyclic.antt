-- ===== src/Dependencies/Graph/Acyclic.antt =====
-- The resolution succeeds on acyclic graphs, and only there.
use libre_core_mac_loader.Prelude.{
  ℕ, suc, ◌<◌, String, ◌≡◌, ◌≢◌, refl, inl, inr, Bool, true, false, none, List, [], ◌∷◌, ◌++◌, map,
  arith, ◌==◌, string_eq, beq_cases, contains, contains-cons, contains-nil, contains-cons_self,
  contains-append, length, if◌then◌else◌, subst, ◌↔◌,
}
use libre_core_mac_loader.Prelude.Text.{lower}
use libre_core_mac_loader.Dependencies.Graph.Defs.{
  Adjacency, cancelled, out_of_fuel, not_found, cycle, Result, ok, err, entry, lookup,
  resolve_ordered_set,
}
use libre_core_mac_loader.Dependencies.Graph.Closure.{Needs}
use libre_core_mac_loader.Dependencies.Graph.Search.{Linked, IsCycle, IsTopological, contains-split}
use libre_core_mac_loader.Dependencies.Graph.Order.{
  Resolution, resolve-Resolution, resolve-IsTopological,
}

-- Where a name first stands in a list; the length if it does not.
position : List String → String → ℕ
position [] x = 0
position (y ∷ l) x = if x == y then 0 else suc (position l x)

position-lt :
    (front back : List String) (x : String)
    → contains front x ≡ true
    → position (front ++ back) x < length front
unfolding position
position-lt [] back x h = cc (contains-nil x)
position-lt (y ∷ front) back x h = ground (arith, contains-cons y front x, position-lt front back x)

position-append :
    (front back : List String) (x : String)
    → contains front x ≡ false
    → position (front ++ x ∷ back) x ≡ length front
unfolding position
position-append [] back x h = ground (arith, string_eq.beq_iff x x)
position-append (y ∷ front) back x h =
    ground (arith, contains-cons y front x, position-append front back x)

module _ (g : Adjacency) (rank : String → ℕ)
    (ranked : (x d : String) → contains (entry g x) d ≡ true → rank d < rank x) where
  rank-Linked :
      (x y : String) (l : List String) → Linked g (x ∷ l) → contains l y ≡ true → rank y < rank x
  rank-Linked x y [] k h = cc (contains-nil y)
  rank-Linked x y (z ∷ l) (f, k) h = elim (beq_cases y z) [
    | inl e ↦ rw e (ranked x z f)
    | inr e ↦ omega (arith, ranked x z f, rank-Linked z y l k (ground (arith, contains-cons z l y)))
  ]

  Linked-drop : (front back : List String) → Linked g (front ++ back) → Linked g back
  Linked-drop [] back h = h
  Linked-drop (x ∷ front) back h = Linked-drop front back h.1

  not-IsCycle : (c : List String) → ¬ IsCycle g c
  not-IsCycle c k =
      let back = k.middle ++ k.node ∷ [] in
      omega (
        arith,
        rank-Linked k.node k.node back
            (Linked-drop k.front (k.node ∷ back) (subst (Linked g) k.shape k.linked))
            (rw (contains-append, contains-cons_self) (ground arith)),
      )

module _ (g : Adjacency) (requested_ids : List String) (cancel : ℕ → Bool) where
  complete :
      (rank : String → ℕ)
      → ((n : ℕ) → cancel n ≡ false)
      → ((x : String) → Needs g (map lower requested_ids) x → lookup x g ≢ none)
      → ((x d : String) → contains (entry g x) d ≡ true → rank d < rank x)
      → (r : Result (List String)) → Resolution g requested_ids cancel r
      → (order : List String) × (r ≡ ok order)
  complete rank free here ranked (ok order) h = (order, refl)
  complete rank free here ranked (err cancelled) h = cc (free h.0, h.1)
  complete rank free here ranked (err out_of_fuel) h = absurd h
  complete rank free here ranked (err (not_found x)) h = absurd (here x h.0 h.1)
  complete rank free here ranked (err (cycle c)) h = absurd (not-IsCycle g rank ranked c h)

  -- Without cancellation, and if every needed node is in the graph and the dependencies of each
  -- node have a smaller rank, an order is returned.
  pub resolve_complete :
      (rank : String → ℕ)
      → ((n : ℕ) → cancel n ≡ false)
      → ((x : String) → Needs g (map lower requested_ids) x → lookup x g ≢ none)
      → ((x d : String) → contains (entry g x) d ≡ true → rank d < rank x)
      → (order : List String) × (resolve_ordered_set g requested_ids cancel ≡ ok order)
  resolve_complete rank free here ranked =
      complete rank free here ranked _ (resolve-Resolution g requested_ids cancel)

  -- If an order is returned then the needed part of the graph has no cycle: its nodes have ranks,
  -- smaller for a dependency than for the node that lists it.
  pub resolve_acyclic :
      (order : List String)
      → resolve_ordered_set g requested_ids cancel ≡ ok order
      → (rank : String → ℕ) × ((x d : String)
          → Needs g (map lower requested_ids) x
          → contains (entry g x) d ≡ true
          → rank d < rank x)
  resolve_acyclic order e = (position order, falls)
    where
      right :
          IsTopological g order
          × ((x : String) → (contains order x ≡ true) ↔ Needs g (map lower requested_ids) x)
      right = resolve-IsTopological g requested_ids cancel order e

      falls :
          (x d : String)
          → Needs g (map lower requested_ids) x
          → contains (entry g x) d ≡ true
          → position order d < position order x
      falls x d n h =
          let (front, back, p) = contains-split g order x ((right.1 x).1 n) in
          let (new, deps) = right.0 front back x p in
          rw p (
            omega
              (arith, position-append front back x new, position-lt front (x ∷ back) d (deps d h)))
