-- ===== src/Dependencies/Graph/Invariant.antt =====
-- The invariant of the depth-first search, and what its result promises.
use libre_core_mac_loader.Prelude.{
  ℕ, String, ◌≡◌, inl, inr, Bool, true, false, List, [], ◌∷◌, ◌++◌, arith, string_eq, contains,
  contains-append, contains-cons, contains-nil, contains-cons_self, if◌then◌else◌, Bool-cases,
}
use libre_core_mac_loader.Dependencies.Graph.Defs.{
  Adjacency, cancelled, out_of_fuel, not_found, cycle, Result, ok, err, ◌>>=◌, entry, Colour,
  unvisited, visiting, visited, Search, paint, finish,
}
use libre_core_mac_loader.Dependencies.Graph.Search.{IsCycle, IsTopological, IsTopological-snoc}

module _ (g : Adjacency) where
  -- No node becomes unvisited, and a visited node stays so.
  pub record Grows (before after : String → Colour) : Type 0 where
    pub kept : (x : String) → before x ≡ visited → after x ≡ visited
    pub fewer : (x : String) → after x ≡ unvisited → before x ≡ unvisited

  pub Grows-refl : (f : String → Colour) → Grows f f
  Grows-refl f = record { kept = λ x h. h; fewer = λ x h. h }

  pub Grows-trans : (a b c : String → Colour) → Grows a b → Grows b c → Grows a c
  Grows-trans a b c p q = record {
    kept = λ x h. q.kept x (p.kept x h);
    fewer = λ x h. p.fewer x (q.fewer x h);
  }

  -- A search that returns meets `Q`, and one that raises a cycle error has found a cycle. It never
  -- runs out of fuel.
  abbrev pub Ensures : (ℕ → Bool) → (Search → Type 0) → Result Search → Type 0
  Ensures cancel Q (ok s) = Q s
  Ensures cancel Q (err cancelled) = (n : ℕ) × (cancel n ≡ true)
  Ensures cancel Q (err out_of_fuel) = ⊥
  Ensures cancel Q (err (not_found x)) = ⊥
  Ensures cancel Q (err (cycle c)) = IsCycle g c

  pub Ensures-bind :
      (cancel : ℕ → Bool) (P Q : Search → Type 0) (m : Result Search) (f : Search → Result Search)
      → Ensures cancel P m
      → ((s : Search) → P s → Ensures cancel Q (f s))
      → Ensures cancel Q (m >>= f)
  Ensures-bind cancel P Q (ok s) f h k = k s h
  Ensures-bind cancel P Q (err cancelled) f h k = h
  Ensures-bind cancel P Q (err out_of_fuel) f h k = h
  Ensures-bind cancel P Q (err (not_found x)) f h k = h
  Ensures-bind cancel P Q (err (cycle c)) f h k = h

  pub Ensures-weaken :
      (cancel : ℕ → Bool) (P Q : Search → Type 0) (m : Result Search)
      → Ensures cancel P m
      → ((s : Search) → P s → Q s)
      → Ensures cancel Q m
  Ensures-weaken cancel P Q (ok s) h k = k s h
  Ensures-weaken cancel P Q (err cancelled) h k = h
  Ensures-weaken cancel P Q (err out_of_fuel) h k = h
  Ensures-weaken cancel P Q (err (not_found x)) h k = h
  Ensures-weaken cancel P Q (err (cycle c)) h k = h

module _ (g : Adjacency) (needed : List String) where
  -- What holds of a search on whose recursion stack the nodes of `path` stand.
  pub record IsGood (path : List String) (colour : String → Colour) (ordered : List String)
      : Type 0 where
    pub done : (x : String) → colour x ≡ visited → contains ordered x ≡ true
    pub listed : (x : String) → contains ordered x ≡ true → colour x ≡ visited
    pub stacked : (x : String) → colour x ≡ visiting → contains path x ≡ true
    pub on_path : (x : String) → contains path x ≡ true → colour x ≡ visiting
    pub inside : (x : String) → contains ordered x ≡ true → contains needed x ≡ true
    pub topological : IsTopological g ordered

  pub IsGood-enter :
      (node : String) (path : List String) (colour : String → Colour) (ordered : List String)
      → colour node ≡ unvisited
      → IsGood path colour ordered
      → IsGood (path ++ node ∷ []) (paint node visiting colour) ordered
  unfolding paint
  IsGood-enter node path colour ordered new i = record {
    done = λ x h. ground (arith, i.done x);
    listed = λ x h. ground (arith, i.listed x h, string_eq.beq_iff x node);
    stacked = λ x h. ground (
      arith,
      i.stacked x,
      contains-append path (node ∷ []) x,
      contains-cons node [] x,
      contains-nil x,
    );
    on_path = λ x h. ground (
      arith,
      i.on_path x,
      contains-append path (node ∷ []) x,
      contains-cons node [] x,
      contains-nil x,
    );
    inside = i.inside;
    topological = i.topological;
  }

  pub Grows-enter :
      (node : String) (colour : String → Colour)
      → colour node ≡ unvisited
      → Grows g colour (paint node visiting colour)
  unfolding paint
  Grows-enter node colour new = record {
    kept = λ x h. ground (arith, string_eq.beq_iff x node);
    fewer = λ x h. ground arith;
  }

  -- The end of `dfs`: the node leaves the stack and is placed behind its dependencies.
  pub IsGood-finish :
      (node : String) (path : List String) (s : Search)
      → contains path node ≡ false
      → contains needed node ≡ true
      → IsGood (path ++ node ∷ []) s.colour s.ordered
      → ((d : String) → contains (entry g node) d ≡ true → s.colour d ≡ visited)
      → IsGood path (finish node s).colour (finish node s).ordered
  unfolding finish
  IsGood-finish node path s off m i deps =
      rw (fresh, if◌then◌else◌)
        (record {
          done = λ x h. ground (
            arith,
            i.done x,
            contains-append s.ordered (node ∷ []) x,
            contains-cons node [] x,
            string_eq.beq_iff x node,
          );
          listed = λ x h. ground (
            arith,
            i.listed x,
            contains-append s.ordered (node ∷ []) x,
            contains-cons node [] x,
            contains-nil x,
            string_eq.beq_iff x node,
          );
          stacked = λ x h. ground (
            arith,
            i.stacked x,
            contains-append path (node ∷ []) x,
            contains-cons node [] x,
            contains-nil x,
            string_eq.beq_iff x node,
          );
          on_path = λ x h.
              ground
                (arith, i.on_path x, contains-append path (node ∷ []) x, string_eq.beq_iff x node);
          inside = λ x h. ground (
            arith,
            i.inside x,
            contains-append s.ordered (node ∷ []) x,
            contains-cons node [] x,
            contains-nil x,
            string_eq.beq_iff x node,
          );
          topological =
              IsTopological-snoc g s.ordered node i.topological fresh (λ d h. i.done d (deps d h));
        })
    where
      open_node : s.colour node ≡ visiting
      open_node =
          i.on_path node
            (ground (arith, contains-append path (node ∷ []) node, contains-cons_self node []))

      fresh : contains s.ordered node ≡ false
      fresh = elim (Bool-cases (contains s.ordered node)) [
        | inl h ↦ cc (i.listed node h, open_node)
        | inr h ↦ h
      ]

  pub Grows-finish : (node : String) (s : Search) → Grows g s.colour (finish node s).colour
  unfolding finish
  Grows-finish node s = record { kept = λ x h. ground arith; fewer = λ x h. ground arith }
