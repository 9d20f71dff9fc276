-- ===== src/Dependencies/Graph/Visit.antt =====
-- `dfs` and its loops keep the invariant, and the fuel is enough.
use libre_core_mac_loader.Prelude.{
  ℕ, zero, suc, ◌+◌, ◌≤◌, String, ◌≡◌, inl, inr, Bool, true, false, List, [], ◌∷◌, ◌++◌, arith,
  string_eq, beq_refl, beq_cases, contains, contains-cons, contains-nil, contains-cons_self,
  Bool-cases,
}
use libre_core_mac_loader.Dependencies.Graph.Defs.{
  Adjacency, Result, entry, unvisited, visiting, visited, Search, paint, visit_parents, finish, dfs,
  visit_all,
}
use libre_core_mac_loader.Dependencies.Graph.Search.{
  Colour-cases, open_count, open_count-le, open_count-paint, Linked, Linked-snoc, IsCycle-snoc,
}
use libre_core_mac_loader.Dependencies.Graph.Invariant.{
  IsGood, Grows, Grows-refl, Grows-trans, Ensures, Ensures-bind, Ensures-weaken, IsGood-enter,
  Grows-enter, IsGood-finish, Grows-finish,
}

module _ (cancel : ℕ → Bool) (g : Adjacency) (needed : List String)
    (closed : (x d : String)
      → contains needed x ≡ true
      → contains (entry g x) d ≡ true
      → contains needed d ≡ true) where
  -- What a call of `dfs` leaves behind.
  abbrev Visits : String → List String → Search → Search → Type 0
  Visits node path s s' =
      IsGood g needed path s'.colour s'.ordered
      × Grows g s.colour s'.colour
      × (s'.colour node ≡ visited)

  -- The same of the loop over some dependencies.
  abbrev pub VisitsAll : List String → List String → Search → Search → Type 0
  VisitsAll ds path s s' =
      IsGood g needed path s'.colour s'.ordered
      × Grows g s.colour s'.colour
      × ((d : String) → contains ds d ≡ true → s'.colour d ≡ visited)

  -- A correct recursive call, for searches that can still go `fuel` deep.
  abbrev Calls : ℕ → (String → List String → Search → Result Search) → Type 0
  Calls fuel call =
      (node : String) (path : List String) (s : Search)
      → open_count s.colour needed ≤ fuel
      → contains needed node ≡ true
      → s.colour node ≡ unvisited
      → Linked g (path ++ node ∷ [])
      → IsGood g needed path s.colour s.ordered
      → Ensures g cancel (Visits node path s) (call node path s)

  VisitsAll-cons :
      (d : String) (ds path : List String) (s mid s' : Search)
      → Grows g s.colour mid.colour
      → mid.colour d ≡ visited
      → VisitsAll ds path mid s'
      → VisitsAll (d ∷ ds) path s s'
  VisitsAll-cons d ds path s mid s' grows now (i, gr, all) = (
    i,
    Grows-trans g s.colour mid.colour s'.colour grows gr,
    λ x h. elim (beq_cases x d) [
      | inl e ↦ rw e (gr.kept d now)
      | inr e ↦ all x (ground (arith, contains-cons d ds x))
    ],
  )

  module _ (fuel : ℕ) (call : String → List String → Search → Result Search)
      (calls : Calls fuel call) (node : String) (front : List String) where
    abbrev path : List String
    path = front ++ node ∷ []

    visit_parents-VisitsAll :
        (ds : List String) (s : Search)
        → ((d : String) → contains ds d ≡ true → contains (entry g node) d ≡ true)
        → contains needed node ≡ true
        → open_count s.colour needed ≤ fuel
        → Linked g path
        → IsGood g needed path s.colour s.ordered
        → Ensures g cancel (VisitsAll ds path s) (visit_parents cancel g needed call path ds s)
    unfolding visit_parents
    visit_parents-VisitsAll [] s sub m h l i =
        (i, Grows-refl g s.colour, λ d k. cc (contains-nil d))
    visit_parents-VisitsAll (d ∷ ds) s sub m h l i = elim (Bool-cases (cancel s.polls)) [
      | inl c ↦ rw (c, visit_parents) (s.polls, c)
      | inr c ↦
          let listed : contains (entry g node) d ≡ true = sub d (contains-cons_self d ds) in
          let inside : contains needed d ≡ true = closed node d m listed in
          let chain = Linked-snoc g front node d l listed in
          let sub' : (x : String) → contains ds x ≡ true → contains (entry g node) x ≡ true =
            λ x k. sub x (ground (arith, contains-cons d ds x)) in
          let after : Search = record s { polls = s.polls + 1 } in
          elim (Colour-cases (s.colour d)) [
            | inl e ↦
                rw (c, inside, e, visit_parents)
                  (Ensures-bind g cancel (Visits d path s) (VisitsAll (d ∷ ds) path s) _ _
                    (calls d path after h inside e chain i)
                    (λ mid (j, gr, now).
                      Ensures-weaken g cancel (VisitsAll ds path mid) (VisitsAll (d ∷ ds) path s) _
                        (visit_parents-VisitsAll ds mid sub' m
                          (omega (arith, open_count-le mid.colour s.colour needed gr.fewer)) l j)
                        (λ s'. VisitsAll-cons d ds path s mid s' gr now)))
            | inr (inl e) ↦
                rw (c, inside, e, visit_parents) (IsCycle-snoc g path d (i.stacked d e) chain)
            | inr (inr e) ↦
                rw (c, inside, e, visit_parents)
                  (Ensures-weaken g cancel (VisitsAll ds path after) (VisitsAll (d ∷ ds) path s) _
                    (visit_parents-VisitsAll ds after sub' m h l i)
                    (λ s'. VisitsAll-cons d ds path s after s' (Grows-refl g s.colour) e))
          ]
    ]

  -- The recursion: a call that can go as deep as there are unvisited nodes is correct.
  pub dfs-Visits : (fuel : ℕ) → Calls fuel (dfs cancel g needed fuel)
  unfolding dfs
  dfs-Visits zero node path s h m e l i =
      absurd (omega (arith, open_count-paint node s.colour needed e m))
  dfs-Visits (suc fuel) node path s h m e l i = elim (Bool-cases (cancel s.polls)) [
    | inl c ↦ rw (c, dfs) (s.polls, c)
    | inr c ↦
        let entered : Search = record s {
          colour = paint node visiting s.colour;
          polls = s.polls + 1;
        } in
        rw (c, dfs)
          (Ensures-bind g cancel (VisitsAll (entry g node) (path ++ node ∷ []) entered)
            (Visits node path s) _ _
            (visit_parents-VisitsAll fuel (dfs cancel g needed fuel) (dfs-Visits fuel) node path
              (entry g node) entered (λ d k. k) m
              (omega (arith, open_count-paint node s.colour needed e m)) l
              (IsGood-enter g needed node path s.colour s.ordered e i))
            (λ mid (j, gr, all). (
              IsGood-finish g needed node path mid (off_path node path s e i) m j all,
              Grows-trans g s.colour entered.colour _ (Grows-enter g needed node s.colour e)
                  (Grows-trans g entered.colour mid.colour _ gr (Grows-finish g needed node mid)),
              visited_last node mid,
            )))
  ]
    where
      off_path :
          (node : String) (path : List String) (s : Search)
          → s.colour node ≡ unvisited
          → IsGood g needed path s.colour s.ordered
          → contains path node ≡ false
      off_path node path s e i = elim (Bool-cases (contains path node)) [
        | inl k ↦ cc (i.on_path node k)
        | inr k ↦ k
      ]

      visited_last : (node : String) (s : Search) → (finish node s).colour node ≡ visited
      visited_last node s = rw (beq_refl node)

  -- The loop over all nodes, from a search with an empty stack.
  pub visit_all-VisitsAll :
      (fuel : ℕ) (rest : List String) (s : Search)
      → ((x : String) → contains rest x ≡ true → contains needed x ≡ true)
      → open_count s.colour needed ≤ fuel
      → IsGood g needed [] s.colour s.ordered
      → Ensures g cancel (VisitsAll rest [] s) (visit_all cancel g needed fuel rest s)
  unfolding visit_all
  visit_all-VisitsAll fuel [] s sub h i = (i, Grows-refl g s.colour, λ d k. cc (contains-nil d))
  visit_all-VisitsAll fuel (node ∷ rest) s sub h i =
      let sub' : (x : String) → contains rest x ≡ true → contains needed x ≡ true =
        λ x k. sub x (ground (arith, contains-cons node rest x)) in
      elim (Colour-cases (s.colour node)) [
        | inl e ↦
            rw (e, visit_all)
              (Ensures-bind g cancel (Visits node [] s) (VisitsAll (node ∷ rest) [] s) _ _
                (dfs-Visits fuel node [] s h (sub node (contains-cons_self node rest)) e (tt, tt) i)
                (λ mid (j, gr, now).
                  Ensures-weaken g cancel (VisitsAll rest [] mid) (VisitsAll (node ∷ rest) [] s) _
                    (visit_all-VisitsAll fuel rest mid sub'
                      (omega (arith, open_count-le mid.colour s.colour needed gr.fewer)) j)
                    (λ s'. VisitsAll-cons node rest [] s mid s' gr now)))
        | inr (inl e) ↦ cc (i.stacked node e, contains-nil node)
        | inr (inr e) ↦
            rw (e, visit_all)
              (Ensures-weaken g cancel (VisitsAll rest [] s) (VisitsAll (node ∷ rest) [] s) _
                (visit_all-VisitsAll fuel rest s sub' h i)
                (λ s'. VisitsAll-cons node rest [] s s s' (Grows-refl g s.colour) e))
      ]
