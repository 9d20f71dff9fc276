-- ===== src/Dependencies/Graph/Search.antt =====
-- The depth-first search of resolve_ordered_set: what it keeps true, whatever the graph.
use mathlib.Core.List.{append_assoc}
use libre_core_mac_loader.Prelude.{
  ℕ, ◌+◌, ◌≤◌, String, ◌≡◌, refl, ap, ◌∙◌, ◌⊎◌, inl, inr, true, false, List, [], ◌∷◌, ◌++◌, arith,
  string_eq, beq_refl, beq_cases, contains, contains-cons, contains-nil, append-split,
}
use libre_core_mac_loader.Dependencies.Graph.Defs.{
  Adjacency, entry, Colour, unvisited, visiting, visited, paint,
}

pub Colour-cases : (c : Colour) → (c ≡ unvisited) ⊎ ((c ≡ visiting) ⊎ (c ≡ visited))
Colour-cases unvisited = inl refl
Colour-cases visiting = inr (inl refl)
Colour-cases visited = inr (inr refl)

abbrev is_open : Colour → ℕ
is_open unvisited = 1
is_open visiting = 0
is_open visited = 0

-- The nodes of a list that are unvisited: the depth that the search can still reach.
unfoldable pub open_count : (String → Colour) → List String → ℕ
open_count colour [] = 0
open_count colour (x ∷ l) = is_open (colour x) + open_count colour l

pub open_count-le :
    (f h : String → Colour) (l : List String)
    → ((x : String) → f x ≡ unvisited → h x ≡ unvisited)
    → open_count f l ≤ open_count h l
unfolding open_count
open_count-le f h [] fewer = omega arith
open_count-le f h (x ∷ l) fewer = ground (arith, fewer x, open_count-le f h l fewer)

pub paint-unvisited :
    (n : String) (f : String → Colour) (x : String)
    → paint n visiting f x ≡ unvisited
    → f x ≡ unvisited
unfolding paint
paint-unvisited n f x h = ground arith

pub open_count-paint :
    (n : String) (f : String → Colour) (l : List String)
    → f n ≡ unvisited
    → contains l n ≡ true
    → open_count (paint n visiting f) l + 1 ≤ open_count f l
unfolding open_count paint
open_count-paint n f [] h m = cc (contains-nil n)
open_count-paint n f (x ∷ l) h m = elim (beq_cases x n) [
  | inl p ↦
      ground
        (arith, beq_refl n, ap f p, open_count-le (paint n visiting f) f l (paint-unvisited n f))
  | inr p ↦ ground (arith, contains-cons x l n, string_eq.beq_iff n x, open_count-paint n f l h)
]

module _ (g : Adjacency) where
  abbrev pub Follows : String → List String → Type 0
  Follows x [] = Unit
  Follows x (y ∷ l) = contains (entry g x) y ≡ true

  -- Each element depends on the next one.
  abbrev pub Linked : List String → Type 0
  Linked [] = Unit
  Linked (x ∷ l) = Follows x l × Linked l

  -- A chain of dependencies whose last node stands in it before.
  pub record IsCycle (c : List String) : Type 0 where
    pub front : List String
    pub middle : List String
    pub node : String
    pub shape : c ≡ front ++ node ∷ (middle ++ node ∷ [])
    pub linked : Linked c

  -- No node stands twice, and every dependency of a node stands before it.
  abbrev pub IsTopological : List String → Type 0
  IsTopological order =
      (front back : List String) (x : String)
      → order ≡ front ++ x ∷ back
      → (contains front x ≡ false)
        × ((d : String) → contains (entry g x) d ≡ true → contains front d ≡ true)

  pub Linked-snoc :
      (p : List String) (x d : String)
      → Linked (p ++ x ∷ [])
      → contains (entry g x) d ≡ true
      → Linked ((p ++ x ∷ []) ++ d ∷ [])
  Linked-snoc [] x d h e = (e, (tt, tt))
  Linked-snoc (y ∷ []) x d h e = (h.0, Linked-snoc [] x d h.1 e)
  Linked-snoc (y ∷ z ∷ p) x d h e = (h.0, Linked-snoc (z ∷ p) x d h.1 e)

  pub contains-split :
      (p : List String) (d : String)
      → contains p d ≡ true
      → (front back : List String) × (p ≡ front ++ d ∷ back)
  contains-split [] d h = cc (contains-nil d)
  contains-split (x ∷ p) d h = elim (beq_cases x d) [
    | inl e ↦ ([], p, rw e)
    | inr e ↦
        let (front, back, q) =
          contains-split p d (ground (arith, contains-cons x p d, string_eq.beq_iff d x)) in
        (x ∷ front, back, rw (← q))
  ]

  pub IsCycle-snoc :
      (p : List String) (d : String)
      → contains p d ≡ true
      → Linked (p ++ d ∷ [])
      → IsCycle (p ++ d ∷ [])
  IsCycle-snoc p d h l =
      let (front, back, q) = contains-split p d h in
      record {
        front = front;
        middle = back;
        node = d;
        shape = ap (λ (t : List String). t ++ d ∷ []) q ∙ append_assoc front (d ∷ back) (d ∷ []);
        linked = l;
      }

  pub IsTopological-snoc :
      (order : List String) (n : String)
      → IsTopological order
      → contains order n ≡ false
      → ((d : String) → contains (entry g n) d ≡ true → contains order d ≡ true)
      → IsTopological (order ++ n ∷ [])
  IsTopological-snoc order n topo new deps front back x e =
      elim (append-split order front back n x e) [
        | inl (p, q, r) ↦ rw (q, r) (new, deps)
        | inr (rest, p, q) ↦ topo front rest x q
      ]
