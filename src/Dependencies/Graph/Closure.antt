-- ===== src/Dependencies/Graph/Closure.antt =====
-- The first loop of resolve_ordered_set: what the requests need.
use mathlib.Core.List.{reverse-cons}
use libre_core_mac_loader.Prelude.{
  ℕ, zero, suc, ◌+◌, ◌≤◌, String, ◌≡◌, refl, inl, inr, Bool, true, false, ◌||◌, none, some, List,
  [], ◌∷◌, ◌++◌, map, reverse, arith, string_eq, beq_refl, beq_cases, contains, contains-append,
  contains-cons, contains-nil, contains-cons_self, length, length-append, if◌then◌else◌, Bool-cases,
  Option-cases,
}
use libre_core_mac_loader.Dependencies.Graph.Defs.{
  Adjacency, cancelled, out_of_fuel, not_found, cycle, Result, ok, err, lookup, entry, collect,
  weight,
}

-- A node is needed if it is requested, or is a dependency of a needed node.
pub data Needs (g : Adjacency) (roots : List String) : String → Type 0 where
  asked : {x : String} → contains roots x ≡ true → Needs g roots x
  through : {x d : String} → Needs g roots x → contains (entry g x) d ≡ true → Needs g roots d

or_comm : (a b : Bool) → (a || b) ≡ (b || a)
or_comm a b = ground arith

pub contains-reverse : (xs : List String) (a : String) → contains (reverse xs) a ≡ contains xs a
contains-reverse [] a = refl
contains-reverse (x ∷ xs) a =
    rw (reverse-cons, contains-append, contains-reverse xs a, contains-cons, contains-cons)
      (ground (arith, contains-nil a))

pub length-reverse : (xs : List String) → length (reverse xs) ≡ length xs
length-reverse [] = refl
length-reverse (x ∷ xs) =
    rw reverse-cons (omega (arith, length-append (reverse xs) (x ∷ []), length-reverse xs))

pub length-map : (f : String → String) (xs : List String) → length (map f xs) ≡ length xs
length-map f [] = refl
length-map f (x ∷ xs) = omega (arith, length-map f xs)

-- The dependencies listed by nodes that are not collected yet.
pub left : List String → Adjacency → ℕ
left needed [] = 0
left needed ((k, ds) ∷ g) = (if contains needed k then 0 else length ds) + left needed g

left-cons-le :
    (n : String) (needed : List String) (g : Adjacency) → left (n ∷ needed) g ≤ left needed g
unfolding left
left-cons-le n needed [] = omega arith
left-cons-le n needed ((k, ds) ∷ g) =
    ground (arith, left-cons-le n needed g, contains-cons n needed k)

left-cons-add :
    (n : String) (needed : List String) (g : Adjacency) (ds : List String)
    → lookup n g ≡ some ds
    → contains needed n ≡ false
    → left (n ∷ needed) g + length ds ≤ left needed g
unfolding left lookup
left-cons-add n needed [] ds e h = cc
left-cons-add n needed ((k, ds') ∷ g) ds e h = elim (beq_cases n k) [
  | inl p ↦
      ground (
        arith,
        beq_refl k,
        contains-cons n needed k,
        left-cons-le n needed g,
        string_eq.beq_iff k n,
      )
  | inr p ↦ ground (
    arith,
    contains-cons n needed k,
    left-cons-add n needed g ds,
    string_eq.beq_iff k n,
    string_eq.beq_iff n k,
  )
]

pub left-nil : (g : Adjacency) → left [] g ≡ weight g
unfolding left weight
left-nil [] = refl
left-nil ((k, ds) ∷ g) = ground (arith, contains-nil k, left-nil g)

pub entry_of_lookup :
    (g : Adjacency) (x : String) (ds : List String) → lookup x g ≡ some ds → entry g x ≡ ds
unfolding entry
entry_of_lookup g x ds e = rw e

module _ (g : Adjacency) (roots : List String) where
  -- The state of the loop: what is collected, and what is still to visit.
  record Inv (needed to_visit : List String) : Type 0 where
    sound : (x : String) → contains needed x ≡ true → Needs g roots x
    pending : (x : String) → contains to_visit x ≡ true → Needs g roots x
    present : (x : String) → contains needed x ≡ true → (ds : List String) × (lookup x g ≡ some ds)
    closed :
        (x d : String)
        → contains needed x ≡ true
        → contains (entry g x) d ≡ true
        → (contains needed d || contains to_visit d) ≡ true
    rooted :
        (x : String) → contains roots x ≡ true → (contains needed x || contains to_visit x) ≡ true

  -- A complete set: exactly the needed nodes, all of them in the graph.
  pub record Closed (needed : List String) : Type 0 where
    pub sound : (x : String) → contains needed x ≡ true → Needs g roots x
    pub present :
        (x : String) → contains needed x ≡ true → (ds : List String) × (lookup x g ≡ some ds)
    pub closed :
        (x d : String)
        → contains needed x ≡ true
        → contains (entry g x) d ≡ true
        → contains needed d ≡ true
    pub rooted : (x : String) → contains roots x ≡ true → contains needed x ≡ true

  abbrev pub Collected : (ℕ → Bool) → Result (List String × ℕ) → Type 0
  Collected cancel (ok (needed, polls)) = Closed needed
  Collected cancel (err cancelled) = (n : ℕ) × (cancel n ≡ true)
  Collected cancel (err out_of_fuel) = ⊥
  Collected cancel (err (not_found x)) = Needs g roots x × (lookup x g ≡ none)
  Collected cancel (err (cycle c)) = ⊥

  Inv-start : Inv [] (reverse roots)
  Inv-start = record {
    sound = λ x h. cc (contains-nil x);
    pending = λ x h. Needs.asked (rw contains-reverse at h);
    present = λ x h. cc (contains-nil x);
    closed = λ x d h. cc (contains-nil x);
    rooted = λ x h. rw (contains-nil x, contains-reverse) h;
  }

  Inv-skip :
      (n : String) (needed rest : List String)
      → contains needed n ≡ true
      → Inv needed (n ∷ rest)
      → Inv needed rest
  Inv-skip n needed rest old inv = record {
    sound = inv.sound;
    pending = λ x h. inv.pending x (ground (arith, contains-cons n rest x));
    present = inv.present;
    closed = λ x d h k.
        ground (arith, inv.closed x d h k, contains-cons n rest d, string_eq.beq_iff d n);
    rooted = λ x h. ground (arith, inv.rooted x h, contains-cons n rest x, string_eq.beq_iff x n);
  }

  Inv-add :
      (n : String) (needed rest ds : List String)
      → lookup n g ≡ some ds
      → Inv needed (n ∷ rest)
      → Inv (n ∷ needed) (reverse ds ++ rest)
  Inv-add n needed rest ds e inv = record {
    sound = λ x h. elim (beq_cases x n) [
      | inl p ↦ rw p needs_n
      | inr p ↦ inv.sound x (ground (arith, contains-cons n needed x))
    ];
    pending = λ x h. elim (Bool-cases (contains ds x)) [
      | inl p ↦ Needs.through needs_n (rw (entry_of_lookup g n ds e) p)
      | inr p ↦ inv.pending x (
          ground (
            arith,
            contains-append (reverse ds) rest x,
            contains-reverse ds x,
            contains-cons n rest x,
          ))
    ];
    present = λ x h. elim (beq_cases x n) [
      | inl p ↦ (ds, rw p e)
      | inr p ↦ inv.present x (ground (arith, contains-cons n needed x))
    ];
    closed = λ x d h k. elim (beq_cases x n) [
      | inl p ↦
          let old : contains ds d ≡ true = rw (p, entry_of_lookup g n ds e) at k in
          ground (arith, contains-append (reverse ds) rest d, contains-reverse ds d)
      | inr p ↦ ground (
        arith,
        inv.closed x d (ground (arith, contains-cons n needed x)) k,
        contains-cons n needed d,
        contains-cons n rest d,
        contains-append (reverse ds) rest d,
      )
    ];
    rooted = λ x h. ground (
      arith,
      inv.rooted x h,
      contains-cons n needed x,
      contains-cons n rest x,
      contains-append (reverse ds) rest x,
    );
  }
    where
      needs_n : Needs g roots n
      needs_n = inv.pending n (contains-cons_self n rest)

  Inv-Closed : (needed : List String) → Inv needed [] → Closed needed
  Inv-Closed needed inv = record {
    sound = inv.sound;
    present = inv.present;
    closed = λ x d h k. ground (arith, inv.closed x d h k, contains-nil d);
    rooted = λ x h. ground (arith, inv.rooted x h, contains-nil x);
  }

  collect-Inv :
      (cancel : ℕ → Bool) (fuel polls : ℕ) (needed to_visit : List String)
      → length to_visit + left needed g ≤ fuel
      → Inv needed to_visit
      → Collected cancel (collect cancel g fuel polls needed to_visit)
  unfolding collect
  collect-Inv cancel fuel polls needed [] h inv = Inv-Closed needed inv
  collect-Inv cancel zero polls needed (n ∷ rest) h inv = omega arith
  collect-Inv cancel (suc fuel) polls needed (n ∷ rest) h inv = elim (Bool-cases (cancel polls)) [
    | inl c ↦ rw (c, collect) (polls, c)
    | inr c ↦ elim (Option-cases (lookup n g)) [
      | inl e ↦ rw (c, e, collect) (inv.pending n (contains-cons_self n rest), e)
      | inr (ds, e) ↦ elim (Bool-cases (contains needed n)) [
        | inl old ↦
            rw (c, e, old, collect)
              (collect-Inv cancel fuel (polls + 1) needed rest (omega arith)
                (Inv-skip n needed rest old inv))
        | inr new ↦
            rw (c, e, new, collect)
              (collect-Inv cancel fuel (polls + 1) (n ∷ needed) (reverse ds ++ rest)
                (omega (
                  arith,
                  left-cons-add n needed g ds e new,
                  length-append (reverse ds) rest,
                  length-reverse ds,
                ))
                (Inv-add n needed rest ds e inv))
      ]
    ]
  ]

  -- Given the fuel of `resolve_ordered_set` the loop ends, and with the set of needed nodes unless
  -- it was cancelled or met a node that is not there.
  pub collect-Collected :
      (cancel : ℕ → Bool)
      → Collected cancel (collect cancel g (length roots + weight g) 0 [] (reverse roots))
  collect-Collected cancel =
      collect-Inv cancel _ 0 [] (reverse roots) (omega (arith, length-reverse roots, left-nil g))
        Inv-start
