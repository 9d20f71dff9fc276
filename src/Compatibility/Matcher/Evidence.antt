-- ===== src/Compatibility/Matcher/Evidence.antt =====
-- The evidence behind a match of macloader/compatibility/model_matcher.py.
use libre_core_mac_loader.Prelude.{
  String, ◌≡◌, ◌≢◌, refl, sym, ap, subst, ◌⊎◌, inl, inr, true, false, Option, none, some, List, [],
  ◌∷◌, ◌==◌, nat_eq, list_eq, string_eq, contains, arith, Bool-cases,
}
use libre_core_mac_loader.Compatibility.Matcher.{
  Text, Model, Snapshot, matched, refused, Label, strip, upper, get_model_by_machine_type,
  names_match, product_matches, has_id, with_machine, by_product, choose, vendors, clean,
  match_model,
}

-- The model is one of the list.
abbrev pub Among : Model → List Model → Type 0
Among m [] = ⊥
Among m (n ∷ models) = (m ≡ n) ⊎ Among m models

get_model-Among :
    (mt : Text) (models : List Model) (m : Model)
    → get_model_by_machine_type mt models ≡ some m
    → Among m models × (contains m.machine_types mt ≡ true)
unfolding get_model_by_machine_type
get_model-Among mt [] m h = cc
get_model-Among mt (n ∷ models) m h = elim (Bool-cases (contains n.machine_types mt)) [
  | inl hit ↦ let same : m ≡ n = ground arith in (inl same, rw same hit)
  | inr miss ↦ let (among, has) = get_model-Among mt models m (ground arith) in (inr among, has)
]

product_matches-Among :
    (a b : Text) (models : List Model) (m : Model)
    → Among m (product_matches a b models)
    → Among m models × (names_match m.product_names a b ≡ true)
unfolding product_matches
product_matches-Among a b [] m h = absurd h
product_matches-Among a b (n ∷ models) m h = elim (Bool-cases (names_match n.product_names a b)) [
  | inl hit ↦ elim (subst (Among m) (kept hit) h) [
    | inl same ↦ (inl same, rw same hit)
    | inr other ↦ let (among, has) = product_matches-Among a b models m other in (inr among, has)
  ]
  | inr miss ↦
      let (among, has) = product_matches-Among a b models m (subst (Among m) (dropped miss) h) in
      (inr among, has)
]
  where
    kept :
        names_match n.product_names a b ≡ true
        → product_matches a b (n ∷ models) ≡ n ∷ product_matches a b models
    kept hit = rw (hit, product_matches) refl

    dropped :
        names_match n.product_names a b ≡ false
        → product_matches a b (n ∷ models) ≡ product_matches a b models
    dropped miss = rw (miss, product_matches) refl

has_id-Among :
    (id : String) (models : List Model)
    → has_id id models ≡ true
    → (n : Model) × Among n models × (n.id ≡ id)
unfolding has_id
has_id-Among id [] h = cc
has_id-Among id (m ∷ models) h = elim (Bool-cases (id == m.id)) [
  | inl hit ↦ (m, inl refl, sym ((string_eq.beq_iff id m.id).0 hit))
  | inr miss ↦
      let (n, among, named) = has_id-Among id models (ground arith) in (n, inr among, named)
]

with_machine-facts :
    (n : Model) (a b : Text) (found : List Model) (m : Model) (label : Label)
    → with_machine n a b found ≡ matched m label
    → (n ≡ m) × ((a ≢ []) ⊎ (b ≢ []) → has_id n.id found ≡ true)
unfolding with_machine has_id
with_machine-facts n [] [] [] m label h =
    (cc, λ e. elim e [ inl x ↦ absurd (x refl) | inr x ↦ absurd (x refl) ])
with_machine-facts n (c ∷ a) b [] m label h = cc
with_machine-facts n [] (d ∷ b) [] m label h = cc
with_machine-facts n a b (k ∷ found) m label h = elim (Bool-cases (has_id n.id (k ∷ found))) [
  | inl hit ↦ (ground arith, λ e. hit)
  | inr miss ↦ absurd (ground arith)
]

-- The two ways to a match.
choose-facts :
    (mt : Text) (registered : Option Model) (a b : Text) (found : List Model) (m : Model)
    (label : Label)
    → choose mt registered a b found ≡ matched m label
    → ((mt ≡ []) × (found ≡ m ∷ []))
      ⊎ ((mt ≢ []) × (registered ≡ some m) × ((a ≢ []) ⊎ (b ≢ []) → has_id m.id found ≡ true))
unfolding choose by_product
choose-facts [] registered a b [] m label h = cc
choose-facts [] registered a b (n ∷ []) m label h = inl (refl, cc)
choose-facts [] registered a b (n ∷ k ∷ found) m label h = cc
choose-facts (c ∷ mt) none a b found m label h = cc
choose-facts (c ∷ mt) (some n) a b found m label h =
    let (same, named) = with_machine-facts n a b found m label h in
    inr (
      λ e. cc,
      ap some same,
      subst (λ (x : Model). (a ≢ []) ⊎ (b ≢ []) → has_id x.id found ≡ true) same named,
    )

-- The evidence for a model: without a machine type it is the only registered model that a product
-- string names; with one, it is registered for the machine type, and if there are product strings
-- then one of them names a model of the same id.
pub data Evidence (s : Snapshot) (models : List Model) (m : Model) : Type 0 where
  only_product :
      upper (clean s.machine_type) ≡ []
      → names_match m.product_names (clean s.product_name) (clean s.product_version) ≡ true
      → product_matches (clean s.product_name) (clean s.product_version) models ≡ m ∷ []
      → Evidence s models m
  machine :
      upper (clean s.machine_type) ≢ []
      → contains m.machine_types (upper (strip (upper (clean s.machine_type)))) ≡ true
      → ((clean s.product_name ≢ []) ⊎ (clean s.product_version ≢ [])
          → (n : Model) × Among n models
            × (n.id ≡ m.id)
            × (names_match n.product_names (clean s.product_name) (clean s.product_version) ≡ true))
      → Evidence s models m

evidence :
    (s : Snapshot) (models : List Model) (m : Model) (label : Label)
    → choose
        (upper (clean s.machine_type))
        (get_model_by_machine_type (upper (strip (upper (clean s.machine_type)))) models)
        (clean s.product_name)
        (clean s.product_version)
        (product_matches (clean s.product_name) (clean s.product_version) models)
      ≡ matched m label
    → Among m models × Evidence s models m
evidence s models m label h = elim (choose-facts _ _ _ _ _ m label h) [
  | inl (blank, only) ↦
      let (among, named) =
        product_matches-Among (clean s.product_name) (clean s.product_version) models m
          (subst (Among m) (sym only) (inl refl)) in
      (among, only_product blank named only)
  | inr (given, registered, product) ↦
      let (among, has) = get_model-Among _ models m registered in
      (
        among,
        machine given has (λ strings.
            let (n, found, same) = has_id-Among m.id _ (product strings) in
            let (listed, named) =
              product_matches-Among (clean s.product_name) (clean s.product_version) models n
                found in
            (n, listed, same, named)),
      )
]

-- A model is chosen only for a computer of Lenovo, and only if it is in the registry; without a
-- machine type it is the only model that the product name or the product version names; with one, it
-- is registered for it, and if a product name or version is given then at least one of the two names
-- a registered model of the same id.
pub match_model-Evidence :
    (s : Snapshot) (models : List Model) (m : Model) (label : Label)
    → match_model s models ≡ matched m label
    → (contains vendors (upper (clean s.manufacturer)) ≡ true)
      × Among m models
      × Evidence s models m
unfolding match_model
match_model-Evidence s models m label h =
    elim (Bool-cases (contains vendors (upper (clean s.manufacturer)))) [
      | inl hit ↦ let (among, e) = evidence s models m label (chosen hit) in (hit, among, e)
      | inr miss ↦ absurd (stopped miss)
    ]
  where
    chosen :
        contains vendors (upper (clean s.manufacturer)) ≡ true
        → choose
            (upper (clean s.machine_type))
            (get_model_by_machine_type (upper (strip (upper (clean s.machine_type)))) models)
            (clean s.product_name)
            (clean s.product_version)
            (product_matches (clean s.product_name) (clean s.product_version) models)
          ≡ matched m label
    chosen hit = rw (hit, match_model) at h

    stopped : contains vendors (upper (clean s.manufacturer)) ≡ false → ⊥
    stopped miss = let e : refused _ ≡ matched m label = rw (miss, match_model) at h in cc
