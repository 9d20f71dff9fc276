-- ===== src/Dependencies/Resolver/Admitted.antt =====
-- What has been checked, and what has been chosen, when DependencyResolver.resolve of
-- macloader/dependencies/resolver.py returns.
use libre_core_mac_loader.Prelude.{
  ℕ, ◌+◌, String, ◌≡◌, refl, subst, inl, inr, Bool, true, false, not, Option, none, some, List, [],
  ◌∷◌, string_eq, contains, arith, Bool-cases, Option-cases,
}
use libre_core_mac_loader.Prelude.Text.{lower}
use libre_core_mac_loader.Compatibility.State.{is_usable}
use libre_core_mac_loader.Compatibility.Registry.{Database, MacosProfile, find, get_macos}
use libre_core_mac_loader.Compatibility.Components.{is_text}
use libre_core_mac_loader.Compatibility.Engine.Draft.{BuildPlan}
use libre_core_mac_loader.Dependencies.Resolver.Catalog.{
  ArtifactVariant, DependencyArtifact, DependencySpec, get_artifact, Catalog, ResolvedDependency,
}
use libre_core_mac_loader.Dependencies.Resolver.Requests.{Specs}
use libre_core_mac_loader.Dependencies.Resolver.Resolve.{
  Resolved, resolved, refused, ◌>>=◌, is_model, is_bound, check_plan, check_profile, ids_of,
  resolved_dependency, construct,
}

pub bind-resolved {ℓ κ} :
    {A : Type ℓ} {B : Type κ} (m : Resolved A) (f : A → Resolved B) (b : B)
    → (m >>= f) ≡ resolved b
    → (a : A) × (m ≡ resolved a) × (f a ≡ resolved b)
bind-resolved (resolved a) f b h = (a, refl, h)
bind-resolved (refused e) f b h = cc

-- A plan that has passed the tests.
pub record IsAdmitted (db : Database) (catalog : Catalog) (plan : BuildPlan) : Type 0 where
  pub usable : is_usable plan.support_state ≡ true
  pub known_model : is_model plan.target_model db.models ≡ true
  pub has_policy : is_text plan.policy_version ≡ true
  pub same_policy : plan.policy_version ≡ catalog.policy_version
  pub bound : is_text plan.accepted_configuration_digest ≡ true → is_bound plan ≡ true
  pub profile : MacosProfile
  pub listed : get_macos db (lower plan.target_macos) ≡ some profile
  pub open_profile : is_usable profile.status ≡ true

pub check_profile-some :
    (found : Option MacosProfile) (u : Unit {0})
    → check_profile found ≡ resolved u
    → (profile : MacosProfile) × (found ≡ some profile) × (is_usable profile.status ≡ true)
unfolding is_usable
check_profile-some none u h = cc
check_profile-some (some profile) u h = (profile, refl, ground arith)

pub check_plan-passed :
    (db : Database) (catalog : Catalog) (plan : BuildPlan) (u : Unit {0})
    → check_plan db catalog plan ≡ resolved u
    → (is_usable plan.support_state ≡ true)
      × (is_model plan.target_model db.models ≡ true)
      × (is_text plan.policy_version ≡ true)
      × (plan.policy_version ≡ catalog.policy_version)
      × (is_text plan.accepted_configuration_digest ≡ true → is_bound plan ≡ true)
unfolding check_plan
check_plan-passed db catalog plan u h = (
  ground arith,
  ground arith,
  ground arith,
  ground (arith, string_eq.beq_iff plan.policy_version catalog.policy_version),
  λ g. ground arith,
)

-- The entries of the result, one for each id: the requested variant of the catalogue's entry, marked
-- as transitive just when the id was not requested.
abbrev pub IsChosen : Catalog → ArtifactVariant → Specs → String → ResolvedDependency → Type 0
IsChosen catalog variant specs id r =
    (spec : DependencySpec) × (find id catalog.dependencies ≡ some spec)
    × (r.dependency_id ≡ spec.id)
    × (r.version ≡ spec.version)
    × (get_artifact variant spec ≡ some r.artifact)
    × (r.is_transitive ≡ not (contains (ids_of specs) id))

abbrev pub AreChosen :
    Catalog → ArtifactVariant → Specs → List String → List ResolvedDependency → Type 0
AreChosen catalog variant specs [] [] = Unit
AreChosen catalog variant specs [] (r ∷ rs) = ⊥
AreChosen catalog variant specs (id ∷ ids) [] = ⊥
AreChosen catalog variant specs (id ∷ ids) (r ∷ rs) =
    IsChosen catalog variant specs id r × AreChosen catalog variant specs ids rs

resolved_dependency-is_transitive :
    (id : String) (specs : Specs) (spec : DependencySpec) (artifact : DependencyArtifact)
    → (resolved_dependency (find id specs) spec artifact).is_transitive
      ≡ not (contains (ids_of specs) id)
unfolding resolved_dependency find contains
resolved_dependency-is_transitive id [] spec artifact = refl
resolved_dependency-is_transitive id ((k, v) ∷ specs) spec artifact =
    ground (arith, resolved_dependency-is_transitive id specs spec artifact)

AreChosen-cons :
    (catalog : Catalog) (variant : ArtifactVariant) (specs : Specs) (id : String)
    (ids : List String) (r : ResolvedDependency) (rest rs : List ResolvedDependency)
    → (resolved (r ∷ rest)) ≡ resolved rs
    → IsChosen catalog variant specs id r
    → AreChosen catalog variant specs ids rest
    → AreChosen catalog variant specs (id ∷ ids) rs
AreChosen-cons catalog variant specs id ids r rest rs h chosen others =
    subst (AreChosen catalog variant specs (id ∷ ids)) (the_list _ _ h) (chosen, others)
  where
    the_list : (a b : List ResolvedDependency) → resolved a ≡ resolved b → a ≡ b
    the_list a b e = cc

module _ (cancel : ℕ → Bool) (catalog : Catalog) (variant : ArtifactVariant) (specs : Specs) where
  pub construct-AreChosen :
      (polls : ℕ) (ids : List String) (rs : List ResolvedDependency)
      → construct cancel catalog variant specs polls ids ≡ resolved rs
      → AreChosen catalog variant specs ids rs
  unfolding construct resolved_dependency
  construct-AreChosen polls [] [] h = tt
  construct-AreChosen polls [] (r ∷ rs) h = cc
  construct-AreChosen polls (id ∷ ids) rs h = elim (Bool-cases (cancel polls)) [
    | inl e ↦ absurd (ground arith)
    | inr e ↦ elim (Option-cases (find id catalog.dependencies)) [
      | inl f ↦ absurd (ground arith)
      | inr (spec, f) ↦ elim (Option-cases (get_artifact variant spec)) [
        | inl g ↦ absurd (ground arith)
        | inr (artifact, g) ↦
            let (rest, made, same) =
              bind-resolved (construct cancel catalog variant specs (polls + 1) ids) _ rs
                (opened e spec f artifact g) in
            AreChosen-cons catalog variant specs id ids
              (resolved_dependency (find id specs) spec artifact) rest rs same
              (spec, f, refl, refl, g, resolved_dependency-is_transitive id specs spec artifact)
              (construct-AreChosen (polls + 1) ids rest made)
      ]
    ]
  ]
    where
      opened :
          cancel polls ≡ false
          → (spec : DependencySpec) → find id catalog.dependencies ≡ some spec
          → (artifact : DependencyArtifact) → get_artifact variant spec ≡ some artifact
          → (construct cancel catalog variant specs (polls + 1) ids >>= λ rest.
              resolved (resolved_dependency (find id specs) spec artifact ∷ rest))
            ≡ resolved rs
      opened e spec f artifact g = rw (construct, e, f, g) at h
