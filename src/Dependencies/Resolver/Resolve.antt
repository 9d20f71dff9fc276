-- ===== src/Dependencies/Resolver/Resolve.antt =====
-- DependencyResolver.resolve of macloader/dependencies/resolver.py.
use libre_core_mac_loader.Prelude.{
  ℕ, ◌+◌, String, Bool, true, false, not, ◌&&◌, ◌||◌, Option, none, some, List, [], ◌∷◌, ◌==◌,
  string_eq, nat_eq, length, leb, if◌then◌else◌,
}
use libre_core_mac_loader.Prelude.Text.{lower, codes}
use libre_core_mac_loader.Compatibility.State.{is_usable, is_blocked, is_unknown}
use libre_core_mac_loader.Compatibility.Matcher.{Model}
use libre_core_mac_loader.Compatibility.Registry.{Database, MacosProfile, find, get_macos}
use libre_core_mac_loader.Compatibility.Components.{is_text, is_filled}
use libre_core_mac_loader.Compatibility.Engine.Draft.{BuildPlan}
use libre_core_mac_loader.Dependencies.Graph.{GraphError, Result, ok, err, resolve_ordered_set}
use libre_core_mac_loader.Dependencies.Resolver.Catalog.{
  ArtifactVariant, DependencyArtifact, DependencySpec, get_artifact, Catalog, build_graph,
  ResolvedDependency, ResolvedDependencySet,
}
use libre_core_mac_loader.Dependencies.Resolver.Requests.{
  Specs, Requests, request_all, base_requests,
}

-- What `resolve` raises; `no_entry` is the KeyError of `self.catalog.dependencies[dep_id]`.
pub data ResolveError : Type 0 where
  not_actionable unknown_model stale_policy incomplete_binding unsupported_macos blocked_macos
        cancelled :
      ResolveError
  no_entry no_artifact : String → ResolveError
  in_graph : GraphError → ResolveError

pub data Resolved {ℓ} (A : Type ℓ) : Type ℓ where
  resolved : A → Resolved A
  refused : ResolveError → Resolved A

infixl 5 ◌>>=◌
abbrev pub ◌>>=◌ {ℓ κ} : {A : Type ℓ} {B : Type κ} → Resolved A → (A → Resolved B) → Resolved B
resolved a >>= f = f a
refused e >>= f = refused e

infixl 5 ◌>>◌
abbrev pub ◌>>◌ {ℓ} : {B : Type ℓ} → Resolved (Unit {0}) → Resolved B → Resolved B
m >> k = m >>= λ _. k

abbrev pub refuse_if : Bool → ResolveError → Resolved (Unit {0})
refuse_if true e = refused e
refuse_if false e = resolved tt

-- `get_model`, with the scan by display name
unfoldable pub get_model : String → List Model → Option Model
get_model model_id [] = none
get_model model_id (m ∷ models) = if model_id == m.id then some m else get_model model_id models

unfoldable pub model_by_name : String → List Model → Option Model
model_by_name name [] = none
model_by_name name (m ∷ models) =
    if lower m.display_name == name then some m else model_by_name name models

abbrev pub is_present {ℓ} : {A : Type ℓ} → Option A → Bool
is_present none = false
is_present (some a) = true

unfoldable pub is_model : String → List Model → Bool
unfolding get_model model_by_name lower
is_model target_model models =
    is_present (get_model (lower target_model) models)
    || is_present (model_by_name (lower target_model) models)

-- `re.fullmatch(r"[0-9a-f]{64}", value)`
abbrev is_hex : List ℕ → Bool
is_hex [] = true
is_hex (c ∷ rest) = ((leb b'0' c && leb c b'9') || (leb b'a' c && leb c b'f')) && is_hex rest

unfoldable pub is_digest : String → Bool
is_digest value = length (codes value) == 64 && is_hex (codes value)

-- The binding of an accepted configuration, if there is one.
unfoldable pub is_bound : BuildPlan → Bool
unfolding is_digest
is_bound plan =
    is_digest plan.accepted_configuration_digest
    && is_text plan.target_version
    && is_text plan.target_build
    && is_digest plan.target_release_digest
    && is_text plan.stable_model_id
    && is_digest plan.hardware_content_digest

-- The tests of the plan, in the order of the code.
unfoldable pub check_plan : Database → Catalog → BuildPlan → Resolved (Unit {0})
unfolding is_usable is_model is_bound
check_plan db catalog plan = do
  refuse_if
      (not (is_usable plan.support_state)
        || is_blocked plan.support_state
        || is_unknown plan.support_state)
      not_actionable
  refuse_if (not (is_model plan.target_model db.models)) unknown_model
  refuse_if
      (not (is_text plan.policy_version) || not (plan.policy_version == catalog.policy_version))
      stale_policy
  refuse_if (is_text plan.accepted_configuration_digest && not (is_bound plan)) incomplete_binding

abbrev pub check_profile : Option MacosProfile → Resolved (Unit {0})
check_profile none = refused unsupported_macos
check_profile (some profile) =
    refuse_if (is_blocked profile.status || is_unknown profile.status) blocked_macos

-- The requests of a plan.
unfoldable pub requests_of : BuildPlan → Requests
unfolding request_all base_requests lower
requests_of plan =
    request_all (lower plan.target_macos) plan.required_capabilities
      (base_requests plan.unresolved_requirements plan.warnings)

abbrev pub ids_of : Specs → List String
ids_of [] = []
ids_of ((id, (reason, by)) ∷ specs) = id ∷ ids_of specs

abbrev explain : Option (String × String) → String × String × Bool
explain (some (reason, by)) = (reason, by, false)
explain none = (
  "Prerequisite dependency required by downstream plugins/drivers.", "transitive.dependency", true,
)

unfoldable pub resolved_dependency :
    Option (String × String) → DependencySpec → DependencyArtifact → ResolvedDependency
resolved_dependency found spec artifact =
    let (reason, by, transitive) = explain found in
    record {
      dependency_id = spec.id;
      project_name = spec.project_name;
      version = spec.version;
      variant = artifact.variant;
      artifact = artifact;
      reason = reason;
      required_by = by;
      is_transitive = transitive;
      subcomponents = spec.subcomponents;
    }

-- The loop over the ordered ids. A callback is a function of the number of times it was called
-- before, in this loop.
unfoldable pub construct :
    (ℕ → Bool)
    → Catalog
    → ArtifactVariant
    → Specs
    → ℕ
    → List String
    → Resolved (List ResolvedDependency)
unfolding get_artifact find resolved_dependency
construct cancel catalog variant specs polls [] = resolved []
construct cancel catalog variant specs polls (dep_id ∷ ids) = elim (cancel polls) [
  | true ↦ refused cancelled
  | false ↦ elim (find dep_id catalog.dependencies) [
    | none ↦ refused (no_entry dep_id)
    | some spec ↦ elim (get_artifact variant spec) [
      | none ↦ refused (no_artifact dep_id)
      | some artifact ↦ construct cancel catalog variant specs (polls + 1) ids >>= λ rest.
          resolved (resolved_dependency (find dep_id specs) spec artifact ∷ rest)
    ]
  ]
]

abbrev pub from_graph {ℓ} : {A : Type ℓ} → Result A → Resolved A
from_graph (ok a) = resolved a
from_graph (err e) = refused (in_graph e)

-- The digests of the catalogue and of the plan are those of `canonical_json_digest`. The first
-- callback stands for the calls of `cancel` in the graph, the second for those in the loop.
module _ (catalog_digest : Catalog → String) (plan_digest : BuildPlan → String) where
  unfoldable pub resolve :
      Database
      → Catalog
      → BuildPlan
      → ArtifactVariant
      → (ℕ → Bool)
      → (ℕ → Bool)
      → Resolved ResolvedDependencySet
  unfolding check_plan get_macos lower requests_of build_graph construct
  resolve db catalog plan variant graph_cancel cancel = do
    check_plan db catalog plan
    check_profile (get_macos db (lower plan.target_macos))
    let requests = requests_of plan
    ordered_ids ←
        from_graph (resolve_ordered_set (build_graph catalog) (ids_of requests.specs) graph_cancel)
    resolved_list ← construct cancel catalog variant requests.specs 0 ordered_ids
    resolved (record {
      target_model = plan.target_model;
      target_macos = plan.target_macos;
      policy_version = catalog.policy_version;
      variant = variant;
      catalog_digest = catalog_digest catalog;
      resolved_dependencies = resolved_list;
      unresolved_requirements = requests.unresolved;
      warnings = requests.warnings;
      is_complete = not (is_filled requests.unresolved);
      plan_digest = plan_digest plan;
    })
