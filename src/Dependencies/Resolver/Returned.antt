-- ===== src/Dependencies/Resolver/Returned.antt =====
-- What the result of DependencyResolver.resolve holds, in macloader/dependencies/resolver.py.
use libre_core_mac_loader.Prelude.{
  ℕ, String, ◌≡◌, refl, subst, ◌↔◌, Bool, true, not, List, [], ◌∷◌, map, string_eq, contains,
}
use libre_core_mac_loader.Prelude.Text.{lower}
use libre_core_mac_loader.Compatibility.Registry.{Database, get_macos}
use libre_core_mac_loader.Compatibility.Components.{is_filled}
use libre_core_mac_loader.Compatibility.Engine.Draft.{BuildPlan}
use libre_core_mac_loader.Dependencies.Graph.{Result, ok, err, resolve_ordered_set}
use libre_core_mac_loader.Dependencies.Graph.Closure.{Needs}
use libre_core_mac_loader.Dependencies.Graph.Search.{IsTopological}
use libre_core_mac_loader.Dependencies.Graph.Order.{resolve-IsTopological}
use libre_core_mac_loader.Dependencies.Resolver.Catalog.{
  ArtifactVariant, Catalog, build_graph, ResolvedDependencySet,
}
use libre_core_mac_loader.Dependencies.Resolver.Resolve.{
  resolved, check_plan, check_profile, requests_of, ids_of, construct, from_graph, resolve,
}
use libre_core_mac_loader.Dependencies.Resolver.Admitted.{
  bind-resolved, IsAdmitted, check_profile-some, check_plan-passed, AreChosen, construct-AreChosen,
}

-- The set that `resolve` returns, with the order of its ids.
pub record IsReturned (db : Database) (catalog : Catalog) (plan : BuildPlan)
    (variant : ArtifactVariant) (set : ResolvedDependencySet) : Type 0 where
  pub admitted : IsAdmitted db catalog plan
  pub order : List String
  pub topological : IsTopological (build_graph catalog) order
  pub complete_order :
      (x : String)
      → (contains order x ≡ true)
        ↔ Needs (build_graph catalog) (map lower (ids_of (requests_of plan).specs)) x
  pub chosen : AreChosen catalog variant (requests_of plan).specs order set.resolved_dependencies
  pub same_unresolved : set.unresolved_requirements ≡ (requests_of plan).unresolved
  pub same_warnings : set.warnings ≡ (requests_of plan).warnings
  pub completeness : (set.is_complete ≡ true) ↔ (set.unresolved_requirements ≡ [])

from_graph-ok :
    (r : Result (List String)) (order : List String) → from_graph r ≡ resolved order → r ≡ ok order
from_graph-ok (ok a) order h = cc
from_graph-ok (err e) order h = cc

pub is_filled-nil : (l : List String) → (not (is_filled l) ≡ true) ↔ (l ≡ [])
is_filled-nil [] = (λ _. refl, λ _. refl)
is_filled-nil (a ∷ l) = (λ h. cc, λ h. cc)

the_set : (a b : ResolvedDependencySet) → resolved a ≡ resolved b → a ≡ b
the_set a b e = cc

module _ (catalog_digest : Catalog → String) (plan_digest : BuildPlan → String) (db : Database)
    (catalog : Catalog) (plan : BuildPlan) (variant : ArtifactVariant)
    (graph_cancel cancel : ℕ → Bool) where
  -- A resolution that succeeds has admitted the plan: its state is usable, its model known, its policy
  -- version that of the catalogue, an accepted configuration completely bound, the macOS version
  -- listed and usable. Its entries are the requested dependencies and all that they need, each once
  -- and behind its own dependencies, in the requested variant and marked as transitive just when
  -- they were not requested. It is complete just when no requirement is unresolved.
  pub resolve-IsReturned :
      (set : ResolvedDependencySet)
      → resolve catalog_digest plan_digest db catalog plan variant graph_cancel cancel
        ≡ resolved set
      → IsReturned db catalog plan variant set
  unfolding resolve
  resolve-IsReturned set h =
      let specs = (requests_of plan).specs in
      let (u, passed, h) = bind-resolved (check_plan db catalog plan) _ set h in
      let (v, open_profile, h) =
        bind-resolved (check_profile (get_macos db (lower plan.target_macos))) _ set h in
      let (order, found, h) =
        bind-resolved
          (from_graph (resolve_ordered_set (build_graph catalog) (ids_of specs) graph_cancel)) _ set
          h in
      let (rs, made, h) = bind-resolved (construct cancel catalog variant specs 0 order) _ set h in
      let (usable, known_model, has_policy, same_policy, bound) =
        check_plan-passed db catalog plan u passed in
      let (profile, listed, allowed) =
        check_profile-some (get_macos db (lower plan.target_macos)) v open_profile in
      let (topological, complete_order) =
        resolve-IsTopological (build_graph catalog) (ids_of specs) graph_cancel order (
          from_graph-ok (resolve_ordered_set (build_graph catalog) (ids_of specs) graph_cancel)
            order found) in
      let chosen = construct-AreChosen cancel catalog variant specs 0 order rs made in
      subst (IsReturned db catalog plan variant) (the_set _ set h) (record {
        admitted = record {
          usable = usable;
          known_model = known_model;
          has_policy = has_policy;
          same_policy = same_policy;
          bound = bound;
          profile = profile;
          listed = listed;
          open_profile = allowed;
        };
        order = order;
        topological = topological;
        complete_order = complete_order;
        chosen = chosen;
        same_unresolved = refl;
        same_warnings = refl;
        completeness = is_filled-nil (requests_of plan).unresolved;
      })
