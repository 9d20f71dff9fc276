-- ===== src/Dependencies/Resolver/Composed.antt =====
-- The resolver of macloader/dependencies/resolver.py on the plans of macloader/compatibility/engine.py.
use libre_core_mac_loader.Prelude.{
  ℕ, String, ◌≡◌, refl, ap, ◌∙◌, ◌↔◌, inl, inr, Bool, true, not, ◌&&◌, ◌||◌, ◌==◌, string_eq,
  contains, arith, Bool-cases, contains-cons, contains-cons_self, All, List, [], ◌∷◌,
}
use libre_core_mac_loader.Prelude.Text.{lower}
use libre_core_mac_loader.Compatibility.State.{is_usable}
use libre_core_mac_loader.Compatibility.Registry.{Database}
use libre_core_mac_loader.Compatibility.Components.{is_filled}
use libre_core_mac_loader.Compatibility.Engine.Evaluate.{Report}
use libre_core_mac_loader.Compatibility.Engine.Draft.{
  BuildPlan, has_igpu, draft_of, post_init, generate_build_plan,
}
use libre_core_mac_loader.Compatibility.Engine.Distinct.{deduplicate_preserve_order-is_filled}
use libre_core_mac_loader.Compatibility.Engine.Capabilities.{any_asked}
use libre_core_mac_loader.Compatibility.Engine.Requested.{
  draft_of-asked, any_defers, draft_of-unresolved,
}
use libre_core_mac_loader.Dependencies.Resolver.Catalog.{
  ArtifactVariant, Catalog, ResolvedDependencySet,
}
use libre_core_mac_loader.Dependencies.Resolver.Requests.{known_capabilities}
use libre_core_mac_loader.Dependencies.Resolver.Resolve.{resolved, resolve}
use libre_core_mac_loader.Dependencies.Resolver.Needed.{any_open, requests_of-needs}
use libre_core_mac_loader.Dependencies.Resolver.Expected.{
  any_asked-known, any_asked-defers, any_open-audio,
}
use libre_core_mac_loader.Dependencies.Resolver.Returned.{is_filled-nil, resolve-IsReturned}

All-contains :
    (P : String → Type 0) (l : List String) → ((c : String) → contains l c ≡ true → P c) → All P l
All-contains P [] h = tt
All-contains P (a ∷ l) h = (
  h a (contains-cons_self a l),
  All-contains P l (λ c k. h c (ground (arith, k, contains-cons a l c))),
)

-- The plan of a report, and the facts of it that the resolver meets.
module _ (policy_version : String) (report : Report) where
  abbrev plan_of : BuildPlan
  plan_of = generate_build_plan policy_version report

  capabilities_of :
      (c : String)
      → contains plan_of.required_capabilities c ≡ (
          (has_igpu report.component_results && c == "accelerated_intel_uhd_620")
          || any_asked report.component_results c)
  unfolding generate_build_plan post_init
  capabilities_of c = (draft_of-asked report).1 c

  plan_of-known :
      (c : String)
      → contains plan_of.required_capabilities c ≡ true
      → contains known_capabilities c ≡ true
  unfolding generate_build_plan post_init
  plan_of-known c h = elim (Bool-cases (any_asked report.component_results c)) [
    | inl e ↦ any_asked-known report.component_results c e
    | inr e ↦
        let accelerated : (c == "accelerated_intel_uhd_620") ≡ true =
          ground (arith, h, e, (draft_of-asked report).1 c) in
        rw (accelerated) refl
  ]

  plan_of-unresolved : is_filled plan_of.unresolved_requirements ≡ (
      is_filled report.unresolved_requirements
      || has_igpu report.component_results
      || any_defers report.target_macos report.component_results)
  unfolding generate_build_plan post_init
  plan_of-unresolved =
      deduplicate_preserve_order-is_filled (draft_of report).unresolved ∙ draft_of-unresolved report

  derived_ready :
      plan_of.build_ready
      ≡ (is_usable plan_of.support_state && not (is_filled plan_of.unresolved_requirements))
  unfolding generate_build_plan post_init
  derived_ready = refl

  plan_of-open :
      (target : String)
      → any_open target plan_of.required_capabilities ≡ true
      → is_filled plan_of.unresolved_requirements ≡ true
  plan_of-open target h =
      let asks : contains plan_of.required_capabilities "alc257_audio" ≡ true =
        any_open-audio target plan_of.required_capabilities plan_of-known h in
      let defers : any_defers report.target_macos report.component_results ≡ true =
        any_asked-defers report.target_macos report.component_results (asks_audio asks) in
      ground (arith, plan_of-unresolved, defers)
    where
      asks_audio :
          contains plan_of.required_capabilities "alc257_audio" ≡ true
          → any_asked report.component_results "alc257_audio" ≡ true
      asks_audio asks = ground (arith, asks, capabilities_of "alc257_audio")

-- For a plan that the engine makes from a report the two readings of "nothing is left open" agree: a
-- resolution that succeeds is complete just when the plan was ready to build. And every capability
-- that such a plan requires is known to the resolver.
pub resolve-build_ready :
    (catalog_digest : Catalog → String) (plan_digest : BuildPlan → String) (db : Database)
    (catalog : Catalog) (policy_version : String) (report : Report) (variant : ArtifactVariant)
    (graph_cancel cancel : ℕ → Bool) (set : ResolvedDependencySet)
    → resolve catalog_digest plan_digest db catalog
        (generate_build_plan policy_version report)
        variant
        graph_cancel
        cancel
      ≡ resolved set
    → ((set.is_complete ≡ true) ↔ ((generate_build_plan policy_version report).build_ready ≡ true))
      × All
          (λ c. contains known_capabilities c ≡ true)
          (generate_build_plan policy_version report).required_capabilities
resolve-build_ready catalog_digest plan_digest db catalog policy_version report variant graph_cancel
      cancel set g =
    let plan = generate_build_plan policy_version report in
    let returned =
      resolve-IsReturned catalog_digest plan_digest db catalog plan variant graph_cancel cancel set
        g in
    let usable = returned.admitted.usable in
    let left = (requests_of-needs plan).1 in
    let closed = plan_of-open policy_version report (lower plan.target_macos) in
    let empty = is_filled-nil set.unresolved_requirements in
    let same = ap is_filled returned.same_unresolved in
    let ready = derived_ready policy_version report in
    (
      (
        λ e. ground (arith, usable, left, closed, empty, same, ready, returned.completeness),
        λ e. ground (arith, usable, left, closed, empty, same, ready, returned.completeness),
      ),
      All-contains _ plan.required_capabilities (plan_of-known policy_version report),
    )
