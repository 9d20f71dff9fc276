-- ===== src/Dependencies/Resolver/Samples.antt =====
-- The dependencies of a laptop.
use libre_core_mac_loader.Prelude.{
  ℕ, String, ◌≡◌, refl, ◌↔◌, Bool, true, false, some, List, [], ◌∷◌, string_eq, contains, ◌||◌,
}
use libre_core_mac_loader.Prelude.Text.{lower, strip}
use libre_core_mac_loader.Compatibility.State.{conditional, is_usable}
use libre_core_mac_loader.Compatibility.Registry.{find, get_macos}
use libre_core_mac_loader.Compatibility.Components.{is_filled}
use libre_core_mac_loader.Compatibility.Engine.Findings.{deduplicate, deduplicate_preserve_order}
use libre_core_mac_loader.Compatibility.Engine.Evaluate.{Report}
use libre_core_mac_loader.Compatibility.Engine.Draft.{
  BuildPlan, add_capability, plan, has_igpu, plan_ethernet, plan_result, plan_results, first_draft,
  draft_of, post_init, generate_build_plan,
}
use libre_core_mac_loader.Compatibility.State.{experimental, SupportDecision}
use libre_core_mac_loader.Compatibility.Engine.Samples.{db}
use libre_core_mac_loader.Dependencies.Resolver.Catalog.{
  release, variant_value, DependencyArtifact, DependencySpec, get_artifact, Catalog, add_specs,
  build_graph, ResolvedDependency, ResolvedDependencySet,
}
use libre_core_mac_loader.Dependencies.Resolver.Requests.{
  set_spec, request, request_known, request_capability, request_all, base_requests,
}
use libre_core_mac_loader.Dependencies.Resolver.Resolve.{
  resolved, get_model, model_by_name, is_model, is_bound, is_digest, check_plan, requests_of,
  ids_of, resolved_dependency, construct, resolve,
}
use libre_core_mac_loader.Dependencies.Resolver.Needed.{any_needs, any_open, requests_of-needs}
use libre_core_mac_loader.Dependencies.Resolver.Returned.{IsReturned, resolve-IsReturned}
use libre_core_mac_loader.Dependencies.Resolver.Composed.{resolve-build_ready}
use libre_core_mac_loader.Prelude.{All}
use libre_core_mac_loader.Dependencies.Resolver.Requests.{known_capabilities}
use libre_core_mac_loader.Dependencies.Graph.{add_node, resolve_ordered_set}

abbrev entry : String → List String → String × DependencySpec
entry id dependencies = (
  id,
  record {
    id = id;
    project_name = id;
    upstream_repository = "";
    license = "";
    version = "1.0";
    release_tag = "1.0";
    dependencies = dependencies;
    artifacts =
        (
          "RELEASE",
          record {
            asset_name = id;
            source_url = "";
            sha256 = "";
            size_bytes = 1;
            variant = release;
            archive_type = "zip";
          },
        )
        ∷ [];
    subcomponents = [];
    date_verified = "";
    license_file = "";
    license_sha256 = "";
  },
)

abbrev catalog : Catalog
catalog = record {
  policy_version = "1";
  dependencies =
      entry "opencore" []
      ∷ entry "virtualsmc" ("lilu" ∷ [])
      ∷ entry "lilu" []
      ∷ entry "intelmausi" []
      ∷ [];
}

abbrev decision : SupportDecision
decision = record {
  target = "component:intel-i219";
  state = experimental;
  reason = "";
  evidence = "";
  required_actions = [];
  known_limitations = [];
}

-- A report with an Ethernet adapter.
abbrev report : Report
report = record {
  snapshot_id = "sample";
  target_macos = "sequoia";
  model_id = some "t480s";
  model_name = "ThinkPad T480s";
  overall = conditional;
  model_decision = decision;
  component_results =
      record {
        category = "ethernet";
        component_id = "intel-i219";
        component_name = "I219-V";
        decision = decision;
      }
      ∷ [];
  warnings = [];
  unresolved_requirements = [];
  can_generate = true;
}

abbrev the_plan : BuildPlan
the_plan = generate_build_plan "1" report

abbrev digest_of {ℓ} : {A : Type ℓ} → A → String
digest_of a = "digest"

abbrev never : ℕ → Bool
never n = false

abbrev artifact_of : String → DependencyArtifact
artifact_of id = record {
  asset_name = id;
  source_url = "";
  sha256 = "";
  size_bytes = 1;
  variant = release;
  archive_type = "zip";
}

abbrev item : String → List String → ResolvedDependency
item id dependencies =
    resolved_dependency (find id (requests_of the_plan).specs) (entry id dependencies).1
      (artifact_of id)

abbrev the_set : ResolvedDependencySet
the_set = record {
  target_model = "ThinkPad T480s";
  target_macos = "sequoia";
  policy_version = "1";
  variant = release;
  catalog_digest = "digest";
  resolved_dependencies =
      item "intelmausi" []
      ∷ item "lilu" []
      ∷ item "opencore" []
      ∷ item "virtualsmc" ("lilu" ∷ [])
      ∷ [];
  unresolved_requirements = [];
  warnings = [];
  is_complete = true;
  plan_digest = "digest";
}

the_resolution :
    resolve digest_of digest_of db catalog the_plan release never never ≡ resolved the_set
unfolding resolve check_plan is_usable is_model get_model model_by_name is_bound is_digest
    requests_of request_all request_capability request_known request set_spec base_requests
    construct get_artifact variant_value resolved_dependency find get_macos lower strip
    generate_build_plan post_init draft_of first_draft plan_results plan_result plan_ethernet plan
    add_capability has_igpu deduplicate_preserve_order deduplicate contains build_graph add_specs
    resolve_ordered_set add_node
the_resolution = refl

resolve-IsReturned_example : IsReturned db catalog the_plan release the_set
resolve-IsReturned_example =
    resolve-IsReturned digest_of digest_of db catalog the_plan release never never the_set
      the_resolution

resolve-build_ready_example :
    ((the_set.is_complete ≡ true) ↔ (the_plan.build_ready ≡ true))
    × All (λ c. contains known_capabilities c ≡ true) the_plan.required_capabilities
resolve-build_ready_example =
    resolve-build_ready digest_of digest_of db catalog "1" report release never never the_set
      the_resolution

requests_of-needs_example :
    ((x : String)
      → contains (ids_of (requests_of the_plan).specs) x ≡ (
          contains ("opencore" ∷ "virtualsmc" ∷ []) x
          || any_needs (lower the_plan.target_macos) the_plan.required_capabilities x))
    × (is_filled (requests_of the_plan).unresolved ≡ (
        is_filled the_plan.unresolved_requirements
        || any_open (lower the_plan.target_macos) the_plan.required_capabilities))
requests_of-needs_example = requests_of-needs the_plan
