-- ===== src/Dependencies/Resolver/Catalog.antt =====
-- The dependency catalogue: DependencyArtifact, DependencySpec and the resolved set of
-- macloader/domain/dependencies.py, DependencyCatalogSchema of macloader/database/schema.py.
use libre_core_mac_loader.Prelude.{ℕ, String, Bool, Option, List, [], ◌∷◌}
use libre_core_mac_loader.Compatibility.Registry.{find}
use libre_core_mac_loader.Dependencies.Graph.{Adjacency, add_node}

pub data ArtifactVariant : Type 0 where
  release debug : ArtifactVariant

-- `variant.value`
unfoldable pub variant_value : ArtifactVariant → String
variant_value release = "RELEASE"
variant_value debug = "DEBUG"

pub record DependencyArtifact : Type 0 where
  pub asset_name : String
  pub source_url : String
  pub sha256 : String
  pub size_bytes : ℕ
  pub variant : ArtifactVariant
  pub archive_type : String

pub record DependencySpec : Type 0 where
  pub id : String
  pub project_name : String
  pub upstream_repository : String
  pub license : String
  pub version : String
  pub release_tag : String
  pub dependencies : List String
  pub artifacts : List (String × DependencyArtifact)
  pub subcomponents : List String
  pub date_verified : String
  pub license_file : String
  pub license_sha256 : String

-- `get_artifact`
unfoldable pub get_artifact : ArtifactVariant → DependencySpec → Option DependencyArtifact
unfolding variant_value find
get_artifact variant spec = find (variant_value variant) spec.artifacts

-- DependencyCatalogSchema
pub record Catalog : Type 0 where
  pub policy_version : String
  pub dependencies : List (String × DependencySpec)

-- `_build_graph`, over the values of the dict
unfoldable pub add_specs : List (String × DependencySpec) → Adjacency → Adjacency
add_specs [] graph = graph
add_specs ((_, spec) ∷ specs) graph = add_specs specs (add_node spec.id spec.dependencies graph)

unfoldable pub build_graph : Catalog → Adjacency
unfolding add_specs
build_graph catalog = add_specs catalog.dependencies []

pub record ResolvedDependency : Type 0 where
  pub dependency_id : String
  pub project_name : String
  pub version : String
  pub variant : ArtifactVariant
  pub artifact : DependencyArtifact
  pub reason : String
  pub required_by : String
  pub is_transitive : Bool
  pub subcomponents : List String

-- ResolvedDependencySet, without the time
pub record ResolvedDependencySet : Type 0 where
  pub target_model : String
  pub target_macos : String
  pub policy_version : String
  pub variant : ArtifactVariant
  pub catalog_digest : String
  pub resolved_dependencies : List ResolvedDependency
  pub unresolved_requirements : List String
  pub warnings : List String
  pub is_complete : Bool
  pub plan_digest : String
