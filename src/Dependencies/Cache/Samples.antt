-- ===== src/Dependencies/Cache/Samples.antt =====
-- Artifacts in a small cache.
use libre_core_mac_loader.Prelude.{
  ℕ, ◌≤◌, String, ◌≡◌, refl, ◌⊎◌, Bool, true, false, List, [], ◌∷◌, ◌==◌, string_eq, contains, sym,
  if◌then◌else◌,
}
use libre_core_mac_loader.Prelude.Text.{lower, mentions}
use libre_core_mac_loader.Compatibility.Registry.{find}
use libre_core_mac_loader.Compatibility.Components.{take_chars}
use libre_core_mac_loader.Dependencies.Resolver.Catalog.{
  release, variant_value, DependencySpec, get_artifact,
}
use libre_core_mac_loader.Dependencies.Cache.Files.{
  Entry, Cache, read_file, starts_with, ends_with, is_prunable, prunable, insert_by_mtime,
  sort_by_mtime, remove_names, remaining, total_size, prune_loop, pruned_names, prune_cache,
  write_file,
}
use libre_core_mac_loader.Dependencies.Cache.Artifacts.{
  Fetched, fetched, is_safe_value, without_slash, file_name, get_artifact_cache_path,
  get_cached_path_if_valid, set_index, publish, put_artifact, download_and_put, after_lock,
  after_check, acquire_artifact,
}
use libre_core_mac_loader.Dependencies.Cache.Pruned.{all_leased, prune_cache_bound}
use libre_core_mac_loader.Dependencies.Cache.Valid.{the_value, IsValid}
use libre_core_mac_loader.Dependencies.Cache.Acquired.{acquire_artifact-IsValid}

abbrev lilu : DependencySpec
lilu = record {
  id = "lilu";
  project_name = "Lilu";
  upstream_repository = "";
  license = "";
  version = "1.7.0";
  release_tag = "1.7.0";
  dependencies = [];
  artifacts =
      (
        "RELEASE",
        record {
          asset_name = "Lilu.zip";
          source_url = "";
          sha256 = "ABC";
          size_bytes = 3;
          variant = release;
          archive_type = "zip";
        },
      )
      ∷ [];
  subcomponents = [];
  date_verified = "";
  license_file = "";
  license_sha256 = "";
}

abbrev path : String
path = "lilu_1.7.0_RELEASE_ABC.zip"

abbrev nothing_escapes : String → Bool
nothing_escapes name = false

-- A hash that knows one content.
abbrev hash : String → String
hash content = if content == "lilu" then "abc" else "other"

abbrev size : String → ℕ
size content = 5

abbrev is_leased : String → Bool
is_leased name = name == path

abbrev old : Cache
old = record {
  files =
      record { name = "old.zip"; content = "old"; mtime = 1 }
      ∷ record { name = ".hidden"; content = "x"; mtime = 0 }
      ∷ [];
  index = [];
}

abbrev download : String → Cache → Fetched Cache
download target cache = fetched (record cache {
  files = write_file (record { name = target; content = "lilu"; mtime = 2 }) cache.files;
})

-- The old file makes room for the new one.
abbrev left : List Entry
left =
    record { name = ".hidden"; content = "x"; mtime = 0 }
    ∷ record { name = path; content = "lilu"; mtime = 2 }
    ∷ []

acquired :
    acquire_artifact nothing_escapes hash size 6 is_leased download lilu release false []
      (fetched old)
    ≡ fetched (path, left)
unfolding acquire_artifact after_check after_lock download_and_put put_artifact publish
    get_cached_path_if_valid get_artifact_cache_path is_safe_value mentions file_name variant_value
    get_artifact find take_chars without_slash lower read_file write_file set_index prune_cache
    pruned_names prune_loop prunable is_prunable starts_with ends_with insert_by_mtime sort_by_mtime
    remove_names remaining total_size contains
acquired = refl

leased :
    (target : String)
    → get_artifact_cache_path nothing_escapes lilu release ≡ fetched target
    → is_leased target ≡ true
unfolding get_artifact_cache_path is_safe_value mentions file_name variant_value get_artifact find
    take_chars without_slash
leased target h = rw (sym (the_value path target h)) refl

acquire_artifact-IsValid_example :
    (get_artifact_cache_path nothing_escapes lilu release ≡ fetched path)
    × IsValid hash lilu release path left
acquire_artifact-IsValid_example =
    acquire_artifact-IsValid nothing_escapes hash size 6 is_leased download lilu release false []
      (fetched old) path left leased acquired

abbrev pruned : Cache
pruned = prune_cache size 6 is_leased old

prune_cache_bound_example :
    ((name : String)
      → (is_leased name ≡ true) ⊎ (is_prunable name ≡ false)
      → read_file name pruned.files ≡ read_file name old.files)
    × ((total_size size (prunable pruned.files) ≤ 6)
        ⊎ (all_leased size 6 is_leased (prunable pruned.files) ≡ true))
unfolding contains
prune_cache_bound_example = prune_cache_bound size 6 is_leased old (refl, (refl, tt))
