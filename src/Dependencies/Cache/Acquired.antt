-- ===== src/Dependencies/Cache/Acquired.antt =====
-- What `acquire_artifact` of macloader/dependencies/cache.py returns.
use libre_core_mac_loader.Prelude.{
  ℕ, String, ◌<>◌, ◌≡◌, subst, inl, inr, Bool, true, false, Option, none, some, List, Option-cases,
  arith, if◌then◌else◌,
}
use libre_core_mac_loader.Dependencies.Resolver.Catalog.{
  ArtifactVariant, variant_value, DependencySpec, get_artifact,
}
use libre_core_mac_loader.Dependencies.Cache.Files.{Entry, Cache}
use libre_core_mac_loader.Dependencies.Cache.Artifacts.{
  Fetched, fetched, failed, get_artifact_cache_path, get_cached_path_if_valid, put_artifact,
  download_and_put, after_lock, after_check, acquire_artifact,
}
use libre_core_mac_loader.Dependencies.Cache.Valid.{
  the_value, bind-fetched, IsValid, get_cached-IsValid, put_artifact-IsValid,
}

module _ (escapes : String → Bool) (hash : String → String) (size : String → ℕ)
    (max_cache_bytes : ℕ) (is_active_lease : String → Bool) where
  module _ (download : String → Cache → Fetched Cache) (spec : DependencySpec)
      (variant : ArtifactVariant) (cancelled : Bool)
      (leased : (target : String)
        → get_artifact_cache_path escapes spec variant ≡ fetched target
        → is_active_lease target ≡ true) where
    Answers : Fetched (String × List Entry) → Type 0
    Answers m =
        (name : String) (files : List Entry)
        → m ≡ fetched (name, files)
        → (get_artifact_cache_path escapes spec variant ≡ fetched name)
          × IsValid hash spec variant name files

    cached-Answers :
        (files : List Entry) (name : String)
        → get_cached_path_if_valid escapes hash size spec variant files ≡ fetched (some name)
        → Answers (fetched (name, files))
    unfolding Answers
    cached-Answers files name found n l h =
        subst
          (λ p.
            (get_artifact_cache_path escapes spec variant ≡ fetched p.0)
            × IsValid hash spec variant p.0 p.1)
          (the_value (name, files) (n, l) h)
          (get_cached-IsValid escapes hash size spec variant files name found)

    download-Answers :
        (cache : Cache)
        → Answers (
            download_and_put escapes hash size max_cache_bytes is_active_lease download spec variant
              cache)
    unfolding Answers download_and_put
    download-Answers cache name files h = elim (Option-cases (get_artifact variant spec)) [
      | inl e ↦ absurd (ground arith)
      | inr (artifact, e) ↦
          let (target, path, h) =
            bind-fetched (get_artifact_cache_path escapes spec variant) _ (name, files)
              (rw (download_and_put, e) at h) in
          let (downloaded, _, h) = bind-fetched (download target cache) _ (name, files) h in
          let (published, put, h) =
            bind-fetched
              (put_artifact escapes hash size max_cache_bytes is_active_lease spec variant none
                downloaded)
              _ (name, files) h in
          subst
            (λ p.
              (get_artifact_cache_path escapes spec variant ≡ fetched p.0)
              × IsValid hash spec variant p.0 p.1)
            (the_value (target, published.files) (name, files) h)
            (
              path,
              put_artifact-IsValid escapes hash size max_cache_bytes is_active_lease spec variant
                  target downloaded published path (leased target path) put,
            )
    ]

    after_lock-Answers :
        (cache : Cache) (cached : Option String)
        → get_cached_path_if_valid escapes hash size spec variant cache.files ≡ fetched cached
        → Answers (
            after_lock escapes hash size max_cache_bytes is_active_lease download spec variant
              cancelled cache cached)
    unfolding after_lock Answers
    after_lock-Answers cache (some name) found = cached-Answers cache.files name found
    after_lock-Answers cache none found = not_cached cancelled
      where
        not_cached :
            (b : Bool)
            → Answers (
                if b
                then failed (
                    "Acquisition cancelled for " <> spec.id <> " (" <> variant_value variant <> ")")
                else download_and_put escapes hash size max_cache_bytes is_active_lease download
                    spec variant cache)
        not_cached true name files h = cc
        not_cached false name files h = download-Answers cache name files h

    after_check-Answers :
        (before : List Entry) (lock : Fetched Cache) (cached : Option String)
        → get_cached_path_if_valid escapes hash size spec variant before ≡ fetched cached
        → Answers (
            after_check escapes hash size max_cache_bytes is_active_lease download spec variant
              cancelled before lock cached)
    unfolding after_check Answers
    after_check-Answers before lock (some name) found n l h = cached-Answers before name found n l h
    after_check-Answers before lock none found name files h =
        let (cache, _, h) = bind-fetched lock _ (name, files) h in
        let (cached, again, h) =
          bind-fetched (get_cached_path_if_valid escapes hash size spec variant cache.files) _
            (name, files) h in
        after_lock-Answers cache cached again name files h

  -- An acquired artifact is in its place with the hash that the catalogue gives, whatever the
  -- downloader did and whatever others did to the cache before the lock was taken: provided that
  -- the lock makes the path an active lease, the pruning at the end spares it.
  pub acquire_artifact-IsValid :
      (download : String → Cache → Fetched Cache) (spec : DependencySpec)
      (variant : ArtifactVariant) (cancelled : Bool) (before : List Entry) (lock : Fetched Cache)
      (name : String) (files : List Entry)
      → ((target : String)
          → get_artifact_cache_path escapes spec variant ≡ fetched target
          → is_active_lease target ≡ true)
      → acquire_artifact escapes hash size max_cache_bytes is_active_lease download spec variant
          cancelled before lock
        ≡ fetched (name, files)
      → (get_artifact_cache_path escapes spec variant ≡ fetched name)
        × IsValid hash spec variant name files
  unfolding acquire_artifact Answers
  acquire_artifact-IsValid download spec variant cancelled before lock name files leased h =
      let (cached, first, h) =
        bind-fetched (get_cached_path_if_valid escapes hash size spec variant before) _
          (name, files) h in
      after_check-Answers download spec variant cancelled leased before lock cached first name files
        h
