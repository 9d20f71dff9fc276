-- ===== src/Dependencies/Cache/Valid.antt =====
-- What `get_cached_path_if_valid` and `put_artifact` of macloader/dependencies/cache.py ensure.
use libre_core_mac_loader.Prelude.{
  ℕ, String, ◌≡◌, refl, sym, ap, subst, ◌∙◌, inl, inr, Bool, true, false, Option, none, some, List,
  string_eq, if◌then◌else◌, arith, Bool-cases, Option-cases,
}
use libre_core_mac_loader.Prelude.Text.{lower}
use libre_core_mac_loader.Dependencies.Resolver.Catalog.{
  ArtifactVariant, DependencyArtifact, DependencySpec, get_artifact,
}
use libre_core_mac_loader.Dependencies.Cache.Files.{Entry, Cache, read_file}
use libre_core_mac_loader.Dependencies.Cache.Artifacts.{
  Fetched, fetched, mismatch, failed, ◌>>=◌, get_artifact_cache_path, has_hash,
  get_cached_path_if_valid, indexed, publish, put_artifact,
}
use libre_core_mac_loader.Dependencies.Cache.Pruned.{prune_cache_spares}

pub the_value {ℓ} : {A : Type ℓ} (a b : A) → fetched a ≡ fetched b → a ≡ b
the_value a b e = cc

pub bind-fetched {ℓ κ} :
    {A : Type ℓ} {B : Type κ} (m : Fetched A) (f : A → Fetched B) (b : B)
    → (m >>= f) ≡ fetched b
    → (a : A) × (m ≡ fetched a) × (f a ≡ fetched b)
bind-fetched (fetched a) f b h = (a, refl, h)
bind-fetched (mismatch t) f b h = cc
bind-fetched (failed t) f b h = cc

-- The file of the artifact, with the hash that the catalogue gives.
abbrev pub IsValid :
    (String → String) → DependencySpec → ArtifactVariant → String → List Entry → Type 0
IsValid hash spec variant name files =
    (artifact : DependencyArtifact) × (content : String) × (get_artifact variant spec
      ≡ some artifact)
    × (read_file name files ≡ some content)
    × (hash content ≡ lower artifact.sha256)

module _ (escapes : String → Bool) (hash : String → String) (size : String → ℕ) where
  has_hash-some :
      (artifact : DependencyArtifact) (found : Option String)
      → has_hash escapes hash size artifact found ≡ true
      → (content : String) × (found ≡ some content) × (hash content ≡ lower artifact.sha256)
  has_hash-some artifact none h = cc
  has_hash-some artifact (some content) h =
      (content, refl, (string_eq.beq_iff (hash content) (lower artifact.sha256)).0 h)

  pub get_cached-IsValid :
      (spec : DependencySpec) (variant : ArtifactVariant) (files : List Entry) (name : String)
      → get_cached_path_if_valid escapes hash size spec variant files ≡ fetched (some name)
      → (get_artifact_cache_path escapes spec variant ≡ fetched name)
        × IsValid hash spec variant name files
  unfolding get_cached_path_if_valid
  get_cached-IsValid spec variant files name h = elim (Option-cases (get_artifact variant spec)) [
    | inl e ↦ absurd (ground arith)
    | inr (artifact, e) ↦
        let (target, found, chosen) =
          bind-fetched (get_artifact_cache_path escapes spec variant) _ (some name)
            (opened artifact e) in
        let (same, valid) =
          chosen_lem (has_hash escapes hash size artifact (read_file target files)) target name
            chosen in
        let (content, there, hashed) = has_hash-some artifact (read_file name files) (
          subst (λ n. has_hash escapes hash size artifact (read_file n files) ≡ true) same valid) in
        (
          subst (λ n. get_artifact_cache_path escapes spec variant ≡ fetched n) same found,
          (artifact, content, e, there, hashed),
        )
  ]
    where
      opened :
          (artifact : DependencyArtifact)
          → get_artifact variant spec ≡ some artifact
          → (get_artifact_cache_path escapes spec variant >>= λ name. fetched (
              if has_hash escapes hash size artifact (read_file name files)
              then some name
              else none))
            ≡ fetched (some name)
      opened artifact e = rw (get_cached_path_if_valid, e) at h

      chosen_lem :
          (b : Bool) (target name : String)
          → fetched (if b then some target else none) ≡ fetched (some name)
          → (target ≡ name) × (b ≡ true)
      chosen_lem true target name e = (cc, refl)
      chosen_lem false target name e = cc

  module _ (max_cache_bytes : ℕ) (is_active_lease : String → Bool) where
    publish-IsValid :
        (spec : DependencySpec) (variant : ArtifactVariant) (artifact : DependencyArtifact)
        (name : String) (cache after : Cache)
        → get_artifact variant spec ≡ some artifact
        → is_active_lease name ≡ true
        → publish escapes hash size max_cache_bytes is_active_lease spec variant artifact name cache
          ≡ fetched after
        → IsValid hash spec variant name after.files
    unfolding publish
    publish-IsValid spec variant artifact name cache after e leased h =
        elim (Bool-cases (has_hash escapes hash size artifact (read_file name cache.files))) [
          | inl valid ↦
              let (content, there, hashed) =
                has_hash-some artifact (read_file name cache.files) valid in
              (artifact, content, e, kept valid ∙ there, hashed)
          | inr wrong ↦ absurd (ground arith)
        ]
      where
        same_file :
            (a : Cache)
            → fetched a ≡ fetched after
            → read_file name after.files ≡ read_file name a.files
        same_file a e = ap (λ c. read_file name c.files) (sym (the_value a after e))

        kept :
            has_hash escapes hash size artifact (read_file name cache.files) ≡ true
            → read_file name after.files ≡ read_file name cache.files
        kept valid =
            same_file _ (rw (publish, valid) at h)
            ∙ prune_cache_spares size max_cache_bytes is_active_lease
                (indexed escapes hash size max_cache_bytes is_active_lease spec variant artifact
                  name cache)
                name (inl leased)

    pub put_artifact-IsValid :
        (spec : DependencySpec) (variant : ArtifactVariant) (name : String) (cache after : Cache)
        → get_artifact_cache_path escapes spec variant ≡ fetched name
        → is_active_lease name ≡ true
        → put_artifact escapes hash size max_cache_bytes is_active_lease spec variant none cache
          ≡ fetched after
        → IsValid hash spec variant name after.files
    unfolding put_artifact
    put_artifact-IsValid spec variant name cache after path leased h =
        elim (Option-cases (get_artifact variant spec)) [
          | inl e ↦ absurd (ground arith)
          | inr (artifact, e) ↦
              publish-IsValid spec variant artifact name cache after e leased
                (rw (put_artifact, e, path) at h)
        ]
