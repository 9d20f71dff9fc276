-- ===== src/Dependencies/Cache/Artifacts.antt =====
-- The operations of CacheManager on one artifact, in macloader/dependencies/cache.py. SHA-256, the
-- size of a file and whether a resolved path leaves the downloads directory are parameters. The locks
-- are held by others or by this call: what they protect is a parameter too.
use libre_core_mac_loader.Prelude.{
  ℕ, String, ◌<>◌, Bool, true, false, not, ◌&&◌, ◌||◌, Option, none, some, List, [], ◌∷◌, ◌==◌,
  string_eq, leb, nat_beq, if◌then◌else◌,
}
use Prim.Native.Char.{code}
use libre_core_mac_loader.Prelude.Text.{lower, mentions, codes}
use libre_core_mac_loader.Compatibility.Components.{take_chars}
use libre_core_mac_loader.Dependencies.Resolver.Catalog.{
  ArtifactVariant, variant_value, DependencyArtifact, DependencySpec, get_artifact,
}
use libre_core_mac_loader.Dependencies.Cache.Files.{
  Entry, Indexed, Cache, read_file, write_file, prune_cache,
}

-- What an operation comes to: a value, a ChecksumMismatchError, or another exception.
pub data Fetched {ℓ} (A : Type ℓ) : Type ℓ where
  fetched : A → Fetched A
  mismatch : String → Fetched A
  failed : String → Fetched A

infixl 5 ◌>>=◌
abbrev pub ◌>>=◌ {ℓ κ} : {A : Type ℓ} {B : Type κ} → Fetched A → (A → Fetched B) → Fetched B
fetched a >>= f = f a
mismatch t >>= f = mismatch t
failed t >>= f = failed t

infixl 5 ◌>>◌
abbrev pub ◌>>◌ {ℓ} : {B : Type ℓ} → Fetched (Unit {0}) → Fetched B → Fetched B
m >> k = m >>= λ _. k

abbrev pub mismatch_if : Bool → String → Fetched (Unit {0})
mismatch_if true text = mismatch text
mismatch_if false text = fetched tt

-- `re.fullmatch(r"[A-Za-z0-9][A-Za-z0-9._+~-]*", value)`
abbrev is_alnum : ℕ → Bool
is_alnum c = (leb b'a' c && leb c b'z') || (leb b'A' c && leb c b'Z') || (leb b'0' c && leb c b'9')

abbrev is_safe_char : ℕ → Bool
is_safe_char c =
    is_alnum c
    || nat_beq c b'.'
    || nat_beq c b'_'
    || nat_beq c b'+'
    || nat_beq c b'~'
    || nat_beq c b'-'

abbrev all_safe : List ℕ → Bool
all_safe [] = true
all_safe (c ∷ s) = is_safe_char c && all_safe s

abbrev is_safe_label : List ℕ → Bool
is_safe_label [] = false
is_safe_label (c ∷ s) = is_alnum c && all_safe s

unfoldable pub is_safe_value : String → Bool
unfolding mentions
is_safe_value value = is_safe_label (codes value) && not (mentions value "..")

-- `.replace("/", "_")`
unfoldable pub without_slash : String → String
without_slash String.[] = String.[]
without_slash (String.◌∷◌ c s) =
    let rest = without_slash s in if nat_beq (code c) b'/' then "_" <> rest else String.◌∷◌ c rest

abbrev expected_sha : Option DependencyArtifact → String
expected_sha none = "unknown"
expected_sha (some artifact) = artifact.sha256

abbrev archive_suffix : Option DependencyArtifact → String
archive_suffix none = "zip"
archive_suffix (some artifact) = artifact.archive_type

unfoldable pub file_name : DependencySpec → ArtifactVariant → String
unfolding variant_value get_artifact take_chars without_slash
file_name spec variant =
    spec.id
    <> "_"
    <> spec.version
    <> "_"
    <> variant_value variant
    <> "_"
    <> take_chars 12 (expected_sha (get_artifact variant spec))
    <> without_slash ("." <> archive_suffix (get_artifact variant spec))

module _ (escapes : String → Bool) where
  -- `get_artifact_cache_path`: the name below the downloads directory; a refused value is shown as
  -- `repr` shows one without quotes and escapes
  unfoldable pub get_artifact_cache_path : DependencySpec → ArtifactVariant → Fetched String
  unfolding is_safe_value file_name
  get_artifact_cache_path spec variant = do
    mismatch_if (not (is_safe_value spec.id))
        ("Unsafe dependency ID for cache path: '" <> spec.id <> "'")
    mismatch_if (not (is_safe_value spec.version))
        ("Unsafe version for cache path: '" <> spec.version <> "'")
    mismatch_if (escapes (file_name spec variant))
        "Cache artifact path escapes the downloads directory"
    fetched (file_name spec variant)

  module _ (hash : String → String) (size : String → ℕ) where
    abbrev pub has_hash : DependencyArtifact → Option String → Bool
    has_hash artifact none = false
    has_hash artifact (some content) = hash content == lower artifact.sha256

    -- `get_cached_path_if_valid`, with `has_valid_artifact`
    unfoldable pub get_cached_path_if_valid :
        DependencySpec → ArtifactVariant → List Entry → Fetched (Option String)
    unfolding get_artifact get_artifact_cache_path read_file lower
    get_cached_path_if_valid spec variant files = elim (get_artifact variant spec) [
      | none ↦ fetched none
      | some artifact ↦ get_artifact_cache_path spec variant >>= λ name.
          fetched (if has_hash artifact (read_file name files) then some name else none)
    ]

    abbrev pub index_key : DependencySpec → ArtifactVariant → String
    index_key spec variant = spec.id <> ":" <> spec.version <> ":" <> variant_value variant

    -- `index[key] = {...}`
    unfoldable pub set_index : Indexed → List Indexed → List Indexed
    set_index new [] = new ∷ []
    set_index new (i ∷ index) = if new.key == i.key then new ∷ index else i ∷ set_index new index

    abbrev content_size : Option String → ℕ
    content_size none = 0
    content_size (some content) = size content

    module _ (max_cache_bytes : ℕ) (is_active_lease : String → Bool) where
      abbrev pub indexed :
          DependencySpec → ArtifactVariant → DependencyArtifact → String → Cache → Cache
      indexed spec variant artifact name cache = record cache {
        index =
            set_index
              (record {
                key = index_key spec variant;
                sha256 = lower artifact.sha256;
                path = name;
                size_bytes = content_size (read_file name cache.files);
              })
              cache.index;
      }

      -- The end of `put_artifact`: the published file is read again, indexed, and the cache pruned.
      unfoldable pub publish :
          DependencySpec → ArtifactVariant → DependencyArtifact → String → Cache → Fetched Cache
      unfolding read_file lower prune_cache set_index variant_value
      publish spec variant artifact name cache =
          if has_hash artifact (read_file name cache.files)
          then fetched (
              prune_cache size max_cache_bytes is_active_lease
                (indexed spec variant artifact name cache))
          else mismatch (
              "Published cache artifact changed for "
              <> spec.id
              <> " ("
              <> variant_value variant
              <> ")")

      -- `put_artifact`; without a source the artifact is in its place already.
      unfoldable pub put_artifact :
          DependencySpec → ArtifactVariant → Option Entry → Cache → Fetched Cache
      unfolding get_artifact get_artifact_cache_path publish write_file lower variant_value
      put_artifact spec variant source cache = elim (get_artifact variant spec) [
        | none ↦
            mismatch
              ("No artifact definition for " <> spec.id <> " variant " <> variant_value variant)
        | some artifact ↦ get_artifact_cache_path spec variant >>= λ name. elim source [
          | none ↦ publish spec variant artifact name cache
          | some file ↦
              if has_hash artifact (some file.content)
              then publish spec variant artifact name
                  (record cache { files = write_file (record file { name = name }) cache.files })
              else mismatch (
                  "Checksum or size mismatch for "
                  <> spec.id
                  <> " ("
                  <> variant_value variant
                  <> ")")
        ]
      ]

      -- `acquire_artifact`, from its end: the download, the second check under the lock, the whole.
      -- `before` are the files at the first check; `lock` is what waiting for the artifact's lock
      -- comes to, with the cache of that moment; the downloader writes below the path and may leave
      -- any cache.
      unfoldable pub download_and_put :
          (String → Cache → Fetched Cache)
          → DependencySpec
          → ArtifactVariant
          → Cache
          → Fetched (String × List Entry)
      unfolding get_artifact get_artifact_cache_path put_artifact variant_value
      download_and_put download spec variant cache = elim (get_artifact variant spec) [
        | none ↦
            mismatch
              ("No artifact definition for " <> spec.id <> " variant " <> variant_value variant)
        | some artifact ↦ get_artifact_cache_path spec variant >>= λ target.
            download target cache >>= λ downloaded.
            put_artifact spec variant none downloaded >>= λ published.
            fetched (target, published.files)
      ]

      unfoldable pub after_lock :
          (String → Cache → Fetched Cache)
          → DependencySpec
          → ArtifactVariant
          → Bool
          → Cache
          → Option String
          → Fetched (String × List Entry)
      unfolding download_and_put variant_value
      after_lock download spec variant cancelled cache (some name) = fetched (name, cache.files)
      after_lock download spec variant cancelled cache none =
          if cancelled
          then failed
              ("Acquisition cancelled for " <> spec.id <> " (" <> variant_value variant <> ")")
          else download_and_put download spec variant cache

      unfoldable pub after_check :
          (String → Cache → Fetched Cache)
          → DependencySpec
          → ArtifactVariant
          → Bool
          → List Entry
          → Fetched Cache
          → Option String
          → Fetched (String × List Entry)
      unfolding get_cached_path_if_valid after_lock
      after_check download spec variant cancelled before lock (some name) = fetched (name, before)
      after_check download spec variant cancelled before lock none = lock >>= λ cache.
          get_cached_path_if_valid spec variant cache.files
          >>= after_lock download spec variant cancelled cache

      unfoldable pub acquire_artifact :
          (String → Cache → Fetched Cache)
          → DependencySpec
          → ArtifactVariant
          → Bool
          → List Entry
          → Fetched Cache
          → Fetched (String × List Entry)
      unfolding get_cached_path_if_valid after_check
      acquire_artifact download spec variant cancelled before lock =
          get_cached_path_if_valid spec variant before
          >>= after_check download spec variant cancelled before lock
