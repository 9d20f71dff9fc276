-- ===== src/Removable/Source.antt =====
-- The media source directory of macloader/removable/writer.py as a listing, and the functions that
-- walk it. An entry stands for one path below the directory, in the order of `sorted(rglob("*"))`;
-- a regular file is its size and the SHA-256 of its bytes. What is behind a link is not listed, save
-- behind a link at EFI to a directory, whose entries follow the link: `_payload_root` goes through it.
pub mod Bounds
use libre_core_mac_loader.Prelude.{
  ℕ, ◌+◌, ◌*◌, ◌^◌, String, ◌<>◌, ◌≡◌, ◌↔◌, Bool, true, false, not, ◌&&◌, ◌||◌, Option, none, some,
  List, [], ◌∷◌, ◌++◌, arith, ltb, leb, ◌==◌, nat_eq, string_eq, list_eq, Eq, list_beq,
  if◌then◌else◌, length,
}
use libre_core_mac_loader.Removable.Outcome.{Outcome, done, unsafe, raised, ◌>>=◌, ◌>>◌, refuse_if}

-- What a symbolic link points to.
pub data Pointee : Type 0 where
  to_file to_directory to_nothing : Pointee

pub data Node : Type 0 where
  file : (size_bytes : ℕ) (sha256 : String) → Node
  directory special : Node
  symlink : Pointee → Node

pub record Entry : Type 0 where
  pub path : List String
  pub node : Node

-- What the process sees of the source: the directory itself, whether it or one of its ancestors is a
-- symbolic link (itself first), and its entries.
pub record Source : Type 0 where
  pub name : String
  pub exists : Bool
  pub is_directory : Bool
  pub is_link : Bool
  pub ancestor_links : List Bool
  pub entries : List Entry

pub record MediaFileDigest : Type 0 where
  pub relative_path : String
  pub size_bytes : ℕ
  pub sha256 : String

abbrev file_beq : MediaFileDigest → MediaFileDigest → Bool
file_beq a b =
    a.relative_path == b.relative_path && a.size_bytes == b.size_bytes && a.sha256 == b.sha256

pub file_beq_iff : (a b : MediaFileDigest) → (file_beq a b ≡ true) ↔ (a ≡ b)
file_beq_iff a b = ground (
  arith,
  string_eq.beq_iff a.relative_path b.relative_path,
  string_eq.beq_iff a.sha256 b.sha256,
  nat_eq.beq_iff a.size_bytes b.size_bytes,
)

instance abbrev pub file_eq : Eq MediaFileDigest
file_eq = record { beq = file_beq; beq_iff = file_beq_iff }

-- `MAX_MEDIA_FILES`, `MAX_MEDIA_FILE_BYTES`, `MAX_MEDIA_TOTAL_BYTES`
abbrev pub max_media_files : ℕ
max_media_files = 10_000

abbrev pub max_media_file_bytes : ℕ
max_media_file_bytes = 8 * 1024 * 1024 * 1024

abbrev pub max_media_total_bytes : ℕ
max_media_total_bytes = 32 * 1024 * 1024 * 1024

-- `as_posix()`
unfoldable pub posix : List String → String
posix [] = ""
posix (part ∷ []) = part
posix (part ∷ rest) = part <> "/" <> posix rest

-- `Path.name`
unfoldable pub last_name : List String → String
last_name [] = ""
last_name (part ∷ []) = part
last_name (part ∷ rest) = last_name rest

-- The node at a path.
unfoldable pub at : List String → List Entry → Option Node
unfolding list_beq
at path [] = none
at path (e ∷ rest) = if e.path == path then some e.node else at path rest

-- `Path.is_dir()` and `Path.is_file()`, which follow a link, and `Path.is_symlink()`.
abbrev pub is_dir : Option Node → Bool
is_dir none = false
is_dir (some (file n h)) = false
is_dir (some directory) = true
is_dir (some special) = false
is_dir (some (symlink to_directory)) = true
is_dir (some (symlink to_file)) = false
is_dir (some (symlink to_nothing)) = false

abbrev pub is_file : Option Node → Bool
is_file none = false
is_file (some (file n h)) = true
is_file (some directory) = false
is_file (some special) = false
is_file (some (symlink to_file)) = true
is_file (some (symlink to_directory)) = false
is_file (some (symlink to_nothing)) = false

abbrev pub is_symlink : Option Node → Bool
is_symlink none = false
is_symlink (some (file n h)) = false
is_symlink (some directory) = false
is_symlink (some special) = false
is_symlink (some (symlink p)) = true

-- The entries below a directory of the source, with paths relative to it.
abbrev below_root : String → Entry → List Entry → List Entry
below_root top e rest = elim e.path [
  | [] ↦ rest
  | part ∷ [] ↦ rest
  | part ∷ next ∷ more ↦
      if part == top then record { path = next ∷ more; node = e.node } ∷ rest else rest
]

unfoldable pub below : String → List Entry → List Entry
below top [] = []
below top (e ∷ rest) = below_root top e (below top rest)

-- `_payload_root`: the whole source, or its EFI directory.
pub data Root : Type 0 where
  whole efi_only : Root

unfoldable pub payload_root : List Entry → Root
unfolding at
payload_root entries =
    if is_dir (at ("EFI" ∷ []) entries) && is_dir (at ("Recovery" ∷ []) entries)
    then whole
    else if is_dir (at ("EFI" ∷ []) entries)
    then efi_only
    else whole

unfoldable pub payload : List Entry → List Entry
unfolding payload_root below
payload entries = elim (payload_root entries) [ whole ↦ entries | efi_only ↦ below "EFI" entries ]

-- One round of the loop of `_source_manifest`: the files and the bytes read so far.
unfoldable pub manifest_step :
    List String → Node → List MediaFileDigest → ℕ → Outcome (List MediaFileDigest × ℕ)
manifest_step path (symlink _) files total_bytes =
    unsafe ("media source contains a symlink: " <> posix path)
manifest_step path directory files total_bytes = done (files, total_bytes)
manifest_step path special files total_bytes =
    unsafe ("media source contains a non-regular file: " <> posix path)
manifest_step path (file size_bytes sha256) files total_bytes = do
  refuse_if (ltb max_media_file_bytes size_bytes)
      ("media source file exceeds the bounded size limit: " <> posix path)
  refuse_if
      (leb max_media_files (length files) || ltb max_media_total_bytes (total_bytes + size_bytes))
      "media source exceeds the bounded file or byte limit"
  done (
    files ++ record { relative_path = posix path; size_bytes = size_bytes; sha256 = sha256 } ∷ [],
    total_bytes + size_bytes,
  )

unfoldable pub manifest_loop :
    List Entry → List MediaFileDigest → ℕ → Outcome (List MediaFileDigest)
manifest_loop [] files total_bytes = done files
manifest_loop (e ∷ rest) files total_bytes = do
  (files', total_bytes') ← manifest_step e.path e.node files total_bytes
  manifest_loop rest files' total_bytes'

abbrev not_empty : List MediaFileDigest → Outcome (List MediaFileDigest)
not_empty [] = unsafe "media source contains no regular payload files"
not_empty (f ∷ files) = done (f ∷ files)

-- `_source_manifest`
unfoldable pub source_manifest : List Entry → Outcome (List MediaFileDigest)
unfolding payload
source_manifest entries = manifest_loop (payload entries) [] 0 >>= not_empty

-- The records that `_efi_payload_digest` hashes.
abbrev is_excluded : List String → Bool
is_excluded path = elim path [
  | [] ↦ false
  | part ∷ [] ↦ part == "manifest.json" || part == "Recovery"
  | part ∷ next ∷ more ↦ part == "Recovery"
]

unfoldable pub efi_payload_records : List Entry → Outcome (List MediaFileDigest)
unfolding posix
efi_payload_records [] = done []
efi_payload_records (e ∷ rest) =
    let others = efi_payload_records rest in
    if is_excluded e.path then others else elim e.node [
      | symlink _ ↦ unsafe ("media source contains a symlink: " <> posix e.path)
      | directory ↦ others
      | special ↦ unsafe ("media source contains a non-regular file: " <> posix e.path)
      | file size_bytes sha256 ↦ do
        records ← others
        done (
            record { relative_path = posix e.path; size_bytes = size_bytes; sha256 = sha256 }
            ∷ records)
    ]

-- `_copy_no_follow`: the copy holds what the source held, or a link or special file stops it.
unfoldable pub copy_no_follow : List Entry → Outcome (List Entry)
unfolding last_name
copy_no_follow [] = done []
copy_no_follow (e ∷ rest) =
    let others = copy_no_follow rest in
    elim e.node [
      | symlink _ ↦ unsafe ("Source tree changed to a symlink: " <> last_name e.path)
      | special ↦ unsafe ("Source tree contains a non-regular file: " <> last_name e.path)
      | directory ↦ do copied ← others; done (e ∷ copied)
      | file size_bytes sha256 ↦ do copied ← others; done (e ∷ copied)
    ]
