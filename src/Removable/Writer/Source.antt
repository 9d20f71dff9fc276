-- ===== src/Removable/Writer/Source.antt =====
-- The fields of RemovableMediaWriter of macloader/removable/writer.py, `_validate_source` and
-- `dry_run`. A callback is a function into what its call comes to. An error's text that ends in a
-- path of the host is cut before the path.
use libre_core_mac_loader.Prelude.{
  ℕ, String, ◌<>◌, Bool, true, false, not, ◌&&◌, ◌||◌, Option, none, some, List, [], ◌∷◌, string_eq,
  list_eq, if◌then◌else◌,
}
use libre_core_mac_loader.Removable.Outcome.{Outcome, done, unsafe, raised, ◌>>=◌, ◌>>◌, refuse_if}
use libre_core_mac_loader.Removable.Device.{RemovableDevice, assert_safe}
use libre_core_mac_loader.Removable.Source.{
  Entry, Source, file_eq, at, is_dir, is_file, is_symlink, below, source_manifest,
}
use libre_core_mac_loader.Removable.Plan.{
  MediaBindings, no_bindings, complete, WritePlan, default_partitions,
}
use libre_core_mac_loader.Removable.Published.Contracts.{Published}

-- What a write does to the medium.
pub data Event : Type 0 where
  written : WritePlan → List Entry → Event
  read_back : WritePlan → List Entry → Event
  invalidated : WritePlan → String → Event

-- The fields of the writer.
pub record Writer : Type 0 where
  pub destructive_write : Option (WritePlan → List Entry → Outcome (Unit {0}))
  pub enumerator : Option (Outcome (List RemovableDevice))
  pub source_validator : Option (Outcome Bool)
  pub readback_verifier : Option (WritePlan → List Entry → Outcome Bool)
  pub invalidator : Option (WritePlan → String → Outcome (Unit {0}))
  pub require_published_artifacts : Bool

-- What else a run meets: the clock, the answers to the three calls of `cancel` and the two of
-- `progress`, and the source at each of the times when it is read.
pub record Surroundings : Type 0 where
  pub now : ℕ
  pub cancel_first : Outcome Bool
  pub cancel_before : Outcome Bool
  pub cancel_after : Outcome Bool
  pub progress_start : ℕ → Outcome (Unit {0})
  pub progress_end : ℕ → Outcome (Unit {0})
  pub validated_source : Source
  pub recovery_source : List Entry
  pub published_source : List Entry
  pub published : Published
  pub manifest_source : List Entry
  pub copied_source : List Entry

any : List Bool → Bool
any [] = false
any (b ∷ rest) = b || any rest

has_symlink : List Entry → Bool
has_symlink [] = false
has_symlink (e ∷ rest) = is_symlink (some e.node) || has_symlink rest

-- The directory that holds BOOT and OC.
abbrev pub efi_tree : List Entry → List Entry
efi_tree entries = if is_dir (at ("EFI" ∷ []) entries) then below "EFI" entries else entries

abbrev regular_at : List String → List Entry → Bool
regular_at path entries = is_file (at path entries) && not (is_symlink (at path entries))

-- The callback at the end of `_validate_source`.
abbrev run_validator : Option (Outcome Bool) → Outcome (Unit {0})
run_validator none = done tt
run_validator (some (done true)) = done tt
run_validator (some (done false)) = unsafe "Source directory failed EFI/Recovery validation"
run_validator (some (unsafe m)) = unsafe ("Source validation raised an error: " <> m)
run_validator (some (raised m)) = unsafe ("Source validation raised an error: " <> m)

-- `_validate_source`
unfoldable pub validate_source : Option (Outcome Bool) → Source → Outcome (Unit {0})
unfolding any has_symlink
validate_source validator s = do
  refuse_if (not s.exists || not s.is_directory)
      ("Source directory does not exist or is not a directory: " <> s.name)
  refuse_if s.is_link ("Source directory must not be a symlink: " <> s.name)
  refuse_if (any s.ancestor_links) "Source directory ancestor is a symlink"
  refuse_if (is_symlink (at ("EFI" ∷ []) s.entries)) "EFI directory must not be a symlink"
  refuse_if (has_symlink (efi_tree s.entries)) "EFI source contains a symlink"
  refuse_if (not (regular_at ("BOOT" ∷ "BOOTx64.efi" ∷ []) (efi_tree s.entries)))
      "Source EFI is missing required bootloader"
  refuse_if (not (regular_at ("OC" ∷ "OpenCore.efi" ∷ []) (efi_tree s.entries)))
      "Source EFI is missing OpenCore binary"
  run_validator validator

abbrev pub or_none : Option MediaBindings → MediaBindings
or_none none = no_bindings
or_none (some b) = b

abbrev pub is_complete : Option MediaBindings → Bool
is_complete none = false
is_complete (some b) = complete b

-- The source at each of the times when `dry_run` reads it: for its validation, for the manifest, and
-- for the test of the Recovery directory.
pub record Readings : Type 0 where
  pub validated_source : Source
  pub manifest_source : List Entry
  pub recovery_source : List Entry

-- `dry_run` without a source, and with one.
unfoldable pub dry_run :
    Writer → RemovableDevice → ℕ → Option Readings → Option MediaBindings → Outcome WritePlan
dry_run w device required_bytes none bindings = do
  assert_safe device required_bytes
  done (record {
    target = device;
    required_bytes = required_bytes;
    partitions = default_partitions;
    destroys_data = true;
    expected_files = [];
    bindings = or_none bindings;
    source_validated = false;
  })
dry_run w device required_bytes (some s) bindings = do
  assert_safe device required_bytes
  validate_source w.source_validator s.validated_source
  files ← source_manifest s.manifest_source
  refuse_if (is_complete bindings && not (is_dir (at ("Recovery" ∷ []) s.recovery_source)))
      "A qualified media plan requires an explicit Recovery payload"
  done (record {
    target = device;
    required_bytes = required_bytes;
    partitions = default_partitions;
    destroys_data = true;
    expected_files = files;
    bindings = or_none bindings;
    source_validated = true;
  })
