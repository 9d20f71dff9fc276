-- ===== src/Removable/Samples/Media.antt =====
-- A small medium: a USB stick, a source directory with its published contracts, and a plan for it.
use libre_core_mac_loader.Prelude.{
  ℕ, String, true, false, none, some, List, [], ◌∷◌, nat_eq, string_eq, bool_eq, option_eq, list_eq,
}
use libre_core_mac_loader.Removable.Outcome.{done}
use libre_core_mac_loader.Removable.Device.{RemovableDevice}
use libre_core_mac_loader.Removable.Source.{
  Node, file, directory, Entry, Source, MediaFileDigest, file_eq,
}
use libre_core_mac_loader.Removable.Plan.{
  MediaBindings, bindings_eq, WritePlan, default_partitions, DestructiveConfirmation,
}
use libre_core_mac_loader.Removable.Published.Contracts.{
  BuildManifest, RecoveryTarget, verified, RecoveryLock, RecoveryEvidence, Digests, object,
  Published,
}
use libre_core_mac_loader.Removable.Writer.Source.{Writer, Surroundings}

abbrev pub text : String → String
text s = s

abbrev pub stick : RemovableDevice
stick = record {
  device_id = "/dev/sdb";
  model = "Flash";
  capacity_bytes = 16_000;
  is_system_disk = false;
  is_removable = true;
  mounted = false;
  serial = some "S1";
  vendor = none;
  read_only = false;
  partitions = [];
  whole_device = true;
  system_disk_ref = some "/dev/sda";
}

abbrev pub disk : RemovableDevice
disk = record stick { device_id = "/dev/sda"; is_system_disk = true; is_removable = false }

abbrev hex : String
hex = "0123456789abcdef0123456789abcdef0123456789abcdef0123456789abcdef"

abbrev pub bound : MediaBindings
bound = record {
  efi_manifest_digest = hex;
  recovery_lock_digest = hex;
  validation_digest = hex;
  configuration_digest = hex;
  toolchain_digest = hex;
  evidence_digest = hex;
}

abbrev node_at : List String → Node → Entry
node_at path node = record { path = path; node = node }

abbrev pub tree : List Entry
tree =
    node_at ("EFI" ∷ []) directory
    ∷ node_at ("EFI" ∷ "BOOT" ∷ []) directory
    ∷ node_at ("EFI" ∷ "BOOT" ∷ "BOOTx64.efi" ∷ []) (file 10 "b0")
    ∷ node_at ("EFI" ∷ "OC" ∷ []) directory
    ∷ node_at ("EFI" ∷ "OC" ∷ "OpenCore.efi" ∷ []) (file 20 "0c")
    ∷ node_at ("Recovery" ∷ []) directory
    ∷ node_at ("Recovery" ∷ "Recovery-22A.chunklist" ∷ []) (file 3 "c1")
    ∷ node_at ("Recovery" ∷ "Recovery-22A.dmg" ∷ []) (file 70 "d1")
    ∷ node_at ("Recovery" ∷ "recovery.evidence.json" ∷ []) (file 1 "e1")
    ∷ node_at ("Recovery" ∷ "recovery.lock.json" ∷ []) (file 1 "e2")
    ∷ node_at ("Recovery" ∷ "recovery.state.json" ∷ []) (file 1 "e3")
    ∷ node_at ("manifest.json" ∷ []) (file 2 "f1")
    ∷ []

abbrev digest : String → ℕ → String → MediaFileDigest
digest path n h = record { relative_path = path; size_bytes = n; sha256 = h }

abbrev pub listed : List MediaFileDigest
listed =
    digest "EFI/BOOT/BOOTx64.efi" 10 "b0"
    ∷ digest "EFI/OC/OpenCore.efi" 20 "0c"
    ∷ digest "Recovery/Recovery-22A.chunklist" 3 "c1"
    ∷ digest "Recovery/Recovery-22A.dmg" 70 "d1"
    ∷ digest "Recovery/recovery.evidence.json" 1 "e1"
    ∷ digest "Recovery/recovery.lock.json" 1 "e2"
    ∷ digest "Recovery/recovery.state.json" 1 "e3"
    ∷ digest "manifest.json" 2 "f1"
    ∷ []

abbrev pub folder : Source
folder = record {
  name = "media";
  exists = true;
  is_directory = true;
  is_link = false;
  ancestor_links = false ∷ false ∷ [];
  entries = tree;
}

abbrev manifest : BuildManifest
manifest = record { validation_report = "VALID"; toolchain_digest = hex; output_digest = "0c" }

abbrev ventura : RecoveryTarget
ventura = record { product_id = "042"; product_name = "macOS"; version = "13"; build = "22A" }

abbrev lock : RecoveryLock
lock = record {
  state = verified;
  target = ventura;
  image_sha256 = "d1";
  image_size_bytes = some 70;
  chunklist_sha256 = "c1";
  chunklist_size_bytes = some 3;
  target_digest = "22A";
  policy_digest = hex;
  efi_manifest_digest = hex;
  toolchain_digest = hex;
  configuration_digest = hex;
  source_policy_digest = hex;
}

abbrev evidence : RecoveryEvidence
evidence = record {
  lock_digest = hex;
  image_digest = "d1";
  chunklist_digest = "c1";
  signed_chunklist = true;
  verified_chunks = 1;
  image_size_bytes = 70;
}

abbrev pub digests : Digests
digests = record {
  manifest = λ m. m.toolchain_digest;
  lock = λ l. l.policy_digest;
  evidence = λ e. e.lock_digest;
  validation = λ a b. a;
  records = λ files. elim files [ [] ↦ "" | a ∷ [] ↦ a.sha256 | a ∷ b ∷ l ↦ b.sha256 ];
  target = λ t. t.build;
}

abbrev pub published : Published
published = record {
  manifest =
      object "manifest"
        (some (record { report = some "VALID"; digest = hex; contract = some manifest }));
  lock = object "lock" (some lock);
  evidence = object "evidence" (some evidence);
  state =
      object "state" (
        some
          (record { schema_version = some "1"; lock = some "lock"; evidence = some "evidence" }));
  policy = some (record { digest = hex; target = ventura });
  verify_chunklist = some (1, 70);
}

abbrev pub plan : WritePlan
plan = record {
  target = stick;
  required_bytes = 8_000;
  partitions = default_partitions;
  destroys_data = true;
  expected_files = listed;
  bindings = bound;
  source_validated = true;
}

abbrev pub devices : List RemovableDevice
devices = disk ∷ stick ∷ []

abbrev pub writer : Writer
writer = record {
  destructive_write = some (λ p s. done tt);
  enumerator = some (done devices);
  source_validator = some (done true);
  readback_verifier = some (λ p s. done true);
  invalidator = some (λ p reason. done tt);
  require_published_artifacts = true;
}

abbrev pub world : Surroundings
world = record {
  now = 1_000;
  cancel_first = done false;
  cancel_before = done false;
  cancel_after = done false;
  progress_start = λ n. done tt;
  progress_end = λ n. done tt;
  validated_source = folder;
  recovery_source = tree;
  published_source = tree;
  published = published;
  manifest_source = tree;
  copied_source = tree;
}

-- The confirmation that is issued for the plan for a minute.
abbrev pub confirmation : DestructiveConfirmation WritePlan
confirmation = record {
  plan_digest = record plan { target = record stick { device_id = "device-/dev/sdb" } };
  device_id = "/dev/sdb";
  capacity_bytes = 16_000;
  typed_phrase = "ERASE device-/dev/sdb 16000";
  issued_at = 1_000;
  expires_at = 61_000;
}
