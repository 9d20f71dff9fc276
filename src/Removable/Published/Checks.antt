-- ===== src/Removable/Published/Checks.antt =====
-- MediaBindings.from_published_contracts and _validate_published_artifacts of
-- macloader/removable/writer.py.
use libre_core_mac_loader.Prelude.{
  ℕ, String, ◌<>◌, Bool, true, false, not, ◌&&◌, ◌||◌, Option, none, some, List, [], ◌∷◌, ◌==◌,
  nat_eq, string_eq, option_eq, if◌then◌else◌,
}
use libre_core_mac_loader.Prelude.Text.{lower}
use libre_core_mac_loader.Removable.Outcome.{Outcome, done, unsafe, raised, ◌>>=◌, ◌>>◌, refuse_if}
use libre_core_mac_loader.Removable.Source.{
  Node, file, directory, special, symlink, to_file, to_directory, to_nothing, Entry, at, is_file,
  is_symlink, efi_payload_records,
}
use libre_core_mac_loader.Removable.Plan.{MediaBindings, bindings_eq}
use libre_core_mac_loader.Removable.Published.Contracts.{
  BuildManifest, RecoveryLock, RecoveryEvidence, Digests, Document, RawManifest, RawState,
  RecoveryPolicy, Published, state_beq, target_eq, unreadable, not_object, object,
}

-- `Path.exists()`, which follows a link.
abbrev pub exists : Option Node → Bool
exists none = false
exists (some (symlink to_nothing)) = false
exists (some (symlink to_file)) = true
exists (some (symlink to_directory)) = true
exists (some (file n h)) = true
exists (some directory) = true
exists (some special) = true

-- A regular file that is no link.
abbrev pub is_regular : Option Node → Bool
is_regular n = not (is_symlink n || not (is_file n))

-- The size and the digest of a regular file.
abbrev pub file_size : Option Node → ℕ
file_size (some (file n h)) = n
file_size _ = 0

abbrev pub file_sha256 : Option Node → String
file_sha256 (some (file n h)) = h
file_sha256 _ = ""

-- `from_published_contracts`
unfoldable pub from_published_contracts :
    Digests → BuildManifest → RecoveryLock → RecoveryEvidence → Outcome MediaBindings
from_published_contracts d manifest lock evidence =
    if not (lower evidence.lock_digest == lower (d.lock lock))
    then raised "Recovery evidence is bound to a different lock identity"
    else done (record {
      efi_manifest_digest = d.manifest manifest;
      recovery_lock_digest = d.lock lock;
      validation_digest = d.validation (d.manifest manifest) manifest.validation_report;
      configuration_digest = lock.configuration_digest;
      toolchain_digest = manifest.toolchain_digest;
      evidence_digest = d.evidence evidence;
    })

-- `except ValueError: raise UnsafeRemovableTarget(text)`
abbrev pub or_refuse {ℓ} : {A : Type ℓ} → Outcome A → String → Outcome A
or_refuse (done a) text = done a
or_refuse (unsafe m) text = unsafe m
or_refuse (raised m) text = unsafe text

abbrev pub present {ℓ} : {A : Type ℓ} → Option A → String → Outcome A
present (some a) text = done a
present none text = unsafe text

unfoldable pub raw_manifest : Document RawManifest → Outcome RawManifest
raw_manifest unreadable = unsafe "EFI manifest is unreadable"
raw_manifest not_object = unsafe "EFI manifest is invalid or does not match the media binding"
raw_manifest (object text m) = present m "EFI manifest is unreadable"

-- The first part: the EFI manifest against the binding and the payload on disk.
unfoldable pub check_manifest :
    Digests → List Entry → MediaBindings → Published → Outcome (RawManifest × BuildManifest)
check_manifest d entries bindings p = do
  raw ← raw_manifest p.manifest
  refuse_if (not (raw.report == some "VALID") || not (raw.digest == bindings.efi_manifest_digest))
      "EFI manifest is invalid or does not match the media binding"
  manifest ← present raw.contract "EFI manifest is not a valid published contract"
  records ← efi_payload_records entries
  refuse_if (not (manifest.output_digest == d.records records))
      "EFI payload contents do not match the published manifest"
  done (raw, manifest)

-- The two Recovery documents, with their texts.
pub record Contracts : Type 0 where
  pub lock_text : String
  pub evidence_text : String
  pub lock : RecoveryLock
  pub evidence : RecoveryEvidence

unfoldable pub both_objects : Document RecoveryLock → Document RecoveryEvidence → Outcome Contracts
both_objects unreadable _ = unsafe "Recovery lock or evidence is unreadable"
both_objects not_object unreadable = unsafe "Recovery lock or evidence is unreadable"
both_objects not_object not_object = unsafe "Recovery lock and evidence must be objects"
both_objects not_object (object t e) = unsafe "Recovery lock and evidence must be objects"
both_objects (object s l) unreadable = unsafe "Recovery lock or evidence is unreadable"
both_objects (object s l) not_object = unsafe "Recovery lock and evidence must be objects"
both_objects (object s l) (object t e) = do
  lock ← present l "Recovery lock or evidence is not a valid published contract"
  evidence ← present e "Recovery lock or evidence is not a valid published contract"
  done (record { lock_text = s; evidence_text = t; lock = lock; evidence = evidence })

-- The first half of the second part: lock and evidence against the binding.
unfoldable pub check_contracts :
    Digests → MediaBindings → Published → BuildManifest → Outcome Contracts
check_contracts d bindings p manifest = do
  c ← both_objects p.lock p.evidence
  refuse_if
      (not (d.lock c.lock == bindings.recovery_lock_digest)
        || not (c.evidence.lock_digest == bindings.recovery_lock_digest)
        || not c.evidence.signed_chunklist)
      "Recovery lock/evidence identity or authenticity does not match the media binding"
  expected ←
      or_refuse (from_published_contracts d manifest c.lock c.evidence)
        "Published Recovery evidence is not bound to the current lock"
  refuse_if (not (bindings == expected))
      "EFI, Recovery, validation, configuration, toolchain, and evidence bindings disagree"
  done c

-- Its other half: the lock against the policy and the manifest.
unfoldable pub check_policy :
    Digests
    → Option RecoveryPolicy
    → RawManifest
    → BuildManifest
    → RecoveryLock
    → Outcome (Unit {0})
check_policy d current raw manifest lock = do
  policy ← present current "Trusted Recovery policy is unavailable at the media boundary"
  refuse_if
      (not (lower lock.source_policy_digest == lower policy.digest)
        || not (lock.target == policy.target)
        || not (lower lock.target_digest == lower (d.target policy.target))
        || not (lower lock.policy_digest == lower policy.digest)
        || not (lower lock.efi_manifest_digest == lower raw.digest)
        || not (lower lock.toolchain_digest == lower manifest.toolchain_digest))
      "Published Recovery lock is not bound to the current policy and EFI manifest"
  refuse_if (not (state_beq lock.state)) "Recovery lock is not in the verified state"

-- The second part.
unfoldable pub check_lock :
    Digests → MediaBindings → Published → RawManifest → BuildManifest → Outcome Contracts
check_lock d bindings p raw manifest = do
  c ← check_contracts d bindings p manifest
  check_policy d p.policy raw manifest c.lock
  done c

abbrev pub recovery_file : String → List Entry → Option Node
recovery_file name entries = at ("Recovery" ∷ name ∷ []) entries

abbrev pub is_none : Option ℕ → Bool
is_none none = true
is_none (some n) = false

-- The third part: the image and the chunklist against the lock, the evidence and the verifier.
unfoldable pub check_payload : List Entry → Published → Contracts → Outcome (Unit {0})
check_payload entries p c = do
  refuse_if
      (not (lower c.evidence.image_digest == lower c.lock.image_sha256)
        || not (lower c.evidence.chunklist_digest == lower c.lock.chunklist_sha256)
        || is_none c.lock.image_size_bytes
        || is_none c.lock.chunklist_size_bytes)
      "Recovery evidence does not match the locked asset identities"
  let image = recovery_file ("Recovery-" <> c.lock.target.build <> ".dmg") entries
  let chunklist = recovery_file ("Recovery-" <> c.lock.target.build <> ".chunklist") entries
  refuse_if (not (is_regular image) || not (is_regular chunklist))
      "Published Recovery image and chunklist are missing or unsafe"
  refuse_if
      (not (some (file_size image) == c.lock.image_size_bytes)
        || not (file_size image == c.evidence.image_size_bytes)
        || not (some (file_size chunklist) == c.lock.chunklist_size_bytes)
        || not (lower (file_sha256 image) == lower c.lock.image_sha256)
        || not (lower (file_sha256 chunklist) == lower c.lock.chunklist_sha256))
      "Published Recovery payload bytes do not match verified evidence"
  verified_part ←
      present p.verify_chunklist "Published Recovery payload failed signed chunklist verification"
  refuse_if
      (not (verified_part.0 == c.evidence.verified_chunks)
        || not (verified_part.1 == c.evidence.image_size_bytes))
      "Published Recovery evidence does not match signed chunklist verification"

unfoldable pub raw_state : Document RawState → Outcome RawState
raw_state unreadable = unsafe "Authoritative Recovery state is unreadable"
raw_state not_object = unsafe "Recovery compatibility files do not match authoritative state"
raw_state (object text s) =
    present s "Recovery compatibility files do not match authoritative state"

-- The last part: the authoritative state file holds the same lock and evidence.
unfoldable pub check_state : List Entry → Published → Contracts → Outcome (Unit {0})
check_state entries p c = do
  refuse_if (not (is_regular (recovery_file "recovery.state.json" entries)))
      "Authoritative Recovery state is missing"
  state ← raw_state p.state
  refuse_if
      (not (state.schema_version == some "1")
        || not (state.lock == some c.lock_text)
        || not (state.evidence == some c.evidence_text))
      "Recovery compatibility files do not match authoritative state"

-- The Recovery parts, once the manifest is checked.
unfoldable pub check_recovery :
    Digests
    → Bool
    → List Entry
    → MediaBindings
    → Published
    → RawManifest
    → BuildManifest
    → Outcome (Unit {0})
check_recovery d require_all entries bindings p raw manifest =
    let lock_file = recovery_file "recovery.lock.json" entries in
    let evidence_file = recovery_file "recovery.evidence.json" entries in
    if not require_all && not (exists lock_file) && not (exists evidence_file) then done tt else do
      refuse_if (not (is_regular lock_file) || not (is_regular evidence_file))
          "Recovery lock and evidence must be present as regular files"
      c ← check_lock d bindings p raw manifest
      check_payload entries p c
      if require_all then check_state entries p c else done tt

-- `_validate_published_artifacts`
unfoldable pub validate_published_artifacts :
    Digests → Bool → List Entry → MediaBindings → Published → Outcome (Unit {0})
unfolding at
validate_published_artifacts d require_all entries bindings p =
    let manifest_file = at ("manifest.json" ∷ []) entries in
    if not (exists manifest_file) && not require_all then done tt else do
      refuse_if (not (is_regular manifest_file))
          "Qualified media source must contain a regular EFI manifest"
      (raw, manifest) ← check_manifest d entries bindings p
      check_recovery d require_all entries bindings p raw manifest
