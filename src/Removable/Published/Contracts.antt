-- ===== src/Removable/Published/Contracts.antt =====
-- BuildManifest of macloader/domain/contracts.py and the contracts of macloader/domain/recovery.py,
-- with the fields that macloader/removable/writer.py reads, and what the writer gets from the JSON
-- reader, the Recovery policy and the signed-chunklist verifier, which are arguments.
use libre_core_mac_loader.Prelude.{
  ℕ, String, ◌≡◌, ◌↔◌, Bool, true, false, ◌&&◌, Option, List, arith, ◌==◌, nat_eq, string_eq,
  option_eq, Eq,
}
use libre_core_mac_loader.Removable.Outcome.{}
use libre_core_mac_loader.Removable.Source.{MediaFileDigest}
use libre_core_mac_loader.Removable.Plan.{bindings_eq}

-- BuildManifest
pub record BuildManifest : Type 0 where
  pub validation_report : String
  pub toolchain_digest : String
  pub output_digest : String

-- RecoveryTarget
pub record RecoveryTarget : Type 0 where
  pub product_id : String
  pub product_name : String
  pub version : String
  pub build : String

-- RecoveryState
pub data RecoveryState : Type 0 where
  unknown discovered locked acquired verified unavailable ambiguous failed : RecoveryState

-- RecoveryLock, with its product and binding.
pub record RecoveryLock : Type 0 where
  pub state : RecoveryState
  pub target : RecoveryTarget
  pub image_sha256 : String
  pub image_size_bytes : Option ℕ
  pub chunklist_sha256 : String
  pub chunklist_size_bytes : Option ℕ
  pub target_digest : String
  pub policy_digest : String
  pub efi_manifest_digest : String
  pub toolchain_digest : String
  pub configuration_digest : String
  pub source_policy_digest : String

-- RecoveryEvidence
pub record RecoveryEvidence : Type 0 where
  pub lock_digest : String
  pub image_digest : String
  pub chunklist_digest : String
  pub signed_chunklist : Bool
  pub verified_chunks : ℕ
  pub image_size_bytes : ℕ

-- The canonical digests of the contracts.
pub record Digests : Type 0 where
  pub manifest : BuildManifest → String
  pub lock : RecoveryLock → String
  pub evidence : RecoveryEvidence → String
  pub validation : (manifest_digest validation_report : String) → String
  pub records : List MediaFileDigest → String
  pub target : RecoveryTarget → String

-- A JSON file: not to be read as JSON, not an object, or an object with its canonical text and what
-- the contract's constructor makes of it (`none` for an error).
pub data Document {ℓ} (A : Type ℓ) : Type ℓ where
  unreadable not_object : Document A
  object : (text : String) → Option A → Document A

-- The raw manifest: `validation_report` and the canonical digest of the whole object.
pub record RawManifest : Type 0 where
  pub report : Option String
  pub digest : String
  pub contract : Option BuildManifest

pub record RawState : Type 0 where
  pub schema_version : Option String
  pub lock : Option String
  pub evidence : Option String

pub record RecoveryPolicy : Type 0 where
  pub digest : String
  pub target : RecoveryTarget

-- What the other parts of the program and the file system answer at the check.
pub record Published : Type 0 where
  pub manifest : Document RawManifest
  pub lock : Document RecoveryLock
  pub evidence : Document RecoveryEvidence
  pub state : Document RawState
  pub policy : Option RecoveryPolicy
  pub verify_chunklist : Option (ℕ × ℕ)

abbrev pub state_beq : RecoveryState → Bool
state_beq verified = true
state_beq _ = false

abbrev pub target_beq : RecoveryTarget → RecoveryTarget → Bool
target_beq a b =
    a.product_id == b.product_id
    && a.product_name == b.product_name
    && a.version == b.version
    && a.build == b.build

pub target_beq_iff : (a b : RecoveryTarget) → (target_beq a b ≡ true) ↔ (a ≡ b)
target_beq_iff a b = ground (
  arith,
  string_eq.beq_iff a.product_id b.product_id,
  string_eq.beq_iff a.product_name b.product_name,
  string_eq.beq_iff a.version b.version,
  string_eq.beq_iff a.build b.build,
)

instance abbrev pub target_eq : Eq RecoveryTarget
target_eq = record { beq = target_beq; beq_iff = target_beq_iff }
