-- ===== src/Removable/Plan.antt =====
-- MediaBindings, WritePlan and DestructiveConfirmation of macloader/removable/writer.py. Times and
-- lifetimes are whole milliseconds.
pub mod Confirmation
use libre_core_mac_loader.Prelude.{
  ℕ, ◌+◌, ◌*◌, String, ◌<>◌, ◌≡◌, ◌↔◌, Bool, true, false, not, ◌&&◌, ◌||◌, Option, none, some, List,
  [], ◌∷◌, arith, ltb, leb, ◌==◌, nat_eq, string_eq, contains, Eq, length, if◌then◌else◌,
}
use libre_core_mac_loader.Prelude.Text.{lower, codes, decimal}
use libre_core_mac_loader.Removable.Outcome.{Outcome, done, unsafe, raised, ◌>>=◌, ◌>>◌, refuse_if}
use libre_core_mac_loader.Removable.Device.{RemovableDevice, public_device_ref}
use libre_core_mac_loader.Removable.Source.{MediaFileDigest}

-- `character in "0123456789abcdef"`
is_hex : ℕ → Bool
is_hex c = (leb b'0' c && leb c b'9') || (leb b'a' c && leb c b'f')

all_hex : List ℕ → Bool
unfolding is_hex
all_hex [] = true
all_hex (c ∷ rest) = is_hex c && all_hex rest

-- `_is_sha256`
unfoldable pub is_sha256 : String → Bool
unfolding all_hex lower
is_sha256 value = length (codes value) == 64 && all_hex (codes (lower value))

pub record MediaBindings : Type 0 where
  pub efi_manifest_digest : String
  pub recovery_lock_digest : String
  pub validation_digest : String
  pub configuration_digest : String
  pub toolchain_digest : String
  pub evidence_digest : String

unfoldable pub complete : MediaBindings → Bool
complete b =
    is_sha256 b.efi_manifest_digest
    && is_sha256 b.recovery_lock_digest
    && is_sha256 b.validation_digest
    && is_sha256 b.configuration_digest
    && is_sha256 b.toolchain_digest
    && is_sha256 b.evidence_digest

abbrev bindings_beq : MediaBindings → MediaBindings → Bool
bindings_beq a b =
    a.efi_manifest_digest == b.efi_manifest_digest
    && a.recovery_lock_digest == b.recovery_lock_digest
    && a.validation_digest == b.validation_digest
    && a.configuration_digest == b.configuration_digest
    && a.toolchain_digest == b.toolchain_digest
    && a.evidence_digest == b.evidence_digest

pub bindings_beq_iff : (a b : MediaBindings) → (bindings_beq a b ≡ true) ↔ (a ≡ b)
bindings_beq_iff a b = ground (
  arith,
  string_eq.beq_iff a.efi_manifest_digest b.efi_manifest_digest,
  string_eq.beq_iff a.recovery_lock_digest b.recovery_lock_digest,
  string_eq.beq_iff a.validation_digest b.validation_digest,
  string_eq.beq_iff a.configuration_digest b.configuration_digest,
  string_eq.beq_iff a.toolchain_digest b.toolchain_digest,
  string_eq.beq_iff a.evidence_digest b.evidence_digest,
)

instance abbrev pub bindings_eq : Eq MediaBindings
bindings_eq = record { beq = bindings_beq; beq_iff = bindings_beq_iff }

-- The default of the `bindings` fields and arguments.
abbrev pub no_bindings : MediaBindings
no_bindings = record {
  efi_manifest_digest = "";
  recovery_lock_digest = "";
  validation_digest = "";
  configuration_digest = "";
  toolchain_digest = "";
  evidence_digest = "";
}

pub record WritePlan : Type 0 where
  pub target : RemovableDevice
  pub required_bytes : ℕ
  pub partitions : List String
  pub destroys_data : Bool
  pub expected_files : List MediaFileDigest
  pub bindings : MediaBindings
  pub source_validated : Bool

-- The default of the `partitions` field.
abbrev pub default_partitions : List String
default_partitions = "GPT" ∷ "EFI" ∷ "Recovery" ∷ []

-- Only the length of a lifetime of 900 seconds matters here.
abbrev pub max_lifetime : ℕ
max_lifetime = 900_000

-- A confirmation, with the digest of a plan in `D`.
pub record DestructiveConfirmation (D : Type 0) : Type 0 where
  pub plan_digest : D
  pub device_id : String
  pub capacity_bytes : ℕ
  pub typed_phrase : String
  pub issued_at : ℕ
  pub expires_at : ℕ

module _ (sha256 : String → String) where
  -- The payload of `plan_digest`: the plan, with the public reference in place of the device id.
  unfoldable pub payload_of : WritePlan → WritePlan
  payload_of plan = record plan {
    target = record plan.target { device_id = public_device_ref sha256 plan.target };
  }

  -- The phrase that the operator types.
  unfoldable pub erase_phrase : WritePlan → String
  erase_phrase plan =
      "ERASE " <> public_device_ref sha256 plan.target <> " " <> decimal plan.target.capacity_bytes

-- `hash` is the SHA-256 of the JSON text of what `plan_digest` lists.
module _ (sha256 : String → String) {D : Type 0} ⦃e : Eq D⦄ (hash : WritePlan → D) where
  unfoldable pub plan_digest : WritePlan → D
  unfolding payload_of
  plan_digest plan = hash (payload_of sha256 plan)

  -- A lifetime out of range is a ValueError. Times are whole milliseconds, where the code has floats.
  unfoldable pub issue : WritePlan → ℕ → ℕ → Outcome (DestructiveConfirmation D)
  issue plan now ttl =
      if leb ttl 0 || ltb max_lifetime ttl
      then raised "confirmation lifetime must be between 0 and 900 seconds"
      else done (record {
        plan_digest = plan_digest plan;
        device_id = plan.target.device_id;
        capacity_bytes = plan.target.capacity_bytes;
        typed_phrase = erase_phrase sha256 plan;
        issued_at = now;
        expires_at = now + ttl;
      })

  unfoldable pub valid_for : DestructiveConfirmation D → WritePlan → ℕ → Bool
  valid_for c plan current =
      c.plan_digest == plan_digest plan
      && c.device_id == plan.target.device_id
      && c.capacity_bytes == plan.target.capacity_bytes
      && c.typed_phrase == erase_phrase sha256 plan
      && (leb c.issued_at current && ltb current c.expires_at)
