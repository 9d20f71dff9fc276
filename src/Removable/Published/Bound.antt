-- ===== src/Removable/Published/Bound.antt =====
-- What `_validate_published_artifacts` of macloader/removable/writer.py establishes.
use libre_core_mac_loader.Prelude.{
  ◌≡◌, true, Option, some, List, arith, inl, inr, nat_eq, string_eq, option_eq, option_beq_iff,
}
use libre_core_mac_loader.Prelude.Text.{lower}
use libre_core_mac_loader.Removable.Outcome.{done, Outcome-cases}
use libre_core_mac_loader.Removable.Source.{Entry, MediaFileDigest, efi_payload_records}
use libre_core_mac_loader.Removable.Plan.{MediaBindings, bindings_beq_iff}
use libre_core_mac_loader.Removable.Published.Contracts.{
  BuildManifest, RecoveryState, verified, RecoveryLock, Digests, RawManifest, RecoveryPolicy,
  Published, target_beq_iff, state_beq, target_eq,
}
use libre_core_mac_loader.Removable.Published.Checks.{
  from_published_contracts, raw_manifest, check_manifest, Contracts, both_objects, check_contracts,
  check_policy,
}

-- The published EFI manifest is valid, is the bound one, and lists the payload on disk.
pub record IsManifestBound (d : Digests) (entries : List Entry) (b : MediaBindings) (p : Published)
    (raw : RawManifest) (manifest : BuildManifest) : Type 0 where
  pub published : raw_manifest p.manifest ≡ done raw
  pub contract : raw.contract ≡ some manifest
  pub report : raw.report ≡ some "VALID"
  pub digest : raw.digest ≡ b.efi_manifest_digest
  pub records : List MediaFileDigest
  pub payload : efi_payload_records entries ≡ done records
  pub output : manifest.output_digest ≡ d.records records

-- The published Recovery contracts are those of the binding.
pub record IsContractBound (d : Digests) (b : MediaBindings) (p : Published)
    (manifest : BuildManifest) (c : Contracts) : Type 0 where
  pub published : both_objects p.lock p.evidence ≡ done c
  pub signed : c.evidence.signed_chunklist ≡ true
  pub lock_digest : d.lock c.lock ≡ b.recovery_lock_digest
  pub evidence_lock : c.evidence.lock_digest ≡ b.recovery_lock_digest
  pub agree : from_published_contracts d manifest c.lock c.evidence ≡ done b

-- The lock is verified, and made under the policy and for the manifest.
pub record IsPolicyBound (d : Digests) (current : Option RecoveryPolicy) (raw : RawManifest)
    (manifest : BuildManifest) (lock : RecoveryLock) (policy : RecoveryPolicy) : Type 0 where
  pub policy_is : current ≡ some policy
  pub target : lock.target ≡ policy.target
  pub target_digest : lower lock.target_digest ≡ lower (d.target policy.target)
  pub source_policy : lower lock.source_policy_digest ≡ lower policy.digest
  pub policy_digest : lower lock.policy_digest ≡ lower policy.digest
  pub manifest_digest : lower lock.efi_manifest_digest ≡ lower raw.digest
  pub toolchain : lower lock.toolchain_digest ≡ lower manifest.toolchain_digest
  pub state : lock.state ≡ verified

pub check_manifest-IsManifestBound :
    (d : Digests) (entries : List Entry) (b : MediaBindings) (p : Published) (raw : RawManifest)
    (manifest : BuildManifest)
    → check_manifest d entries b p ≡ done (raw, manifest)
    → IsManifestBound d entries b p raw manifest
unfolding check_manifest
check_manifest-IsManifestBound d entries b p raw manifest h =
    elim (Outcome-cases (efi_payload_records entries)) [
      | inl (found, k) ↦
          let (read, contract, report, digest, output) = facts found k in
          record {
            published = read;
            contract = contract;
            report = report;
            digest = digest;
            records = found;
            payload = k;
            output = output;
          }
      | inr (inl (m, k)) ↦ absurd (ground arith)
      | inr (inr (m, k)) ↦ absurd (ground arith)
    ]
  where
    facts :
        (found : List MediaFileDigest)
        → efi_payload_records entries ≡ done found
        → (raw_manifest p.manifest ≡ done raw)
          × (raw.contract ≡ some manifest)
          × (raw.report ≡ some "VALID")
          × (raw.digest ≡ b.efi_manifest_digest)
          × (manifest.output_digest ≡ d.records found)
    facts found k = ground (
      arith,
      string_eq.beq_iff raw.digest b.efi_manifest_digest,
      option_beq_iff raw.report (some "VALID"),
      string_eq.beq_iff manifest.output_digest (d.records found),
    )

pub check_contracts-IsContractBound :
    (d : Digests) (b : MediaBindings) (p : Published) (manifest : BuildManifest) (c : Contracts)
    → check_contracts d b p manifest ≡ done c
    → IsContractBound d b p manifest c
unfolding check_contracts
check_contracts-IsContractBound d b p manifest c h =
    elim (Outcome-cases (from_published_contracts d manifest c.lock c.evidence)) [
      | inl (made, m) ↦ ground (
        arith,
        string_eq.beq_iff (d.lock c.lock) b.recovery_lock_digest,
        string_eq.beq_iff c.evidence.lock_digest b.recovery_lock_digest,
        bindings_beq_iff b made,
      )
      | inr (inl (_, m)) ↦ absurd (ground arith)
      | inr (inr (_, m)) ↦ absurd (ground arith)
    ]

pub check_policy-IsPolicyBound :
    (d : Digests) (policy : RecoveryPolicy) (raw : RawManifest) (manifest : BuildManifest)
    (lock : RecoveryLock)
    → check_policy d (some policy) raw manifest lock ≡ done tt
    → IsPolicyBound d (some policy) raw manifest lock policy
unfolding check_policy
check_policy-IsPolicyBound d policy raw manifest lock h = ground (
  arith,
  string_eq.beq_iff (lower lock.policy_digest) (lower policy.digest),
  target_beq_iff lock.target policy.target,
  string_eq.beq_iff (lower lock.source_policy_digest) (lower policy.digest),
  string_eq.beq_iff (lower lock.target_digest) (lower (d.target policy.target)),
  string_eq.beq_iff (lower lock.efi_manifest_digest) (lower raw.digest),
  string_eq.beq_iff (lower lock.toolchain_digest) (lower manifest.toolchain_digest),
  state_is lock.state,
)
  where
    state_is : (s : RecoveryState) → state_beq s ≡ true → s ≡ verified
    state_is s e = ground arith
