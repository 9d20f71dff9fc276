-- ===== src/Removable/Published/Accepted.antt =====
-- What `_validate_published_artifacts` of macloader/removable/writer.py accepts.
use libre_core_mac_loader.Prelude.{
  ◌≡◌, true, Option, none, some, List, [], ◌∷◌, arith, nat_eq, string_eq, option_eq, inl, inr,
}
use libre_core_mac_loader.Removable.Outcome.{done, Outcome-cases}
use libre_core_mac_loader.Removable.Source.{Entry, at}
use libre_core_mac_loader.Removable.Plan.{MediaBindings}
use libre_core_mac_loader.Removable.Published.Contracts.{
  BuildManifest, Digests, RawManifest, RecoveryPolicy, Published,
}
use libre_core_mac_loader.Removable.Published.Checks.{
  check_manifest, Contracts, check_contracts, check_policy, check_lock, check_payload, check_state,
  check_recovery, is_regular, recovery_file, validate_published_artifacts,
}
use libre_core_mac_loader.Removable.Published.Bound.{
  IsManifestBound, IsContractBound, IsPolicyBound, check_manifest-IsManifestBound,
  check_contracts-IsContractBound, check_policy-IsPolicyBound,
}
use libre_core_mac_loader.Removable.Published.Payload.{
  IsPayloadBound, IsStateBound, check_payload-IsPayloadBound, check_state-IsStateBound,
}

-- Every published artifact is there, and they agree with the binding and with each other.
pub record IsReconciled (d : Digests) (entries : List Entry) (b : MediaBindings) (p : Published)
    : Type 0 where
  pub manifest_file : is_regular (at ("manifest.json" ∷ []) entries) ≡ true
  pub lock_file : is_regular (recovery_file "recovery.lock.json" entries) ≡ true
  pub evidence_file : is_regular (recovery_file "recovery.evidence.json" entries) ≡ true
  pub raw : RawManifest
  pub manifest : BuildManifest
  pub contracts : Contracts
  pub policy : RecoveryPolicy
  pub manifest_bound : IsManifestBound d entries b p raw manifest
  pub contracts_bound : IsContractBound d b p manifest contracts
  pub policy_bound : IsPolicyBound d p.policy raw manifest contracts.lock policy
  pub payload_bound : IsPayloadBound entries p contracts
  pub state_bound : IsStateBound entries p contracts

check_lock-done :
    (d : Digests) (b : MediaBindings) (p : Published) (raw : RawManifest) (m : BuildManifest)
    (c : Contracts)
    → check_lock d b p raw m ≡ done c
    → (check_contracts d b p m ≡ done c) × (check_policy d p.policy raw m c.lock ≡ done tt)
unfolding check_lock
check_lock-done d b p raw m c h = ground arith

check_policy-some :
    (d : Digests) (current : Option RecoveryPolicy) (raw : RawManifest) (m : BuildManifest)
    (c : Contracts)
    → check_policy d current raw m c.lock ≡ done tt
    → (policy : RecoveryPolicy) × IsPolicyBound d current raw m c.lock policy
unfolding check_policy
check_policy-some d none raw m c h = absurd (ground arith)
check_policy-some d (some policy) raw m c h =
    (policy, check_policy-IsPolicyBound d policy raw m c.lock h)

check_recovery-done :
    (d : Digests) (entries : List Entry) (b : MediaBindings) (p : Published) (raw : RawManifest)
    (m : BuildManifest)
    → check_recovery d true entries b p raw m ≡ done tt
    → (c : Contracts) × (check_lock d b p raw m ≡ done c)
      × (is_regular (recovery_file "recovery.lock.json" entries) ≡ true)
      × (is_regular (recovery_file "recovery.evidence.json" entries) ≡ true)
      × (check_payload entries p c ≡ done tt)
      × (check_state entries p c ≡ done tt)
unfolding check_recovery
check_recovery-done d entries b p raw m h = elim (Outcome-cases (check_lock d b p raw m)) [
  | inl (c, k) ↦ let (lock, evidence, paid, kept) = facts c k in (c, k, lock, evidence, paid, kept)
  | inr (inl (_, k)) ↦ absurd (ground arith)
  | inr (inr (_, k)) ↦ absurd (ground arith)
]
  where
    facts :
        (c : Contracts)
        → check_lock d b p raw m ≡ done c
        → (is_regular (recovery_file "recovery.lock.json" entries) ≡ true)
          × (is_regular (recovery_file "recovery.evidence.json" entries) ≡ true)
          × (check_payload entries p c ≡ done tt)
          × (check_state entries p c ≡ done tt)
    facts c k = ground arith

validate-done :
    (d : Digests) (entries : List Entry) (b : MediaBindings) (p : Published)
    → validate_published_artifacts d true entries b p ≡ done tt
    → (is_regular (at ("manifest.json" ∷ []) entries) ≡ true)
      × (raw : RawManifest) × (m : BuildManifest) × (check_manifest d entries b p ≡ done (raw, m))
      × (check_recovery d true entries b p raw m ≡ done tt)
unfolding validate_published_artifacts
validate-done d entries b p h = elim (Outcome-cases (check_manifest d entries b p)) [
  | inl ((raw, m), k) ↦ let (regular, rest) = facts raw m k in (regular, raw, m, k, rest)
  | inr (inl (_, k)) ↦ absurd (ground arith)
  | inr (inr (_, k)) ↦ absurd (ground arith)
]
  where
    facts :
        (raw : RawManifest) (m : BuildManifest)
        → check_manifest d entries b p ≡ done (raw, m)
        → (is_regular (at ("manifest.json" ∷ []) entries) ≡ true)
          × (check_recovery d true entries b p raw m ≡ done tt)
    facts raw m k = ground arith

-- Where all published artifacts are required, the check passes only if the EFI manifest, the
-- Recovery lock, evidence, image, chunklist and state are all regular files that are no links, the
-- trusted policy is there, and they all agree with the binding of the plan and with each other.
pub validate_published_artifacts-IsReconciled :
    (d : Digests) (entries : List Entry) (b : MediaBindings) (p : Published)
    → validate_published_artifacts d true entries b p ≡ done tt
    → IsReconciled d entries b p
validate_published_artifacts-IsReconciled d entries b p h =
    let (regular, raw, m, hm, hr) = validate-done d entries b p h in
    let (c, hl, lock, evidence, hp, hs) = check_recovery-done d entries b p raw m hr in
    let (hc, hq) = check_lock-done d b p raw m c hl in
    let (policy, bound) = check_policy-some d p.policy raw m c hq in
    record {
      manifest_file = regular;
      lock_file = lock;
      evidence_file = evidence;
      raw = raw;
      manifest = m;
      contracts = c;
      policy = policy;
      manifest_bound = check_manifest-IsManifestBound d entries b p raw m hm;
      contracts_bound = check_contracts-IsContractBound d b p m c hc;
      policy_bound = bound;
      payload_bound = check_payload-IsPayloadBound entries p c hp;
      state_bound = check_state-IsStateBound entries p c hs;
    }
