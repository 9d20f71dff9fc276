-- ===== src/Removable/Published/Payload.antt =====
-- What `_validate_published_artifacts` of macloader/removable/writer.py establishes of the Recovery
-- files on disk.
use libre_core_mac_loader.Prelude.{
  ℕ, ◌<>◌, ◌≡◌, true, some, List, arith, Option-cases, inl, inr, nat_eq, string_eq, option_eq,
  option_beq_iff,
}
use libre_core_mac_loader.Prelude.Text.{lower}
use libre_core_mac_loader.Removable.Outcome.{done, Outcome-cases}
use libre_core_mac_loader.Removable.Source.{Entry}
use libre_core_mac_loader.Removable.Published.Contracts.{RawState, Published, target_eq}
use libre_core_mac_loader.Removable.Published.Checks.{
  file_size, file_sha256, is_regular, Contracts, recovery_file, check_payload, raw_state,
  check_state,
}

-- The Recovery image and chunklist on disk are those of the lock and of the evidence, and the signed
-- chunklist accounts for the whole image.
pub record IsPayloadBound (entries : List Entry) (p : Published) (c : Contracts) : Type 0 where
  pub image_regular :
      is_regular (recovery_file ("Recovery-" <> c.lock.target.build <> ".dmg") entries) ≡ true
  pub chunklist_regular :
      is_regular (recovery_file ("Recovery-" <> c.lock.target.build <> ".chunklist") entries) ≡ true
  pub image_size_evidence :
      file_size (recovery_file ("Recovery-" <> c.lock.target.build <> ".dmg") entries)
      ≡ c.evidence.image_size_bytes
  pub chunklist_evidence : lower c.evidence.chunklist_digest ≡ lower c.lock.chunklist_sha256
  pub image_size :
      some (file_size (recovery_file ("Recovery-" <> c.lock.target.build <> ".dmg") entries))
      ≡ c.lock.image_size_bytes
  pub image_sha256 :
      lower (file_sha256 (recovery_file ("Recovery-" <> c.lock.target.build <> ".dmg") entries))
      ≡ lower c.lock.image_sha256
  pub image_evidence : lower c.evidence.image_digest ≡ lower c.lock.image_sha256
  pub chunklist_size :
      some (file_size (recovery_file ("Recovery-" <> c.lock.target.build <> ".chunklist") entries))
      ≡ c.lock.chunklist_size_bytes
  pub chunklist_sha256 :
      lower
        (file_sha256 (recovery_file ("Recovery-" <> c.lock.target.build <> ".chunklist") entries))
      ≡ lower c.lock.chunklist_sha256
  pub signed : p.verify_chunklist ≡ some (c.evidence.verified_chunks, c.evidence.image_size_bytes)

pub check_payload-IsPayloadBound :
    (entries : List Entry) (p : Published) (c : Contracts)
    → check_payload entries p c ≡ done tt
    → IsPayloadBound entries p c
unfolding check_payload
check_payload-IsPayloadBound entries p c h = elim (Option-cases p.verify_chunklist) [
  | inl k ↦ absurd (ground arith)
  | inr (part, k) ↦ elim (Option-cases c.lock.image_size_bytes) [
    | inl m ↦ absurd (ground arith)
    | inr (size, m) ↦ elim (Option-cases c.lock.chunklist_size_bytes) [
      | inl n ↦ absurd (ground arith)
      | inr (chunklist_size, n) ↦ facts part size chunklist_size k m n
    ]
  ]
]
  where
    facts :
        (part : ℕ × ℕ) (size chunklist_size : ℕ)
        → p.verify_chunklist ≡ some part
        → c.lock.image_size_bytes ≡ some size
        → c.lock.chunklist_size_bytes ≡ some chunklist_size
        → IsPayloadBound entries p c
    facts part size chunklist_size k m n = ground (
      arith,
      nat_eq.beq_iff part.0 c.evidence.verified_chunks,
      nat_eq.beq_iff part.1 c.evidence.image_size_bytes,
      option_beq_iff
          (some (file_size (recovery_file ("Recovery-" <> c.lock.target.build <> ".dmg") entries)))
          c.lock.image_size_bytes,
      option_beq_iff
          (some (
            file_size (recovery_file ("Recovery-" <> c.lock.target.build <> ".chunklist") entries)))
          c.lock.chunklist_size_bytes,
      string_eq.beq_iff
          (lower
            (file_sha256 (recovery_file ("Recovery-" <> c.lock.target.build <> ".dmg") entries)))
          (lower c.lock.image_sha256),
      string_eq.beq_iff
          (lower (
            file_sha256
              (recovery_file ("Recovery-" <> c.lock.target.build <> ".chunklist") entries)))
          (lower c.lock.chunklist_sha256),
      string_eq.beq_iff (lower c.evidence.image_digest) (lower c.lock.image_sha256),
      string_eq.beq_iff (lower c.evidence.chunklist_digest) (lower c.lock.chunklist_sha256),
      nat_eq.beq_iff
          (file_size (recovery_file ("Recovery-" <> c.lock.target.build <> ".dmg") entries))
          c.evidence.image_size_bytes,
    )

-- The authoritative state holds the texts of the lock and of the evidence.
pub record IsStateBound (entries : List Entry) (p : Published) (c : Contracts) : Type 0 where
  pub regular : is_regular (recovery_file "recovery.state.json" entries) ≡ true
  pub state : RawState
  pub read : raw_state p.state ≡ done state
  pub schema_version : state.schema_version ≡ some "1"
  pub lock : state.lock ≡ some c.lock_text
  pub evidence : state.evidence ≡ some c.evidence_text

pub check_state-IsStateBound :
    (entries : List Entry) (p : Published) (c : Contracts)
    → check_state entries p c ≡ done tt
    → IsStateBound entries p c
unfolding check_state
check_state-IsStateBound entries p c h = elim (Outcome-cases (raw_state p.state)) [
  | inl (state, k) ↦
      let (regular, one, two, three) = facts state k in
      record {
        regular = regular;
        state = state;
        read = k;
        schema_version = one;
        lock = two;
        evidence = three;
      }
  | inr (inl (_, m)) ↦ absurd (ground arith)
  | inr (inr (_, m)) ↦ absurd (ground arith)
]
  where
    facts :
        (state : RawState)
        → raw_state p.state ≡ done state
        → (is_regular (recovery_file "recovery.state.json" entries) ≡ true)
          × (state.schema_version ≡ some "1")
          × (state.lock ≡ some c.lock_text)
          × (state.evidence ≡ some c.evidence_text)
    facts state k = ground (
      arith,
      option_beq_iff state.schema_version (some "1"),
      option_beq_iff state.lock (some c.lock_text),
      option_beq_iff state.evidence (some c.evidence_text),
    )
