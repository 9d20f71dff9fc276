-- ===== src/Removable/Writer/Safety.antt =====
-- When a write reaches the medium, and what it leaves behind.
use libre_core_mac_loader.Prelude.{
  String, ◌≡◌, refl, ap, ◌∙◌, ◌≢◌, inl, inr, Bool, true, false, some, List, [], ◌∷◌, arith, ◌==◌,
  Eq, list_eq, list_beq_iff, bool_eq, ◌⊎◌, ◌&&◌, not, Bool-cases, string_eq,
}
use libre_core_mac_loader.Removable.Outcome.{Outcome, done, unsafe, raised, Outcome-cases}
use libre_core_mac_loader.Removable.Device.{recheck_device}
use libre_core_mac_loader.Removable.Source.{
  Entry, MediaFileDigest, file_eq, source_manifest, copy_no_follow, at, is_dir, is_file, is_symlink,
  below,
}
use libre_core_mac_loader.Removable.Plan.{
  complete, WritePlan, DestructiveConfirmation, plan_digest, valid_for,
}
use libre_core_mac_loader.Removable.Published.Contracts.{Digests}
use libre_core_mac_loader.Removable.Published.Checks.{validate_published_artifacts}
use libre_core_mac_loader.Removable.Writer.Source.{
  Event, written, read_back, invalidated, Writer, Surroundings, validate_source,
}
use libre_core_mac_loader.Removable.Writer.Steps.{
  Adapters, no_serial, prepare_source, prepare_target, prepare, snapshot, run, execute, write,
  require_files, has_recovery_file,
}

abbrev pub HasNoWrite : List Event → Type 0
HasNoWrite [] = Unit
HasNoWrite (written p s ∷ rest) = ⊥
HasNoWrite (read_back p s ∷ rest) = HasNoWrite rest
HasNoWrite (invalidated p r ∷ rest) = HasNoWrite rest

require_files-done :
    (m : Outcome (List MediaFileDigest)) (expected : List MediaFileDigest) (text : String)
    → require_files m expected text ≡ done tt
    → m ≡ done expected
unfolding require_files
require_files-done (done files) expected text h =
    ap (λ (f : List MediaFileDigest). done f) ((list_beq_iff files expected).0 (ground arith))
require_files-done (unsafe m) expected text h = cc
require_files-done (raised m) expected text h = cc

-- One of the entries is a regular file that is no link.
abbrev pub HasRegularFile : List Entry → Type 0
HasRegularFile [] = ⊥
HasRegularFile (e ∷ rest) =
    ((is_file (some e.node) ≡ true) × (is_symlink (some e.node) ≡ false)) ⊎ HasRegularFile rest

has_recovery_file-HasRegularFile :
    (entries : List Entry) → has_recovery_file entries ≡ true → HasRegularFile entries
unfolding has_recovery_file
has_recovery_file-HasRegularFile [] h = cc
has_recovery_file-HasRegularFile (e ∷ rest) h =
    elim (Bool-cases (is_file (some e.node) && not (is_symlink (some e.node)))) [
      | inl hit ↦ inl (ground arith)
      | inr miss ↦ inr (has_recovery_file-HasRegularFile rest (ground arith))
    ]

-- The source has a Recovery directory that is no link, with a regular file below it.
pub record HasRecovery (entries : List Entry) : Type 0 where
  pub directory : is_dir (at ("Recovery" ∷ []) entries) ≡ true
  pub no_link : is_symlink (at ("Recovery" ∷ []) entries) ≡ false
  pub payload : HasRegularFile (below "Recovery" entries)

module _ (sha256 : String → String) {D : Type 0} ⦃e : Eq D⦄ (hash : WritePlan → D) (d : Digests)
    (w : Writer) (env : Surroundings) where
  -- What was checked before the plan `p` was written from the snapshot `s`.
  pub record IsAuthorised (plan : WritePlan) (c : DestructiveConfirmation D) (p : WritePlan)
      (s : List Entry) : Type 0 where
    pub bound : complete plan.bindings ≡ true
    pub planned : plan.source_validated ≡ true
    pub confirmed : valid_for sha256 hash c plan env.now ≡ true
    pub validated : validate_source w.source_validator env.validated_source ≡ done tt
    pub recovery : HasRecovery env.recovery_source
    pub published :
        validate_published_artifacts d w.require_published_artifacts env.published_source
          plan.bindings env.published
        ≡ done tt
    pub unchanged : source_manifest env.manifest_source ≡ done plan.expected_files
    pub rechecked :
        recheck_device sha256 w.enumerator plan.target plan.required_bytes ≡ done p.target
    pub identified : no_serial p.target.serial ≡ false
    pub same_plan : p ≡ record plan { target = p.target }
    pub same_digest : plan_digest sha256 hash p ≡ plan_digest sha256 hash plan
    pub copied : copy_no_follow env.copied_source ≡ done s
    pub complete_copy : source_manifest s ≡ done plan.expected_files
    pub uncancelled : (env.cancel_first ≡ done false) × (env.cancel_before ≡ done false)
    pub writes :
        (call : WritePlan → List Entry → Outcome (Unit {0})) × (w.destructive_write ≡ some call)
    pub reads : (call : WritePlan → List Entry → Outcome Bool) × (w.readback_verifier ≡ some call)

  prepare_source-done :
      (plan : WritePlan)
      → prepare_source sha256 hash d w env plan ≡ done tt
      → (validate_source w.source_validator env.validated_source ≡ done tt)
        × HasRecovery env.recovery_source
        × (validate_published_artifacts d w.require_published_artifacts env.published_source
              plan.bindings env.published
            ≡ done tt)
        × (source_manifest env.manifest_source ≡ done plan.expected_files)
  unfolding prepare_source
  prepare_source-done plan h =
      let (validated, directory, no_link, found, published, unchanged) = facts in
      (
        validated,
        record {
          directory = directory;
          no_link = no_link;
          payload = has_recovery_file-HasRegularFile (below "Recovery" env.recovery_source) found;
        },
        published,
        unchanged,
      )
    where
      facts :
          (validate_source w.source_validator env.validated_source ≡ done tt)
          × (is_dir (at ("Recovery" ∷ []) env.recovery_source) ≡ true)
          × (is_symlink (at ("Recovery" ∷ []) env.recovery_source) ≡ false)
          × (has_recovery_file (below "Recovery" env.recovery_source) ≡ true)
          × (validate_published_artifacts d w.require_published_artifacts env.published_source
                plan.bindings env.published
              ≡ done tt)
          × (source_manifest env.manifest_source ≡ done plan.expected_files)
      facts = ground (
        arith,
        require_files-done (source_manifest env.manifest_source) plan.expected_files
            "Media source changed after planning; the immutable plan is stale",
      )

  prepare_target-done :
      (plan p : WritePlan)
      → prepare_target sha256 hash d w env plan ≡ done p
      → (recheck_device sha256 w.enumerator plan.target plan.required_bytes ≡ done p.target)
        × (no_serial p.target.serial ≡ false)
        × (p ≡ record plan { target = p.target })
        × ((plan_digest sha256 hash p == plan_digest sha256 hash plan) ≡ true)
  unfolding prepare_target
  prepare_target-done plan p h = ground arith

  pub prepare-done :
      (plan p : WritePlan) (c : DestructiveConfirmation D) (a : Adapters)
      → prepare sha256 hash d w env plan c ≡ done (p, a)
      → (complete plan.bindings ≡ true)
        × (plan.source_validated ≡ true)
        × (valid_for sha256 hash c plan env.now ≡ true)
        × (env.cancel_first ≡ done false)
        × (prepare_source sha256 hash d w env plan ≡ done tt)
        × (prepare_target sha256 hash d w env plan ≡ done p)
        × (w.destructive_write ≡ some a.destructive_write)
        × (w.readback_verifier ≡ some a.readback_verifier)
  unfolding prepare
  prepare-done plan p c a h = ground arith

  snapshot-done :
      (plan : WritePlan) (s : List Entry)
      → snapshot sha256 hash d w env plan ≡ done s
      → (copy_no_follow env.copied_source ≡ done s)
        × (source_manifest s ≡ done plan.expected_files)
        × (env.cancel_before ≡ done false)
  unfolding snapshot
  snapshot-done plan s h = ground (
    arith,
    require_files-done (source_manifest s) plan.expected_files
        "Source changed while preparing the bounded write snapshot",
  )

  pub authorised :
      (plan p : WritePlan) (c : DestructiveConfirmation D) (a : Adapters) (s : List Entry)
      → prepare sha256 hash d w env plan c ≡ done (p, a)
      → snapshot sha256 hash d w env p ≡ done s
      → IsAuthorised plan c p s
  authorised plan p c a s hp hs =
      let (bound, planned, confirmed, first, source, target, writes, reads) =
        prepare-done plan p c a hp in
      let (validated, recovery, published, unchanged) = prepare_source-done plan source in
      let (rechecked, identified, same_plan, digest) = prepare_target-done plan p target in
      let (copied, complete_copy, before) = snapshot-done p s hs in
      record {
        bound = bound;
        planned = planned;
        confirmed = confirmed;
        validated = validated;
        recovery = recovery;
        published = published;
        unchanged = unchanged;
        rechecked = rechecked;
        identified = identified;
        same_plan = same_plan;
        same_digest = (e.beq_iff _ _).0 digest;
        copied = copied;
        complete_copy = complete_copy ∙ ap (λ (x : WritePlan). done x.expected_files) same_plan;
        uncancelled = (first, before);
        writes = (a.destructive_write, writes);
        reads = (a.readback_verifier, reads);
      }

  -- How a run can go: it stops before the medium is touched, or it was prepared and writes first.
  pub data Course (plan : WritePlan) (c : DestructiveConfirmation D)
      (r : Outcome (Unit {0}) × List Event) : Type 0 where
    stopped : r.0 ≢ done tt → r.1 ≡ [] → Course plan c r
    ran :
        (p : WritePlan) (a : Adapters) (s : List Entry)
        → prepare sha256 hash d w env plan c ≡ done (p, a)
        → snapshot sha256 hash d w env p ≡ done s
        → r ≡ run sha256 hash d w env p plan.expected_files s a
        → Course plan c r

  execute-Course :
      (plan p : WritePlan) (c : DestructiveConfirmation D) (a : Adapters)
      → prepare sha256 hash d w env plan c ≡ done (p, a)
      → Course plan c (execute sha256 hash d w env p plan.expected_files a)
  unfolding execute
  execute-Course plan p c a hp = elim (Outcome-cases (snapshot sha256 hash d w env p)) [
    | inl (s, hs) ↦ rw (hs, execute) (ran p a s hp hs refl)
    | inr (inl (m, hs)) ↦ rw (hs, execute) (stopped (λ x. cc) refl)
    | inr (inr (m, hs)) ↦ rw (hs, execute) (stopped (λ x. cc) refl)
  ]

  pub write-Course :
      (plan : WritePlan) (c : DestructiveConfirmation D)
      → Course plan c (write sha256 hash d w env plan c)
  unfolding write
  write-Course plan c = elim (Outcome-cases (prepare sha256 hash d w env plan c)) [
    | inl ((p, a), hp) ↦ rw (hp, write) (execute-Course plan p c a hp)
    | inr (inl (m, hp)) ↦ rw (hp, write) (stopped (λ x. cc) refl)
    | inr (inr (m, hp)) ↦ rw (hp, write) (stopped (λ x. cc) refl)
  ]
