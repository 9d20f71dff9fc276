-- ===== src/Removable/Writer/Steps.antt =====
-- `write` of RemovableMediaWriter of macloader/removable/writer.py, in its steps; the destructive
-- calls of a run are listed as events, in their order.
use libre_core_mac_loader.Prelude.{
  ℕ, ◌+◌, String, ◌<>◌, Bool, true, false, not, ◌&&◌, ◌||◌, Option, none, some, List, [], ◌∷◌, ◌++◌,
  ◌==◌, string_eq, list_eq, Eq, list_beq,
}
use libre_core_mac_loader.Prelude.Text.{is_blank}
use libre_core_mac_loader.Removable.Outcome.{Outcome, done, unsafe, raised, ◌>>=◌, ◌>>◌, refuse_if}
use libre_core_mac_loader.Removable.Device.{recheck_device}
use libre_core_mac_loader.Removable.Source.{
  Entry, MediaFileDigest, file_eq, at, is_dir, is_file, is_symlink, below, source_manifest,
  copy_no_follow,
}
use libre_core_mac_loader.Removable.Plan.{
  complete, WritePlan, DestructiveConfirmation, plan_digest, valid_for,
}
use libre_core_mac_loader.Removable.Published.Contracts.{Digests}
use libre_core_mac_loader.Removable.Published.Checks.{validate_published_artifacts}
use libre_core_mac_loader.Removable.Writer.Source.{
  Event, written, read_back, invalidated, Writer, Surroundings, validate_source,
}

-- Some regular file that is no link stands below Recovery.
unfoldable pub has_recovery_file : List Entry → Bool
has_recovery_file [] = false
has_recovery_file (e ∷ rest) =
    is_file (some e.node) && not (is_symlink (some e.node)) || has_recovery_file rest

abbrev total_bytes : List MediaFileDigest → ℕ
total_bytes [] = 0
total_bytes (f ∷ rest) = f.size_bytes + total_bytes rest

-- `not serial or not serial.strip()`
abbrev pub no_serial : Option String → Bool
no_serial none = true
no_serial (some s) = is_blank s

abbrev pub refuse_when : Outcome Bool → String → Outcome (Unit {0})
refuse_when (done b) text = refuse_if b text
refuse_when (unsafe m) text = unsafe m
refuse_when (raised m) text = raised m

-- A callback that is not configured.
abbrev configured {ℓ} : {A : Type ℓ} → Option A → String → Outcome A
configured (some a) text = done a
configured none text = unsafe text

-- The adapters that a write needs.
pub record Adapters : Type 0 where
  pub destructive_write : WritePlan → List Entry → Outcome (Unit {0})
  pub readback_verifier : WritePlan → List Entry → Outcome Bool

-- `if manifest != expected: raise UnsafeRemovableTarget(text)`
unfoldable pub require_files :
    Outcome (List MediaFileDigest) → List MediaFileDigest → String → Outcome (Unit {0})
unfolding list_beq
require_files manifest expected text = do files ← manifest; refuse_if (not (files == expected)) text

-- The suffix of a failed invalidation.
abbrev suffix_of : Outcome (Unit {0}) → String
suffix_of (done _) = ""
suffix_of (unsafe m) = "; invalidation failed: " <> m
suffix_of (raised m) = "; invalidation failed: " <> m

-- The text of the handler of the `try` block.
abbrev pub failed : String → String → String
failed suffix reason =
    "Write operation failed or was interrupted; readback may also have failed" <> suffix <> ": "
    <> reason

module _ (sha256 : String → String) {D : Type 0} ⦃e : Eq D⦄ (hash : WritePlan → D) (d : Digests)
    (w : Writer) (env : Surroundings) where
  -- The checks of the source, up to the comparison with the plan.
  unfoldable pub prepare_source : WritePlan → Outcome (Unit {0})
  unfolding has_recovery_file
  prepare_source plan = do
    validate_source w.source_validator env.validated_source
    refuse_if
        (is_symlink (at ("Recovery" ∷ []) env.recovery_source)
          || not (is_dir (at ("Recovery" ∷ []) env.recovery_source)))
        "A qualified media source must contain the current Recovery payload"
    refuse_if (not (has_recovery_file (below "Recovery" env.recovery_source)))
        "A qualified media source has no Recovery payload"
    validate_published_artifacts d w.require_published_artifacts env.published_source plan.bindings
        env.published
    require_files (source_manifest env.manifest_source) plan.expected_files
        "Media source changed after planning; the immutable plan is stale"

  -- The checks of the target: the plan for the device as it is seen now.
  unfoldable pub prepare_target : WritePlan → Outcome WritePlan
  prepare_target plan = do
    fresh_device ← recheck_device sha256 w.enumerator plan.target plan.required_bytes
    let fresh_plan = record plan { target = fresh_device }
    refuse_if (no_serial fresh_device.serial)
        "A stable device serial or equivalent identity is required before a destructive write"
    refuse_if (not (plan_digest sha256 hash fresh_plan == plan_digest sha256 hash plan))
        "Target changed after confirmation; the immutable media plan is stale"
    done fresh_plan

  -- Everything before the `try` block.
  unfoldable pub prepare : WritePlan → DestructiveConfirmation D → Outcome (WritePlan × Adapters)
  prepare plan confirmation = do
    refuse_if (not (complete plan.bindings))
        "Media plan is not bound to EFI, Recovery, validation, configuration, toolchain, and evidence digests"
    refuse_if (not plan.source_validated)
        "Media plan was not created by the guarded source-validation boundary"
    refuse_if (not (valid_for sha256 hash confirmation plan env.now))
        "Destructive confirmation is invalid, stale, or expired"
    refuse_when env.cancel_first "Media write cancelled before source preparation"
    prepare_source plan
    fresh_plan ← prepare_target plan
    write_adapter ← configured w.destructive_write "No platform write adapter is configured"
    verifier ← configured w.readback_verifier "No readback verifier is configured"
    done (fresh_plan, record { destructive_write = write_adapter; readback_verifier = verifier })

  -- The part of the `try` block before `destructive_started`: the snapshot of the source.
  unfoldable pub snapshot : WritePlan → Outcome (List Entry)
  snapshot plan = do
    copied ← copy_no_follow env.copied_source
    require_files (source_manifest copied) plan.expected_files
        "Source changed while preparing the bounded write snapshot"
    refuse_when env.cancel_before "Media write cancelled before destructive I/O"
    env.progress_start (total_bytes plan.expected_files)
    done copied

  -- `_invalidate`: the suffix of the error's text, and what it did.
  unfoldable pub invalidate : WritePlan → String → String × List Event
  invalidate plan reason = elim w.invalidator [
    | none ↦ ("", [])
    | some call ↦ (suffix_of (call plan reason), invalidated plan reason ∷ [])
  ]

  -- The end of the `try` block, after the write: whether the readback was right.
  unfoldable pub read_after : WritePlan → List Entry → Adapters → Outcome Bool × List Event
  read_after plan copied a =
      elim (refuse_when env.cancel_after
        "Media write cancelled; readback is required before readiness") [
          | done _ ↦ (a.readback_verifier plan copied, read_back plan copied ∷ [])
          | unsafe m ↦ (unsafe m, [])
          | raised m ↦ (raised m, [])
        ]

  unfoldable pub after_start : WritePlan → List Entry → Adapters → Outcome Bool × List Event
  after_start plan copied a = elim (a.destructive_write plan copied) [
    | done _ ↦ read_after plan copied a
    | unsafe m ↦ (unsafe m, [])
    | raised m ↦ (raised m, [])
  ]

  -- What follows the `try` block: the handler, or the test of `verified`.
  unfoldable pub conclude :
      WritePlan → List MediaFileDigest → Outcome Bool → Outcome (Unit {0}) × List Event
  conclude plan files (unsafe m) =
      let (suffix, events) = invalidate plan m in (unsafe (failed suffix m), events)
  conclude plan files (raised m) =
      let (suffix, events) = invalidate plan m in (unsafe (failed suffix m), events)
  conclude plan files (done false) =
      let (suffix, events) = invalidate plan "readback verification failed" in
      (unsafe ("Readback verification failed after write" <> suffix), events)
  conclude plan files (done true) = (env.progress_end (total_bytes files), [])

  unfoldable pub run :
      WritePlan → List MediaFileDigest → List Entry → Adapters → Outcome (Unit {0}) × List Event
  run plan files copied a =
      let (verified, during) = after_start plan copied a in
      let (outcome, after) = conclude plan files verified in
      (outcome, written plan copied ∷ (during ++ after))

  unfoldable pub execute :
      WritePlan → List MediaFileDigest → Adapters → Outcome (Unit {0}) × List Event
  execute fresh_plan files a = elim (snapshot fresh_plan) [
    | done copied ↦ run fresh_plan files copied a
    | unsafe m ↦ (unsafe (failed "" m), [])
    | raised m ↦ (unsafe (failed "" m), [])
  ]

  -- `write`, with the events of the run.
  unfoldable pub write : WritePlan → DestructiveConfirmation D → Outcome (Unit {0}) × List Event
  write plan confirmation = elim (prepare plan confirmation) [
    | done (fresh_plan, a) ↦ execute fresh_plan plan.expected_files a
    | unsafe m ↦ (unsafe m, [])
    | raised m ↦ (raised m, [])
  ]
