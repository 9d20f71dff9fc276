-- ===== src/Removable/Writer/Target.antt =====
-- The device that write() of macloader/removable/writer.py writes to.
use libre_core_mac_loader.Prelude.{
  String, ◌≡◌, refl, ap, sym, ◌∙◌, subst, Option, some, List, ◌∷◌, ◌++◌, arith, Eq,
}
use libre_core_mac_loader.Removable.Outcome.{Outcome, done}
use libre_core_mac_loader.Removable.Device.{RemovableDevice, recheck_device}
use libre_core_mac_loader.Removable.Device.Safe.{IsRechecked, recheck_device-IsRechecked}
use libre_core_mac_loader.Removable.Source.{Entry}
use libre_core_mac_loader.Removable.Plan.{
  WritePlan, DestructiveConfirmation, plan_digest, payload_of,
}
use libre_core_mac_loader.Removable.Published.Contracts.{Digests}
use libre_core_mac_loader.Removable.Writer.Source.{Event, written, Writer, Surroundings}
use libre_core_mac_loader.Removable.Writer.Steps.{write}
use libre_core_mac_loader.Removable.Writer.Events.{write-IsAuthorised}

module _ (sha256 : String → String) {D : Type 0} ⦃e : Eq D⦄ (hash : WritePlan → D) where
  same_digest-same_plan :
      (p q : WritePlan)
      → ((x y : WritePlan) → hash x ≡ hash y → x ≡ y)
      → p.target.device_id ≡ q.target.device_id
      → plan_digest sha256 hash p ≡ plan_digest sha256 hash q
      → p ≡ q
  unfolding plan_digest payload_of
  same_digest-same_plan p q injective id h =
      restored p id ∙ ap restore (injective _ _ h) ∙ sym (restored q refl)
    where
      restore : WritePlan → WritePlan
      restore w = record w { target = record w.target { device_id = q.target.device_id } }

      restored :
          (w : WritePlan)
          → w.target.device_id ≡ q.target.device_id
          → w ≡ restore (payload_of sha256 w)
      restored w k = ground arith

  -- With a list of the connected devices and a hash without collisions, the plan that is written is
  -- the plan that was confirmed, its target included, and that target was found again alone under
  -- its id, unchanged and safe.
  pub write-IsRechecked :
      (d : Digests) (w : Writer) (env : Surroundings) (plan : WritePlan)
      (c : DestructiveConfirmation D) (devices : List RemovableDevice) (p : WritePlan)
      (s : List Entry) (front rest : List Event)
      → ((x y : WritePlan) → hash x ≡ hash y → x ≡ y)
      → w.enumerator ≡ some (done devices)
      → (write sha256 hash d w env plan c).1 ≡ front ++ written p s ∷ rest
      → (p ≡ plan) × IsRechecked devices plan.target plan.required_bytes p.target
  write-IsRechecked d w env plan c devices p s front rest injective seen h =
      let auth = (write-IsAuthorised sha256 hash d w env plan c p s front rest h).0 in
      let again : IsRechecked devices plan.target plan.required_bytes p.target =
        recheck_device-IsRechecked sha256 devices plan.target plan.required_bytes p.target (
          subst
            (λ (m : Option (Outcome (List RemovableDevice))).
              recheck_device sha256 m plan.target plan.required_bytes ≡ done p.target)
            seen auth.rechecked) in
      (same_digest-same_plan p plan injective again.only.named auth.same_digest, again)
