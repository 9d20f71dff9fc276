-- ===== src/Removable/Plan/Confirmation.antt =====
-- What a destructive confirmation is good for.
use libre_core_mac_loader.Prelude.{
  ℕ, ◌+◌, ◌≤◌, ◌<◌, String, ◌≡◌, sym, ap, ◌∙◌, subst, ◌↔◌, true, arith, nat_eq, string_eq, Eq,
  beq_refl,
}
use libre_core_mac_loader.Removable.Outcome.{done}
use libre_core_mac_loader.Removable.Plan.{
  WritePlan, DestructiveConfirmation, payload_of, plan_digest, erase_phrase, issue, valid_for,
  max_lifetime,
}

module _ (sha256 : String → String) {D : Type 0} ⦃e : Eq D⦄ (hash : WritePlan → D) where
  -- A confirmation issued for a plan is valid for that plan from its issue until its end, and at
  -- no other time; its lifetime is above zero and at most 900 seconds.
  pub issue-valid_for :
      (plan : WritePlan) (now ttl current : ℕ) (c : DestructiveConfirmation D)
      → issue sha256 hash plan now ttl ≡ done c
      → (0 < ttl)
        × (ttl ≤ max_lifetime)
        × ((valid_for sha256 hash c plan current ≡ true)
            ↔ ((now ≤ current) × (current < now + ttl)))
  unfolding issue valid_for
  issue-valid_for plan now ttl current c h =
      let (positive, bounded, made) = issued in
      subst
        (λ (x : DestructiveConfirmation D).
          (0 < ttl)
          × (ttl ≤ max_lifetime)
          × ((valid_for sha256 hash x plan current ≡ true)
              ↔ ((now ≤ current) × (current < now + ttl))))
        made
        (
          positive,
          bounded,
          (
            λ v. ground arith,
            λ t. ground (
              arith,
              beq_refl (plan_digest sha256 hash plan),
              beq_refl plan.target.device_id,
              beq_refl (erase_phrase sha256 plan),
            ),
          ),
        )
    where
      built : DestructiveConfirmation D
      built = record {
        plan_digest = plan_digest sha256 hash plan;
        device_id = plan.target.device_id;
        capacity_bytes = plan.target.capacity_bytes;
        typed_phrase = erase_phrase sha256 plan;
        issued_at = now;
        expires_at = now + ttl;
      }

      issued : (0 < ttl) × (ttl ≤ max_lifetime) × (built ≡ c)
      issued = ground arith

  -- Where the hash has no collisions, a confirmation is valid for one plan at most.
  pub valid_for_unique :
      (c : DestructiveConfirmation D) (p q : WritePlan) (now later : ℕ)
      → ((x y : WritePlan) → hash x ≡ hash y → x ≡ y)
      → valid_for sha256 hash c p now ≡ true
      → valid_for sha256 hash c q later ≡ true
      → p ≡ q
  unfolding valid_for plan_digest
  valid_for_unique c p q now later injective hp hq =
      restored p (named p now hp) ∙ ap restore same ∙ sym (restored q (named q later hq))
    where
      restore : WritePlan → WritePlan
      restore w = record w { target = record w.target { device_id = c.device_id } }

      named :
          (w : WritePlan) (t : ℕ)
          → valid_for sha256 hash c w t ≡ true
          → w.target.device_id ≡ c.device_id
      named w t h = ground (arith, string_eq.beq_iff c.device_id w.target.device_id)

      digest :
          (w : WritePlan) (t : ℕ)
          → valid_for sha256 hash c w t ≡ true
          → c.plan_digest ≡ plan_digest sha256 hash w
      digest w t h = ground (arith, e.beq_iff c.plan_digest (plan_digest sha256 hash w))

      restored :
          (w : WritePlan) → w.target.device_id ≡ c.device_id → w ≡ restore (payload_of sha256 w)
      restored w h = ground arith

      same : payload_of sha256 p ≡ payload_of sha256 q
      same = injective _ _ (sym (digest p now hp) ∙ digest q later hq)
