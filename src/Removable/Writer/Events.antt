-- ===== src/Removable/Writer/Events.antt =====
-- The events of write() of macloader/removable/writer.py: what authorises them, what success means,
-- and what a failure leaves.
use libre_core_mac_loader.Prelude.{
  String, ◌≡◌, refl, ap, sym, ◌∙◌, ◌⊎◌, inl, inr, Bool, true, false, some, List, [], ◌∷◌, ◌++◌, Eq,
}
use libre_core_mac_loader.Removable.Outcome.{Outcome, done, unsafe}
use libre_core_mac_loader.Removable.Source.{Entry}
use libre_core_mac_loader.Removable.Plan.{WritePlan, DestructiveConfirmation}
use libre_core_mac_loader.Removable.Published.Contracts.{Digests}
use libre_core_mac_loader.Removable.Writer.Source.{
  Event, written, read_back, invalidated, Writer, Surroundings,
}
use libre_core_mac_loader.Removable.Writer.Steps.{
  Adapters, invalidate, run, prepare, snapshot, write,
}
use libre_core_mac_loader.Removable.Writer.Safety.{
  HasNoWrite, IsAuthorised, authorised, prepare-done, stopped, ran, write-Course,
}
use libre_core_mac_loader.Removable.Writer.Runs.{
  verified, failed, run-Aftermath, run-events, first_only,
}

module _ (sha256 : String → String) {D : Type 0} ⦃e : Eq D⦄ (hash : WritePlan → D) (d : Digests)
    (w : Writer) (env : Surroundings) where
  -- Whenever a write event stands anywhere among the events of a run, it is the first event and the
  -- only write, and the plan and the snapshot that were written had passed every check: bindings,
  -- confirmation, source, Recovery payload, published contracts, device, plan digest, snapshot,
  -- cancellation and adapters.
  pub write-IsAuthorised :
      (plan : WritePlan) (c : DestructiveConfirmation D) (p : WritePlan) (s : List Entry)
      (front rest : List Event)
      → (write sha256 hash d w env plan c).1 ≡ front ++ written p s ∷ rest
      → IsAuthorised sha256 hash d w env plan c p s × (front ≡ []) × HasNoWrite rest
  write-IsAuthorised plan c p s front rest h = elim (write-Course sha256 hash d w env plan c) [
    | stopped ne none_done ↦ absurd (append_ne front (sym none_done ∙ h))
    | ran q a t hp hs made ↦
        let (tail, events, quiet) = run-events sha256 hash d w env q plan.expected_files t a in
        let (start, same_plan, same_copy, same_rest) =
          first_only front rest tail p q s t quiet
            (sym events ∙ ap (λ (r : Outcome (Unit {0}) × List Event). r.1) (sym made) ∙ h) in
        (
          rw (same_plan, same_copy) (authorised sha256 hash d w env plan q c a t hp hs),
          start,
          rw same_rest quiet,
        )
  ]
    where
      append_ne : (front : List Event) → ¬ ([] ≡ front ++ written p s ∷ rest)
      append_ne [] e = cc
      append_ne (f ∷ front) e = cc

  -- What a write that reported success has done.
  pub record IsVerified (plan : WritePlan) (c : DestructiveConfirmation D) (events : List Event)
      : Type 0 where
    pub target_plan : WritePlan
    pub copy : List Entry
    pub destroy : WritePlan → List Entry → Outcome (Unit {0})
    pub verify : WritePlan → List Entry → Outcome Bool
    pub authorised_by : IsAuthorised sha256 hash d w env plan c target_plan copy
    pub events_are : events ≡ written target_plan copy ∷ read_back target_plan copy ∷ []
    pub writes : w.destructive_write ≡ some destroy
    pub reads : w.readback_verifier ≡ some verify
    pub wrote : destroy target_plan copy ≡ done tt
    pub right : verify target_plan copy ≡ done true
    pub uncancelled : env.cancel_after ≡ done false

  run-IsVerified :
      (plan p : WritePlan) (c : DestructiveConfirmation D) (a : Adapters) (s : List Entry)
      → prepare sha256 hash d w env plan c ≡ done (p, a)
      → snapshot sha256 hash d w env p ≡ done s
      → (run sha256 hash d w env p plan.expected_files s a).0 ≡ done tt
      → IsVerified plan c (run sha256 hash d w env p plan.expected_files s a).1
  run-IsVerified plan p c a s hp hs h =
      elim (run-Aftermath sha256 hash d w env p plan.expected_files s a) [
        | verified wrote going right seen ↦
            let (_, _, _, _, _, _, writes, reads) =
              prepare-done sha256 hash d w env plan p c a hp in
            record {
              target_plan = p;
              copy = s;
              destroy = a.destructive_write;
              verify = a.readback_verifier;
              authorised_by = authorised sha256 hash d w env plan p c a s hp hs;
              events_are = seen;
              writes = writes;
              reads = reads;
              wrote = wrote;
              right = right;
              uncancelled = going;
            }
        | failed during after text reason out seen quiet end ↦ absurd (cc)
      ]

  -- A write that returns without an error was authorised; the medium was written once and then read
  -- back, both calls returned, the verifier with True, and the run was not cancelled in between.
  pub write-IsVerified :
      (plan : WritePlan) (c : DestructiveConfirmation D)
      → (write sha256 hash d w env plan c).0 ≡ done tt
      → IsVerified plan c (write sha256 hash d w env plan c).1
  write-IsVerified plan c h = elim (write-Course sha256 hash d w env plan c) [
    | stopped ne none_done ↦ absurd (ne h)
    | ran p a s hp hs made ↦ rw made (run-IsVerified plan p c a s hp hs (rw made at h))
  ]

  invalidate-events :
      (p : WritePlan) (reason : String) (call : WritePlan → String → Outcome (Unit {0}))
      → w.invalidator ≡ some call
      → (invalidate sha256 hash d w env p reason).1 ≡ invalidated p reason ∷ []
  unfolding invalidate
  invalidate-events p reason call h = rw (h, invalidate) refl

  -- Once the medium was written, with an invalidator configured, the write ends in one of two
  -- ways: the readback was made, the configured verifier answered it with True and nothing else was
  -- done, or the last thing that was done is the invalidation of the plan that was written, and the
  -- call is refused with an error.
  pub write-invalidated :
      (plan : WritePlan) (c : DestructiveConfirmation D) (p : WritePlan) (s : List Entry)
      (rest : List Event) (call : WritePlan → String → Outcome (Unit {0}))
      → w.invalidator ≡ some call
      → (write sha256 hash d w env plan c).1 ≡ written p s ∷ rest
      → ((rest ≡ read_back p s ∷ [])
          × (verify : WritePlan → List Entry → Outcome Bool) × (w.readback_verifier ≡ some verify)
          × (verify p s ≡ done true))
        ⊎ ((reason text : String) × (before : List Event) × (rest
              ≡ before ++ invalidated p reason ∷ [])
            × ((write sha256 hash d w env plan c).0 ≡ unsafe text))
  write-invalidated plan c p s rest call given h = elim (write-Course sha256 hash d w env plan c) [
    | stopped ne none_done ↦ absurd (cc)
    | ran q a t hp hs made ↦ elim (run-Aftermath sha256 hash d w env q plan.expected_files t a) [
      | verified wrote going right seen ↦
          let (_, _, _, _, _, _, _, reads) = prepare-done sha256 hash d w env plan q c a hp in
          inl (cc, a.readback_verifier, reads, cc)
      | failed during after text reason out seen quiet end ↦
          let last = invalidate-events q reason call given in inr (reason, text, during, cc, cc)
    ]
  ]
