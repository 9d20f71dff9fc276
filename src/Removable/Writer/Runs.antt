-- ===== src/Removable/Writer/Runs.antt =====
-- What a run of write() in macloader/removable/writer.py does from its first destructive call on.
use libre_core_mac_loader.Prelude.{
  String, ◌≡◌, refl, ap, subst, inl, inr, true, false, List, [], ◌∷◌, ◌++◌, arith, Eq, Bool-cases,
  Option-cases,
}
use libre_core_mac_loader.Removable.Outcome.{Outcome, done, unsafe, Outcome-cases}
use libre_core_mac_loader.Removable.Source.{Entry, MediaFileDigest}
use libre_core_mac_loader.Removable.Plan.{WritePlan}
use libre_core_mac_loader.Removable.Published.Contracts.{Digests}
use libre_core_mac_loader.Removable.Writer.Source.{
  Event, written, read_back, invalidated, Writer, Surroundings,
}
use libre_core_mac_loader.Removable.Writer.Steps.{
  Adapters, invalidate, read_after, after_start, conclude, run, refuse_when,
}
use libre_core_mac_loader.Removable.Writer.Safety.{HasNoWrite}

no_write :
    (front rest : List Event) (p : WritePlan) (s : List Entry)
    → ¬ HasNoWrite (front ++ written p s ∷ rest)
no_write [] rest p s h = h
no_write (written q t ∷ front) rest p s h = h
no_write (read_back q t ∷ front) rest p s h = no_write front rest p s h
no_write (invalidated q r ∷ front) rest p s h = no_write front rest p s h

HasNoWrite-append : (a b : List Event) → HasNoWrite a → HasNoWrite b → HasNoWrite (a ++ b)
HasNoWrite-append [] b h k = k
HasNoWrite-append (written p s ∷ a) b h k = absurd h
HasNoWrite-append (read_back p s ∷ a) b h k = HasNoWrite-append a b h k
HasNoWrite-append (invalidated p r ∷ a) b h k = HasNoWrite-append a b h k

pub first_only :
    (front rest tail : List Event) (p q : WritePlan) (s t : List Entry)
    → HasNoWrite tail
    → written q t ∷ tail ≡ front ++ written p s ∷ rest
    → (front ≡ []) × (p ≡ q) × (s ≡ t) × (rest ≡ tail)
first_only [] rest tail p q s t h k = (refl, cc, cc, cc)
first_only (f ∷ front) rest tail p q s t h k =
    absurd (
      no_write front rest p s
        (subst HasNoWrite {x = tail} {y = front ++ written p s ∷ rest} (cc) h))

module _ (sha256 : String → String) {D : Type 0} ⦃e : Eq D⦄ (hash : WritePlan → D) (d : Digests)
    (w : Writer) (env : Surroundings) where
  -- What a run does after its write.
  pub data Aftermath (p : WritePlan) (s : List Entry) (a : Adapters)
      (r : Outcome (Unit {0}) × List Event) : Type 0 where
    verified :
        a.destructive_write p s ≡ done tt
        → env.cancel_after ≡ done false
        → a.readback_verifier p s ≡ done true
        → r.1 ≡ written p s ∷ read_back p s ∷ []
        → Aftermath p s a r
    failed :
        (during after : List Event) (text reason : String)
        → r.0 ≡ unsafe text
        → r.1 ≡ written p s ∷ (during ++ after)
        → HasNoWrite during
        → after ≡ (invalidate sha256 hash d w env p reason).1
        → Aftermath p s a r

  after_start-HasNoWrite :
      (p : WritePlan) (s : List Entry) (a : Adapters)
      → HasNoWrite (after_start sha256 hash d w env p s a).1
  unfolding after_start read_after
  after_start-HasNoWrite p s a = elim (Outcome-cases (a.destructive_write p s)) [
    | inl (_, h) ↦
        elim (Outcome-cases (
          refuse_when env.cancel_after
            "Media write cancelled; readback is required before readiness")) [
              | inl (_, k) ↦ rw (h, after_start) (rw (k, read_after) tt)
              | inr (inl (m, k)) ↦ rw (h, after_start) (rw (k, read_after) tt)
              | inr (inr (m, k)) ↦ rw (h, after_start) (rw (k, read_after) tt)
            ]
    | inr (inl (m, h)) ↦ rw (h, after_start) tt
    | inr (inr (m, h)) ↦ rw (h, after_start) tt
  ]

  after_start-done :
      (p : WritePlan) (s : List Entry) (a : Adapters)
      → (after_start sha256 hash d w env p s a).0 ≡ done true
      → (a.destructive_write p s ≡ done tt)
        × (env.cancel_after ≡ done false)
        × (a.readback_verifier p s ≡ done true)
        × ((after_start sha256 hash d w env p s a).1 ≡ read_back p s ∷ [])
  unfolding after_start read_after
  after_start-done p s a h = ground arith

  pub run-Aftermath :
      (p : WritePlan) (files : List MediaFileDigest) (s : List Entry) (a : Adapters)
      → Aftermath p s a (run sha256 hash d w env p files s a)
  unfolding run conclude
  run-Aftermath p files s a =
      let quiet = after_start-HasNoWrite p s a in
      let during = (after_start sha256 hash d w env p s a).1 in
      elim (Outcome-cases (after_start sha256 hash d w env p s a).0) [
        | inl (b, h) ↦ elim (Bool-cases b) [
          | inl t ↦
              let passed : (after_start sha256 hash d w env p s a).0 ≡ done true = rw t at h in
              let (wrote, going, right, seen) = after_start-done p s a passed in
              rw (passed, run, conclude)
                (verified wrote going right (ap (λ (l : List Event). written p s ∷ (l ++ [])) seen))
          | inr f ↦
              let refused : (after_start sha256 hash d w env p s a).0 ≡ done false = rw f at h in
              rw (refused, run, conclude)
                (failed during _ _ "readback verification failed" refl refl quiet refl)
        ]
        | inr (inl (m, h)) ↦ rw (h, run, conclude) (failed during _ _ m refl refl quiet refl)
        | inr (inr (m, h)) ↦ rw (h, run, conclude) (failed during _ _ m refl refl quiet refl)
      ]

  HasNoWrite-invalidate :
      (p : WritePlan) (reason : String) → HasNoWrite (invalidate sha256 hash d w env p reason).1
  unfolding invalidate
  HasNoWrite-invalidate p reason = elim (Option-cases w.invalidator) [
    | inl h ↦ rw (h, invalidate) tt
    | inr (call, h) ↦ rw (h, invalidate) tt
  ]

  -- The events of a prepared run: one write, and then none.
  pub run-events :
      (p : WritePlan) (files : List MediaFileDigest) (s : List Entry) (a : Adapters)
      → (rest : List Event) × ((run sha256 hash d w env p files s a).1 ≡ written p s ∷ rest)
        × HasNoWrite rest
  run-events p files s a = elim (run-Aftermath p files s a) [
    | verified wrote going right seen ↦ (read_back p s ∷ [], seen, tt)
    | failed during after text reason out seen quiet end ↦ (
      during ++ after,
      seen,
      HasNoWrite-append during after quiet (rw end (HasNoWrite-invalidate p reason)),
    )
  ]
