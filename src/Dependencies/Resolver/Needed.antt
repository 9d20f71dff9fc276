-- ===== src/Dependencies/Resolver/Needed.antt =====
-- What a plan requests as a whole, for macloader/dependencies/resolver.py.
use libre_core_mac_loader.Prelude.{
  String, ◌≡◌, Bool, false, ◌||◌, List, [], ◌∷◌, string_eq, contains, arith,
}
use libre_core_mac_loader.Prelude.Text.{lower}
use libre_core_mac_loader.Compatibility.Components.{is_filled}
use libre_core_mac_loader.Compatibility.Engine.Draft.{BuildPlan}
use libre_core_mac_loader.Dependencies.Resolver.Requests.{
  set_spec, Requests, request_capability, request_all, base_requests,
}
use libre_core_mac_loader.Dependencies.Resolver.Resolve.{requests_of, ids_of}
use libre_core_mac_loader.Dependencies.Resolver.Mapped.{
  needs, is_open, request_capability-needs, request_capability-is_open,
}

unfoldable pub any_needs : String → List String → String → Bool
unfolding needs contains
any_needs target [] x = false
any_needs target (cap ∷ caps) x = contains (needs target cap) x || any_needs target caps x

unfoldable pub any_open : String → List String → Bool
unfolding contains
any_open target [] = false
any_open target (cap ∷ caps) = is_open target cap || any_open target caps

request_all-needs :
    (target : String) (caps : List String) (q : Requests) (x : String)
    → contains (ids_of (request_all target caps q).specs) x
      ≡ (contains (ids_of q.specs) x || any_needs target caps x)
unfolding request_all any_needs
request_all-needs target [] q x = ground arith
request_all-needs target (cap ∷ caps) q x = ground (
  arith,
  request_all-needs target caps (request_capability target cap q) x,
  request_capability-needs target q cap x,
)

request_all-is_open :
    (target : String) (caps : List String) (q : Requests)
    → is_filled (request_all target caps q).unresolved
      ≡ (is_filled q.unresolved || any_open target caps)
unfolding request_all any_open
request_all-is_open target [] q = ground arith
request_all-is_open target (cap ∷ caps) q = ground (
  arith,
  request_all-is_open target caps (request_capability target cap q),
  request_capability-is_open target q cap,
)

-- The requests of a plan are OpenCore, VirtualSMC and what the table lists for its capabilities, and
-- nothing else. A requirement stays unresolved just when the plan has one, or a capability that is not
-- known, or the ALC257 audio for a version without AppleHDA.
pub requests_of-needs :
    (plan : BuildPlan)
    → ((x : String)
        → contains (ids_of (requests_of plan).specs) x ≡ (
            contains ("opencore" ∷ "virtualsmc" ∷ []) x
            || any_needs (lower plan.target_macos) plan.required_capabilities x))
      × (is_filled (requests_of plan).unresolved ≡ (
          is_filled plan.unresolved_requirements
          || any_open (lower plan.target_macos) plan.required_capabilities))
unfolding requests_of base_requests set_spec
requests_of-needs plan =
    let start = base_requests plan.unresolved_requirements plan.warnings in
    let target = lower plan.target_macos in
    (
      request_all-needs target plan.required_capabilities start,
      request_all-is_open target plan.required_capabilities start,
    )
