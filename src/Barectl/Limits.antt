-- ===== src/Barectl/Limits.antt =====
-- A pod that barectl sends has limits, so the scheduler does not turn it away for want of them.
use barenetes.Base.{
  String, ◌≡◌, ◌≢◌, refl, true, false, some, List, Result, ok, arith, Result-cases, Option-cases,
  inl, inr,
}
use barenetes.Shared.{Resources, Port, Pod, PodWithSpec}
use barenetes.Barectl.{
  CliError, PodManifest, CreatePodArgs, build_pod, has_limits, require_limits, pod_to_create,
}
use barenetes.Scheduler.Basic.{BasicScheduler}
use barenetes.Scheduler.Basic.Place.{Float32, place, place_within}

limits-some :
    (p : PodWithSpec)
    → has_limits p ≡ true
    → (x : Pod) × (r : Resources) × (p.pod ≡ some x) × (x.limits ≡ some r)
limits-some p h = elim (Option-cases p.pod) [
  | inl e ↦ elim (true≢false (ground (arith, h, e))) [ ]
  | inr (x, e) ↦ elim (Option-cases x.limits) [
    | inl f ↦ elim (true≢false (ground (arith, h, e, f))) [ ]
    | inr (r, f) ↦ (x, r, e, f)
  ]
]
  where
    true≢false : ◌≢◌ true false
    true≢false e = cc

require_limits-some : (p : PodWithSpec) → require_limits p ≡ ok tt → has_limits p ≡ true
unfolding require_limits
require_limits-some p h = ground (arith, h)

place-some :
    (F : Float32) (s : BasicScheduler) (x : Pod) (ports : List Port) {r : Resources}
    → x.limits ≡ some r
    → place F s x ports ≡ place_within F s r ports
unfolding place
place-some F s x ports e = rw (e, place) refl

-- A pod that barectl sends, from flags or from a manifest, has limits, so that the scheduler
-- never turns it away for missing them: `place` goes on to look for a node.
pub pod_to_create_lem :
    (from_file : String → Result CliError PodManifest) (args : CreatePodArgs) {p : PodWithSpec}
    → pod_to_create from_file args ≡ ok p
    → (x : Pod) × (r : Resources) × (p.pod ≡ some x)
      × (x.limits ≡ some r)
      × ((F : Float32) (s : BasicScheduler) (ports : List Port)
          → place F s x ports ≡ place_within F s r ports)
unfolding pod_to_create
pod_to_create_lem from_file args {p} h =
    let (x, r, e, f) = limits-some p sent in (x, r, e, f, λ F s ports. place-some F s x ports f)
  where
    sent : has_limits p ≡ true
    sent = elim (Result-cases (build_pod from_file args)) [
      | inl (e, b) ↦ ground (arith, h, b)
      | inr (q, b) ↦ elim (Result-cases (require_limits q)) [
        | inl (e, c) ↦ ground (arith, h, b, c)
        | inr (_, c) ↦ ground (arith, h, b, c, require_limits-some q c)
      ]
    ]
