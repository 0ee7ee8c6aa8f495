-- ===== src/Scheduler/Watch/Settle.antt =====
-- scheduler/src/main.rs, `try_schedule`: a stale retry, and the answer that the pod is gone.
use barenetes.Base.{String, ◌≡◌, refl, true, false, none, some, List, [], string_eq, pair_eq, ok}
use barenetes.Base.Map.{lookup, contains_key, remove, lookup-remove_self}
use barenetes.Shared.{Pod, Port}
use barenetes.Scheduler.Basic.{PodKey}
use barenetes.Scheduler.Basic.Record.{record_placement-lookup}
use barenetes.Scheduler.Basic.Place.{Float32, place}
use barenetes.Scheduler.Watch.{SchedulerState, Reply, settle, try_schedule, reported, limits_of}

try_schedule-settle :
    (F : Float32) (key : PodKey) (pod : Pod) (ports : List Port) (s : SchedulerState)
    → try_schedule F key pod ports false s ≡ settle key pod ports (place F s.scheduler pod ports) s
unfolding try_schedule
try_schedule-settle F key pod ports s = refl

try_schedule-idle :
    (F : Float32) (key : PodKey) (pod : Pod) (ports : List Port) (s : SchedulerState)
    → lookup key s.pending ≡ none
    → try_schedule F key pod ports true s ≡ (s, [])
unfolding try_schedule
try_schedule-idle F key pod ports s e = rw (e, contains_key)

-- Two sweeps work off the same snapshot: once one of them has placed a pending pod, the call
-- that the other makes for it, with whatever it had copied, changes nothing and calls nobody.
pub try_schedule_once :
    (F : Float32) (key : PodKey) (pod pod' : Pod) (ports ports' : List Port) (name : String)
    (s : SchedulerState)
    → place F s.scheduler pod ports ≡ ok name
    → contains_key key s.pending ≡ true
    → let s' = (try_schedule F key pod ports true s).0 in
      try_schedule F key pod' ports' true s' ≡ (s', [])
unfolding try_schedule settle
try_schedule_once F key pod pod' ports ports' name s e waits =
    try_schedule-idle F key pod' ports' _ (rw (waits, e) (lookup-remove_self key s.pending))

-- When a pod is placed and the API server then answers that it does not exist, the pod is no
-- longer pending, but its placement stays.
pub not_found-keeps_placement :
    (F : Float32) (key : PodKey) (pod : Pod) (ports : List Port) (name : String)
    (s : SchedulerState)
    → place F s.scheduler pod ports ≡ ok name
    → let s' = reported key Reply.not_found (try_schedule F key pod ports false s).0 in
      (lookup key s'.pending ≡ none)
      × (lookup key s'.scheduler.placements
          ≡ some (record { node = name; limits = limits_of pod; ports = ports }))
unfolding try_schedule settle reported
not_found-keeps_placement F key pod ports name s e = rw e (
  lookup-remove_self key (remove key s.pending),
  record_placement-lookup key (record { node = name; limits = limits_of pod; ports = ports })
      s.scheduler,
)
