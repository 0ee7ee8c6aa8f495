-- ===== src/Scheduler/Watch/Tests.antt =====
-- scheduler/src/main.rs at work: a node registers, a pod arrives, is placed and reported, and the
-- theorems at those states.
use barenetes.Base.{◌≡◌, refl, true, false, none, some, [], ◌∷◌, string_eq, pair_eq}
use barenetes.Base.Map.{lookup}
use barenetes.Shared.{PodDetail, EventType, WatchNodeEvent, WatchPodEvent}
use barenetes.Scheduler.Basic.Place.Tests.{
  percent, amount, node_of, http, pod_of_size, idle, web, idle-IsBalanced, idle-IsKeyed, place-idle,
}
use barenetes.Scheduler.Watch.{
  SchedulerState, initial, Reply, schedule, run_task, node_event, pod_event, try_schedule, reported,
}
use barenetes.Scheduler.Watch.Steps.{
  World, after, node_arrives, pod_arrives, task_runs, Reach, start, next, IsSound, Reach-IsSound,
}
use barenetes.Scheduler.Watch.Tracked.{tracked, Step-tracked}
use barenetes.Scheduler.Watch.Settle.{try_schedule_once, not_found-keeps_placement}

abbrev web_detail : PodDetail
web_detail = record {
  core = some (record {
    pod = some (pod_of_size "web" 4);
    spec = some (record {
      namespace = "default";
      containers = record { name = "web"; image = "nginx"; ports = http; env = [] } ∷ [];
    });
  });
  container_statuses = [];
  pod_ip = none;
  message = none;
  resource_usage = none;
  node_name = "";
  unschedulable_reason = none;
}

abbrev node_added : WatchNodeEvent
node_added = record { event_type = EventType.added; node = some (node_of "a") }

abbrev web_added : WatchPodEvent
web_added = record { event_type = EventType.added; pod = some web_detail }

abbrev world0 : World
world0 = record { state = initial; tasks = [] }

abbrev world1 : World
world1 = after [] (node_event node_added initial)

abbrev world2 : World
world2 = after world1.tasks (pod_event web_added world1.state)

world2-Reach : Reach percent world2
world2-Reach = next (next start (node_arrives world0 node_added)) (pod_arrives world1 web_added)

Reach-IsSound_example : IsSound world2.state
Reach-IsSound_example = Reach-IsSound world2-Reach

-- The pod waits, and a sweep is about to try it again.
abbrev waiting_pod : SchedulerState
waiting_pod = record { scheduler = idle; pending = (web, (pod_of_size "web" 4, http)) ∷ [] }

abbrev ahead : World
ahead = record { state = waiting_pod; tasks = schedule web (pod_of_size "web" 4) http true ∷ [] }

waiting_pod-IsSound : IsSound waiting_pod
waiting_pod-IsSound = record {
  balanced = idle-IsBalanced;
  keyed = idle-IsKeyed;
  distinct = (refl, tt);
}

abbrev retried : World
retried =
    after []
      (run_task percent (schedule web (pod_of_size "web" 4) http true) Reply.accepted waiting_pod)

Step-tracked_example : tracked web retried.state retried.tasks ≡ true
Step-tracked_example =
    Step-tracked {F = percent} {v = ahead} {w = retried} web
      (task_runs ahead [] [] (schedule web (pod_of_size "web" 4) http true) Reply.accepted refl)
      waiting_pod-IsSound refl refl

try_schedule_once_example :
    let s' = (try_schedule percent web (pod_of_size "web" 4) http true waiting_pod).0 in
    try_schedule percent web (pod_of_size "web" 3) [] true s' ≡ (s', [])
try_schedule_once_example =
    try_schedule_once percent web (pod_of_size "web" 4) (pod_of_size "web" 3) http [] "a"
      waiting_pod place-idle refl

not_found-keeps_placement_example :
    let s' =
      reported web Reply.not_found
        (try_schedule percent web (pod_of_size "web" 4) http false waiting_pod).0 in
    (lookup web s'.pending ≡ none)
    × (lookup web s'.scheduler.placements
        ≡ some (record { node = "a"; limits = amount 4; ports = http }))
not_found-keeps_placement_example =
    not_found-keeps_placement percent web (pod_of_size "web" 4) http "a" waiting_pod place-idle
