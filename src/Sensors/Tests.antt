-- ===== src/Sensors/Tests.antt =====
-- The routes between two sensors, a queue with one route, and the theorems at these.
use Prim.Native.Nat.{◌≤◌}
use nexus_n3_core.Prelude.{
  ℕ, String, true, false, Option, none, some, [], ◌∷◌, ◌≡◌, refl, arith, ◌+◌, ◌&&◌, ◌==◌, length,
  lower, strip, contains,
}
use nexus_n3_core.Sensors.Routes.{
  Declared, RoutedSensor, entry, routes_compatible, build_routing_table, routes_of_all, routes_from,
  routing_outputs_for_sensor, routing_inputs_for_sensor, normalize_routing_entries,
  normalize_schema_name, without_sample,
}
use nexus_n3_core.Sensors.Routes.Table.{
  shares, any, linked, has_route, routes_compatible-any, build_routing_table-links,
}
use nexus_n3_core.Sensors.Queue.{
  Route, Queue, new_queue, submit_routed_value, begin_run, quiesce_routing, enable_routing, drained,
}
use nexus_n3_core.Sensors.Queue.Jobs.{count_jobs, count_entries}
use nexus_n3_core.Sensors.Queue.Sound.{Reachable, new, next, submits, enables, one_job_of_route}
use nexus_n3_core.Sensors.Queue.Quiet.{submit-submit}
use nexus_n3_core.Sensors.Queue.Drains.{rest, begin, work, quiesced-drained}

abbrev imu : RoutedSensor
imu = record {
  id = 1;
  routing_inputs = none;
  routing_outputs = [];
  spec_inputs = [];
  data_streams = ("imu", some " IMUSample ") ∷ [];
}

abbrev viewer : RoutedSensor
viewer = record {
  id = 2;
  routing_inputs = none;
  routing_outputs = [];
  spec_inputs = entry none (some "Imu") ∷ [];
  data_streams = [];
}

table_of_two : build_routing_table (imu ∷ viewer ∷ []) ≡ (1, 2 ∷ []) ∷ []
unfolding build_routing_table routes_of_all routes_from routes_compatible routing_outputs_for_sensor
    routing_inputs_for_sensor normalize_routing_entries normalize_schema_name without_sample lower
    strip contains
table_of_two = refl

build_routing_table-links_example :
    has_route (build_routing_table (imu ∷ viewer ∷ [])) 1 2
    ≡ any
        (λ a. (a.id == 1) && any (λ b. (b.id == 2) && linked a b) (imu ∷ viewer ∷ []))
        (imu ∷ viewer ∷ [])
build_routing_table-links_example = build_routing_table-links (imu ∷ viewer ∷ []) 1 2

abbrev heart_rate : Declared
heart_rate = record { name = some "HR"; schema = none }

routes_compatible-any_example :
    routes_compatible (heart_rate ∷ []) (heart_rate ∷ [])
    ≡ any (λ i. any (shares i) (heart_rate ∷ [])) (heart_rate ∷ [])
routes_compatible-any_example = routes_compatible-any (heart_rate ∷ []) (heart_rate ∷ [])

abbrev to_viewer : Route
to_viewer = record { source = 1; target = 2 }

abbrev addresses : ℕ → Option String
addresses n = none

abbrev ready_queue : Queue
ready_queue = enable_routing (new_queue addresses)

abbrev one_value : Queue
one_value = submit_routed_value true to_viewer record { payload = "a" } ready_queue

value_waits : 1 ≤ count_jobs to_viewer one_value.jobs
unfolding submit_routed_value enable_routing new_queue count_jobs
value_waits = omega arith

reachable : Reachable addresses one_value
reachable = next (next new enables) (submits true to_viewer record { payload = "a" })

one_job_of_route_example :
    (count_jobs to_viewer one_value.jobs + count_entries to_viewer one_value.running ≤ 1)
    × (one_value.active_calls ≡ length one_value.pending)
one_job_of_route_example = one_job_of_route addresses one_value to_viewer reachable

submit-submit_example :
    submit_routed_value false to_viewer
      record { payload = "b" }
      (submit_routed_value true to_viewer record { payload = "a" } ready_queue)
    ≡ submit_routed_value true to_viewer record { payload = "b" } ready_queue
submit-submit_example =
    submit-submit false to_viewer record { payload = "a" } record { payload = "b" } ready_queue

quiesced_waits : 1 ≤ count_jobs to_viewer (quiesce_routing none one_value).jobs
unfolding submit_routed_value enable_routing new_queue count_jobs quiesce_routing
quiesced_waits = omega arith

quiesced-drained_example :
    (1 + work (begin_run to_viewer (quiesce_routing none one_value)) ≤ work one_value)
    × (work (begin_run to_viewer (quiesce_routing none one_value)) ≡ 0
        → drained none
            (begin_run to_viewer (quiesce_routing none one_value))
            (begin_run to_viewer (quiesce_routing none one_value)).pending
          ≡ true)
quiesced-drained_example =
    quiesced-drained addresses 1 one_value (begin_run to_viewer (quiesce_routing none one_value))
      reachable (begin to_viewer rest quiesced_waits)
