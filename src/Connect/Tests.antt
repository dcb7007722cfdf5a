-- ===== src/Connect/Tests.antt =====
-- Connect All for two subjects on two nodes, and the theorems applied to it.
use Prim.Native.String.{◌++◌ as text_append}
use nexus_n3_core.Prelude.{
  ℕ, zero, suc, String, ◌≡◌, refl, true, false, none, some, List, [], ◌∷◌, contains, add, discard,
  lookup, insert, drop, length, same_set, subset, strip, upper, sorted,
}
use nexus_n3_core.Connect.State.{
  Subject, Sequence, Env, init, emit_progress, addresses_of_others, dedup, normalized, fail,
}
use nexus_n3_core.Connect.Sequence.{
  configure, start, step, send, command_for, next_from, next_subject, begun,
}
use nexus_n3_core.Connect.Replies.{
  EventKind, sensors_discovered, sensor_connected, Event, results_for, intersects, all_nonempty,
  distinct, first_discovered, first_connected, is_terminal, valid_discovery, valid_connection,
  count, same_counts, counts_agree, zip, all_set_up,
}
use nexus_n3_core.Connect.Events.{
  keep_selection, after_discovery, after_connection, identify, end_step, on_reply, on_payload,
  on_event,
}
use nexus_n3_core.Connect.Sound.{values}
use nexus_n3_core.Connect.Safety.Runs.{
  Call, configured, asked, observed, act, history, history-apart, history-crashed,
}

-- "t", "tt", ...
token : ℕ → String
token zero = "t"
token (suc n) = text_append "t" (token n)

abbrev env : Env
env = record { uuid = token; raises = λ c. none }

abbrev subject : String → String → Subject
subject id node = record { subject_id = id; node_id = node; locations = "wrist" ∷ [] }

abbrev reply : EventKind → String → String → String → Event
reply kind operation id address = record {
  kind = kind;
  node_id = some "master";
  payload = some (record {
    correlation_id = some operation;
    connection_sequence_id = some "t";
    node_id = none;
    operation_complete = true;
    selected_addresses = some address ∷ [];
    subjects =
        record {
          subject_id = some id;
          discovered_sensors = some address ∷ [];
          connected_sensors =
              record {
                address = some address;
                location = some "wrist";
                status = some "CONNECTED";
                setup_complete = true;
              }
              ∷ [];
        }
        ∷ [];
    disconnected_sensors = [];
    recover_session = false;
    core_ready_for_configuration = false;
    message = none;
  });
}

-- Discovery and connection of the first subject, and the discovery of the second.
abbrev calls : List Call
calls =
    configured (subject "a" "master" ∷ subject "b" "master" ∷ [])
    ∷ asked (some "request")
    ∷ observed (reply sensors_discovered "tt" "a" " aa:01")
    ∷ observed (reply sensor_connected "ttt" "a" "AA:01")
    ∷ observed (reply sensors_discovered "ttttt" "b" "aa:02")
    ∷ []

abbrev final : Sequence
final = history env calls init

final-discovered : final.discovered ≡ "b" ∷ "a" ∷ []
unfolding history act init configure start begun next_subject next_from step send command_for
    emit_progress addresses_of_others dedup normalized fail on_event on_payload on_reply end_step
    keep_selection after_discovery after_connection identify results_for intersects all_nonempty
    distinct first_discovered first_connected is_terminal valid_discovery valid_connection count
    same_counts counts_agree zip all_set_up token add discard contains lookup insert drop length
    same_set subset strip upper sorted
final-discovered = refl

final-completed : final.completed ≡ "a" ∷ []
unfolding history act init configure start begun next_subject next_from step send command_for
    emit_progress addresses_of_others dedup normalized fail on_event on_payload on_reply end_step
    keep_selection after_discovery after_connection identify results_for intersects all_nonempty
    distinct first_discovered first_connected is_terminal valid_discovery valid_connection count
    same_counts counts_agree zip all_set_up token add discard contains lookup insert drop length
    same_set subset strip upper sorted
final-completed = refl

final-selected : final.selected ≡ ("a", "AA:01" ∷ []) ∷ ("b", "AA:02" ∷ []) ∷ []
unfolding history act init configure start begun next_subject next_from step send command_for
    emit_progress addresses_of_others dedup normalized fail on_event on_payload on_reply end_step
    keep_selection after_discovery after_connection identify results_for intersects all_nonempty
    distinct first_discovered first_connected is_terminal valid_discovery valid_connection count
    same_counts counts_agree zip all_set_up token add discard contains lookup insert drop length
    same_set subset strip upper sorted
final-selected = refl

history-apart_example : contains (values "b" final.selected) "AA:01" ≡ false
unfolding contains values lookup
history-apart_example =
    history-apart env calls "a" "b" "AA:01" refl (rw final-discovered refl)
      (rw final-discovered refl) (rw final-selected refl)

history-crashed_example : final.crashed ≡ false
history-crashed_example = history-crashed env calls
