-- ===== src/Lib.antt =====
-- Nexus N3 core: the coordinator of a distributed deployment of wearable sensors.
--
-- A master node and its workers connect sensors to subjects, stream their samples and store them by
-- session. The master keeps a registry of nodes (nexus_n3/distributed/registry.py), plans which node
-- hosts which subject, starts the official acquisition only when every node is ready, and finalizes
-- a session when every node has drained (nexus_n3/distributed/master_node.py). The subjects'
-- sensors are connected one subject after the other by SubjectConnectionSequence
-- (nexus_n3/core/subject_connection_sequence.py), which sends commands to the nodes and is driven
-- by their events; the master and a standalone core both use it.
--
-- The parts:
-- - Prelude: Boolean tests on ℕ, lists over ℕ, Python's sets and dictionaries with string keys
--   (Prelude/Keys), sorting (Prelude/Sorted), truth of optional strings (Prelude/Truth), and
--   str.strip, lower and upper (Prelude/Text).
-- - Distributed/Registry: NodeRegistry and capabilities.py. `register_node`, `heartbeat`,
--   `set_ai_nodes`, `replace_subjects` and `assign_subject` are the methods of those names.
-- - Distributed/Planner: `_plan_subject_assignments`, `_validate_subjects_per_node`,
--   `_subject_requirements`, `_node_supports_subject` and `assign_subjects` of MasterNode; the
--   proofs are in Planner/Capacity, Planner/Complete, Planner/Choice and Planner/Greedy.
-- - Distributed/OfficialStart: `_create_official_start_record`, `_record_official_start_event` and
--   the branch of `dispatch_command` for CMD_START_OFFICIAL_STREAM; the proofs are in
--   OfficialStart/Reports, OfficialStart/Barrier and OfficialStart/Commit.
-- - Distributed/Drain: `_create_drain_record`, `_record_drain_ack` (as `note_ack`, its part under
--   the lock, and `finish_drain`, its part after the finalization hook) and
--   `_emit_aggregate_drain`; the proofs are in Drain/Decision and Drain/Once.
-- - Distributed/Initialization: `_finish_initialization` (as `install` and `retain`),
--   `_record_initialization_reply`, `_record_initialization_recovery` and the recovery's part of a
--   reset; Initialization/Attempt has `_begin_initialization`. The proofs are in
--   Initialization/Confirmed, Initialization/Runs and Initialization/Agreement.
-- - Distributed/Routing: the general part of `dispatch_command`, which groups subjects by node and
--   opens the start and stop barriers, and `send_command`; the proofs are in Routing/Deliveries.
-- - Core/Subject: the class Subject (nexus_n3/core/subject.py); `split` is the loop of
--   `ingest_sample`, the proofs are in Subject/Blocks and Subject/Stored.
-- - Core/SubjectGraph: `init_subjects` and the lookups of SubjectGraph
--   (nexus_n3/core/orchestrators/subject_graph.py), with the installed plug-ins as a parameter; the
--   proofs are in SubjectGraph/Installed.
-- - Core/Gate: the startup gate. Gate/Stats is StartupGateSensorStats (nexus_n3/core/startup_gate.py)
--   with the thresholds of nexus_n3/core/core.py; Gate/State, Gate/Official, Gate/Commands and
--   Gate/Callbacks are the attributes of Core about a start and the methods that change them:
--   `_evaluate_startup_gate` is `poll_startup_gate`, `startup_gate_timeout`, `prepare_each` and
--   `preparation_ended`, which are the parts that run under its lock or between; `_stop_stream_impl`
--   is `begin_stop` and `end_stop` or `finish_stop`. Gate/Steps has the steps of a start, a stop, a
--   commit, a preparation and a reset, as the lock cuts them, and puts those of all threads in any
--   order; the proofs are in Gate/Safety, Gate/Stale, Gate/Stages and Gate/Outcome, with the lemmas on
--   each operation in Gate/Kept, Gate/Activated, Gate/Sound and Gate/Prepared, and those on the
--   measures in Gate/Samples and Gate/Stable.
-- - Sensors/Routes: `_build_routing_table` of SensorManager (nexus_n3/sensor_manager/SensorManager.py)
--   with the normal form of what the sensors declare; the proofs are in Routes/Table.
-- - Sensors/Queue: `_submit_routed_value`, `_run_routed_route` (as `begin_run` and `end_run`, before
--   and after the call), `_finish_routed_route`, `_quiesce_routing` and `_enable_routing`; the proofs
--   are in Queue/Sound, Queue/Quiet and Queue/Drains, on the lemmas of Queue/Jobs.
-- - Sensors/Gateway: `_extract_item` of GatewaySerialClient
--   (nexus_n3/sensor_manager/adapters/gateway_ble_client.py), round after round; the proofs are in
--   Gateway/Rounds, Gateway/Frames and Gateway/Noise.
-- - Plugins/Rpc: the table of pending requests and the ordered handlers of JsonRpcConnection
--   (nexus_n3/plugins/common/jsonrpc.py); the proofs are in Rpc/Answers and Rpc/Order.
-- - Distributed/Router: `_router_loop`, one message at a time, over the registry and the barriers; the
--   proofs are in Router/Registered.
-- - Connect: SubjectConnectionSequence. State holds the record of its attributes and `_progress`,
--   `_fail`, `exclusions`; Sequence holds `configure`, `start`, `_step`, `_next_subject`, `_expired`;
--   Replies and Events hold `on_event`. Sound and Safety are about the selected addresses.
--
-- How the code is read. Methods take the state of their object and return it. A lock that a method
-- holds from its first to its last line makes the method one step; in the startup gate each hold of
-- the lock is a step, and so is each write without it. A set of strings and a dictionary
-- with string keys are lists, read only through the functions of Prelude/Keys; a key that a payload
-- may lack is an option. What is given to `emit`, to `dispatch` and to a log is returned as data or
-- appended to a list. An exception is a result. Identifiers that `uuid4` draws are a function of how
-- many were drawn, and what `dispatch` raises is a function of the command: both are parameters.
-- Recursion is structural, but for `extract_item`, for which a round more than the buffer has bytes is
-- enough, and `split`, whose fuel is the number of buffered samples: that is
-- enough for every positive block size, and for the block size 0 the source's loop does not end.
--
-- Bounds: counts of sensors are natural numbers, as Python's integers are unbounded; a negative
-- `number_of` is outside of the model. The bound of eight sensors for a node is the code's
-- MAX_TOTAL_SENSORS_PER_NODE. `strip`, `lower` and `upper` are those of ASCII text,
-- and `casefold` is read as `lower`. The configured sampling rates of a
-- subject's sensors are in thousandths of a hertz, those that the gate measures are whole numbers, and
-- the gate's times whole microseconds, with exact arithmetic for its floats.
--
-- Not modelled: sockets, mDNS, threads and logging of the nodes; the sensor adapters and the drivers
-- they call, but for the gateway's parser; reset, configuration and connection in Core; file storage, upload and offload; the HTTP and WebSocket gateway; the installation and
-- the processes of plug-ins; the timings that go with an official start.
pub mod Prelude
pub mod Distributed
pub mod Core
pub mod Connect
pub mod Sensors
pub mod Plugins
