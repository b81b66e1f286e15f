-- ===== src/Lib.antt =====
-- The head-end system talks to devices in the field and runs as a cluster of nodes. This library
-- models its core in these parts.
--
-- * The cluster protocol (src/cluster/protocol): Cluster/Protocol.antt has the message types, payloads
--   and codes of message.rs and payload.rs. Each `encode` and `decode` of a payload is the function
--   `encode_<payload>` or `decode_<payload>` of a child module (Heartbeat, Join, Delegate, Status,
--   Probe, Config), optional strings are in Protocol/Text, the header and the constructors of
--   `ClusterMessage` in Protocol/Message, and `ClusterMessageCodec` of codec.rs is Protocol/Codec.
-- * The buffers under it: Wire.antt. A buffer is the list of its bytes. A decoder takes the buffer to a
--   value, an error or a panic, and both keep what is left. The numbers of the `bytes` crate are the
--   record `Bytes`, with the documented behaviour of `put_*` and `get_*` as laws; Wire/BigEndian is
--   a concrete one. `String::from_utf8` is Wire/Utf8. `SocketAddr` is Cluster/Address, and its
--   `to_string` and `parse` are the record `AddrText`.
-- * The nodes (src/cluster/node.rs): Cluster/Node.antt. Floats are the record `Float32`.
-- * The membership list (src/cluster/membership.rs): Cluster/Membership.antt, one function for each
--   method, from the list to the new list. The gauges that a method sets are fields of the list. A
--   method that reads the clock takes the time as its argument `now`. Membership/Steps puts
--   the methods together as a step relation.
-- * The server of the cluster (src/cluster/server.rs): Cluster/Server.antt has one function for each
--   handler. It takes the membership list to the new list, with the effects (datagrams, metrics, values
--   for the configuration store) in their order, and the result. What the handlers ask of the outside,
--   such as the clock and the socket, is the record `World`. Server/Dispatch is `handle_message` and a
--   turn of `run_cluster_server`, in which a packet is decoded, over the membership list and the device
--   manager, with `handle_node_dead` and the `handle_probe_request` of src/cluster/failure_detector.rs,
--   behind whose sleep `meanwhile` is what other tasks did. The handlers of joins, leaves, suspicions,
--   probe responses and config updates are in Server/Join. Cluster/Heartbeat.antt is a turn of
--   src/cluster/heartbeat.rs. Cluster/Sample.antt is a list of three nodes for the tests.
-- * The failure detector (src/cluster/failure_detector.rs): Cluster/FailureDetector.antt. Its handlers are
--   cut where the code gives up the lock of the list, and `meanwhile` is what other tasks do to the
--   list in each gap. The calls of the database and the device manager are actions.
-- * The in-memory database (src/common/database/in_memory.rs): Database/InMemory.antt, one function
--   for each method of `Engine`, from the tables to the new tables and a result. The stored records are
--   in Database.antt, and the two pages of connections in InMemory/Listing.
-- * The scheduler (src/scheduler/scheduler.rs, schedule.rs): Scheduler.antt has its state and the times
--   of the buckets, Scheduler/Devices what it does for devices, over the in-memory database,
--   and Scheduler/Reload how it takes up the stored connections after a restart. The
--   `chrono` crate is the record `Chrono`, with what the scheduler relies on in `IsChrono`. The answers
--   of the job scheduler are arguments.
-- * The messages of the devices (src/common/messages): Messages.antt has the types, the payloads and the
--   codes, Messages/Payload the `encode` and `decode` of each payload as `encode_<payload>` and
--   `decode_<payload>`, Messages/Codec `MessageCodec` of codec.rs, and Messages/Create the constructors
--   of message.rs. The `rlp` crate is the record `Rlp` of Messages/Rlp, with the documented behaviour of
--   the calls as laws on encoded items; Rlp/Framed is a concrete encoding that meets them.
-- * The device manager (src/device_manager/device_manager.rs, src/common/delegated_device.rs):
--   DeviceManager.antt has its state and the wrappers of the scheduler, DeviceManager/Ownership the
--   loading, claiming and redistribution of devices, DeviceManager/Delegate what is handed over,
--   and DeviceManager/Rebalance `rebalance_cluster` (its floats are the record `F32`). The database that
--   the manager and its scheduler share stands in the scheduler.
-- * Delegation between nodes (src/cluster/delegation.rs): Cluster/Delegation.antt has one function for each
--   handler, over the membership list and the device manager, with the datagrams that it sends.
--   Delegation/Shutdown is `shutdown_delegation`. The lists that are cut into chunks have fuel for each
--   device, and a chunk takes at least one.
-- * The session with a device (src/scheduler/task/wake_up_device.rs): Scheduler/WakeUp.antt has the exchange
--   of messages and the end of a session, and WakeUp/Job the attempts of a job and the job around them
--   (the closure of `create_wakeup_job` in src/scheduler/scheduler.rs). What an attempt meets (the
--   socket, what is received, the clock) is the record `Peer`.
-- * The backdoor (src/backdoor/backdoor.rs), where devices register: Backdoor.antt has one function for each
--   handler, from the device manager, the datagrams sent and the timers to the new ones and a result.
--   What the handlers ask of the outside is the record `World`. `receive` is a turn of the loop, and
--   `ack_timer` what the timer of an acknowledgement does.
--
-- The server decodes with the codec, works on the membership list and answers with encoded messages.
-- The scheduler works on the tables of the database, the device manager on both, and the delegation
-- handlers on the device manager and the membership list. A job of the scheduler runs a session, which
-- encodes and decodes the messages of the devices, as the backdoor does.
--
-- Numbers: a machine integer is a natural number, with the wrap-around written out where the code
-- casts or adds with it (`% 2 ^ 16`, `% 2 ^ 32`). A `Uuid` is its 128-bit number, a `String` the list of
-- its bytes, a `HashMap` an association list whose order stands for the unspecified order of
-- iteration (Prelude/Map). But for the chunks above, and the count of items in Rlp/Framed (fuel for
-- each byte), no definition runs on fuel: the loops are structural, over the number of items that
-- a packet announces, the entries of a table or the attempts of a job.
--
-- Not modelled: the Postgres engine, RPC, the debug sessions of the backdoor, metrics other than those
-- above, logging, the command line and the timers of the cluster tasks. They are the outside of the parts
-- above: other systems, or tasks that call them.
pub mod Prelude
pub mod Wire
pub mod Messages
pub mod Database
pub mod Scheduler
pub mod DeviceManager
pub mod Cluster
pub mod Backdoor
