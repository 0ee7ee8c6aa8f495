-- ===== src/Lib.antt =====
-- Barenetes: a small cluster orchestrator in Rust.
--
-- The program. The API server (api/) keeps the pods and the nodes, in memory or in etcd, and publishes
-- an event for every change. The scheduler (scheduler/) watches both streams, places each pod on a
-- node, and reports the outcome to the API server with `assign_pod`. The agents (agent/) report their
-- node and run what the API server tells them to; each asks a CNI daemon (cni/) for the network.
-- `barectl` (barectl/) is the command line. The messages are the protobuf files of proto/.
--
-- The files.
--   Base               shared helpers: Boolean tests, `Equality`, `Result`, association lists for hash
--                      maps (Base/Map), `i32` as bit patterns below 2^32 (Base/Int32), code with
--                      a state that may fail (Base/Action), `BTreeSet` as a sorted list
--                      (Base/SortedSet), decimal texts (Base/Decimal), and the search in a range
--                      of numbers (Base/Range)
--   Shared             the messages of proto/shared/v1 and proto/api/v1; an enum is its number on the
--                      wire where the code stores it
--   Scheduler/Basic    scheduler/src/schedulers/basic.rs: `BasicScheduler` and its methods, each a
--                      function from the state to the state and the answer. Claims and Ports have the
--                      sums of claims and the host ports, Keyed the names of the nodes, Evict and
--                      Record the eviction and the round trips
--   Scheduler/Basic/Place  `place`: Choice is about when it names a node, Safety about recording the
--                      pod there, Elect about the node that it prefers, and Retry about the answer of
--                      `upsert_node`
--   Scheduler/Watch    scheduler/src/main.rs: `SchedulerState` and the two watch loops. Each stretch of
--                      code under one lock is a step; what a loop has still to do is a `Task`. Steps is
--                      the step relation, Tracked is about the pods in its care, Settle about a stale
--                      retry and a pod that is gone
--   Identity           proto/src/tls_identity.rs: the roles, the peer of a connection and its checks
--   Api/Status, Api/Validation  api/src/errors.rs and api/src/validation.rs
--   Api/Store          api/src/store.rs: `Store` and its methods, a branch for etcd and one for memory:
--                      Pods, Nodes, Snapshots, and Keys, which has the keys of etcd
--   Api/Handlers       api/src/handlers: Cli, Scheduler and Agent, each handler a method of the store
--                      that may fail with a status
--   Api/Service        api/src/service.rs: the roles, and the drop of an agent's stream. Liveness,
--                      Ready, Streams and Reach are about the status of the nodes; Effects and
--                      Authority have what each handler leaves as it is, for Gate, which is about
--                      the roles, and Impersonation is about whose pods an agent reports on
--   Cni                cni/src: the daemon's files and the machine that its commands change. Addressing,
--                      Files, Pool (ip_pool.rs), State (state.rs), System, Firewall, Vlan (vlan.rs,
--                      bridge.rs and `node_id`), Workload (workload.rs), Reconcile and Handler. Below
--                      them, Working has what the files do on a host where no call on them fails,
--                      Pool/Allocation the pool as a set, Workload/Rollback, Connection and Removal
--                      what adding and deleting a workload leaves, and Reconcile/Pools the rebuilding
--   Agent              agent/src: Vlan (vlan.rs), Cgroup (cgroup.rs) and Kubelet (kubelet.rs, cni.rs).
--                      Vlan/Allocations and Kubelet/Vlans are about the VLANs of the pods
--   Barectl            barectl/src: the pod that `create pod` sends
--
-- What the model assumes. A hash map is an association list, and its order of iteration is the order
-- of the list. `f32` is a parameter with the operations that the code calls. `i32` arithmetic wraps
-- round, as in a release build. In the step relation the tasks run in any order, which is more
-- freedom than the process has; a reply of `assign_pod` is an input. A method of the API server's
-- store is one step, as its locks are meant to make it. A handler that calls several of them runs
-- without another request between; the report of a pod's status, whose check must still hold at its
-- write, is the exception: it is split into `check_owner` and `write_report`. The client of etcd and
-- the protobuf codec, and the X.509 parser, are parameters. The system that the CNI daemon and the
-- agent run on is a parameter: the commands, the calls on files that change no content, SHA-256, the
-- JSON codec, the parser of an IP address of either version. The content of the daemon's files is
-- part of its state. `FilesWork` says that no call on them fails, that the codec reads back what it
-- wrote, and that it writes a pool of fewer than 1024 addresses within `MAX_STATE_SIZE`; the
-- commands may still fail at any point. A pool is the list of its addresses in order, and an address
-- is its 32-bit number; its text is that of the standard library's `Display` and `FromStr`, which
-- Cni/Addressing writes out. `find_free` counts the numbers of the range down, so that it looks at
-- each of them once; no other definition runs on fuel but `show`, which has one step for each unit.
--
-- What is not modelled: the overlay between nodes, the agent's watch of its desired state and its client
-- of containerd, the other commands of `barectl`, and the tool that issues certificates; the capacity
-- of the broadcast channels; connecting, tracing, sockets and the command lines, which are I/O.
pub mod Agent
pub mod Api
pub mod Barectl
pub mod Base
pub mod Cni
pub mod Identity
pub mod Scheduler
pub mod Shared
