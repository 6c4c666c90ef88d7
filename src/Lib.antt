-- ===== src/Lib.antt =====
-- The compute agent: a program that runs workloads (containers, compose projects and virtual
-- machines) on one node, as a control plane asks for them over gRPC. This library models the parts
-- that decide what happens to a workload and proves what makes them correct.
--
-- The parts and how they interact. The gRPC server (internal/grpc/server.go) turns requests into
-- workloads and tasks, and answers from the store and the queue. The scheduler client
-- (internal/control/client.go) registers the node with the control plane, sends heartbeats with what
-- the workload manager reports, and dials again when they fail; internal/config/config.go says where.
-- The task queue (internal/task/queue.go) takes requests and runs them on workers. The workload
-- manager (internal/workload/manager.go) applies, deletes and reconciles workloads: it reads and
-- writes the store (internal/state), calls the runtime of the workload's type, provisions volumes,
-- and asks the resource monitor before it creates anything. The runtime of virtual machines
-- (internal/runtime/vm.go) makes disks, images and domains; the volume manager
-- (internal/platform/storage.go) chooses among the storage providers (internal/storage/providers).
-- Failures are classified and retried by the retry policy (internal/retry/policy.go), with a tracker
-- for each workload, and reported as workload errors (internal/errors/errors.go). The garbage
-- collector (internal/garbage/collector.go) works on the same store and runtimes. Storage pools
-- (internal/storage/manager.go) stand apart: nothing else calls them yet.
--
-- Files. A Go method `SomeName` is the function `some_name`, unless said otherwise.
--   Base and below         tests, lists, texts, int64 and dictionaries that all parts share
--   Models, Specs, Volumes pkg/models/workload.go and the types of internal/platform/types.go
--   Clock                  instants and durations of Go's time package
--   Errors                 internal/errors/errors.go
--   Retry.Reason           FailureReason; Retry.Classify: ClassifyError and its keyword tests
--   Retry.Tracker          RetryPolicy and RetryTracker; Attempts and Delays prove their laws
--   State                  the buckets of internal/state; Laws proves their laws, Refinement that they
--                          are four partial functions
--   Workload.World         the state of the Manager and what it calls; Env holds the answers
--   Workload.Status        the helpers on statuses; Workload.Storage: managed volumes
--   Workload.Apply         ApplyWorkload, applyDesiredStateTransition
--   Workload.Lifecycle     DeleteWorkload (remove_workload), GetStatus (current_status),
--                          ListWorkloads (list_current), UpdateWorkloadMetrics (workload_counts)
--   Workload.Recovery      handlePendingRecovery; Workload.Reconcile: ReconcileWorkload
--   Workload.Keeps         rules for what the manager's programs keep, and for the calls they make
--   TaskQueue              the Queue; Lifecycle, Submission, Cleanup and Stats prove its laws
--   StoragePools           the Manager of internal/storage/manager.go; Accounts, Laws, Soundness and
--                          RoundTrip prove its laws
--   Garbage                internal/garbage/collector.go; Orphans, Failures and Zombies prove its laws
--   ReconcileLoop          one cycle of internal/reconcile/loop.go
--   Grpc                   internal/grpc/server.go on an Agent, which is the manager's world and the
--                          queue, if there is one; Messages: api/proto/agent.proto; Convert, Tasks,
--                          Handlers, Actions: the handlers; Submission and History prove laws
--   Config                 internal/config/config.go: Validate; Labels, Load; Validation and Ready
--                          prove their laws
--   Control                internal/control/client.go; Messages: api/proto/control.proto; Session is
--                          Run, Backoff its pauses, Report and Capabilities what is sent
--   Vm                     internal/runtime/vm.go; States, Power (Start, Stop), Removal (Delete),
--                          Disks, Seed (cloud-init), DomainXml, Create
--   Providers              internal/storage/providers; Local, Remote (NFS and Ceph) and Manager, which
--                          is internal/platform/storage.go; Names, Root and Routing prove laws
--   Resources              internal/resources/monitor.go; Limits proves when there is room
--   Node                   internal/node/identity.go
--   Compose                Status and the payloads of internal/runtime/compose.go; Counts proves what a
--                          state says
--   Examples               concrete inputs
--
-- The model. A method of the manager is a function from the world to its result and the next world.
-- What the clock shows, whether a transaction of the database fails, and what runtimes, volume
-- manager and resource monitor answer is an `Env`, over which the theorems quantify; the answers may
-- depend on all calls made so far. A method holds the lock of its workload throughout, so it is one
-- step; `GetStatus` takes no lock in the source, and interleavings with it are not modelled. A branch
-- of a long method is a function of its own, named for what it does. Objects that Go shares by
-- pointer are passed on with the changes that a callee makes to them; the queue, where several
-- goroutines hold one task, has references instead. The endless loop of the scheduler client is a
-- machine that takes one event a step, an event being what a call, the clock or the context answers.
-- The runtime of virtual machines acts on a set of files and a list of calls of libvirt, whose
-- answers are a `Host`; in the same way the providers act through a `System`. Go's sort of the task
-- history is an insertion sort.
--
-- Bounds. There is no fuel: every loop runs over a list, and the wait of a stop over the number of
-- looks that its deadline leaves. Integers that can overflow are wrapped to
-- int64 where the source computes with them. Counters that grow by one are natural numbers.
--
-- Not modelled. The runtime of containers, what compose is told to do, Vault certificates, metrics,
-- tracing and logging are calls of other systems. Of the gRPC server the health check and TLS
-- are left out, of the scheduler client its credentials and the requests it forwards, of the
-- runtime of virtual machines its connection, the list of domains and the metadata of a status.
-- Reading the configuration's file and environment is a parameter of loading it. The float
-- computation of a retry delay is a parameter. A stored value stands for its JSON. The order in
-- which the database lists its keys is the order of the dictionary, and upper-case letters
-- beyond ASCII are not lowered.
mod Base
pub mod Models
pub mod Clock
pub mod Retry
pub mod Errors
pub mod Volumes
pub mod Specs
pub mod State
pub mod Workload
pub mod TaskQueue
pub mod StoragePools
pub mod Garbage
pub mod ReconcileLoop
pub mod Grpc
pub mod Config
pub mod Control
pub mod Providers
pub mod Node
pub mod Compose
pub mod Resources
pub mod Vm
mod Examples
