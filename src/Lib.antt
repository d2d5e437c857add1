-- ===== src/Lib.antt =====
-- The Flink Chaos Operator: a Kubernetes operator that runs chaos experiments on Flink jobs.
--
-- A user creates a ChaosRun (api/v1alpha1). The controller (internal/controller) drives it through
-- the phases Pending, Injecting, Observing and CleaningUp to Completed, Aborted or Failed. It asks
-- a resolver for the target's pods, the safety checker (internal/safety) for leave, a scenario
-- driver (internal/scenario) to inject and to clean up, and an observer (internal/observer) whether
-- the job has recovered. It keeps all its state in the status of the ChaosRun, which it patches
-- at the API server.
--
-- Where the parts are modelled:
--   Api.Types            the ChaosRun, its specification and status (api/v1alpha1/chaosrun_types.go)
--   Api.Validation       Validate and its parts (api/v1alpha1/chaosrun_validation.go); an error is the
--                        list of messages that errors.Join collects. Api.Bandwidth is bandwidthRe
--   Api.Defaults         SetDefaults and its parts
--   Interfaces           the interfaces of internal/interfaces/interfaces.go as functions
--   Resolvers.Pods       internal/podutil/podutil.go; Resolvers.Picks describes what it reads of a pod
--   Resolvers.PodSelector
--                        Resolve of internal/resolver/podselector/resolver.go
--   Resolvers.Deployment Resolve of internal/resolver/flinkdeployment/resolver.go
--   Resolvers.Ververica  Resolve of internal/resolver/ververica/resolver.go
--   Safety.Checker       Checker.Check and each of its checks (internal/safety/checker.go)
--   Scenarios.PodKill    the driver of internal/scenario/tmpodkill/driver.go: selectPods, explicitSelect,
--                        randomSelect, deletePods and Inject
--   Scenarios.Policy     policy.Build of internal/netchaos/policy/builder.go
--   Scenarios.Partition  the driver of internal/scenario/networkpartition/driver.go: Inject and Cleanup
--   Scenarios.Ephemeral  internal/ephemeral/ephemeral.go, and the loops over pods and over records that the
--                        drivers of internal/scenario/networkchaos and resourceexhaustion both have
--   Scenarios.NetworkChaos, Scenarios.ResourceExhaustion
--                        Inject and Cleanup of those two drivers
--   Observers.*          Observe of internal/observer/kubernetes, flinkrest and composite
--   Observers.Checkpoints
--                        IsCheckpointStable, Checkpoints and Jobs of internal/observer/flinkrest; the
--                        controller takes the check as a function
--   Observers.Metrics    the other methods of the client in internal/observer/flinkrest/client.go
--   Scenarios.Tc         AddArgs, FilterArgs, EntrypointScript and the rest of internal/netchaos/tc/builder.go,
--                        and Args of internal/scenario/resourceexhaustion/stress/builder.go
--   Api.Texts            the conversions between texts and the named types
--   Controller.World     the calls to the outside: client, clock, recorder, metrics, collaborators
--   Controller.Phases    internal/controller/phases.go
--   Controller.Pending, Injecting, Observing, Outcomes, Cleaning, Reconcile
--                        the handlers of internal/controller/chaosrun_controller.go with every patch
--                        and every early return; a stretch of a handler is a function of its own
--   Controller.Lifecycle.History
--                        sequences of reconciles, and the phases that they store
--   Cli.Flags            cmd/kubectl-fchaos/validate.go
--   Cli.Target, Cli.Runs, Cli.Commands
--                        the target flags, the runs of the run commands, and the requests and rows of the
--                        commands (cmd/kubectl-fchaos/main.go)
--   ApiServer.Http       answers, names and the client of internal/apiserver
--   ApiServer.Creates, ApiServer.Runs
--                        the handlers of internal/apiserver/handlers_chaos_write.go and handlers_chaos.go
--   ApiServer.Cluster    what the other handlers read of the cluster
--   ApiServer.Endpoint   internal/apiserver/handlers_flink.go
--   ApiServer.Deployments
--                        internal/apiserver/handlers_deployments.go
--   ApiServer.Topology   internal/apiserver/handlers_topology.go, with the storage connections in its
--                        children
--   ApiServer.Events     the event stream of internal/apiserver/handlers_sse.go, and the count of the streams
--   Tests                a concrete API server and runs, and the theorems at them
--
-- How the code is modelled. A handler is a function from a World, which counts the calls made
-- and keeps their trace, to its reply and the World after it. `Env` gives the answers of one
-- reconcile: each takes the moment of the call, so that no two calls need agree. An effect in
-- the trace holds what was sent and what was answered. Reading the clock is a call. A patch sends the
-- base and the changed run and, as Status().Patch does, replaces the run by the server's answer.
-- Go's named strings are data types with a constructor `other` for the texts without a name.
-- Durations and times are whole nanoseconds; int32 conversions keep their wrap-around. The loops
-- are structural recursions over lists, so no fuel is used but in `decimal`, where the number
-- itself is enough, since each round divides it by ten.
--
-- Parameters, since their code is not here: the API server, the clock, the shuffle of math/rand,
-- net.ParseCIDR, the floating point numbers and fmt.Sscanf, meta.SetStatusCondition and the finalizer
-- functions of controller-runtime. What a theorem needs of them is among its hypotheses.
--
-- Not modelled: logging; HTTP and the decoding of JSON; of the API server of the user interface the
-- routes; of the plugin the flag definitions and the printing; the entry points and the web interface. A
-- NetworkChaos injection is given by the rule and the duration, whose script Scenarios.Tc builds; its
-- panic is not a step of the driver's model. The names of unsupported types are left out of error
-- texts, and so are the escapes that %q writes for unusual characters.
pub mod Prelude
pub mod Api
pub mod Interfaces
pub mod Resolvers
pub mod Safety
pub mod Scenarios
pub mod Observers
pub mod Controller
pub mod Cli
pub mod ApiServer
mod Tests
