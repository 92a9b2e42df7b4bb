-- ===== src/Lib.antt =====
-- Nightjar, a Kubernetes operator that finds constraints in a cluster and tells developers which of
-- them block their workloads.
--
-- The parts and how they interact. The discovery engine scans the cluster for resources that look
-- like policies and runs an informer for each. What an informer delivers is parsed by the adapter
-- that the registry has for the resource, and the constraints go to the indexer, a map by UID that
-- reports each change to a callback. The correlator reads warning events and Hubble flow drops, asks
-- the indexer for the constraints that concern them, and sends a notification for each pair that it
-- has not seen of late. The dispatcher of the notifier limits and deduplicates these notifications
-- and writes a Kubernetes event whose text and annotations depend on a level of detail. The
-- evaluator looks for companion resources that a workload needs and does not have, and reports them
-- once they have been missing for a while. The admission webhook asks the controller for constraints
-- and warns of those that concern a request, and the Hubble client keeps a stream of flow drops open.
-- A change of the index makes namespaces due for a new report, which a reconciler writes in rounds,
-- and queues updates of the annotations of their workloads; the tools for agents answer questions
-- from the index.
--
-- The files:
--   Types, Types/Value         internal/types: Constraint and its parts, the values of an object
--   Util, Util/Unique          internal/util: unstructured.go, labels.go, strings.go
--   Indexer/                   internal/indexer/indexer.go
--   Dedupe/                    tryMarkSeen and cleanupDedupeCache of internal/correlator/correlator.go
--                              and internal/notifier/dispatcher.go
--   Hubble/                    internal/hubble: Flow for types.go, Converter for converter.go and
--                              convertFlow, Client for the connection loop of client.go
--   Correlator/                internal/correlator/correlator.go: handleEvent and handleFlowDrop
--   Registry/                  internal/adapters/registry.go
--   Adapters/NetworkPolicy     internal/adapters/networkpolicy/adapter.go
--   Discovery/                 internal/discovery/engine.go: Configuration what makes a resource
--                              constraint-like, Engine the handlers of an informer, Watching the
--                              profiles, Scanning the scan, Reconciling the reconciler of
--                              internal/controller/constraintprofile_controller.go
--   Pipeline/                  discovery, index and correlator together
--   Notifier/                  internal/notifier: Templates, Messages, Steps, Remediation, BuildEvent
--                              and EventBuilder for event_builder.go and remediation.go, Dispatcher
--                              for dispatcher.go
--   Requirements/              internal/requirements: Evaluator for evaluator.go, Context for
--                              eval_context.go, Issuers, Monitors and Istio for the rules; Registered
--                              for the two evaluators of cmd/controller/main.go
--   Webhook/                   cmd/webhook/admission.go
--   Api/                       internal/api/constraints.go, and the webhook that asks it
--   Reports/                   internal/notifier/report_reconciler.go: Entries and Status for
--                              buildReportStatus, Reconciler for the triggers and the rounds
--   Workloads/                 internal/notifier/workload_annotator.go: Annotations for
--                              buildAnnotationPatch, Annotator for the queue and the worker
--   Mcp/                       internal/mcp: Results and Messages for types.go, Explain, Namespaces
--                              and Handlers for handlers.go
-- In each folder the other modules hold lemmas and theorems, and Tests the runs. Prelude has what
-- all share: tests, lists, association lists, texts.
--
-- How state and operations correspond. A struct is a record with the fields that its methods use, a
-- Go map an association list with the newest entry first, a set that is only asked for membership a
-- list or a function, a nil pointer `none`. A method is a function from the state to the new state
-- and its results, an error is a value. A mutex makes each method one step, so a history is a list
-- of calls; a goroutine's loop appears as the calls that it makes, with what `select` and the clock
-- gave as an argument of each. A round of the report reconciler, which takes its mutex piecewise, is
-- one step too, so changes of the index stand between rounds; and so is the send of a flow drop with
-- its count, between which a reader may see the lower count. A time is a number of nanoseconds; no reading comes near 2^63, and
-- differences of times are written as sums, since subtraction stops at 0. The connection
-- loop of the Hubble client is a step relation; every other loop that is modelled is over a list, and
-- is recursion on it. Fuel is used only to print a number in decimal, where one more than the number
-- is more than its digits.
--
-- What is not under the repository is a parameter: the token bucket of golang.org/x/time/rate, the
-- accessors and selectors of the Kubernetes libraries (the record Util.Library), the outcome of each
-- call of the API server, the parsers of the adapters where the engine calls them, package sort
-- (the record Prelude.Sorting), encoding/json and the YAML decoder.
--
-- Not modelled: logging, metrics, the start and the wiring of goroutines, the caches of client-go;
-- several workers at once in the annotator of workloads; the other adapters, the servers of the
-- tools and of the webhook, and the command line.
pub mod Prelude
pub mod Types
pub mod Util
pub mod Indexer
pub mod Dedupe
pub mod Hubble
pub mod Correlator
pub mod Registry
pub mod Adapters
pub mod Discovery
pub mod Pipeline
pub mod Webhook
pub mod Notifier
pub mod Requirements
pub mod Reports
pub mod Mcp
pub mod Workloads
pub mod Api
