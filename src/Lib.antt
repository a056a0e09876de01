-- ===== src/Lib.antt =====
-- KubeCure: a Kubernetes operator that detects failing workloads, collects evidence, lets a
-- language model investigate under a budget, and records ranked hypotheses in a Diagnosis resource.
--
-- The parts and the files that model them:
--   api/v1alpha1/*_types.go: Api (Failure, Evidence, Diagnosis, Policy). The objects of Kubernetes that
--     the code reads are in Cluster, with the fields it uses.
--   internal/detector/detector.go: Detector/Reasons and Classify (one function for each of the code's),
--     described independently in Detector/Spec; proofs in Detector/Sound, Complete, Persist and Budget.
--   internal/detector/signature.go: Detector/Name; proofs in Detector/Segments, Naming and Unique.
--   internal/evidence/matrix.go: Evidence/Matrix; proofs in Evidence/Planning.
--   internal/evidence/redact.go: Evidence/Redact over any redactors, and the six patterns in
--     Evidence/Patterns over the matcher of Evidence/Regex; proofs in Evidence/Matching and Scrubbed.
--   internal/evidence/collector.go: Evidence/Collect over an interface of reads, which Evidence/Reads
--     fills (one child for each read) from the answers of the API server in Evidence/Source; proofs in
--     Evidence/Catalogue, Confined, Secrecy, Reported, Mentioned, Answered, Recorded, Serving and
--     Revisions.
--   internal/agent/model.go, broker.go: Agent/Model; the data of investigator.go and findings.go in
--     Agent/Types; findings.go in Agent/Findings; prompt.go in Agent/Prompt; the loop's state and its
--     pure steps in Agent/State and `Run` and `handleCalls` in Agent/Loop; the system prompt and
--     `submitSpec` in Agent/Texts; scripted.go in Agent/Scripted. Agent/Spec says what a
--     submission must meet; proofs in Agent/Valid, Ranking, Ceiling, Gate, Admission, Bounds, Metered,
--     Endings and Outcome.
--   internal/tools/scope.go, catalog.go, broker.go: Tools/Scope, Catalog, Broker; proofs in
--     Tools/Workload, Resolve, Agreement, Confine, Strict, Record, Audit and History, and over the
--     collector's reads in Tools/Grounded and Unowned. The schemas are in Tools/Schemas.
--   internal/tools/mcp.go and cmd/kubecure-mcp/main.go: Tools/Mcp; proofs in Tools/Served and Target.
--   internal/model/gemini/gemini.go: Gemini/Convert and Generate over the types in Genai; cmd/model.go:
--     Gemini/Environment; proofs in Gemini/Replay, Keys, Answers, Turns, Conversation and Configured.
--   internal/controller/*.go: Controller/Store (what the API server does with a Diagnosis), Policy and
--     Pod (pod_controller.go), Enrich (evidence_controller.go), Input and Investigate
--     (investigator_controller.go); proofs in Controller/Opened, Backstop, Moves and Concludes, and over
--     interleavings in Pipeline (the step relation) and Reachable. Watch has the filter on the events of
--     pods and what it wakes.
--   Prelude, Text (with numbers and dates) and Json (decoding, and the printing of Json/Print) hold
--     what the parts share; Examples runs the code on concrete data.
--
-- How they interact: the pod controller turns a signal of the detector into a Diagnosis; the
-- evidence controller has the collector fill its evidence; the investigator runs the agent and
-- records what it found. Each acts on one phase of the Diagnosis, and they meet only in the stored
-- object. The agent starts from that evidence, calls tools through a broker bound to a scope, and
-- submits findings; the broker's tools read through the same collector.
--
-- What the model fixes. A text is the list of its bytes, and texts are ASCII. A time is a number of
-- nanoseconds since Go's zero time, 0 being the zero time. A duration is an int64, whose
-- wrap-around is written out; the int32 count of redactions is kept as its bit pattern, modulo
-- 2^32. Budgets, tokens and costs are natural numbers: the schema has a minimum of 1 for the
-- budgets, and sums of at most 56 turns of int32 counts are far from the limits of int64. The
-- threshold 0.8 is written as 4 * limit <= 5 * used. A JSON message carries its bytes, what
-- json.Compact makes of them and what a decoder reads in them. The loop recurses on the turns that
-- are left, the `maxTurns` of the code, so that no other fuel is needed; the recording of an
-- investigation makes the five attempts of retry.DefaultRetry; every other loop recurses on its
-- list.
--
-- What is a parameter, being outside the repository: SHA-256 (with the length of its digest as a
-- hypothesis), the API client (one snapshot of answers for each tool call; that a found pod bears
-- the namespace asked for is a hypothesis), the order left by sort.Slice, the layout of the JSON
-- of a history, the model, the broker and the clock of the loop, which read and change a world of
-- any type; for the collector the answers of the API server and the matching of selectors, for
-- Gemini its client and the codec of arguments. What the code passes on to encoding/json unread
-- (resources, probes, ports, tolerations, taints) is kept as the JSON that it becomes, and a map
-- or a slice that came from the API is nil if it is empty. What a reconcile reads may be stale and
-- each of its writes may fail with any error; a status write succeeds only at the version that was
-- read. The loop and the controllers take any system prompt and any concluding tool, and the
-- collector and the broker any redactors.
--
-- What is not modelled: contention for locks (calls are made one after another), the watches on
-- diagnoses, the log lines of the controllers, the transport of the protocol, the manager's entry point, which wires
-- libraries, generated code and test utilities.
pub mod Prelude
pub mod Text
pub mod Api
pub mod Cluster
pub mod Detector
pub mod Json
pub mod Genai
pub mod Gemini
pub mod Agent
pub mod Evidence
pub mod Tools
pub mod Controller
pub mod Examples
