-- ===== src/Lib.antt =====
-- k8s-ai: an assistant that diagnoses a Kubernetes cluster and runs kubectl commands and tools for
-- a user. What it may run is decided by several layers, which this library models with the state that
-- they share:
--
--   internal/approval classifies a command (risk.go), looks for the grants of a session (grant.go),
--   applies the policy (decision.go, policy.go) and guards the creation of objects (create_risk.go,
--   codeguard.go). Files Approval/Shell, Risk, Decision, Grant, CreateRisk and CodeGuard hold the
--   definitions; Approval/Classify, GrantLaws, GuardLaws and Gaps their laws.
--
--   internal/executor/parse.go splits a command and checks its verb before it is run: Executor/Parse,
--   with the comparison to the approval layer in Executor/Gate and Executor/Agreement.
--
--   internal/session keeps the approved and declined writes and the grants of a conversation
--   (session.go: Session/State, laws in Session/Writes) and the life of a turn and of its steps
--   (turn.go: Session/Turn, laws in Session/TurnLaws).
--
--   internal/agent/loop.go puts these together: the key of a write (`declineKey`: Agent/Key, laws in
--   Agent/KeyLaws), the execution of one tool call (`executeTool`: Agent/Gate, laws in
--   Agent/GateLaws, Refusals, ShellGate and Remembered), the approval of several calls with one
--   question (`batchApprove`: Agent/Batch, laws in Agent/BatchLaws and Grants) and the rounds of a
--   run, in which the language model is an argument (`Chat`: Agent/Chat, the calls of a round, and
--   Agent/Rounds, the requests of `chatOnce`, the rounds and their end; laws in Agent/ChatLaws,
--   Agent/ChatCalls and Agent/ChatEnds).
--
--   internal/tools/scope.go checks every tool call against the namespaces of the user before it
--   reaches the approval: Tools/Scope, laws in Tools/ScopeLaws.
--
-- The reports are stored as objects with counted references:
--
--   internal/objectstore/keys.go and stream.go make and check the keys (Objects/Key, Objects/Media;
--   laws in Objects/Parts, RoundTrip and Safety).
--
--   internal/store/objects.go and tx.go keep a row for each object and count its references
--   (Objects/Row, Registry and Refs); internal/store/objectcontent.go keeps the content in the row
--   (Objects/Payload). A statement of SQL is a function on the list of rows; where other transactions
--   can be committed between two statements, what they do is an argument. Objects/Rows and Inserts
--   have the laws of the statements, Objects/Invariant the well-formed tables, Objects/Acquire,
--   Ledger, LedgerLaws, Register, Quiet, QuietPut, Balance and PutGet the laws of the operations.
--
--   internal/service/blobgc.go removes the objects without references (Objects/Collector, laws in
--   Objects/CollectorLaws, CollectorSafety, CollectorGaps, CollectorStep, CollectorDone and
--   CollectorLive), beside other transactions.
--
--   internal/service/blobverify.go compares the rows with what the backend holds, and marks those
--   whose content is absent (Objects/Verify and VerifyRun, laws in Objects/VerifyLaws, VerifyMarks,
--   VerifySafety and VerifySound).
--
-- Beside them stand internal/permission/permission.go (Permission, Permission/Parameters, Laws
-- and Enforcement), the routes of the HTTP interface and the permissions of a role;
-- internal/authz/service.go (Authz/Scope, Authz/ScopeLaws), the namespaces and clusters of a user;
-- internal/report/health.go (Report/Health, Report/HealthLaws), the health score; and
-- internal/model/options.go (Model).
--
-- Conventions. A function carries the name of the Go function in snake case, a struct the fields
-- that the modelled code reads. A text is a list of code points (Base/Strings), the content of an
-- object is a list of bytes; `strings.ToLower` is exact where its result is an ASCII letter, which
-- is what the tables of the program compare with, and leaves other letters as they are;
-- `unicode.IsSpace` is written out. A map with constant keys is a list or a function by clauses; a
-- map used as a set is a list without repetitions. Methods that change their receiver return its
-- new state; an error is the case `err` of Base/Errors. The clock, random identifiers, the store,
-- encoding/json, the parser of mvdan.cc/sh, the parser of manifests, the tools and the user's
-- answers are arguments. Whether the scope lets a call pass is the field `scope_allows` of the
-- environment in Agent/Gate; the check itself is in Tools/Scope. Loops over slices are recursion on
-- lists, so no fuel is needed; the rounds of a run are recursion on the number of iterations that
-- the program allows, and the attempts of `Acquire` on their number, 2. Sums of token counts and
-- penalties are far below 2 ^ 63, so the model has no wrap-around; the one subtraction, of the
-- health score, is on the integers of Base/Int.
--
-- Not modelled: audit records, messages to the front end and the texts of errors (they decide
-- nothing), the prompts and the parsing of what the language model replies, the rest of the store
-- and of the services, the failures of a database, those of a backend outside Objects/Verify, the
-- HTTP handlers, the running of processes, and the clients of Kubernetes and of the language models,
-- which are I/O. The tests beside the laws run the definitions at concrete inputs.
pub mod Base
pub mod Model
pub mod Approval
pub mod Executor
pub mod Session
pub mod Agent
pub mod Permission
pub mod Report
pub mod Authz
pub mod Tools
pub mod Objects
