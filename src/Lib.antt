-- ===== src/Lib.antt =====
-- A model of flux7-mesh, a proxy between agents and tools that decides each call by policy, grants,
-- human approval and emergency stops, with proofs about it.
--
-- The parts and their files. A store is a record, an operation is a function from the store to its
-- answer and the new store, named after the Go function; a mutex makes each operation one step.
--   Match       internal/match/match.go, with filepath.Match of Go's library
--   Policy      policy/engine.go, policy/tighten.go; the types of config/config.go. Policy/Value has
--               the arguments of a call, Policy/Condition the conditions, Policy/Engine Evaluate
--               and Explain, Policy/Tighten the floors
--   Grant       grant/store.go: Add, Check, Revoke, RevokeWhere, Restore, Cleanup
--   Halt        halt/halt.go: Start, Resume, Match, Active, RecordRevoked
--   RateLimit   ratelimit/limiter.go: Check, Record, gc
--   Registry    registry/registry.go and ResolveCLI of registry/cli.go; Registry/Classify
--               registry/classify.go
--   Pin         pin/pin.go: Observe, Accept, Status, Floor, Pending
--   Approval    approval/store.go: Submit, Resolve, timeoutAfter, Claim, ClaimApproved, ClaimDenied;
--               Approval/Settled has the lookups by arguments, Approval/Machine the operations as one
--               type and the steps between stores, Approval/Memory approval/memory.go and
--               TryAutoResolve, Approval/Memory/Listing the list of precedents
--   Trace       trace/store.go: Record, Update, QueryBySession; Trace/Lineage Query, QueryTrace, Chain
--               and Stats, Trace/Reload loadFromFile, Trace/Scanner
--               the bufio.Scanner that reads the trace file, Trace/Integrity trace/integrity.go and
--               appendLocked, Trace/Context trace/context.go
--   Identity    auth/identity.go: ResolveIdentity
--   Proxy       proxy/handler.go and proxy/halts.go. Proxy/Mesh has the handler's stores,
--               Proxy/Floors ApplyFloors and Floor, Proxy/Calls handleToolCall up to the answer or
--               the wait, Proxy/Completion its end after the wait, Proxy/Decide handleDecide,
--               Proxy/Halts the endpoints of the emergency stop, Proxy/Admin the routes of ServeHTTP,
--               their guard and the endpoints of approvals and grants
--   Mcp         mcp/server.go. Mcp/Dispatch has handleToolsCall with the virtual tools, Mcp/Calls the
--               path of a registered tool up to its answer or wait, and its end after the wait,
--               Mcp/Resolution handleResolution, Mcp/Governance the approvals and grants over MCP,
--               Mcp/Catalog deniedOnly, handleToolsList and handleCatalog, Mcp/Sessions the sessions of
--               mcp/http_server.go
--   Exec        exec/runner.go: ValidateArgs, ExtractCommand, limitWriter, Run
--   Supervisor  supervisor/content.go, supervisor/injection.go
-- Base has lists, byte strings, maps and tests; Tests has runs and the theorems at concrete inputs.
-- A call enters Proxy/Calls, which asks Identity, Halt, Registry, RateLimit, Policy, Pin, Grant and
-- Approval in this order and records what it did in Trace. A call over MCP enters Mcp/Dispatch, which
-- asks the same stores but the rate limits and the grants.
--
-- Numbers: times and durations are natural numbers of nanoseconds, one clock reading for each
-- operation; where Go subtracts times, the model adds on the other side or stops at zero as the
-- source's test does. Counters of the rate limiter are unbounded. Texts are lists of bytes.
-- Floating-point numbers, with their comparisons, are a parameter.
--
-- Fuel: the loops of filepath.Match take the length of the pattern, or of the chunk or class that is
-- left, as fuel, and each turn takes at least one character off it. The decimal digits of a number take
-- the number and one as fuel, more than it has digits. `Chain` takes the depth it is given, and
-- the sort of the approvals as many places as there are approvals. Every other loop is structural.
--
-- Maps are association lists; where Go ranges over a map, the model takes the order of the list.
--
-- Parameters: the validator of signed tokens, the JSON encoding of arguments, the hash of a tool's
-- declaration, the answers and failures of the database, the texts of errors, what the backend
-- answers, random IDs, the answers of mem7 and the regular expression of its lines, the digests of the
-- trace file and the reading of an envelope or an entry by encoding/json, the process that is run, the
-- patterns of injection, the parser of durations, the test for loopback addresses, the answer at the
-- terminal.
--
-- Not modelled: HTTP, JSON and YAML, SQL, the JSON-RPC loop, the MCP client and transports, OTLP
-- export, the rotation of the trace file, editing and reloading of policies, and the commands. Logging,
-- latencies and token counts are left out.
pub mod Base
pub mod Match
pub mod Tests
pub mod Policy
pub mod Grant
pub mod Halt
pub mod RateLimit
pub mod Registry
pub mod Pin
pub mod Approval
pub mod Trace
pub mod Identity
pub mod Proxy
pub mod Mcp
pub mod Exec
pub mod Supervisor
