-- ===== src/Lib.antt =====
-- CortexGo is a Go service around an agent: it answers chat messages with a language model that
-- may call tools, keeps each session's messages in a store, and offers this over HTTP to several
-- tenants. This library models its core and proves what it promises.
--
--   * Prelude: bytes as natural numbers and strings as lists of bytes (a Go string), runes, TrimSpace,
--     Go's maps as association lists, integers, and tests on numbers. Errors: Go's errors and results.
--   * Provider: the data of internal/provider/provider.go; Provider.Client (doChat, ChatWithOptions),
--     Provider.Backoff (retryDelay) and Provider.Stream (ChatStreamWithOptions) are its client, and
--     Provider.Echo its model Echo. Provider.Embedding is Embed and doEmbed of
--     internal/provider/embedding.go, and Provider.Models internal/provider/models.go.
--   * Memory.Compact: Compact, EstimateTokens and CompactToTokenBudget of internal/memory/compact.go.
--     Memory.Sessions: the interfaces Store and ReplaceStore as a record of operations, InMemory
--     (internal/memory/memory.go) and FileStore (internal/memory/file_store.go); Laws is the contract
--     that the agent relies on. Memory.Facts: InMemoryFactStore and FileFactStore of
--     internal/memory/facts.go.
--   * Agent.Config, Agent.State: the fields, options and constructor of an agent, the interfaces that
--     it calls, and what a turn reads and writes. Agent.Calls (validateToolCalls, addUsage),
--     Agent.History (compactTokenHistory, compactHistory), Agent.Tools (invokeTool, emit) and
--     Agent.Turn (run, callModel) are internal/agent/agent.go. Agent.Boxes puts the registry of Tool
--     behind an agent.
--   * Security.Identities, Security.Jwt and Security.Permissions: internal/security/security.go,
--     and Security.Keys its Save and Load. Security.Uploads: ValidateRemoteURL and ValidateUpload.
--     Security.Tenants: TenantMemory of internal/security/tenant.go, and in Documents TenantIndex,
--     over any index and over the one in memory, and in Vectors TenantVector over the one in memory.
--   * Api.Rbac and Api.Limiter: internal/api/access.go. Api.Gate and Api.Chat: the handler before the
--     routes and the request of `chat`, in internal/api/http.go. Api.Http: its responses and routes;
--     Complete (chat, stream, completionResponse) runs a turn of Agent.Turn, Layers are the wrappers of
--     internal/api/observability.go, and Serve is the whole handler.
--   * Reliability.Budget and Reliability.Concurrency: internal/reliability/reliability.go.
--   * Tasks.Queue: Queue of internal/tasks/queue.go, as a step relation. Tasks.Cron: its Cron.
--   * Knowledge: the documents of internal/knowledge/knowledge.go; Knowledge.Split (SplitDocument),
--     Knowledge.Tokens (tokenize, scoreChunk) and Knowledge.Index (InMemoryIndex). Knowledge.Vectors
--     (InMemoryVectorIndex) and Knowledge.Hybrid (HybridIndex, whose search is in Merge) are
--     internal/knowledge/vector.go; Knowledge.Vectors.File (FileVectorIndex) is
--     internal/knowledge/persistent.go. Knowledge.Versions (VersionStore) and Knowledge.Importer
--     (AsyncImporter, as a step relation) are internal/knowledge/importer.go, Knowledge.Loader
--     (FileLoader) with Office and Programs internal/knowledge/loader.go, and Knowledge.SearchTool
--     internal/knowledge/tool.go.
--   * Tool: the data of internal/tool/tool.go; Tool.Schema (unmarshalSchema, validateValue) and
--     Tool.Registry (Registry, Definition).
--   * Observability: internal/observability/observability.go. Command: the settings, the choice of the
--     model and, in Loop, the loop of cmd/cortexgo/main.go.
--   * Tests: runs on concrete inputs.
--
-- State is passed on: an operation takes the state and returns its result with the new state. A
-- method that holds a mutex runs as a whole; calls from several goroutines are sequences of such
-- operations. Packages outside the repository are parameters: the agent's model and tool registry
-- as it sees them, JSON, base64, HMAC, SHA-256, package os (which calls fail is an argument of the
-- operations), net/http and its timers (what each attempt meets), the scanner of lines, the
-- readers of XML and PDF, the other programs that a loader starts, the resolver of host names, the
-- order in which a map is read, the Unicode tables, float64, and the clock (each call has its
-- time). Strings are bytes; `int` counts and times are unbounded numbers, of which the code's
-- values are far from the bounds of 64 bits; the tokens that a caller charges to a budget are 64
-- bits that wrap. A text of JSON keeps of a value what encoding/json documents, which is a
-- function of its own (`settled`). A store that opens a file with null has a nil map, and is not
-- followed further. sort.Slice is a sort by insertion, with the code's comparison.
--
-- The loop of a turn has no bound in the code. Here it recurs on fuel, and a turn gives it one
-- more than the tool rounds that it may take, so that its own test ends it first. The attempts of
-- a request recur on one more than the retries. The loop of SplitDocument gets its rounds as an
-- argument, since with some options it does not end; an index, which splits without an overlap,
-- gives it one more than the runes of the text. A schema is read to a depth of its length, since
-- the schemas in it are parts of its text. The other loops recur on their data.
--
-- Not modelled: the texts of errors and the times and payloads of events (nothing depends on
-- them), logging, most headers of a response, the start and the stop of a server, the copies of
-- JSON files and the sums of costs, the queue in a database and the index in Milvus, which hand
-- their work to a client, the sinks of events in memory, the clock tool, the OpenAPI document, and
-- the flags of the program.
pub mod Prelude
pub mod Errors
pub mod Provider
pub mod Memory
pub mod Agent
pub mod Security
pub mod Api
pub mod Reliability
pub mod Tasks
pub mod Knowledge
pub mod Tool
pub mod Observability
pub mod Command
pub mod Tests
