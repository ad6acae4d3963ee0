-- ===== src/Lib.antt =====
-- Operator OS, a multi-tenant server for LLM agents in Go: models of its core logic and what
-- they are proved to do.
--
-- A message comes in from a channel over the message bus (pkg/bus), or is taken from it by a
-- worker (pkg/worker). The routing (pkg/routing) finds the agent that answers it, from the
-- bindings of the configuration, and the key of its session. The session manager (pkg/session)
-- keeps the conversation under that key, and an evictor removes sessions that are old or too
-- many. The agent (pkg/agent) sends the sanitized history to a language model, runs the tools
-- that the model calls, adds the calls and the results to the session, and goes on until the
-- model answers; the answer goes back over the bus, and the channels (pkg/channels) split it and
-- send it; when the context is too long it compresses the history, and a long history is
-- summarized in the background. The model is called through the providers (pkg/providers): a
-- list of candidates is tried in order, an error is classified, and a provider that failed cools
-- down. Scheduled jobs (pkg/cron) start turns of the agent. The billing (pkg/billing) keeps each
-- user's plan, moves it up or down, and limits what is used beyond it.
--
--   Base       what the modules share: Boolean tests, lists over the native numbers, texts, Go's maps
--              with string keys as association lists, and integers.
--   Routing    pkg/routing. AgentId is agent_id.go, SessionKey is session_key.go, and Route is
--              route.go with the fields of pkg/config/config.go that it reads. Matches says what
--              a binding is for, independently of the code, Fits and Searches that the code finds it;
--              Ids, Keys, Levels and Accounts hold the proofs.
--   Providers  pkg/providers. Cooldown is cooldown.go; Classify, with Regex for its regular
--              expressions, is error_classifier.go; ModelRef is model_ref.go; Fallback is the two loops
--              of fallback.go, and Candidates its list of candidates; Types is types.go. Messages is
--              protocoltypes/types.go and NormalizeToolCall, and StoredCalls is how three clients read a
--              stored tool call. The children of these modules hold the proofs.
--   Agent      pkg/agent. Context is sanitizeHistoryForProvider and BuildMessages of context.go. Of
--              loop.go, Compression has the classes of errors and the new history of forceCompression,
--              Loop is runLLMIteration, Summary is summarizeSession and maybeSummarize, and Run is
--              runAgentLoop. ToolLoop is pkg/tools/toolloop.go. Turns and Transcript are the rules that
--              the proofs share; Sanitized, Bounds, Rounds, Answer, Forgotten, Agreement and Replay
--              hold the proofs.
--   Session    pkg/session. Manager is manager.go with its sessions in memory; Evictor is
--              eviction.go, and Evictor/Sqlite the two eviction statements of sqlite_store.go. History
--              (against an abstract transcript for each key), Files and Evictor/Sweeps hold the proofs.
--   Bus        pkg/bus. Types is types.go; MessageBus is bus.go as atomic steps of goroutines, so that
--              a run is a list of steps in any order. Delivery has the lemmas on one channel; Reached,
--              Close and Late hold the proofs.
--   Worker     pkg/worker. Config is config.go with the checks of New and NewPool, Process the loop of
--              a consumer over any bus, Lifecycle the guards of Run and Stop as atomic steps; Runs and
--              Stops hold the proofs.
--   Tools      pkg/tools/filesystem.go. Paths is validatePath, with paths as lists of their elements;
--              Workspace has the lemmas on clean paths, Links and Unlinked the proofs.
--   RateLimit  pkg/ratelimit/ratelimit.go. Bucket is the token bucket of a user, with float64 as a record
--              of operations; Limiter is the limiter of all users; Daily holds the proofs.
--   Channels   pkg/channels. Dedupe is wecom/dedupe.go; Ring and Window hold the proofs. Split is
--              split.go; Scans and Words are lemmas, Plain and Endless hold the proofs. Sends is
--              errors.go, errutil.go and the loop of manager.go that sends with retries, Manager the turn
--              of a worker of manager.go, which splits and sends one message; Retries, Handed
--              (the calls of the channel as a relation) and Placeholders hold the proofs.
--   Cron       pkg/cron/service.go. Service has the jobs and the tick, Commands the changes of the jobs;
--              Due says which jobs are due, independently of the code, and what a series of runs is;
--              Found has lemmas; Runs and Checks hold the proofs.
--   Users      pkg/users. TokenBlacklist is token_blacklist.go; Revocation holds the proofs.
--   Billing    pkg/billing. Plans is plans.go, Subscriptions is subscription.go with its table as
--              a list of rows, and PlanChange is plan_change.go: Types, Handlers and Service are the
--              code, Safety, Effects and Proration the proofs. Webhook is the events of webhook.go, given
--              decoded, on the same table; Order and Late hold the proofs. Overage is overage.go, and
--              Overage/Levels its proofs.
--
-- A Go method keeps its name, in lower case with underscores. A struct is a record, a string
-- type with named constants a data type with one more constructor for any other text, a nil
-- pointer `none`, an error a value. A lock is left out, since each method that takes it is one
-- step. The clock, the database's faults, Stripe and the language model are parameters: records
-- of functions on a `World` that they pass on. A text is the list of its bytes, and the case and
-- space functions are those of ASCII. Times are natural numbers, in nanoseconds where a length
-- is computed; int64 overflow does not occur at these values and is not modelled. A float
-- product (proration) is a parameter with the bounds that a theorem needs as its hypothesis, and
-- the rate limits and the overage take float64 as a record of operations.
--
-- Most loops are recursion on a list, so no fuel is needed. Those of the agent are bounded in
-- the source by the agent's maximal number of rounds and by two retries, and recurse on what is
-- left of these. A worker's loop runs on fuel, and one more than the messages that it is given
-- is enough. SplitMessage runs on fuel, since it does not always end; for a text without a
-- backtick, one more than its length is enough. A tool and a model are functions on the `World`
-- of an environment (Agent.Loop's `Env`), and the state of the agent is passed along; a summary
-- is made in two steps, reading and storing, since other messages may be added between them.
--
-- Not modelled: HTTP handlers and clients, SQL and JSON text, the database-backed session stores
-- apart from eviction, the text of the system prompt, the commands of the agent and its
-- start-up, each tool, the clients of chat services, the start and the dispatch loops of their
-- manager, the Redis and NATS clients, the user store, passwords and the signing of tokens, and
-- the web client: input and output, external services, cryptography, and the parts that this
-- library does not cover.
mod Base
pub mod Providers
pub mod Billing
pub mod Session
pub mod Routing
pub mod Channels
pub mod Users
pub mod Agent
pub mod Cron
pub mod Bus
pub mod Worker
pub mod RateLimit
pub mod Tools
