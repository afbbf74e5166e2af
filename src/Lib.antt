-- ===== src/Lib.antt =====
-- BidShard lead parser: crawled items become scored leads.
--
-- The parser's sources emit raw items. `TryEnqueue` puts them into a channel; a pool of workers
-- runs each through `Processor.Process`, which passes it through a long chain of gates, reserves
-- the hash of the lead, asks the services that are switched on, and stores what is accepted; the
-- outcome is counted in the statistics of the round. Around this stand the guards of the outer
-- world: a circuit breaker per source, a daily budget of proxy traffic, the quotas of the language
-- model, and batched writing.
--
-- Files, and the code that they model:
--   Seen             internal/dedup/seen.go: SeenCache, Seen, Mark, evictExpiredLocked.
--   Breaker          internal/breaker/breaker.go: SourceBreaker and all its methods.
--   Budget           internal/proxybudget/governor.go: Configure, Allow, Record, UsedBytes.
--   Quota            internal/gemini/limiter.go and priority.go: QuotaLimiter, QuotaSplit; Race has
--                    the callers that run between the check and the record.
--   Batch            internal/batch/ticker_flush.go: RunTickerFlush.
--   Coordinator      internal/sources/coordinator.go: the loop of the rounds as a step relation.
--   BulkStore        internal/sink/mongo_bulk.go: BulkStore, where the writes of batches are steps.
--   Capture          internal/queue/capturer.go: Capturer, TryCapture and the reader's receive.
--   Entity           internal/entity: the document of an entity and what it needs of other code
--                    (`Env`); Sighting the rows of its timeline and the families of the sources,
--                    Heat its heat, Keys its keys and id, Merge the first sighting and the further
--                    ones, Split the hash that is taken out; Sets, Timeline, Rows, Links, After and
--                    History the lemmas and theorems. Store and Race: RecordSightingCore over the
--                    database of internal/sink/entity_store.go and entity_store_atomic.go, with
--                    the calls of the database as the steps of processes;
--                    Race/Complete is about what the finished calls leave.
--   Scoring          internal/scoring/decay.go, source.go, contact_quality.go, and
--                    ComputeEngagePriority of outreach_queue.go.
--   WarmPath         internal/warmpath/batch_worker.go, batch_spill.go, batch_engage_spill.go: the spill
--                    file and the jobs of one phase, generic in the items of a batch. Flush and
--                    Runs follow the records, Lossless and Blocked are about when they get on,
--                    Chunks about the batches of the second phase.
--   SourceDisable    internal/sourcedisable/governor.go and internal/app/source_disable.go: which sources
--                    the governor puts into its file, and which are disabled by it.
--   Pipeline/Contact the tests on contacts of internal/extract/contacts.go, internal/filter and
--                    internal/pipeline/processor.go.
--   Pipeline/Types   outcomes, reasons, settings, and what the classifiers say of an item.
--   Pipeline/Screen  the gates of Process in the order of the code, each a test with its outcome.
--   Pipeline/Process Process from the hash on: Hash has the steps, Review the questions to the
--                    services, Frame, Refusals and Settle the lemmas, Laws, Sequence and
--                    Retry the theorems, Crew the workers that run at the same time as a step
--                    relation.
--   Pipeline/Rounds  internal/pipeline/worker.go, stats.go and enqueue.go: the counters of a round;
--                    Race has the senders and workers as a step relation.
--   Common           shared names, Boolean tests, lists, association lists, integers and texts.
--
-- State and operations. Each struct is a record and each method a function that returns the new
-- state; a Go map is an association list, a panic is `none`, a reading of the clock is an argument.
-- Times and durations are natural numbers of nanoseconds and counters are natural numbers: the
-- code's 64-bit integers do not overflow within the life of a process. Scores are integers, since
-- the code subtracts from them. An early return of `Process` is the constructor `stop` of `Screen`,
-- so that the gates are one do block in the code's order. A mutex makes a method atomic; where the
-- code gives up a lock between two halves of an operation the halves are steps of a relation.
-- The loops recurse on the list of events or entries that they read.
-- The outer loop of `sortKeys` counts its rounds, which are as many as the keys, and that of
-- `queueEngageItems` has as many rounds left as there are items.
--
-- What is outside: the verdicts of the text classifiers (`Facts`), the answers of the language
-- model, the store and the mail exchanger (`Services`, `Answers`), the token bucket of the rate
-- library, and the reading of the state file. They are arguments. Of the store of leads
-- (internal/sink) the model keeps the upserts that it acknowledged, while its answers to `Exists` are any
-- function of these; the theorems that need a store which has what it acknowledged say so
-- (`IsTruthful`). MongoStore is one while no lead is deleted, the export-only stores and BulkStore during a flush are not.
-- The operations of float64, SHA-256, the letters outside ASCII and the classifiers of texts are the
-- fields of `Env`; the order in which Go goes through a map is a function with the same members.
-- Log lines, the monitoring counters, and the fields of a lead that only describe it are left out.
-- The normalisation of the names in ResolveKeys, the matching of keywords, the fetchers, the bots and
-- the configuration are not modelled. Of the database, one document for one id is modelled: a call
-- whose keys lead to another document is not, and neither are its errors. Of the results of
-- a batch job only the keys of the rows are modelled, and the state file of the jobs is left out.
mod Common
pub mod Seen
pub mod Breaker
pub mod Budget
pub mod Quota
pub mod Batch
pub mod Capture
pub mod Pipeline
pub mod Coordinator
pub mod Entity
pub mod Scoring
pub mod WarmPath
pub mod SourceDisable
pub mod BulkStore
