-- ===== src/Lib.antt =====
-- OpenChain's backend, apps/backend: a tracing service over the transfers of public block chains.
--
-- A request for a trace enters through the rate limiter of the API (internal/api/rate_limit.go) and is
-- put in a durable table of jobs (internal/db/jobs.go), one row for each query. One worker for a
-- network takes the oldest row (internal/tracing/queue.go), asks the graph engine for the trace
-- (internal/tracing/graph.go), with retries where a provider failed for a while
-- (internal/adapter/provider.go), and writes what came of it. Requests poll the row. Over the
-- transfers that a trace found, the rules of internal/rules look for patterns and cite the transfers
-- that show them.
--
-- Which file is about what (paths within apps/backend):
--   Jobs         internal/db/jobs.go and the table public.trace_jobs of
--                internal/db/migrations/0001_initial.sql. Jobs.Table has the rows and the tests of the
--                statements, Jobs.Enqueue EnqueueTraceJob and TraceJob, Jobs.Lifecycle the worker's
--                statements, Jobs.Steps the transactions as a step relation; the other children prove.
--   Worker       internal/tracing/queue.go: Worker.Retry is resolveWithRetry, Worker.Run runOnce and
--                pruneFinished, Worker.Serve TraceGraph, TraceStatus, resultForJob and the statistics.
--   Provider     internal/adapter/provider.go: the errors, RetryDelay and the counters.
--   RateLimit    internal/api/rate_limit.go: Allow and the key of a client.
--   Graph        internal/tracing/graph.go: Graph.Resolve is ResolveGraph, composed of Graph.Controls
--                (graphControls, graphDepth), Graph.Confirmation (isProvisional), Graph.Items (filters and
--                conversions of transfers), Graph.Select (the choice of counterparties), Graph.Traverse
--                (traverseStoredGraph), Graph.Nodes (graphFromEdges), Graph.Coverage (traceCoverage) and
--                Graph.Transitions (resolveBridgeTransitions).
--   Source       the status of a source, pages and FormatAmount of internal/adapter/chain.go;
--                Source.Address is internal/adapter/address.go, Source.Base58 base58.go beside it,
--                and Source.Tron the addresses and hashes of tron.go and solana.go there.
--   Transfers    the records of internal/adapter/chain.go and internal/db/transfers.go.
--   Rules        internal/rules/detect.go and catalog.go: Rules.Window is firstDistinctWindow, Rules.Leads
--                what the detectors share, Rules.Fan, Rules.Onward and Rules.Chain the detectors, and
--                Rules.Evaluate is Evaluate.
--   Bridge       internal/bridge/bridge.go: Bridge.Words has the ABI words and dynamicBytes,
--                Bridge.Events the events of the bridge contracts and the registered routes,
--                Bridge.Hashes appendUnique and newHashes, Bridge.Transition the record of a transfer,
--                Bridge.Messages the messages between the chains and their ids, Bridge.Destination
--                completeDestination and applyConfirmations, and Bridge.Resolve the adapter itself.
--   Prelude      what these share: lists, byte strings, integers, decimals, hexadecimals and sorting.
--   Tests        the theorems at concrete inputs.
--
-- How the code is read. A method of the table is one function from the table to the table, since it
-- is one statement or one transaction under the network's lock; an error of the database is a
-- rollback, and in the worker's round a flag says which calls fail. Any interleaving of servers and
-- workers is a sequence of such steps. Two statements that race are not modelled below that, nor is
-- SKIP LOCKED. A text is the list of its bytes. Times and durations are natural numbers of
-- nanoseconds since the Unix epoch, and 0 is Go's zero time: no time at or before the epoch has a
-- value of its own. A difference of times that is negative in Go is 0 here, which no comparison in
-- the code tells apart. Where a product or a header can leave the range of int64 the wrap-around is
-- written out. Letter case and blanks are those of ASCII. sort.Slice is a stable insertion sort, and
-- a Go map an association list in the order of insertion; where the code walks through a map, its
-- order is the one of insertion. Every loop is recursion on the list it walks through, or on the
-- attempts that are left; only the printing of a number, with the number plus one, the cutting of
-- ABI words, with the number of bytes, and Base58, with two digits for each byte and one byte for
-- each digit, take fuel, and none takes more steps than that.
--
-- Arguments stand for SHA-256 and Keccak-256, for the JSON of leads, parameters and results, of
-- results in the form in which a jsonb column gives it back, for the text of an error with the texts
-- that wrap it, for the clock, for the splitting of a remote address, and, in the graph engine, for
-- the chain adapter (address formats, pages, contracts), the label registry, the bridge adapters,
-- and the database: what it reads, and which writes it accepts. The acquisition recorder of
-- ResolveGraph's context is left out; the writes list what else is written.
--
-- A call of the bridge's EVM client takes the response hashes recorded so far and gives the next ones.
--
-- Not modelled: the clients of the providers, SQL of the graph, labels and evidence, the RPC server,
-- the metrics and the start-up of the program, which are input and output; and the generated code.
pub mod Prelude
pub mod Jobs
pub mod Provider
pub mod Graph
pub mod Worker
pub mod RateLimit
mod Tests
pub mod Transfers
pub mod Source
pub mod Rules
pub mod Bridge
