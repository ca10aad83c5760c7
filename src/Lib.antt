-- ===== src/Lib.antt =====
-- VectorCore GMLC: the location centre between MLP clients and the Diameter network.
--
-- A client submits a location request over MLP. The service (internal/service) authenticates and
-- authorizes it (internal/auth), and stores the request as queued (internal/storage/sqlite). The
-- orchestrator (internal/orchestrator) claims queued requests one at a time, asks the HSS for the
-- serving node (SLh, internal/slh), asks that node for the position (SLg, internal/slg), decodes the
-- shape (internal/gad), and stores the result or the failure, or plans another attempt. A finished
-- request with a callback becomes a delivery, which a second worker (internal/delivery) posts.
-- Requests and answers travel over peers that internal/diameter connects to and selects. Reports that the
-- network sends by itself come to internal/lrr, and internal/mlp pushes them on. internal/config reads
-- what all of them are given, and cmd/gmlc puts them together.
--
-- Which file models which part:
--   Base, Base/*          lists, texts (lists of bytes), decimal numbers, results with errors, exact fractions
--   Errors                the error values that errors.Is tells apart
--   Domain, Domain/*      internal/domain: State, CanTransition, Target, Request, Result
--   Slh/Msisdn            internal/slh/slh.go: EncodeMSISDN and DecodeMSISDN
--   Slh/Routing           the rest of that file: BuildRIR, DecodeRIA and ResolveServingNode
--   Slg                   internal/slg/slg.go: BuildPLR is Plr, DecodePLA is Pla, DecodeLRR and BuildLRA are
--                         Lrr, New and ProvideLocation are Provide
--   Gad, Gad/*            internal/gad/gad.go: Decode, EncodeUncertaintyValue and what they call
--   Storage/Stamp         the text of a time (RFC3339Nano) as SQL orders it
--   Storage/Sql           UPDATE, RowsAffected and ORDER BY on lists of rows
--   Storage/Schema        the tables of internal/storage/sqlite/migrations
--   Storage/Requests      requests and results in internal/storage/sqlite/sqlite.go
--   Storage/Clients, Storage/History, Storage/Deliveries, Storage/Deferred
--                         the other tables of the same file
--   Orchestrator          internal/orchestrator/orchestrator.go: Worker.one and handleError; Loop is its loop
--   Delivery              internal/delivery: Worker.one, backoff, secret.go and sign.go; payload.go is Payload
--   Auth                  internal/auth/auth.go
--   Service, Service/Batch  internal/service/service.go
--   Lrr                   internal/lrr/lrr.go: ServeDIAM, process and push
--   Diameter/Message      messages and AVPs, as the go-diameter library gives them
--   Diameter/PeerTable    internal/diameter/peertable.go
--   Diameter/Manager      internal/diameter/manager.go, with the callback of registry.go
--   Diameter/Transport    internal/diameter/tcp.go: RoundTrip, deliver, watch, failAll and Close
--   Diameter/Dialing      the same file: TransportConfig and the check of the peer that was dialed
--   Config, Config/Validation  internal/config/config.go: applyDefaults; Validate and Load
--   Mlp                   internal/mlp/handler.go: the elements of a request. Immediate is slir and eme_lir,
--                         History is hlir, Handler is ServeHTTP, Positions is what is answered
--   Mlp/Dmsh              internal/mlp/dtd.go: encodeDMSH and decodeDMSH
--   Mlp/ResultCodes       internal/mlp/resultcodes.go
--   Mlp/Push              internal/mlp/push.go
--   Gmlc                  cmd/gmlc/main.go: the bootstrap of the clients, the completion hook, the retention
--
-- State and operations. The state of the program is its database: `Db` holds a list of rows for each
-- table, and each method of the store is a function that takes and returns it, with the Go names in
-- lower case (ClaimNextQueued is claim_next_queued). A statement that fails in a transaction leaves
-- the `Db` as it was. A SELECT without an ORDER BY that reads a covering index returns its order. Times,
-- new uuids, random nonces and the answers of other systems are arguments.
-- A wait of the worker is a point at which a function on the store stands for what other goroutines
-- do meanwhile; a context that is cancelled is a Boolean. Go's `(value, error)` is a Result.
--
-- Numbers. Counts and durations are natural numbers. `backoff` and the delay of a reconnection wrap at
-- 2^64 as time.Duration does; coordinates are exact fractions where the code has float64, so rounding is
-- not modelled. All loops are recursion on a list. The digits of a number recurse on its value plus one, which is
-- more than their count.
--
-- A connection to a peer is a loop: each way in which one of its waits can end is an event of
-- Diameter/Manager, and so is Close, which another goroutine calls; any list of events is a run. Between
-- the dial that succeeds and the call of the callback nothing else is let in.
--
-- A connection that was dialed is shared by its callers, its reader and its watcher: each step that one of
-- them takes under the lock, and each wait that ends, is an event of Diameter/Transport. failAll is two of
-- them: it closes the connection, and only later takes the lock and sweeps the map of calls. A hop-by-hop
-- identifier is a number below 2^32, so after 2^32 calls one comes again.
--
-- The poll loop of a request for positions runs over a list of turns, each with what the store holds then.
-- One turn past the deadline ends the wait for one request, so as many such turns as identities are enough.
--
-- The quotient of float64 logarithms in EncodeUncertaintyValue is a parameter (`floor_log`), since it rounds either
-- way; the code around it is modelled. An AVP group is looked into one level deep, as the code does.
--
-- Parameters: SHA-256, AES-GCM and HMAC (`Crypto` and `sha256`), net/url and net/http, the resolver and
-- the provider of positions, whether a connection is ready, and the two functions of go-diameter that make a
-- request and an answer (`Diam`), with what RFC 6733 says of their headers.
--
-- The decoder of XML, strconv.ParseFloat and the layout of times in MLP are parameters too (`Library`).
--
-- Not modelled: errors of the database itself (a full disk, a busy file), the SQL of the migrations, the
-- encoding of XML and JSON, YAML, HTTP and sockets, SCTP and the exchange of capabilities (go-diameter),
-- logging, the loop of the delivery worker (it is that of the orchestrator), the POST of a pushed report
-- with the answer to it, which is only logged, and in cmd/gmlc the flags, the signals and the wiring of the
-- parts.
pub mod Base
pub mod Errors
pub mod Domain
pub mod Slh
pub mod Slg
pub mod Config
pub mod Mlp
pub mod Gad
pub mod Storage
pub mod Delivery
pub mod Orchestrator
pub mod Auth
pub mod Service
pub mod Diameter
pub mod Lrr
pub mod Gmlc
