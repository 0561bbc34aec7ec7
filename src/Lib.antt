-- ===== src/Lib.antt =====
-- The DNS proxy with parental control: what it answers, whom it blocks and what it counts.
--
-- A request passes through these parts, each modelled in the file named:
--   * internal/proxy/proxy.go, `dnsHandler`, and internal/resolver/resolver.go: Proxy/Handler. The
--     handler asks the rules engine for an action, lets the policy layer object, and then blocks,
--     answers from the local names or forwards. Its variables are the record `Verdict`, each block
--     of its body is a function on it (`window_step`, `budget_step`, `rule_step`, `with_reason`),
--     and `dns_handler` composes them.
--   * internal/rules/rulesengine.go: Rules. `Engine` holds the configuration, the device names and
--     the clock's reading; `evaluate_internal` is `evaluateInternal` stage by stage. Rules/Pick
--     picks the most specific host and domain by the stable sort of Rules/Sort; Rules/Span
--     evaluates one rule.
--   * The time spans of the rules and of internal/policy/timewindow.go: TimeSpan. The two packages
--     hold the same parser but for weekday names and the zone option, which are its arguments.
--   * internal/utils/utils.go: Utils. The table of `WildcardPatternMatch` is kept row by row.
--   * internal/policy: Policy. Types for types.go and the data of store.go, Compiler for
--     compiler.go, Evaluator for evaluator.go, TimeWindow for timewindow.go. Of store.go, Store has
--     `UpdateMutate`, Storage the opening, saving and reset of the JSON store, Password the
--     administrator's password, Snapshot the snapshot with each user's devices. Sqlite is for
--     sqlite_store.go: a table is the list of its rows, whose columns are in Columns, and an INSERT under a primary key that is
--     there fails.
--   * internal/accounting/accounting.go: Accounting. `account` is one request's update of a usage
--     and a session, `process_request` the call of the manager with the JSON store around it, and
--     Accounting/Runs a run of such calls on one day.
--   * internal/proxy/upstream.go: Proxy/Upstream, the cache and the failover. internal/proxy/block.go:
--     Proxy/Block. Proxy/Dns is the interface to the library of DNS messages.
--   * internal/config/config.go and blockstrategy.go: Config, the data of the configuration, and
--     internal/config/validate.go: Config/Validate, its checks in the source's order. Config/Names has
--     the names of actions and router types in the file.
--   * internal/adminserver/adminserver.go: Admin. `Server` is the state, Sessions has login, logout
--     and `auth`, Users, Devices and DomainRules the handlers of these resources with the mutations
--     that they hand to the store, Routes the patterns and one request as `handle`. A sequence of
--     requests is `run` of Admin/Runs. Admin/Routes/Effects goes through all handlers once, for the
--     proofs about every request.
--   * internal/device: Devices. Devices/Cache for devicecache.go, Devices/Providers and
--     Devices/Discovery for discovery/providers.go and discovery/manager.go. The discovery changes
--     the same store as the admin server; a change there makes the proxy's runtime be compiled again
--     (Proxy/Runtime, of proxy.go), which is what the handler asks.
--   * internal/system/system.go: System, the reload; System/Start, the start. A device cache is one
--     object shared by several parts; its number stands for the pointer.
-- Prelude holds the helpers, Text and Clock what the program uses of Go's strings and time.
--
-- Strings are lists of bytes, and case and space are those of ASCII. Go's int and int64 are
-- integers without a bound; the counters of the program stay far below 2 ^ 63. A time counts
-- nanoseconds since the zero time of Go, and two times lie within 292 years of one another, but for
-- the zero time of a reload that is asked for, from which Go counts 292 years.
-- `Seconds()` is exact for the durations that occur. One reading of the clock serves a call that
-- reads it more than once, but for the handler, whose readings are apart.
--
-- Parameters stand for what is not part of the repository: the exchange with an upstream
-- (`exchange`, told the number of calls before so that it may answer each as it likes), the message
-- library (`Dns`, of which the only law used is that a copy is the same message), the address parser
-- (`parse_ip`), the parsers that the validation calls, the time zones (`load_location`), the device
-- cache's lookups where the rules engine and the handler ask them, and whether a write of the policy file succeeds (`write`). Of the admin server:
-- bcrypt and SHA-256 (`Crypto`, with the laws that a hash of bcrypt begins with "$2" and compares
-- with its password, and that SHA-256 has 32 bytes), encoding/json (`Json`, with the test of two
-- lists against nil), and what the clock and the random sources give during a request (`Draws`).
-- Of the discovery: the router's client, the lines of the neighbour table, and the parsers of
-- addresses; of the SQLite store: encoding/json on the windows of a user (`Windows`), which
-- queries are answered and which rows are scanned (`Reads`), and whether the driver reports an error
-- of a transaction (`commit`); of the system: what opening and
-- closing a log comes to (`Logs`).
--
-- Requests to the admin server come one after another, as the locks of the store and of the sessions
-- order them; the clock stands still during one. Paths are clean, as http.ServeMux makes them. A loop
-- over a map runs through the association list, whose order stands for the one that Go picks.
--
-- Fuel: the loop over a range of weekdays has seven rounds, which are enough for weekdays below
-- seven; digits of a query type have twenty, and a query type has five digits at most. All other
-- loops run over lists or over the number of tries.
--
-- Not modelled: logging, the listening sockets and the timers that repeat a refresh, the
-- migrations of the SQLite store and the removal of its file, the static pages of the admin server, the router clients
-- (calls of the routers), the encoding of the configuration but for its names, the command that tests
-- a configuration, and the sleep of ten milliseconds between two tries.
-- The decision of the accounting is read after the update of the
-- store has run, as the Go compiler orders it; the language leaves that order open.
pub mod Prelude
pub mod Text
pub mod Utils
pub mod Config
pub mod Clock
pub mod TimeSpan
pub mod Rules
pub mod Policy
pub mod Accounting
pub mod Admin
pub mod Devices
pub mod System
pub mod Proxy
mod Tests
