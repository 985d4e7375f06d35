-- ===== src/Lib.antt =====
-- The heartpost monitor and agent, as a model.
--
-- An agent collects facts about its host and posts them, signed, to a monitor. The monitor checks
-- each report, keeps the last state of every agent, and at an interval tells a notifier which agents
-- have fallen silent and which have come back. A dashboard shows the same states.
--
-- The files and what they model:
--   Common/*        numbers, texts, lists and maps, and the decimal text of Go's strconv
--   Clock, Calendar, FilePath
--                   the parts of Go's time and path/filepath that the program uses
--   Signature       agentsig/agentsig.go, over HMAC-SHA256 as a parameter
--   Receiver/State, Disk, ReportFile, Store
--                   core/receiver/store.go: the map of agent states, state.json and the files of
--                   reports; Append, SetLiveness, EnsureAgent, States, NewStore and the cleanup
--   Receiver/Notify core/notify/webhook.go
--   Receiver/Liveness
--                   core/receiver/liveness.go: Thresholds.For and Checker.Check
--   Receiver/Source, Handler
--                   core/receiver/handler.go: the source address and every check of ServeHTTP
--   Receiver/Dashboard
--                   core/receiver/web.go: checkAuth, ServeHTTP and buildPage
--   Agent/Settings  agent/config.go: Validate, JobEnabled, LockPath, CheckSecretsPerm
--   Agent/Config    agent/config.go: LoadConfig; agent/config_read.go, registry.go, defaults.go and
--                   groups.go: from agent.toml to the options of a runner
--   Agent/Reporter  agent/reporter.go: SendOne and SendReports
--   Agent/Collect   agent/collect.go: the loop over the collectors
--   Agent/TokenCache, License
--                   agent/token_cache.go and agent/license.go
--   Agent/Cycle     agent/runner.go: New and cycle
--   Agent/Run       agent/runner.go: Run, with filelock/filelock.go, as the trace of what it takes
--                   and gives back
--   Agent/Runners   agent/runner.go: interleaved calls of Run and Close, as a step relation
--   Agent/Logger    agent/logger.go: the log file that starts anew when it is full
--   Monitor         cmd/heartpost-monitor/config.go: Load
--   License/Base64, Jwt, PublicKeys, Key, Offline, Heartbeat
--                   agentlicense/: tokens, public keys, license keys, offline files, and the loop
--                   that keeps a token alive
--   Collector/Tail, Jsonl
--                   collector/jsonl.go: the end of a log, and the records that are new in it
--   Collector/Pot   collector/optional/honeypot/honeypot.go: the summary of the honeypot's log
--   HttpOutcome/Receipt, Transport, Paths, Shipping
--                   httpoutcome/: receipts, the transport that records them, the trusted paths of
--                   their files; collector/vps/httpoutcome, which ships them
--   Honeypot/Mask, Trigger, Server
--                   honeypotserver/server.go: the masking of bodies, the triggers, New and the handler
--   Tests/*         runs on small inputs, and the theorems applied to them
-- Modules below these hold the proofs, named for what they prove.
--
-- How the code is carried over. A function that changes a store takes it and returns it. The files
-- of a store are part of it, and a record Os says which system calls fail, anew for each operation.
-- An error is a value. A text is its code points. A time counts nanoseconds from Go's zero time, a
-- duration is an integer, and Time.Sub saturates as in Go; arithmetic in int64 wraps where the source
-- computes with it. A float64 stands for its bits. A map is an association list: the source sorts
-- what it ranges over, or its result does not depend on the order, or the order is a parameter (the
-- addresses of Collector/Pot, which are then sorted). The mutex of the store makes its
-- operations atomic, so a run is a sequence of them. Loops are recursion on the list or on the number
-- of attempts, which the configuration bounds. Only the walk from a path up to the root has fuel,
-- the number of the path's characters, which is more than the directories above it.
--
-- Code outside the repository is a parameter: HMAC, SHA-256, Ed25519, JSON, TOML, the reading of
-- addresses, durations and zones from text, unicode.ToLower, HTTP answers, the files' stat results,
-- and, for the agent, the license verifier, which is an interface of the program.
-- Laws that a theorem needs of them (JSON reads back the states it wrote, HMAC gives bytes, the text
-- of an expiry reads back) are its hypotheses, and each has an instance among the tests.
--
-- Not modelled: what the log lines say; the workers and tickers of agent/runner.go's Run, whose
-- collecting and sending is one effect of a run; the other collectors below collector/, and their
-- settings; audit/ and r2/; the Windows calls of filelock/; the texts of times and
-- loads on the dashboard; the commands' flags and wiring; templates and scripts.
pub mod Collector
pub mod HttpOutcome
pub mod Honeypot
pub mod License
mod Tests
pub mod Agent
pub mod Calendar
pub mod Clock
pub mod Common
pub mod FilePath
pub mod Monitor
pub mod Receiver
pub mod Signature
