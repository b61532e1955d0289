-- ===== src/Lib.antt =====
-- A verification library for Multi-Ops, a system that watches and runs machines from one place.
--
-- An agent runs on each machine and connects to a gateway over a WebSocket. The gateway accepts it
-- by a token, relays what it sends to the master under the agent's ID, and relays the master's
-- messages to the agents they name. The master keeps the table of machines and the history of
-- script runs, and serves browsers behind a login with signed tokens and one-time codes, behind
-- rate limits and behind an address list.
--
-- Files and the code they are about:
--   Base, Dict, Flags     the parts of the language: byte strings, slices, integers, maps, sets
--   Base/Words            strings.Fields, Cut and TrimSuffix; Base/Numbers is strconv on 64 bits
--   Env                   getEnv of the three programs
--   Protocol              internal/protocol/protocol.go: messages, machines, payloads
--   Store                 internal/master/store/store.go: the table of machines
--   History               internal/master/store/history.go: the bounded history of runs
--   Auth/Users            internal/master/auth/auth.go: accounts and passwords
--   Auth/Jwt              internal/master/auth/jwt.go: GenerateToken, ValidateToken
--   Auth/Totp             internal/master/auth/totp.go: ValidateCode, generateCode
--   Http                  net/http requests; Http/Origin is CheckOrigin of the two upgraders
--   Middleware/Ip         internal/master/middleware/middleware.go: ExtractIP, IPWhitelist
--   Middleware/Guards     the same file: RequireAuth, RequireRole
--   Middleware/Limiter    the same file: RateLimiter
--   Middleware/Headers    the same file: SecurityHeaders, AuditLogger
--   Gateway/Proxy         internal/gateway/proxy/proxy.go: the connection manager and its loops
--   Gateway/Server        cmd/gateway/main.go, internal/gateway/auth/auth.go: handlers, dialling
--   Gateway/Main          the same files: the start, the random default token, /status
--   Audit                 internal/master/audit/audit.go: the audit log
--   Ws                    internal/master/ws/ws.go: browsers, and the connection to the gateway
--   Api/Login             internal/master/api/api.go: HandleLogin
--   Api/Frames            the same file: HandleGatewayWS
--   Api/Batch             the same file: HandleBatchExec
--   Api/Dashboard         the same file: HandleDashboardWS
--   Api/Listing           the same file: HandleExecHistory, parseInt
--   Api/Machines          the same file: the handlers of machines, tags and groups
--   Api/Files             the same file: HandleFileUpload, HandleFileDownload, HandleCommand
--   Api/Account           the same file: HandleSetupTOTP, and GenerateSecret of auth/totp.go
--   Api/Status            the same file: HandleStatus, HandleAuditLog, HandleExecDetail
--   Api/Templates         the same file: HandleScriptTemplates
--   Master                cmd/master/main.go: the start, the ticker
--   Routes                cmd/master/main.go: the table of routes, the chain of middleware;
--                         Routes/Handlers is the server with its handlers in their places
--   Agent/CleanPath       filepath.Clean on Unix, as its documentation gives it
--   Agent/Files           cmd/agent/main.go: handleFileUpload, handleFileDownload
--   Agent/Terminal        internal/agent/terminal/terminal.go: a shell behind a pseudo terminal
--   Agent/Executor        internal/agent/executor/executor.go: RunScript
--   Agent/Client          cmd/agent/main.go: the agent and its handlers; Client/Loop is connectLoop
--                         and connect, Client/Dial the start and the dial
--   Agent/System          internal/agent/system: info.go in System/Info, metrics.go in
--                         System/Metrics
--   EndToEnd/Exec         a batch run over the master, the gateway and an agent, and back
--   EndToEnd/Terminal     a key from a browser to the shell of an agent, and what it prints, back
--   Tests                 runs on small inputs
-- A module below one of these holds lemmas about it. A function has the name of the Go function
-- in small letters with underscores.
--
-- How the code is read. A struct with a lock is a record, and a method a function from its state
-- to the new state, since each method holds the lock for its body. Where a method reads the clock,
-- the time is an argument: nanoseconds since 1970, as a number, of which `unix` takes seconds. A
-- string is the list of its bytes. A map is a Dict, known by its laws only; Go leaves the order of
-- a loop over a map open, so that theorems about such a loop speak of membership. A nil slice is the
-- empty one. The handlers of a web server are functions from the claims of the context, the request
-- and a state to a response and a state. The gateway is a step relation: a step is a request to a
-- handler, a dialled connection, a frame or an error at one of the loops that read a connection, in
-- any order. A frame is the message that json.Unmarshal reads, or none. Once Close was called on a
-- connection, writes to it fail; any other write is taken to go through. The goroutines of an agent
-- run as a list of events, each handler by itself, and one event is the end of the second after which
-- a "restart" ends the process; Agent/Client/Races splits the one handler that gives up its lock in the
-- middle, and runs two of it by any schedule. White space is that of ASCII, since the commands print no other.
--
-- Parameters. bcrypt, HMAC, base64, base32, encoding/json, the address parsers of package net, the
-- random bytes, the environment, ParseFloat with the operations on floats, and the operating system's
-- answers are arguments: the outputs of the commands, what a script writes and how cmd.Run ends,
-- whether a shell starts and a dial goes through. What is relied on stands at the theorem that uses
-- it: bcrypt recognises its hashes, a base64url text has no dot and decodes to what was encoded,
-- HMAC-SHA1 gives 20 bytes, a base32 text decodes to what was encoded, and encoding/json reads back
-- the claims of a token and one request to run a script. Of an answer and of what a shell prints
-- nothing of the kind is taken, since encoding/json replaces bytes that are not UTF-8: what is read
-- there is an argument. A failed write of a file is recorded as such, since os.WriteFile may leave the
-- file cut off.
--
-- Bounds. Loops over lists are structural, and there is no fuel: connectLoop runs over the list of
-- the turns that it is given. ParseUint, Atoi and the deadline of a script are computed on 64 bits.
-- The one-time codes are computed on 64-bit integers, and statements about them hold for times
-- below 2^62 seconds; a time before 1970 wraps as in uint64(t). The offsets and limits of lists are
-- numbers, as the one caller passes them. Counts of requests are numbers without a bound.
--
-- Not modelled: the log but for that of requests, the listeners and the wait for a signal, whose
-- effect on an agent is Client/Dial's on_signal; ExecStream of the protocol, which nothing uses;
-- symbolic links, which are the operating system's matter; the web pages.
pub mod Base
pub mod Dict
pub mod Protocol
pub mod Store
pub mod History
pub mod Audit
pub mod Auth
pub mod EndToEnd
pub mod Env
pub mod Master
pub mod Flags
pub mod Http
pub mod Middleware
pub mod Gateway
pub mod Agent
pub mod Ws
pub mod Api
pub mod Routes
mod Tests
