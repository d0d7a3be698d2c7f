-- ===== src/Lib.antt =====
-- MeshBridge connects devices over Headscale and shares web services behind NAT through public
-- tunnels. This library models the parts that decide: who is let through to a tunnel, what its
-- traffic is charged, which agents and requests the gateway holds, what an agent runs, how files are
-- cut and resumed, which devices may talk, which route a transfer takes, and what the control API lets
-- its users, devices and agents do.
--
-- Parts and files. Paths are from the repository's root, names are those of the source in snake case.
--   Base            what the other files share: native numbers and tests (Tests), lists (Lists),
--                   equality of keys (Keys), association lists for maps (Dict), strings as bytes with
--                   the functions of Go's `strings` (Text), numbers as decimal text (Decimal).
--   Tunnel          internal/tunnel. The row of a tunnel and the package's errors.
--   Tunnel/Meter    internal/tunnel/meter.go: usageMeter and requestMeter. `Meter` is the state with
--                   its tables; Load, Reserve, Settle, Flush and Copy hold entry and balance, reserve,
--                   settle, flushLocked with prune, and read, write and close. The other files of the
--                   folder prove: Books and Loading the invariants, Adjust, Budget, Charge, Conserve,
--                   Accounts and Stream the operations.
--   Tunnel/Limits   internal/tunnel/gateway.go: attemptLimiter and rateLimiter.
--   Tunnel/Gate     internal/tunnel/tunnel.go: SignGate, VerifyGate and CheckKey.
--   Tunnel/Gateway  internal/tunnel/gateway.go: the state of Gateway, with Attach, Kill, Forget,
--                   CloseSessions, PrepareDelete, admitTunnel and the others as steps; `Step` and
--                   `Reach` are the orders in which they can happen.
--   Tunnel/Visitor  internal/tunnel/gateway.go: serveVisitor, gate, tryKey and the admission part of
--                   proxyRequest, which uses the steps of Tunnel/Gateway, the limiters and the gate.
--   Tunnel/Routing  internal/tunnel/tunnel.go and gateway.go: hosts and paths to rows of the table.
--   Tunnel/Agent    internal/tunnel/agent.go: Reconcile, Close, the backoff of run; TargetOK and
--                   AllowedBy of internal/tunnel/tunnel.go.
--   Transfer        internal/transfer/transfer.go: BuildManifest and Bitmap; ReplayGuard of
--                   internal/auth/auth.go.
--   Policy          internal/policy/policy.go: Render, Validate and Slugify.
--   Routes          internal/scheduler/scheduler.go: Decide; internal/probe/probe.go: DebounceRoute and
--                   the class that ParsePingOutput reads.
--   Script          internal/db/db.go: SplitStatements.
--   Mail            internal/mailer/mailer.go: SendCode and CheckCode over the table of codes.
--   Api             internal/api. `Server` holds the tables of migrations/*.sql that the handlers use, the
--                   login limiter, the gateway of Tunnel/Gateway and the codes of Mail.
--   Api/Action      A handler as a program over that state: queries, statements that may fail, errors.
--                   Its rules follow the outcome of a handler step by step.
--   Api/Sessions    internal/api/api.go and project_sso.go: authenticateBearer, requireAuth,
--                   handleLogout, revokeBearer, and the cascades over api_tokens and sso_grants.
--   Api/Login       internal/api/api.go: loginLimiter and handleLogin.
--   Api/Accounts    internal/api/setup.go: handleSendCode and handlePasswordReset.
--   Api/Signup      internal/api/setup.go: handleRegister and handleSetupInitial; sanitizeUsername, whose
--                   loop ends at a free name (Names).
--   Api/Devices     internal/api/api.go: registration and deletion of devices, requireDeviceToken.
--   Api/Agents      internal/api/api.go: handleAgentHeartbeat, whose answer Tunnel/Agent reconciles with.
--   Api/Projects    internal/api/api.go: creation of projects.
--   Api/Lists       internal/api/api.go and tunnels.go: the lists and who sees which rows.
--   Api/Transfers   internal/api/api.go: transferPathOK and the creation of transfer jobs.
--   Api/Tunnels     internal/api/tunnels.go: rows and guards; Handlers holds create, patch, delete,
--                   rotate-key, connect and cert-ask, Settings the settings of all tunnels.
--
-- Conventions. Integers are natural numbers where the code keeps them from being negative; int64
-- sums of bytes are taken without overflow, and decimal text is parsed with the bound of 63 bits
-- written out. Maps are association lists; where the order of Go's iteration could matter, no theorem
-- depends on it. Times are natural numbers, nanoseconds or seconds as each file says, and the clock is
-- an argument. A critical section is one function from state to state; interleavings are sequences of
-- such functions. What the environment answers (SQL, the connection, Stat, MeterReady) is an argument.
-- Hashes, keyed hashes, the parsers of addresses and of JSON and a floating point comparison are
-- parameters of which nothing is assumed. In Api a table is a map from its primary key; an INSERT checks
-- that key, the unique columns and the references, a DELETE does what the schema does along with it. The
-- argument `up` (`mail_up` for the codes) tells of each statement of a handler, by its number, whether the
-- database carries it out. A handler runs alone, except that Tunnel/Gateway has its own interleavings.
--
-- Fuel. The metered write recurses on a number of rounds, one more than the bytes it is given, as each
-- round moves a byte or is the last; the inner loop of BuildManifest runs on the
-- length of the buffer, which is enough as each turn takes a byte; the passes of Slugify run on the
-- length of the text, since each pass but the last shortens it; printing a number runs on the
-- number and one more; a cascade runs as many rounds as there are rows, since every round but the last
-- deletes one; the search for a user name asks once for each account, which is enough as its
-- candidates differ. Every other loop is structural.
--
-- Not modelled: of internal/api health, the relays, surface, the SMTP settings and the
-- enrollment command, and the sign-in flows by Google and between projects; of a changed
-- tunnel what UpdateQuota and the re-armed warning do to the traffic meter; configuration, the SMTP
-- session, Headscale, storage, relay quotas, the file system side of transfers and of the policy, the
-- yamux and websocket links, and the programs under cmd.
pub mod Base
pub mod Tunnel
pub mod Transfer
pub mod Policy
pub mod Routes
pub mod Script
pub mod Api
pub mod Mail
