-- ===== src/Lib.antt =====
-- A verification of the core logic of Chiral, a self-hosted Xray management panel: one core process
-- with a database and an agent on each node.
--
-- Parts, and the files that model them (paths from the repository's root):
--   RateLimit  core/internal/api/ratelimit.go: the fixed-window limiter. `allow`, `evict`, `prune`
--              and the `throttle` wrapper are functions of a `Limiter`.
--   Version    core/internal/template/version.go: `NormalizeVersion` and `CompareVersions`.
--   Release    core/internal/release/release.go: `AssetFor` and `pickLatest`, which uses Version.
--   Kernel     core/internal/kernel/registry.go and fetch.go: `Rescan`, `For`, `Has` and `Install`
--              over a directory listing.
--   Upgrade    core/internal/upgrade/canary.go and upgrade.go, over the tables of
--              core/internal/store/xrayupgrade.go, xrayinstall.go and store.go. It uses Version,
--              Release and Kernel. Upgrade.Rows has the tables, Install `InstallOn`, Control the
--              operator's requests and the goroutines, Status `HandleStatus`, and Steps the
--              interleavings of all of these as step relations.
--   Online     core/internal/online/online.go: the registry of the addresses that users connect from.
--   Entitlement core/internal/user/user.go: `Reason`, `Allowed` and the stats keys; Entitlement.Enforce
--              has `SyncUser`, `renewIfDue` and `EnforceQuotas` of core/internal/profile/enforce.go.
--   Alert      core/internal/alert/alert.go over core/internal/store/alert.go: `Sweep`, `Announce`.
--   SecondFactor core/internal/api/mfa.go: `verifyMFA`, over the challenges and recovery codes of
--              core/internal/store/mfa.go and `VerifyTOTP` of core/internal/auth/totp.go, as one request
--              that nothing interrupts. SecondFactor.Race has `verifyMFA`, `sendEmailCode` and
--              `finishPasskeyLogin` statement by statement, with any number of requests in flight.
--   Sessions   core/internal/node/manager.go: the table of sessions, their queues, and the end of a
--              stream's handler in core/internal/node/service.go, which also tells Online.
--   Ruleset    core/internal/ruleset: the parsed preset of ini.go with `ListURLs`, and `expand` and `resolveGroups` of
--              render.go in Ruleset.Groups.
--   Template   core/internal/template/engine.go: the pattern of a reference as a scanner, `Render`,
--              `Validate`, `ForClient`, `With` and `Merge`.
--   Relay      a kernel's archive passed on to a node: Relay.Serve has `ReadChunk` of
--              core/internal/kernel/fetch.go and `HandleRelayRequest` of core/internal/upgrade/upgrade.go,
--              Relay.Transfer `Chunk` of agent/internal/client/install.go and `downloadViaRelay` of
--              agent/internal/xray/install.go.
--   Archive    internal/xrayarchive/archive.go: `Verify` and `Unpack`.
--   Xray       agent/internal/xray: the process manager of xray.go, with Xray.Apply, Xray.Activate
--              (activate.go) and Xray.Install (install.go, which uses Archive and Relay); Xray.Steps
--              interleaves what runs under the manager's lock.
--   Restricted core/internal/profile/restricted.go: `blocksFor` and `RestrictedNodeIDs`, over the tables
--              of core/internal/store.
--   Groups     core/internal/store/group.go: what a subscriber's group decides for them, leaving and
--              deleting a group, also for restricted destinations, and the editor of a subscriber's access.
--   Prelude    the names, tests, lists, maps and texts that the parts share.
--
-- State and time: a Go struct is a record, a table a list of rows, a Go map an association list in
-- the order in which `range` visits it, a time the seconds since 1970 as a native number
-- (the nanoseconds in RateLimit). A handler
-- is a function from the state to the state and its reply. A failing database is not modelled.
-- A text is read as its code points, in whose order UTF-8 bytes stand too.
--
-- The outside is an argument: the client's address (RateLimit), the outcome of a download (Kernel),
-- the record `World` of Upgrade, with GitHub's answers, the reachability of nodes and the clock, and
-- that of Entitlement.Enforce, with which operations reach their nodes, that of Alert, with which nodes
-- are up and what a delivery answers, and that of SecondFactor, with hashing, HMAC and base32. So are
-- the test that a preset's pattern is compiled to (Ruleset), the archive that `EnsureArchive` answers
-- and the frames that arrive (Relay), SHA-256 and the entries of a zip file (Archive), and what the
-- operating system, the network and the probe answer (Xray).
--
-- A goroutine of Upgrade is a value in the fleet's `jobs`; each of its turns runs to its next wait.
-- Each loop of the modelled code is structural recursion but three, which run on fuel: that of
-- `renewIfDue`, whose `int64` sums wrap around, on four rounds more than the seconds of the clock: a round
-- adds at least a second where nothing wraps, and two rounds take one back otherwise; that of `resolveGroups`, one round more than there are groups, enough since each round but the last drops
-- one; and that of `downloadViaRelay`, one round more than the archive has bytes.
--
-- Not modelled: the decoding and encoding of HTTP requests, SQL itself, files and processes, mail,
-- passkeys, encryption at rest, the parsing of presets and the writing of YAML, the assembly of whole
-- configurations and subscriptions, the agent's stream, its collector and the API of a running kernel.
pub mod Alert
pub mod Archive
pub mod Entitlement
pub mod Groups
pub mod Kernel
pub mod Online
pub mod Prelude
pub mod RateLimit
pub mod Relay
pub mod Release
pub mod Restricted
pub mod Ruleset
pub mod SecondFactor
pub mod Sessions
pub mod Template
pub mod Upgrade
pub mod Version
pub mod Xray
