-- ===== src/Lib.antt =====
-- Verification of ypi, an extension that lets a coding agent call itself recursively.
--
-- A root process owns one recursion tree. Its coordinator (extensions/ypi/internal/tree-
-- coordinator.ts) admits child calls: it counts them against a limit, and it hands out slots for
-- the calls that run at the same time, to processes that prove their identity
-- (extensions/ypi/internal/process-identity.ts). Implementing children may write only below the
-- paths declared for them (extensions/ypi/internal/implement-scope.ts), and run side by side only
-- if their scopes are disjoint.
--
-- Prelude and its children: tests, lists, texts as lists of UTF-16 code units, decimal numbers.
-- Process: `processStartIdentity` and `processMatchesStartIdentity`.
-- Coordinator.Protocol: requests, answers, errors with their exit codes, number checks.
-- Coordinator.State: `LocalCoordinator`'s slots, queue and connections; `Map` as a list in
--   insertion order.
-- Coordinator.Slots: `bindMaximum` to `drainQueue` and the body of `grantSlot`.
-- Coordinator.Grants: the callbacks that `grantSlot` installs, with its closure as a record.
-- Coordinator.Calls: `allocateCall`, over the operations on its file as parameters;
--   Coordinator.Counter: these operations on a file system, as Files models them.
-- Coordinator.Handler: `authenticateRequest` and `handleRequest`.
-- Coordinator.Generation: `startLocalCoordinator`, `markLocalCoordinatorTerminal` and the
--   termination of the child groups.
-- Coordinator.Run: the callbacks as events, and the states that they reach.
-- Coordinator.Client: `parseManifest`, `inheritedAuthority` and the events of one request of
--   `requestCoordinator`.
-- Coordinator.Client.Requests: the exported requests, and the framing of `acceptConnection`.
-- Coordinator.Root: `ensureRootTreeCoordinator`, `beginRootTreeCoordinator` and
--   `terminateRootTreeCoordinator`.
-- Files: the calls of `node:fs` as an interface (FileSystem), and steps on a disk that may throw;
--   Files.Laws: what POSIX documents of the calls.
-- Files.Identity: the checks of metadata (extensions/ypi/internal/atomic-file.ts).
-- Files.Transfer: `writeAll` and `readDescriptorFromStart`.
-- Files.Atomic: `atomicCreateFile`, `atomicCopyFile`, `atomicConditionalReplaceFile`,
--   `atomicWriteFile`; the test hook stands for what other processes do between the calls.
-- Files.Private: identities of private paths, reading and writing of private files, the journal
--   transaction and private directories (extensions/ypi/internal/private-path.ts).
-- Routing: the provider, the model and the thinking level of a call
--   (extensions/ypi/internal/model-routing.ts and config/model-routing.json).
-- Concurrency: the suspension of an inherited slot while its holder delegates
--   (extensions/ypi/internal/concurrency.ts).
-- Limits: depth, calls, time and slots as the environment sets them (extensions/ypi/env.ts,
--   extensions/ypi/guardrails.ts, extensions/ypi/internal/concurrency.ts).
-- LaunchGate: the arguments of the launch gate (extensions/ypi/internal/launch-gate.ts).
-- BatchPolicy: the calls that a root may not make beside implementing children
--   (extensions/ypi/internal/root-batch-policy.ts).
-- WriteScope, WriteScope.Gate: the paths and tools that an implementing child may use
--   (extensions/ypi/internal/write-scope.ts).
-- WorktreeInventory: the parser of Git's list of worktrees
--   (extensions/ypi/internal/worktree-inventory.ts).
-- Posix: `normalize`, `resolve` and `relative` of Node's `path.posix`.
-- ImplementScope: `normalizeImplementScope`, `pathIsWithinImplementScope`, `scopesOverlap`.
-- The modules below these hold the theorems, and their Tests run them on examples.
--
-- Parameters stand for what is outside of this code: `probe` for the start identity that the
-- operating system reports of a process, which may change from one event to the next; `files`
-- (CounterFiles) for the operations on the private file of the counter, without any law, so that
-- a write which throws may leave anything; `fold` for Unicode case folding; `parse` and
-- `byte_length` for the client's `JSON.parse` and `Buffer.byteLength`; `decode` for the UTF-8
-- decoder, `cwd` for the working directory; `exists`, `realpath` and `check_ignored` for the file
-- system and `git check-ignore`; F and `hook` for the calls of `node:fs` and for what other
-- processes do between them; `trim` for the method of strings; flags for the success of the
-- writes of the authority manifest and of the audit file.
--
-- Every loop is structural recursion. `digits_from` prints a number on fuel, one digit a step, and
-- is given one step more than the number itself. The loops that write and read through a
-- descriptor run on fuel too, and are given as many rounds as there are bytes: a round that returns
-- moves at least one.
--
-- Not modelled: sockets, timers and promises but for the events that they cause; trace files; the
-- signals sent, which are lists of processes here; the other parts of the extension (runtime, cost
-- ledger, workspaces, leases, transcripts, command line).
pub mod BatchPolicy
pub mod Concurrency
pub mod Coordinator
pub mod Files
pub mod ImplementScope
pub mod LaunchGate
pub mod Limits
pub mod Posix
pub mod Prelude
pub mod Process
pub mod Routing
pub mod WorktreeInventory
pub mod WriteScope
