-- ===== src/Lib.antt =====
-- A model of the core of tmux-web-panel, the server that shows tmux sessions in a browser, with
-- proofs of what makes its parts correct.
--
-- The parts and how they meet. A browser logs in over HTTP (lib/auth.js): the limiter decides whether
-- the login may be tried at all, a success puts a token into the token map, and the token guards every
-- later request and WebSocket. A pane that the panel runs itself (lib/hub/basic/pane-runtime.js) is a
-- child process whose output goes to the subscribed sockets and into a replay ring. The status
-- monitor (lib/monitor.js) polls tmux in rounds, tells its subscribers what changed, and reports
-- commands that have finished; those and the hooks of coding agents go through the agent event service
-- (lib/agent-events.js), which drops duplicates and puts the rest into the notification store
-- (lib/notifications.js). The health service (lib/servers/health-service.js) probes the servers that a
-- panel knows, over the links that the pool keeps to them (lib/hub/link-pool.js), and says when each
-- is due again. Those servers are declared in the registry (lib/servers/registry.js), which checks what
-- it is told and keeps a file. What tmux prints is read by lib/tmux.js, and the ports of a pane's
-- processes come from lib/ports.js. On Windows the consoles of ended clients are cleared away by
-- lib/terminal/console-reaper.js, and windows are pinned in lib/pins.js. The load of the host is sampled
-- by lib/metrics/service.js. Which plugins run at all is what a profile and its
-- patches come to (kernel/profile.js). Snapshots of file previews are shared for a time
-- (lib/share-store.js).
--
-- Files and code.
--   Base            shared names; Base/Dict is a JavaScript Map as a list of entries in order, and
--                   Base/Equality the texts, which are lists of code units.
--   Auth/Limiter    createLoginRateLimiter of lib/auth.js. The proofs are in its children.
--   Auth/Tokens     createToken, isValidToken, startTokenReaper, the persistence; Auth/Tokens/Requests
--                   is parseBearerToken, tokenAuth and wsTokenAuth.
--   Notifications   class NotificationStore of lib/notifications.js.
--   Panes/Utf8      utf8Tail of lib/hub/basic/pane-runtime.js with the codec it calls;
--   Panes/Ring      class OutputRing; Panes/Runtime, class PaneRuntime with its effects as a list.
--   AgentEvents     normalizeAgentEvent and the keys (Event), class AgentEventService (Service) of
--                   lib/agent-events.js.
--   Monitor         subscribers and rounds of class StatusMonitor of lib/monitor.js;
--   Monitor/Completions   its _detectCompletions.
--   Health          lib/servers/health-service.js: what it keeps (Status), the statuses that it makes of a
--                   reading (Readings), and the operations of its class (Service).
--   Registry        lib/servers/registry.js: the checks of single values (Strings) and of a declaration
--                   (Input), the operations of class ServerRegistry up to their writes (Store), what a
--                   server becomes on disk and how it is loaded (Disk), and the loading of the file and
--                   the queue of writes (Writes). Failure is its AppError.
--   Tmux            the first part of lib/tmux.js: splitTmuxFields (Fields), the validators (Names), the
--                   parsers of the list commands (Lines), and parseTree (Tree).
--   Ports           lib/ports.js.
--   Errors          the error codes of lib/servers/errors.js and what each means by default.
--   Profile         kernel/profile.js: the entries of a profile (Entries) and the patches (Patch).
--   Links           class LinkPool of lib/hub/link-pool.js.
--   Shares          class ShareStore of lib/share-store.js; Pins, class PinStore of lib/pins.js.
--   Metrics         current and the samples of class MetricsService of lib/metrics/service.js;
--                   Metrics/Latest has the events that it meets.
--   Consoles        class ConsoleReaper of lib/terminal/console-reaper.js.
-- A lone surrogate of a text is a code point of its own, and its bytes are those of U+FFFD, as Buffer
-- writes them. The other children of these files hold proofs, and each Tests file runs the code on concrete inputs.
--
-- How code becomes definitions. An object is a record, a method a function from the record to the new
-- one and its result; what a method sends or kills is a list of effects in order. The time of a call
-- and random ids are arguments. A timer is the fact that it runs, and its callback a function of its
-- own, so that any order of timers and calls is a list of events. A file is its content, and a write
-- that fails is an argument. Times are natural numbers of milliseconds; a difference of times that the
-- source would see negative is 0 here, and every test on one agrees. Loops are structural; the decimal
-- digits of a number are written with as much fuel as the number itself, which is enough. The search
-- for the processes below a process has one round for each child in the tree and one more, and the
-- search for a free id has two tries more than there are servers; both are proved to be enough. A number
-- that a parser of tmux lines makes is kept as the text that it is made of. Objects that
-- two places share (the seen entries of the agent events, the entries of the health service) live in a
-- list and the maps hold their places in it.
--
-- Not modelled. Password hashes, ciphers and random bytes; the running of tmux, ss and ps, and the port
-- cache of the monitor, whose rounds take what was read as an argument; the commands that createTmuxApi
-- sends; the steps of one write of the registry's file and its key, and toPublic; fractional numbers in
-- agent events; malformed UTF-8 bytes; the HTTP server, the routes, the browser interface and the
-- plugins; what a health probe reads, which is the outcome of the probe, and its paths; the steps of the
-- file system, of which a write is taken or fails as a whole, and YAML; the fields of a snapshot of the
-- metrics and the window of their history; the hub and the
-- terminal streams.
pub mod Base
pub mod AgentEvents
pub mod Auth
pub mod Consoles
pub mod Errors
pub mod Health
pub mod Links
pub mod Metrics
pub mod Monitor
pub mod Notifications
pub mod Panes
pub mod Pins
pub mod Ports
pub mod Profile
pub mod Registry
pub mod Shares
pub mod Tmux
