-- ===== src/Lib.antt =====
-- A verification library for usshtc107, a desktop program that serves a local SSH proxy in front of a
-- web portal: OpenSSH, scp and editors connect to the proxy, which opens remote sessions and file
-- transfers through the portal's WebSocket and HTTP API.
--
-- The parts and how they interact. The proxy answers an SSH `exec` request whose text is an scp command
-- (electron/scp/command-parser.js) by a file transfer session (electron/scp), which names remote files
-- by glob patterns (electron/scp/glob.js); any other command is run by a bootstrap script on the remote
-- terminal, whose output electron/exec-codec.js cuts out of the terminal's text. When the portal cannot
-- be reached, electron/recovery-controller.js tries again in rounds, each attempt behind the checks of
-- electron/portal-preflight.js, and electron/health-probe-service.js tries a remote command from time to
-- time. electron/proxy-controller.js starts and stops the server in turn and tells the sessions to
-- electron/session-history-store.js. Settings of the window and of the profiles pass through
-- shared/settings-schema.mjs. electron/auth-state.js holds the portal login and
-- electron/shutdown-coordinator.js ends the program.
--
-- The files:
--   Prelude         what all of them share: lists and texts over native numbers, results, the values of
--                   the dynamic language, and `validateName` of electron/scp/protocol.js
--   Scp.Glob        electron/scp/glob.js: `compileGlob` to tokens and the table of its matcher
--   Scp.Command     electron/scp/command-parser.js: `tokenize`; Scp.Command.Parse: `parseScpCommand`
--   Exec            electron/exec-codec.js: `quotePosix`, the base64 groups, `createExecParser`
--   Lifecycle       electron/shutdown-coordinator.js and electron/auth-state.js
--   History         electron/session-history-store.js: Records and Size (the file), Prune (`_prune`),
--                   Store (state, `flush`), Calls (the calls of a running session), Loading (`_load`)
--   Settings        shared/settings-schema.mjs: Clean, Host, Rules (one setting), Patch (a patch)
--   Scp.Upload      electron/scp/upload-session.js: the records of an upload
--   Scp.Protocol    electron/scp/protocol.js: Limits, Reader (the chunks of a stream), Lines and Records
--                   (`readRecord`, `writeRecord`, `readPayload`, `writePayload`)
--   Connection      electron/portal-preflight.js (Preflight); electron/recovery-controller.js (Recovery):
--                   Context, State, Round (one round and its attempts), Probe (the socket), Controller
--                   (the methods, and `step` over events)
--                   Validation: electron/token-validation-service.js;
--                   Health: electron/health-probe-service.js
--   Proxy           electron/proxy-controller.js: State, Sessions (the history of a server's sessions),
--                   Stopping (`stopRecord`), Tasks (`begin` and the queue), Reports (`attach`) and
--                   Controller (the methods, and `step` over events)
--   Window          src/lib/traffic.js, and `acceptStats` of src/contexts/RuntimeContext.jsx: the points of
--                   the last minute
--
-- How code corresponds to definitions. A function keeps its name in snake_case; a class or a closure
-- with variables is a record, and its functions take and return that record; a thrown error is the
-- error of a Result. Callbacks, timers, promises, the clock and the file system are the environment:
-- an event, an argument with the outcome, or a field that lists what was called. A JavaScript string is
-- the list of its UTF-16 code units. A number is a native natural number where the code has tested
-- that it is a safe integer that is not negative, and a Value before.
--
-- Fuel. `parse_loop` of Scp.Glob has the length of its text as fuel, and `shrink` of History.Prune the
-- number of records; each turn takes one at least, and theorems show that this is enough. `chunks` of
-- Scp.Protocol has as much as there are bytes, and `decimal` of Prelude the number itself. The other
-- loops are structural.
--
-- Observers. A callback of a service of Connection or Proxy may call its methods again: where the code
-- rechecks after a callback, the model waits for an event; otherwise such a call comes after the method.
--
-- Not modelled: the rest of the window (src), the main process and its windows, tray, updates and
-- autostart, TLS, WebSocket and HTTP traffic, the SSH server, the key and credential stores and the
-- scripts; the bootstrap script that electron/exec-codec.js sends; the file reads and writes of the
-- history, of which the outcomes are arguments.
pub mod Prelude
pub mod Scp
pub mod Exec
pub mod Lifecycle
pub mod History
pub mod Settings
pub mod Connection
pub mod Proxy
pub mod Window
