-- ===== src/Lib.antt =====
-- A6 Core, the control server of a living-room appliance, in Go: phones are paired with it, and then
-- switch its mode, start and stop its game server, launch what is in the foreground, keep shortcuts,
-- and store files in a personal cloud.
--
-- The parts and how they interact. `main.go` opens one store (internal/state), which holds the whole
-- persisted state in memory and in state.json, and hands it to the managers and to the HTTP handlers.
-- Every change of that state goes through `Store.Update`, so what holds of `Update` in State.Store
-- holds of pairing, devices, modes, shortcuts and the cloud, whose theorems apply it. A handler runs
-- behind the gates of internal/auth, which read devices and sessions off the same store. The managers
-- of the game server (internal/servers) and of the foreground session (internal/apps) keep state of
-- their own in memory and act through executors. The mode manager is refused a switch by what those two
-- report as blocking.
--
-- Which file models what:
--   State.Types, State.Migrate    internal/state/state.go: the records, `freshState`, the migrations in
--                                 `readStateFile`
--   State.Disk.*                  internal/state/state.go: `saveLocked`, `copyFileAtomic`, `load`,
--                                 `quarantine` over a disk; Crash and Recovery hold the proofs
--   State.Store                   internal/state/state.go: `Open`, `Snapshot`, `Update`, `Save`
--   Auth.RateLimit, Auth.Pairing  internal/auth/ratelimit.go, internal/auth/pairing.go
--   Auth.Device                   internal/auth/keys.go, and `ValidateDeviceKey` and
--                                 `ExtractDeviceKey` of internal/auth/middleware.go
--   Auth.Middleware               internal/auth/middleware.go, internal/auth/localrequest.go
--   Http                          what handlers see of a request and answer
--   Server.App, Server.Pairing,   internal/server/server.go (the `Server` record),
--   Server.Devices                internal/server/pairing_handlers.go, device_handlers.go
--   Servers.Manager, .Stopping    internal/servers/servers.go: the registry and the critical sections
--   Servers.Polling               internal/servers/servers.go: `runStopSequence`
--   Servers.Steps, .Guard, .Stale internal/servers/servers.go: the interleavings of calls
--   Server.GameServers            internal/server/server_handlers.go
--   Modes, Server.Modes           internal/modes/modes.go, internal/resources/resources.go,
--                                 internal/server/mode_handlers.go
--   Cloud.Accounts                internal/cloud/cloud.go: `Register`, `Login`, `Logout`,
--                                 `ValidateSession`
--   Cloud.FileNames, Cloud.Files  internal/cloud/cloud.go: the names of stored files, `SaveFile`,
--                                 `ListFiles`, `OpenFile`, `DeleteFile`
--   Server.Cloud, .CloudAccounts  internal/server/cloud_handlers.go
--   Auth.CloudSession             internal/auth/cloud_middleware.go
--   Shortcuts                     internal/shortcuts/shortcuts.go
--   Retro, Apps                   internal/retro/retro.go, internal/apps/apps.go
--   Server.Modes.Checker          main.go: `combinedChecker`
--   AppLaunch                     internal/applaunch/applaunch.go, and `parseXorgCmdline` of
--                                 internal/xsession/xsession.go
--   Server.Apps                   internal/server/app_handlers.go, internal/server/retro_handlers.go
--   Server.Shortcuts              internal/server/shortcut_handlers.go
--   Server.System                 internal/server/system_handlers.go, display_handlers.go, handlers.go,
--                                 internal/system/system.go
--   Server.Routes                 internal/server/server.go: the table of routes and their gates
--   Events                        internal/events/events.go; Events.Moves has the handler and its loops
--   Input.Control, Input.Door     internal/input/input.go: who controls the devices, and who may
--   Input.Dispatch, .Pointer      internal/input/input.go: `dispatch`, `dispatchPointerMove`
--   Input.Keys, Input.Device      internal/inputbridge/keymap.go, internal/inputbridge/device.go
--   SelfPair                      internal/selfpair/selfpair.go
--   Telemetry                     internal/telemetry/telemetry.go
--   Telemetry.Status              main.go: `statusProvider`, and `StatusTick` of internal/events/events.go
--   Servers.Players               main.go: `runBedrockPlayerPoller`
--   Config                        internal/config/config.go
--   Icons                         internal/icons/icons.go
--   Icons.Ico, Icons.Favicon      internal/icons/ico.go, internal/icons/favicon.go
--   Server.Icons                  internal/server/icon_handlers.go
--   DbusCtl                       internal/dbusctl/dbusctl.go, and main.go: the executors over it
--   BedrockPing                   internal/bedrockping/bedrockping.go
--   Slices                        how code that reads bytes ends, a read out of range included
--   Samples, */Tests              concrete values, and the theorems at concrete inputs
--
-- How the code is read. A mutex makes a call one step, so a method is a function from its state to its
-- answer and its state; only Servers.Steps, Input.Control and Events.Moves split
-- calls, where the code waits or gives its mutex up. A field that is null or missing is `none`. Go's maps are functions into `Option`. Times are
-- numbers of nanoseconds since a moment before the program started, and `time.Now` is an argument where
-- it is called. What is drawn at random is an argument too. Texts of errors and logs are left out, their
-- kinds are kept.
--
-- The disk. A file has contents and a mark whether they are flushed; a loss of power turns contents that
-- are not flushed into garbage, a crash of the program alone does not. A call can fail, and a
-- call that writes can be interrupted half-way. Renaming is all or nothing. A text is read as JSON as
-- `json.Unmarshal` would: a decoded state, or garbage. A read of the state file or of its backup can fail
-- at a start; the read of the file that `saveLocked` copies can too.
--
-- Numbers. A load is kept as a pair of numbers, without the division. A motion of the pointer is in parts of
-- a pixel, and the rounding of its sums and the conversion of its pixels to 32 bits are parameters. The counters of /proc/stat are words of 64 bits and wrap. Bytes are numbers.
--
-- Bounds and fuel. The rate limiter holds 5 attempts in a window of 60 seconds, a pairing token lives for 15
-- minutes, a queue to a client holds 16 messages, the heartbeat is 30 seconds and a client is stale after 60, an
-- upload has at most 500 MB and an icon 512 KB. The poll of a stop sequence has fuel for one round more than
-- intervals of the poll fit in the time to wait, which is shown to be enough. All other loops go over lists or count down.
-- Other numbers that the program counts up are sizes and times, far below 2 ^ 63, so that machine arithmetic does
-- not wrap.
--
-- Parameters, for code that is not in this repository or goes to the network or the machine: SHA-256, bcrypt and
-- case folding, `url.Parse`, the system's table of MIME types, `http.DetectContentType`, `json.Marshal` and
-- `json.Unmarshal`, what `ParseMultipartForm` makes of a body, `strconv.ParseFloat`, the executors that act on the
-- machine, the uinput devices, the answers of the operating system to calls on files and processes, the answers
-- that the shell gets when it pairs itself, the resolver, what web servers answer, the encoder of PNGs, and the bus.
-- What is relied on is a named hypothesis of the theorem.
--
-- Shortcuts takes `FetchFavicon` as an argument, whatever it answers; Icons.Favicon is what it does.
--
-- Not modelled: the rest of `main.go`, which opens what the parts need, starts them and waits for a
-- signal; internal/version, a constant; the walk over /proc in internal/xsession; `Start` and `Shutdown` of the
-- server and the writing of JSON; the writing of an icon's file step by step, which either succeeds or leaves no file; and the `Handler` of
-- internal/system, which nothing in the program makes.
pub mod Prelude
pub mod State
pub mod Http
pub mod Slices
pub mod Auth
pub mod Servers
pub mod Modes
pub mod Cloud
pub mod Events
pub mod BedrockPing
pub mod SelfPair
pub mod AppLaunch
pub mod Telemetry
pub mod Icons
pub mod DbusCtl
pub mod Config
pub mod Shortcuts
pub mod Retro
pub mod Apps
pub mod Input
pub mod Server
mod Samples
