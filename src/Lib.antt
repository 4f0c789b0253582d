-- ===== src/Lib.antt =====
-- The control server for smart devices of this repository: it takes requests from clients, sends
-- them to devices through the controller of each, and relays what devices report.
--
-- Parts, and the modules that model them:
-- - src/main.rs, src/hooks.rs: the shared state `AppState` and the hooks. `App` has the state, the
--   effects, and the asynchronous functions as actions `AppState → Result A × AppState`; `Main` how
--   the state is made at the start, `System` everything that happens to it afterwards, as a step
--   relation over the handlers of all parts. `Main.Tasks` has the tasks that `main` joins, with those
--   of src/server_backends/mod.rs and src/automations/mod.rs, by how they end and in which order
--   `main` joins them, and `Main.Boot` what is spawned. `System.Threads` has all tasks at once, turn by turn.
-- - src/config.rs and the configuration records of all parts: `Config`, with the reading of files in
--   `Config.Load`.
-- - src/devices/mod.rs: `Devices`; src/devices/dispatch.rs: `Dispatch`, with the turns that its
--   functions take in `Dispatch.Tasks`; src/scenes.rs: `Scenes`.
-- - src/devices/controllers/mod.rs: `Controllers`. `Controllers.Reports` is what the four controllers
--   make of what a device sends.
-- - src/devices/controllers/tplink.rs: `Tplink` (cipher, payloads, commands, listener).
-- - src/devices/controllers/govee.rs: `Govee` (payloads, commands, listener).
-- - src/devices/controllers/simple.rs: `Simple` (greeting, frames, messages,
--   connections, requests, listener).
-- - src/devices/controllers/krypton.rs: `Krypton` (certificates, the TLS hello, messages, connections,
--   requests, listener).
-- - src/server_backends/mod.rs: `Clients.Catalog`; its servers tcp.rs, websocket.rs and http.rs:
--   `Clients.Tcp`, `Clients.Websocket`, `Clients.Http`. `Clients.Protocol` is what the first two have
--   in common.
-- - src/automations/dependencies.rs: `Automations.Dependencies` (the loop over the hooks).
-- - src/automations/sunset_light_temp.rs: `Automations.Sunset` (the ramp for one device), and its child
--   `Evening` (the waiting, the ramps of all devices, the loop).
--
-- Dependencies are interfaces. `Deps` has what is used of serde_json, devicectrl-common and p256;
-- `App.Env` answers every effect on the outside world, at each tick of a clock, so that an
-- environment is any sequence of successes and failures; `Simple.Codec` has the codecs and the
-- byte stream of a connection, `Krypton.Codec` the codecs and the frames of another,
-- `Clients.Messages` the codecs of the servers, `Automations.Dependencies.Channel.Broadcast` the
-- broadcast channel of tokio, `Tls` and `Krypton.Hello.Hello` what is used of rustls,
-- `Automations.Sunset.Evening.Sun` the clock and the sun, `Config.Load.Files` the file system and
-- the readers of keys, `Clients.Http.Connection.Hyper` what hyper has next on a connection, and
-- `Tasks.Join.Scheduler` the order in which futures that are joined take their turns. Identifiers
-- of devices and scenes are compared only, and are numbers here: the rank of the text among all
-- texts that fit one.
--
-- Effects are entries of `AppState.trace`, the latest first. A lock is held for one step of the
-- model: no function takes it twice. Futures that a function joins, the updates of a scene, the
-- queries of all devices and the ramps of an evening, are `Tasks.Task`s, which take turns in an
-- arbitrary order, one turn from an await to the next; a join is given as many turns as its
-- futures take at most, 4 for a request and 6 for a request with a pause. `System.Threads` runs
-- all tasks of the server so: the connections of clients, the automations, the queries, and the
-- reports of devices, of which a device has one under way at a time, and `System.Crowd` with any
-- number of them. A read lock that a task holds over several turns is left out there, which only
-- adds interleavings. Elsewhere a function runs by itself, from a state to the next. Log lines are
-- left out. Loops that serve arrivals are recursions on the list of arrivals. In `System` the
-- handlers follow one another in any order. `Simple.Frame.read_loop` takes fuel, the number of
-- frames that are read at most; the loop for the hello of a Krypton device and that of the
-- dependency automation, the number of their turns; the automations of `System.Threads` and a
-- connection over HTTP, the number of rounds or of requests; the ramp of the light temperature
-- counts the temperatures that are left, as its source does.
--
-- Not modelled: what goes on within sockets, files, TLS and hyper; log filters and the
-- notification of systemd. The derived readers of serde are interfaces.
pub mod App
pub mod Automations
pub mod Clients
pub mod Common
pub mod Config
pub mod Controllers
pub mod Deps
pub mod Devices
pub mod Dispatch
pub mod Govee
pub mod Krypton
pub mod Main
pub mod Prelude
pub mod Scenes
pub mod Simple
pub mod System
pub mod Tasks
pub mod Tests
pub mod Tls
pub mod Tplink
