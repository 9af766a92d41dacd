-- ===== src/Lib.antt =====
-- webrtc-chat: a chat over WebRTC, with a signalling server that introduces the peers.
--
-- The server keeps a registry of open connections in an actor map, the users in a store that is
-- swapped atomically, and forwards messages between WebSockets. What is modelled:
--   SafeMap    webrtc-server/pkg/safemap: NewSafeMap, Get, Set, Delete, Len, Dump, Walk; in
--              SafeMap/Actor the goroutine `run` with its channels and Close, as steps.
--   ConnReg    webrtc-server/pkg/connreg: ConnRegistry, one function per method, over SafeMap.
--   Payloads   the payload types of webrtc-server/pkg/connreg and webrtc-server/pkg/framing.
--   User       webrtc-server/pkg/models/user: the store and its index maps, Clone and AddUser; in
--              User/Manager the loops of MemoryUserManager.
--   Ws         webrtc-server/pkg/handler/handle_ws.go: handleTextMessage and what it calls; in Ws/Login
--              getLoggedInAs with webrtc-server/pkg/models/login; in Ws/Service ServeHTTP; in Ws/Proxy
--              webrtc-server/pkg/ws_proxy, the goroutine that writes and its callers, as steps.
--   Auth       webrtc-server/pkg/handler/handle_github_login.go and handle_kioutbit_login.go: in
--              Auth/Nonces the nonces, in Auth/Retry the end of both, in Auth/Kioubit also
--              webrtc-server/pkg/kioubit.
--   Web        the other handlers: in Web/Cookie webrtc-server/pkg/session with handle_session.go,
--              in Web/Token webrtc-server/pkg/my_jwt with handle_jwt.go and the header that an agent
--              sends, in Web/Bots handle_bots_management.go, in Web/Profile handle_profile.go,
--              in Web/Counter handle_counter.go.
--   Server     webrtc-server/main.go: the origin check, the routes, and the middleware around them, with
--              handle_logout.go, handle_conns.go and handle_cors.go.
--   Http       what a handler writes, and the checks that end it early.
--   Agent      webrtc-agents: in Agent/Signalling pkg/handlers/signalling_handler.go and the entries
--              and ICE restarts of common.go, with the state changes in Agent/Signalling/Changes;
--              Agent/Sdp the search in common.go; Agent/Patch pkg/handlers/stream.go and the client's
--              reader, webrtc-web/apis/message_patch.ts; Agent/MsgsStore pkg/msgs_store, and in
--              Agent/MsgsStore/History the collection of chatbot_dc_handler.go; Agent/Ogg
--              pkg/tracks/oggfile; Agent/Track pkg/tracks/handle.go; Agent/Duplicate
--              pkg/tracks/duplicate; Agent/Bots the ping, echo and counter handlers of pkg/handlers,
--              Agent/TrackBot its track_dc_handler.go, with NewTrackDCHandler in
--              Agent/TrackBot/Generators, Agent/ClockBot its clockbot_dc_handler.go, Agent/ChatBot
--              the rest of chatbot_dc_handler.go;
--              Agent/OpenRouter pkg/llm; Agent/Runner the message loops of pkg/ws_runner, with the
--              goroutines of a connection as state machines, Agent/Reconnect its Run over all the
--              connections of an agent, Agent/Dialer its getDialer; Agent/Main cmd/agents/main.go.
--   Text       strings.HasSuffix, strings.CutPrefix and strings.TrimSpace.
--   Decimal    strconv.Itoa and the verbs %04d and %04x, as the code uses them.
--   Map        Go's maps with text keys. A range over a map is a parameter (`Range`) that visits
--              every entry once, in any order; `entries_range` is one.
--   SyncMap    sync.Map, as the counters use it.
--   Prelude, Errors, Fallible  shared names, faults, errors, and chains of calls that may fail.
--   Examples   concrete runs, and each result below applied to one.
-- The other modules prove what their names say: SafeMap/Laws and SafeMap/Closing, ConnReg/Update,
-- /Attributes, /Search and /Lifecycle, User/Index, /Store, /Lookup, /Requests and /Race, Ws/Frame,
-- /Forward, /Broadcast, /Register and /Service/Ends, Agent/Signalling/Queue, /Runs, /Restart and
-- /Reconnect, Agent/Patch/Layout, Agent/Sdp/Infix, Agent/MsgsStore/Linear, Agent/Ogg/Lock,
-- Agent/Bots/Counters and /Echo, Agent/Track/Clock and /Streams, Agent/Duplicate/Consumers,
-- /Settled, /Settling, /Binding and /Codecs, Agent/TrackBot/Senders and /Answers,
-- Agent/ClockBot/Running, /Race and /Patches, Agent/ChatBot/Answers, Agent/OpenRouter/Ends and
-- /Failures, Agent/Runner/Runs, /Pings and /Panics, Agent/Reconnect/Reached and /Late, Agent/Dialer/Attempts,
-- Agent/Main/Startup, Server/Visitors and /Logins, Ws/Proxy/Order and /Progress, Web/Profile/Avatar
-- and /Sessions, Auth/Accounts, /Arrival, /Bound and /Verify.
--
-- A handler calls the registry, the registry the map: Ws over ConnReg over SafeMap, composed as
-- in the source. A nil dereference, a send on a closed channel and an index out of range are the
-- value `panic` of `Outcome`; errors that Go returns are values. Pointers to entries do not
-- leave the actor, so an entry is a value that a callback replaces; the index maps of a user
-- store do leave it, so they are on a heap. Between the Load and the CompareAndSwap of an
-- attempt the other goroutines are a function on the memory, and so are those that run between two
-- accesses of the clock bot to its map. The loops that may go round again
-- run over a list of such functions, one for each failed attempt, and then undisturbed, so no
-- fuel is needed. Append of the message store has its own 10000 retries, and GetPacket of an Ogg
-- file calls itself at most once, as it holds its mutex, so two turns of fuel are enough. The
-- calls of pion/webrtc, the Ogg reader and the collection of a message store are records of
-- functions that the definitions take.
-- Parameters: the order of a range, which write fails, the clock, and the ids that uuid makes.
-- json.Unmarshal is taken as done before handleTextMessage, and the JSON round trip of a cloned
-- entry as exact on the fields that have a JSON name.
--
-- Not modelled: the sound generators, which are floating-point code, the cleanup of an agent's peer
-- connections when it ends and the closing of Ogg files, the listeners and the management socket of
-- the server's main, the encoding of Dump as JSON, revokeGithubToken and GetGithubProfileByToken, which
-- are requests to GitHub, logging, the web client and the deployment. The HTTP requests to GitHub and
-- to the language model, the cryptography, DNS and the formats of the standard library and golang-jwt
-- are parameters.
pub mod Prelude
pub mod Text
pub mod Map
pub mod SyncMap
pub mod Errors
pub mod Fallible
pub mod SafeMap
pub mod Decimal
pub mod Payloads
pub mod ConnReg
pub mod User
pub mod Ws
pub mod Http
pub mod Auth
pub mod Web
pub mod Server
pub mod Agent
pub mod Examples
