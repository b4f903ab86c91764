-- ===== src/Lib.antt =====
-- A model of coder-cli, the command line of Coder: its peer-to-peer network layer (wsnet), its file
-- synchronization (internal/sync), its HTTP client (coder-sdk), and the logic of its commands
-- (internal/cmd).
--
-- A workspace runs a listener, which waits for dialers at a broker. A dialer sends an offer, ICE
-- candidates and dial policies over the broker; both ends negotiate a WebRTC connection; then each
-- data channel names in its protocol the address that the listener dials and tunnels to. The
-- commands find their workspace, image, organization or provider by queries of the server; `sync`
-- watches files and runs rsync.
--
-- Files and what they model:
--   Prelude          shared helpers: tests, lists, text as bytes, Go maps, results
--   Wsnet/Proto      wsnet/proto.go: DialPolicy.permits, BrokerMessage.getAddress
--   Wsnet/Channel    wsnet/listen.go (handle) and wsnet/dial.go (DialContext): one data channel
--   Wsnet/Ice        wsnet/rtc.go: proxyICECandidates, newPeerConnection
--   Wsnet/Negotiate  the two negotiation loops: Dialer for wsnet/dial.go, Listener for wsnet/listen.go
--   Wsnet/Listen     wsnet/listen.go: Listen with its loop, dial, Close
--   Wsnet/Dial       wsnet/dial.go: Dial before the negotiation, and Ping
--   Wsnet/Dialable   wsnet/rtc.go: DialICE
--   Wsnet/Cache      wsnet/cache.go: DialerCache with its evictions
--   Wsnet/Conn       wsnet/conn.go: endpoints, and the buffering of a data channel's connection
--   Sync/EventCache  internal/sync/eventcache.go
--   Sync/Work        internal/sync/sync.go: the commands of an event
--   Sync/Run         internal/sync/sync.go: Sync.Run
--   Sdk/Http         coder-sdk/request.go: request, requestBody
--   Sdk/Errors       coder-sdk/error.go: HTTPError
--   Sdk/Login        NewClient of coder-sdk/client.go, coder-sdk/login.go
--   Sdk/Client       the methods of DefaultClient: Users, Workspaces, Images, Site; Bridge makes it
--                    the Client of the commands
--   Pkg/ErrGroup     pkg/clog/errgroup.go
--   Pkg/Table        pkg/tablewriter/tablewriter.go
--   Pkg/Version      internal/version/version.go
--   Cmd/Api          the entities of coder-sdk and the queries of its client
--   Cmd/Lookup       internal/cmd/ceapi.go, internal/coderutil, selectOrg of internal/cmd/workspaces.go
--   Cmd/Update       buildUpdateReq of internal/cmd/workspaces.go
--   Cmd/Change       the edit handler of internal/cmd/workspaces.go, rebuild of internal/cmd/rebuild.go
--   Cmd/Fleet        the handlers of stop and rm of internal/cmd/workspaces.go
--   Cmd/Create       the handler of create of internal/cmd/workspaces.go
--   Cmd/FromConfig   workspaceFromConfigCmd of internal/cmd/workspaces.go
--   Cmd/Policy       setPolicyTemplate of internal/cmd/workspaces.go, merge conflicts of coder-sdk
--   Cmd/HumanTable   internal/coderutil/workspace.go: WorkspacesHumanTable, MakeImageMap
--   Cmd/Providers    internal/cmd/providers.go: cordon, uncordon, rename, rm
--   Cmd/Tokens       internal/cmd/tokens.go: create, rm, regen
--   Cmd/Satellites   internal/cmd/satellites.go
--   Cmd/Tags         internal/cmd/tags.go
--   Cmd/ApiErrors    internal/cmd/errors.go
--   Cmd/Tunnel       internal/cmd/tunnel.go
--   Cmd/SshConfig    internal/cmd/configssh.go: the section in the SSH configuration; Handler is configSSH
--   Cmd/BuildLog     internal/cmd/rebuild.go: trailBuildLogs; Follow is coder-sdk/workspace.go:
--                    FollowWorkspaceBuildLog and WaitForWorkspaceReady
--   Cmd/Top          internal/cmd/resourcemanager.go: groups, resources, truncate
--   Cmd/Urls         internal/cmd/urls.go: create and remove
--   Tests            runs and theorems at concrete inputs
-- In each part `Laws` (and `Delivery`) holds the theorems. State is a record, an operation a
-- function from state to state by the name of the Go function, a run a fold over a list of inputs.
-- An interleaving of goroutines is a list of steps in any order, or a path of a step relation. Loops
-- run over lists of inputs, so no fuel is needed, except for the reads of WaitForWorkspaceReady, which
-- are a sequence without end and are cut off after `fuel` of them: more than the number of the read at
-- which the loop ends is enough. Text is a list of bytes; numbers are natural numbers, and where the
-- source bounds them (ports, strconv.Atoi, int32) the bound is written out.
--
-- The parts meet in a few places: the commands ask a Client, which Sdk/Client/Bridge makes of the HTTP
-- client; commands on several workspaces or providers run in a group of Pkg/ErrGroup; Dial sends the
-- candidates that the queue of Wsnet/Ice gives it.
--
-- Calls of other packages are arguments: what pion accepts (Library, Env, Probe, IceNet), net/http and
-- encoding/json (Http, Json), what the operating system and rsync answer (World, Stat), what the server
-- answers (Client), and quoting, sorting and URL parsing.
--
-- Not modelled: printing and logging, prompts and flags, WebSockets and their copying, singleflight,
-- and the commands that only pass a request on.
pub mod Prelude
pub mod Wsnet
pub mod Sync
pub mod Pkg
pub mod Sdk
pub mod Cmd
mod Tests
