-- ===== src/Lib.antt =====
-- airfk: a JSON-RPC server with subscriptions, an event feed, and hexadecimal encodings in Go.
--
-- A client's bytes come in by a codec (pkg/codec/jsonc.go), which parses them into requests, one or a
-- batch. The server (pkg/server/server.go) looks up the callback of each request, has the codec parse
-- its arguments against the callback's types, calls it, and writes one response or a batch of them. A
-- callback that subscribes makes a subscription in the connection's notifier
-- (pkg/server/subscription.go); it becomes active behind its response, and from then on events go out
-- as notifications. Inside the process events travel by feeds and scopes (pkg/event). Numbers and bytes
-- are written in hexadecimal by pkg/common/hexutil. A receiver's methods become callbacks when it is
-- registered under a name (pkg/server/utils.go, server.go), and an endpoint registers those that its
-- modules allow. Services find each other by a registry on etcd or consul (pkg/registry), and
-- pkg/leveldb wraps a store on disk. Apart from the server, cmd/tool generates a project from templates:
-- its NewProject builds a tree of folders, which render of pkg/zoo writes to disk.
--
-- The files:
--   Shared       names passed on from the library, Boolean tests, lists, texts, maps, results
--   GoStd        encoding/hex, strconv and what is used of strings and fmt of the standard library
--   Hexutil      pkg/common/hexutil/hexutil.go (Decode, DecodeUint64, DecodeBig, Encode...);
--                Hexutil/Json is json.go. The children state what a quantity is (Grammar, Quantity), the round
--                trips (RoundTrip), and how the methods of json.go agree with the decoders (Json/...)
--   Event        Event/Cases is caseList and Event/Feed is Feed of pkg/event/feed.go, Event/Scope is
--                pkg/event/subscription.go
--   Types        Types/Rpc is pkg/types/error.go and RpcRequest, Types/Hash is Hash of pkg/types/types.go,
--                Types/Version pkg/types/version.go
--   Codec        pkg/codec/jsonc.go: parseRequest, parseBatchRequest, the responses; Codec/Arguments is
--                parsePositionalArguments
--   Server       Server/Notifier is Notifier of pkg/server/subscription.go with Write and Close of the
--                codec, Server/NewId is NewID, Server/Requests is readRequest and Server/Dispatch is
--                handle, exec and execBatch of pkg/server/server.go; Server/Session is the loop of
--                serveRequest with its goroutines, which ServeCodec and ServeSingleRequest run;
--                Server/Callbacks is pkg/server/utils.go, Server/Registration is NewServer, RegisterName
--                and Modules with the registration of pkg/server/endpoint.go, Server/Lifecycle is the
--                set of codecs with Run and Stop, Server/Http and Server/Websocket are the checks of
--                pkg/server/http.go and websocket.go
--   Registry     Registry/Entity is pkg/registry/entity.go, Registry/Etcd and Registry/Consul are etcd.go
--                and consul.go, and Registry/Group is the map that the GetService of both build
--   Leveldb      pkg/leveldb/database.go
--   Math         pkg/common/math/integer.go, and of pkg/common/math/big.go ParseBig256 with the text
--                methods, BigMax, BigMin, FirstBitSet, BigPow and S256 (Math/Big), Exp and U256
--                (Math/Power), Byte, ReadBits and PaddedBigBytes (Math/Bits)
--   Common       pkg/common/bytes.go (Common/HexBytes), files.go (Common/Files), net.go, rand.go, and of
--                pkg/common/cmd exec.go (Common/Exec) and reboot.go
--   Service      pkg/service/service_context.go
--   Zoo          Zoo/Folder is the tree of pkg/zoo/file.go on a heap, Zoo/Render its render, Zoo/Project
--                pkg/zoo/project.go, and Zoo/Tool cmd/tool/tool.go; Zoo/World is what they ask of the
--                system, and Zoo/Plan the calls that a tree of folders stands for
--   Tests        the theorems at concrete inputs
--
-- State is a record that an operation takes and returns. A channel, a type or a value of the feed is a
-- number; raw JSON is its bytes. Errors are values, and a panic or a lock that is not got is a result
-- of its own. What other code decides is an argument: the answers of TrySend and the choices of
-- reflect.Select in the rounds of a Send, whether a write succeeds, what encoding/json makes of a text,
-- what a method called by reflection returns and does to its connection, the numbers that NewID draws,
-- what package reflect says of a type, the calls of the operating system, and the clients of etcd,
-- consul and goleveldb, whose documented behaviour is a record of laws where a theorem needs it.
--
-- Bounds and fuel: uint, uint64 and big.Word have 64 bits, and their arithmetic wraps around where the
-- source computes with them. The loop of Send runs on the list of rounds of its environment; more than
-- twice as many as there are cases are enough. DecodeBig runs on as many words as its digits need, and
-- NewID on three rounds, which fill its 16 bytes. render has one round of fuel for each folder of the
-- heap, which is more than the tree is deep.
--
-- Go maps are association lists, in one of the orders that Go may take. Names of types and methods are
-- lists of runes.
--
-- Not modelled: listeners and the frames of a websocket, and the constructors of the clients of
-- etcd, consul and goleveldb, which are calls of other libraries; the flags and the printed lines of
-- cmd/tool; goroutines, so that a call runs to its end before the next, but for the unsubscriptions
-- that a Send receives, for the steps of Server/Lifecycle, and for the goroutines of a connection in
-- Server/Session, whose steps come in any order.
pub mod Shared
pub mod GoStd
pub mod Hexutil
pub mod Event
pub mod Types
pub mod Codec
pub mod Server
pub mod Registry
pub mod Leveldb
pub mod Math
pub mod Common
pub mod Zoo
pub mod Service
pub mod Tests
