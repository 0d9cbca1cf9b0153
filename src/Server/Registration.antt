-- ===== src/Server/Registration.antt =====
-- NewServer, RegisterName and Modules of pkg/server/server.go, and the registration of APIs in
-- pkg/server/endpoint.go.
pub mod Merge
pub mod Served
use airfk.Shared.{
  ℕ, ◌≡◌, Bool, true, false, ◌&&◌, ◌||◌, not, Option, none, some, List, [], ◌∷◌, Bytes, codes, ◌==◌,
  if◌then◌else◌, length, text_eq,
}
use airfk.Shared.Map.{Map, lookup, insert}
use airfk.Codec.Arguments.{Reflect}
use airfk.Server.Requests.{Conn, Reply, Callback, Service}
use airfk.Server.Callbacks.{Unicode, TypeDesc, Method, is_exported, format_name, suitable_callbacks}

abbrev pub metadata_api : Bytes
metadata_api = codes "rpc"

pub data RegisterError : Type 0 where
  no_service_name not_exported nothing_suitable : RegisterError

module _ (r : Reflect) where
  -- A receiver: the name of its type, pointers taken off, and its methods.
  pub record Receiver : Type 0 where
    pub type_name : Bytes
    pub methods : List (Method r)

  -- types.API without the version, which the server does not read.
  pub record Api : Type 0 where
    pub namespace : Bytes
    pub public : Bool
    pub service : Receiver

  abbrev pub Services : Type 0
  Services = Map (Service r)

  -- The version of each service of a server, as Modules lists them.
  unfoldable pub modules : Services → Map Bytes
  modules [] = []
  modules ((name, svc) ∷ services) = insert name (codes "1.0") (modules services)

  -- The receiver RPCService; what a call of Modules replies is an argument.
  unfoldable pub rpc_service : Reflect.T r → (Conn → List (Reflect.V r) → Conn × Reply) → Receiver
  rpc_service map_type reply = record {
    type_name = codes "RPCService";
    methods =
        record {
          name = codes "Modules";
          pkg_path = [];
          ins = [];
          outs = map_type ∷ [];
          func = λ with_ctx. reply;
        }
        ∷ [];
  }

  abbrev pub Entries : Type 0
  Entries = Map (Callback r)

  unfoldable pub is_empty : Entries → Bool
  is_empty [] = true
  is_empty (kv ∷ entries) = false

-- The whitelist as a test.
unfoldable pub listed_in : List Bytes → Bytes → Bool
listed_in [] name = false
listed_in (m ∷ modules) name = text_eq m name || listed_in modules name

module _ (u : Unicode) (r : Reflect) (describe : Reflect.T r → TypeDesc) where
  -- The loops that merge into a registered service; the keys are made of the methods' names again.
  unfoldable pub merge : Entries r → Entries r → Entries r
  merge [] old = old
  merge ((key, cb) ∷ new) old = insert (format_name u cb.method) cb (merge new old)

  unfoldable pub merged : Service r → Entries r → Entries r → Service r
  merged svc cbs subs = record svc {
    callbacks = merge cbs svc.callbacks;
    subscriptions = merge subs svc.subscriptions;
  }

  unfoldable pub fresh : Bytes → Entries r → Entries r → Service r
  fresh name cbs subs = record { name = name; callbacks = cbs; subscriptions = subs }

  -- The service of a name behind a registration.
  unfoldable pub updated : Bytes → Option (Service r) → Entries r → Entries r → Service r
  updated name none cbs subs = fresh name cbs subs
  updated name (some svc) cbs subs = merged svc cbs subs

  unfoldable pub register_name : Services r → Bytes → Receiver r → Services r × Option RegisterError
  register_name services name rcvr =
      if length name == 0
      then (services, some no_service_name)
      else if not (is_exported u rcvr.type_name)
      then (services, some not_exported)
      else (let (cbs, subs) = suitable_callbacks u r describe rcvr.methods in
          if is_empty r cbs && is_empty r subs
          then (services, some nothing_suitable)
          else (insert name (updated name (lookup name services) cbs subs) services, none))

  -- The error of the default registration is dropped.
  unfoldable pub new_server : Reflect.T r → (Conn → List (Reflect.V r) → Conn × Reply) → Services r
  new_server map_type reply = (register_name [] metadata_api (rpc_service r map_type reply)).0

  unfoldable pub allows : List Bytes → Api r → Bool
  allows modules api = listed_in modules api.namespace || (length modules == 0 && api.public)

  -- The loop of StartHTTPEndpoint and of StartWSEndpoint; it ends at the first error.
  unfoldable pub register_apis :
      List Bytes → Services r → List (Api r) → Services r × Option RegisterError
  register_apis modules services [] = (services, none)
  register_apis modules services (api ∷ apis) =
      if allows modules api
      then (elim (register_name services api.namespace api.service).1 [
        | some e ↦ (services, some e)
        | none ↦ register_apis modules (register_name services api.namespace api.service).0 apis
      ])
      else register_apis modules services apis

  -- The server of an endpoint whose listener opens; `none` when an API is not registered.
  unfoldable pub start_endpoint :
      Reflect.T r
      → (Conn → List (Reflect.V r) → Conn × Reply)
      → List Bytes
      → List (Api r)
      → Option (Services r)
  start_endpoint map_type reply modules apis =
      let (services, refused) = register_apis modules (new_server map_type reply) apis in
      elim refused [ none ↦ some services | some e ↦ none ]

  -- The same body for websockets.
  unfoldable pub start_ws_endpoint :
      Reflect.T r
      → (Conn → List (Reflect.V r) → Conn × Reply)
      → List Bytes
      → List (Api r)
      → Option (Services r)
  start_ws_endpoint map_type reply modules apis =
      let (services, refused) = register_apis modules (new_server map_type reply) apis in
      elim refused [ none ↦ some services | some e ↦ none ]
