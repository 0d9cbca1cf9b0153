-- ===== src/Registry/Consul.antt =====
-- ConsulRegistry of pkg/registry/consul.go on the API of consul, which is a parameter. Where the code
-- gives consul a duration as a text, the model gives it the nanoseconds.
pub mod Live
use airfk.Shared.{
  ℕ, ◌+◌, ◌*◌, ◌≡◌, Bool, true, false, ◌||◌, Option, none, some, List, [], ◌∷◌, ◌++◌, Bytes, codes,
  ltb, ◌==◌, if◌then◌else◌, length, text_eq,
}
use airfk.Shared.Result.{Result, ok, err}
use airfk.Shared.Int.{ℤ}
use airfk.Shared.Map.{Map}
use airfk.GoStd.Atoi.{decimal_int}
use airfk.Registry.Entity.{Node, Service, get_tags, tags_version}
use airfk.Registry.Group.{service_key, add_node, map_values}
use airfk.Registry.Etcd.{
  Status, succeeded, failed, panicked, Listing, listed, list_failed, status, first_node, no_node,
  listing,
}

abbrev pub second : ℕ
second = 1000000000

-- DefaultInterval
abbrev pub default_interval : ℕ
default_interval = 10 * second

-- What net.SplitHostPort says of an address.
pub data HostPort : Type 0 where
  split_host : (host port : Bytes) → HostPort
  missing_port bad_address : HostPort

-- The address of the client that configure makes; the default one for an empty or a bad address.
unfoldable pub client_address : Bytes → (Bytes → HostPort) → Bytes → Bytes
client_address default split_host_port address =
    if length address == 0 then default else elim (split_host_port address) [
      | split_host host port ↦ host ++ b':' ∷ port
      | missing_port ↦ address ++ codes ":8500"
      | bad_address ↦ default
    ]

-- A check runs by time to live, or by an HTTP request to an address at an interval.
pub data CheckKind : Type 0 where
  by_ttl : ℕ → CheckKind
  by_http : (url interval timeout : Bytes) → CheckKind

pub record ServiceCheck : Type 0 where
  pub name : Bytes
  pub notes : Bytes
  pub kind : CheckKind
  pub deregister_after : ℕ

pub record Registration : Type 0 where
  pub id : Bytes
  pub name : Bytes
  pub tags : List Bytes
  pub port : ℤ
  pub address : Bytes
  pub check : ServiceCheck

-- An answer of the health endpoint: a service, the address of its node, the status of its checks.
pub record ServiceEntry : Type 0 where
  pub service : Bytes
  pub id : Bytes
  pub tags : List Bytes
  pub address : Bytes
  pub port : ℤ
  pub node_address : Bytes
  pub checks : List Bytes

-- An error is its text.
pub record Api : Type 1 where
  pub St : Type 0
  pub pass_ttl : St → Bytes → St × Option Bytes
  pub service_register : St → Registration → St × Option Bytes
  pub service_deregister : St → Bytes → St × Option Bytes
  pub health_service : St → Bytes → Bytes → Result Bytes (List ServiceEntry)
  pub catalog_services : St → Result Bytes (List Bytes)

unfoldable pub deregister_ttl : ℕ → ℕ
deregister_ttl t = if ltb t (120 * second) then 120 * second else t + default_interval

unfoldable pub check_id : Node → Bytes
check_id node = codes "service:" ++ node.id

unfoldable pub ttl_check : Service → Node → ℕ → ServiceCheck
ttl_check svc node ttl = record {
  name = svc.name;
  notes = node.id;
  kind = by_ttl ttl;
  deregister_after = deregister_ttl ttl;
}

unfoldable pub health_url : Node → Bytes → Bytes
health_url node check =
    let base = codes "http://" ++ (node.host ++ b':' ∷ decimal_int node.port) in
    if length check == 0 then base else base ++ b'/' ∷ check

unfoldable pub http_check : Service → Node → ServiceCheck
http_check svc node = record {
  name = svc.name;
  notes = node.id;
  kind = by_http (health_url node svc.check) (codes "10s") (codes "30s");
  deregister_after = deregister_ttl 0;
}

unfoldable pub registration : Service → Node → List Bytes → ServiceCheck → Registration
registration svc node tags check = record {
  id = node.id;
  name = svc.name;
  tags = tags;
  port = node.port;
  address = node.host;
  check = check;
}

unfoldable pub any_critical : List Bytes → Bool
any_critical [] = false
any_critical (check ∷ checks) = text_eq check (codes "critical") || any_critical checks

unfoldable pub consul_node : ServiceEntry → Node
consul_node e = record {
  id = e.id;
  host = if length e.address == 0 then e.node_address else e.address;
  port = e.port;
  tags = [];
}

-- The loop of GetService; `none` is a panic of tagsCheck.
unfoldable pub read_entry : Bytes → Bytes → Map Service → ServiceEntry → Option (Map Service)
read_entry name tag services e =
    if text_eq e.service name
    then (if any_critical e.checks
        then some services
        else elim (service_key e.tags tag (tags_version e.tags)) [
          | none ↦ none
          | some key ↦
              some (add_node services key e.service (tags_version e.tags) e.tags (consul_node e))
        ])
    else some services

unfoldable pub read_health : Bytes → Bytes → Map Service → List ServiceEntry → Option (Map Service)
read_health name tag services [] = some services
read_health name tag services (e ∷ es) = elim (read_entry name tag services e) [
  | none ↦ none
  | some more ↦ read_health name tag more es
]

unfoldable pub named_services : List Bytes → List Service
named_services [] = []
named_services (name ∷ names) =
    record { name = name; version = []; check = []; ttl = 0; tags = []; nodes = none }
    ∷ named_services names

module _ (c : Api) where
  open c use {St, pass_ttl, service_register, service_deregister, health_service, catalog_services}

  -- After ServiceRegister succeeded, the check passes at once, unless the time to live is 0.
  unfoldable pub pass_new : St × Option Bytes → Node → ℕ → St × Status
  pass_new (s, some e) node ttl = (s, failed e)
  pass_new (s, none) node ttl =
      if ttl == 0
      then (s, succeeded)
      else ((pass_ttl s (check_id node)).0, status (pass_ttl s (check_id node)).1)

  unfoldable pub register_with_ttl : St → Service → ℕ → St × Status
  register_with_ttl s svc ttl = elim (first_node svc.nodes) [
    | none ↦ (s, no_node)
    | some node ↦
        let (t, refused) = pass_ttl s (check_id node) in
        elim refused [
          | none ↦ (t, succeeded)
          | some e ↦ elim (get_tags svc) [
            | none ↦ (t, panicked)
            | some tags ↦
                pass_new (service_register t (registration svc node tags (ttl_check svc node ttl)))
                  node ttl
          ]
        ]
  ]

  unfoldable pub register : St → Service → St × Status
  register s svc = elim (first_node svc.nodes) [
    | none ↦ (s, no_node)
    | some node ↦
        let (t, refused) = pass_ttl s (check_id node) in
        elim refused [
          | none ↦ (t, succeeded)
          | some e ↦ elim (get_tags svc) [
            | none ↦ (t, panicked)
            | some tags ↦
                let (u, answer) =
                  service_register t (registration svc node tags (http_check svc node)) in
                (u, status answer)
          ]
        ]
  ]

  unfoldable pub deregister : St → Service → St × Status
  deregister s svc = elim (first_node svc.nodes) [
    | none ↦ (s, no_node)
    | some node ↦ ((service_deregister s node.id).0, status (service_deregister s node.id).1)
  ]

  -- The map that GetService builds, before it is made a list.
  unfoldable pub get_service_map : St → Bytes → Bytes → Result Bytes (Option (Map Service))
  get_service_map s name tag = elim (health_service s name tag) [
    | err e ↦ err e
    | ok entries ↦ ok (read_health name tag [] entries)
  ]

  unfoldable pub get_service : St → Bytes → Bytes → Listing (List Service)
  get_service s name tag = elim (get_service_map s name tag) [
    | err e ↦ list_failed e
    | ok services ↦ listing services
  ]

  unfoldable pub list_services : St → Listing (List Service)
  list_services s = elim (catalog_services s) [
    | err e ↦ list_failed e
    | ok names ↦ listed (named_services names)
  ]
