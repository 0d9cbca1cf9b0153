-- ===== src/Registry/Etcd.antt =====
-- EtcdRegistry of pkg/registry/etcd.go on a client of etcd, which is a parameter. Time limits of a
-- request show only as its error.
pub mod Keys
pub mod Read
pub mod Found
pub mod Missed
use airfk.Shared.{
  ℕ, ◌≡◌, Bool, true, false, Option, none, some, List, [], ◌∷◌, ◌++◌, Bytes, codes, ltb, ◌==◌,
  if◌then◌else◌, length, text_eq, has_prefix, ◌⊎◌,
}
use airfk.Shared.Result.{Result, ok, err}
use airfk.Shared.Int.{ℤ}
use airfk.Shared.Map.{Map}
use airfk.GoStd.Strings.{split, join}
use airfk.GoStd.Atoi.{atoi}
use airfk.Registry.Entity.{Node, Service, default_prefix_service, get_tags, tags_version, tags_host}
use airfk.Registry.Group.{service_key, add_node, map_values}

-- What Get of one key says.
pub data Got : Type 0 where
  found key_not_found : Got
  get_failed : Bytes → Got

-- A lease is its id; an error is its text.
pub record Client : Type 1 where
  pub St : Type 0
  pub grant : St → ℕ → St × Option ℕ
  pub get : St → Bytes → Got
  pub get_prefix : St → Bytes → Result Bytes (List (Bytes × Bytes))
  pub put : St → Bytes → Bytes → Option ℕ → St × Option Bytes
  pub delete : St → Bytes → St × Option Bytes

pub data Status : Type 0 where
  succeeded : Status
  failed : Bytes → Status
  panicked : Status

pub data Listing (A : Type 0) : Type 0 where
  listed : A → Listing A
  list_failed : Bytes → Listing A
  crashed : Listing A

abbrev pub status : Option Bytes → Status
status none = succeeded
status (some e) = failed e

abbrev pub first_node : Option (List Node) → Option Node
first_node none = none
first_node (some []) = none
first_node (some (node ∷ nodes)) = some node

abbrev pub no_node : Status
no_node = failed (codes "require at least one node")

unfoldable pub entry_node : Bytes → List Bytes → Bytes → Bytes → Node
entry_node key tags host port = record {
  id = key;
  host = if length host == 0 then tags_host tags else host;
  port = atoi port;
  tags = [];
}

-- The loop of GetService over one entry, on the parts of its key; `none` is a panic, which keys[4]
-- makes where there are four.
unfoldable pub read_parts :
    Bytes → Bytes → Map Service → Bytes → List Bytes → List Bytes → Option (Map Service)
read_parts name tag services key tags [] = some services
read_parts name tag services key tags (a ∷ []) = some services
read_parts name tag services key tags (a ∷ b ∷ []) = some services
read_parts name tag services key tags (a ∷ b ∷ n ∷ []) = some services
read_parts name tag services key tags (a ∷ b ∷ n ∷ host ∷ []) =
    if text_eq n name then none else some services
read_parts name tag services key tags (a ∷ b ∷ n ∷ host ∷ port ∷ more) =
    if text_eq n name
    then (elim (service_key tags tag (tags_version tags)) [
      | none ↦ none
      | some k ↦
          some (add_node services k name (tags_version tags) tags (entry_node key tags host port))
    ])
    else some services

unfoldable pub read_entries :
    Bytes → Bytes → Map Service → List (Bytes × Bytes) → Option (Map Service)
read_entries name tag services [] = some services
read_entries name tag services (kv ∷ kvs) =
    elim (read_parts name tag services kv.0 (split b',' kv.1) (split b'/' kv.0)) [
      | none ↦ none
      | some more ↦ read_entries name tag more kvs
    ]

unfoldable pub service_prefix : Bytes → Bytes
service_prefix name = b'/' ∷ (default_prefix_service ++ b'/' ∷ name)

unfoldable pub listing : Option (Map Service) → Listing (List Service)
listing none = crashed
listing (some services) = listed (map_values services)

-- One entry of ListServices.
unfoldable pub listed_service : List Bytes → List Service
listed_service (a ∷ b ∷ name ∷ d ∷ more) =
    record { name = name; version = []; check = []; ttl = 0; tags = []; nodes = none } ∷ []
listed_service keys = []

unfoldable pub listed_services : List (Bytes × Bytes) → List Service
listed_services [] = []
listed_services ((key, value) ∷ kvs) = listed_service (split b'/' key) ++ listed_services kvs

module _ (c : Client) where
  open c use {St, grant, get, get_prefix, put, delete}

  unfoldable pub put_node : St → Node → Bytes → Option ℕ → St × Status
  put_node s node val lease = ((put s node.id val lease).0, status (put s node.id val lease).1)

  unfoldable pub register : St → Service → St × Status
  register s svc = elim (first_node svc.nodes) [
    | none ↦ (s, no_node)
    | some node ↦ elim (get_tags svc) [
      | none ↦ (s, panicked)
      | some tags ↦ put_node s node (join b',' tags) none
    ]
  ]

  -- Put with the lease: a nil response of Grant panics.
  unfoldable pub put_leased : St → Node → Bytes → Option ℕ → St × Status
  put_leased s node val none = (s, panicked)
  put_leased s node val (some lease) = put_node s node val (some lease)

  -- `ttl` is in nanoseconds, and so it is granted.
  unfoldable pub register_with_ttl : St → Service → ℕ → St × Status
  register_with_ttl s svc ttl = elim (first_node svc.nodes) [
    | none ↦ (s, no_node)
    | some node ↦ elim (get_tags svc) [
      | none ↦ (s, panicked)
      | some tags ↦
          let (t, lease) = grant s ttl in
          elim (get t node.id) [
            | found ↦ put_leased t node (join b',' tags) lease
            | key_not_found ↦ put_leased t node (join b',' tags) lease
            | get_failed e ↦ (t, failed e)
          ]
    ]
  ]

  unfoldable pub deregister : St → Service → St × Status
  deregister s svc = elim (first_node svc.nodes) [
    | none ↦ (s, no_node)
    | some node ↦ ((delete s node.id).0, status (delete s node.id).1)
  ]

  -- The map that GetService builds, before it is made a list.
  unfoldable pub get_service_map : St → Bytes → Bytes → Result Bytes (Option (Map Service))
  get_service_map s name tag = elim (get_prefix s (service_prefix name)) [
    | err e ↦ err e
    | ok kvs ↦ ok (read_entries name tag [] kvs)
  ]

  unfoldable pub get_service : St → Bytes → Bytes → Listing (List Service)
  get_service s name tag =
      if length name == 0
      then list_failed (codes "key is null")
      else elim (get_service_map s name tag) [
        | err e ↦ list_failed e
        | ok services ↦ listing services
      ]

  unfoldable pub list_services : St → Listing (List Service)
  list_services s = elim (get_prefix s (b'/' ∷ default_prefix_service)) [
    | err e ↦ list_failed e
    | ok kvs ↦ listed (listed_services kvs)
  ]
