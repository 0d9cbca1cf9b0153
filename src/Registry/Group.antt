-- ===== src/Registry/Group.antt =====
-- The map from keys to services that GetService of pkg/registry/etcd.go and consul.go builds, and the
-- key of an entry.
use airfk.Shared.{
  ◌≤◌, All, drop, ◌≡◌, refl, ◌∙◌, ap, Option, none, some, List, [], ◌∷◌, ◌++◌, Bytes, arith, ◌==◌,
  if◌then◌else◌, length, text_eq, text_eq_iff, Option-cases, Bool-cases, inl, inr,
}
use airfk.Shared.Map.{Map, lookup, insert, lookup-insert}
use airfk.Registry.Entity.{Node, Service, tags_check, from_two}

unfoldable pub service_key : List Bytes → Bytes → Bytes → Option Bytes
service_key tags tag version = elim (tags_check tags tag) [
  | none ↦ none
  | some key ↦ some (if length tag == 0 then version else key)
]

-- A tag that the slice from index 2 does not panic on.
abbrev pub IsLong : Bytes → Type 0
IsLong tag = 2 ≤ length tag

pub tags_check-IsLong :
    (tags : List Bytes) (tag : Bytes)
    → All IsLong tags
    → (key : Bytes) × (tags_check tags tag ≡ some key)
unfolding tags_check from_two
tags_check-IsLong [] tag h = ([], refl)
tags_check-IsLong (t ∷ tags) tag h =
    let (k, e) = tags_check-IsLong tags tag h.1 in
    elim (Bool-cases (text_eq t tag)) [
      | inl same ↦ (drop 2 t, ground arith)
      | inr other ↦ (k, ground (arith, e))
    ]

unfoldable pub append_node : Option (List Node) → Node → Option (List Node)
append_node none node = some (node ∷ [])
append_node (some nodes) node = some (nodes ++ node ∷ [])

unfoldable pub service_at : Bytes → Bytes → List Bytes → Option Service → Service
service_at name version tags (some svc) = svc
service_at name version tags none = record {
  name = name;
  version = version;
  check = [];
  ttl = 0;
  tags = tags;
  nodes = none;
}

unfoldable pub with_node : Service → Node → Service
with_node svc node = record svc { nodes = append_node svc.nodes node }

unfoldable pub add_node : Map Service → Bytes → Bytes → Bytes → List Bytes → Node → Map Service
add_node services key name version tags node =
    insert key (with_node (service_at name version tags (lookup key services)) node) services

-- The services of a map, in the order of its list; Go's order is any.
unfoldable pub map_values : Map Service → List Service
map_values [] = []
map_values ((key, svc) ∷ services) = svc ∷ map_values services

abbrev pub nodes_or_nil : Option (List Node) → List Node
nodes_or_nil none = []
nodes_or_nil (some nodes) = nodes

abbrev pub nodes_in : Option Service → List Node
nodes_in none = []
nodes_in (some svc) = nodes_or_nil svc.nodes

-- The nodes listed under a key.
unfoldable pub nodes_of : Bytes → Map Service → List Node
nodes_of key services = nodes_in (lookup key services)

append_nodes :
    (nodes : Option (List Node)) (node : Node)
    → nodes_or_nil (append_node nodes node) ≡ nodes_or_nil nodes ++ node ∷ []
unfolding append_node
append_nodes none node = refl
append_nodes (some nodes) node = refl

before :
    (services : Map Service) (key name version : Bytes) (tags : List Bytes)
    → nodes_or_nil (service_at name version tags (lookup key services)).nodes
      ≡ nodes_of key services
unfolding nodes_of service_at
before services key name version tags = ground (arith, Option-cases (lookup key services))

pub nodes_of-add_node :
    (services : Map Service) (k key name version : Bytes) (tags : List Bytes) (node : Node)
    → nodes_of k (add_node services key name version tags node)
      ≡ (if text_eq key k then nodes_of k services ++ node ∷ [] else nodes_of k services)
unfolding nodes_of add_node with_node
nodes_of-add_node services k key name version tags node =
    let svc : Service = service_at name version tags (lookup key services) in
    let (there, _) = text_eq_iff key k in
    ap nodes_in (lookup-insert key k (with_node svc node) services)
    ∙ (elim (Bool-cases (text_eq key k)) [
      | inl same ↦
          let e : nodes_of key services ≡ nodes_of k services =
            ap (λ j. nodes_of j services) (there same) in
          rw same (
            append_nodes svc.nodes node
            ∙ ap (λ l. l ++ node ∷ []) (before services key name version tags ∙ e))
      | inr other ↦ rw other
    ])
