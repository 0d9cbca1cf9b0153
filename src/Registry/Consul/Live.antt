-- ===== src/Registry/Consul/Live.antt =====
-- What the loop of GetService (pkg/registry/consul.go) gathers, against a filter of the answer.
use airfk.Shared.{
  ◌≡◌, refl, ◌∙◌, sym, ap, Bool, false, ◌&&◌, not, none, some, List, [], ◌∷◌, ◌++◌, append-nil,
  append_assoc, Bytes, codes, true, arith, ◌==◌, if◌then◌else◌, length, All, text_eq, Bool-cases,
  inl, inr,
}
use airfk.Shared.Result.{ok}
use airfk.Shared.Map.{Map, lookup}
use airfk.Registry.Entity.{Node, Service, tags_version}
use airfk.Registry.Group.{
  service_key, add_node, IsLong, tags_check-IsLong, map_values, nodes_of, nodes_of-add_node,
}
use airfk.Registry.Grouped.{entries_at, one_if_any, IsGrouped, IsGrouped-nil, add_node-IsGrouped}
use airfk.Registry.Etcd.{listed, listing}
use airfk.Registry.Consul.{
  ServiceEntry, Api, any_critical, consul_node, read_entry, read_health, get_service_map,
  get_service,
}

-- The key that GetService groups an entry by: its version, or what the tag says of it.
unfoldable pub key_is : Bytes → Bytes → ServiceEntry → Bool
key_is tag k e = elim (service_key e.tags tag (tags_version e.tags)) [
  | none ↦ false
  | some key ↦ text_eq key k
]

unfoldable pub no_critical : List Bytes → Bool
no_critical [] = true
no_critical (check ∷ checks) = not (text_eq check (codes "critical")) && no_critical checks

any_critical-no_critical : (checks : List Bytes) → not (any_critical checks) ≡ no_critical checks
unfolding any_critical no_critical
any_critical-no_critical [] = refl
any_critical-no_critical (check ∷ checks) = ground (arith, any_critical-no_critical checks)

-- The nodes of the entries of a service that have no critical check, for one key.
unfoldable pub live_nodes : Bytes → Bytes → Bytes → List ServiceEntry → List Node
live_nodes name tag k [] = []
live_nodes name tag k (e ∷ es) =
    let rest = live_nodes name tag k es in
    if text_eq e.service name && no_critical e.checks && key_is tag k e
    then consul_node e ∷ rest
    else rest

abbrev pub LongTags : ServiceEntry → Type 0
LongTags e = All IsLong e.tags

service_key-LongTags :
    (tag : Bytes) (e : ServiceEntry)
    → LongTags e
    → (key : Bytes) × (service_key e.tags tag (tags_version e.tags) ≡ some key)
unfolding service_key
service_key-LongTags tag e h =
    let (key, found) = tags_check-IsLong e.tags tag h in
    ((if length tag == 0 then tags_version e.tags else key), rw (found, service_key) refl)

-- What an entry adds to the nodes of every key, with one service for each key that has nodes.
abbrev Adds : Map Service → Map Service → (Bytes → List Node) → Type 0
Adds m m' added =
    ((k : Bytes) → nodes_of k m' ≡ nodes_of k m ++ added k) × (IsGrouped m → IsGrouped m')

nothing-Adds :
    (m : Map Service) (added : Bytes → List Node) → ((k : Bytes) → added k ≡ []) → Adds m m added
nothing-Adds m added e =
    (λ k. sym (append-nil (nodes_of k m)) ∙ ap (λ l. nodes_of k m ++ l) (sym (e k)), λ g. g)

step :
    (name tag : Bytes) (m : Map Service) (e : ServiceEntry)
    → LongTags e
    → (m' : Map Service) × (read_entry name tag m e ≡ some m')
      × Adds m m' (λ k. live_nodes name tag k (e ∷ []))
unfolding read_entry live_nodes key_is
step name tag m e h =
    let (key, found) = service_key-LongTags tag e h in
    let spec = any_critical-no_critical e.checks in
    elim (Bool-cases (text_eq e.service name)) [
      | inr other ↦ (
        m,
        rw other refl,
        nothing-Adds m (λ k. live_nodes name tag k (e ∷ [])) (λ k. rw other refl),
      )
      | inl same ↦ elim (Bool-cases (any_critical e.checks)) [
        | inl bad ↦ (
          m,
          rw (same, bad) refl,
          nothing-Adds m (λ k. live_nodes name tag k (e ∷ []))
              (λ k. rw (same, sym spec ∙ ap not bad) refl),
        )
        | inr good ↦ (
          add_node m key e.service (tags_version e.tags) e.tags (consul_node e),
          rw (same, good, found) refl,
          (
            λ k.
                nodes_of-add_node m k key e.service (tags_version e.tags) e.tags (consul_node e)
                ∙ (elim (Bool-cases (text_eq key k)) [
                  | inl here ↦ rw (same, sym spec ∙ ap not good, found, here, key_is) refl
                  | inr there ↦
                      rw (same, sym spec ∙ ap not good, found, there, key_is)
                        (sym (append-nil (nodes_of k m)))
                ]),
            add_node-IsGrouped m key e.service (tags_version e.tags) e.tags (consul_node e),
          ),
        )
      ]
    ]

live_nodes-head :
    (name tag k : Bytes) (e : ServiceEntry) (es : List ServiceEntry)
    → live_nodes name tag k (e ∷ []) ++ live_nodes name tag k es ≡ live_nodes name tag k (e ∷ es)
unfolding live_nodes
live_nodes-head name tag k e es =
    ground (arith, Bool-cases (text_eq e.service name && no_critical e.checks && key_is tag k e))

gathered :
    (name tag : Bytes) (m : Map Service) (es : List ServiceEntry)
    → All LongTags es
    → (m' : Map Service) × (read_health name tag m es ≡ some m')
      × Adds m m' (λ k. live_nodes name tag k es)
unfolding read_health live_nodes
gathered name tag m [] h = (m, refl, nothing-Adds m (λ k. live_nodes name tag k []) (λ k. refl))
gathered name tag m (e ∷ es) (long, h) =
    let (more, goes, (nodes, one)) = step name tag m e long in
    let (m', rest, (all, still)) = gathered name tag more es h in
    (
      m',
      rw (goes, read_health) rest,
      (
        λ k.
            all k
            ∙ ap (λ l. l ++ live_nodes name tag k es) (nodes k)
            ∙ append_assoc (nodes_of k m) (live_nodes name tag k (e ∷ []))
                (live_nodes name tag k es)
            ∙ ap (λ l. nodes_of k m ++ l) (live_nodes-head name tag k e es),
        λ g. still (one g),
      ),
    )

-- When consul answers with entries whose tags have at least two bytes each, GetService returns the
-- services of one map: under every key the nodes are those of the answer's entries that are of the
-- service, have no critical check and belong to the key, in the order of the answer, and the map
-- has one service under a key that such an entry belongs to, and none under any other.
pub get_service-live_nodes :
    (c : Api) (s : Api.St c) (name tag : Bytes) (es : List ServiceEntry)
    → c.health_service s name tag ≡ ok es
    → All LongTags es
    → (services : Map Service) × (get_service c s name tag ≡ listed (map_values services))
      × ((k : Bytes) → nodes_of k services ≡ live_nodes name tag k es)
      × ((k : Bytes) → entries_at k services ≡ one_if_any (live_nodes name tag k es))
unfolding get_service get_service_map listing nodes_of lookup
get_service-live_nodes c s name tag es answer long =
    let (m, e, (nodes, grouped)) = gathered name tag [] es long in
    (
      m,
      rw (answer, e, get_service) refl,
      nodes,
      λ k. grouped IsGrouped-nil k ∙ ap one_if_any (nodes k),
    )
