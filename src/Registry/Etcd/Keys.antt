-- ===== src/Registry/Etcd/Keys.antt =====
-- The keys and tags that Register of pkg/registry/etcd.go writes, taken apart as GetService does.
use airfk.Shared.{
  ℕ, zero, suc, ◌+◌, ◌%◌, ◌/◌, ◌<◌, ◌≡◌, refl, ◌∙◌, ap, some, List, [], ◌∷◌, ◌++◌, Bytes, codes,
  arith, ltb, All, Bool-cases, inl, inr,
}
use airfk.Shared.Int.{ℤ, pos, negsuc}
use airfk.GoStd.Strings.{split, join, NoneOf, split_none, split_once, split-join}
use airfk.GoStd.Decimal.{digits10, decimal}
use airfk.GoStd.Atoi.{decimal_int}
use airfk.Registry.Group.{IsLong, tags_check-IsLong}
use airfk.Registry.Entity.{
  new_service, new_node, node_id, host_or_default, get_tags, tag_of, host_tags, tags_check,
  default_prefix_service,
}

pub NoneOf-append : (sep : ℕ) (s t : Bytes) → NoneOf sep s → NoneOf sep t → NoneOf sep (s ++ t)
NoneOf-append sep [] t h k = k
NoneOf-append sep (c ∷ s) t h k = (h.0, NoneOf-append sep s t h.1 k)

digits10-NoneOf : (sep fuel n : ℕ) → sep < 48 → NoneOf sep (digits10 fuel n)
unfolding digits10
digits10-NoneOf sep zero n h = tt
digits10-NoneOf sep (suc fuel) n h = elim (Bool-cases (ltb n 10)) [
  | inl small ↦ rw small (omega arith, tt)
  | inr large ↦ rw large (
      NoneOf-append sep (digits10 fuel (n / 10)) ((n % 10 + 48) ∷ [])
        (digits10-NoneOf sep fuel (n / 10) h) (omega arith, tt))
]

decimal_int-NoneOf : (port : ℤ) → NoneOf b'/' (decimal_int port)
unfolding decimal_int decimal
decimal_int-NoneOf (pos n) = digits10-NoneOf b'/' (suc n) n (omega arith)
decimal_int-NoneOf (negsuc n) =
    (omega arith, digits10-NoneOf b'/' (suc (suc n)) (suc n) (omega arith))

pub split-node_id :
    (name version host : Bytes) (port : ℤ)
    → NoneOf b'/' (name ++ version)
    → NoneOf b'/' host
    → split b'/' (node_id name version host port)
      ≡ [] ∷ default_prefix_service ∷ (name ++ version) ∷ host ∷ decimal_int port ∷ []
unfolding node_id
split-node_id name version host port plain plain_host =
    let tail = host ++ b'/' ∷ decimal_int port in
    split_once b'/' [] (default_prefix_service ++ b'/' ∷ ((name ++ version) ++ b'/' ∷ tail)) tt
    ∙ ap (λ l. [] ∷ l)
        (split_once b'/' default_prefix_service ((name ++ version) ++ b'/' ∷ tail) (omega arith)
          ∙ ap (λ l. default_prefix_service ∷ l)
              (split_once b'/' (name ++ version) tail plain
                ∙ ap (λ l. (name ++ version) ∷ l)
                    (split_once b'/' host (decimal_int port) plain_host
                      ∙ ap (λ l. host ∷ l)
                          (split_none b'/' (decimal_int port) (decimal_int-NoneOf port)))))

-- The tags of a service on a host: the fixed one, the version's if there is one, and the host's.
unfoldable pub service_tags : Bytes → Bytes → List Bytes
unfolding tag_of
service_tags version host =
    codes "a-service" ∷ (tag_of (codes "v-") version ++ (codes "h-" ++ host) ∷ [])

pub get_tags-new_service :
    (name version address : Bytes) (port : ℤ)
    → get_tags (new_service name version address port)
      ≡ some (service_tags version (host_or_default address))
unfolding get_tags new_service new_node service_tags host_tags host_or_default
get_tags-new_service name version [] port = refl
get_tags-new_service name version (c ∷ address) port = refl

abbrev pub IsTag : Bytes → Type 0
IsTag tag = IsLong tag × NoneOf b',' tag

unfoldable pub service_tags-IsTag :
    (version host : Bytes)
    → NoneOf b',' version
    → NoneOf b',' host
    → All IsTag (service_tags version host)
unfolding service_tags
service_tags-IsTag [] host h k = (omega arith, ((omega arith, (omega arith, (omega arith, k))), tt))
service_tags-IsTag (c ∷ version) host h k = (
  omega arith,
  (
    (omega arith, (omega arith, (omega arith, h))),
    ((omega arith, (omega arith, (omega arith, k))), tt),
  ),
)

pub All-NoneOf : (tags : List Bytes) → All IsTag tags → All (NoneOf b',') tags
All-NoneOf [] h = tt
All-NoneOf (tag ∷ tags) h = (h.0.1, All-NoneOf tags h.1)

pub split-service_tags :
    (version host : Bytes)
    → NoneOf b',' version
    → NoneOf b',' host
    → split b',' (join b',' (service_tags version host)) ≡ service_tags version host
unfolding service_tags
split-service_tags version host h k =
    split-join b',' (codes "a-service") (tag_of (codes "v-") version ++ (codes "h-" ++ host) ∷ [])
      (All-NoneOf (service_tags version host) (service_tags-IsTag version host h k))

All-IsLong : (tags : List Bytes) → All IsTag tags → All IsLong tags
All-IsLong [] h = tt
All-IsLong (tag ∷ tags) h = (h.0.0, All-IsLong tags h.1)

pub tags_check-IsTag :
    (tags : List Bytes) (tag : Bytes)
    → All IsTag tags
    → (k : Bytes) × (tags_check tags tag ≡ some k)
tags_check-IsTag tags tag h = tags_check-IsLong tags tag (All-IsLong tags h)
