-- ===== src/Registry/Entity.antt =====
-- pkg/registry/entity.go: services, nodes, and what stands in the tags of a service. A slice that may
-- be nil is an option of a list; `none` as a result is the panic of an index out of range.
use airfk.Shared.{
  ℕ, Option, none, some, List, [], ◌∷◌, ◌++◌, Bytes, codes, leb, ◌==◌, if◌then◌else◌, length, drop,
  has_prefix, text_eq,
}
use airfk.Shared.Int.{ℤ, pos, negsuc}
use airfk.GoStd.Atoi.{decimal_int}

abbrev pub default_prefix_service : Bytes
default_prefix_service = codes "airman"

abbrev pub default_tag_service : Bytes
default_tag_service = codes "service"

pub record Node : Type 0 where
  pub id : Bytes
  pub host : Bytes
  pub port : ℤ
  pub tags : List Bytes

-- `ttl` is in nanoseconds.
pub record Service : Type 0 where
  pub name : Bytes
  pub version : Bytes
  pub check : Bytes
  pub ttl : ℕ
  pub tags : List Bytes
  pub nodes : Option (List Node)

unfoldable pub host_or_default : Bytes → Bytes
host_or_default [] = codes "127.0.0.1"
host_or_default (c ∷ address) = c ∷ address

unfoldable pub port_or_default : ℤ → ℤ
port_or_default (pos n) = if n == 0 then pos 8500 else pos n
port_or_default (negsuc n) = negsuc n

unfoldable pub node_id : Bytes → Bytes → Bytes → ℤ → Bytes
node_id name version host port =
    b'/'
    ∷ (default_prefix_service
        ++ b'/' ∷ ((name ++ version) ++ b'/' ∷ (host ++ b'/' ∷ decimal_int port)))

unfoldable pub new_node : Bytes → Bytes → Bytes → ℤ → Node
new_node name version address port = record {
  id = node_id name version (host_or_default address) (port_or_default port);
  host = host_or_default address;
  port = port_or_default port;
  tags = [];
}

unfoldable pub new_service : Bytes → Bytes → Bytes → ℤ → Service
new_service name version address port = record {
  name = name;
  version = version;
  check = [];
  ttl = 0;
  tags = [];
  nodes = some (new_node name version address port ∷ []);
}

-- A tag for a text that is not empty.
unfoldable pub tag_of : Bytes → Bytes → List Bytes
tag_of prefix [] = []
tag_of prefix (c ∷ text) = (prefix ++ c ∷ text) ∷ []

-- The tag of the first node's host.
unfoldable pub host_tags : Option (List Node) → Option (List Bytes)
host_tags none = some []
host_tags (some []) = none
host_tags (some (node ∷ nodes)) = some (tag_of (codes "h-") node.host)

-- The receiver is not nil.
unfoldable pub get_tags : Service → Option (List Bytes)
get_tags s = elim (host_tags s.nodes) [
  | none ↦ none
  | some tags ↦ some ((codes "a-" ++ default_tag_service) ∷ (tag_of (codes "v-") s.version ++ tags))
]

unfoldable pub get_id : Service → Option Bytes
get_id s = elim s.nodes [ none ↦ some [] | some [] ↦ none | some (node ∷ nodes) ↦ some node.id ]

-- What stands behind the first tag with a prefix of two bytes.
unfoldable pub tags_with : Bytes → List Bytes → Bytes
tags_with prefix [] = []
tags_with prefix (tag ∷ tags) = if has_prefix tag prefix then drop 2 tag else tags_with prefix tags

unfoldable pub tags_version : List Bytes → Bytes
tags_version tags = tags_with (codes "v-") tags

unfoldable pub tags_host : List Bytes → Bytes
tags_host tags = tags_with (codes "h-") tags

-- The slice from index 2 panics on a shorter text.
unfoldable pub from_two : Bytes → Option Bytes
from_two tag = if leb 2 (length tag) then some (drop 2 tag) else none

unfoldable pub tags_check : List Bytes → Bytes → Option Bytes
tags_check [] input = some []
tags_check (tag ∷ tags) input = if text_eq tag input then from_two tag else tags_check tags input
