-- ===== src/Registry/Etcd/Found.antt =====
-- Register and GetService of pkg/registry/etcd.go together.
use airfk.Shared.{ℕ, ◌^◌, ◌<◌, refl, [], ◌∷◌, append-nil, Bytes, codes, arith}
use airfk.Shared.Int.{pos}
use airfk.Shared.Map.{Map}
use airfk.GoStd.Strings.{join, NoneOf}
use airfk.Registry.Entity.{node_id, host_or_default, port_or_default}
use airfk.Registry.Etcd.Keys.{service_tags}
use airfk.Registry.Etcd.Read.{IsEntry}

host_plain :
    (sep : ℕ) (address : Bytes)
    → NoneOf sep address
    → NoneOf sep (codes "127.0.0.1")
    → NoneOf sep (host_or_default address)
unfolding host_or_default
host_plain sep [] h k = k
host_plain sep (c ∷ address) h k = h

module _ (name address : Bytes) (n : ℕ) (small : n < 2 ^ 63) (plain : NoneOf b'/' name)
    (plain_host : NoneOf b'/' address) (whole_host : NoneOf b',' address) where
  abbrev host : Bytes
  host = host_or_default address

  abbrev own : Bytes × Bytes
  own = (node_id name [] host (port_or_default (pos n)), join b',' (service_tags [] host))

  abbrev own-IsEntry : IsEntry own
  own-IsEntry = record {
    name = name;
    version = [];
    host = host;
    port = port_or_default (pos n);
    plain = rw (append-nil name) plain;
    plain_host = host_plain b'/' address plain_host (omega arith);
    whole = tt;
    whole_host = host_plain b',' address whole_host (omega arith);
    key = refl;
    value = refl;
  }
