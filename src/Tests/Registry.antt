-- ===== src/Tests/Registry.antt =====
-- Registrations in a store that is an association list, and answers of consul.
use airfk.Shared.{
  ◌≡◌, refl, Option, none, some, List, [], ◌∷◌, Bytes, codes, arith, if◌then◌else◌, has_prefix,
}
use airfk.Shared.Result.{ok}
use airfk.Shared.Int.{pos}
use airfk.Shared.Map.{Map, lookup, insert, delete}
use airfk.Registry.Entity.{Node, Service, new_service, new_node}
use airfk.Registry.Group.{map_values, nodes_of}
use airfk.Registry.Etcd.{
  Client, Status, succeeded, Got, found, key_not_found, Listing, listed, crashed, register,
  get_service, service_prefix,
}
use airfk.Registry.Etcd.Missed.{get_service-short}
use airfk.Registry.Consul.{Api, ServiceEntry}
use airfk.Registry.Consul
use airfk.Registry.Grouped.{entries_at, one_if_any}
use airfk.Registry.Consul.Live.{live_nodes, get_service-live_nodes}

unfoldable with_prefix : Bytes → Map Bytes → Map Bytes
with_prefix p [] = []
with_prefix p ((k, v) ∷ m) =
    let rest = with_prefix p m in if has_prefix k p then (k, v) ∷ rest else rest

unfoldable got : Option Bytes → Got
got none = key_not_found
got (some v) = found

abbrev table : Client
table = record {
  St = Map Bytes;
  grant = λ s ttl. (s, some 7);
  get = λ s k. got (lookup k s);
  get_prefix = λ s p. ok (with_prefix p s);
  put = λ s k v lease. (insert k v s, none);
  delete = λ s k. (delete k s, none);
}

abbrev mailer_entry : Bytes × Bytes
mailer_entry = (codes "/airman/mailer/10.0.0.2/25", codes "a-service,h-10.0.0.2")

abbrev mail_entry : Bytes × Bytes
mail_entry = (codes "/airman/mail/10.0.0.1/8080", codes "a-service,h-10.0.0.1")

abbrev mail : Service
mail = new_service (codes "mail") [] (codes "10.0.0.1") (pos 8080)

-- Version 2 of the service mail.
abbrev mail2_entry : Bytes × Bytes
mail2_entry = (codes "/airman/mail2/10.0.0.1/8080", codes "a-service,v-2,h-10.0.0.1")

mail2_registered :
    register table [] (new_service (codes "mail") (codes "2") (codes "10.0.0.1") (pos 8080))
    ≡ (mail2_entry ∷ [], succeeded)
unfolding register new_service airfk.Registry.Entity.get_tags airfk.Registry.Entity.host_tags
    airfk.Registry.Etcd.put_node insert new_node airfk.GoStd.Strings.join
    airfk.Registry.Entity.node_id airfk.Registry.Entity.tag_of airfk.Registry.Entity.host_or_default
    airfk.GoStd.Atoi.decimal_int airfk.Registry.Entity.port_or_default airfk.GoStd.Decimal.decimal
mail2_registered = refl

abbrev short_entry : Bytes × Bytes
short_entry = (codes "/airman/mail/10.0.0.1", codes "a-service")

get_service-short_example :
    get_service table (short_entry ∷ mail_entry ∷ []) (codes "mail") [] ≡ crashed
unfolding with_prefix has_prefix service_prefix
get_service-short_example =
    get_service-short table (short_entry ∷ mail_entry ∷ []) (codes "mail") [] (codes "10.0.0.1")
      (codes "a-service") (mail_entry ∷ []) refl (omega arith) (omega arith) refl

abbrev entry : Bytes → List Bytes → ServiceEntry
entry id checks = record {
  service = codes "mail";
  id = id;
  tags = codes "a-service" ∷ codes "v-2" ∷ [];
  address = [];
  port = pos 25;
  node_address = codes "10.0.0.3";
  checks = checks;
}

abbrev answers : List ServiceEntry
answers =
    entry (codes "a") (codes "passing" ∷ [])
    ∷ entry (codes "b") (codes "passing" ∷ codes "critical" ∷ [])
    ∷ []

abbrev consul : Api
consul = record {
  St = Unit;
  pass_ttl = λ s id. (s, none);
  service_register = λ s r. (s, none);
  service_deregister = λ s id. (s, none);
  health_service = λ s name tag. ok answers;
  catalog_services = λ s. ok (codes "mail" ∷ []);
}

get_service-live_nodes_example :
    (services : Map Service) × (Consul.get_service consul tt (codes "mail") []
      ≡ listed (map_values services))
    × ((k : Bytes) → nodes_of k services ≡ live_nodes (codes "mail") [] k answers)
    × ((k : Bytes) → entries_at k services ≡ one_if_any (live_nodes (codes "mail") [] k answers))
get_service-live_nodes_example =
    get_service-live_nodes consul tt (codes "mail") [] answers refl
      ((omega arith, (omega arith, tt)), ((omega arith, (omega arith, tt)), tt))
