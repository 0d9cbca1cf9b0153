-- ===== src/Registry/Etcd/Missed.antt =====
-- What GetService of pkg/registry/etcd.go does not find, and the key it panics on.
use airfk.Shared.{
  ◌≡◌, ◌≢◌, refl, ◌∙◌, ap, false, List, [], ◌∷◌, ◌++◌, Bytes, arith, ◌==◌, length, text_eq_refl,
}
use airfk.Shared.Result.{ok}
use airfk.Shared.Map.{Map}
use airfk.GoStd.Strings.{split, NoneOf, split_none, split_once}
use airfk.Registry.Entity.{default_prefix_service}
use airfk.Registry.Etcd.{
  Client, crashed, listing, read_parts, read_entries, service_prefix, get_service, get_service_map,
}
use airfk.Registry.Etcd.Read.{IsEntry}

-- An entry for another text than the name.
abbrev pub IsOther : Bytes → Bytes × Bytes → Type 0
IsOther name kv = (v : IsEntry kv) × (v.name ++ v.version ≢ name)

split-short :
    (name host : Bytes)
    → NoneOf b'/' name
    → NoneOf b'/' host
    → split b'/' (service_prefix name ++ b'/' ∷ host)
      ≡ [] ∷ default_prefix_service ∷ name ∷ host ∷ []
unfolding service_prefix
split-short name host plain plain_host =
    split_once b'/' [] (default_prefix_service ++ b'/' ∷ (name ++ b'/' ∷ host)) tt
    ∙ ap (λ l. [] ∷ l)
        (split_once b'/' default_prefix_service (name ++ b'/' ∷ host) (omega arith)
          ∙ ap (λ l. default_prefix_service ∷ l)
              (split_once b'/' name host plain
                ∙ ap (λ l. name ∷ l) (split_none b'/' host plain_host)))

-- A first entry whose key is the prefix of the name and one more part, so that it has no part for
-- the port, makes GetService panic, whatever its value and the other entries are.
pub get_service-short :
    (c : Client) (s : Client.St c) (name tag host value : Bytes) (kvs : List (Bytes × Bytes))
    → (length name == 0) ≡ false
    → NoneOf b'/' name
    → NoneOf b'/' host
    → c.get_prefix s (service_prefix name) ≡ ok ((service_prefix name ++ b'/' ∷ host, value) ∷ kvs)
    → get_service c s name tag ≡ crashed
unfolding get_service get_service_map listing read_parts read_entries
get_service-short c s name tag host value kvs some_name plain plain_host got =
    rw (some_name, got, read_entries, split-short name host plain plain_host, text_eq_refl name)
      refl
