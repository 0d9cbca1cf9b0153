-- ===== src/Registry/Etcd/Read.antt =====
-- The loop of GetService (pkg/registry/etcd.go) on entries that Register wrote.
use airfk.Shared.{
  ℕ, ◌≡◌, refl, ◌∙◌, sym, ap, true, false, Option, none, some, List, [], ◌∷◌, ◌++◌, Bytes, arith,
  ◌==◌, if◌then◌else◌, length, All, text_eq, has_prefix, Bool-cases, Option-cases, inl, inr, ◌⊎◌,
}
use mathlib.Core.Path.{subst}
use airfk.Shared.Result.{ok}
use airfk.Shared.Int.{ℤ}
use airfk.Shared.Map.{Map, lookup}
use airfk.GoStd.Strings.{split, join, NoneOf}
use airfk.GoStd.Atoi.{decimal_int}
use airfk.Registry.Entity.{Node, Service, node_id, tags_check, tags_version, default_prefix_service}
use airfk.Registry.Group.{
  service_key, add_node, map_values, nodes_or_nil, nodes_of, nodes_of-add_node,
}
use airfk.Registry.Etcd.{Client, entry_node, read_parts, read_entries}
use airfk.Registry.Etcd.Keys.{
  split-node_id, service_tags, service_tags-IsTag, split-service_tags, tags_check-IsTag,
}

abbrev pub Holds : {A : Type 0} → A → List A → Type 0
Holds a [] = ⊥
Holds a (x ∷ xs) = (x ≡ a) ⊎ Holds a xs

-- What an entry of the store is when Register wrote it for a service of NewService whose texts hold
-- neither of the two separators.
pub record IsEntry (kv : Bytes × Bytes) : Type 0 where
  pub name : Bytes
  pub version : Bytes
  pub host : Bytes
  pub port : ℤ
  pub plain : NoneOf b'/' (name ++ version)
  pub plain_host : NoneOf b'/' host
  pub whole : NoneOf b',' version
  pub whole_host : NoneOf b',' host
  pub key : kv.0 ≡ node_id name version host port
  pub value : kv.1 ≡ join b',' (service_tags version host)

-- What etcd documents of Put and of Get with a prefix.
pub record IsStore (c : Client) : Type 0 where
  pub put_get :
      (s s' : Client.St c) (key value prefix : Bytes) (lease : Option ℕ)
      (kvs : List (Bytes × Bytes))
      → c.put s key value lease ≡ (s', none)
      → c.get_prefix s' prefix ≡ ok kvs
      → has_prefix key prefix ≡ true
      → Holds (key, value) kvs

Holds-append : {A : Type 0} (a : A) (xs ys : List A) → Holds a xs → Holds a (xs ++ ys)
Holds-append a [] ys h = absurd h
Holds-append a (x ∷ xs) ys (inl e) = inl e
Holds-append a (x ∷ xs) ys (inr h) = inr (Holds-append a xs ys h)

pub Holds-end : {A : Type 0} (a : A) (xs : List A) → Holds a (xs ++ a ∷ [])
Holds-end a [] = inl refl
Holds-end a (x ∷ xs) = inr (Holds-end a xs)

add_node-Holds :
    (m : Map Service) (k key name version : Bytes) (tags : List Bytes) (node new : Node)
    → Holds node (nodes_of k m)
    → Holds node (nodes_of k (add_node m key name version tags new))
add_node-Holds m k key name version tags node new h =
    let e = nodes_of-add_node m k key name version tags new in
    elim (Bool-cases (text_eq key k)) [
      | inl same ↦
          subst (Holds node) (sym (e ∙ rw same)) (Holds-append node (nodes_of k m) (new ∷ []) h)
      | inr other ↦ subst (Holds node) (sym (e ∙ rw other)) h
    ]

module _ (name tag : Bytes) where
  read_parts-cases :
      (m m' : Map Service) (key : Bytes) (tags parts : List Bytes)
      → read_parts name tag m key tags parts ≡ some m'
      → (m ≡ m')
        ⊎ ((k : Bytes) × (node : Node) × (add_node m k name (tags_version tags) tags node ≡ m'))
  unfolding read_parts
  read_parts-cases m m' key tags [] e = inl (cc e)
  read_parts-cases m m' key tags (a ∷ []) e = inl (cc e)
  read_parts-cases m m' key tags (a ∷ b ∷ []) e = inl (cc e)
  read_parts-cases m m' key tags (a ∷ b ∷ n ∷ []) e = inl (cc e)
  read_parts-cases m m' key tags (a ∷ b ∷ n ∷ host ∷ []) e = inl (ground arith)
  read_parts-cases m m' key tags (a ∷ b ∷ n ∷ host ∷ port ∷ more) e =
      elim (Bool-cases (text_eq n name)) [
        | inr other ↦ inl (ground arith)
        | inl same ↦ elim (Option-cases (service_key tags tag (tags_version tags))) [
          | inl bad ↦ absurd (ground arith)
          | inr (k, good) ↦ inr (k, entry_node key tags host port, ground arith)
        ]
      ]

  -- One step keeps the nodes that are listed.
  read_parts-Holds :
      (m m' : Map Service) (key k : Bytes) (tags parts : List Bytes) (node : Node)
      → read_parts name tag m key tags parts ≡ some m'
      → Holds node (nodes_of k m)
      → Holds node (nodes_of k m')
  read_parts-Holds m m' key k tags parts node e h = elim (read_parts-cases m m' key tags parts e) [
    | inl same ↦ subst (λ x. Holds node (nodes_of k x)) same h
    | inr (j, new, more) ↦
        subst (λ x. Holds node (nodes_of k x)) more
          (add_node-Holds m k j name (tags_version tags) tags node new h)
  ]

  read_entries-Holds :
      (kvs : List (Bytes × Bytes)) (m m' : Map Service) (k : Bytes) (node : Node)
      → read_entries name tag m kvs ≡ some m'
      → Holds node (nodes_of k m)
      → Holds node (nodes_of k m')
  unfolding read_entries
  read_entries-Holds [] m m' k node e h = subst (λ x. Holds node (nodes_of k x)) (cc e) h
  read_entries-Holds (kv ∷ kvs) m m' k node e h =
      elim (Option-cases (read_parts name tag m kv.0 (split b',' kv.1) (split b'/' kv.0))) [
        | inl stops ↦ absurd (ground arith)
        | inr (more, goes) ↦
            read_entries-Holds kvs more m' k node (ground arith)
              (read_parts-Holds m more kv.0 k (split b',' kv.1) (split b'/' kv.0) node goes h)
      ]

  -- The map behind an entry of the service.
  abbrev pub map_with : Map Service → Bytes → List Bytes → Bytes → Bytes → Bytes → Map Service
  map_with m key tags k host port =
      add_node m (if length tag == 0 then tags_version tags else k) name (tags_version tags) tags
        (entry_node key tags host port)

  pub read_known :
      (m : Map Service) (key k a b n host port : Bytes) (tags : List Bytes)
      → text_eq n name ≡ true
      → tags_check tags tag ≡ some k
      → read_parts name tag m key tags (a ∷ b ∷ n ∷ host ∷ port ∷ [])
        ≡ some (map_with m key tags k host port)
  unfolding read_parts service_key
  read_known m key k a b n host port tags same good = rw same (rw good refl)

  pub read_other :
      (m : Map Service) (key a b n host port : Bytes) (tags : List Bytes)
      → text_eq n name ≡ false
      → read_parts name tag m key tags (a ∷ b ∷ n ∷ host ∷ port ∷ []) ≡ some m
  unfolding read_parts
  read_other m key a b n host port tags other = rw other refl

  -- What the loop sees of an entry that Register wrote.
  pub read_entry :
      (m : Map Service) (kv : Bytes × Bytes) (v : IsEntry kv)
      → read_parts name tag m kv.0 (split b',' kv.1) (split b'/' kv.0)
        ≡ read_parts name tag m kv.0
            (service_tags v.version v.host)
            ([] ∷ default_prefix_service ∷ (v.name ++ v.version) ∷ v.host ∷ decimal_int v.port ∷ [])
  read_entry m kv v =
      ap (λ t. read_parts name tag m kv.0 t (split b'/' kv.0))
        (ap (split b',') v.value ∙ split-service_tags v.version v.host v.whole v.whole_host)
      ∙ ap (read_parts name tag m kv.0 (service_tags v.version v.host)) (
          ap (split b'/') v.key ∙ split-node_id v.name v.version v.host v.port v.plain v.plain_host)

  -- An entry that Register wrote makes no panic.
  read_entry-IsEntry :
      (m : Map Service) (kv : Bytes × Bytes)
      → IsEntry kv
      → (m' : Map Service) × (read_parts name tag m kv.0 (split b',' kv.1) (split b'/' kv.0)
          ≡ some m')
  read_entry-IsEntry m kv v =
      let tags = service_tags v.version v.host in
      let port = decimal_int v.port in
      let (k, good) =
        tags_check-IsTag tags tag (service_tags-IsTag v.version v.host v.whole v.whole_host) in
      elim (Bool-cases (text_eq (v.name ++ v.version) name)) [
        | inl same ↦ (
          map_with m kv.0 tags k v.host port,
          read_entry m kv v
              ∙ read_known m kv.0 k [] default_prefix_service (v.name ++ v.version) v.host port tags
                  same good,
        )
        | inr other ↦ (
          m,
          read_entry m kv v
              ∙ read_other m kv.0 [] default_prefix_service (v.name ++ v.version) v.host port tags
                  other,
        )
      ]

  pub read_entries-IsEntry :
      (kvs : List (Bytes × Bytes)) (m : Map Service)
      → All IsEntry kvs
      → (m' : Map Service) × (read_entries name tag m kvs ≡ some m')
  unfolding read_entries
  read_entries-IsEntry [] m h = (m, refl)
  read_entries-IsEntry (kv ∷ kvs) m (v, h) =
      let (more, goes) = read_entry-IsEntry m kv v in
      let (m', e) = read_entries-IsEntry kvs more h in (m', rw (goes, read_entries) e)

-- The entry of one service among the others.
pub own_entry :
    (kvs : List (Bytes × Bytes)) (kv : Bytes × Bytes) (name k : Bytes) (m m' : Map Service)
    (node : Node)
    → ((x : Map Service)
        → (y : Map Service) × (read_parts name [] x kv.0 (split b',' kv.1) (split b'/' kv.0)
            ≡ some y)
          × Holds node (nodes_of k y))
    → Holds kv kvs
    → read_entries name [] m kvs ≡ some m'
    → Holds node (nodes_of k m')
unfolding read_entries
own_entry [] kv name k m m' node put h e = absurd h
own_entry (x ∷ kvs) kv name k m m' node put (inl same) e =
    let (y, goes, there) = put m in
    read_entries-Holds name [] kvs y m' k node (sym (rw (same, goes, read_entries) refl) ∙ e) there
own_entry (x ∷ kvs) kv name k m m' node put (inr h) e =
    elim (Option-cases (read_parts name [] m x.0 (split b',' x.1) (split b'/' x.0))) [
      | inl stops ↦ absurd (ground arith)
      | inr (more, goes) ↦ own_entry kvs kv name k more m' node put h (ground arith)
    ]

pub Holds-values :
    (m : Map Service) (k : Bytes) (node : Node)
    → Holds node (nodes_of k m)
    → (svc : Service) × Holds svc (map_values m) × Holds node (nodes_or_nil svc.nodes)
unfolding nodes_of lookup map_values
Holds-values [] k node h = absurd h
Holds-values ((j, svc) ∷ m) k node h = elim (Bool-cases (text_eq j k)) [
  | inl same ↦ (svc, inl refl, rw same at h)
  | inr other ↦
      let (found, there, node_there) = Holds-values m k node (rw other at h) in
      (found, inr there, node_there)
]
