-- ===== src/Registry/Grouped.antt =====
-- The map that GetService of pkg/registry/etcd.go and consul.go builds has one service for each key.
use airfk.Shared.{
  ℕ, suc, zero, ◌≡◌, refl, ◌∙◌, ap, sym, List, [], ◌∷◌, ◌++◌, Bytes, arith, if◌then◌else◌, text_eq,
  text_eq_iff, Bool-cases, inl, inr,
}
use airfk.Shared.Map.{Map, lookup, insert}
use airfk.Registry.Entity.{Node, Service}
use airfk.Registry.Group.{add_node, nodes_of, nodes_of-add_node}

-- How many entries of a map stand under a key.
unfoldable pub entries_at : {A : Type 0} → Bytes → Map A → ℕ
entries_at k [] = 0
entries_at k ((j, v) ∷ m) = let rest = entries_at k m in if text_eq j k then suc rest else rest

abbrev pub one_if_any : {A : Type 0} → List A → ℕ
one_if_any [] = 0
one_if_any (x ∷ xs) = 1

-- One service under a key that has nodes, and none under another.
abbrev pub IsGrouped : Map Service → Type 0
IsGrouped m = (k : Bytes) → entries_at k m ≡ one_if_any (nodes_of k m)

pub IsGrouped-nil : IsGrouped []
unfolding entries_at nodes_of lookup
IsGrouped-nil k = refl

at_least_one : ℕ → ℕ
at_least_one zero = 1
at_least_one (suc n) = suc n

entries_at-insert :
    {A : Type 0} (k j : Bytes) (v : A) (m : Map A)
    → entries_at k (insert j v m)
      ≡ (if text_eq j k then at_least_one (entries_at k m) else entries_at k m)
unfolding entries_at insert at_least_one
entries_at-insert k j v [] = refl
entries_at-insert k j v ((i, w) ∷ m) = elim (Bool-cases (text_eq i j)) [
  | inl same ↦
      let e : i ≡ j = (text_eq_iff i j).0 same in
      rw same (
        rw e
          (elim (Bool-cases (text_eq j k)) [ inl here ↦ rw here refl | inr there ↦ rw there refl ]))
  | inr differs ↦ rw differs (elim (Bool-cases (text_eq i k)) [
    | inl here ↦ elim (Bool-cases (text_eq j k)) [
      | inl both ↦ absurd (
          ground (
            arith,
            (text_eq_iff i j).1 ((text_eq_iff i k).0 here ∙ sym ((text_eq_iff j k).0 both)),
          ))
      | inr there ↦ rw (here, there) (ap suc (entries_at-insert k j v m ∙ rw there refl))
    ]
    | inr away ↦ rw away (entries_at-insert k j v m)
  ])
]

grown :
    (nodes : List Node) (node : Node)
    → at_least_one (one_if_any nodes) ≡ one_if_any (nodes ++ node ∷ [])
unfolding at_least_one
grown [] node = refl
grown (x ∷ nodes) node = refl

pub add_node-IsGrouped :
    (m : Map Service) (key name version : Bytes) (tags : List Bytes) (node : Node)
    → IsGrouped m
    → IsGrouped (add_node m key name version tags node)
unfolding add_node
add_node-IsGrouped m key name version tags node g k =
    entries_at-insert k key _ m
    ∙ (elim (Bool-cases (text_eq key k)) [
      | inl here ↦ rw here (ap at_least_one (g k) ∙ grown (nodes_of k m) node)
      | inr there ↦ rw there (g k)
    ])
    ∙ ap one_if_any (sym (nodes_of-add_node m k key name version tags node))
