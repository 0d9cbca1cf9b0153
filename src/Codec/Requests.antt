-- ===== src/Codec/Requests.antt =====
-- What the parser of requests keeps of a message, one by one and in batches.
use airfk.Shared.{
  ℕ, ◌≡◌, refl, ◌∙◌, ap, Bool, true, ◌||◌, some, List, [], ◌∷◌, ◌++◌, Bytes, arith, ◌==◌, All, ◌≢◌,
  Bool-cases, inl, inr, ◌⊎◌, ◌↔◌,
}
use airfk.Shared.Result.{ok, Result-cases}
use mathlib.Core.Path.{subst}
use airfk.Types.Rpc.{RpcRequest, method_not_found}
use airfk.GoStd.Strings.{NoneOf, split_none, split_once, split, push_head}
use airfk.Codec.{
  JsonRequest, Json, subscription_request, unsubscription_request, regular_request, two_parts,
  split_method, parse_one, batch_one, batch_loop, parse_batch_request, is_batch,
}

-- The first byte that is no white space is a bracket.

abbrev pub IsSpace : ℕ → Type 0
IsSpace c = (c == 0x20 || c == 0x09 || c == 0x0a || c == 0x0d) ≡ true

bracket :
    (m : Bytes)
    → is_batch m ≡ true
    → (ws : Bytes) × (rest : Bytes) × (m ≡ ws ++ b'[' ∷ rest) × All IsSpace ws
unfolding is_batch
bracket [] e = absurd (cc e)
bracket (c ∷ m) e = elim (Bool-cases (c == 0x20 || c == 0x09 || c == 0x0a || c == 0x0d)) [
  | inl space ↦
      let (ws, rest, same, spaces) = bracket m (rw space at e) in
      (c ∷ ws, rest, ap (◌∷◌ c) same, (space, spaces))
  | inr other ↦
      let open_bracket : c ≡ b'[' = ground (arith, (rw other at e)) in
      ([], m, ap (λ (x : ℕ). x ∷ m) open_bracket, tt)
]

after_space : (ws rest : Bytes) → All IsSpace ws → is_batch (ws ++ b'[' ∷ rest) ≡ true
unfolding is_batch
after_space [] rest h = refl
after_space (c ∷ ws) rest h = rw (h.0) (after_space ws rest h.1)

-- A message is taken for a batch exactly when its first byte that is not white space is '['.
is_batch_iff :
    (msg : Bytes)
    → (is_batch msg ≡ true)
      ↔ ((ws : Bytes) × (rest : Bytes) × (msg ≡ ws ++ b'[' ∷ rest) × All IsSpace ws)
is_batch_iff msg = (bracket msg, λ (ws, rest, e, h). rw e (after_space ws rest h))

-- Service and method.

split_parts : (m : Bytes) → (p : Bytes) × (ps : List Bytes) × (split b'_' m ≡ p ∷ ps)
unfolding split push_head
split_parts [] = ([], [], refl)
split_parts (c ∷ m) =
    let (p, ps, e) = split_parts m in
    elim (Bool-cases (c == b'_')) [
      | inl sep ↦ ([], split b'_' m, rw sep)
      | inr other ↦ (c ∷ p, ps, rw other (rw e))
    ]

one_part : (m t : Bytes) → split b'_' m ≡ t ∷ [] → (m ≡ t) × NoneOf b'_' t
unfolding split push_head
one_part [] t e = let same : [] ≡ t = ground arith in (same, subst (NoneOf b'_') same tt)
one_part (c ∷ m) t e =
    let (p, ps, k) = split_parts m in
    elim (Bool-cases (c == b'_')) [
      | inl sep ↦ absurd (ground (arith, k))
      | inr other ↦
          let same : c ∷ p ≡ t = ground (arith, k) in
          let (rest, clean) = one_part m p (ground (arith, k)) in
          let apart : c ≢ b'_' = ground arith in
          (ap (◌∷◌ c) rest ∙ same, subst (NoneOf b'_') same (apart, clean))
    ]

two_parts-split :
    (m s t : Bytes)
    → split b'_' m ≡ s ∷ t ∷ []
    → (m ≡ s ++ b'_' ∷ t) × NoneOf b'_' s × NoneOf b'_' t
unfolding split push_head
two_parts-split [] s t e = absurd (cc e)
two_parts-split (c ∷ m) s t e =
    let (p, ps, k) = split_parts m in
    elim (Bool-cases (c == b'_')) [
      | inl sep ↦
          let (rest, clean) = one_part m t (ground arith) in
          let empty : [] ≡ s = ground arith in
          let char : c ≡ b'_' = ground arith in
          (
            rw (← empty) (ap (λ (x : ℕ). x ∷ m) char ∙ ap (◌∷◌ b'_') rest),
            subst (NoneOf b'_') empty tt,
            clean,
          )
      | inr other ↦
          let same : c ∷ p ≡ s = ground (arith, k) in
          let (rest, clean, clean') = two_parts-split m p t (ground (arith, k)) in
          let apart : c ≢ b'_' = ground arith in
          (rw (← same) (ap (◌∷◌ c) rest), subst (NoneOf b'_') same (apart, clean), clean')
    ]

two_parts-some : (ps : List Bytes) (s t : Bytes) → two_parts ps ≡ some (s, t) → ps ≡ s ∷ t ∷ []
unfolding two_parts
two_parts-some [] s t e = cc
two_parts-some (a ∷ []) s t e = cc
two_parts-some (a ∷ b ∷ []) s t e = ground arith
two_parts-some (a ∷ b ∷ c ∷ more) s t e = cc

-- A method name splits exactly into a service and a method that hold no underscore.
split_method_iff :
    (m s t : Bytes)
    → (split_method m ≡ some (s, t)) ↔ ((m ≡ s ++ b'_' ∷ t) × NoneOf b'_' s × NoneOf b'_' t)
unfolding split_method
split_method_iff m s t = (
  λ e. two_parts-split m s t (two_parts-some (split b'_' m) s t e),
  λ (e, h, k).
      rw e (rw (split_once b'_' s t h) (rw (split_none b'_' t k) (unfold two_parts in refl))),
)

-- Batches.

-- The requests of a batch, one for one: each keeps its id, and is what it would be alone or, with
-- no service and method to be found in its name, carries that error.
abbrev pub Each : Json → List JsonRequest → List RpcRequest → Type 0
Each json [] [] = Unit {0}
Each json [] (req ∷ reqs) = ⊥
Each json (r ∷ rs) [] = ⊥
Each json (r ∷ rs) (req ∷ reqs) =
    (req.id ≡ r.id)
    × ((parse_one json r ≡ ok req) ⊎ (req.err ≡ some (method_not_found r.method [])))
    × Each json rs reqs

module _ (json : Json) where
  batch_one-id : (r : JsonRequest) (req : RpcRequest) → batch_one json r ≡ ok req → req.id ≡ r.id
  unfolding batch_one subscription_request unsubscription_request regular_request
  batch_one-id r req e = ground arith

  batch_one-alone :
      (r : JsonRequest) (req : RpcRequest)
      → batch_one json r ≡ ok req
      → (parse_one json r ≡ ok req) ⊎ (req.err ≡ some (method_not_found r.method []))
  unfolding batch_one parse_one regular_request
  batch_one-alone r req e = ground arith

  -- What parses alone parses alike in a batch.
  batch_one-parse_one :
      (r : JsonRequest) (req : RpcRequest) → parse_one json r ≡ ok req → batch_one json r ≡ ok req
  unfolding batch_one parse_one
  batch_one-parse_one r req e = ground arith

  batch_loop-Each :
      (rs : List JsonRequest) (reqs : List RpcRequest)
      → batch_loop json rs ≡ ok reqs
      → Each json rs reqs
  unfolding batch_loop
  batch_loop-Each [] [] e = tt
  batch_loop-Each [] (req ∷ reqs) e = cc
  batch_loop-Each (r ∷ rs) reqs e = elim (Result-cases (batch_one json r)) [
    | inr (x, k) ↦ absurd (ground arith)
    | inl (req, k) ↦ elim (Result-cases (batch_loop json rs)) [
      | inr (x, m) ↦ absurd (ground arith)
      | inl (others, m) ↦
          let result : req ∷ others ≡ reqs = ground arith in
          subst (Each json (r ∷ rs)) result
            (batch_one-id r req k, batch_one-alone r req k, batch_loop-Each rs others m)
    ]
  ]

  -- A batch that parses has one request for each of its elements, in their order.
  parse_batch_request-Each :
      (msg : Bytes) (reqs : List RpcRequest) (batch : Bool)
      → parse_batch_request json msg ≡ (ok reqs, batch)
      → (rs : List JsonRequest) × (json.unmarshal_requests msg ≡ ok rs)
        × (batch ≡ true)
        × Each json rs reqs
  unfolding parse_batch_request
  parse_batch_request-Each msg reqs batch e = elim (Result-cases (json.unmarshal_requests msg)) [
    | inr (x, k) ↦ absurd (ground arith)
    | inl (rs, k) ↦ elim (Result-cases (batch_loop json rs)) [
      | inr (x, m) ↦ absurd (ground arith)
      | inl (others, m) ↦
          let result : others ≡ reqs = ground arith in
          (rs, k, ground arith, subst (Each json rs) result (batch_loop-Each rs others m))
    ]
  ]
