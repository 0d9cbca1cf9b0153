-- ===== src/Server/Websocket.antt =====
-- wsHandshakeValidator of pkg/server/websocket.go. strings.ToLower and what os.Hostname says are
-- parameters.
use airfk.Shared.{
  ◌≡◌, ◌↔◌, refl, Bool, true, false, ◌||◌, Option, none, some, List, [], ◌∷◌, ◌++◌, Bytes, codes,
  arith, ◌==◌, if◌then◌else◌, length, text_eq, text_eq_iff, Bool-cases, inl, inr, ◌⊎◌,
}

unfoldable pub contains : List Bytes → Bytes → Bool
contains [] origin = false
contains (o ∷ origins) origin = text_eq o origin || contains origins origin

module _ (to_lower : Bytes → Bytes) where
  -- The set of origins, as a list.
  unfoldable pub origin_set : List Bytes → List Bytes
  origin_set [] = []
  origin_set (o ∷ allowed) =
      let rest = origin_set allowed in if length o == 0 then rest else to_lower o ∷ rest

  unfoldable pub local_origins : Option Bytes → List Bytes
  local_origins none = codes "http://localhost" ∷ []
  local_origins (some hostname) =
      codes "http://localhost" ∷ (codes "http://" ++ to_lower hostname) ∷ []

  unfoldable pub or_local : Option Bytes → List Bytes → List Bytes
  or_local hostname [] = local_origins hostname
  or_local hostname (o ∷ origins) = o ∷ origins

  -- Whether the handshake of a request with an Origin header is allowed.
  unfoldable pub handshake : List Bytes → Option Bytes → Bytes → Bool
  handshake allowed hostname origin =
      contains allowed (codes "*")
      || contains (or_local hostname (origin_set allowed)) (to_lower origin)

  -- An allowed origin that is not empty and is the given one up to case.
  abbrev pub Listed : Bytes → List Bytes → Type 0
  Listed origin [] = ⊥
  Listed origin (o ∷ allowed) =
      (((length o == 0) ≡ false) × (to_lower o ≡ to_lower origin)) ⊎ Listed origin allowed

  abbrev pub AllEmpty : List Bytes → Type 0
  AllEmpty [] = Unit
  AllEmpty (o ∷ allowed) = ((length o == 0) ≡ true) × AllEmpty allowed

  contains-Listed :
      (allowed : List Bytes) (origin : Bytes)
      → (contains (origin_set allowed) (to_lower origin) ≡ true) ↔ Listed origin allowed
  unfolding contains origin_set
  contains-Listed [] origin = (λ h. absurd (ground arith), λ h. absurd h)
  contains-Listed (o ∷ allowed) origin =
      let (forth, back) = contains-Listed allowed origin in
      let (same, found) = text_eq_iff (to_lower o) (to_lower origin) in
      elim (Bool-cases (length o == 0)) [
        | inl gone ↦ (
          λ h. inr (forth (rw gone at h)),
          λ h. elim h [
            | inl (some_text, _) ↦ absurd (ground arith)
            | inr more ↦ rw gone (back more)
          ],
        )
        | inr kept ↦ elim (Bool-cases (text_eq (to_lower o) (to_lower origin))) [
          | inl here ↦ (λ h. inl (kept, same here), λ h. ground arith)
          | inr other ↦ (
            λ h. inr (forth (ground arith)),
            λ h. elim h [
              | inl (_, e) ↦ absurd (ground (arith, found e))
              | inr more ↦ rw (kept, other) (back more)
            ],
          )
        ]
      ]

  no_origins : (allowed : List Bytes) → (origin_set allowed ≡ []) ↔ AllEmpty allowed
  unfolding origin_set
  no_origins [] = (λ h. tt, λ h. refl)
  no_origins (o ∷ allowed) =
      let (forth, back) = no_origins allowed in
      elim (Bool-cases (length o == 0)) [
        | inl gone ↦ (λ h. (gone, forth (rw gone at h)), λ h. rw gone (back h.1))
        | inr kept ↦ (λ h. absurd (ground arith), λ h. absurd (ground arith))
      ]

  contains-or_local :
      (hostname : Option Bytes) (origins : List Bytes) (origin : Bytes)
      → (contains (or_local hostname origins) origin ≡ true) ↔ (
          (contains origins origin ≡ true)
          ⊎ ((origins ≡ []) × (contains (local_origins hostname) origin ≡ true)))
  unfolding or_local contains
  contains-or_local hostname [] origin =
      (λ h. inr (refl, h), λ h. elim h [ inl bad ↦ absurd (ground arith) | inr (e, local) ↦ local ])
  contains-or_local hostname (o ∷ origins) origin =
      (λ h. inl h, λ h. elim h [ inl there ↦ there | inr (bad, local) ↦ absurd (ground arith) ])

  -- A handshake is allowed exactly when an allowed origin is `*`, or one that is not empty is the
  -- request's up to case, or no origin that is not empty is allowed and the request's is the local
  -- host by one of its two names.
  pub handshake-Listed :
      (allowed : List Bytes) (hostname : Option Bytes) (origin : Bytes)
      → (handshake allowed hostname origin ≡ true) ↔ (
          (contains allowed (codes "*") ≡ true)
          ⊎ Listed origin allowed
          ⊎ (AllEmpty allowed × (contains (local_origins hostname) (to_lower origin) ≡ true)))
  unfolding handshake or_local
  handshake-Listed allowed hostname origin =
      let (forth, back) = contains-Listed allowed origin in
      let (empty, none_left) = no_origins allowed in
      let (there, behind) = contains-or_local hostname (origin_set allowed) (to_lower origin) in
      elim (Bool-cases (contains allowed (codes "*"))) [
        | inl any ↦ (λ h. inl any, λ h. rw any refl)
        | inr star ↦ (
          λ h. elim (there (rw star at h)) [
            | inl listed ↦ inr (inl (forth listed))
            | inr (nothing, local) ↦ inr (inr (empty nothing, local))
          ],
          λ h. elim h [
            | inl any ↦ absurd (ground arith)
            | inr rest ↦ elim rest [
              | inl listed ↦ rw star (behind (inl (back listed)))
              | inr (nothing, local) ↦ rw star (behind (inr (none_left nothing, local)))
            ]
          ],
        )
      ]
