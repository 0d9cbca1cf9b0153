-- ===== src/Server/Notifier/Lifecycle.antt =====
-- The life of a subscription: created, activated, unsubscribed.
use airfk.Shared.{
  ◌≡◌, sym, true, false, none, some, [], Bytes, arith, if◌then◌else◌, text_eq, text_eq_iff,
  Option-cases, Bool-cases, inl, inr,
}
use airfk.Shared.Map.{lookup, lookup-insert, lookup-delete}
use airfk.Codec.{create_notification}
use airfk.Server.Notifier.{
  single, Wire, write, Notifier, create_subscription, notify, unsubscribe, activate,
}

-- Where a subscription stands in its life.
pub data Phase : Type 0 where
  absent pending : Phase
  live : Bytes → Phase

unfoldable pub phase : Notifier → Bytes → Phase
phase n id = elim (lookup id n.active) [
  | some sub ↦ live sub.namespace
  | none ↦ elim (lookup id n.inactive) [ some sub ↦ pending | none ↦ absent ]
]

-- While writes succeed: a notification is dropped unless its subscription is live, and then it is
-- written with the namespace that activated the subscription.
notify-phase :
    (n : Notifier) (w : Wire) (id event : Bytes)
    → notify n w true id event ≡ (elim (phase n id) [
      | live namespace ↦ (write w true (single (create_notification id namespace event)), false)
      | _ ↦ (w, false)
    ])
unfolding notify phase
notify-phase n w id event = ground (arith, Option-cases (lookup id n.active))

module _ (n : Notifier) (id : Bytes) where
  -- Creating a subscription makes it pending unless it is live, and changes no other.
  pub phase-create_subscription :
      (j : Bytes)
      → phase (create_subscription n id) j ≡ (elim (phase n j) [
        | live namespace ↦ live namespace
        | pending ↦ pending
        | absent ↦ if text_eq id j then pending else absent
      ])
  unfolding phase create_subscription
  phase-create_subscription j =
      ground (arith, lookup-insert id j (record { id = id; namespace = [] }) n.inactive)

  -- Activating makes an inactive subscription live under the name of the service; nothing changes
  -- for an id that is not inactive, nor for any other subscription.
  pub phase-activate :
      (namespace j : Bytes)
      → phase (activate n id namespace) j ≡ (
          if text_eq id j
          then (elim (lookup id n.inactive) [ some sub ↦ live namespace | none ↦ phase n j ])
          else phase n j)
  unfolding phase activate
  phase-activate namespace j = elim (Option-cases (lookup id n.inactive)) [
    | inl e ↦ ground arith
    | inr (sub, e) ↦ ground (
      arith,
      lookup-insert id j (record sub { namespace = namespace }) n.active,
      lookup-delete id j n.inactive,
    )
  ]

  -- Of the subscriptions that are not inactive, unsubscribing makes the one of the given id absent and
  -- changes no other.
  phase-unsubscribe :
      (j : Bytes)
      → lookup j n.inactive ≡ none
      → phase (unsubscribe n id).0 j ≡ (if text_eq id j then absent else phase n j)
  unfolding phase unsubscribe
  phase-unsubscribe j fresh = elim (Option-cases (lookup id n.active)) [
    | inl e ↦ elim (Bool-cases (text_eq id j)) [
      | inl same ↦
          let unknown : lookup j n.active ≡ none = rw (sym ((text_eq_iff id j).0 same)) e in
          ground arith
      | inr other ↦ ground arith
    ]
    | inr (sub, e) ↦ ground (arith, lookup-delete id j n.active)
  ]
