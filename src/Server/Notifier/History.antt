-- ===== src/Server/Notifier/History.antt =====
-- Histories of calls of Notifier (pkg/server/subscription.go), against what a single id sees of them.
use airfk.Shared.{
  ◌≡◌, refl, ◌∙◌, sym, ap, Bool, true, false, ◌&&◌, Option, none, some, List, [], ◌∷◌, Bytes, arith,
  if◌then◌else◌, text_eq, text_eq_iff, Option-cases, Bool-cases, inl, inr,
}
use airfk.Shared.Map.{lookup, lookup-insert, lookup-delete}
use airfk.Codec.{create_notification}
use airfk.Server.Notifier.{
  single, Wire, write, Notifier, Subscription, new_notifier, create_subscription, notify,
  unsubscribe, activate,
}

pub data Call : Type 0 where
  creating : (id : Bytes) → Call
  activating : (id namespace : Bytes) → Call
  unsubscribing : (id : Bytes) → Call

unfoldable pub call : Notifier → Call → Notifier
call n (creating id) = create_subscription n id
call n (activating id namespace) = activate n id namespace
call n (unsubscribing id) = (unsubscribe n id).0

unfoldable pub calls : Notifier → List Call → Notifier
calls n [] = n
calls n (c ∷ cs) = calls (call n c) cs

-- What one id sees: the namespace under which it is active, and whether one waits to be activated.
pub record View : Type 0 where
  pub active_as : Option Bytes
  pub waits : Bool

abbrev pub see : View → Bytes → Call → View
see v j (creating id) = if text_eq id j then record v { waits = true } else v
see v j (activating id namespace) =
    if text_eq id j && v.waits then record { active_as = some namespace; waits = false } else v
see v j (unsubscribing id) = if text_eq id j then record v { active_as = none } else v

unfoldable pub see_all : View → Bytes → List Call → View
see_all v j [] = v
see_all v j (c ∷ cs) = see_all (see v j c) j cs

abbrev pub unseen : View
unseen = record { active_as = none; waits = false }

abbrev namespace_of : Option Subscription → Option Bytes
namespace_of none = none
namespace_of (some sub) = some sub.namespace

abbrev is_there : Option Subscription → Bool
is_there none = false
is_there (some sub) = true

abbrev view : Notifier → Bytes → View
view n j = record {
  active_as = namespace_of (lookup j n.active);
  waits = is_there (lookup j n.inactive);
}

call-see : (n : Notifier) (j : Bytes) (c : Call) → view (call n c) j ≡ see (view n j) j c
unfolding call create_subscription activate unsubscribe
call-see n j (creating id) =
    ground (arith, lookup-insert id j (record { id = id; namespace = [] }) n.inactive)
call-see n j (activating id namespace) = elim (Option-cases (lookup id n.inactive)) [
  | inl missing ↦ elim (Bool-cases (text_eq id j)) [
    | inl same ↦
        let there : lookup j n.inactive ≡ none = rw (sym ((text_eq_iff id j).0 same)) missing in
        ground arith
    | inr other ↦ ground arith
  ]
  | inr (sub, waiting) ↦
      let named : Subscription = record sub { namespace = namespace } in
      let moved = lookup-insert id j named n.active in
      let gone = lookup-delete id j n.inactive in
      elim (Bool-cases (text_eq id j)) [
        | inl same ↦
            let there : lookup j n.inactive ≡ some sub =
              rw (sym ((text_eq_iff id j).0 same)) waiting in
            ground (arith, moved, gone)
        | inr other ↦ ground (arith, moved, gone)
      ]
]
call-see n j (unsubscribing id) = elim (Option-cases (lookup id n.active)) [
  | inl missing ↦ elim (Bool-cases (text_eq id j)) [
    | inl same ↦
        let there : lookup j n.active ≡ none = rw (sym ((text_eq_iff id j).0 same)) missing in
        ground arith
    | inr other ↦ ground arith
  ]
  | inr (sub, active) ↦ ground (arith, lookup-delete id j n.active)
]

calls-see :
    (n : Notifier) (j : Bytes) (cs : List Call) → view (calls n cs) j ≡ see_all (view n j) j cs
unfolding calls see_all
calls-see n j [] = refl
calls-see n j (c ∷ cs) = calls-see (call n c) j cs ∙ ap (λ v. see_all v j cs) (call-see n j c)

-- After any history of calls of a notifier, and while writes succeed, Notify writes an event of an id
-- exactly when the history leaves the id active, and then with the namespace of its last activation.
-- An id becomes active by an activation that follows its creation, and is active until it is
-- unsubscribed; calls for other ids change nothing for it.
pub notify-calls :
    (cs : List Call) (w : Wire) (id event : Bytes)
    → notify (calls new_notifier cs) w true id event ≡ (elim (see_all unseen id cs).active_as [
      | some namespace ↦ (write w true (single (create_notification id namespace event)), false)
      | none ↦ (w, false)
    ])
unfolding notify new_notifier lookup
notify-calls cs w id event =
    let seen = ap (λ (v : View). v.active_as) (calls-see new_notifier id cs) in
    elim (Option-cases (lookup id (calls new_notifier cs).active)) [
      | inl missing ↦ ground arith
      | inr (sub, active) ↦ ground arith
    ]
