-- ===== src/Server/Notifier.antt =====
-- pkg/server/subscription.go: Notifier, with the writing and closing half of JsonCodec
-- (pkg/codec/jsonc.go). An id is its text; an event is raw JSON. Whether a write succeeds is an
-- argument of the call.
pub mod Lifecycle
pub mod History
use airfk.Shared.{
  ℕ, ◌≡◌, refl, Bool, true, false, Option, none, some, List, [], ◌∷◌, ◌++◌, Bytes, codes, arith,
  if◌then◌else◌,
}
use airfk.Shared.Map.{Map, lookup, insert, delete}
use airfk.Codec.{Message, create_notification}

-- One call of Write: a message, or the responses of a batch.
pub data Output : Type 0 where
  single : Message → Output
  batch : List Message → Output

-- A connection: what was written on it, oldest first, and whether Close was called.
pub record Wire : Type 0 where
  pub written : List Output
  pub closed : Bool

unfoldable pub write : Wire → Bool → Output → Wire
write w succeeds out = if succeeds then record w { written = w.written ++ out ∷ [] } else w

unfoldable pub close : Wire → Wire
close w = record w { closed = true }

pub record Subscription : Type 0 where
  pub id : Bytes
  pub namespace : Bytes

-- `ended` lists the subscriptions whose err channel was closed.
pub record Notifier : Type 0 where
  pub active : Map Subscription
  pub inactive : Map Subscription
  pub ended : List Bytes

unfoldable pub new_notifier : Notifier
new_notifier = record { active = []; inactive = []; ended = [] }

-- `id` is what NewID yields.
unfoldable pub create_subscription : Notifier → Bytes → Notifier
create_subscription n id = record n {
  inactive = insert id (record { id = id; namespace = [] }) n.inactive;
}

-- The new connection, and whether an error is returned.
unfoldable pub notify : Notifier → Wire → Bool → Bytes → Bytes → Wire × Bool
notify n w succeeds id event = elim (lookup id n.active) [
  | none ↦ (w, false)
  | some sub ↦
      let out = single (create_notification id sub.namespace event) in
      if succeeds then (write w succeeds out, false) else (close (write w succeeds out), true)
]

-- `none` is no error.
unfoldable pub unsubscribe : Notifier → Bytes → Notifier × Option Bytes
unsubscribe n id = elim (lookup id n.active) [
  | none ↦ (n, some (codes "subscription not found"))
  | some s ↦ (record n { ended = n.ended ++ s.id ∷ []; active = delete id n.active }, none)
]

unfoldable pub activate : Notifier → Bytes → Bytes → Notifier
activate n id namespace = elim (lookup id n.inactive) [
  | none ↦ n
  | some sub ↦ record n {
    active = insert id (record sub { namespace = namespace }) n.active;
    inactive = delete id n.inactive;
  }
]
