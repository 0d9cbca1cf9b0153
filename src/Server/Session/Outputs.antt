-- ===== src/Server/Session/Outputs.antt =====
-- The outputs on a connection of pkg/server/server.go, and what leaves them alone.
use airfk.Shared.{
  ◌≡◌, refl, Option, some, List, [], ◌∷◌, ◌++◌, Bytes, arith, All, Option-cases, inl, inr,
}
use airfk.Codec.{Message, create_error_response}
use airfk.Server.Notifier.{Output, single, batch, activate}
use airfk.Server.Requests.{Conn, Callback, ServerRequest, Host}
use airfk.Server.Dispatch.{
  Activation, failure, handle_id, handle_unsubscribe, handle_subscribe, handle_call, handle,
  activate_all, shutdown_responses,
}
use airfk.Server.Dispatch.Responses.{message_id, message_ids, request_ids}

-- The ids that an output answers.
unfoldable pub output_ids : Output → List (Option Bytes)
output_ids (single m) = message_id m ∷ []
output_ids (batch ms) = message_ids ms

unfoldable pub written_ids : List Output → List (List (Option Bytes))
written_ids [] = []
written_ids (o ∷ os) = output_ids o ∷ written_ids os

pub written_ids-append :
    (os : List Output) (o : Output)
    → written_ids (os ++ o ∷ []) ≡ written_ids os ++ output_ids o ∷ []
unfolding written_ids
written_ids-append [] o = refl
written_ids-append (x ∷ os) o = rw (written_ids-append os o) refl

pub activate_all-wire :
    (c d : Conn) (acts : List Activation) → activate_all c acts ≡ some d → d.wire ≡ c.wire
unfolding activate_all
activate_all-wire c d [] e = ground arith
activate_all-wire c d ((i, s) ∷ acts) e = elim (Option-cases c.notifier) [
  | inl nil ↦ absurd (ground arith)
  | inr (n, there) ↦
      ground (arith, activate_all-wire (record c { notifier = some (activate n i s) }) d acts)
]

module _ (h : Host) where
  open h use {reflect}

  -- The callback of the request writes nothing on the connection while it runs.
  abbrev pub IsQuiet : ServerRequest reflect → Type 0
  IsQuiet req =
      (c : Conn) (cb : Callback reflect)
      → req.callb ≡ some cb
      → (cb.func c req.args).0.wire ≡ c.wire

  pub handle-wire :
      (c d : Conn) (req : ServerRequest reflect) (m : Message) (acts : List Activation)
      → IsQuiet req
      → handle h c req ≡ some (d, (m, acts))
      → d.wire ≡ c.wire
  unfolding handle handle_subscribe handle_call handle_unsubscribe handle_id failure
  handle-wire c d req m acts quiet e = elim (Option-cases req.callb) [
    | inl nil ↦ ground arith
    | inr (cb, there) ↦ ground (arith, quiet c cb there)
  ]

  abbrev pub AllQuiet : List (ServerRequest reflect) → Type 0
  AllQuiet = All IsQuiet

  pub shutdown_ids :
      (reqs : List (ServerRequest reflect))
      → message_ids (shutdown_responses h reqs) ≡ request_ids h reqs
  unfolding shutdown_responses message_ids message_id request_ids create_error_response
  shutdown_ids [] = refl
  shutdown_ids (req ∷ reqs) = ground (arith, shutdown_ids reqs)
