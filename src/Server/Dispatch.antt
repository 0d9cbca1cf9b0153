-- ===== src/Server/Dispatch.antt =====
-- handle, exec, execBatch and what serveRequest itself writes, of pkg/server/server.go. `none` is a
-- panic.
-- Whether a write succeeds is an argument.
pub mod Responses
pub mod Activation
use airfk.Shared.{
  ℕ, ◌≡◌, refl, Bool, true, false, not, Option, none, some, List, [], ◌∷◌, ◌++◌, Bytes, codes,
  arith, ◌==◌, if◌then◌else◌, length, text_eq,
}
use airfk.Shared.Result.{Result, ok, err}
use airfk.GoStd.Decimal.{decimal}
use airfk.Types.Rpc.{RpcError, callback_error, invalid_params, shutdown, error_text}
use airfk.Codec.{Message, create_response, create_error_response, service_method_separator}
use airfk.Server.Notifier
use airfk.Server.Notifier.{Output, single, batch, write, close, activate}
use airfk.Codec.Arguments.{Reflect}
use airfk.Server.Requests.{Conn, Reply, no_values, values, Callback, ServerRequest, Host}

-- The JSON text of an id, which has no character to escape.
unfoldable pub id_json : Bytes → Bytes
id_json id = b'"' ∷ (id ++ b'"' ∷ [])

-- A subscription to activate behind the response: its id and the service.
abbrev pub Activation : Type 0
Activation = Bytes × Bytes

-- What handle returns, with the connection behind it.
abbrev pub Handled : Type 0
Handled = Conn × (Message × List Activation)

module _ (h : Host) where
  open h use {reflect, as_string}

  unfoldable pub failure : Conn → ServerRequest reflect → RpcError → Handled
  failure c req e = (c, (create_error_response (some req.id) e, []))

  unfoldable pub handle_id : Conn → ServerRequest reflect → Bytes → Handled
  handle_id c req subid = elim c.notifier [
    | none ↦ failure c req (callback_error (codes "notifications not supported"))
    | some n ↦ elim (Notifier.unsubscribe n subid).1 [
      | some e ↦ failure c req (callback_error e)
      | none ↦ (
        record c { notifier = some (Notifier.unsubscribe n subid).0 },
        (create_response req.id (codes "true"), []),
      )
    ]
  ]

  unfoldable pub subscription_id : List (Reflect.V reflect) → Option Bytes
  subscription_id [] = none
  subscription_id (v ∷ vs) = as_string v

  unfoldable pub handle_unsubscribe : Conn → ServerRequest reflect → Handled
  handle_unsubscribe c req = elim (subscription_id req.args) [
    | none ↦ failure c req (invalid_params (codes "Expected subscription id as first argument"))
    | some subid ↦ handle_id c req subid
  ]

  -- createSubscription and the branch that calls it. Func.Call panics on a wrong number of arguments.
  unfoldable pub handle_subscribe : Conn → ServerRequest reflect → Callback reflect → Option Handled
  handle_subscribe c req cb =
      if length req.args == length cb.arg_types
      then (elim (cb.func c req.args).1 [
        | no_values ↦ none
        | values (some e) subid ↦ some (failure (cb.func c req.args).0 req (callback_error e))
        | values none subid ↦ some (
          (cb.func c req.args).0,
          (create_response req.id (id_json subid), (subid, req.svcname) ∷ []),
        )
      ])
      else none

  unfoldable pub wrong_count : ServerRequest reflect → Callback reflect → RpcError
  wrong_count req cb = invalid_params (
      req.svcname
      ++ (service_method_separator ∷ cb.method)
      ++ codes " expects "
      ++ decimal (length cb.arg_types)
      ++ codes " parameters, got "
      ++ decimal (length req.args))

  unfoldable pub reply_response : Bytes → Callback reflect → Reply → Message
  reply_response id cb no_values = create_response id (codes "null")
  reply_response id cb (values none first) = create_response id first
  reply_response id cb (values (some e) first) =
      if cb.has_err
      then create_error_response (some id) (callback_error e)
      else create_response id first

  unfoldable pub handle_call : Conn → ServerRequest reflect → Callback reflect → Handled
  handle_call c req cb =
      if not (length req.args == length cb.arg_types)
      then failure c req (wrong_count req cb)
      else ((cb.func c req.args).0, (reply_response req.id cb (cb.func c req.args).1, []))

  unfoldable pub handle : Conn → ServerRequest reflect → Option Handled
  handle c req = elim req.err [
    | some e ↦ some (failure c req e)
    | none ↦ if req.is_unsubscribe then some (handle_unsubscribe c req) else elim req.callb [
      | none ↦ none
      | some cb ↦ if cb.is_subscribe then handle_subscribe c req cb else some (handle_call c req cb)
    ]
  ]

  -- The loop of execBatch.
  unfoldable pub handle_all :
      Conn → List (ServerRequest reflect) → Option (Conn × (List Message × List Activation))
  handle_all c [] = some (c, ([], []))
  handle_all c (req ∷ reqs) = elim (handle c req) [
    | none ↦ none
    | some (c', (response, acts)) ↦ elim (handle_all c' reqs) [
      | none ↦ none
      | some (c'', (responses, more)) ↦ some (c'', (response ∷ responses, acts ++ more))
    ]
  ]

-- Write, and Close when it fails.
unfoldable pub respond : Conn → Bool → Output → Conn
respond c succeeds out = record c {
  wire = if succeeds then write c.wire true out else close c.wire;
}

-- The callbacks; activate on a nil notifier panics.
unfoldable pub activate_all : Conn → List Activation → Option Conn
activate_all c [] = some c
activate_all c ((subid, svcname) ∷ acts) = elim c.notifier [
  | none ↦ none
  | some n ↦ activate_all (record c { notifier = some (activate n subid svcname) }) acts
]

module _ (h : Host) where
  open h use {reflect}

  unfoldable pub exec : Bool → Conn → ServerRequest reflect → Option Conn
  exec succeeds c req = elim (handle h c req) [
    | none ↦ none
    | some (c', (response, acts)) ↦ activate_all (respond c' succeeds (single response)) acts
  ]

  unfoldable pub exec_batch : Bool → Conn → List (ServerRequest reflect) → Option Conn
  exec_batch succeeds c reqs = elim (handle_all h c reqs) [
    | none ↦ none
    | some (c', (responses, acts)) ↦ activate_all (respond c' succeeds (batch responses)) acts
  ]

  unfoldable pub shutdown_responses : List (ServerRequest reflect) → List Message
  shutdown_responses [] = []
  shutdown_responses (req ∷ reqs) =
      create_error_response (some req.id) shutdown ∷ shutdown_responses reqs

  -- What serveRequest writes when readRequest fails; the end of the stream is not reported.
  unfoldable pub report : Bool → Conn → RpcError → Conn
  report succeeds c e =
      if text_eq (error_text e) (codes "EOF")
      then c
      else record c { wire = write c.wire succeeds (single (create_error_response none e)) }

  -- What it writes to a request, or to a batch, when Run is no longer 1 behind the read.
  unfoldable pub refuse : Bool → Conn → Bool → List (ServerRequest reflect) → Option Conn
  refuse succeeds c true reqs =
      some (record c { wire = write c.wire succeeds (batch (shutdown_responses reqs)) })
  refuse succeeds c false [] = none
  refuse succeeds c false (req ∷ reqs) = some (record c {
    wire = write c.wire succeeds (single (create_error_response (some req.id) shutdown));
  })
