-- ===== src/Server/Dispatch/Responses.antt =====
-- The responses of handle and execBatch (pkg/server/server.go) against the requests they answer.
use airfk.Shared.{
  ◌≡◌, refl, ◌∙◌, Option, none, some, List, [], ◌∷◌, Bytes, arith, Option-cases, Bool-cases, inl,
  inr,
}
use airfk.Types.Rpc.{RpcRequest}
use airfk.Codec.{
  Message, json_success_response, json_err_response, json_notification, create_response,
  create_error_response,
}
use airfk.Server.Requests.{
  Conn, Reply, no_values, values, Callback, Service, ServerRequest, Host, failed_request,
  unsubscribe_request, call_request, read_one, read_all,
}
use airfk.Server.Dispatch.{
  Activation, failure, handle_id, handle_unsubscribe, handle_subscribe, handle_call, reply_response,
  handle, handle_all,
}
use airfk.Shared.Map.{Map}

-- The id in a message; a notification has none.
unfoldable pub message_id : Message → Option Bytes
message_id (json_success_response version id result) = some id
message_id (json_err_response version id code message info) = id
message_id (json_notification version method subscription result) = none

unfoldable pub message_ids : List Message → List (Option Bytes)
message_ids [] = []
message_ids (m ∷ ms) = message_id m ∷ message_ids ms

unfoldable pub header_ids : List RpcRequest → List (Option Bytes)
header_ids [] = []
header_ids (q ∷ qs) = some q.id ∷ header_ids qs

module _ (h : Host) where
  open h use {reflect}

  reply_response_id :
      (id : Bytes) (cb : Callback reflect) (reply : Reply)
      → message_id (reply_response h id cb reply) ≡ some id
  unfolding reply_response message_id create_response create_error_response
  reply_response_id id cb no_values = refl
  reply_response_id id cb (values none first) = refl
  reply_response_id id cb (values (some e) first) = ground arith

  handle_unsubscribe_id :
      (c : Conn) (req : ServerRequest reflect)
      → message_id (handle_unsubscribe h c req).1.0 ≡ some req.id
  unfolding handle_unsubscribe handle_id failure message_id create_response create_error_response
  handle_unsubscribe_id c req = ground arith

  -- Whatever handle answers carries the id of the request.
  pub handle_id_lem :
      (c c' : Conn) (req : ServerRequest reflect) (m : Message) (acts : List Activation)
      → handle h c req ≡ some (c', (m, acts))
      → message_id m ≡ some req.id
  unfolding handle handle_subscribe handle_call failure message_id create_response
      create_error_response
  handle_id_lem c c' req m acts e = elim (Option-cases req.err) [
    | inr (x, failed) ↦ ground arith
    | inl sound ↦ elim (Bool-cases req.is_unsubscribe) [
      | inl ends ↦ ground (arith, handle_unsubscribe_id c req)
      | inr calls ↦ elim (Option-cases req.callb) [
        | inl nil ↦ ground arith
        | inr (cb, there) ↦ ground (arith, reply_response_id req.id cb (cb.func c req.args).1)
      ]
    ]
  ]

  unfoldable pub request_ids : List (ServerRequest reflect) → List (Option Bytes)
  request_ids [] = []
  request_ids (req ∷ reqs) = some req.id ∷ request_ids reqs

  -- The responses of a batch carry the ids of its requests, one for each and in their order.
  pub handle_all_ids :
      (c c' : Conn) (reqs : List (ServerRequest reflect)) (ms : List Message)
      (acts : List Activation)
      → handle_all h c reqs ≡ some (c', (ms, acts))
      → message_ids ms ≡ request_ids reqs
  unfolding handle_all request_ids message_ids
  handle_all_ids c c' [] ms acts e = ground arith
  handle_all_ids c c' (req ∷ reqs) ms acts e = elim (Option-cases (handle h c req)) [
    | inl fails ↦ absurd (ground arith)
    | inr ((d, (m, one)), done) ↦ elim (Option-cases (handle_all h d reqs)) [
      | inl fails ↦ absurd (ground arith)
      | inr ((d', (rest, more)), all) ↦
          ground (arith, handle_id_lem c d req m one done, handle_all_ids d d' reqs rest more all)
    ]
  ]

  read_one_id :
      (services : Map (Service reflect)) (q : RpcRequest) → (read_one h services q).id ≡ q.id
  unfolding read_one failed_request unsubscribe_request call_request
  read_one_id services q = ground arith

  -- readRequest keeps the ids of the headers.
  pub read_all_ids :
      (services : Map (Service reflect)) (qs : List RpcRequest)
      → request_ids (read_all h services qs) ≡ header_ids qs
  unfolding read_all request_ids header_ids
  read_all_ids services [] = refl
  read_all_ids services (q ∷ qs) = ground (arith, read_one_id services q, read_all_ids services qs)

  -- Whatever a batch holds, if none of its calls panics then it is answered by one response for each
  -- of its elements, in their order and with their ids.
  pub batch_answers :
      (services : Map (Service reflect)) (qs : List RpcRequest) (c c' : Conn) (ms : List Message)
      (acts : List Activation)
      → handle_all h c (read_all h services qs) ≡ some (c', (ms, acts))
      → message_ids ms ≡ header_ids qs
  batch_answers services qs c c' ms acts e =
      handle_all_ids c c' (read_all h services qs) ms acts e ∙ read_all_ids services qs
