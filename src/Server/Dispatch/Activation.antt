-- ===== src/Server/Dispatch/Activation.antt =====
-- A call through readRequest and exec (pkg/server/server.go): its arguments, and when its
-- subscription starts.
use airfk.Shared.{
  ◌≡◌, refl, true, false, none, some, Bytes, arith, Option-cases, inl, inr, length, text_eq_refl,
}
use airfk.Codec.{create_response}
use airfk.Server.Notifier.{Notifier, single, write, activate}
use airfk.Server.Notifier.Lifecycle.{phase, pending, live, phase-activate}
use airfk.Server.Requests.{Conn, values, Callback, ServerRequest, Host}
use airfk.Server.Dispatch.{handle_subscribe, handle, exec, respond, activate_all, id_json}
use airfk.Shared.Map.{Map, lookup}

activate_pending :
    (n : Notifier) (id svcname : Bytes)
    → phase n id ≡ pending
    → phase (activate n id svcname) id ≡ live svcname
unfolding phase
activate_pending n id svcname waits = elim (Option-cases (lookup id n.inactive)) [
  | inl gone ↦ absurd (ground arith)
  | inr (sub, there) ↦ ground (arith, phase-activate n id svcname id, text_eq_refl id)
]

module _ (h : Host) where
  open h use {reflect, string_type, scan}

  -- For a request without an error, with as many arguments as its subscription callback takes, and a
  -- write that succeeds: when the callback leaves a pending subscription and returns its id, exec
  -- writes the id to the client and leaves the subscription live under the name of the service.
  pub exec-phase :
      (c c' : Conn) (n : Notifier) (req : ServerRequest reflect) (cb : Callback reflect)
      (subid : Bytes)
      → req.err ≡ none
      → req.is_unsubscribe ≡ false
      → req.callb ≡ some cb
      → cb.is_subscribe ≡ true
      → length req.args ≡ length cb.arg_types
      → cb.func c req.args ≡ (c', values none subid)
      → c'.notifier ≡ some n
      → phase n subid ≡ pending
      → (d : Conn) × (m : Notifier) × (exec h true c req ≡ some d)
        × (d.wire ≡ write c'.wire true (single (create_response req.id (id_json subid))))
        × (d.notifier ≡ some m)
        × (phase m subid ≡ live req.svcname)
  unfolding exec handle handle_subscribe respond activate_all
  exec-phase c c' n req cb subid e1 e2 e3 e4 e5 e6 e7 e8 = (
    record {
      wire = write c'.wire true (single (create_response req.id (id_json subid)));
      notifier = some (activate n subid req.svcname);
    },
    activate n subid req.svcname,
    ground arith,
    refl,
    refl,
    activate_pending n subid req.svcname e8,
  )
