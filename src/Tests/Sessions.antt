-- ===== src/Tests/Sessions.antt =====
-- A session of serveRequest at concrete inputs.
use airfk.Shared.{
  sym, ap, Option, ◌≡◌, refl, ◌++◌, Bool, true, false, none, some, List, [], ◌∷◌, Bytes, codes, All,
}
use airfk.Shared.Result.{ok, err}
use airfk.Types.Rpc.{callback_error}
use airfk.Codec.{create_response}
use airfk.Server.Notifier.{Wire, single, batch}
use airfk.Server.Requests.{Conn, Callback, ServerRequest}
use airfk.Server.Session.{ServeState, ServeEvent, reads, runs, returns, waited, serve, serve_from}
use airfk.Server.Session.Outputs.{written_ids, IsQuiet}
use airfk.Server.Session.Goroutines.{owed}
use airfk.Server.Session.Rounds.{answers, IsCalm, Waited}
use airfk.Server.Session.Answers.{serve-answers}
use mathlib.Core.List.{Perm}
use airfk.Tests.Requests.{text_reflect}
use airfk.Tests.Subscriptions.{text_host, echo, fresh_conn}

abbrev echo_call : ServerRequest text_reflect
echo_call = record {
  id = codes "7";
  svcname = codes "calc";
  callb = some echo;
  args = codes "1" ∷ [];
  is_unsubscribe = false;
  err = none;
}

-- The wire behind a call of a callback, if there is one.
abbrev wire_after : Conn → Option (Callback text_reflect) → Wire
wire_after c none = c.wire
wire_after c (some cb) = (cb.func c (codes "1" ∷ [])).0.wire

echo-IsQuiet : IsQuiet text_host echo_call
echo-IsQuiet c cb e = sym (ap (wire_after c) e)

-- A request, and a batch of two whose goroutine answers first, in front of the end of the stream.
abbrev session : List (ServeEvent text_host)
session =
    reads (record {
      run_before = true;
      run_after = true;
      succeeds = true;
      request = (ok (echo_call ∷ []), false);
    })
    ∷ reads (record {
      run_before = true;
      run_after = true;
      succeeds = true;
      request = (ok (echo_call ∷ record echo_call { id = codes "8" } ∷ []), true);
    })
    ∷ runs true 1
    ∷ runs true 0
    ∷ runs true 1
    ∷ runs true 1
    ∷ reads (record {
      run_before = true;
      run_after = true;
      succeeds = true;
      request = (err (callback_error (codes "EOF")), false);
    })
    ∷ runs true 0
    ∷ runs true 0
    ∷ runs true 0
    ∷ returns
    ∷ []

abbrev session_end : ServeState text_host
session_end = record {
  conn = record {
    wire = record {
      written =
          batch
            (create_response (codes "7") (codes "1") ∷ create_response (codes "8") (codes "1") ∷ [])
          ∷ single (create_response (codes "7") (codes "1"))
          ∷ [];
      closed = false;
    };
    notifier = fresh_conn.notifier;
  };
  tasks = [];
  loop = waited;
}

session-IsCalm : All (IsCalm text_host) session
session-IsCalm = (
  ((echo-IsQuiet, tt), refl),
  (
    ((echo-IsQuiet, (echo-IsQuiet, tt)), refl),
    (refl, (refl, (refl, (refl, ((tt, refl), (refl, (refl, (refl, (tt, tt))))))))),
  ),
)

session_ends : serve text_host false session (serve_from text_host fresh_conn) ≡ some session_end
unfolding serve serve_from airfk.Server.Session.serve_event airfk.Server.Session.read_round
    airfk.Server.Session.after_read airfk.Server.Session.new_task airfk.Server.Session.run_at
    airfk.Server.Session.task_step airfk.Server.Session.reply_output
    airfk.Server.Session.return_idle airfk.Server.Dispatch.report airfk.Server.Dispatch.handle
    airfk.Server.Dispatch.activate_all airfk.Server.Dispatch.handle_call airfk.Shared.text_eq
    airfk.Types.Rpc.error_text airfk.Server.Dispatch.respond airfk.Server.Notifier.write
    create_response airfk.Server.Dispatch.reply_response
session_ends = refl

serve-answers_example :
    Perm
      (written_ids session_end.conn.wire.written ++ owed text_host session_end.tasks)
      (answers text_host session ++ written_ids fresh_conn.wire.written)
    × Waited text_host session_end.loop session_end.tasks
serve-answers_example =
    serve-answers text_host false session fresh_conn session_end session-IsCalm session_ends
