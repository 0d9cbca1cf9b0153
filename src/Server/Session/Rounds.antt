-- ===== src/Server/Session/Rounds.antt =====
-- What a round of serveRequest's loop (pkg/server/server.go) asks for, and what it writes or starts.
use airfk.Shared.{
  ◌≡◌, refl, sym, ap, ◌∙◌, Bool, true, false, Option, none, some, List, [], ◌∷◌, ◌++◌, append_assoc,
  append-nil, Bytes, codes, arith, All, Option-cases, Bool-cases, inl, inr, if◌then◌else◌, text_eq,
}
use mathlib.Core.List.Perm
use mathlib.Core.List.{Perm, perm_middle}
use mathlib.Core.Path.{subst}
use airfk.Shared.Result.{Result, ok, err}
use airfk.Types.Rpc.{RpcError, error_text, shutdown}
use airfk.Codec.{create_error_response}
use airfk.Server.Notifier.{single, batch, write}
use airfk.Server.Requests.{Conn, ServerRequest, Host}
use airfk.Server.Dispatch.{shutdown_responses, report, refuse}
use airfk.Server.Dispatch.Responses.{message_id, request_ids, message_ids}
use airfk.Server.Session.{
  Loop, reading, finishing, waited, stopped, Goroutine, Turn, ServeState, run_at, new_task,
  after_read, read_round, ServeEvent, reads, runs, returns, return_idle, serve_event, serve,
  serve_from,
}
use airfk.Server.Session.Outputs.{output_ids, written_ids-append, AllQuiet, shutdown_ids}
use airfk.Server.Session.Goroutines.{
  Ids, kept_ids, move_front, owed, owed-append, QuietTask, QuietTask-append, ids_of, run_at-Perm,
}

module _ (h : Host) where
  open h use {reflect}

  -- The ids that a read asks an output for, if it asks for one.
  unfoldable pub answered : Result RpcError (List (ServerRequest reflect)) × Bool → Ids
  answered (err e, is_batch) = if text_eq (error_text e) (codes "EOF") then [] else (none ∷ []) ∷ []
  answered (ok reqs, is_batch) = kept_ids is_batch (request_ids h reqs) ∷ []

  abbrev pub answered_turn : Turn h → Ids
  answered_turn t = if t.run_before then answered t.request else []

  -- What an event asks for.
  abbrev pub asked : ServeEvent h → Ids
  asked (reads t) = answered_turn t
  asked (runs succeeds i) = []
  asked returns = []

  unfoldable pub answers : List (ServeEvent h) → Ids
  answers [] = []
  answers (e ∷ es) = asked e ++ answers es

  abbrev pub QuietRead : Result RpcError (List (ServerRequest reflect)) × Bool → Type 0
  QuietRead (err e, is_batch) = Unit
  QuietRead (ok reqs, is_batch) = AllQuiet h reqs

  -- Callbacks that write nothing on the connection while they run, and writes that arrive.
  abbrev pub IsCalm : ServeEvent h → Type 0
  IsCalm (reads t) = QuietRead t.request × (t.succeeds ≡ true)
  IsCalm (runs succeeds i) = succeeds ≡ true
  IsCalm returns = Unit

  -- What was written and is owed on a connection.
  abbrev pub all_ids : ServeState h → Ids
  all_ids s = ids_of h s.conn ++ owed h s.tasks

  -- No goroutine runs behind a loop that waited.
  abbrev pub Waited : Loop → List (Goroutine h) → Type 0
  Waited reading tasks = Unit
  Waited finishing tasks = Unit
  Waited waited tasks = tasks ≡ []
  Waited stopped tasks = Unit

  abbrev pub Fine : ServeState h → Type 0
  Fine s = All (QuietTask h) s.tasks × Waited s.loop s.tasks

  abbrev pub Adds : ServeState h → Ids → ServeState h → Type 0
  Adds s asked u = Perm (all_ids u) (asked ++ all_ids s) × Fine u

  -- One more output in front of what is owed.
  one_more : (w o : Ids) (a : List (Option Bytes)) → Perm ((w ++ a ∷ []) ++ o) (a ∷ (w ++ o))
  one_more w o a =
      subst (λ l. Perm l (a ∷ (w ++ o))) (sym (append_assoc w (a ∷ []) o)) (perm_middle w o)

  pub same_ids : {x y : Ids} → x ≡ y → Perm x y
  same_ids {x} e = subst (Perm x) e (Perm.refl x)

  report-ids :
      (c : Conn) (e : RpcError) (is_batch : Bool) (o : Ids)
      → Perm (ids_of h (report h true c e) ++ o) (answered (err e, is_batch) ++ (ids_of h c ++ o))
  unfolding report answered write output_ids message_id create_error_response
  report-ids c e is_batch o = elim (Bool-cases (text_eq (error_text e) (codes "EOF"))) [
    | inl over ↦ rw over (Perm.refl (ids_of h c ++ o))
    | inr bad ↦
        let wrote = written_ids-append c.wire.written (single (create_error_response none e)) in
        rw (bad, report, answered)
          (Perm.trans (same_ids (ap (λ l. l ++ o) wrote)) (one_more (ids_of h c) o (none ∷ [])))
  ]

  refuse-ids :
      (c d : Conn) (is_batch : Bool) (reqs : List (ServerRequest reflect)) (o : Ids)
      → refuse h true c is_batch reqs ≡ some d
      → Perm (ids_of h d ++ o) (answered (ok reqs, is_batch) ++ (ids_of h c ++ o))
  unfolding refuse answered write output_ids message_id create_error_response request_ids
  refuse-ids c d true reqs o e =
      let out = batch (shutdown_responses h reqs) in
      let wrote : ids_of h d ≡ ids_of h c ++ request_ids h reqs ∷ [] =
        ap (λ (x : Option Conn). ids_in x) (sym e)
        ∙ written_ids-append c.wire.written out
        ∙ ap (λ l. ids_of h c ++ l ∷ []) (shutdown_ids h reqs) in
      Perm.trans (same_ids (ap (λ l. l ++ o) wrote)) (one_more (ids_of h c) o (request_ids h reqs))
    where
      ids_in : Option Conn → Ids
      ids_in none = []
      ids_in (some x) = ids_of h x
  refuse-ids c d false [] o e = absurd (ground arith)
  refuse-ids c d false (req ∷ reqs) o e =
      let out = single (create_error_response (some req.id) shutdown) in
      let wrote : ids_of h d ≡ ids_of h c ++ (some req.id ∷ []) ∷ [] =
        ap (λ (x : Option Conn). ids_in x) (sym e) ∙ written_ids-append c.wire.written out in
      Perm.trans (same_ids (ap (λ l. l ++ o) wrote)) (one_more (ids_of h c) o (some req.id ∷ []))
    where
      ids_in : Option Conn → Ids
      ids_in none = []
      ids_in (some x) = ids_of h x

  new_task-ids :
      (is_batch : Bool) (reqs : List (ServerRequest reflect))
      → owed h (new_task h is_batch reqs ∷ []) ≡ kept_ids is_batch (request_ids h reqs) ∷ []
  unfolding new_task owed airfk.Server.Session.Goroutines.owed_by message_ids request_ids
  new_task-ids true reqs = refl
  new_task-ids false [] = refl
  new_task-ids false (req ∷ reqs) = refl

  QuietTask-new_task :
      (is_batch : Bool) (reqs : List (ServerRequest reflect))
      → AllQuiet h reqs
      → QuietTask h (new_task h is_batch reqs)
  unfolding new_task
  QuietTask-new_task true reqs quiet = quiet
  QuietTask-new_task false [] quiet = tt
  QuietTask-new_task false (req ∷ reqs) quiet = (quiet.0, tt)

  started : (w o : Ids) (a : List (Option Bytes)) → Perm (w ++ (o ++ a ∷ [])) (a ∷ (w ++ o))
  started w o a =
      Perm.trans (same_ids (sym (append_assoc w o (a ∷ []))))
        (Perm.trans (perm_middle (w ++ o) []) (same_ids (ap (λ l. a ∷ l) (append-nil (w ++ o)))))

  pub after_read-Adds :
      (single_shot run_after : Bool) (r : Result RpcError (List (ServerRequest reflect)) × Bool)
      (s u : ServeState h)
      → QuietRead r
      → Fine s
      → after_read h single_shot run_after true r s ≡ some u
      → Adds s (answered r) u
  unfolding after_read answered
  after_read-Adds single_shot run_after (err x, is_batch) s u quiet fine e =
      let result : record s { conn = report h true s.conn x; loop = finishing } ≡ u =
        ground arith in
      subst (Adds s (answered (err x, is_batch))) result
        (report-ids s.conn x is_batch (owed h s.tasks), (fine.0, tt))
  after_read-Adds single_shot false (ok reqs, is_batch) s u quiet fine e =
      elim (Option-cases (refuse h true s.conn is_batch reqs)) [
        | inl fails ↦ absurd (ground arith)
        | inr (c, refused) ↦
            let result : record s { conn = c; loop = stopped } ≡ u = ground arith in
            subst (Adds s (answered (ok reqs, is_batch))) result
              (refuse-ids s.conn c is_batch reqs (owed h s.tasks) refused, (fine.0, tt))
      ]
  after_read-Adds single_shot true (ok reqs, is_batch) s u quiet fine e =
      let task = new_task h is_batch reqs in
      let next : ServeState h = record s {
        tasks = s.tasks ++ task ∷ [];
        loop = if single_shot then finishing else reading;
      } in
      let result : next ≡ u = ground arith in
      let more =
        owed-append h s.tasks (task ∷ [])
        ∙ ap (λ l. owed h s.tasks ++ l) (new_task-ids is_batch reqs) in
      subst (Adds s (answered (ok reqs, is_batch))) result (
        Perm.trans (same_ids (ap (λ l. ids_of h s.conn ++ l) more))
            (started (ids_of h s.conn) (owed h s.tasks) (kept_ids is_batch (request_ids h reqs))),
        (
          QuietTask-append h s.tasks (task ∷ []) fine.0
              (QuietTask-new_task is_batch reqs quiet, tt),
          anyway single_shot (s.tasks ++ task ∷ []),
        ),
      )
    where
      anyway :
          (b : Bool) (tasks : List (Goroutine h)) → Waited (if b then finishing else reading) tasks
      anyway true tasks = tt
      anyway false tasks = tt
