-- ===== src/Server/Session.antt =====
-- serveRequest and ServeCodec of pkg/server/server.go: a connection from its admission to the return of
-- its loop, with the goroutines that serve its requests. A schedule is a list of events: a round of the
-- loop, one step of one of the goroutines, or the return behind pend.Wait. A step of a goroutine is a
-- call of handle, the write of the response, or the call of one callback behind it.
pub mod Outputs
pub mod Goroutines
pub mod Alone
pub mod Rounds
pub mod Answers
use airfk.Shared.{
  ℕ, zero, suc, Bool, true, false, not, Option, none, some, List, [], ◌∷◌, ◌++◌, if◌then◌else◌,
  take,
}
use airfk.Shared.Result.{Result, ok, err}
use airfk.Types.Rpc.{RpcError}
use airfk.Codec.{Message}
use airfk.Server.Notifier.{Output, single, batch, Wire, close, new_notifier}
use airfk.Server.Requests.{Conn, ServerRequest, Host}
use airfk.Server.Dispatch.{Activation, handle, respond, activate_all, report, refuse}
use airfk.Server.Lifecycle.{Lifecycle, admit}

-- The loop reads; it waits for what runs and will return then, behind a failed read or with its
-- single request; or it has returned, behind that wait or at once.
pub data Loop : Type 0 where
  reading finishing waited stopped : Loop

-- The response of exec is one message, that of execBatch a list.
unfoldable pub reply_output : Bool → List Message → Option Output
reply_output true ms = some (batch ms)
reply_output false [] = none
reply_output false (m ∷ ms) = some (single m)

module _ (h : Host) where
  open h use {reflect}

  -- Inside exec or execBatch, which is the flag: the requests that are still to be handled, the
  -- responses so far and the callbacks; or behind the write, the callbacks still to be called.
  pub data Goroutine : Type 0 where
    calling :
        (is_batch : Bool) (reqs : List (ServerRequest reflect)) (responses : List Message)
        (acts : List Activation)
        → Goroutine
    activating : List Activation → Goroutine

  -- A round: whether Run is 1 in front of the read and behind it, what readRequest returns, and
  -- whether what the loop writes arrives.
  pub record Turn : Type 0 where
    pub run_before : Bool
    pub run_after : Bool
    pub succeeds : Bool
    pub request : Result RpcError (List (ServerRequest reflect)) × Bool

  -- A connection that is served. `tasks` run in goroutines, the one of a single shot in the loop.
  pub record ServeState : Type 0 where
    pub conn : Conn
    pub tasks : List Goroutine
    pub loop : Loop

  -- exec and execBatch one step further; `none` is a panic, and no task is left at the end.
  unfoldable pub task_step : Bool → Conn → Goroutine → Option (Conn × List Goroutine)
  task_step succeeds c (calling is_batch (req ∷ reqs) ms acts) = elim (handle h c req) [
    | none ↦ none
    | some (c', (m, more)) ↦ some (c', calling is_batch reqs (ms ++ m ∷ []) (acts ++ more) ∷ [])
  ]
  task_step succeeds c (calling is_batch [] ms acts) = elim (reply_output is_batch ms) [
    | none ↦ none
    | some out ↦ some (respond c succeeds out, activating acts ∷ [])
  ]
  task_step succeeds c (activating []) = some (c, [])
  task_step succeeds c (activating (act ∷ acts)) = elim (activate_all c (act ∷ [])) [
    | none ↦ none
    | some c' ↦ some (c', activating acts ∷ [])
  ]

  -- A step of the task with a number.
  unfoldable pub run_at : Bool → ℕ → Conn → List Goroutine → Option (Conn × List Goroutine)
  run_at succeeds i c [] = none
  run_at succeeds zero c (task ∷ tasks) = elim (task_step succeeds c task) [
    | none ↦ none
    | some (c', left) ↦ some (c', left ++ tasks)
  ]
  run_at succeeds (suc i) c (task ∷ tasks) = elim (run_at succeeds i c tasks) [
    | none ↦ none
    | some (c', left) ↦ some (c', task ∷ left)
  ]

  -- exec serves the first request only.
  unfoldable pub new_task : Bool → List (ServerRequest reflect) → Goroutine
  new_task true reqs = calling true reqs [] []
  new_task false reqs = calling false (take 1 reqs) [] []

  -- The body of the loop behind readRequest.
  unfoldable pub after_read :
      Bool
      → Bool
      → Bool
      → Result RpcError (List (ServerRequest reflect)) × Bool
      → ServeState
      → Option ServeState
  after_read single_shot run_after succeeds (err e, is_batch) s =
      some (record s { conn = report h succeeds s.conn e; loop = finishing })
  after_read single_shot false succeeds (ok reqs, is_batch) s =
      elim (refuse h succeeds s.conn is_batch reqs) [
        | none ↦ none
        | some c ↦ some (record s { conn = c; loop = stopped })
      ]
  after_read single_shot true succeeds (ok reqs, is_batch) s = some (record s {
    tasks = s.tasks ++ new_task is_batch reqs ∷ [];
    loop = if single_shot then finishing else reading;
  })

  unfoldable pub read_round : Bool → Turn → ServeState → Option ServeState
  read_round single_shot t s =
      if t.run_before
      then after_read single_shot t.run_after t.succeeds t.request s
      else some (record s { loop = stopped })

  pub data ServeEvent : Type 0 where
    reads : Turn → ServeEvent
    runs : (succeeds : Bool) (task : ℕ) → ServeEvent
    returns : ServeEvent

  -- pend.Wait, or the return behind the single request.
  unfoldable pub return_idle : ServeState → List Goroutine → Option ServeState
  return_idle s [] = some (record s { loop = waited })
  return_idle s (task ∷ tasks) = none

  -- `none`: the event is not possible, or panics.
  unfoldable pub serve_event : Bool → ServeEvent → ServeState → Option ServeState
  serve_event single_shot (reads t) s = elim s.loop [
    | reading ↦ read_round single_shot t s
    | finishing ↦ none
    | waited ↦ none
    | stopped ↦ none
  ]
  serve_event single_shot (runs succeeds i) s = elim (run_at succeeds i s.conn s.tasks) [
    | none ↦ none
    | some (c, tasks) ↦ some (record s { conn = c; tasks = tasks })
  ]
  serve_event single_shot returns s = elim s.loop [
    | reading ↦ none
    | finishing ↦ return_idle s s.tasks
    | waited ↦ none
    | stopped ↦ none
  ]

  unfoldable pub serve : Bool → List ServeEvent → ServeState → Option ServeState
  serve single_shot [] s = some s
  serve single_shot (e ∷ es) s = elim (serve_event single_shot e s) [
    | none ↦ none
    | some t ↦ serve single_shot es t
  ]

  unfoldable pub new_conn : Bool → Wire → Conn
  new_conn subscriptions w = record {
    wire = w;
    notifier = if subscriptions then some new_notifier else none;
  }

  unfoldable pub serve_from : Conn → ServeState
  serve_from c = record { conn = c; tasks = []; loop = reading }

  -- The codecs behind the admission, and the loop in front of its first round; none for a server
  -- that is stopped.
  unfoldable pub serve_request : Lifecycle → ℕ → Bool → Wire → Lifecycle × Option ServeState
  unfolding new_conn serve_from
  serve_request s codec subscriptions w =
      let (s', admitted) = admit s codec in
      (s', if admitted then some (serve_from (new_conn subscriptions w)) else none)

  -- The deferred call of Close in ServeCodec, when serveRequest has returned.
  unfoldable pub close_served : ServeState → ServeState
  close_served s = elim s.loop [
    | reading ↦ s
    | finishing ↦ s
    | waited ↦ record s { conn = record (ServeState.conn s) { wire = close s.conn.wire } }
    | stopped ↦ record s { conn = record (ServeState.conn s) { wire = close s.conn.wire } }
  ]
