-- ===== src/Server/Session/Alone.antt =====
-- A goroutine of serveRequest (pkg/server/server.go) that runs alone does what exec and execBatch do.
use airfk.Shared.{
  ℕ, suc, ◌≡◌, refl, sym, ap, ◌∙◌, Bool, true, false, some, List, [], ◌∷◌, ◌++◌, append_assoc,
  append-nil, arith, replicate, Option-cases, inl, inr,
}
use airfk.Codec.{Message}
use airfk.Server.Notifier.{single, batch, activate}
use airfk.Server.Requests.{Conn, ServerRequest, Host}
use airfk.Server.Dispatch.{Activation, handle, handle_all, respond, activate_all, exec, exec_batch}
use airfk.Server.Session.{
  Loop, Goroutine, calling, activating, ServeState, runs, serve, serve_event, run_at, task_step,
  new_task, reply_output,
}

module _ (h : Host) (succeeds single_shot : Bool) (l : Loop) where
  open h use {reflect}

  abbrev doing : Conn → List (Goroutine h) → ServeState h
  doing c tasks = record { conn = c; tasks = tasks; loop = l }

  -- So many steps of the only goroutine.
  abbrev Ends : ServeState h → Conn → Type 0
  Ends s e = (n : ℕ) × (serve h single_shot (replicate n (runs succeeds 0)) s ≡ some (doing e []))

  one_step :
      (c d e : Conn) (task next : Goroutine h)
      → task_step h succeeds c task ≡ some (d, next ∷ [])
      → Ends (doing d (next ∷ [])) e
      → Ends (doing c (task ∷ [])) e
  unfolding serve serve_event run_at
  one_step c d e task next k (n, rest) = (suc n, rw (k, serve, serve_event, run_at) rest)

  activating-Ends :
      (c e : Conn) (acts : List Activation)
      → activate_all c acts ≡ some e
      → Ends (doing c (activating acts ∷ [])) e
  unfolding activate_all serve serve_event run_at task_step
  activating-Ends c e [] k = (1, ap (λ (x : Conn). some (doing x [])) (ground arith))
  activating-Ends c e ((i, s) ∷ acts) k = elim (Option-cases c.notifier) [
    | inl nil ↦ absurd (ground arith)
    | inr (n, there) ↦
        one_step c (record c { notifier = some (activate n i s) }) e (activating ((i, s) ∷ acts))
          (activating acts) (ground (arith, there))
          (activating-Ends (record c { notifier = some (activate n i s) }) e acts (ground arith))
  ]

  calling-Ends :
      (c d e : Conn) (reqs : List (ServerRequest reflect)) (before ms : List Message)
      (acts more : List Activation)
      → handle_all h c reqs ≡ some (d, (ms, more))
      → activate_all (respond d succeeds (batch (before ++ ms))) (acts ++ more) ≡ some e
      → Ends (doing c (calling true reqs before acts ∷ [])) e
  unfolding handle_all task_step reply_output
  calling-Ends c d e [] before ms acts more k m =
      let no_ms : ms ≡ [] = ground arith in
      let no_more : more ≡ [] = ground arith in
      let same : d ≡ c = ground arith in
      let last : activate_all (respond c succeeds (batch before)) acts ≡ some e =
        rw (no_ms, no_more, same, append-nil before, append-nil acts) at m in
      one_step c (respond c succeeds (batch before)) e (calling true [] before acts)
        (activating acts) refl (activating-Ends (respond c succeeds (batch before)) e acts last)
  calling-Ends c d e (req ∷ reqs) before ms acts more k m = elim (Option-cases (handle h c req)) [
    | inl fails ↦ absurd (ground arith)
    | inr ((c1, (m1, first)), done) ↦ elim (Option-cases (handle_all h c1 reqs)) [
      | inl fails ↦ absurd (ground arith)
      | inr ((c2, (rest, others)), all) ↦
          let all_ms : ms ≡ m1 ∷ rest = ground arith in
          let all_acts : more ≡ first ++ others = ground arith in
          let same : c2 ≡ d = ground arith in
          let last =
            ap (λ x. activate_all (respond d succeeds (batch x)) ((acts ++ first) ++ others))
              (append_assoc before (m1 ∷ []) rest ∙ ap (λ x. before ++ x) (sym all_ms))
            ∙ ap (activate_all (respond d succeeds (batch (before ++ ms))))
                (append_assoc acts first others ∙ ap (λ x. acts ++ x) (sym all_acts))
            ∙ m in
          one_step c c1 e (calling true (req ∷ reqs) before acts)
            (calling true reqs (before ++ m1 ∷ []) (acts ++ first)) (rw (done, task_step) refl)
            (calling-Ends c1 d e reqs (before ++ m1 ∷ []) rest (acts ++ first) others
              (all ∙ ap (λ (x : Conn). some (x, (rest, others))) same) last)
    ]
  ]

  -- When execBatch returns on a connection, a goroutine for the same batch that runs there alone
  -- comes to its end, and leaves the connection as execBatch does.
  exec_batch-Ends :
      (c e : Conn) (reqs : List (ServerRequest reflect))
      → exec_batch h succeeds c reqs ≡ some e
      → Ends (doing c (new_task h true reqs ∷ [])) e
  unfolding exec_batch new_task
  exec_batch-Ends c e reqs k = elim (Option-cases (handle_all h c reqs)) [
    | inl fails ↦ absurd (ground arith)
    | inr ((d, (ms, acts)), done) ↦ calling-Ends c d e reqs [] ms [] acts done (ground arith)
  ]

  -- The same of exec, for the first of the requests.
  exec-Ends :
      (c e : Conn) (req : ServerRequest reflect) (reqs : List (ServerRequest reflect))
      → exec h succeeds c req ≡ some e
      → Ends (doing c (new_task h false (req ∷ reqs) ∷ [])) e
  unfolding exec new_task task_step reply_output
  exec-Ends c e req reqs k = elim (Option-cases (handle h c req)) [
    | inl fails ↦ absurd (ground arith)
    | inr ((d, (m, acts)), done) ↦
        one_step c d e (calling false (req ∷ []) [] []) (calling false [] (m ∷ []) acts)
          (rw (done, task_step) refl)
          (one_step d (respond d succeeds (single m)) e (calling false [] (m ∷ []) acts)
            (activating acts) refl
            (activating-Ends (respond d succeeds (single m)) e acts (ground arith)))
  ]
