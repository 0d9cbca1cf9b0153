-- ===== src/Server/Session/Answers.antt =====
-- What serveRequest of pkg/server/server.go and its goroutines answer, in whatever order they run.
use airfk.Shared.{
  ℕ, ◌≡◌, refl, sym, ap, Bool, true, some, List, [], ◌∷◌, ◌++◌, append_assoc, append-nil, arith,
  All, Option-cases, Bool-cases, inl, inr,
}
use mathlib.Core.List.Perm
use mathlib.Core.List.{Perm}
use mathlib.Core.Path.{subst}
use airfk.Server.Requests.{Conn, Host}
use airfk.Server.Session.{
  Loop, reading, finishing, waited, stopped, Goroutine, Turn, ServeState, run_at, read_round,
  ServeEvent, reads, runs, returns, return_idle, serve_event, serve, serve_from,
}
use airfk.Server.Session.Outputs.{written_ids}
use airfk.Server.Session.Goroutines.{move_front, owed, ids_of, run_at-Perm}
use airfk.Server.Session.Rounds.{
  asked, answers, IsCalm, all_ids, Waited, Fine, Adds, same_ids, after_read-Adds,
}

module _ (h : Host) where
  reads_reading :
      (single_shot : Bool) (t : Turn h) (s u : ServeState h) (l : Loop)
      → s.loop ≡ l
      → serve_event h single_shot (reads t) s ≡ some u
      → read_round h single_shot t s ≡ some u
  unfolding serve_event
  reads_reading single_shot t s u reading k e = ground arith
  reads_reading single_shot t s u finishing k e = absurd (ground arith)
  reads_reading single_shot t s u waited k e = absurd (ground arith)
  reads_reading single_shot t s u stopped k e = absurd (ground arith)

  returns_idle :
      (single_shot : Bool) (s u : ServeState h) (l : Loop) (tasks : List (Goroutine h))
      → s.loop ≡ l
      → s.tasks ≡ tasks
      → serve_event h single_shot returns s ≡ some u
      → (tasks ≡ []) × (record s { loop = waited } ≡ u)
  unfolding serve_event return_idle
  returns_idle single_shot s u reading tasks k m e = absurd (ground arith)
  returns_idle single_shot s u finishing [] k m e = (refl, ground arith)
  returns_idle single_shot s u finishing (task ∷ tasks) k m e = absurd (ground arith)
  returns_idle single_shot s u waited tasks k m e = absurd (ground arith)
  returns_idle single_shot s u stopped tasks k m e = absurd (ground arith)

  Waited-run_at :
      (i : ℕ) (c d : Conn) (l : Loop) (tasks left : List (Goroutine h))
      → run_at h true i c tasks ≡ some (d, left)
      → Waited h l tasks
      → Waited h l left
  unfolding run_at
  Waited-run_at i c d reading tasks left e w = tt
  Waited-run_at i c d finishing tasks left e w = tt
  Waited-run_at i c d stopped tasks left e w = tt
  Waited-run_at i c d waited [] left e w = absurd (ground arith)
  Waited-run_at i c d waited (task ∷ tasks) left e w = absurd (ground (arith, w))

  serve_event-Adds :
      (single_shot : Bool) (e : ServeEvent h) (s u : ServeState h)
      → IsCalm h e
      → Fine h s
      → serve_event h single_shot e s ≡ some u
      → Adds h s (asked h e) u
  unfolding serve_event read_round
  serve_event-Adds single_shot (reads t) s u calm fine k =
      let round = reads_reading single_shot t s u s.loop refl k in
      elim (Bool-cases t.run_before) [
        | inl on ↦ rw on (
            after_read-Adds h single_shot t.run_after t.request s u calm.0 fine
              (rw (on, calm.1) at round))
        | inr off ↦
            let result : record s { loop = stopped } ≡ u = ground arith in
            rw off (subst (Adds h s []) result (Perm.refl (all_ids h s), (fine.0, tt)))
      ]
  serve_event-Adds single_shot (runs succeeds i) s u calm fine k =
      elim (Option-cases (run_at h true i s.conn s.tasks)) [
        | inl fails ↦ absurd (ground (arith, calm))
        | inr ((d, left), stepped) ↦
            let result : record s { conn = d; tasks = left } ≡ u = ground (arith, calm) in
            let (paid, quiet) = run_at-Perm h i s.conn d s.tasks left fine.0 stepped in
            subst (Adds h s []) result
              (paid, (quiet, Waited-run_at i s.conn d s.loop s.tasks left stepped fine.1))
      ]
  serve_event-Adds single_shot returns s u calm fine k =
      let (empty, result) = returns_idle single_shot s u s.loop s.tasks refl refl k in
      subst (Adds h s []) result (Perm.refl (all_ids h s), (fine.0, empty))

  serve-Adds :
      (single_shot : Bool) (es : List (ServeEvent h)) (s u : ServeState h)
      → All (IsCalm h) es
      → Fine h s
      → serve h single_shot es s ≡ some u
      → Adds h s (answers h es) u
  unfolding serve answers
  serve-Adds single_shot [] s u calm fine k =
      let result : s ≡ u = ground arith in
      subst (Adds h s []) result (Perm.refl (all_ids h s), fine)
  serve-Adds single_shot (e ∷ es) s u calm fine k =
      elim (Option-cases (serve_event h single_shot e s)) [
        | inl fails ↦ absurd (ground arith)
        | inr (t, stepped) ↦
            let (first, good) = serve_event-Adds single_shot e s t calm.0 fine stepped in
            let (rest, end) = serve-Adds single_shot es t u calm.1 good (ground arith) in
            (
              Perm.trans rest (
                  Perm.trans (Perm.append_left (answers h es) first) (
                    Perm.trans (move_front (answers h es) (asked h e) (all_ids h s))
                      (same_ids h (sym (append_assoc (asked h e) (answers h es) (all_ids h s)))))),
              end,
            )
      ]

  -- In every order in which the loop of serveRequest and the goroutines that it starts take their
  -- steps, while callbacks write nothing on the connection themselves and writes arrive: the outputs
  -- written so far and those that the running goroutines have still to write are together one for
  -- each round that asks for one, and no other. A batch asks for one with the ids of all its
  -- requests in their order, a request for one with its id, a failed read for one without an id,
  -- the end of the stream for none; a round whose read finds Run no longer 1 asks too. And when the
  -- loop has returned behind its wait, no goroutine is left, so all of them are written.
  pub serve-answers :
      (single_shot : Bool) (es : List (ServeEvent h)) (c : Conn) (s : ServeState h)
      → All (IsCalm h) es
      → serve h single_shot es (serve_from h c) ≡ some s
      → Perm
          (written_ids s.conn.wire.written ++ owed h s.tasks)
          (answers h es ++ written_ids c.wire.written)
        × Waited h s.loop s.tasks
  unfolding serve_from owed
  serve-answers single_shot es c s calm k =
      let (all, (quiet, done)) = serve-Adds single_shot es (serve_from h c) s calm (tt, tt) k in
      (Perm.trans all (same_ids h (ap (λ l. answers h es ++ l) (append-nil (ids_of h c)))), done)
