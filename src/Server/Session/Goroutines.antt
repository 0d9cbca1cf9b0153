-- ===== src/Server/Session/Goroutines.antt =====
-- What the goroutines of serveRequest (pkg/server/server.go) still owe, and that their steps pay it.
use airfk.Shared.{
  ℕ, zero, suc, ◌≡◌, refl, sym, ap, ◌∙◌, Bool, true, false, Option, some, List, [], ◌∷◌, ◌++◌,
  append_assoc, append-nil, Bytes, arith, All, Option-cases, inl, inr, take,
}
use mathlib.Core.List.Perm
use mathlib.Core.List.{Perm, perm_middle}
use mathlib.Core.Path.{subst}
use airfk.Codec.{Message}
use airfk.Server.Notifier.{Output, Wire, write}
use airfk.Server.Requests.{Conn, Host}
use airfk.Server.Dispatch.{handle, respond, activate_all}
use airfk.Server.Dispatch.Responses.{message_id, message_ids, request_ids, handle_id_lem}
use airfk.Server.Session.{Goroutine, calling, activating, reply_output, task_step, run_at}
use airfk.Server.Session.Outputs.{
  output_ids, written_ids, written_ids-append, AllQuiet, handle-wire, activate_all-wire,
}

-- The ids in one output: all of a batch, one of a request.
abbrev pub kept_ids : Bool → List (Option Bytes) → List (Option Bytes)
kept_ids true ids = ids
kept_ids false ids = take 1 ids

abbrev pub Ids : Type 0
Ids = List (List (Option Bytes))

message_ids-append :
    (ms : List Message) (m : Message) (ids : List (Option Bytes))
    → message_ids (ms ++ m ∷ []) ++ ids ≡ message_ids ms ++ message_id m ∷ ids
unfolding message_ids
message_ids-append [] m ids = refl
message_ids-append (x ∷ ms) m ids = ap (λ l. message_id x ∷ l) (message_ids-append ms m ids)

pub move_front {ℓ} : {A : Type ℓ} (b o a : List A) → Perm (b ++ (o ++ a)) (o ++ (b ++ a))
move_front b [] a = Perm.refl (b ++ a)
move_front b (x ∷ o) a = Perm.trans (perm_middle b (o ++ a)) (Perm.cons x (move_front b o a))

module _ (h : Host) where
  open h use {reflect}

  -- The outputs that a task has still to write.
  unfoldable pub owed_by : Goroutine h → Ids
  owed_by (calling is_batch reqs ms acts) =
      kept_ids is_batch (message_ids ms ++ request_ids h reqs) ∷ []
  owed_by (activating acts) = []

  unfoldable pub owed : List (Goroutine h) → Ids
  owed [] = []
  owed (task ∷ tasks) = owed_by task ++ owed tasks

  pub owed-append :
      (tasks more : List (Goroutine h)) → owed (tasks ++ more) ≡ owed tasks ++ owed more
  unfolding owed
  owed-append [] more = refl
  owed-append (task ∷ tasks) more =
      ap (λ l. owed_by task ++ l) (owed-append tasks more)
      ∙ sym (append_assoc (owed_by task) (owed tasks) (owed more))

  abbrev pub QuietTask : Goroutine h → Type 0
  QuietTask (calling is_batch reqs ms acts) = AllQuiet h reqs
  QuietTask (activating acts) = Unit

  pub QuietTask-append :
      (tasks more : List (Goroutine h))
      → All QuietTask tasks
      → All QuietTask more
      → All QuietTask (tasks ++ more)
  QuietTask-append [] more p q = q
  QuietTask-append (task ∷ tasks) more p q = (p.0, QuietTask-append tasks more p.1 q)

  abbrev pub ids_of : Conn → Ids
  ids_of c = written_ids c.wire.written

  -- What was written and is owed stays the same, and what is left is quiet.
  abbrev Pays : Conn → Ids → Conn → List (Goroutine h) → Type 0
  Pays c before d left = (ids_of d ++ owed left ≡ ids_of c ++ before) × All QuietTask left

  reply_output-ids :
      (is_batch : Bool) (ms : List Message) (out : Output)
      → reply_output is_batch ms ≡ some out
      → output_ids out ≡ kept_ids is_batch (message_ids ms ++ request_ids h [])
  unfolding reply_output output_ids message_ids request_ids
  reply_output-ids true ms out e = ground (arith, append-nil (message_ids ms))
  reply_output-ids false [] out e = absurd (ground arith)
  reply_output-ids false (m ∷ ms) out e = ground arith

  respond-ids :
      (c : Conn) (out : Output) → ids_of (respond c true out) ≡ ids_of c ++ output_ids out ∷ []
  unfolding respond write
  respond-ids c out = written_ids-append c.wire.written out

  task_step-Pays :
      (c d : Conn) (task : Goroutine h) (left : List (Goroutine h))
      → QuietTask task
      → task_step h true c task ≡ some (d, left)
      → Pays c (owed_by task) d left
  unfolding task_step owed owed_by request_ids
  task_step-Pays c d (calling is_batch (req ∷ reqs) ms acts) left quiet e =
      elim (Option-cases (handle h c req)) [
        | inl fails ↦ absurd (ground arith)
        | inr ((c', (m, more)), handled) ↦
            let same : d ≡ c' = ground arith in
            let rest : left ≡ calling is_batch reqs (ms ++ m ∷ []) (acts ++ more) ∷ [] =
              ground arith in
            let wire : d.wire ≡ c.wire =
              ap (λ (x : Conn). x.wire) same ∙ handle-wire h c c' req m more quiet.0 handled in
            let ids =
              message_ids-append ms m (request_ids h reqs)
              ∙ ap (λ i. message_ids ms ++ i ∷ request_ids h reqs)
                  (handle_id_lem h c c' req m more handled) in
            subst (Pays c (owed_by (calling is_batch (req ∷ reqs) ms acts)) d) (sym rest) (
              ap
                    (λ (w : Wire).
                      written_ids w.written
                      ++ owed_by (calling is_batch reqs (ms ++ m ∷ []) (acts ++ more)))
                    wire
                  ∙ ap (λ l. ids_of c ++ kept_ids is_batch l ∷ []) ids,
              (quiet.1, tt),
            )
      ]
  task_step-Pays c d (calling is_batch [] ms acts) left quiet e =
      elim (Option-cases (reply_output is_batch ms)) [
        | inl fails ↦ absurd (ground arith)
        | inr (out, made) ↦
            let same : d ≡ respond c true out = ground arith in
            let rest : left ≡ activating acts ∷ [] = ground arith in
            subst (Pays c (owed_by (calling is_batch [] ms acts)) d) (sym rest) (
              append-nil (ids_of d)
                  ∙ ap ids_of same
                  ∙ respond-ids c out
                  ∙ ap (λ l. ids_of c ++ l ∷ []) (reply_output-ids is_batch ms out made),
              (tt, tt),
            )
      ]
  task_step-Pays c d (activating []) left quiet e =
      let same : d ≡ c = ground arith in
      let rest : left ≡ [] = ground arith in
      subst (Pays c [] d) (sym rest) (ap (λ (x : Conn). ids_of x ++ []) same, tt)
  task_step-Pays c d (activating (act ∷ acts)) left quiet e =
      elim (Option-cases (activate_all c (act ∷ []))) [
        | inl fails ↦ absurd (ground arith)
        | inr (c', called) ↦
            let same : d ≡ c' = ground arith in
            let rest : left ≡ activating acts ∷ [] = ground arith in
            let wire : d.wire ≡ c.wire =
              ap (λ (x : Conn). x.wire) same ∙ activate_all-wire c c' (act ∷ []) called in
            subst (Pays c [] d) (sym rest)
              (ap (λ (w : Wire). written_ids w.written ++ []) wire, (tt, tt))
      ]

  -- A step of any task neither loses nor doubles what is written and owed.
  pub run_at-Perm :
      (i : ℕ) (c d : Conn) (tasks left : List (Goroutine h))
      → All QuietTask tasks
      → run_at h true i c tasks ≡ some (d, left)
      → Perm (ids_of d ++ owed left) (ids_of c ++ owed tasks) × All QuietTask left
  unfolding run_at owed
  run_at-Perm i c d [] left quiet e = absurd (ground arith)
  run_at-Perm zero c d (task ∷ tasks) left quiet e = elim (Option-cases (task_step h true c task)) [
    | inl fails ↦ absurd (ground arith)
    | inr ((c', some_left), stepped) ↦
        let same : c' ≡ d = ground arith in
        let rest : some_left ++ tasks ≡ left = ground arith in
        let (paid, calm) = task_step-Pays c c' task some_left quiet.0 stepped in
        let total : ids_of c' ++ owed (some_left ++ tasks) ≡ ids_of c ++ owed (task ∷ tasks) =
          ap (λ l. ids_of c' ++ l) (owed-append some_left tasks)
          ∙ sym (append_assoc (ids_of c') (owed some_left) (owed tasks))
          ∙ ap (λ l. l ++ owed tasks) paid
          ∙ append_assoc (ids_of c) (owed_by task) (owed tasks) in
        (
          subst (λ l. Perm l (ids_of c ++ owed (task ∷ tasks)))
              (sym total
                ∙ ap (λ l. ids_of c' ++ owed l) rest
                ∙ ap (λ (x : Conn). ids_of x ++ owed left) same)
              (Perm.refl (ids_of c ++ owed (task ∷ tasks))),
          subst (All QuietTask) rest (QuietTask-append some_left tasks calm quiet.1),
        )
  ]
  run_at-Perm (suc i) c d (task ∷ tasks) left quiet e =
      elim (Option-cases (run_at h true i c tasks)) [
        | inl fails ↦ absurd (ground arith)
        | inr ((c', others), stepped) ↦
            let same : c' ≡ d = ground arith in
            let rest : task ∷ others ≡ left = ground arith in
            let (paid, calm) = run_at-Perm i c c' tasks others quiet.1 stepped in
            let total : Perm (ids_of c' ++ owed (task ∷ others)) (ids_of c ++ owed (task ∷ tasks)) =
              Perm.trans (move_front (ids_of c') (owed_by task) (owed others)) (
                Perm.trans (Perm.append_left (owed_by task) paid)
                  (Perm.symm (move_front (ids_of c) (owed_by task) (owed tasks)))) in
            (
              subst (λ l. Perm (ids_of d ++ owed l) (ids_of c ++ owed (task ∷ tasks))) rest
                  (subst
                    (λ (x : Conn).
                      Perm (ids_of x ++ owed (task ∷ others)) (ids_of c ++ owed (task ∷ tasks)))
                    same total),
              subst (All QuietTask) rest (quiet.0, calm),
            )
      ]
