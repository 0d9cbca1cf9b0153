-- ===== src/Zoo/Plan/Files.antt =====
-- The files of a folder in render of pkg/zoo/file.go: the calls made for them, and which stay open.
use airfk.Shared.{List, [], ◌∷◌, ◌++◌, Bytes, ◌≡◌, refl, arith, ◌∙◌}
use airfk.Zoo.World.{Call, create, Log, World}
use airfk.Zoo.Folder.{ZooFile}
use airfk.Zoo.Render.{
  Frame, Outcome, continued, failed, ◌>>=◌, attempt, perform, create_file, render_template,
  render_file, render_files,
}
use airfk.Zoo.Plan.{Task, must, Ran, stopped, run, fill_task, file_tasks}

abbrev pub ran_of : Outcome → (Log → Ran) → Ran
ran_of (continued s) k = k s.disk.log
ran_of (failed e s) k = stopped e s.disk.log

-- The files that the call has opened are open, before those that were open when it began.
abbrev pub Balanced : List Bytes → Outcome → Type 0
Balanced base (continued s) = s.disk.opened ≡ s.deferred ++ base
Balanced base (failed e s) = s.disk.opened ≡ s.deferred ++ base

pub bind-Balanced :
    (base : List Bytes) (o : Outcome) (f : Frame → Outcome)
    → Balanced base o
    → ((t : Frame) → t.disk.opened ≡ t.deferred ++ base → Balanced base (f t))
    → Balanced base (o >>= f)
bind-Balanced base (continued s) f b h = h s b
bind-Balanced base (failed e s) f b h = b

module _ {P : Type 0} (w : World P) where
  pub ran_of-bind :
      (o : Outcome) (f : Frame → Outcome) (ts us : List Task)
      → ((t : Frame) → run w ts t.disk.log ≡ ran_of (f t) (run w us))
      → ran_of o (run w ts) ≡ ran_of (o >>= f) (run w us)
  ran_of-bind (continued s) f ts us h = h s
  ran_of-bind (failed e s) f ts us h = refl

  pub perform-run :
      (c : Call) (s : Frame) (ts : List Task)
      → run w (must c ∷ ts) s.disk.log ≡ ran_of (perform w c s) (run w ts)
  unfolding run perform attempt
  perform-run c s ts = ground arith

  pub create_file-run :
      (path : Bytes) (s : Frame) (ts : List Task)
      → run w (must (create path) ∷ ts) s.disk.log ≡ ran_of (create_file w path s) (run w ts)
  unfolding run create_file perform attempt
  create_file-run path s ts = ground arith

  module _ (base : List Bytes) where
    pub perform-Balanced :
        (c : Call) (s : Frame) → s.disk.opened ≡ s.deferred ++ base → Balanced base (perform w c s)
    unfolding perform attempt
    perform-Balanced c s b = ground arith

    pub create_file-Balanced :
        (path : Bytes) (s : Frame)
        → s.disk.opened ≡ s.deferred ++ base
        → Balanced base (create_file w path s)
    unfolding create_file perform attempt
    create_file-Balanced path s b = ground arith

module _ {P : Type 0} (w : World P) (template_path : Bytes) (p : P) where
  pub render_template-run :
      (path text : Bytes) (s : Frame) (ts : List Task)
      → run w (fill_task w template_path p path text ∷ ts) s.disk.log
        ≡ ran_of (render_template w template_path p path text s) (run w ts)
  unfolding run fill_task render_template perform attempt
  render_template-run path text s ts = ground arith

  pub render_file-run :
      (v : ZooFile) (s : Frame) (vs : List ZooFile) (ts : List Task)
      → run w (file_tasks w template_path p (v ∷ vs) ++ ts) s.disk.log
        ≡ ran_of (render_file w template_path p v s) (run w (file_tasks w template_path p vs ++ ts))
  unfolding file_tasks render_file
  render_file-run v s vs ts =
      perform-run w _ s _
      ∙ ran_of-bind w (perform w _ s) _ _ _ (λ s1.
        create_file-run w v.abs_path s1 _
        ∙ ran_of-bind w (create_file w v.abs_path s1) _ _ _
            (λ s2. render_template-run v.abs_path _ s2 _))

  pub render_files-run :
      (vs : List ZooFile) (s : Frame) (ts : List Task)
      → run w (file_tasks w template_path p vs ++ ts) s.disk.log
        ≡ ran_of (render_files w template_path p vs s) (run w ts)
  unfolding file_tasks render_files
  render_files-run [] s ts = refl
  render_files-run (v ∷ vs) s ts =
      render_file-run v s vs ts
      ∙ ran_of-bind w (render_file w template_path p v s) _ _ _ (λ t. render_files-run vs t ts)

  module _ (base : List Bytes) where
    pub render_template-Balanced :
        (path text : Bytes) (s : Frame)
        → s.disk.opened ≡ s.deferred ++ base
        → Balanced base (render_template w template_path p path text s)
    unfolding render_template perform attempt
    render_template-Balanced path text s b = ground arith

    pub render_file-Balanced :
        (v : ZooFile) (s : Frame)
        → s.disk.opened ≡ s.deferred ++ base
        → Balanced base (render_file w template_path p v s)
    unfolding render_file
    render_file-Balanced v s b =
        bind-Balanced base (perform w _ s) _ (perform-Balanced w base _ s b) λ s1 b1.
          bind-Balanced base (create_file w v.abs_path s1) _
            (create_file-Balanced w base v.abs_path s1 b1)
            λ s2 b2. render_template-Balanced v.abs_path _ s2 b2

    pub render_files-Balanced :
        (vs : List ZooFile) (s : Frame)
        → s.disk.opened ≡ s.deferred ++ base
        → Balanced base (render_files w template_path p vs s)
    unfolding render_files
    render_files-Balanced [] s b = b
    render_files-Balanced (v ∷ vs) s b =
        bind-Balanced base (render_file w template_path p v s) _ (render_file-Balanced v s b)
          (render_files-Balanced vs)
