-- ===== src/Zoo/Plan/Rendered.antt =====
-- render of pkg/zoo/file.go makes the calls of a plan.
use airfk.Shared.{
  ℕ, zero, suc, ◌≤◌, Option, none, some, List, [], ◌∷◌, ◌++◌, Bytes, ◌≡◌, refl, ap, arith, ◌∙◌, sym,
  text_eq_iff,
}
use airfk.Zoo.World.{mkdir, World}
use airfk.Zoo.Folder.{ZooFile, ZooFolder, Heap}
use airfk.Zoo.Render.{
  Disk, Frame, Outcome, continued, failed, ◌>>=◌, remove_first, close_all, resume, returned,
  perform, render_files, render_folders, render,
}
use airfk.Zoo.Plan.{
  Tree, tree, Trees, end, sub, depth, path_of, Shows, ShowsAll, Task, must, Ran, finished, stopped,
  ran_then, run, run-append, file_tasks, plan, depth_all, plan_all,
}
use airfk.Zoo.Plan.Files.{
  ran_of, Balanced, ran_of-bind, perform-run, perform-Balanced, bind-Balanced, render_files-run,
  render_files-Balanced,
}

-- What a call that leaves the files `o` open returns.
abbrev pub closed : List Bytes → Ran → Option Bytes × Disk
closed o (finished l) = (none, record { log = l; opened = o })
closed o (stopped e l) = (some e, record { log = l; opened = o })

close_all-append :
    (ps base : List Bytes) (d : Disk)
    → d.opened ≡ ps ++ base
    → close_all ps d ≡ record d { opened = base }
unfolding close_all remove_first
close_all-append [] base d e = ground (arith, e)
close_all-append (p ∷ ps) base d e =
    ground (arith, close_all-append ps base (record d { opened = ps ++ base }), text_eq_iff p p)

module _ {P : Type 0} (w : World P) (template_path : Bytes) (p : P) where
  returned-closed :
      (base : List Bytes) (o : Outcome)
      → Balanced base o
      → returned o ≡ closed base (ran_of o (run w []))
  unfolding returned run
  returned-closed base (continued s) b = ground (arith, close_all-append s.deferred base s.disk b)
  returned-closed base (failed e s) b = ground (arith, close_all-append s.deferred base s.disk b)

  resume-closed :
      (r : Ran) (t : Frame) (f : Frame → Outcome) (us ts : List Task)
      → ((s : Frame) → run w ts s.disk.log ≡ ran_of (f s) (run w us))
      → ran_then r (run w ts) ≡ ran_of (resume (closed t.disk.opened r) t f) (run w us)
  unfolding resume
  resume-closed (finished l) t f us ts h = h (record t { disk = record t.disk { log = l } })
  resume-closed (stopped e l) t f us ts h = refl

  resume-Balanced :
      (base : List Bytes) (r : Ran) (t : Frame) (f : Frame → Outcome)
      → t.disk.opened ≡ t.deferred ++ base
      → ((s : Frame) → s.disk.opened ≡ s.deferred ++ base → Balanced base (f s))
      → Balanced base (resume (closed t.disk.opened r) t f)
  unfolding resume
  resume-Balanced base (finished l) t f b h = h (record t { disk = record t.disk { log = l } }) b
  resume-Balanced base (stopped e l) t f b h = b

  module _ (h : Heap) where
    Shows-path_of : (f : ZooFolder) (t : Tree) → Shows h f t → f.abs_path ≡ path_of t
    unfolding Shows
    Shows-path_of f (tree path files subs) shown = shown.0

    mutual
      unfolding depth Shows plan render render_folders

      render-plan_lem :
          (t : Tree) (n : ℕ) (f : ZooFolder) (d : Disk)
          → Shows h f t
          → depth t ≤ n
          → render w template_path p h n f d
            ≡ closed d.opened (run w (plan w template_path p t) d.log)
      render-plan_lem (tree path files subs) zero f d shown le = absurd (omega arith)
      render-plan_lem (tree path files subs) (suc n) f d (_, e, shown) le =
          let s0 : Frame = record { disk = d; deferred = [] } in
          let o = render_files w template_path p f.files s0 in
          let folders = render_folders w h (render w template_path p h n) f.folders in
          let calls = λ (vs : List ZooFile).
            run w (file_tasks w template_path p vs ++ plan_all w template_path p subs) d.log in
          let planned : calls f.files ≡ ran_of (o >>= folders) (run w []) =
            render_files-run w template_path p f.files s0 _
            ∙ ran_of-bind w o folders _ _
                (λ s. folders-run subs n f.folders s shown (omega arith)) in
          returned-closed d.opened (o >>= folders) (
            bind-Balanced d.opened o folders
              (render_files-Balanced w template_path p d.opened f.files s0 refl)
              (λ s b. folders-Balanced subs d.opened n f.folders s shown (omega arith) b))
          ∙ ap (closed d.opened) (sym planned ∙ ap calls e)

      folders-run :
          (ts : Trees) (n : ℕ) (is : List ℕ) (s : Frame)
          → ShowsAll h is ts
          → depth_all ts ≤ n
          → run w (plan_all w template_path p ts) s.disk.log
            ≡ ran_of (render_folders w h (render w template_path p h n) is s) (run w [])
      folders-run end n [] s shown le = refl
      folders-run end n (i ∷ is) s shown le = elim shown [ ]
      folders-run (sub t ts) n [] s shown le = elim shown [ ]
      folders-run (sub t ts) n (i ∷ is) s (shown, rest) le =
          let made = plan w template_path p t ++ plan_all w template_path p ts in
          let c = mkdir (h.folder i).abs_path in
          ap (λ q. run w (must (mkdir q) ∷ made) s.disk.log)
            (sym (Shows-path_of (h.folder i) t shown))
          ∙ perform-run w c s _
          ∙ ran_of-bind w (perform w c s) _ _ _ (λ s1.
            let r = render-plan_lem t n (h.folder i) s1.disk shown (omega arith) in
            run-append w (plan w template_path p t) _ s1.disk.log
            ∙ resume-closed (run w (plan w template_path p t) s1.disk.log) s1 _ [] _
                (λ s2. folders-run ts n is s2 rest (omega arith))
            ∙ ap
                (λ o.
                  ran_of (resume o s1 (render_folders w h (render w template_path p h n) is))
                    (run w []))
                (sym r))

      folders-Balanced :
          (ts : Trees) (base : List Bytes) (n : ℕ) (is : List ℕ) (s : Frame)
          → ShowsAll h is ts
          → depth_all ts ≤ n
          → s.disk.opened ≡ s.deferred ++ base
          → Balanced base (render_folders w h (render w template_path p h n) is s)
      folders-Balanced end base n [] s shown le b = b
      folders-Balanced end base n (i ∷ is) s shown le b = elim shown [ ]
      folders-Balanced (sub t ts) base n [] s shown le b = elim shown [ ]
      folders-Balanced (sub t ts) base n (i ∷ is) s (shown, rest) le b =
          bind-Balanced base (perform w _ s) _ (perform-Balanced w base _ s b) λ s1 b1.
            let r = render-plan_lem t n (h.folder i) s1.disk shown (omega arith) in
            rw r (
              resume-Balanced base _ s1 _ b1
                λ s2 b2. folders-Balanced ts base n is s2 rest (omega arith) b2)

    -- When pointers show a tree, and render is given as many levels as the tree has, it makes the
    -- calls that the plan of the tree lists, in their order, up to the first that fails, returns its
    -- error or none, and has closed every file that it opened.
    pub render-run :
        (t : Tree) (fuel : ℕ) (f : ZooFolder) (d : Disk)
        → Shows h f t
        → depth t ≤ fuel
        → render w template_path p h fuel f d
          ≡ closed d.opened (run w (plan w template_path p t) d.log)
    render-run t fuel f d shown enough = render-plan_lem t fuel f d shown enough
