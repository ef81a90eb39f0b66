-- ===== src/Run/Serve/Course/Exact.antt =====
-- The loop of `run` (src/lib.rs) has exactly the described course.
use failover.Base.{
  ◌≡◌, ◌≢◌, ◌↔◌, ◌||◌, inl, inr, refl, sym, ap, ◌∙◌, subst, true, false, List, [], ◌∷◌, Option,
  none, some, arith, Bool-cases,
}
use failover.Error.{panic}
use failover.Crates.Buffer.{Buffer}
use failover.Crates.Checksum.{Checksum}
use failover.Crates.Ipnet.{Ipnet}
use failover.Router.{Env}
use failover.CoreTasks.Steps.{Input, stopped, World, panics, handle, step}
use failover.CoreTasks.Processes.{Views, Happening, signal, input_of}
use failover.Run.Serve.{Tasks, runs, is_signal, all_ended, finished, advance, stop, serve}
use failover.Run.Serve.Ends.{serve_now, serve_on, still-serving, finished-inj}
use failover.Run.Serve.Course.Turns.{
  Brings-input_of, Silent-input_of, Brings-is_signal, Silent-is_signal, reads, RunsFor-runs,
  runs-RunsFor, end_if-without, end_if_not, panics_iff, all_ended_iff, RunsFor-all_ended,
}
use failover.Run.Serve.Course.{
  Brings, RunsFor, without, NoneRuns, Finishes, signalled, deserted, nothing, missed, handled,
  panicked,
}

true-ne-false : true ≢ false
true-ne-false e = cc

some_run : (tasks : Tasks) (w : World) → ¬ NoneRuns tasks w → all_ended tasks w ≡ false
some_run tasks w h = elim (Bool-cases (all_ended tasks w)) [
  | inl ended ↦ absurd (h ((all_ended_iff tasks w).0 ended))
  | inr runs ↦ runs
]

-- Nothing ends the run yet.
goes_on :
    (h : Happening) (tasks : Tasks) (w : World)
    → is_signal h ≡ false
    → ¬ NoneRuns tasks w
    → (is_signal h || all_ended tasks w) ≡ false
goes_on h tasks w other some_runs = rw (other, some_run tasks w some_runs) refl

module _ (b : Buffer) (c : Checksum) (n : Ipnet) (views : Views) where
  advance_missed :
      (env : Env) (input : Input) (tasks : Tasks) (w : World)
      → RunsFor tasks w input false
      → advance b c n env (some input) (tasks, w) ≡ (tasks, w)
  unfolding advance
  advance_missed env input tasks w ended = rw (RunsFor-runs tasks w input false ended) refl

  advance_handled :
      (env : Env) (input : Input) (tasks : Tasks) (w : World)
      → RunsFor tasks w input true
      → (handle b c n env input w).result ≢ panic
      → advance b c n env (some input) (tasks, w) ≡ (tasks, step b c n (env, input) w)
  unfolding advance
  advance_handled env input tasks w alive fine =
      let calm : panics (handle b c n env input w).result ≡ false =
        elim (Bool-cases (panics (handle b c n env input w).result)) [
          | inl bad ↦ absurd (fine ((panics_iff _).0 bad))
          | inr good ↦ good
        ] in
      rw (RunsFor-runs tasks w input true alive, calm, end_if_not input tasks) refl

  advance_panicked :
      (env : Env) (input : Input) (tasks : Tasks) (w : World)
      → RunsFor tasks w input true
      → (handle b c n env input w).result ≡ panic
      → advance b c n env (some input) (tasks, w) ≡ (without input tasks, step b c n (env, input) w)
  unfolding advance
  advance_panicked env input tasks w alive bad =
      let ends : panics (handle b c n env input w).result ≡ true = (panics_iff _).1 bad in
      rw (RunsFor-runs tasks w input true alive, ends, end_if-without input tasks) refl

  -- The loop after a happening that does not end it, in terms of the input and the next tasks.
  serve_next :
      (env : Env) (h : Happening) (input : Option Input) (later : List (Env × Happening))
      (tasks : Tasks) (w : World) (next : Tasks × World)
      → is_signal h ≡ false
      → ¬ NoneRuns tasks w
      → input_of views h ≡ input
      → advance b c n env input (tasks, w) ≡ next
      → serve b c n views ((env, h) ∷ later) (tasks, w) ≡ serve b c n views later next
  serve_next env h input later tasks w next other some_runs read moved =
      serve_on b c n views env h later tasks w (goes_on h tasks w other some_runs)
      ∙ ap (λ i. serve b c n views later (advance b c n env i (tasks, w))) read
      ∙ ap (λ (p : Tasks × World). serve b c n views later p) moved

  Finishes-serve :
      {tasks : Tasks} {w w' : World} {happenings : List (Env × Happening)}
      → Finishes b c n views tasks w happenings w'
      → serve b c n views happenings (tasks, w) ≡ finished w'
  unfolding stop advance
  Finishes-serve (signalled tasks w env later) = serve_now b c n views env signal later tasks w refl
  Finishes-serve (deserted tasks w env h later none_runs) =
      serve_now b c n views env h later tasks w
        (ground (arith, (all_ended_iff tasks w).1 none_runs))
  Finishes-serve {tasks} {w} (nothing {later = later} env h some_runs silent rest) =
      serve_next env h none later tasks w (tasks, w) (Silent-is_signal views silent) some_runs
        (Silent-input_of views silent) refl
      ∙ Finishes-serve rest
  Finishes-serve {tasks} {w} (missed {later = later} env h input some_runs brings ended rest) =
      serve_next env h (some input) later tasks w (tasks, w) (Brings-is_signal views brings)
        some_runs (Brings-input_of views brings) (advance_missed env input tasks w ended)
      ∙ Finishes-serve rest
  Finishes-serve {tasks} {w} (handled {later = later} env h input brings alive fine rest) =
      serve_next env h (some input) later tasks w _ (Brings-is_signal views brings)
        (RunsFor-all_ended tasks w input alive) (Brings-input_of views brings)
        (advance_handled env input tasks w alive fine)
      ∙ Finishes-serve rest
  Finishes-serve {tasks} {w} (panicked {later = later} env h input brings alive bad rest) =
      serve_next env h (some input) later tasks w _ (Brings-is_signal views brings)
        (RunsFor-all_ended tasks w input alive) (Brings-input_of views brings)
        (advance_panicked env input tasks w alive bad)
      ∙ Finishes-serve rest

  -- An end that comes now leaves the world after the shutdown.
  now-step :
      (env : Env) (h : Happening) (later : List (Env × Happening)) (tasks : Tasks) (w w' : World)
      → (is_signal h || all_ended tasks w) ≡ true
      → serve b c n views ((env, h) ∷ later) (tasks, w) ≡ finished w'
      → w' ≡ step b c n (env, stopped) w
  unfolding stop
  now-step env h later tasks w w' now ends =
      finished-inj b c n views w' _ (sym ends ∙ serve_now b c n views env h later tasks w now)

  brought :
      (env : Env) (h : Happening) (input : Input) (later : List (Env × Happening)) (tasks : Tasks)
      (w w' : World)
      → ¬ NoneRuns tasks w
      → Brings views h input
      → ((next : Tasks × World)
          → serve b c n views later next ≡ finished w'
          → Finishes b c n views next.0 next.1 later w')
      → serve b c n views ((env, h) ∷ later) (tasks, w) ≡ finished w'
      → Finishes b c n views tasks w ((env, h) ∷ later) w'
  brought env h input later tasks w w' some_runs brings onward ends =
      let next : (p : Tasks × World)
          → advance b c n env (some input) (tasks, w) ≡ p
          → serve b c n views later p ≡ finished w' =
        λ p moved.
          sym (
            serve_next env h (some input) later tasks w p (Brings-is_signal views brings) some_runs
              (Brings-input_of views brings) moved)
          ∙ ends in
      elim (Bool-cases (runs tasks w.ticking input)) [
        | inr ended ↦
            let gone = runs-RunsFor tasks w input false ended in
            missed env h input some_runs brings gone
              (onward (tasks, w) (next (tasks, w) (advance_missed env input tasks w gone)))
        | inl running ↦
            let alive = runs-RunsFor tasks w input true running in
            elim (Bool-cases (panics (handle b c n env input w).result)) [
              | inl bad ↦
                  let panicking = (panics_iff _).0 bad in
                  panicked env h input brings alive panicking (
                    onward (without input tasks, step b c n (env, input) w)
                      (next _ (advance_panicked env input tasks w alive panicking)))
              | inr good ↦
                  let fine : (handle b c n env input w).result ≢ panic =
                    λ e. absurd (true-ne-false (sym ((panics_iff _).1 e) ∙ good)) in
                  handled env h input brings alive fine (
                    onward (tasks, step b c n (env, input) w)
                      (next _ (advance_handled env input tasks w alive fine)))
            ]
      ]

  serve-Finishes :
      (happenings : List (Env × Happening)) (tasks : Tasks) (w w' : World)
      → serve b c n views happenings (tasks, w) ≡ finished w'
      → Finishes b c n views tasks w happenings w'
  unfolding advance
  serve-Finishes [] tasks w w' ends = absurd (still-serving b c n views tasks w w' ends)
  serve-Finishes ((env, h) ∷ later) tasks w w' ends = elim (Bool-cases (all_ended tasks w)) [
    | inl none_left ↦
        subst (Finishes b c n views tasks w ((env, h) ∷ later))
          (sym (now-step env h later tasks w w' (ground (arith, none_left)) ends))
          (deserted tasks w env h later ((all_ended_iff tasks w).0 none_left))
    | inr some_left ↦
        let some_runs : ¬ NoneRuns tasks w =
          λ none_runs. true-ne-false (sym ((all_ended_iff tasks w).1 none_runs) ∙ some_left) in
        elim (reads views h) [
          | inl is ↦
              subst (λ x. Finishes b c n views tasks w ((env, x) ∷ later) w') (sym is)
                (subst (Finishes b c n views tasks w ((env, signal) ∷ later))
                  (sym (now-step env h later tasks w w' (rw is refl) ends))
                  (signalled tasks w env later))
          | inr (inl silent) ↦ nothing env h some_runs silent (
              serve-Finishes later tasks w w' (
                sym (
                  serve_next env h none later tasks w (tasks, w) (Silent-is_signal views silent)
                    some_runs (Silent-input_of views silent) refl)
                ∙ ends))
          | inr (inr (input, brings)) ↦
              brought env h input later tasks w w' some_runs brings
                (λ next. serve-Finishes later next.0 next.1 w') ends
        ]
  ]

  -- Once the tasks are spawned, the loop of run comes to its end and leaves a world exactly if
  -- the happenings take that course: a signal, or whatever happens when no task runs, ends it,
  -- with the shutdown, and nothing after that counts; before it, turns of a listener on which
  -- there is nothing to read, or only a frame that this host sent, do nothing; and every other
  -- turn, with the first 512 bytes of a VRRP packet or 128 of the others, an error of a socket,
  -- or a tick, is handled by its task at once and in order if that task runs, is lost if it does
  -- not, and ends the task if the handler panics.
  pub serve_iff :
      (happenings : List (Env × Happening)) (tasks : Tasks) (w w' : World)
      → (serve b c n views happenings (tasks, w) ≡ finished w')
        ↔ Finishes b c n views tasks w happenings w'
  serve_iff happenings tasks w w' = (serve-Finishes happenings tasks w w', Finishes-serve)
