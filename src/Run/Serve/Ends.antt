-- ===== src/Run/Serve/Ends.antt =====
-- When `run` (src/lib.rs) comes to its end, and what it then leaves.
use failover.Base.{
  ◌≡◌, ◌≢◌, refl, sym, ap, ◌∙◌, true, false, ◌||◌, List, [], ◌∷◌, ◌++◌, Option, none, some, All,
  Bool-cases, inl, inr,
}
use failover.Crates.Buffer.{Buffer}
use failover.Crates.Checksum.{Checksum}
use failover.Crates.Ipnet.{Ipnet}
use failover.Router.{Env}
use failover.CoreTasks.Steps.{Input, World, step, run}
use failover.CoreTasks.Processes.{Views, Happening, signal, input_of}
use failover.Run.Serve.{Tasks, runs, is_signal, all_ended, finished, advance, stop, serve}

module _ (b : Buffer) (c : Checksum) (n : Ipnet) where
  pub run-append :
      (xs ys : List (Env × Input)) (w : World)
      → run b c n (xs ++ ys) w ≡ run b c n ys (run b c n xs w)
  unfolding run
  run-append [] ys w = refl
  run-append (x ∷ xs) ys w = run-append xs ys (step b c n x w)

  -- What happens is an input that is handled, or nothing for the router.
  advance-run :
      (env : Env) (input : Option Input) (tasks : Tasks) (w : World)
      → (inputs : List (Env × Input)) × ((advance b c n env input (tasks, w)).1
          ≡ run b c n inputs w)
  unfolding advance run
  advance-run env none tasks w = ([], refl)
  advance-run env (some input) tasks w = elim (Bool-cases (runs tasks w.ticking input)) [
    | inl alive ↦ ((env, input) ∷ [], rw alive refl)
    | inr ended ↦ ([], rw ended refl)
  ]

  module _ (views : Views) where
    pub serve_now :
        (e : Env) (h : Happening) (later : List (Env × Happening)) (tasks : Tasks) (w : World)
        → (is_signal h || all_ended tasks w) ≡ true
        → serve b c n views ((e, h) ∷ later) (tasks, w) ≡ finished (stop b c n e w)
    unfolding serve
    serve_now e h later tasks w ends = rw ends refl

    pub serve_on :
        (e : Env) (h : Happening) (later : List (Env × Happening)) (tasks : Tasks) (w : World)
        → (is_signal h || all_ended tasks w) ≡ false
        → serve b c n views ((e, h) ∷ later) (tasks, w)
          ≡ serve b c n views later (advance b c n e (input_of views h) (tasks, w))
    unfolding serve
    serve_on e h later tasks w goes_on = rw goes_on refl

    -- Whatever happens before, a signal ends `run`.
    pub serve_ends :
        (before later : List (Env × Happening)) (env : Env) (tasks : Tasks) (w : World)
        → (w' : World) × (serve b c n views (before ++ (env, signal) ∷ later) (tasks, w)
            ≡ finished w')
    serve_ends [] later env tasks w = (stop b c n env w, serve_now env signal later tasks w refl)
    serve_ends ((e, h) ∷ before) later env tasks w =
        elim (Bool-cases (is_signal h || all_ended tasks w)) [
          | inl ends ↦ (stop b c n e w, serve_now e h _ tasks w ends)
          | inr goes_on ↦
              let next = advance b c n e (input_of views h) (tasks, w) in
              let (w', ends) = serve_ends before later env next.0 next.1 in
              (w', serve_on e h _ tasks w goes_on ∙ ends)
        ]

    -- The world that is left: the inputs that were handled, one at a time, and then the shutdown.
    pub record Ended {ℓ} (P : Env → Type ℓ) (w w' : World) : Type ℓ where
      pub inputs : List (Env × Input)
      pub env : Env
      pub last : w' ≡ stop b c n env (run b c n inputs w)
      pub at : P env

    pub still-serving :
        (tasks : Tasks) (w w' : World) → serve b c n views [] (tasks, w) ≢ finished w'
    unfolding serve
    still-serving tasks w w' h = cc

    pub finished-inj : (w w' : World) → finished w ≡ finished w' → w ≡ w'
    finished-inj w w' h = cc

    -- Whatever the tasks get and in whatever order
    -- they end, if the run ends, the world it leaves is the one after some inputs, handled one at
    -- a time, and then the shutdown, in surroundings of which all that holds at every happening
    -- holds.
    pub serve-Ended {ℓ} :
        (P : Env → Type ℓ) (happenings : List (Env × Happening)) (tasks : Tasks) (w w' : World)
        → All (λ h. P h.0) happenings
        → serve b c n views happenings (tasks, w) ≡ finished w'
        → Ended P w w'
    unfolding run
    serve-Ended P [] tasks w w' all h = absurd (still-serving tasks w w' h)
    serve-Ended P ((e, h) ∷ happenings) tasks w w' all ends =
        elim (Bool-cases (is_signal h || all_ended tasks w)) [
          | inl now ↦ record {
            inputs = [];
            env = e;
            last = finished-inj w' _ (sym ends ∙ serve_now e h happenings tasks w now);
            at = all.0;
          }
          | inr later ↦
              let next = advance b c n e (input_of views h) (tasks, w) in
              let (inputs, handled) = advance-run e (input_of views h) tasks w in
              let rest =
                serve-Ended P happenings next.0 next.1 w' all.1
                  (sym (serve_on e h happenings tasks w later) ∙ ends) in
              record {
                inputs = inputs ++ rest.inputs;
                env = rest.env;
                last =
                    rest.last
                    ∙ ap (λ x. stop b c n rest.env (run b c n rest.inputs x)) handled
                    ∙ ap (stop b c n rest.env) (sym (run-append inputs rest.inputs w));
                at = rest.at;
              }
        ]
