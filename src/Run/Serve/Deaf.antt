-- ===== src/Run/Serve/Deaf.antt =====
-- What `run` (src/lib.rs) does when none of its sockets can be opened (src/core_tasks.rs).
use failover.Base.{
  ℕ, ◌≡◌, ◌⊎◌, ◌≤◌, ◌<◌, refl, ap, ◌∙◌, Bool, true, false, ◌||◌, List, [], ◌∷◌, ◌++◌, Option, none,
  some, arith, All, Bool-cases, inl, inr,
}
use failover.Error.{Source}
use failover.Crates.Buffer.{Buffer}
use failover.Crates.Checksum.{Checksum}
use failover.Crates.Ipnet.{Ipnet}
use failover.StateMachine.{backup, master}
use failover.Router.{VirtualRouter, Env}
use failover.Observer.Laws.{IsConsistent}
use failover.CoreTasks.Timers.{HasMac, Expires, Ready, early_tick, silent_backup_takes_over}
use failover.CoreTasks.Steps.{
  Input, vrrp, vrrp_v6, arp, ndp, tick, started, stopped, World, step, run,
}
use failover.CoreTasks.Processes.{Sockets, Views, Happening, ticks, input_of}
use failover.Run.{TaskItems}
use failover.Run.Serve.{Tasks, is_signal, all_ended, serving, advance, serve, spawn_all}
use failover.Run.Serve.Ends.{serve_on}

-- The kernel refuses each of the raw sockets.
pub record RefusesAll (s : Sockets) (source : Source) : Type 0 where
  pub vrrp : s.vrrp.creation ≡ some source
  pub vrrp_v6 : s.vrrp_v6.creation ≡ some source
  pub arp : s.arp.creation ≡ some source
  pub ndp : s.ndp.creation ≡ some source

abbrev pub deaf : Tasks
deaf = record { vrrp = false; vrrp_v6 = false; arp = false; ndp = false }

spawn_all-deaf :
    (big_endian : Bool) (s : Sockets) (items : TaskItems) (source : Source)
    → RefusesAll s source
    → spawn_all big_endian s items ≡ deaf
unfolding spawn_all
spawn_all-deaf big_endian s items source refused =
    ground (arith, refused.vrrp, refused.vrrp_v6, refused.arp, refused.ndp)

module _ (b : Buffer) (c : Checksum) (n : Ipnet) where
  -- Without the other tasks only the timer's goes on.
  advance-deaf :
      (env : Env) (input : Option Input) (w : World)
      → (advance b c n env input (deaf, w) ≡ (deaf, w))
        ⊎ (advance b c n env input (deaf, w) ≡ (deaf, step b c n (env, tick) w))
  unfolding advance
  advance-deaf env none w = inl refl
  advance-deaf env (some (vrrp received)) w = inl refl
  advance-deaf env (some (vrrp_v6 received)) w = inl refl
  advance-deaf env (some (arp received)) w = inl refl
  advance-deaf env (some (ndp received)) w = inl refl
  advance-deaf env (some started) w = inl refl
  advance-deaf env (some stopped) w = inl refl
  advance-deaf env (some tick) w = elim (Bool-cases w.ticking) [
    | inl on ↦ inr (rw on refl)
    | inr off ↦ inl (rw off refl)
  ]

  module _ (views : Views) (vr : VirtualRouter) (deadline : ℕ) (expires : Expires vr deadline) where
    abbrev IsReady : World → Type 0
    IsReady = Ready b c n vr deadline expires

    -- Nothing is heard before the deadline, and no task but the timer's waits.
    pub serve-deaf :
        (before later : List (Env × Happening)) (w : World)
        → All (λ h. (is_signal h.1 ≡ false) × (h.0.now ≤ deadline)) before
        → IsReady w
        → (w' : World) × IsReady w'
          × (serve b c n views (before ++ later) (deaf, w) ≡ serve b c n views later (deaf, w'))
    serve-deaf [] later w early ready = (w, ready, refl)
    serve-deaf ((env, h) ∷ before) later w early ready =
        let on : (is_signal h || all_ended deaf w) ≡ false = ground (arith, early.0.0, ready.1) in
        elim (advance-deaf env (input_of views h) w) [
          | inl same ↦
              let (w', ready', rest) = serve-deaf before later w early.1 ready in
              (
                w',
                ready',
                serve_on b c n views env h _ deaf w on
                    ∙ ap (serve b c n views (before ++ later)) same
                    ∙ rest,
              )
          | inr next ↦
              let ready1 = early_tick b c n vr deadline expires env w early.0.1 ready in
              let (w', ready', rest) =
                serve-deaf before later (step b c n (env, tick) w) early.1 ready1 in
              (
                w',
                ready',
                serve_on b c n views env h _ deaf w on
                    ∙ ap (serve b c n views (before ++ later)) next
                    ∙ rest,
              )
        ]

    last_tick :
        (late : Env) (w : World)
        → IsReady w
        → serve b c n views ((late, ticks) ∷ []) (deaf, w)
          ≡ serving deaf (run b c n ((late, tick) ∷ []) w)
    unfolding serve advance run input_of
    last_tick late w ready = rw ready.1 refl

    -- A BACKUP for which the kernel refuses every raw socket, so that all tasks but the timer's
    -- end at once, does not stop: whatever happens up to its deadline, but no signal, the
    -- advertisements of a MASTER included, at the first tick after it the router becomes MASTER
    -- and goes on so, if its timer is the one of its state, its lock is not poisoned and its
    -- interface has a MAC address.
    pub deaf_takes_over :
        (s : Sockets) (items : TaskItems) (source : Source) (big_endian : Bool)
        (before : List (Env × Happening)) (late : Env) (mac : List ℕ) (w : World)
        → RefusesAll s source
        → w.mutex ≡ record { poisoned = false; router = vr }
        → w.ticking ≡ true
        → IsConsistent vr.fsm
        → vr.fsm.state ≡ backup
        → All (λ h. (is_signal h.1 ≡ false) × (h.0.now ≤ deadline)) before
        → deadline < late.now
        → HasMac late vr mac
        → (w' : World) × (serve b c n views
              (before ++ (late, ticks) ∷ [])
              (spawn_all big_endian s items, w)
            ≡ serving deaf w')
          × (w'.mutex.router.fsm.state ≡ master)
    deaf_takes_over s items source big_endian before late mac w refused usable ticking consistent
          waits early passed there =
        let (w1, ready, served) =
          serve-deaf before ((late, ticks) ∷ []) w early (usable, ticking) in
        (
          run b c n ((late, tick) ∷ []) w1,
          ap (λ (t : Tasks). serve b c n views (before ++ (late, ticks) ∷ []) (t, w))
                (spawn_all-deaf big_endian s items source refused)
              ∙ served
              ∙ last_tick late w1 ready,
          silent_backup_takes_over b c n vr deadline expires [] late mac w1 ready.0 ready.1
              consistent waits tt passed there,
        )
