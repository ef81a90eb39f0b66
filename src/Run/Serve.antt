-- ===== src/Run/Serve.antt =====
-- `run` (src/lib.rs) as a whole: the setup, the tasks that it spawns, and what it does until a signal,
-- or the end of all its tasks, makes it stop.
pub mod Ends
pub mod Shutdown
pub mod Removal
pub mod Course
pub mod Deaf
use failover.Base.{
  ℕ, Bool, true, false, not, ◌&&◌, ◌||◌, List, [], ◌∷◌, Option, none, some, if◌then◌else◌,
}
use failover.Error.{
  Result, ok, err, panic, ◌>>=◌, ◌>>◌, Source, NetworkError, signal_handler, FailoverError, network,
}
use failover.Net.{NetworkInterface}
use failover.Crates.Buffer.{Buffer}
use failover.Crates.Checksum.{Checksum}
use failover.Crates.Ipnet.{Ipnet}
use failover.Router.{VirtualRouter, Env}
use failover.Network.Listeners.{Listener}
use failover.CoreTasks.Steps.{
  Input, vrrp, vrrp_v6, arp, ndp, tick, started, stopped, World, panics, handle, step,
}
use failover.CoreTasks.Processes.{
  Sockets, Views, Happening, signal, input_of, start_vrrp, start_vrrp_v6, start_arp, start_ndp,
}
use failover.Run.{Host, TaskItems, set_up, first_notify}

-- Which of the tasks that wait for packets still run.
pub record Tasks : Type 0 where
  pub vrrp : Bool
  pub vrrp_v6 : Bool
  pub arp : Bool
  pub ndp : Bool

-- A task whose socket is not bound ends; nothing reads its result.
goes_on : Result NetworkError (Option Listener) → Bool
goes_on (ok (some listener)) = true
goes_on (ok none) = false
goes_on (err e) = false
goes_on panic = false

abbrev is_some : Option NetworkInterface → Bool
is_some none = false
is_some (some interface) = true

-- The tasks after each was spawned; those of the IPv6 side only where there is one.
unfoldable pub spawn_all : Bool → Sockets → TaskItems → Tasks
unfolding goes_on start_vrrp start_vrrp_v6 start_arp start_ndp
spawn_all big_endian s items = record {
  vrrp = goes_on (start_vrrp s items.parent_interface);
  vrrp_v6 =
      is_some items.interface_v6
      && goes_on (start_vrrp_v6 s items.interface_v6 items.parent_interface);
  arp = goes_on (start_arp big_endian s items.interface);
  ndp = is_some items.interface_v6 && goes_on (start_ndp s items.interface_v6);
}

-- Whether the task that the input is for runs.
abbrev pub runs : Tasks → Bool → Input → Bool
runs tasks ticking (vrrp received) = tasks.vrrp
runs tasks ticking (vrrp_v6 received) = tasks.vrrp_v6
runs tasks ticking (arp received) = tasks.arp
runs tasks ticking (ndp received) = tasks.ndp
runs tasks ticking tick = ticking
runs tasks ticking started = false
runs tasks ticking stopped = false

-- A task ends when it panics.
abbrev end_if : Bool → Input → Tasks → Tasks
end_if ends (vrrp received) tasks = record tasks { vrrp = not ends && tasks.vrrp }
end_if ends (vrrp_v6 received) tasks = record tasks { vrrp_v6 = not ends && tasks.vrrp_v6 }
end_if ends (arp received) tasks = record tasks { arp = not ends && tasks.arp }
end_if ends (ndp received) tasks = record tasks { ndp = not ends && tasks.ndp }
end_if ends tick tasks = tasks
end_if ends started tasks = tasks
end_if ends stopped tasks = tasks

-- `tasks_set` is empty.
abbrev pub all_ended : Tasks → World → Bool
all_ended tasks w = not (tasks.vrrp || tasks.vrrp_v6 || tasks.arp || tasks.ndp || w.ticking)

abbrev pub is_signal : Happening → Bool
is_signal signal = true
is_signal _ = false

-- `run` still waits, or it has come to its end.
pub data Progress : Type 0 where
  serving : Tasks → World → Progress
  finished : World → Progress

abbrev check_signals : Option Source → Result NetworkError (Unit {0})
check_signals none = ok tt
check_signals (some source) = err (signal_handler source)

-- `?` into the program's error.
abbrev pub or_network {ℓ} : {A : Type ℓ} → Result NetworkError A → Result FailoverError A
or_network (ok a) = ok a
or_network (err e) = err (network e)
or_network panic = panic

module _ (b : Buffer) (c : Checksum) (n : Ipnet) where
  -- The task of the input handles it.
  unfoldable pub advance : Env → Option Input → Tasks × World → Tasks × World
  unfolding handle step
  advance env none (tasks, w) = (tasks, w)
  advance env (some input) (tasks, w) =
      if runs tasks w.ticking input
      then (
        end_if (panics (handle b c n env input w).result) input tasks,
        step b c n (env, input) w,
      )
      else (tasks, w)

  -- The shutdown; an error of the notification is only logged.
  unfoldable pub stop : Env → World → World
  unfolding step
  stop env w = step b c n (env, stopped) w

  module _ (views : Views) where
    -- `select!`, until the signal comes or no task is left.
    unfoldable pub serve : List (Env × Happening) → Tasks × World → Progress
    unfolding advance stop input_of
    serve [] (tasks, w) = serving tasks w
    serve ((env, happening) ∷ later) (tasks, w) =
        let rest = serve later (advance env (input_of views happening) (tasks, w)) in
        if is_signal happening || all_ended tasks w then finished (stop env w) else rest

    unfoldable pub run :
        Host
        → Sockets
        → (signals : Option Source) → List (Env × Happening)
        → VirtualRouter
        → Result FailoverError Progress
    unfolding set_up first_notify spawn_all serve
    run host s signals happenings vrouter = do
      items ← or_network (set_up host vrouter)
      w ← or_network (first_notify n host items)
      or_network (check_signals signals)
      ok (serve happenings (spawn_all host.on_startup.big_endian s items, w))
