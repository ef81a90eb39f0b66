-- ===== src/Main/Started.antt =====
-- The configurations of the routers that the program (src/bin/failover.rs) starts.
use failover.Base.{◌≡◌, refl, subst, List, [], ◌∷◌, ◌++◌, map, All}
use failover.Error.{Result, ok, err, panic, ConfigError}
use failover.Crates.Ipnet.{Ipnet}
use failover.Router.{VirtualRouter}
use failover.Config.{Config}
use failover.Config.Valid.{IsValidConfig, AreValid}
use failover.Config.Load.{Os, Mode, Files, load_mode}
use failover.Config.Load.Laws.{load_mode-AreValid}
use failover.General.{config_to_vr}
use failover.Main.{spawns, or_config, parse_cli_opts, on_routers, on_configs, main}

pub All-append_self :
    (P : VirtualRouter → Type 0) (before after : List VirtualRouter) (vr : VirtualRouter)
    → All P (before ++ vr ∷ after)
    → P vr
All-append_self P [] after vr h = h.0
All-append_self P (x ∷ before) after vr h = All-append_self P before after vr h.1

module _ (n : Ipnet) where
  on_routers-spawns :
      (routers vrs : List VirtualRouter) → on_routers routers ≡ spawns vrs → routers ≡ vrs
  unfolding on_routers
  on_routers-spawns [] vrs h = cc
  on_routers-spawns (x ∷ routers) vrs h = cc

  -- The routers are those of valid configurations.
  pub main-AreValid :
      (os : Os) (mode : Mode) (files : Files) (vrs : List VirtualRouter)
      → main n os mode files ≡ spawns vrs
      → (configs : List Config) × AreValid n configs × (map (config_to_vr n) configs ≡ vrs)
  unfolding main parse_cli_opts on_configs
  main-AreValid os mode files vrs h = go (load_mode n os mode files) refl h
    where
      go :
          (r : Result ConfigError (List Config × Files))
          → load_mode n os mode files ≡ r
          → on_configs n (or_config r) ≡ spawns vrs
          → (configs : List Config) × AreValid n configs × (map (config_to_vr n) configs ≡ vrs)
      go (ok (configs, files')) loaded h = (
        configs,
        load_mode-AreValid n os mode files configs files' loaded,
        on_routers-spawns (map (config_to_vr n) configs) vrs h,
      )
      go (err e) loaded h = cc
      go panic loaded h = cc

  AreValid-All :
      (P : VirtualRouter → Type 0) (configs : List Config)
      → ((conf : Config) → IsValidConfig n conf → P (config_to_vr n conf))
      → AreValid n configs
      → All P (map (config_to_vr n) configs)
  AreValid-All P [] h valid = tt
  AreValid-All P (conf ∷ configs) h valid = (h conf valid.0, AreValid-All P configs h valid.2)

  -- What holds of the router of every valid configuration holds of each that is started.
  pub spawned_holds :
      (P : VirtualRouter → Type 0) (os : Os) (mode : Mode) (files : Files)
      (before after : List VirtualRouter) (vr : VirtualRouter)
      → ((conf : Config) → IsValidConfig n conf → P (config_to_vr n conf))
      → main n os mode files ≡ spawns (before ++ vr ∷ after)
      → P vr
  spawned_holds P os mode files before after vr h started =
      let (configs, valid, same) = main-AreValid os mode files (before ++ vr ∷ after) started in
      All-append_self P before after vr (subst (All P) same (AreValid-All P configs h valid))
