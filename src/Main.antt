-- ===== src/Main.antt =====
-- The program (src/bin/failover.rs) and `parse_cli_opts` (src/config.rs): the instances that it
-- starts, over what the operating system answers while the configuration is loaded.
pub mod Started
pub mod Apart
pub mod Links
pub mod Shared
pub mod Elects
use failover.Base.{ℕ, List, [], ◌∷◌, map}
use failover.Error.{Result, ok, err, panic, ConfigError, FailoverError}
use failover.Crates.Ipnet.{Ipnet}
use failover.Router.{VirtualRouter}
use failover.Config.{Config}
use failover.Config.Load.{Os, Mode, Files, load_mode}
use failover.General.{config_to_vr}

-- `?` into the program's error.
abbrev or_config : Result ConfigError (List Config × Files) → Result FailoverError (List Config)
or_config (ok (configs, files)) = ok configs
or_config (err e) = err (FailoverError.config e)
or_config panic = panic

unfoldable pub parse_cli_opts : Ipnet → Os → Mode → Files → Result FailoverError (List Config)
unfolding load_mode
parse_cli_opts n os mode files = or_config (load_mode n os mode files)

-- How the program goes on: it exits with a code, a panic ends it, or it runs these routers, each in a
-- task of its own, until all of their tasks end.
pub data Program : Type 0 where
  exits : (code : ℕ) → Program
  panics : Program
  spawns : List VirtualRouter → Program

on_routers : List VirtualRouter → Program
on_routers [] = exits 0
on_routers (vrouter ∷ vrouters) = spawns (vrouter ∷ vrouters)

on_configs : Ipnet → Result FailoverError (List Config) → Program
unfolding on_routers config_to_vr
on_configs n (ok configs) = on_routers (map (config_to_vr n) configs)
on_configs n (err e) = exits 1
on_configs n panic = panics

unfoldable pub main : Ipnet → Os → Mode → Files → Program
unfolding parse_cli_opts on_configs
main n os mode files = on_configs n (parse_cli_opts n os mode files)
