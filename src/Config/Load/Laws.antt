-- ===== src/Config/Load/Laws.antt =====
-- What `load_mode` (src/config.rs) accepts.
use failover.Base.{◌≡◌, ap, subst, List}
use failover.Error.{Result, ok, err, panic, ◌>>◌, >>=-eq-ok, ConfigError}
use failover.Crates.Ipnet.{Ipnet}
use failover.Version.{as_u8}
use failover.Config.{Config, validate_configs}
use failover.Config.Valid.{AreValid, validate_configs_iff}
use failover.Config.Load.{
  Mode, file_mode, cli_mode, Files, Os, load_mode, configure_logging, config_path, ensure_file,
  read_json_config, version_of, cli_configs,
}

module _ (n : Ipnet) (os : Os) where
  checked :
      (configs : List Config) (files : Files) {result : List Config × Files}
      → (validate_configs n configs >> ok (configs, files)) ≡ ok result
      → AreValid n result.0
  checked configs files h =
      let (t, valid, e) = >>=-eq-ok (validate_configs n configs) _ h in
      subst (AreValid n) (ap (λ (r : Result ConfigError (List Config × Files)). configs_of r) e)
        ((validate_configs_iff n configs).0 valid)
    where
      configs_of : Result ConfigError (List Config × Files) → List Config
      configs_of (ok r) = r.0
      configs_of (err e) = configs
      configs_of panic = configs

  -- In both modes, whatever the files hold and the operating system answers, the configurations
  -- that are loaded, if any are, are valid.
  pub load_mode-AreValid :
      (mode : Mode) (files : Files) (configs : List Config) (files' : Files)
      → load_mode n os mode files ≡ ok (configs, files')
      → AreValid n configs
  unfolding load_mode
  load_mode-AreValid (file_mode mode) files configs files' h =
      let path = config_path os mode.filename in
      let (_, _, h1) = >>=-eq-ok (configure_logging os mode.log_file_path) _ h in
      let (created, _, h2) = >>=-eq-ok (ensure_file os path files) _ h1 in
      let (read, _, h3) = >>=-eq-ok (read_json_config os path created) _ h2 in
      checked read created h3
  load_mode-AreValid (cli_mode mode) files configs files' h =
      let (_, _, h1) = >>=-eq-ok (configure_logging os mode.log_file_path) _ h in
      let (version, _, h2) =
        >>=-eq-ok (version_of mode.vrrp_version (failover.Version.try_from mode.vrrp_version)) _
          h1 in
      checked (cli_configs os mode version) files h2
