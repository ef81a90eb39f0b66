-- ===== src/Scenarios/Configs.antt =====
-- The configuration at concrete inputs (src/config.rs, src/general.rs).
use failover.Base.{◌≡◌, ◌↔◌, refl, true, [], ◌∷◌, none, some}
use failover.Error.{ok, err}
use failover.Version.{v2, v3}
use failover.Config.{Config, validate_configs}
use failover.Config.Valid.{AreValid, validate_configs_iff}
use failover.Config.Load.{CliMode, cli_mode, Os, load_mode}
use failover.Scenarios.Crates.{numbers}
use failover.Scenarios.Routers.{virtual_ip}

-- The address as the tests print it: its two numbers.
abbrev conf : Config
conf = record {
  name = 86 ∷ [];
  vrid = 51;
  ip_addresses = (virtual_ip ∷ 24 ∷ []) ∷ [];
  interface_name = 101 ∷ [];
  priority = 101;
  advert_interval = 1;
  preempt_mode = true;
  version = v2;
}

validate_configs_iff_example :
    (validate_configs numbers (conf ∷ conf ∷ []) ≡ ok tt) ↔ AreValid numbers (conf ∷ conf ∷ [])
validate_configs_iff_example = validate_configs_iff numbers (conf ∷ conf ∷ [])

-- An interval of zero seconds passes the checks.
zero_interval-accepted :
    validate_configs numbers (record conf { advert_interval = 0; version = v3 } ∷ []) ≡ ok tt
unfolding validate_configs
zero_interval-accepted = refl

abbrev os : Os
os = record {
  snap_common = none;
  parent = λ path. none;
  create_fails = λ again path. none;
  written = λ path contents. contents;
  open_fails = λ path. none;
  no_such_file = 2;
  parse_list = λ text. err 1;
  parse_one = λ text. err 1;
  log_file_fails = λ path. none;
  logging_fails = none;
  alphanumerics = λ i. 97 ∷ i ∷ [];
}

abbrev cli : CliMode
cli = record {
  name = some (86 ∷ []);
  vrid = 51;
  ip_address = (virtual_ip ∷ 24 ∷ []) ∷ [];
  interface_name = 101 ∷ [];
  priority = 101;
  advert_interval = 1;
  preempt_mode = true;
  vrrp_version = 2;
  log_file_path = none;
}

cli-loaded : load_mode numbers os (cli_mode cli) [] ≡ ok (conf ∷ [], [])
unfolding load_mode
cli-loaded = refl
