-- ===== src/Config/Load.antt =====
-- `parse_cli_opts` and the modes of the command line (src/config.rs). The file system is a store of
-- file contents; what the operating system and the JSON parser answer is a record.
pub mod Laws
use failover.Base.{
  ℕ, suc, Bool, true, false, not, List, [], ◌∷◌, ◌++◌, Option, none, some, Str, str_eq,
  if◌then◌else◌,
}
use failover.Error.{
  Result, ok, err, panic, ◌>>=◌, ◌>>◌, Source, ConfigError, FailoverError, file_open, file_create,
  no_parent_directory, parse, log_file_open, logging_setup, invalid_version,
}
use failover.Version.{VrrpVersion, try_from}
use failover.Crates.Ipnet.{Ipnet}
use failover.Config.{Config, JsonConfig, random_vr_name, unwrap_or, fill_defaults, validate_configs}

pub record FileMode : Type 0 where
  pub filename : Option Str
  pub log_file_path : Option Str

pub record CliMode : Type 0 where
  pub name : Option Str
  pub vrid : ℕ
  pub ip_address : List Str
  pub interface_name : Str
  pub priority : ℕ
  pub advert_interval : ℕ
  pub preempt_mode : Bool
  pub vrrp_version : ℕ
  pub log_file_path : Option Str

pub data Mode : Type 0 where
  file_mode : FileMode → Mode
  cli_mode : CliMode → Mode

-- The files there are, by path.
abbrev pub Files : Type 0
Files = List (Str × Str)

-- What the surroundings answer: the variable SNAP_COMMON, the parent of a path, an error of an attempt to
-- create a file (before and after its directory is created), what a `write_all`, whose result is passed
-- over, has put in the new file, an error to open one, the JSON parser's reading
-- of a text as a list or as one object, an error of log4rs, and what rand draws for the
-- i-th name.
pub record Os : Type 0 where
  pub snap_common : Option Str
  pub parent : Str → Option Str
  pub create_fails : (directory_created : Bool) → Str → Option Source
  pub written : (path contents : Str) → Str
  pub open_fails : Str → Option Source
  pub no_such_file : Source
  pub parse_list : Str → Result Source (List JsonConfig)
  pub parse_one : Str → Result Source JsonConfig
  pub log_file_fails : Str → Option Source
  pub logging_fails : Option Source
  pub alphanumerics : ℕ → List ℕ

abbrev find_file : Files → Str → Option Str
find_file [] path = none
find_file (file ∷ files) path = if str_eq file.0 path then some file.1 else find_file files path

abbrev exists : Option Str → Bool
exists none = false
exists (some contents) = true

or_fail : Option Source → (Source → ConfigError) → Result ConfigError (Unit {0})
or_fail none e = ok tt
or_fail (some source) e = err (e source)

log_file : Os → Option Str → Result ConfigError (Unit {0})
unfolding or_fail
log_file os none = ok tt
log_file os (some path) = or_fail (os.log_file_fails path) (log_file_open path)

configure_logging : Os → Option Str → Result ConfigError (Unit {0})
unfolding log_file or_fail
configure_logging os log_file_path =
    log_file os log_file_path >> or_fail os.logging_fails logging_setup

-- `path + "/vrrp-config.json"`, or `/etc/failover/vrrp-config.json`.
abbrev file_name : Str
file_name =
    47 ∷ 118 ∷ 114 ∷ 114 ∷ 112 ∷ 45 ∷ 99 ∷ 111 ∷ 110 ∷ 102 ∷ 105 ∷ 103 ∷ 46 ∷ 106 ∷ 115 ∷ 111 ∷ 110
    ∷ []

abbrev etc_failover : Str
etc_failover = 47 ∷ 101 ∷ 116 ∷ 99 ∷ 47 ∷ 102 ∷ 97 ∷ 105 ∷ 108 ∷ 111 ∷ 118 ∷ 101 ∷ 114 ∷ []

config_path : Os → Option Str → Str
config_path os (some f) = f
config_path os none = default_path os.snap_common
  where
    default_path : Option Str → Str
    default_path none = etc_failover ++ file_name
    default_path (some path) = path ++ file_name

abbrev pub default_json_config : Str
default_json_config =
    10 ∷ 123 ∷ 10 ∷ 32 ∷ 32 ∷ 32 ∷ 32 ∷ 34 ∷ 110 ∷ 97 ∷ 109 ∷ 101 ∷ 34 ∷ 58 ∷ 32 ∷ 34 ∷ 86 ∷ 82 ∷ 95
    ∷ 49 ∷ 34 ∷ 44 ∷ 10 ∷ 32 ∷ 32 ∷ 32 ∷ 32 ∷ 34 ∷ 118 ∷ 114 ∷ 105 ∷ 100 ∷ 34 ∷ 58 ∷ 32 ∷ 53 ∷ 49
    ∷ 44 ∷ 10 ∷ 32 ∷ 32 ∷ 32 ∷ 32 ∷ 34 ∷ 105 ∷ 110 ∷ 116 ∷ 101 ∷ 114 ∷ 102 ∷ 97 ∷ 99 ∷ 101 ∷ 95
    ∷ 110 ∷ 97 ∷ 109 ∷ 101 ∷ 34 ∷ 58 ∷ 32 ∷ 34 ∷ 119 ∷ 108 ∷ 111 ∷ 49 ∷ 34 ∷ 44 ∷ 10 ∷ 32 ∷ 32 ∷ 32
    ∷ 32 ∷ 34 ∷ 105 ∷ 112 ∷ 95 ∷ 97 ∷ 100 ∷ 100 ∷ 114 ∷ 101 ∷ 115 ∷ 115 ∷ 101 ∷ 115 ∷ 34 ∷ 58 ∷ 32
    ∷ 91 ∷ 10 ∷ 32 ∷ 32 ∷ 32 ∷ 32 ∷ 32 ∷ 32 ∷ 32 ∷ 32 ∷ 34 ∷ 49 ∷ 57 ∷ 50 ∷ 46 ∷ 49 ∷ 54 ∷ 56 ∷ 46
    ∷ 49 ∷ 48 ∷ 48 ∷ 46 ∷ 49 ∷ 48 ∷ 48 ∷ 47 ∷ 50 ∷ 52 ∷ 34 ∷ 10 ∷ 32 ∷ 32 ∷ 32 ∷ 32 ∷ 93 ∷ 44 ∷ 10
    ∷ 32 ∷ 32 ∷ 32 ∷ 32 ∷ 34 ∷ 112 ∷ 114 ∷ 105 ∷ 111 ∷ 114 ∷ 105 ∷ 116 ∷ 121 ∷ 34 ∷ 58 ∷ 32 ∷ 49
    ∷ 48 ∷ 49 ∷ 44 ∷ 10 ∷ 32 ∷ 32 ∷ 32 ∷ 32 ∷ 34 ∷ 97 ∷ 100 ∷ 118 ∷ 101 ∷ 114 ∷ 116 ∷ 95 ∷ 105 ∷ 110
    ∷ 116 ∷ 101 ∷ 114 ∷ 118 ∷ 97 ∷ 108 ∷ 34 ∷ 58 ∷ 32 ∷ 49 ∷ 44 ∷ 10 ∷ 32 ∷ 32 ∷ 32 ∷ 32 ∷ 34 ∷ 112
    ∷ 114 ∷ 101 ∷ 101 ∷ 109 ∷ 112 ∷ 116 ∷ 95 ∷ 109 ∷ 111 ∷ 100 ∷ 101 ∷ 34 ∷ 58 ∷ 32 ∷ 116 ∷ 114
    ∷ 117 ∷ 101 ∷ 10 ∷ 125 ∷ 10 ∷ []

-- The file's directory is created, and the file then.
create_again : Os → Str → Files → Option Str → Result ConfigError Files
unfolding or_fail
create_again os path files none = err (no_parent_directory path)
create_again os path files (some dir) =
    or_fail (os.create_fails true path) (file_create path)
    >> ok ((path, os.written path default_json_config) ∷ files)

create : Os → Str → Files → Option Source → Result ConfigError Files
unfolding create_again
create os path files none = ok ((path, os.written path default_json_config) ∷ files)
create os path files (some source) = create_again os path files (os.parent path)

ensure_file : Os → Str → Files → Result ConfigError Files
unfolding create
ensure_file os path files =
    if not (exists (find_file files path))
    then create os path files (os.create_fails false path)
    else ok files

open_found : Os → Str → Option Str → Result ConfigError Str
open_found os path none = err (file_open path os.no_such_file)
open_found os path (some contents) = ok contents

open_file : Os → Str → Files → Result ConfigError Str
unfolding open_found or_fail
open_file os path files =
    or_fail (os.open_fails path) (file_open path) >> open_found os path (find_file files path)

abbrev fill_all : Os → ℕ → List JsonConfig → List Config
fill_all os i [] = []
fill_all os i (json ∷ jsons) =
    fill_defaults (random_vr_name (os.alphanumerics i)) json ∷ fill_all os (suc i) jsons

one_config : Os → Str → Result Source JsonConfig → Result ConfigError (List Config)
one_config os path (ok json) = ok (fill_defaults (random_vr_name (os.alphanumerics 0)) json ∷ [])
one_config os path (err source) = err (parse path source)
one_config os path panic = panic

single_file_config : Os → Str → Files → Result ConfigError (List Config)
unfolding open_file one_config
single_file_config os path files = do
  contents ← open_file os path files
  one_config os path (os.parse_one contents)

list_or_one : Os → Str → Files → Result Source (List JsonConfig) → Result ConfigError (List Config)
unfolding single_file_config
list_or_one os path files (ok jsons) = ok (fill_all os 0 jsons)
list_or_one os path files (err source) = single_file_config os path files
list_or_one os path files panic = panic

unfoldable pub read_json_config : Os → Str → Files → Result ConfigError (List Config)
unfolding open_file list_or_one
read_json_config os path files = do
  contents ← open_file os path files
  list_or_one os path files (os.parse_list contents)

abbrev version_of :
    ℕ → Result failover.Error.PacketError VrrpVersion → Result ConfigError VrrpVersion
version_of number (ok version) = ok version
version_of number (err e) = err (invalid_version number)
version_of number panic = panic

abbrev pub cli_configs : Os → CliMode → VrrpVersion → List Config
cli_configs os mode version =
    record {
      name = unwrap_or mode.name (random_vr_name (os.alphanumerics 0));
      vrid = mode.vrid;
      ip_addresses = mode.ip_address;
      interface_name = mode.interface_name;
      priority = mode.priority;
      advert_interval = mode.advert_interval;
      preempt_mode = mode.preempt_mode;
      version = version;
    }
    ∷ []

module _ (n : Ipnet) (os : Os) where
  -- The configurations, and the files after the call.
  load_file : FileMode → Files → Result ConfigError (List Config × Files)
  unfolding configure_logging config_path ensure_file read_json_config validate_configs
  load_file mode files =
      let path = config_path os mode.filename in
      configure_logging os mode.log_file_path
      >> (ensure_file os path files >>= λ files'. read_json_config os path files' >>= λ configs.
          validate_configs n configs >> ok (configs, files'))

  load_cli : CliMode → Files → Result ConfigError (List Config × Files)
  unfolding configure_logging try_from validate_configs
  load_cli mode files =
      configure_logging os mode.log_file_path
      >> (version_of mode.vrrp_version (try_from mode.vrrp_version) >>= λ version.
          validate_configs n (cli_configs os mode version)
          >> ok (cli_configs os mode version, files))

  unfoldable pub load_mode : Mode → Files → Result ConfigError (List Config × Files)
  unfolding load_file load_cli
  load_mode (file_mode mode) files = load_file mode files
  load_mode (cli_mode mode) files = load_cli mode files
