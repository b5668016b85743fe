-- ===== src/Command/Structs.antt =====
-- The configuration structs that the maps of files of pkg/common/cmd/api.go and user.go point to,
-- and the loading of a file into the struct that its name points to.
use openim_project_template.Base.{
  String, Option, none, some, List, [], Res, ok, err, panics, string_eq, false, ◌≡◌, refl, arith,
}
use openim_project_template.Base.Dict.{Dict, lookup}
use openim_project_template.Config.Settings
use openim_project_template.Config.Env.{config_env_prefix_map}
use openim_project_template.Config.Load.{Viper, load}
use openim_project_template.Base.{ℕ}

-- The type of a struct that the code loads a file into.
pub data Kind : Type 0 where
  api user_rpc mongo share discovery log : Kind

pub data Struct : Type 0 where
  an_api : Settings.Api → Struct
  a_user_rpc : Settings.UserRpc → Struct
  a_mongo : Settings.Mongo → Struct
  a_share : Settings.Share → Struct
  a_discovery : Settings.Discovery → Struct
  a_log : Settings.Log → Struct

-- What the libraries and the environment answer: viper for each struct, `filepath.Join`,
-- `os.Getenv`, the text of code points, and the two calls of the log library.
pub record Platform : Type 0 where
  pub api_viper : Viper Settings.Api
  pub user_rpc_viper : Viper Settings.UserRpc
  pub mongo_viper : Viper Settings.Mongo
  pub share_viper : Viper Settings.Share
  pub discovery_viper : Viper Settings.Discovery
  pub log_viper : Viper Settings.Log
  pub join : String → String → String
  pub getenv : String → String
  pub text : List ℕ → String
  -- `log.InitLoggerFromConfig`, by the logger's prefix
  pub init_logger : String → Settings.Log → Res (Unit {0})
  -- `log.InitConsoleLogger`
  pub init_console : Settings.Log → Res (Unit {0})

abbrev pub map_res : {A B : Type 0} → (A → B) → Res A → Res B
map_res f (ok a) = ok (f a)
map_res f (err e) = err e
map_res f panics = panics

pub ok-of_map_res :
    {A B : Type 0} (f : A → B) (r : Res A) (b : B)
    → map_res f r ≡ ok b
    → (a : A) × (r ≡ ok a) × (b ≡ f a)
ok-of_map_res f (ok a) b h = (a, refl, ground arith)
ok-of_map_res f (err e) b h = absurd (ground arith)
ok-of_map_res f panics b h = absurd (ground arith)

module _ (P : Platform) where
  -- `ConfigEnvPrefixMap[configFileName]`
  abbrev text_or_empty : Option (List ℕ) → String
  text_or_empty none = ""
  text_or_empty (some prefix) = P.text prefix

  abbrev env_prefix_of : String → String
  env_prefix_of file = text_or_empty (lookup file config_env_prefix_map)

  -- `config.Load` of a file into a struct of the type that `v` decodes.
  unfoldable pub load_file : {A : Type 0} → Viper A → String → String → Res A
  load_file v directory file = load v P.join P.getenv directory file (env_prefix_of file)

  abbrev pub load_kind : Kind → String → String → Res Struct
  load_kind api directory file = map_res an_api (load_file P.api_viper directory file)
  load_kind user_rpc directory file = map_res a_user_rpc (load_file P.user_rpc_viper directory file)
  load_kind mongo directory file = map_res a_mongo (load_file P.mongo_viper directory file)
  load_kind share directory file = map_res a_share (load_file P.share_viper directory file)
  load_kind discovery directory file =
      map_res a_discovery (load_file P.discovery_viper directory file)
  load_kind log directory file = map_res a_log (load_file P.log_viper directory file)

  -- The struct of a file by the command's map; the only other file that is loaded is that of the
  -- log configuration.
  abbrev kind_or_log : Option Kind → Kind
  kind_or_log none = log
  kind_or_log (some k) = k

  abbrev pub load_into : Dict String Kind → String → String → Res Struct
  load_into structs directory file = load_kind (kind_or_log (lookup file structs)) directory file

-- The structs that nothing was loaded into.
abbrev zero_prometheus : Settings.Prometheus
zero_prometheus = record { enable = false; ports = [] }

abbrev zero_api : Settings.Api
zero_api = record {
  secret = "";
  listen_ip = "";
  ports = [];
  prometheus = zero_prometheus;
  grafana_url = "";
}

abbrev zero_user_rpc : Settings.UserRpc
zero_user_rpc = record {
  register_ip = "";
  listen_ip = "";
  ports = [];
  prometheus = zero_prometheus;
}

abbrev zero_mongo : Settings.Mongo
zero_mongo = record {
  uri = "";
  address = [];
  database = "";
  username = "";
  password = "";
  max_pool_size = 0;
  max_retry = 0;
}

abbrev zero_share : Settings.Share
zero_share = record { user = "" }

abbrev zero_discovery : Settings.Discovery
zero_discovery = record {
  enable = "";
  etcd = record { root_directory = ""; address = []; username = ""; password = "" };
}

abbrev zero_log : Settings.Log
zero_log = record {
  storage_location = "";
  rotation_time = 0;
  remain_rotation_count = 0;
  remain_log_level = 0;
  is_stdout = false;
  is_json = false;
  is_simplify = false;
  with_stack = false;
}

-- The fields of the configurations, as the structs that their pointers point to.
abbrev pub api_in : Option Struct → Settings.Api
api_in (some (an_api c)) = c
api_in _ = zero_api

abbrev pub user_rpc_in : Option Struct → Settings.UserRpc
user_rpc_in (some (a_user_rpc c)) = c
user_rpc_in _ = zero_user_rpc

abbrev pub mongo_in : Option Struct → Settings.Mongo
mongo_in (some (a_mongo c)) = c
mongo_in _ = zero_mongo

abbrev pub share_in : Option Struct → Settings.Share
share_in (some (a_share c)) = c
share_in _ = zero_share

abbrev pub discovery_in : Option Struct → Settings.Discovery
discovery_in (some (a_discovery c)) = c
discovery_in _ = zero_discovery

abbrev pub log_in : Option Struct → Settings.Log
log_in (some (a_log c)) = c
log_in _ = zero_log
