-- ===== src/Command/UserRpcCmd.antt =====
-- The process of the user service: pkg/common/cmd/user.go and
-- cmd/openim-rpc/openim-rpc-user/main.go.
pub mod Ready
pub mod Configured
use openim_project_template.Base.{
  String, string_eq, ◌≡◌, refl, List, [], ◌∷◌, Res, ok, err, panics, Act,
}
use openim_project_template.Base.Dict.{Dict, lookup}
use openim_project_template.Tools.{DataUtil, Index}
use openim_project_template.Config.Settings
use openim_project_template.Config.Env.{
  openim_rpc_user_cfg_file_name, mongodb_config_file_name, discovery_config_filename,
  share_file_name, log_config_file_name,
}
use openim_project_template.Startup.{Log}
use openim_project_template.Startup.Rpc
use openim_project_template.Metrics.Grpc.{user_register_counter}
use openim_project_template.User.Server.Start
use openim_project_template.User.Server.Start.{Driver}
use openim_project_template.Command.{RootCmd, Flags, with_config_map}
use openim_project_template.Command.Structs
use openim_project_template.Command.Structs.{
  Kind, Struct, Platform, a_user_rpc, a_mongo, a_discovery, a_share, a_log, load_file, load_into,
  map_res, user_rpc_in, mongo_in, share_in, discovery_in,
}
use openim_project_template.Command.Process.{
  Process, Cmd, Cobra, new_root_cmd, in_log, Exit, exit_of,
}

-- The map of `NewUserRpcCmd`, from file names to the structs of its configuration.
abbrev pub user_rpc_structs : Dict String Kind
user_rpc_structs =
    (openim_rpc_user_cfg_file_name, Structs.user_rpc)
    ∷ (mongodb_config_file_name, Structs.mongo)
    ∷ (share_file_name, Structs.share)
    ∷ (discovery_config_filename, Structs.discovery)
    ∷ []

-- `user.Config`
pub record Config : Type 0 where
  pub rpc : Settings.UserRpc
  pub mongo : Settings.Mongo
  pub share : Settings.Share
  pub discovery : Settings.Discovery

abbrev pub config_in : Dict String Struct → Config
config_in loaded = record {
  rpc = user_rpc_in (lookup openim_rpc_user_cfg_file_name loaded);
  mongo = mongo_in (lookup mongodb_config_file_name loaded);
  share = share_in (lookup share_file_name loaded);
  discovery = discovery_in (lookup discovery_config_filename loaded);
}

module _ (P : Platform) (D : DataUtil) (w : Rpc.World) (M : Driver) where
  -- What the handlers are registered over is not part of the answer.
  abbrev answer_of_start : Res (Start.UserMgo M) → Res (Unit {0})
  answer_of_start (ok u) = ok tt
  answer_of_start (err e) = err e
  answer_of_start panics = panics

  -- `startrpc.Start` with `user.Start`
  unfoldable pub start_with : Config → Index → Act Log (Unit {0})
  start_with c index =
      Rpc.start D (record w { rpc_fn = answer_of_start (Start.start M c.mongo) }) c.discovery
        c.rpc.prometheus c.rpc.listen_ip c.rpc.register_ip c.rpc.ports index c.share.user
        (user_register_counter ∷ [])

  -- `runE`
  abbrev pub run_e : RootCmd Struct → Act Log (Unit {0})
  run_e r = start_with (config_in r.loaded) r.index

  -- `NewUserRpcCmd`; `order` is the order in which the map is ranged over.
  unfoldable pub new_user_rpc_cmd : List String → Cmd
  new_user_rpc_cmd order =
      new_root_cmd P user_rpc_structs (with_config_map order ∷ []) (in_log run_e)

  -- `Exec`
  unfoldable pub exec : Cobra → List String → List String → Act Process (Unit {0})
  unfolding new_user_rpc_cmd
  exec K order args s = K.execute (new_user_rpc_cmd order) args s

  -- `main`
  unfoldable pub main : Cobra → List String → List String → Process → Exit
  unfolding exec
  main K order args s = exit_of (exec K order args s).0

module _ (P : Platform) (directory : String) where
  pub read_user_rpc :
      load_into P user_rpc_structs directory openim_rpc_user_cfg_file_name
      ≡ map_res a_user_rpc (load_file P P.user_rpc_viper directory openim_rpc_user_cfg_file_name)
  unfolding lookup string_eq
  read_user_rpc = refl

  pub read_mongo :
      load_into P user_rpc_structs directory mongodb_config_file_name
      ≡ map_res a_mongo (load_file P P.mongo_viper directory mongodb_config_file_name)
  unfolding lookup string_eq
  read_mongo = refl

  pub read_share :
      load_into P user_rpc_structs directory share_file_name
      ≡ map_res a_share (load_file P P.share_viper directory share_file_name)
  unfolding lookup string_eq
  read_share = refl

  pub read_discovery :
      load_into P user_rpc_structs directory discovery_config_filename
      ≡ map_res a_discovery (load_file P P.discovery_viper directory discovery_config_filename)
  unfolding lookup string_eq
  read_discovery = refl

  pub read_log :
      load_into P user_rpc_structs directory log_config_file_name
      ≡ map_res a_log (load_file P P.log_viper directory log_config_file_name)
  unfolding lookup string_eq
  read_log = refl

  -- The flags name the directory and an index, all five files are loaded, and both loggers start.
  pub record IsConfigured (f : Flags) (index : Index) (c : Config) : Type 0 where
    pub has_directory : f.conf ≡ ok directory
    pub has_index : f.index ≡ ok index
    pub has_rpc : load_file P P.user_rpc_viper directory openim_rpc_user_cfg_file_name ≡ ok c.rpc
    pub has_mongo : load_file P P.mongo_viper directory mongodb_config_file_name ≡ ok c.mongo
    pub has_share : load_file P P.share_viper directory share_file_name ≡ ok c.share
    pub has_discovery :
        load_file P P.discovery_viper directory discovery_config_filename ≡ ok c.discovery
    pub has_log :
        (l : Settings.Log) × (load_file P P.log_viper directory log_config_file_name ≡ ok l)
        × (P.init_logger "openim-service-log" l ≡ ok tt)
        × (P.init_console l ≡ ok tt)
