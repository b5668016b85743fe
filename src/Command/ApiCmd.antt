-- ===== src/Command/ApiCmd.antt =====
-- The API process: pkg/common/cmd/api.go and cmd/openim-api/main.go.
pub mod Configured
use openim_project_template.Base.{
  String, string_eq, nat_eq, ◌≡◌, ◌↔◌, ◌⊎◌, refl, Bool, true, false, ◌||◌, ◌==◌, List, [], ◌∷◌,
  ◌++◌, Res, ok, Act, arith, inl, inr, All, contains, contains-append, All-of_contains, some, ap,
  sym, ◌∙◌,
}
use openim_project_template.Base.Dict.{Dict, lookup}
use openim_project_template.Tools.{DataUtil, Index}
use openim_project_template.Config.Settings
use openim_project_template.Config.Env.{
  openim_api_cfg_file_name, discovery_config_filename, share_file_name, log_config_file_name,
}
use openim_project_template.Startup.{Log}
use openim_project_template.Startup.Api
use openim_project_template.Command.{
  RootCmd, Flags, CmdOpts, with_config_map, apply_options, apply_all, api_config_map,
}
use openim_project_template.Command.Structs
use openim_project_template.Command.Structs.{
  Kind, Struct, Platform, an_api, a_discovery, a_share, a_log, load_file, load_into, map_res,
  api_in, share_in, discovery_in, ok-of_map_res,
}
use openim_project_template.Command.Process.{
  Process, Cmd, Cobra, IsLawful, flags, help, new_root_cmd, in_log, Exit, finished, exit_of,
  exit_of-finished_iff, file_logger, console_logger,
}
use openim_project_template.Command.Execution.{Prepares, configured, execute-ok_iff, execute_opens}

-- The map of `NewApiCmd`, from file names to the structs of its configuration.
abbrev pub api_structs : Dict String Kind
api_structs =
    (openim_api_cfg_file_name, Structs.api)
    ∷ (discovery_config_filename, Structs.discovery)
    ∷ (share_file_name, Structs.share)
    ∷ []

abbrev pub config_in : Dict String Struct → Api.Config
config_in loaded = record {
  api = api_in (lookup openim_api_cfg_file_name loaded);
  discovery = discovery_in (lookup discovery_config_filename loaded);
  share = share_in (lookup share_file_name loaded);
}

module _ (P : Platform) (D : DataUtil) (w : Api.World) where
  -- `runE`
  abbrev pub run_e : RootCmd Struct → Act Log (Unit {0})
  run_e r = Api.start D w (config_in r.loaded) r.index

  -- `NewApiCmd`; `order` is the order in which the map is ranged over.
  unfoldable pub new_api_cmd : List String → Cmd
  new_api_cmd order = new_root_cmd P api_structs (with_config_map order ∷ []) (in_log run_e)

  -- `main`
  unfoldable pub main : Cobra → List String → List String → Process → Exit
  unfolding new_api_cmd
  main K order args s = exit_of (K.execute (new_api_cmd order) args s).0

module _ (P : Platform) (directory : String) where
  read_api :
      load_into P api_structs directory openim_api_cfg_file_name
      ≡ map_res an_api (load_file P P.api_viper directory openim_api_cfg_file_name)
  unfolding lookup string_eq
  read_api = refl

  read_discovery :
      load_into P api_structs directory discovery_config_filename
      ≡ map_res a_discovery (load_file P P.discovery_viper directory discovery_config_filename)
  unfolding lookup string_eq
  read_discovery = refl

  read_share :
      load_into P api_structs directory share_file_name
      ≡ map_res a_share (load_file P P.share_viper directory share_file_name)
  unfolding lookup string_eq
  read_share = refl

  read_log :
      load_into P api_structs directory log_config_file_name
      ≡ map_res a_log (load_file P P.log_viper directory log_config_file_name)
  unfolding lookup string_eq
  read_log = refl

  -- The flags name the directory and an index, all four files are loaded, and both loggers start.
  pub record IsConfigured (f : Flags) (index : Index) (c : Api.Config) : Type 0 where
    pub has_directory : f.conf ≡ ok directory
    pub has_index : f.index ≡ ok index
    pub has_api : load_file P P.api_viper directory openim_api_cfg_file_name ≡ ok c.api
    pub has_discovery :
        load_file P P.discovery_viper directory discovery_config_filename ≡ ok c.discovery
    pub has_share : load_file P P.share_viper directory share_file_name ≡ ok c.share
    pub has_log :
        (l : Settings.Log) × (load_file P P.log_viper directory log_config_file_name ≡ ok l)
        × (P.init_logger "openim-service-log" l ≡ ok tt)
        × (P.init_console l ≡ ok tt)
