-- ===== src/Tests/Programs.antt =====
-- The two programs, run from their arguments.
use openim_project_template.Base.{
  String, string_eq, nat_eq, ◌≡◌, ◌↔◌, ◌⊎◌, refl, true, none, List, [], ◌∷◌, ok, err, ◌==◌,
  if◌then◌else◌, ◌>>◌,
}
use openim_project_template.Base.Dict.{lookup, insert}
use openim_project_template.Errors.{new}
use openim_project_template.Tools.{Index, at}
use openim_project_template.Tools.Reference.{reference}
use openim_project_template.Config.Settings
use openim_project_template.Config.Load.{Viper, load}
use openim_project_template.Discovery.{new_discovery_register}
use openim_project_template.Startup.{Log, emit}
use openim_project_template.Startup.Scopes.{Adds}
use openim_project_template.Startup.Api
use openim_project_template.Command.{
  Flags, api_config_map, user_rpc_config_map, persistent_pre_run, get_flag, load_files,
  initialize_configuration, apply_options, apply_all, with_config_map,
}
use openim_project_template.Command.Structs.{Platform, load_file}
use openim_project_template.Command.Process.{
  Process, Cobra, IsLawful, Parsed, bad, help, flags, finished, new_root_cmd,
}
use openim_project_template.Command.ApiCmd
use openim_project_template.Command.ApiCmd.Configured.{main-finished_iff_api}
use openim_project_template.Command.UserRpcCmd
use openim_project_template.Command.UserRpcCmd.Configured.{main-finished_iff, exec_opens, resources}
use openim_project_template.Tests.Starts.{
  rpc_world, api_world, api_settings, discovery, driver, mongo, metrics,
}

-- Every file is there, and decodes to what is given.
abbrev holds : {A : Type 0} → A → Viper A
holds a = record { read = λ path. none; unmarshal = λ path prefix. ok a }

abbrev user_rpc : Settings.UserRpc
user_rpc = record {
  register_ip = "";
  listen_ip = "0.0.0.0";
  ports = 10110 ∷ [];
  prometheus = metrics;
}

abbrev log_config : Settings.Log
log_config = record {
  storage_location = "../logs/";
  rotation_time = 24;
  remain_rotation_count = 2;
  remain_log_level = 6;
  is_stdout = true;
  is_json = true;
  is_simplify = true;
  with_stack = true;
}

abbrev pub platform : Platform
platform = record {
  api_viper = holds api_settings;
  user_rpc_viper = holds user_rpc;
  mongo_viper = holds mongo;
  share_viper = holds (record { user = "user" });
  discovery_viper = holds discovery;
  log_viper = holds log_config;
  join = λ a b. b;
  getenv = λ name. "";
  text = λ cs. "";
  init_logger = λ prefix l. ok tt;
  init_console = λ l. ok tt;
}

-- The directory is the only argument.
abbrev parse_args : List String → Parsed
parse_args [] = bad (new "no directory")
parse_args (a ∷ _) =
    if a == "--help" then help else flags (record { conf = ok a; index = ok (at 0) })

abbrev pub cobra : Cobra
cobra = record {
  execute = λ c args s. elim (parse_args args) [
    | bad e ↦ (err e, s)
    | help ↦ (ok tt, s)
    | flags f ↦ (c.persistent_pre_run_e f >> c.run_e) s
  ];
}

abbrev pub cobra_laws : IsLawful cobra
cobra_laws = record { parse = parse_args; executes = λ c args s. refl }

abbrev pub fresh : Process
fresh = record { cmd = record { index = at 0; loaded = [] }; log = [] }

-- A signal after 3 seconds: the API program ends by itself.
api_finishes :
    ApiCmd.main platform reference api_world cobra api_config_map ("/config" ∷ []) fresh ≡ finished
unfolding ApiCmd.main ApiCmd.new_api_cmd new_root_cmd persistent_pre_run initialize_configuration
    get_flag load_files apply_options apply_all with_config_map lookup insert load_file load
    Api.start emit new_discovery_register string_eq nat_eq
api_finishes = refl

main-finished_iff_api_example :
    (ApiCmd.main platform reference api_world cobra api_config_map ("/config" ∷ []) fresh
      ≡ finished)
    ↔ ((parse_args ("/config" ∷ []) ≡ help)
        ⊎ ((f : Flags) × (directory : String) × (i : Index) × (c : Api.Config) × (parse_args
                ("/config" ∷ [])
              ≡ flags f)
            × ApiCmd.IsConfigured platform directory f i c
            × ((Api.start reference api_world c i []).0 ≡ ok tt)))
main-finished_iff_api_example =
    main-finished_iff_api platform reference api_world cobra cobra_laws api_config_map (λ k. refl)
      ("/config" ∷ []) fresh

main-finished_iff_example :
    (UserRpcCmd.main platform reference rpc_world driver cobra user_rpc_config_map
        ("/config" ∷ [])
        fresh
      ≡ finished)
    ↔ ((parse_args ("/config" ∷ []) ≡ help)
        ⊎ ((f : Flags) × (directory : String) × (i : Index) × (c : UserRpcCmd.Config) × (parse_args
                ("/config" ∷ [])
              ≡ flags f)
            × UserRpcCmd.IsConfigured platform directory f i c
            × ((UserRpcCmd.start_with platform reference rpc_world driver c i []).0 ≡ ok tt)))
main-finished_iff_example =
    main-finished_iff platform reference rpc_world driver cobra cobra_laws user_rpc_config_map
      (λ k. refl) ("/config" ∷ []) fresh

abbrev pub after_exec : Log
after_exec =
    (UserRpcCmd.exec platform reference rpc_world driver cobra user_rpc_config_map ("/config" ∷ [])
      fresh).1.log

exec_opens_example :
    ((after_exec ≡ [])
      ⊎ ((f : Flags) × (directory : String) × (i : Index) × (c : UserRpcCmd.Config) × (parse_args
              ("/config" ∷ [])
            ≡ flags f)
          × UserRpcCmd.IsConfigured platform directory f i c
          × (after_exec ≡ (UserRpcCmd.start_with platform reference rpc_world driver c i []).1)))
    × Adds resources [] after_exec
exec_opens_example =
    exec_opens platform reference rpc_world driver cobra cobra_laws user_rpc_config_map (λ k. refl)
      ("/config" ∷ []) fresh
