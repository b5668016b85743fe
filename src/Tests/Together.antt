-- ===== src/Tests/Together.antt =====
-- The programs beside each other, what they have loaded, and the component check.
use openim_project_template.Base.{
  ℕ, some, String, string_eq, nat_eq, ◌≡◌, ◌↔◌, refl, true, none, List, [], ◌∷◌, ok, ◌==◌,
  if◌then◌else◌,
}
use openim_project_template.Base.Dict.{lookup, insert}
use openim_project_template.Errors.{new}
use openim_project_template.Tools.{Index, at}
use openim_project_template.Tools.Reference.{reference}
use openim_project_template.Config.Settings
use openim_project_template.Config.Load.{load}
use openim_project_template.Discovery.{new_discovery_register}
use openim_project_template.Startup.{emit, defer, scoped}
use openim_project_template.Startup.Rpc
use openim_project_template.Startup.Api
use openim_project_template.Command.{
  api_config_map, user_rpc_config_map, persistent_pre_run, get_flag, load_files,
  initialize_configuration, apply_options, apply_all, with_config_map,
}
use openim_project_template.Command.Structs.{load_file}
use openim_project_template.Command.Process.{finished, new_root_cmd}
use openim_project_template.Command.ApiCmd
use openim_project_template.Command.UserRpcCmd
use openim_project_template.Command.Together.{StopsInTime, main-registered_iff}
use openim_project_template.Checks.{components}
use openim_project_template.Checks.Main.{Libraries, done}
use openim_project_template.Checks.Main as CheckComponent
use openim_project_template.Checks.Main.Ends.{Answered, main-done_iff}
use openim_project_template.Config.Env.{mongodb_config_file_name, discovery_config_filename}
use openim_project_template.Startup.Registered.{has_registration}
use openim_project_template.Tests.Starts.{rpc_world, api_world, driver}
use openim_project_template.Tests.Programs.{platform, cobra, cobra_laws, fresh, after_exec}

-- The service registers under the name of the shared file.
registered_user : has_registration "user" "10.0.0.1" 10110 after_exec ≡ true
unfolding UserRpcCmd.exec UserRpcCmd.new_user_rpc_cmd UserRpcCmd.start_with new_root_cmd
    persistent_pre_run initialize_configuration get_flag load_files apply_options apply_all
    with_config_map lookup insert load_file load Rpc.start Rpc.with_server scoped defer emit
    new_discovery_register string_eq nat_eq Rpc.grpc_metrics_made
    openim_project_template.User.Server.Start.start
registered_user = refl

main-registered_iff_example :
    (ApiCmd.main platform reference api_world cobra api_config_map ("/config" ∷ []) fresh
      ≡ finished)
    ↔ ((directory : String) × (i : Index) × (c : Api.Config) × ApiCmd.IsConfigured platform
          directory
          (record { conf = ok "/config"; index = ok (at 0) })
          i
          c
        × StopsInTime platform reference rpc_world driver cobra cobra_laws user_rpc_config_map
            (λ k. refl)
            ("/config" ∷ [])
            fresh.cmd
            api_world
            api_config_map
            (λ k. refl)
            ("/config" ∷ [])
            fresh
            c
            i)
unfolding string_eq
main-registered_iff_example =
    main-registered_iff platform reference rpc_world driver cobra cobra_laws user_rpc_config_map
      (λ k. refl) ("/config" ∷ []) fresh.cmd api_world api_config_map (λ k. refl) ("/config" ∷ [])
      fresh (record { conf = ok "/config"; index = ok (at 0) })
      (record { conf = ok "/config"; index = ok (at 0) }) refl refl refl "user" "10.0.0.1" 10110
      registered_user (λ m ip q h. refl)

-- MongoDB answers in round 1 only, etcd in any round.
abbrev libraries : Libraries
libraries = record {
  mongo_check = λ i c. if i == 1 then none else some (new "refused");
  etcd_check = λ i address root create timeout size username password. none;
}

abbrev order : Settings.Discovery → ℕ → List String
order d i = components d.enable

main-done_iff_example : (CheckComponent.main libraries order platform "/config" ≡ done) ↔ (
    (m : Settings.Mongo) × (d : Settings.Discovery) × (load_file platform platform.mongo_viper
        "/config" mongodb_config_file_name
      ≡ ok m)
    × (load_file platform platform.discovery_viper "/config" discovery_config_filename ≡ ok d)
    × Answered libraries m d)
main-done_iff_example = main-done_iff libraries order (λ d i x. refl) platform "/config"
