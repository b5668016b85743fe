-- ===== src/Command.antt =====
-- The root command, pkg/common/cmd/root.go, and the two processes, pkg/common/cmd/api.go and
-- pkg/common/cmd/user.go: options, flags and the configuration files that are loaded before a
-- process runs.
pub mod Options
pub mod Files
pub mod Structs
pub mod Process
pub mod Prepared
pub mod Execution
pub mod Found
pub mod ApiCmd
pub mod UserRpcCmd
pub mod Together
use openim_project_template.Base.{
  ℕ, String, Option, none, some, List, [], ◌∷◌, Res, ok, err, panics, bind_res, Act, lift, pure,
  ◌>>=◌, ◌>>◌, string_eq,
}
use openim_project_template.Base.Dict.{Dict, lookup, insert}
use openim_project_template.Tools.{Index}
use openim_project_template.Errors.{Error, wrap, wrap_msg}
use openim_project_template.Config.Env.{
  mongodb_config_file_name, openim_api_cfg_file_name, openim_rpc_user_cfg_file_name,
  discovery_config_filename, log_config_file_name, share_file_name,
}

-- `CmdOpts`; of `configMap` the keys, in the order in which it is ranged over.
pub record CmdOpts : Type 0 where
  pub logger_prefix_name : String
  pub config_map : List String

-- `WithCronTaskLogName`
unfoldable pub with_cron_task_log_name : CmdOpts → CmdOpts
with_cron_task_log_name o = record o { logger_prefix_name = "openim-crontask" }

-- `WithLogName`
unfoldable pub with_log_name : String → CmdOpts → CmdOpts
with_log_name name o = record o { logger_prefix_name = name }

-- `WithConfigMap`
unfoldable pub with_config_map : List String → CmdOpts → CmdOpts
with_config_map files o = record o { config_map = files }

-- `defaultCmdOpts`
abbrev default_cmd_opts : CmdOpts
default_cmd_opts = record { logger_prefix_name = "openim-service-log"; config_map = [] }

unfoldable pub apply_all : List (CmdOpts → CmdOpts) → CmdOpts → CmdOpts
apply_all [] o = o
apply_all (opt ∷ opts) o = apply_all opts (opt o)

-- `applyOptions`
unfoldable pub apply_options : List (CmdOpts → CmdOpts) → CmdOpts
unfolding apply_all
apply_options opts = apply_all opts default_cmd_opts

-- The keys of the map of `NewApiCmd`.
abbrev pub api_config_map : List String
api_config_map = openim_api_cfg_file_name ∷ discovery_config_filename ∷ share_file_name ∷ []

-- The keys of the map of `NewUserRpcCmd`.
abbrev pub user_rpc_config_map : List String
user_rpc_config_map =
    openim_rpc_user_cfg_file_name ∷ mongodb_config_file_name ∷ share_file_name
    ∷ discovery_config_filename ∷ []

-- `RootCmd` and the structs that the map points to: what has been loaded, by file name, the log
-- configuration among it. `A` is what configuration structs hold.
pub record RootCmd (A : Type 0) : Type 0 where
  pub index : Index
  pub loaded : Dict String A

-- The flags: `cmd.Flags().GetString` and `GetInt` may fail.
pub record Flags : Type 0 where
  pub conf : Res String
  pub index : Res Index

-- `errs.Wrap(err)`
abbrev wrapped : {B : Type 0} → Res B → Res B
wrapped (ok b) = ok b
wrapped (err e) = err (wrap e)
wrapped panics = panics

-- What `initializeLogger` answers from the two calls of the log library.
abbrev logger : Res (Unit {0}) → Res (Unit {0}) → Res (Unit {0})
logger file console = bind_res (wrapped file) λ _. wrapped console

abbrev logger_failed : Res (Unit {0}) → Res (Unit {0})
logger_failed (ok u) = ok u
logger_failed (err e) = err (wrap_msg e "failed to initialize logger")
logger_failed panics = panics

module _ {A : Type 0} where
  abbrev set_index : Index → Act (RootCmd A) (Unit {0})
  set_index i r = (ok tt, record r { index = i })

  -- `getFlag`; of its results the callers use the directory.
  unfoldable pub get_flag : Flags → Act (RootCmd A) String
  get_flag flags = do
    directory ← lift (wrapped flags.conf)
    i ← lift (wrapped flags.index)
    set_index i
    pure directory

  -- `config.Load` of one file into its struct; `load` is `Load` with the file's prefix.
  abbrev store : String → A → Act (RootCmd A) (Unit {0})
  store file a r = (ok tt, record r { loaded = insert file a r.loaded })

  module _ (load : String → String → Res A) where
    -- The loop over the map.
    unfoldable pub load_files : String → List String → Act (RootCmd A) (Unit {0})
    load_files directory [] = pure tt
    load_files directory (file ∷ files) = do
      a ← lift (load directory file)
      store file a
      load_files directory files

    -- `initializeConfiguration`
    unfoldable pub initialize_configuration : Flags → CmdOpts → Act (RootCmd A) (Unit {0})
    unfolding get_flag load_files
    initialize_configuration flags opts = do
      directory ← get_flag flags
      load_files directory opts.config_map
      log ← lift (load directory log_config_file_name)
      store log_config_file_name log

    -- `persistentPreRun`; `init_logger` and `init_console` are `log.InitLoggerFromConfig`, by the
    -- logger's prefix, and `log.InitConsoleLogger`, which read the log configuration.
    unfoldable pub persistent_pre_run :
        (String → Dict String A → Res (Unit {0}))
        → (Dict String A → Res (Unit {0}))
        → Flags
        → List (CmdOpts → CmdOpts)
        → Act (RootCmd A) (Unit {0})
    unfolding initialize_configuration apply_options
    persistent_pre_run init_logger init_console flags opts =
        let o = apply_options opts in
        initialize_configuration flags o >>= λ _ r. (
          logger_failed
              (logger (init_logger o.logger_prefix_name r.loaded) (init_console r.loaded)),
          r,
        )
