-- ===== src/Config/Load.antt =====
-- Loading a configuration file, pkg/common/config/load_config.go. The environment is a function,
-- and the library viper is the record `Viper`: it reads a file, and decodes what it read under
-- the settings that the code made on it.
pub mod Laws
use openim_project_template.Base.{
  String, ◌<>◌, ◌==◌, string_eq, if◌then◌else◌, Option, none, some, List, [], ◌∷◌, Res, ok, err,
  panics,
}
use openim_project_template.Errors.{Error, coded, wrap_kv, err_args}

abbrev pub mount_config_file_path : String
mount_config_file_path = "CONFIG_PATH"

abbrev pub deployment_type : String
deployment_type = "DEPLOYMENT_TYPE"

abbrev pub kubernetes : String
kubernetes = "kubernetes"

-- `A` is what configuration structs hold. The environment prefix is `none` where the code does
-- not call `AutomaticEnv`.
pub record Viper (A : Type 0) : Type 0 where
  -- `v.ReadInConfig()` after `v.SetConfigFile(path)`
  pub read : (path : String) → Option Error
  -- `v.Unmarshal(config)`
  pub unmarshal : (path : String) → (prefix : Option String) → Res A

module _ {A : Type 0} (v : Viper A) where
  abbrev unmarshalled : List (String × String) → Res A → Res A
  unmarshalled kv (ok a) = ok a
  unmarshalled kv (err e) = err (wrap_kv e "failed to unmarshal config" kv)
  unmarshalled kv panics = panics

  abbrev read_then : List (String × String) → Option Error → Res A → Res A
  read_then kv (some e) r = err (wrap_kv e "failed to read config file" kv)
  read_then kv none r = unmarshalled kv r

  -- `loadConfig`
  unfoldable pub load_config : String → String → Res A
  load_config path prefix =
      read_then (("path", path) ∷ ("envPrefix", prefix) ∷ []) (v.read path)
        (v.unmarshal path (some prefix))

  -- `join` is `filepath.Join`.
  module _ (join : String → String → String) where
    -- `loadConfigK8s`
    unfoldable pub load_config_k8s : String → String → Res A
    load_config_k8s mount_path file_name =
        let path = join mount_path file_name in
        read_then (("path", path) ∷ []) (v.read path) (v.unmarshal path none)

    -- `Load`; `getenv` is `os.Getenv`.
    unfoldable pub load : (String → String) → String → String → String → Res A
    unfolding load_config load_config_k8s
    load getenv directory file_name prefix =
        if getenv deployment_type == kubernetes
        then (if getenv mount_config_file_path == ""
            then err (coded err_args (mount_config_file_path <> " env is empty"))
            else load_config_k8s (getenv mount_config_file_path) file_name)
        else load_config (join directory file_name) prefix
