-- ===== src/Config/Env.antt =====
-- The prefixes of environment variables, pkg/common/cmd/constant.go. The upper case of a
-- character is that of ASCII, in which all the file names are written.
pub mod Laws
use openim_project_template.Base.{
  ℕ, ◌-◌, String, ◌==◌, nat_eq, string_eq, leb, if◌then◌else◌, Bool, true, false, ◌&&◌, List, [],
  ◌∷◌, ◌++◌, map,
}
use openim_project_template.Base.Dict.{Dict, insert}
use openim_project_template.Base.Text.{codes}

abbrev redis_config_file_name : String
redis_config_file_name = "redis.yml"

abbrev pub mongodb_config_file_name : String
mongodb_config_file_name = "mongodb.yml"

abbrev pub openim_api_cfg_file_name : String
openim_api_cfg_file_name = "openim-api.yml"

abbrev pub openim_rpc_user_cfg_file_name : String
openim_rpc_user_cfg_file_name = "openim-rpc-user.yml"

abbrev pub discovery_config_filename : String
discovery_config_filename = "discovery.yml"

abbrev pub log_config_file_name : String
log_config_file_name = "log.yml"

abbrev pub share_file_name : String
share_file_name = "share.yml"

abbrev pub env_prefix : String
env_prefix = "IMENV_"

-- The list `fileNames` of the package's `init`.
abbrev pub file_names : List String
file_names =
    redis_config_file_name ∷ mongodb_config_file_name ∷ openim_rpc_user_cfg_file_name
    ∷ discovery_config_filename ∷ openim_api_cfg_file_name ∷ log_config_file_name ∷ share_file_name
    ∷ []

abbrev pub same : List ℕ → List ℕ → Bool
same [] [] = true
same (c ∷ s) (d ∷ t) = c == d && same s t
same _ _ = false

-- `strings.TrimSuffix(s, suffix)`, for a suffix that is not empty
unfoldable pub trim_suffix : List ℕ → List ℕ → List ℕ
trim_suffix [] suffix = []
trim_suffix (c ∷ s) suffix =
    let rest = trim_suffix s suffix in if same (c ∷ s) suffix then [] else c ∷ rest

-- `strings.ReplaceAll(s, from, to)` for single characters
abbrev pub replace_char : ℕ → ℕ → ℕ → ℕ
replace_char from to c = if c == from then to else c

-- `strings.ToUpper(s)`
abbrev pub upper : ℕ → ℕ
upper c = if leb b'a' c && leb c b'z' then c - 32 else c

-- The body of the loop: the prefix for a file name.
unfoldable pub env_key : String → List ℕ
env_key file_name =
    let base = trim_suffix (trim_suffix (codes file_name) (codes ".yml")) (codes ".yaml") in
    map upper (map (replace_char b'-' b'_') (codes env_prefix ++ base))

unfoldable pub fill : List String → Dict String (List ℕ) → Dict String (List ℕ)
fill [] m = m
fill (name ∷ names) m = fill names (insert name (env_key name) m)

-- `ConfigEnvPrefixMap` after `init`
unfoldable pub config_env_prefix_map : Dict String (List ℕ)
config_env_prefix_map = fill file_names []
