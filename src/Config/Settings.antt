-- ===== src/Config/Settings.antt =====
-- The configuration structs of pkg/common/config/config.go. An `int` is a natural number here:
-- ports, pool sizes and counts; `-1` has no use in them.
use openim_project_template.Base.{ℕ, String, Bool, List}

pub record Log : Type 0 where
  pub storage_location : String
  pub rotation_time : ℕ
  pub remain_rotation_count : ℕ
  pub remain_log_level : ℕ
  pub is_stdout : Bool
  pub is_json : Bool
  pub is_simplify : Bool
  pub with_stack : Bool

pub record Mongo : Type 0 where
  pub uri : String
  pub address : List String
  pub database : String
  pub username : String
  pub password : String
  pub max_pool_size : ℕ
  pub max_retry : ℕ

-- The struct `RpcRegisterName`, the only field of `Share`.
pub record Share : Type 0 where
  pub user : String

pub record Prometheus : Type 0 where
  pub enable : Bool
  pub ports : List ℕ

pub record Api : Type 0 where
  pub secret : String
  pub listen_ip : String
  pub ports : List ℕ
  pub prometheus : Prometheus
  pub grafana_url : String

pub record UserRpc : Type 0 where
  pub register_ip : String
  pub listen_ip : String
  pub ports : List ℕ
  pub prometheus : Prometheus

pub record Redis : Type 0 where
  pub address : List String
  pub username : String
  pub password : String
  pub enable_pipeline : Bool
  pub cluster_mode : Bool
  pub db : ℕ
  pub max_retry : ℕ

pub record Etcd : Type 0 where
  pub root_directory : String
  pub address : List String
  pub username : String
  pub password : String

pub record Discovery : Type 0 where
  pub enable : String
  pub etcd : Etcd

-- `mongoutil.Config`, with the fields that the code sets.
pub record MongoConfig : Type 0 where
  pub uri : String
  pub address : List String
  pub database : String
  pub username : String
  pub password : String
  pub max_pool_size : ℕ
  pub max_retry : ℕ

-- `(*Mongo).Build`
unfoldable pub build_mongo : Mongo → MongoConfig
build_mongo m = record {
  uri = m.uri;
  address = m.address;
  database = m.database;
  username = m.username;
  password = m.password;
  max_pool_size = m.max_pool_size;
  max_retry = m.max_retry;
}

-- `redisutil.Config`, with the fields that the code sets.
pub record RedisConfig : Type 0 where
  pub cluster_mode : Bool
  pub address : List String
  pub username : String
  pub password : String
  pub db : ℕ
  pub max_retry : ℕ

-- `(*Redis).Build`
unfoldable pub build_redis : Redis → RedisConfig
build_redis r = record {
  cluster_mode = r.cluster_mode;
  address = r.address;
  username = r.username;
  password = r.password;
  db = r.db;
  max_retry = r.max_retry;
}
