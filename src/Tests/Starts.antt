-- ===== src/Tests/Starts.antt =====
-- The start of the two server processes.
use openim_project_template.Base.{
  Bool-cases, inl, inr, List, ℕ, String, ◌≡◌, ◌↔◌, refl, true, false, none, [], ◌∷◌, Res, ok,
  string_eq, nat_eq,
}
use openim_project_template.Tools.{at}
use openim_project_template.Tools.Reference.{reference}
use openim_project_template.Config.Settings.{Discovery, Prometheus}
use openim_project_template.Config.Settings
use openim_project_template.Discovery.{new_discovery_register}
use openim_project_template.Startup.{
  Log, acquired, released, listener, client, server, called_rpc_fn, registered, serving,
  sigterm_exit, stopped_server, emit, scoped,
}
use openim_project_template.Metrics.Grpc.{user_register_counter, new_grpc_prom_obj}
use openim_project_template.Startup.Rpc
use openim_project_template.Startup.Rpc.{metrics_on}
use openim_project_template.Startup.Rpc.Answer
use openim_project_template.Startup.Rpc.Answer.{start_sigterm_panics}
use openim_project_template.Startup.Registered.{has_registration}
use openim_project_template.Startup.Rpc.Registration.{start-registers_iff}
use openim_project_template.Startup.Api
use openim_project_template.User.Server.Start
use openim_project_template.Config.Settings.{Mongo, build_mongo}

abbrev pub discovery : Discovery
discovery = record {
  enable = "etcd";
  etcd = record { root_directory = "openim"; address = []; username = ""; password = "" };
}

abbrev metrics_off : Prometheus
metrics_off = record { enable = false; ports = 20100 ∷ [] }

abbrev pub metrics : Prometheus
metrics = record { enable = true; ports = 20100 ∷ [] }

abbrev pub rpc_world : Rpc.World
rpc_world = record {
  address = λ ip port. "0.0.0.0:10110";
  listen = λ address. none;
  etcd = λ e. ok tt;
  kubernetes = λ namespace. ok tt;
  register_ip = λ ip. ok "10.0.0.1";
  must_register = λ cs. ok tt;
  rpc_fn = ok tt;
  register = λ name ip port. none;
  event = Rpc.sigterm true true none;
}

abbrev start_rpc : Prometheus → Log → Res (Unit {0}) × Log
start_rpc p =
    Rpc.start reference rpc_world discovery p "" "" (10110 ∷ []) (at 0) "user"
      (user_register_counter ∷ [])

abbrev RpcIsUp : Prometheus → Type 0
RpcIsUp p =
    Answer.IsUp reference rpc_world discovery p "" "" (10110 ∷ []) (at 0) "user"
      (user_register_counter ∷ []) 10110 20100 "10.0.0.1"

makes : (p : Prometheus) → Rpc.grpc_metrics_made rpc_world p (user_register_counter ∷ []) ≡ ok tt
unfolding Rpc.grpc_metrics_made new_grpc_prom_obj
makes p = elim (Bool-cases p.enable) [ inl on ↦ rw on refl | inr off ↦ rw off refl ]

rpc-IsUp : (p : Prometheus) → p.ports ≡ 20100 ∷ [] → RpcIsUp p
unfolding new_discovery_register string_eq
rpc-IsUp p h = record {
  has_port = refl;
  has_prometheus_port = rw h refl;
  listens = refl;
  discovers = refl;
  has_ip = refl;
  makes_metrics = makes p;
  has_handlers = refl;
  registers = refl;
}

log_without_metrics :
    (start_rpc metrics_off []).1
    ≡ acquired listener
      ∷ acquired client
      ∷ acquired server
      ∷ called_rpc_fn
      ∷ registered "user" "10.0.0.1" 10110
      ∷ serving "0.0.0.0:10110"
      ∷ sigterm_exit
      ∷ stopped_server
      ∷ released server
      ∷ released client
      ∷ released listener
      ∷ []
unfolding Rpc.start emit scoped new_discovery_register string_eq nat_eq Rpc.grpc_metrics_made
log_without_metrics = refl

start-ok_iff_example : ((start_rpc metrics []).0 ≡ ok tt) ↔ (
    (p q : ℕ) × (ip : String) × Answer.IsUp reference rpc_world discovery metrics "" ""
      (10110 ∷ [])
      (at 0)
      "user"
      (user_register_counter ∷ [])
      p
      q
      ip
    × (metrics_on metrics q ≡ true)
    × (Rpc.sigterm true true none ≡ Rpc.sigterm true true none))
start-ok_iff_example =
    Answer.start-ok_iff reference rpc_world discovery metrics "" "" (10110 ∷ []) (at 0) "user"
      (user_register_counter ∷ []) []

start-registers_iff_example :
    (has_registration "user" "10.0.0.7" 10110 (start_rpc metrics []).1 ≡ true) ↔ (
      (p q : ℕ) × (ip : String) × Answer.IsUp reference rpc_world discovery metrics "" ""
        (10110 ∷ [])
        (at 0)
        "user"
        (user_register_counter ∷ [])
        p
        q
        ip
      × (◌≡◌ {A = String} "user" "user")
      × ("10.0.0.7" ≡ ip)
      × (10110 ≡ p))
start-registers_iff_example =
    start-registers_iff reference rpc_world discovery metrics "" "" (10110 ∷ []) (at 0) "user"
      (user_register_counter ∷ []) "user" "10.0.0.7" 10110

abbrev pub api_world : Api.World
api_world = record {
  address = λ ip port. "0.0.0.0:10002";
  show = λ n. "20113";
  get_conn = λ name. ok tt;
  etcd = λ e. ok tt;
  kubernetes = λ namespace. ok tt;
  event = Api.sigterm 3;
  shutdown = λ seconds. none;
}

abbrev pub share : Settings.Share
share = record { user = "user" }

abbrev pub api_settings : Settings.Api
api_settings = record {
  secret = "openIM123";
  listen_ip = "";
  ports = 10002 ∷ [];
  prometheus = metrics;
  grafana_url = "";
}

abbrev pub api_config : Api.Config
api_config = record { api = api_settings; discovery = discovery; share = share }

-- A driver whose databases are their addresses.
abbrev pub driver : Start.Driver
driver = record {
  Database = List String;
  new_mongo_db = λ config. ok config.address;
  create_index = λ db collection key unique. none;
}

abbrev pub mongo : Mongo
mongo = record {
  uri = "";
  address = "localhost:37017" ∷ [];
  database = "openim";
  username = "";
  password = "";
  max_pool_size = 100;
  max_retry = 10;
}

abbrev user_mgo : Start.UserMgo driver
user_mgo = record { db = "localhost:37017" ∷ []; coll = "user" }
