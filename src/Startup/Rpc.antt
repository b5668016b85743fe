-- ===== src/Startup/Rpc.antt =====
-- `Start` of pkg/common/startrpc/start.go, up to the event that ends the process.
pub mod Closing
pub mod Answer
pub mod Race
pub mod Shutdown
pub mod Registration
use openim_project_template.Base.{
  ℕ, String, ◌<>◌, ◌==◌, ◌&&◌, string_eq, nat_eq, if◌then◌else◌, not, Bool, true, false, Option,
  none, some, List, [], ◌∷◌, Res, ok, err, panics, Act, lift, pure, fail, ◌>>=◌, ◌>>◌,
}
use openim_project_template.Errors.{Error, new, wrap_msg, wrap_kv}
use openim_project_template.Tools.{DataUtil, Index}
use openim_project_template.Config.Settings.{Discovery, Etcd, Prometheus}
use openim_project_template.Metrics.Grpc.{GrpcCollector, new_grpc_prom_obj}
use openim_project_template.Discovery.{new_discovery_register}
use openim_project_template.Startup.{
  Log, listener, client, server, called_rpc_fn, registered, serving, serving_metrics, sigterm_exit,
  stopped_server, shut_down, emit, scoped, try,
}

-- What ends the wait of `Start`. A signal comes with whether the goroutine of the metrics has made
-- its server by then, whether the server stops within 15 seconds, and what `Shutdown` answers. The
-- other two are errors of the two servers, that of the metrics with its address.
pub data Event : Type 0 where
  sigterm : (metrics_up in_time : Bool) → (shutdown : Option Error) → Event
  metrics_failed : Error → (address : String) → Event
  serve_failed : Error → Event

-- What the libraries and the service answer.
pub record World : Type 0 where
  -- `net.JoinHostPort(network.GetListenIP(listenIP), strconv.Itoa(port))`
  pub address : String → ℕ → String
  -- `net.Listen("tcp", address)`
  pub listen : String → Option Error
  -- the registries of the discovery library
  pub etcd : Etcd → Res (Unit {0})
  pub kubernetes : String → Res (Unit {0})
  -- `network.GetRpcRegisterIP(registerIP)`
  pub register_ip : String → Res String
  -- `reg.MustRegister(collectors...)` on a new registry
  pub must_register : List GrpcCollector → Res (Unit {0})
  -- `rpcFn(ctx, config, client, srv)`
  pub rpc_fn : Res (Unit {0})
  -- `client.Register(name, ip, port)`
  pub register : String → String → ℕ → Option Error
  pub event : Event

abbrev listen_error : String → Option Error → Option Error
listen_error address none = none
listen_error address (some e) = some (wrap_kv e "listen err" (("rpcTcpAddr", address) ∷ []))

-- `httpServer.Shutdown(ctx)`; without metrics `httpServer` is nil, and the call panics.
abbrev pub shutdown_metrics : Bool → Option Error → Act Log (Unit {0})
shutdown_metrics false o = lift panics
shutdown_metrics true none = emit shut_down
shutdown_metrics true (some e) = emit shut_down >> fail (wrap_msg e "shutdown err")

-- `gracefulStopWithCtx`, which calls the server's `GracefulStop` in any case
abbrev graceful_stop_with_ctx : Bool → Act Log (Unit {0})
graceful_stop_with_ctx true = emit stopped_server
graceful_stop_with_ctx false = emit stopped_server >> fail (new "timeout, ctx graceful stop")

-- The `select`; `on` is whether the metrics are on. The keys of these two errors have no value.
abbrev pub await : Bool → String → Event → Act Log (Unit {0})
await on address (sigterm up in_time shutdown) = do
  emit sigterm_exit
  graceful_stop_with_ctx in_time
  shutdown_metrics (on && up) shutdown
await on address (metrics_failed e at) = fail (wrap_kv e "prometheus start err" ((at, "") ∷ []))
await on address (serve_failed e) = fail (wrap_kv e "rpc start err: " ((address, "") ∷ []))

-- The registry and the metrics of the server, which are made only if they are enabled.
unfoldable pub grpc_metrics_made : World → Prometheus → List GrpcCollector → Res (Unit {0})
unfolding new_grpc_prom_obj
grpc_metrics_made w p cus_metrics =
    if p.enable then new_grpc_prom_obj w.must_register cus_metrics else ok tt

abbrev pub metrics_on : Prometheus → ℕ → Bool
metrics_on p port = p.enable && not (port == 0)

-- The two goroutines: the metrics are served if they are on, and the gRPC server at its address.
abbrev go_serve : Bool → ℕ → String → Act Log (Unit {0})
go_serve true port address = emit (serving_metrics port) >> emit (serving address)
go_serve false port address = emit (serving address)

module _ (D : DataUtil) (w : World) (discovery : Discovery) (prometheus : Prometheus)
    (listen_ip register_ip : String) (rpc_ports : List ℕ) (index : Index) (name : String)
    (cus_metrics : List GrpcCollector) where
  -- From `grpc.NewServer` on.
  unfoldable pub with_server : ℕ → ℕ → String → String → Act Log (Unit {0})
  unfolding emit
  with_server rpc_port prometheus_port address ip = do
    emit called_rpc_fn
    lift w.rpc_fn
    try (w.register name ip rpc_port)
    emit (registered name ip rpc_port)
    go_serve (metrics_on prometheus prometheus_port) prometheus_port address
    await (metrics_on prometheus prometheus_port) address w.event

  -- `Start`
  unfoldable pub start : Act Log (Unit {0})
  unfolding scoped with_server
  start = do
    rpc_port ← lift (D.get_elem_by_index rpc_ports index)
    prometheus_port ← lift (D.get_elem_by_index prometheus.ports index)
    try (listen_error (w.address listen_ip rpc_port) (w.listen (w.address listen_ip rpc_port)))
    scoped listener (do
      lift (new_discovery_register w.etcd w.kubernetes discovery)
      scoped client (do
        ip ← lift (w.register_ip register_ip)
        lift (grpc_metrics_made w prometheus cus_metrics)
        scoped server (with_server rpc_port prometheus_port (w.address listen_ip rpc_port) ip)))
