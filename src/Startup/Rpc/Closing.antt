-- ===== src/Startup/Rpc/Closing.antt =====
-- What `Start` of startrpc opens and closes.
use openim_project_template.Base.{ℕ, String, Bool, true, false, Option, none, some, List, [], ◌∷◌}
use openim_project_template.Errors.{Error}
use openim_project_template.Tools.{DataUtil, Index}
use openim_project_template.Config.Settings.{Discovery, Prometheus}
use openim_project_template.Metrics.Grpc.{GrpcCollector}
use openim_project_template.Startup.{listener, client, server}
use openim_project_template.Startup.Scopes.{Nests, inner_rules, nest_rules}
use openim_project_template.Startup.Rpc.{
  World, Event, sigterm, metrics_failed, serve_failed, await, go_serve, with_server, start,
  shutdown_metrics, graceful_stop_with_ctx,
}

go_serve-Nests : (on : Bool) (port : ℕ) (address : String) → Nests [] (go_serve on port address)
go_serve-Nests true port address = search inner_rules
go_serve-Nests false port address = search inner_rules

shutdown-Nests : (on : Bool) (o : Option Error) → Nests [] (shutdown_metrics on o)
shutdown-Nests false o = search inner_rules
shutdown-Nests true none = search inner_rules
shutdown-Nests true (some e) = search inner_rules

stop-Nests : (in_time : Bool) → Nests [] (graceful_stop_with_ctx in_time)
stop-Nests true = search inner_rules
stop-Nests false = search inner_rules

await-Nests : (on : Bool) (address : String) (v : Event) → Nests [] (await on address v)
await-Nests on address (sigterm up in_time shutdown) =
    search (inner_rules, stop-Nests, shutdown-Nests)
await-Nests on address (metrics_failed e at) = search inner_rules
await-Nests on address (serve_failed e) = search inner_rules

module _ (D : DataUtil) (w : World) (discovery : Discovery) (prometheus : Prometheus)
    (listen_ip register_ip : String) (rpc_ports : List ℕ) (index : Index) (name : String)
    (cus_metrics : List GrpcCollector) where
  with_server-Nests :
      (rpc_port prometheus_port : ℕ) (address ip : String)
      → Nests [] (
          with_server D w discovery prometheus listen_ip register_ip rpc_ports index name
            cus_metrics rpc_port prometheus_port address ip)
  unfolding with_server
  with_server-Nests rpc_port prometheus_port address ip =
      search (inner_rules, go_serve-Nests, await-Nests) depth 12

  -- On every path of Start of an RPC process, errors and panics among them, it opens the listener,
  -- inside of it the client of the discovery and inside of both the server, or only the first of
  -- these, closes what it has opened, the last one first, and has its other effects where all
  -- three are open.
  pub start-Nests :
      Nests
        (listener ∷ client ∷ server ∷ [])
        (start D w discovery prometheus listen_ip register_ip rpc_ports index name cus_metrics)
  unfolding start
  start-Nests = search (nest_rules, with_server-Nests) depth 20
