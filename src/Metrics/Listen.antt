-- ===== src/Metrics/Listen.antt =====
-- Where the metrics are served, in pkg/common/ginprometheus/ginprometheus.go. The library gin is the
-- record `Gin`.
use openim_project_template.Base.{
  String, ◌≡◌, refl, ◌==◌, string_eq, if◌then◌else◌, ltb, true, false, Option, none, some, Res, ok,
  err, panics, arith, Act,
}
use Prim.Native.String.{len}
use openim_project_template.Errors.{Error}

pub record Gin : Type 1 where
  pub Engine : Type 0
  -- `gin.Default()`
  pub default_engine : Engine
  -- `e.Use(p.HandlerFunc())`
  pub use_handler : Engine → Engine
  -- `e.GET(path, prometheusHandler())`, which panics on a path that it cannot take
  pub get : String → Engine → Res Engine
  -- `e.Run(address)`, which answers an error or nil when the server ends
  pub run : String → Engine → Option Error

-- The fields `listenAddress`, `router` and `MetricsPath` of `Prometheus`, and the engine that the
-- program hands in.
pub record Serving (G : Gin) : Type 0 where
  pub listen_address : String
  pub router : Option G.Engine
  pub metrics_path : String
  pub engine : G.Engine

module _ (G : Gin) where
  -- `SetListenAddress`
  unfoldable pub set_listen_address : String → Serving G → Serving G
  set_listen_address address s =
      if address == ""
      then record s { listen_address = address }
      else record s { listen_address = address; router = some G.default_engine }

  -- `SetListenAddressWithRouter`
  unfoldable pub set_listen_address_with_router : String → Option G.Engine → Serving G → Serving G
  set_listen_address_with_router address r s =
      if ltb 0 (len address)
      then record s { listen_address = address; router = r }
      else record s { listen_address = address }

  abbrev answer : Option Error → Res (Unit {0})
  answer none = ok tt
  answer (some e) = err e

  -- `runServer`, on the router with its new route
  abbrev run_server : Res G.Engine → Act (Serving G) (Unit {0})
  run_server (ok r) s = (answer (G.run s.listen_address r), record s { router = some r })
  run_server (err e) s = (err e, s)
  run_server panics s = (panics, s)

  -- `p.router.GET(...)`; a nil router (`none`) panics.
  abbrev get_on : String → Option G.Engine → Res G.Engine
  get_on path none = panics
  get_on path (some r) = G.get path r

  abbrev keep_engine : Res G.Engine → Act (Serving G) (Unit {0})
  keep_engine (ok e) s = (ok tt, record s { engine = e })
  keep_engine (err e) s = (err e, s)
  keep_engine panics s = (panics, s)

  -- `SetMetricsPath`; `SetMetricsPathWithAuth` has the same steps, with a check of the account in
  -- the route.
  unfoldable pub set_metrics_path : Act (Serving G) (Unit {0})
  set_metrics_path s =
      if s.listen_address == ""
      then keep_engine (G.get s.metrics_path s.engine) s
      else run_server (get_on s.metrics_path s.router) s

  -- `Use`, and `UseWithAuth` likewise
  unfoldable pub use_prometheus : Act (Serving G) (Unit {0})
  unfolding set_metrics_path
  use_prometheus s = set_metrics_path (record s { engine = G.use_handler s.engine })

  -- After SetListenAddress, where gin takes the route, Use does not panic. With an address, the
  -- metrics are served on a new engine, and its end is what is answered, while the engine of the
  -- program gets the handler and no route; without one, the engine of the program gets the
  -- handler and the route.
  pub use_prometheus_lem :
      (address : String) (s : Serving G) (own theirs : G.Engine)
      → G.get s.metrics_path G.default_engine ≡ ok own
      → G.get s.metrics_path (G.use_handler s.engine) ≡ ok theirs
      → use_prometheus (set_listen_address address s) ≡ (
          if address == ""
          then (ok tt, record s { listen_address = address; engine = theirs })
          else (
            answer (G.run address own),
            record s {
              listen_address = address;
              router = some own;
              engine = G.use_handler s.engine;
            },
          ))
  unfolding use_prometheus set_listen_address
  use_prometheus_lem address s own theirs h h' = elim (string_eq.dec address "") [
    | yes e ↦ let t : (address == "") ≡ true = ground (arith, e) in rw t (rw t (rw h' refl))
    | no n ↦ let t : (address == "") ≡ false = ground (arith, n) in rw t (rw t (rw h refl))
  ]
