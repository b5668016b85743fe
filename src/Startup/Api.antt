-- ===== src/Startup/Api.antt =====
-- `Start` of internal/api/init.go, up to the event that ends the process. The routes of its router
-- are in Routes; here it is the connection that the router needs.
pub mod Race
use openim_project_template.Base.{
  ℕ, ◌-◌, String, ◌≡◌, ◌↔◌, refl, sym, ap, ◌∙◌, ◌<>◌, Bool, true, false, Option, none, some, Res,
  ok, err, panics, Act, lift, pure, fail, ◌>>=◌, ◌>>◌, arith,
}
use openim_project_template.Errors.{Error, wrap_msg}
use openim_project_template.Tools.{DataUtil, Index}
use openim_project_template.Config.Settings.{Discovery, Etcd, Api, Share}
use openim_project_template.Discovery.{new_discovery_register}
use openim_project_template.Startup.{
  Log, serving, serving_metrics, sigterm_exit, shut_down, emit, of_error, try,
}
use openim_project_template.Startup.Steps.{ok-of_continue}

-- `Config` of the package api.
pub record Config : Type 0 where
  pub api : Api
  pub discovery : Discovery
  pub share : Share

-- What ends the wait of `Start`: a signal, so many seconds after the wait began, or an error of the
-- server of the metrics or of the API.
pub data Event : Type 0 where
  sigterm : ℕ → Event
  metrics_failed serve_failed : Error → Event

-- What the libraries answer.
pub record World : Type 0 where
  -- `net.JoinHostPort(network.GetListenIP(listenIP), strconv.Itoa(port))`
  pub address : String → ℕ → String
  -- the format `%d`
  pub show : ℕ → String
  -- `discov.GetConn(ctx, name)`
  pub get_conn : String → Res (Unit {0})
  -- the registries of the discovery library
  pub etcd : Etcd → Res (Unit {0})
  pub kubernetes : String → Res (Unit {0})
  pub event : Event
  -- `server.Shutdown(ctx)`, by the seconds that are left to the context
  pub shutdown : ℕ → Option Error

abbrev register_error : Res (Unit {0}) → Res (Unit {0})
register_error (ok u) = ok u
register_error (err e) = err (wrap_msg e "failed to register discovery service")
register_error panics = panics

abbrev shutdown_error : Option Error → Option Error
shutdown_error none = none
shutdown_error (some e) = some (wrap_msg e "shutdown err")

abbrev go_metrics : Bool → ℕ → Act Log (Unit {0})
go_metrics true port = emit (serving_metrics port)
go_metrics false port = pure tt

-- The `select`. The context of 15 seconds is made before the wait, so what is left of it at a signal
-- is less by the time of the wait.
abbrev await : World → (prometheus_port : ℕ) → (address : String) → Event → Act Log (Unit {0})
await w port address (sigterm t) = do
  emit sigterm_exit
  emit shut_down
  try (shutdown_error (w.shutdown (15 - t)))
await w port address (metrics_failed e) =
    fail (wrap_msg e ("prometheus start err: " <> w.show port))
await w port address (serve_failed e) = fail (wrap_msg e ("api start err: " <> address))

-- `NewUser` of pkg/rpcclient/user.go, which `newGinRouter` calls. `ExitWithError` ends the process
-- with the error, and no call is deferred yet.
unfoldable pub new_user : World → String → Res (Unit {0})
new_user w name = w.get_conn name

module _ (D : DataUtil) (w : World) (config : Config) (index : Index) where
  -- `Start`
  unfoldable pub start : Act Log (Unit {0})
  unfolding emit new_user
  start = do
    api_port ← lift (D.get_elem_by_index config.api.ports index)
    prometheus_port ← lift (D.get_elem_by_index config.api.prometheus.ports index)
    lift (register_error (new_discovery_register w.etcd w.kubernetes config.discovery))
    lift (new_user w config.share.user)
    go_metrics config.api.prometheus.enable prometheus_port
    emit (serving (w.address config.api.listen_ip api_port))
    await w prometheus_port (w.address config.api.listen_ip api_port) w.event

  -- Everything that `Start` does before it waits succeeds, with these ports.
  pub record IsUp (api_port prometheus_port : ℕ) : Type 0 where
    pub has_port : D.get_elem_by_index config.api.ports index ≡ ok api_port
    pub has_prometheus_port :
        D.get_elem_by_index config.api.prometheus.ports index ≡ ok prometheus_port
    pub discovers : new_discovery_register w.etcd w.kubernetes config.discovery ≡ ok tt
    pub connects : w.get_conn config.share.user ≡ ok tt

  -- What `Start` answers once it is up, by the event.
  abbrev ending : ℕ → String → Event → Res (Unit {0})
  ending port address (sigterm t) = of_error (shutdown_error (w.shutdown (15 - t)))
  ending port address (metrics_failed e) =
      err (wrap_msg e ("prometheus start err: " <> w.show port))
  ending port address (serve_failed e) = err (wrap_msg e ("api start err: " <> address))

  served_answer :
      (on : Bool) (port port' : ℕ) (address address' : String) (v : Event) (log : Log)
      → ((go_metrics on port >> (emit (serving address) >> await w port' address' v)) log).0
        ≡ ending port' address' v
  unfolding emit
  served_answer true port port' address address' (sigterm t) log = refl
  served_answer true port port' address address' (metrics_failed e) log = refl
  served_answer true port port' address address' (serve_failed e) log = refl
  served_answer false port port' address address' (sigterm t) log = refl
  served_answer false port port' address address' (metrics_failed e) log = refl
  served_answer false port port' address address' (serve_failed e) log = refl

  start-answer :
      (p q : ℕ) (log : Log)
      → IsUp p q
      → (start log).0 ≡ ending q (w.address config.api.listen_ip p) w.event
  unfolding start new_user
  start-answer p q log u =
      rw (u.has_port, u.has_prometheus_port, u.discovers, u.connects)
        (served_answer config.api.prometheus.enable q q (w.address config.api.listen_ip p)
          (w.address config.api.listen_ip p) w.event log)

  start-IsUp : (log : Log) → (start log).0 ≡ ok tt → (p q : ℕ) × IsUp p q
  unfolding start new_user
  start-IsUp log h =
      let (p, e₁, h₁) = ok-of_continue (D.get_elem_by_index config.api.ports index) _ _ h in
      let (q, e₂, h₂) =
        ok-of_continue (D.get_elem_by_index config.api.prometheus.ports index) _ _ h₁ in
      let (_, e₃, h₃) =
        ok-of_continue
          (register_error (new_discovery_register w.etcd w.kubernetes config.discovery)) _ _ h₂ in
      let (_, e₄, _) = ok-of_continue (new_user w config.share.user) _ _ h₃ in
      (
        p,
        q,
        record {
          has_port = e₁;
          has_prometheus_port = e₂;
          discovers = discovers-of_error _ e₃;
          connects = e₄;
        },
      )
    where
      discovers-of_error : (r : Res (Unit {0})) {u : Unit {0}} → register_error r ≡ ok u → r ≡ ok tt
      discovers-of_error (ok u) h = refl
      discovers-of_error (err e) h = absurd (ground arith)
      discovers-of_error panics h = absurd (ground arith)

  none-of_error : (o : Option Error) → of_error (shutdown_error o) ≡ ok tt → o ≡ none
  none-of_error none h = refl
  none-of_error (some e) h = absurd (ground arith)

  ending-ok_iff :
      (port : ℕ) (address : String) (v : Event)
      → (ending port address v ≡ ok tt) ↔ ((t : ℕ) × (v ≡ sigterm t) × (w.shutdown (15 - t) ≡ none))
  ending-ok_iff port address (sigterm t) = (
    λ h. (t, refl, none-of_error _ h),
    λ (t', same, fine). let e : t ≡ t' = cc in rw e (ap (λ o. of_error (shutdown_error o)) fine),
  )
  ending-ok_iff port address (metrics_failed e) =
      (λ h. absurd (ground arith), λ (t, same, _). absurd (cc))
  ending-ok_iff port address (serve_failed e) =
      (λ h. absurd (ground arith), λ (t, same, _). absurd (cc))

  -- Start of the API process answers nil exactly if the index has both ports, the discovery is
  -- made, and a signal comes at which the server shuts down within what is left then of 15
  -- seconds from the beginning of the wait.
  pub start_in_time_iff :
      (log : Log)
      → ((start log).0 ≡ ok tt)
        ↔ ((p q : ℕ) × IsUp p q × (t : ℕ) × (w.event ≡ sigterm t) × (w.shutdown (15 - t) ≡ none))
  start_in_time_iff log = (
    λ h.
        let (p, q, u) = start-IsUp log h in
        let (t, v, fine) =
          (ending-ok_iff q (w.address config.api.listen_ip p) w.event).0
            (sym (start-answer p q log u) ∙ h) in
        (p, q, u, t, v, fine),
    λ (p, q, u, t, v, fine).
        start-answer p q log u
        ∙ (ending-ok_iff q (w.address config.api.listen_ip p) w.event).1 (t, v, fine),
  )
