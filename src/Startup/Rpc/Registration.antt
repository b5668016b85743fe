-- ===== src/Startup/Rpc/Registration.antt =====
-- When and as what `Start` of pkg/common/startrpc/start.go registers its service at the discovery.
use openim_project_template.Base.{
  ℕ, String, ◌≡◌, ◌↔◌, refl, ◌∙◌, string_eq, nat_eq, Bool, true, false, Option, none, some, List,
  [], ◌∷◌, ◌++◌, ok, Act, lift, ◌>>=◌, ◌>>◌, arith,
}
use openim_project_template.Errors.{Error}
use openim_project_template.Tools.{DataUtil, Index}
use openim_project_template.Config.Settings.{Discovery, Prometheus}
use openim_project_template.Metrics.Grpc.{GrpcCollector}
use openim_project_template.Discovery.{new_discovery_register}
use openim_project_template.Startup.{
  listener, client, server, acquired, called_rpc_fn, registered, Log, scoped, defer, emit,
}
use openim_project_template.Startup.Rpc.{
  World, Event, sigterm, metrics_failed, serve_failed, listen_error, await, go_serve, metrics_on,
  grpc_metrics_made, with_server, start, shutdown_metrics, graceful_stop_with_ctx,
}
use openim_project_template.Startup.Rpc.Answer.{IsUp, listens-of_error}
use openim_project_template.Startup.Registered.{
  is_registration, has_registration, has_registration-append, ok-of_registered, none-of_registered,
  Silent, silent_rules, of_scoped, released_last, is_registration-same,
}

module _ (n i : String) (p : ℕ) where
  shutdown-Silent : (on : Bool) (o : Option Error) → Silent n i p (shutdown_metrics on o)
  shutdown-Silent false o = search silent_rules
  shutdown-Silent true none = search silent_rules
  shutdown-Silent true (some e) = search silent_rules

  stop-Silent : (in_time : Bool) → Silent n i p (graceful_stop_with_ctx in_time)
  stop-Silent true = search silent_rules
  stop-Silent false = search silent_rules

  await-Silent : (on : Bool) (address : String) (v : Event) → Silent n i p (await on address v)
  await-Silent on address (sigterm up in_time shutdown) =
      search (silent_rules, stop-Silent, shutdown-Silent)
  await-Silent on address (metrics_failed e at) = search silent_rules
  await-Silent on address (serve_failed e) = search silent_rules

  serve-Silent :
      (on : Bool) (port : ℕ) (address : String) (v : Event)
      → Silent n i p (go_serve on port address >> await on address v)
  serve-Silent true port address v = search (silent_rules, await-Silent) depth 8
  serve-Silent false port address v = search (silent_rules, await-Silent) depth 8

module _ (D : DataUtil) (w : World) (discovery : Discovery) (prometheus : Prometheus)
    (listen_ip register_ip : String) (rpc_ports : List ℕ) (index : Index) (name : String)
    (cus_metrics : List GrpcCollector) (n i : String) (p : ℕ) where
  abbrev Up : ℕ → ℕ → String → Type 0
  Up = IsUp D w discovery prometheus listen_ip register_ip rpc_ports index name cus_metrics

  with_server_registered :
      (rpc_port prometheus_port : ℕ) (address ip : String) (log : Log)
      → has_registration n i p log ≡ false
      → has_registration n i p
          (with_server D w discovery prometheus listen_ip register_ip rpc_ports index name
            cus_metrics rpc_port prometheus_port address ip log).1
        ≡ true
      → (w.rpc_fn ≡ ok tt)
        × (w.register name ip rpc_port ≡ none)
        × (n ≡ name)
        × (i ≡ ip)
        × (p ≡ rpc_port)
  unfolding with_server emit
  with_server_registered rpc_port prometheus_port address ip log no_log h =
      let none_yet : has_registration n i p (log ++ called_rpc_fn ∷ []) ≡ false =
        ground (arith, no_log, has_registration-append n i p log (called_rpc_fn ∷ [])) in
      let (_, e₁, h₁) = ok-of_registered n i p w.rpc_fn _ (log ++ called_rpc_fn ∷ []) none_yet h in
      let (e₂, h₂) =
        none-of_registered n i p (w.register name ip rpc_port) _ (log ++ called_rpc_fn ∷ [])
          none_yet h₁ in
      let log' : Log = log ++ called_rpc_fn ∷ [] in
      let quiet =
        (serve-Silent n i p (metrics_on prometheus prometheus_port) prometheus_port address
            w.event).adds
          (log' ++ registered name ip rpc_port ∷ []) in
      let now : is_registration n i p (registered name ip rpc_port) ≡ true = ground (
        arith,
        quiet,
        h₂,
        none_yet,
        has_registration-append n i p log' (registered name ip rpc_port ∷ []),
      ) in
      let (a, b, c) = is_registration-same n name i ip p rpc_port now in (e₁, e₂, a, b, c)

  -- `Start` inside of its deferred calls.
  abbrev in_server : ℕ → ℕ → String → Act Log (Unit {0})
  in_server rpc_port q ip =
      with_server D w discovery prometheus listen_ip register_ip rpc_ports index name cus_metrics
        rpc_port q (w.address listen_ip rpc_port) ip

  abbrev in_client : ℕ → ℕ → Act Log (Unit {0})
  in_client rpc_port q = do
    ip ← lift (w.register_ip register_ip)
    lift (grpc_metrics_made w prometheus cus_metrics)
    scoped server (in_server rpc_port q ip)

  abbrev in_listener : ℕ → ℕ → Act Log (Unit {0})
  in_listener rpc_port q = do
    lift (new_discovery_register w.etcd w.kubernetes discovery)
    scoped client (in_client rpc_port q)

  start_registered :
      has_registration n i p
          (start D w discovery prometheus listen_ip register_ip rpc_ports index name cus_metrics
            []).1
        ≡ true
      → (rpc_port q : ℕ) × (ip : String) × Up rpc_port q ip × (n ≡ name) × (i ≡ ip) × (p ≡ rpc_port)
  unfolding start
  start_registered h =
      let (rpc_port, e₁, h₁) =
        ok-of_registered n i p (D.get_elem_by_index rpc_ports index) _ [] refl h in
      let (q, e₂, h₂) =
        ok-of_registered n i p (D.get_elem_by_index prometheus.ports index) _ [] refl h₁ in
      let address = w.address listen_ip rpc_port in
      let (e₃, h₃) =
        none-of_registered n i p (listen_error address (w.listen address)) _ [] refl h₂ in
      let h₄ = of_scoped n i p listener (in_listener rpc_port q) [] h₃ in
      let (_, e₅, h₅) =
        ok-of_registered n i p (new_discovery_register w.etcd w.kubernetes discovery) _
          (acquired listener ∷ []) refl h₄ in
      let h₆ = of_scoped n i p client (in_client rpc_port q) (acquired listener ∷ []) h₅ in
      let (ip, e₇, h₇) =
        ok-of_registered n i p (w.register_ip register_ip) _
          (acquired listener ∷ acquired client ∷ []) refl h₆ in
      let (_, e₈, h₈) =
        ok-of_registered n i p (grpc_metrics_made w prometheus cus_metrics) _
          (acquired listener ∷ acquired client ∷ []) refl h₇ in
      let h₉ =
        of_scoped n i p server (in_server rpc_port q ip) (acquired listener ∷ acquired client ∷ [])
          h₈ in
      let (e₁₀, e₁₁, same, here, port) =
        with_server_registered rpc_port q address ip
          (acquired listener ∷ acquired client ∷ acquired server ∷ []) refl h₉ in
      (
        rpc_port,
        q,
        ip,
        record {
          has_port = e₁;
          has_prometheus_port = e₂;
          listens = listens-of_error address (w.listen address) e₃;
          discovers = e₅;
          has_ip = e₇;
          makes_metrics = e₈;
          has_handlers = e₁₀;
          registers = e₁₁;
        },
        same,
        here,
        port,
      )

  has_registration-start :
      (rpc_port q : ℕ) (ip : String)
      → Up rpc_port q ip
      → has_registration name ip rpc_port
          (start D w discovery prometheus listen_ip register_ip rpc_ports index name cus_metrics
            []).1
        ≡ true
  unfolding start scoped defer emit with_server
  has_registration-start rpc_port q ip u =
      let log : Log =
        acquired listener
        ∷ acquired client
        ∷ acquired server
        ∷ called_rpc_fn
        ∷ registered name ip rpc_port
        ∷ [] in
      let on = metrics_on prometheus q in
      let address = w.address listen_ip rpc_port in
      rw (u.has_port, u.has_prometheus_port, u.listens, u.discovers, u.has_ip, u.makes_metrics)
        (rw (u.has_handlers, u.registers)
          (released_last name ip rpc_port
              ((go_serve on q address >> await on address w.event) log).1
            ∙ (serve-Silent name ip rpc_port on q address w.event).adds log
            ∙ ground arith))

  -- Start of an RPC process registers a name at an address and a port exactly if everything
  -- before its wait succeeds, and they are its own name, the address that is found for it, and
  -- the port of its index: it listens there, and its handlers are registered.
  pub start-registers_iff :
      (has_registration n i p
          (start D w discovery prometheus listen_ip register_ip rpc_ports index name cus_metrics
            []).1
        ≡ true)
      ↔ ((rpc_port q : ℕ) × (ip : String) × IsUp D w discovery prometheus listen_ip register_ip
            rpc_ports index name cus_metrics rpc_port q ip
          × (n ≡ name)
          × (i ≡ ip)
          × (p ≡ rpc_port))
  start-registers_iff = (
    start_registered,
    λ (rpc_port, q, ip, u, same, here, port).
        rw (same, here, port) (has_registration-start rpc_port q ip u),
  )
