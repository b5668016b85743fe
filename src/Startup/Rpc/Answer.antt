-- ===== src/Startup/Rpc/Answer.antt =====
-- What `Start` of startrpc answers.
use openim_project_template.Base.{
  ℕ, String, ◌≡◌, ◌↔◌, refl, sym, ◌∙◌, Bool, true, false, ◌&&◌, Option, none, some, List, [], ◌∷◌,
  Res, ok, err, panics, arith, ◌>>◌, if◌then◌else◌,
}
use openim_project_template.Errors.{Error, new, wrap_msg, wrap_kv}
use openim_project_template.Tools.{DataUtil, Index}
use openim_project_template.Config.Settings.{Discovery, Prometheus}
use openim_project_template.Metrics.Grpc.{GrpcCollector}
use openim_project_template.Discovery.{new_discovery_register}
use openim_project_template.Startup.{Log, scoped, defer, emit}
use openim_project_template.Startup.Steps.{ok-of_continue, none-of_try}
use openim_project_template.Startup.Rpc.{
  World, Event, sigterm, metrics_failed, serve_failed, listen_error, await, go_serve, metrics_on,
  grpc_metrics_made, with_server, start,
}

-- What the answer is once all servers are up, by the event.
abbrev answer_of : Bool → String → Event → Res (Unit {0})
answer_of on address (sigterm up true none) = if on && up then ok tt else panics
answer_of on address (sigterm up true (some e)) =
    if on && up then err (wrap_msg e "shutdown err") else panics
answer_of on address (sigterm up false _) = err (new "timeout, ctx graceful stop")
answer_of on address (metrics_failed e at) = err (wrap_kv e "prometheus start err" ((at, "") ∷ []))
answer_of on address (serve_failed e) = err (wrap_kv e "rpc start err: " ((address, "") ∷ []))

await_answer :
    (on : Bool) (address : String) (v : Event) (log : Log)
    → (await on address v log).0 ≡ answer_of on address v
unfolding emit
await_answer true address (sigterm true true none) log = refl
await_answer true address (sigterm true true (some e)) log = refl
await_answer true address (sigterm true false o) log = refl
await_answer true address (sigterm false true none) log = refl
await_answer true address (sigterm false true (some e)) log = refl
await_answer true address (sigterm false false o) log = refl
await_answer false address (sigterm up true none) log = refl
await_answer false address (sigterm up true (some e)) log = refl
await_answer false address (sigterm up false o) log = refl
await_answer on address (metrics_failed e at) log = refl
await_answer on address (serve_failed e) log = refl

served_answer :
    (on : Bool) (port : ℕ) (address : String) (v : Event) (log : Log)
    → ((go_serve on port address >> await on address v) log).0 ≡ answer_of on address v
unfolding emit
served_answer true port address v log = await_answer true address v _
served_answer false port address v log = await_answer false address v _

pub listens-of_error :
    (address : String) (o : Option Error) → listen_error address o ≡ none → o ≡ none
listens-of_error address none h = refl
listens-of_error address (some e) h = absurd (ground arith)

answer_ok :
    (on : Bool) (address : String) (v : Event)
    → (answer_of on address v ≡ ok tt) ↔ ((on ≡ true) × (v ≡ sigterm true true none))
answer_ok true address (sigterm true true none) = (λ h. (refl, refl), λ h. refl)
answer_ok true address (sigterm true true (some e)) = (λ h. absurd (ground arith), λ h. absurd (cc))
answer_ok true address (sigterm false true none) = (λ h. absurd (ground arith), λ h. absurd (cc))
answer_ok true address (sigterm false true (some e)) =
    (λ h. absurd (ground arith), λ h. absurd (cc))
answer_ok false address (sigterm up true none) =
    (λ h. absurd (ground arith), λ h. absurd (ground arith))
answer_ok false address (sigterm up true (some e)) =
    (λ h. absurd (ground arith), λ h. absurd (ground arith))
answer_ok on address (sigterm up false o) = (λ h. absurd (ground arith), λ h. absurd (cc))
answer_ok on address (metrics_failed e at) = (λ h. absurd (ground arith), λ h. absurd (cc))
answer_ok on address (serve_failed e) = (λ h. absurd (ground arith), λ h. absurd (cc))

module _ (D : DataUtil) (w : World) (discovery : Discovery) (prometheus : Prometheus)
    (listen_ip register_ip : String) (rpc_ports : List ℕ) (index : Index) (name : String)
    (cus_metrics : List GrpcCollector) where
  -- Everything that `Start` does before it waits succeeds, with these ports and this address.
  pub record IsUp (rpc_port prometheus_port : ℕ) (ip : String) : Type 0 where
    pub has_port : D.get_elem_by_index rpc_ports index ≡ ok rpc_port
    pub has_prometheus_port : D.get_elem_by_index prometheus.ports index ≡ ok prometheus_port
    pub listens : w.listen (w.address listen_ip rpc_port) ≡ none
    pub discovers : new_discovery_register w.etcd w.kubernetes discovery ≡ ok tt
    pub has_ip : w.register_ip register_ip ≡ ok ip
    pub makes_metrics : grpc_metrics_made w prometheus cus_metrics ≡ ok tt
    pub has_handlers : w.rpc_fn ≡ ok tt
    pub registers : w.register name ip rpc_port ≡ none

  with_server-answer :
      (rpc_port prometheus_port : ℕ) (ip : String) (log : Log)
      → IsUp rpc_port prometheus_port ip
      → let address : String = w.address listen_ip rpc_port in
        (with_server D w discovery prometheus listen_ip register_ip rpc_ports index name cus_metrics
          rpc_port prometheus_port address ip log).0
        ≡ answer_of (metrics_on prometheus prometheus_port) address w.event
  unfolding with_server
  with_server-answer rpc_port prometheus_port ip log u =
      rw (u.has_handlers, u.registers)
        (served_answer (metrics_on prometheus prometheus_port) prometheus_port
          (w.address listen_ip rpc_port) w.event _)

  start-answer :
      (rpc_port prometheus_port : ℕ) (ip : String) (log : Log)
      → IsUp rpc_port prometheus_port ip
      → (start D w discovery prometheus listen_ip register_ip rpc_ports index name cus_metrics
          log).0
        ≡ answer_of (metrics_on prometheus prometheus_port) (w.address listen_ip rpc_port) w.event
  unfolding start scoped defer
  start-answer rpc_port prometheus_port ip log u =
      rw (u.has_port, u.has_prometheus_port, u.listens, u.discovers, u.has_ip, u.makes_metrics)
        (with_server-answer rpc_port prometheus_port ip _ u)

  start-IsUp :
      (log : Log)
      → (start D w discovery prometheus listen_ip register_ip rpc_ports index name cus_metrics
          log).0
        ≡ ok tt
      → (rpc_port prometheus_port : ℕ) × (ip : String) × IsUp rpc_port prometheus_port ip
  unfolding start scoped defer emit with_server
  start-IsUp log h =
      let (rpc_port, e₁, h₁) = ok-of_continue (D.get_elem_by_index rpc_ports index) _ _ h in
      let (prometheus_port, e₂, h₂) =
        ok-of_continue (D.get_elem_by_index prometheus.ports index) _ _ h₁ in
      let address = w.address listen_ip rpc_port in
      let (e₃, h₃) = none-of_try (listen_error address (w.listen address)) _ _ h₂ in
      let (_, e₄, h₄) =
        ok-of_continue (new_discovery_register w.etcd w.kubernetes discovery) _ _ h₃ in
      let (ip, e₅, h₅) = ok-of_continue (w.register_ip register_ip) _ _ h₄ in
      let (_, e₈, h₈) = ok-of_continue (grpc_metrics_made w prometheus cus_metrics) _ _ h₅ in
      let (_, e₆, h₆) = ok-of_continue w.rpc_fn _ _ h₈ in
      let (e₇, h₇) = none-of_try (w.register name ip rpc_port) _ _ h₆ in
      (
        rpc_port,
        prometheus_port,
        ip,
        record {
          has_port = e₁;
          has_prometheus_port = e₂;
          listens = listens-of_error address (w.listen address) e₃;
          discovers = e₄;
          has_ip = e₅;
          makes_metrics = e₈;
          has_handlers = e₆;
          registers = e₇;
        },
      )

  -- Start of an RPC process answers nil exactly if everything up to its wait succeeds, the
  -- metrics are enabled on a port that is not 0, and a signal comes, after the metrics are up,
  -- at which both servers stop in time.
  pub start-ok_iff :
      (log : Log)
      → ((start D w discovery prometheus listen_ip register_ip rpc_ports index name cus_metrics
            log).0
          ≡ ok tt)
        ↔ ((rpc_port prometheus_port : ℕ) × (ip : String) × IsUp rpc_port prometheus_port ip
            × (metrics_on prometheus prometheus_port ≡ true)
            × (w.event ≡ sigterm true true none))
  start-ok_iff log = (
    λ h.
        let (p, q, ip, u) = start-IsUp log h in
        let (on, stopped) =
          (answer_ok (metrics_on prometheus q) (w.address listen_ip p) w.event).0
            (sym (start-answer p q ip log u) ∙ h) in
        (p, q, ip, u, on, stopped),
    λ (p, q, ip, u, on, stopped).
        start-answer p q ip log u
        ∙ (answer_ok (metrics_on prometheus q) (w.address listen_ip p) w.event).1 (on, stopped),
  )

  -- Where the metrics are not enabled, or their port is 0, a signal to an RPC process that is up
  -- makes Start panic, also if the server stops in time.
  pub start_sigterm_panics :
      (rpc_port prometheus_port : ℕ) (ip : String) (log : Log) (up : Bool) (shutdown : Option Error)
      → IsUp rpc_port prometheus_port ip
      → metrics_on prometheus prometheus_port ≡ false
      → w.event ≡ sigterm up true shutdown
      → (start D w discovery prometheus listen_ip register_ip rpc_ports index name cus_metrics
          log).0
        ≡ panics
  start_sigterm_panics p q ip log up none u off v = start-answer p q ip log u ∙ rw (off, v) refl
  start_sigterm_panics p q ip log up (some e) u off v = start-answer p q ip log u ∙ rw (off, v) refl
