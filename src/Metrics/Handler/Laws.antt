-- ===== src/Metrics/Handler/Laws.antt =====
-- What the middleware of `NewPrometheus` records.
use openim_project_template.Base.{
  ℕ, String, ◌≡◌, sym, ◌∙◌, ◌==◌, string_eq, if◌then◌else◌, Option, some, List, [], ◌∷◌, Res, ok,
  arith, All,
}
use openim_project_template.Errors.{Error}
use openim_project_template.Metrics.Size.{Request, compute_approximate_request_size}
use openim_project_template.Metrics.Registry.{
  Collector, MetricRef, Metric, Prometheus, new_prometheus,
}
use openim_project_template.Metrics.Registry.Laws.{
  IsKnown, made_req_cnt, made_req_dur, made_res_sz, made_req_sz, new_prometheus_lem,
}
use openim_project_template.Metrics.Handler.{Served, Observation, counted, observed, handler_func}

ok_injective : {A : Type 0} {a b : A} → ◌≡◌ {A = Res A} (ok a) (ok b) → a ≡ b
ok_injective h = cc

-- What the handler records where its four collectors are set.
abbrev all_four :
    Collector → Collector → Collector → Collector → Request → Served → String → List Observation
all_four dur cnt rq rs r v path =
    if path == "/metrics"
    then []
    else (observed dur (v.status ∷ r.method ∷ v.url ∷ []) v.elapsed
        ∷ counted cnt (v.status ∷ r.method ∷ v.handler_name ∷ r.host ∷ v.url ∷ [])
        ∷ observed rq [] (compute_approximate_request_size r)
        ∷ observed rs [] v.size
        ∷ [])

handler_func_set :
    (p : Prometheus) (r : Request) (v : Served) (path : String) (dur cnt rq rs : Collector)
    → r.url_path ≡ some path
    → p.metrics_path ≡ "/metrics"
    → p.url_label_from_context ≡ ""
    → p.req_cnt ≡ some cnt
    → p.req_dur ≡ some dur
    → p.res_sz ≡ some rs
    → p.req_sz ≡ some rq
    → handler_func p r v ≡ ok (all_four dur cnt rq rs r v path)
unfolding handler_func
handler_func_set p r v path dur cnt rq rs has at label e₁ e₂ e₃ e₄ =
    simp (has, at, label, e₁, e₂, e₃, e₄) (ground arith)

-- A middleware that NewPrometheus made, from one list of known metrics and a registry that does
-- not panic, never panics on a request that has a URL. It records nothing for the metrics path,
-- and for any other path four observations, each in its own collector: the latency and the count
-- under the status, the method and the route, and the sizes of the request and of the response.
pub handler_func_lem :
    (register : Option Collector → Res (Option Error))
    → ((c : Collector) → (r : Option Error) × (register (some c) ≡ ok r))
    → (given : ℕ → Metric) (subsystem : String) (metrics : List MetricRef)
    → All (IsKnown given (if subsystem == "" then "app" else subsystem)) metrics
    → (p : Prometheus) → new_prometheus register given subsystem (metrics ∷ []) ≡ ok p
    → (r : Request) (v : Served) (path : String) → r.url_path ≡ some path
    → let s : String = if subsystem == "" then "app" else subsystem in
      handler_func p r v
      ≡ ok (
          if path == "/metrics"
          then []
          else (observed (made_req_dur s) (v.status ∷ r.method ∷ v.url ∷ []) v.elapsed
              ∷ counted
                  (made_req_cnt s)
                  (v.status ∷ r.method ∷ v.handler_name ∷ r.host ∷ v.url ∷ [])
              ∷ observed (made_req_sz s) [] (compute_approximate_request_size r)
              ∷ observed (made_res_sz s) [] v.size
              ∷ []))
handler_func_lem register calm given subsystem metrics known p made r v path has =
    let (q, done, _, at, label, cnt, dur, res, req) =
      new_prometheus_lem register calm given subsystem metrics known in
    let same : p ≡ q = ok_injective (sym made ∙ done) in
    rw same (handler_func_set q r v path _ _ _ _ has at label cnt dur res req)
