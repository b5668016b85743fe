-- ===== src/Metrics/Registry/Laws.antt =====
-- What `NewPrometheus` sets up.
use openim_project_template.Base.{
  ℕ, String, ◌≡◌, refl, ap, ◌∙◌, ◌==◌, string_eq, if◌then◌else◌, Option, some, List, [], ◌∷◌, ◌++◌,
  Res, ok, arith, All,
}
use openim_project_template.Errors.{Error}
use openim_project_template.Metrics.Registry.{
  Kind, Metric, Collector, MetricRef, req_counter, req_duration, res_size, req_size, custom,
  Prometheus, standard_metrics, counter_vec, histogram_vec, summary, register_metrics,
  new_prometheus, new_metric, deref, api_custom_cnt, assign,
}

-- The collectors of the standard metrics.
abbrev pub made : MetricRef → String → Kind → List String → Collector
made m subsystem k labels = record {
  kind = k;
  subsystem = subsystem;
  name = (deref (λ _. api_custom_cnt) m).name;
  help = (deref (λ _. api_custom_cnt) m).description;
  labels = labels;
}

abbrev pub made_req_cnt : String → Collector
made_req_cnt s =
    made req_counter s counter_vec ("code" ∷ "method" ∷ "handler" ∷ "host" ∷ "url" ∷ [])

abbrev pub made_req_dur : String → Collector
made_req_dur s = made req_duration s histogram_vec ("code" ∷ "method" ∷ "url" ∷ [])

abbrev pub made_res_sz : String → Collector
made_res_sz s = made res_size s summary []

abbrev pub made_req_sz : String → Collector
made_req_sz s = made req_size s summary []

module _ (given : ℕ → Metric) (s : String) where
  standard_made :
      (new_metric (deref given req_counter) s ≡ some (made_req_cnt s))
      × (new_metric (deref given req_duration) s ≡ some (made_req_dur s))
      × (new_metric (deref given res_size) s ≡ some (made_res_sz s))
      × (new_metric (deref given req_size) s ≡ some (made_req_sz s))
  unfolding new_metric string_eq
  standard_made = (refl, refl, refl, refl)

  -- `NewMetric` knows the type of the metric.
  abbrev pub IsKnown : MetricRef → Type 0
  IsKnown m = (c : Collector) × (new_metric (deref given m) s ≡ some c)

module _ (register : Option Collector → Res (Option Error))
    (calm : (c : Collector) → (r : Option Error) × (register (some c) ≡ ok r)) (given : ℕ → Metric)
    (s : String) where
  abbrev run : List MetricRef → Prometheus → Res Prometheus
  run = register_metrics register given s

  -- The fields that `registerMetrics` does not write.
  abbrev SameFields : Prometheus → Prometheus → Type 0
  SameFields p q =
      (q.metrics_list ≡ p.metrics_list)
      × (q.metrics_path ≡ p.metrics_path)
      × (q.url_label_from_context ≡ p.url_label_from_context)

  one_assigned :
      (m : MetricRef) (p : Prometheus)
      → IsKnown given s m
      → (q : Prometheus) × (assign m (new_metric (deref given m) s) p ≡ ok q) × SameFields p q
  one_assigned req_counter p k = (
    record p { req_cnt = some (made_req_cnt s) },
    rw (standard_made given s).0,
    (refl, refl, refl),
  )
  one_assigned req_duration p k = (
    record p { req_dur = some (made_req_dur s) },
    rw (standard_made given s).1,
    (refl, refl, refl),
  )
  one_assigned res_size p k =
      (record p { res_sz = some (made_res_sz s) }, rw (standard_made given s).2, (refl, refl, refl))
  one_assigned req_size p k =
      (record p { req_sz = some (made_req_sz s) }, rw (standard_made given s).3, (refl, refl, refl))
  one_assigned (custom n) p k = (p, refl, (refl, refl, refl))

  registered :
      (ms rest : List MetricRef) (p : Prometheus)
      → All (IsKnown given s) ms
      → (q : Prometheus) × (run (ms ++ rest) p ≡ run rest q) × SameFields p q
  unfolding register_metrics
  registered [] rest p h = (p, refl, (refl, refl, refl))
  registered (m ∷ ms) rest p ((c, known), h) =
      let (q, assigned, f) = one_assigned m p (c, known) in
      let (r, fine) = calm c in
      let (t, more, g) = registered ms rest q h in
      (t, rw (ap register known ∙ fine, assigned) more, ground arith)

  standard_registered :
      (p : Prometheus)
      → run standard_metrics p
        ≡ ok (record p {
          req_cnt = some (made_req_cnt s);
          req_dur = some (made_req_dur s);
          res_sz = some (made_res_sz s);
          req_sz = some (made_req_sz s);
        })
  unfolding register_metrics
  standard_registered p =
      let (cnt, dur, res, req) = standard_made given s in
      simp (
        cnt,
        dur,
        res,
        req,
        (calm (made_req_cnt s)).1,
        (calm (made_req_dur s)).1,
        (calm (made_res_sz s)).1,
        (calm (made_req_sz s)).1,
      )

-- If the caller gives one list, of metrics whose types NewMetric knows, and the registry does
-- not panic on a collector, NewPrometheus does not panic, lists the metrics of the caller and
-- then the standard ones, and sets all four collectors that the handler uses, each of its own
-- kind, under the subsystem that was given or "app".
pub new_prometheus_lem :
    (register : Option Collector → Res (Option Error))
    → ((c : Collector) → (r : Option Error) × (register (some c) ≡ ok r))
    → (given : ℕ → Metric) (subsystem : String) (metrics : List MetricRef)
    → All (IsKnown given (if subsystem == "" then "app" else subsystem)) metrics
    → let s : String = if subsystem == "" then "app" else subsystem in
      (p : Prometheus) × (new_prometheus register given subsystem (metrics ∷ []) ≡ ok p)
      × (p.metrics_list ≡ metrics ++ standard_metrics)
      × (p.metrics_path ≡ "/metrics")
      × (p.url_label_from_context ≡ "")
      × (p.req_cnt ≡ some (made_req_cnt s))
      × (p.req_dur ≡ some (made_req_dur s))
      × (p.res_sz ≡ some (made_res_sz s))
      × (p.req_sz ≡ some (made_req_sz s))
unfolding new_prometheus
new_prometheus_lem register calm given subsystem metrics known =
    let s : String = if subsystem == "" then "app" else subsystem in
    let (q, reached, f) = registered register calm given s metrics standard_metrics _ known in
    let done = standard_registered register calm given s q in
    (
      record q {
        req_cnt = some (made_req_cnt s);
        req_dur = some (made_req_dur s);
        res_sz = some (made_res_sz s);
        req_sz = some (made_req_sz s);
      },
      reached ∙ done,
      f.0,
      f.1,
      f.2,
      refl,
      refl,
      refl,
      refl,
    )
