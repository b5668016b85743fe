-- ===== src/Metrics/Registry.antt =====
-- Metric definitions and the middleware's state, pkg/common/ginprometheus/ginprometheus.go and
-- pkg/common/prommetrics/gin_api.go, prommetrics.go.
pub mod Laws
use openim_project_template.Base.{
  ℕ, String, ◌==◌, string_eq, if◌then◌else◌, Bool, true, false, Option, none, some, List, [], ◌∷◌,
  ◌++◌, Res, ok, err, panics, bind_res,
}
use openim_project_template.Errors.{Error}

pub data Kind : Type 0 where
  counter_vec counter gauge_vec gauge histogram_vec histogram summary_vec summary : Kind

-- `Metric`, without its field `MetricCollector`, which `registerMetrics` writes and nothing reads.
pub record Metric : Type 0 where
  pub id : String
  pub name : String
  pub description : String
  pub type : String
  pub args : List String

-- A collector of the library, by what it was made with.
pub record Collector : Type 0 where
  pub kind : Kind
  pub subsystem : String
  pub name : String
  pub help : String
  pub labels : List String

abbrev with_labels : Kind → Metric → String → Option Collector
with_labels k m subsystem = some (record {
  kind = k;
  subsystem = subsystem;
  name = m.name;
  help = m.description;
  labels = m.args;
})

abbrev without_labels : Kind → Metric → String → Option Collector
without_labels k m subsystem =
    some
      (record { kind = k; subsystem = subsystem; name = m.name; help = m.description; labels = [] })

-- `NewMetric`; a type that it does not know gives nil.
unfoldable pub new_metric : Metric → String → Option Collector
new_metric m subsystem =
    if m.type == "counter_vec"
    then with_labels counter_vec m subsystem
    else if m.type == "counter"
    then without_labels counter m subsystem
    else if m.type == "gauge_vec"
    then with_labels gauge_vec m subsystem
    else if m.type == "gauge"
    then without_labels gauge m subsystem
    else if m.type == "histogram_vec"
    then with_labels histogram_vec m subsystem
    else if m.type == "histogram"
    then without_labels histogram m subsystem
    else if m.type == "summary_vec"
    then with_labels summary_vec m subsystem
    else if m.type == "summary"
    then without_labels summary m subsystem
    else none

-- A `*Metric`: one of the four standard ones, or one of the caller's.
pub data MetricRef : Type 0 where
  req_counter req_duration res_size req_size : MetricRef
  custom : ℕ → MetricRef

-- The four standard metrics; the caller's are `given`.
abbrev pub deref : (ℕ → Metric) → MetricRef → Metric
deref given req_counter = record {
  id = "reqCnt";
  name = "requests_total";
  description = "How many HTTP requests processed, partitioned by status code and HTTP method.";
  type = "counter_vec";
  args = "code" ∷ "method" ∷ "handler" ∷ "host" ∷ "url" ∷ [];
}
deref given req_duration = record {
  id = "reqDur";
  name = "request_duration_seconds";
  description = "The HTTP request latencies in seconds.";
  type = "histogram_vec";
  args = "code" ∷ "method" ∷ "url" ∷ [];
}
deref given res_size = record {
  id = "resSz";
  name = "response_size_bytes";
  description = "The HTTP response sizes in bytes.";
  type = "summary";
  args = [];
}
deref given req_size = record {
  id = "reqSz";
  name = "request_size_bytes";
  description = "The HTTP request sizes in bytes.";
  type = "summary";
  args = [];
}
deref given (custom n) = given n

abbrev pub standard_metrics : List MetricRef
standard_metrics = req_counter ∷ req_duration ∷ res_size ∷ req_size ∷ []

-- `ApiCustomCnt` of prommetrics.
abbrev pub api_custom_cnt : Metric
api_custom_cnt = record {
  id = "";
  name = "custom_total";
  description = "Custom counter events.";
  type = "counter_vec";
  args = "label_one" ∷ "label_two" ∷ [];
}

-- `GetGinCusMetrics`: `ApiCustomCnt`, which is custom metric 0 here, for every name.
unfoldable pub get_gin_cus_metrics : String → List MetricRef
get_gin_cus_metrics name = if name == "Api" then custom 0 ∷ [] else custom 0 ∷ []

abbrev default_metric_path : String
default_metric_path = "/metrics"

-- `Prometheus`, without the push gateway.
pub record Prometheus : Type 0 where
  pub req_cnt : Option Collector
  pub req_dur : Option Collector
  pub req_sz : Option Collector
  pub res_sz : Option Collector
  pub metrics_list : List MetricRef
  pub metrics_path : String
  pub url_label_from_context : String

-- The type assertion `metric.(T)`: a nil interface or another type panics. The interface
-- `prometheus.Summary` has the methods of a histogram, so that is one too.
abbrev is_kind : Kind → Kind → Bool
is_kind counter_vec counter_vec = true
is_kind histogram_vec histogram_vec = true
is_kind summary summary = true
is_kind summary histogram = true
is_kind _ _ = false

abbrev assert_kind : Kind → Option Collector → Res Collector
assert_kind k none = panics
assert_kind k (some c) = if is_kind k c.kind then ok c else panics

-- The switch on the metric's address.
abbrev pub assign : MetricRef → Option Collector → Prometheus → Res Prometheus
assign req_counter c p =
    bind_res (assert_kind counter_vec c) λ a. ok (record p { req_cnt = some a })
assign req_duration c p =
    bind_res (assert_kind histogram_vec c) λ a. ok (record p { req_dur = some a })
assign res_size c p = bind_res (assert_kind summary c) λ a. ok (record p { res_sz = some a })
assign req_size c p = bind_res (assert_kind summary c) λ a. ok (record p { req_sz = some a })
assign (custom n) c p = ok p

-- `register` is `prometheus.Register`, whose error is printed; `given` are the caller's metrics.
module _ (register : Option Collector → Res (Option Error)) (given : ℕ → Metric) where
  -- The loop of `registerMetrics`.
  unfoldable pub register_metrics : String → List MetricRef → Prometheus → Res Prometheus
  register_metrics subsystem [] p = ok p
  register_metrics subsystem (m ∷ ms) p =
      let c = new_metric (deref given m) subsystem in
      bind_res (register c) λ _. bind_res (assign m c p) λ q. register_metrics subsystem ms q

  abbrev fresh : List MetricRef → Prometheus
  fresh metrics = record {
    req_cnt = none;
    req_dur = none;
    req_sz = none;
    res_sz = none;
    metrics_list = metrics;
    metrics_path = default_metric_path;
    url_label_from_context = "";
  }

  abbrev build : String → List MetricRef → Res Prometheus
  build subsystem metrics =
      let list = metrics ++ standard_metrics in register_metrics subsystem list (fresh list)

  -- The variable number of arguments.
  abbrev new_with : String → List (List MetricRef) → Res Prometheus
  new_with name [] = build name []
  new_with name (metrics ∷ []) = build name metrics
  new_with name _ = panics

  -- `NewPrometheus`
  unfoldable pub new_prometheus : String → List (List MetricRef) → Res Prometheus
  new_prometheus subsystem lists = new_with (if subsystem == "" then "app" else subsystem) lists
