-- ===== src/Tests/Monitoring.antt =====
-- The metrics of a request, where they are served and pushed.
use openim_project_template.Base.{
  contains, if◌then◌else◌, ℕ, ◌%◌, String, ◌≡◌, ◌≢◌, ◌↔◌, ◌⊎◌, refl, true, false, Option, none,
  some, List, [], ◌∷◌, All, Res, ok, panics, string_eq, nat_eq,
}
use openim_project_template.Errors.{Error, new}
use openim_project_template.Metrics.Size.{
  Request, add_values, add_header, int_mod, minus_one, compute_approximate_request_size,
}
use openim_project_template.Metrics.Size.Laws.{total, compute_approximate_request_size_lem}
use openim_project_template.Metrics.Registry.{
  Metric, Collector, Prometheus, api_custom_cnt, custom, standard_metrics, new_metric,
  new_prometheus, register_metrics,
}
use openim_project_template.Metrics.Registry.Laws.{
  made_req_cnt, made_req_dur, made_res_sz, made_req_sz, IsKnown,
}
use openim_project_template.Metrics.Handler.{Served, counted, observed, missing, handler_func}
use openim_project_template.Metrics.Handler.Laws.{handler_func_lem}
use openim_project_template.Metrics.Listen.{Gin, Serving}
use openim_project_template.Metrics.Push.{Gateway, Tick, push_ticks, push_ticks-ok_iff}

abbrev request : Request
request = record {
  url_path = some "/user/get";
  method = "GET";
  proto = "HTTP/1.1";
  header = ("A", "x" ∷ "yy" ∷ []) ∷ ("B", []) ∷ [];
  host = "h";
  content_length = minus_one;
}

size_of_request : compute_approximate_request_size request ≡ 26
unfolding compute_approximate_request_size add_header add_values nat_eq
size_of_request = refl

compute_approximate_request_size_example :
    compute_approximate_request_size request ≡ total request % int_mod
compute_approximate_request_size_example = compute_approximate_request_size_lem request

-- A registry that has seen every collector already, which is an error and no panic.
abbrev register : Option Collector → Res (Option Error)
register c = ok (some (new "duplicate metrics collector registration attempted"))

abbrev given : ℕ → Metric
given n = api_custom_cnt

custom-IsKnown : All (IsKnown given "app") (custom 0 ∷ [])
unfolding new_metric string_eq
custom-IsKnown = ((_, refl), tt)

abbrev middleware : Prometheus
middleware = record {
  req_cnt = some (made_req_cnt "app");
  req_dur = some (made_req_dur "app");
  req_sz = some (made_req_sz "app");
  res_sz = some (made_res_sz "app");
  metrics_list = custom 0 ∷ standard_metrics;
  metrics_path = "/metrics";
  url_label_from_context = "";
}

abbrev served : Served
served = record {
  status = "200";
  size = 5;
  elapsed = 9;
  handler_name = "GetUser";
  url = "/user/:id";
  context = λ key. missing;
}

handler_func_example :
    handler_func middleware request served
    ≡ ok (
        observed (made_req_dur "app") ("200" ∷ "GET" ∷ "/user/:id" ∷ []) 9
        ∷ counted (made_req_cnt "app") ("200" ∷ "GET" ∷ "GetUser" ∷ "h" ∷ "/user/:id" ∷ [])
        ∷ observed (made_req_sz "app") [] (compute_approximate_request_size request)
        ∷ observed (made_res_sz "app") [] 5
        ∷ [])
unfolding string_eq
handler_func_example =
    handler_func_lem register (λ c. (_, refl)) given "" (custom 0 ∷ []) custom-IsKnown middleware
      (unfold new_prometheus register_metrics new_metric in refl) request served "/user/get" refl

-- Engines as their routes, handlers among them; a path that is a route already panics.
abbrev get_route : String → List String → Res (List String)
get_route path e = if contains e path then panics else ok (path ∷ e)

abbrev gin : Gin
gin = record {
  Engine = List String;
  default_engine = "logger" ∷ [];
  use_handler = λ e. "handler" ∷ e;
  get = get_route;
  run = λ address e. none;
}

abbrev serving : Serving gin
serving = record { listen_address = ""; router = none; metrics_path = "/metrics"; engine = [] }

abbrev gateway : Gateway
gateway = record {
  push_interval_seconds = 5;
  push_gateway_url = "http://push";
  metrics_url = "http://own/metrics";
  job = "";
}

abbrev ticks : List Tick
ticks =
    (record { metrics = none; request = none; response = true })
    ∷ (record { metrics = some "m"; request = some (new "bad URL"); response = false })
    ∷ []

push_ticks-ok_iff_example :
    (push_ticks "host" ticks gateway ≡ ok tt)
    ↔ All (λ t. (t.request ≢ none) ⊎ (t.response ≡ true)) ticks
push_ticks-ok_iff_example = push_ticks-ok_iff "host" ticks gateway
