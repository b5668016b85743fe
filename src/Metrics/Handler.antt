-- ===== src/Metrics/Handler.antt =====
-- The middleware, `HandlerFunc`, with the requests that it measures.
pub mod Laws
use openim_project_template.Base.{
  ℕ, ltb, String, ◌==◌, string_eq, if◌then◌else◌, Option, none, some, List, [], ◌∷◌, Res, ok, err,
  panics, bind_res, ◌++◌,
}
use Prim.Native.String.{len}
use openim_project_template.Metrics.Size
use openim_project_template.Metrics.Size.{Request, compute_approximate_request_size}
use openim_project_template.Metrics.Registry.{Collector, Prometheus}

-- What `c.Get(key)` finds: nothing, a string, or a value of another type.
pub data Found : Type 0 where
  missing : Found
  text : String → Found
  other : Found

-- What the handlers behind the middleware leave in the context, and the route that was matched. The
-- size of a response to which nothing was written, -1, is a number like another here.
pub record Served : Type 0 where
  pub status : String
  pub size : ℕ
  pub elapsed : ℕ
  pub handler_name : String
  pub url : String
  pub context : String → Found

-- One call of `Inc` or `Observe`, with the labels; a size or a time is the observed number.
pub data Observation : Type 0 where
  counted : Collector → List String → Observation
  observed : Collector → List String → ℕ → Observation

abbrev use_collector : {A : Type 0} → Option Collector → (Collector → Res A) → Res A
use_collector none f = panics
use_collector (some c) f = f c

-- The type assertion on the label from the context.
abbrev label_text : Found → Res String
label_text missing = ok "unknown"
label_text (text u) = ok u
label_text other = panics

abbrev path_of : Option String → Res String
path_of none = panics
path_of (some path) = ok path

-- The calls on the four collectors, in their order; a nil collector panics.
abbrev observe : Prometheus → Request → Served → ℕ → String → Res (List Observation)
observe p r v req_sz url = use_collector p.req_dur λ dur. use_collector p.req_cnt λ cnt.
    use_collector p.req_sz λ rq. use_collector p.res_sz λ rs. ok (
      observed dur (v.status ∷ r.method ∷ url ∷ []) v.elapsed
      ∷ counted cnt (v.status ∷ r.method ∷ v.handler_name ∷ r.host ∷ url ∷ [])
      ∷ observed rq [] req_sz
      ∷ observed rs [] v.size
      ∷ [])

abbrev label_of : Prometheus → Served → Res String
label_of p v =
    if ltb 0 (len p.url_label_from_context)
    then label_text (v.context p.url_label_from_context)
    else ok v.url

-- `HandlerFunc`, around a call of `c.Next()` that leaves `v`; the size of the request is taken
-- before that call. `ReqCntURLLabelMappingFn` gives the matched route, `v.url`.
unfoldable pub handler_func : Prometheus → Request → Served → Res (List Observation)
handler_func p r v = bind_res (path_of r.url_path) λ path.
    if path == p.metrics_path
    then ok []
    else bind_res (label_of p v) (observe p r v (compute_approximate_request_size r))
