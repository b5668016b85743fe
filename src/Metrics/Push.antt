-- ===== src/Metrics/Push.antt =====
-- Pushing metrics to a gateway, in pkg/common/ginprometheus/ginprometheus.go.
use openim_project_template.Base.{
  ℕ, String, ◌<>◌, ◌≡◌, ◌≢◌, ◌⊎◌, ◌↔◌, refl, ap, ◌==◌, string_eq, if◌then◌else◌, Bool, true, false,
  Option, none, some, List, [], ◌∷◌, Res, ok, panics, bind_res, arith, All,
}
use openim_project_template.Errors.{Error}

-- `PrometheusPushGateway`
pub record Gateway : Type 0 where
  pub push_interval_seconds : ℕ
  pub push_gateway_url : String
  pub metrics_url : String
  pub job : String

-- The fields that `SetPushGateway` sets; it then starts the ticker, `push_ticks` below.
unfoldable pub set_push_gateway : String → String → ℕ → Gateway → Gateway
set_push_gateway url metrics_url seconds g = record g {
  push_gateway_url = url;
  metrics_url = metrics_url;
  push_interval_seconds = seconds;
}

-- `SetPushGatewayJob`
unfoldable pub set_push_gateway_job : String → Gateway → Gateway
set_push_gateway_job j g = record g { job = j }

-- `getPushGatewayURL`, with the job that it may set; `hostname` is the machine's.
unfoldable pub get_push_gateway_url : String → Gateway → String × Gateway
get_push_gateway_url hostname g =
    let h : Gateway = record g { job = if g.job == "" then "gin" else g.job } in
    (h.push_gateway_url <> "/metrics/job/" <> h.job <> "/instance/" <> hostname, h)

-- What one tick meets: the body of the own metrics, if `http.Get` gives one, the outcome of
-- `http.NewRequest`, and whether `client.Do` gives a response; without one it gives an error.
pub record Tick : Type 0 where
  pub metrics : Option String
  pub request : Option Error
  pub response : Bool

-- `getMetrics`; nil is the empty body.
unfoldable pub get_metrics : Tick → String
get_metrics t = elim t.metrics [ none ↦ "" | some body ↦ body ]

-- A call that was sent: its URL and its body.
pub record Sent : Type 0 where
  pub url : String
  pub body : String

-- After `client.Do`, the body of the response is closed also if there was an error: of a nil
-- response that panics.
abbrev closed : Bool → List Sent → Res (List Sent)
closed true sent = ok sent
closed false sent = panics

abbrev send_with : Option Error → Bool → Sent → Res (List Sent)
send_with (some e) response s = ok []
send_with none response s = closed response (s ∷ [])

-- `sendMetricsToPushGateway`
unfoldable pub send_metrics_to_push_gateway :
    String → Tick → String → Gateway → Res (List Sent) × Gateway
unfolding get_push_gateway_url
send_metrics_to_push_gateway hostname t metrics g =
    let (url, h) = get_push_gateway_url hostname g in
    (send_with t.request t.response (record { url = url; body = metrics }), h)

-- The loop of `startPushTicker` over the ticks of the clock: whether it is still running after
-- them. A panic ends it, and the process with it.
unfoldable pub push_ticks : String → List Tick → Gateway → Res (Unit {0})
push_ticks hostname [] g = ok tt
push_ticks hostname (t ∷ ts) g =
    let sent = send_metrics_to_push_gateway hostname t (get_metrics t) g in
    let rest = push_ticks hostname ts sent.1 in bind_res sent.0 λ _. rest

abbrev named : String → String
named job = if job == "" then "gin" else job

named-twice : (job : String) → named (named job) ≡ named job
named-twice job = elim (string_eq.dec job "") [
  | yes e ↦ ground (arith, e)
  | no n ↦ ground (arith, n)
]

-- The job of a gateway's URL is the one that was set, or "gin", and asking again gives the same.
get_push_gateway_url_twice :
    (hostname : String) (g : Gateway)
    → let first : String × Gateway = get_push_gateway_url hostname g in
      (get_push_gateway_url hostname first.1 ≡ first)
      × (first.1.job ≡ (if g.job == "" then "gin" else g.job))
unfolding get_push_gateway_url
get_push_gateway_url_twice hostname g = (
  ap
      (λ j. (
        g.push_gateway_url <> "/metrics/job/" <> j <> "/instance/" <> hostname,
        record g { job = j },
      ))
      (named-twice g.job),
  refl,
)

sent-ok_iff :
    (q : Option Error) (response : Bool) (s : Sent) (rest : Res (Unit {0}))
    → (bind_res (send_with q response s) (λ _. rest) ≡ ok tt)
      ↔ (((q ≢ none) ⊎ (response ≡ true)) × (rest ≡ ok tt))
sent-ok_iff (some e) response s rest = (λ h. (ground arith, h), λ (_, h). h)
sent-ok_iff none true s rest = (λ h. (ground arith, h), λ (_, h). h)
sent-ok_iff none false s rest = (λ h. absurd (ground arith), λ (h, _). absurd (ground arith))

-- The push ticker runs through its ticks exactly as long as each of them fails to make a request
-- or gets a response.
pub push_ticks-ok_iff :
    (hostname : String) (ts : List Tick) (g : Gateway)
    → (push_ticks hostname ts g ≡ ok tt) ↔ All (λ t. (t.request ≢ none) ⊎ (t.response ≡ true)) ts
unfolding push_ticks send_metrics_to_push_gateway
push_ticks-ok_iff hostname [] g = (λ _. tt, λ _. refl)
push_ticks-ok_iff hostname (t ∷ ts) g =
    let sent = send_metrics_to_push_gateway hostname t (get_metrics t) g in
    let (to, from) = push_ticks-ok_iff hostname ts sent.1 in
    let (out, back) = sent-ok_iff t.request t.response _ (push_ticks hostname ts sent.1) in
    (λ h. let (fine, rest) = out h in (fine, to rest), λ (fine, rest). back (fine, from rest))
