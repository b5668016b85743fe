-- ===== src/Startup/Rpc/Shutdown.antt =====
-- How and when `Start` of pkg/common/startrpc/start.go ends after a signal, in seconds. GracefulStop
-- returns when the calls that are in progress have ended, and Shutdown when its connections are idle
-- or its context is over.
use openim_project_template.Base.{
  ℕ, ◌+◌, ◌≤◌, String, ◌≡◌, refl, ap, ◌∙◌, ◌==◌, ◌&&◌, nat_eq, ltb, leb, if◌then◌else◌, Bool, true,
  false, Option, none, some, Res, ok, err, panics, ◌⊎◌, inl, inr, arith, Bool-cases, Option-cases,
}
use openim_project_template.Errors.{Error, new, wrap_msg}
use openim_project_template.Startup.{Log, emit}
use openim_project_template.Startup.Rpc.{await, sigterm, shutdown_metrics}

pub record Signal : Type 0 where
  -- when the calls in progress have ended, if they do
  pub pending : Option ℕ
  -- when the connections of the server of the metrics are idle, if they get so
  pub scrapes : Option ℕ
  -- whether that server is there
  pub metrics_up : Bool
  -- which case a select takes when both are ready
  pub done_first : Bool
  -- an error of closing the listener of that server
  pub closing : Option Error
  -- how long `client.Close()` takes
  pub closing_client : ℕ
  -- `ctx.Err()` of a context that is over
  pub ctx_err : Error

-- Whether something that ends then is done before a context of `limit` seconds is over.
abbrev pub in_time : ℕ → Bool → Option ℕ → Bool
in_time limit first none = false
in_time limit first (some t) = if t == limit then first else ltb t limit

-- How long it is waited for.
abbrev wait : ℕ → Option ℕ → ℕ
wait limit none = limit
wait limit (some t) = if leb t limit then t else limit

-- `gracefulStopWithCtx`: an error or nil, and how long it took. The call of `f` goes on.
unfoldable pub graceful_stop : Signal → Option Error × ℕ
graceful_stop s =
    if in_time 15 s.done_first s.pending
    then (none, wait 15 s.pending)
    else (some (new "timeout, ctx graceful stop"), wait 15 s.pending)

-- `httpServer.Shutdown(ctx)`
unfoldable pub shutdown : Signal → Option Error × ℕ
shutdown s =
    if in_time 15 s.done_first s.scrapes
    then (s.closing, wait 15 s.scrapes)
    else (some s.ctx_err, wait 15 s.scrapes)

-- The case of the signal, up to its return or its panic.
abbrev of_shutdown : Bool → Option Error × ℕ → ℕ → Res (Unit {0}) × ℕ
of_shutdown false r t = (panics, t)
of_shutdown true (none, t') t = (ok tt, t + t')
of_shutdown true (some e, t') t = (err (wrap_msg e "shutdown err"), t + t')

abbrev of_stop : Signal → Bool → Option Error × ℕ → Res (Unit {0}) × ℕ
of_stop s on (some e, t) = (err e, t)
of_stop s on (none, t) = of_shutdown (on && s.metrics_up) (shutdown s) t

unfoldable pub case_sigterm : Signal → Bool → Res (Unit {0}) × ℕ
unfolding graceful_stop shutdown
case_sigterm s on = of_stop s on (graceful_stop s)

-- The deferred `once.Do(srv.GracefulStop)` is the first call of GracefulStop by `once`, and waits for
-- the calls in progress whatever the case has answered; `client.Close()` comes after it. Deferred
-- calls also run at a panic, which then ends the process.
abbrev until : Option ℕ → ℕ → Option ℕ
until none t = none
until (some d) t = some (if leb d t then t else d)

abbrev ended : Res (Unit {0}) → ℕ → Option ℕ → Option (Res (Unit {0}) × ℕ)
ended r close none = none
ended r close (some t) = some (r, t + close)

-- How `Start` ends, by a return or a panic, and when.
unfoldable pub ends_at : Signal → Bool → Option (Res (Unit {0}) × ℕ)
unfolding case_sigterm
ends_at s on = ended (case_sigterm s on).0 s.closing_client (until s.pending (case_sigterm s on).1)

wait-limit : (limit : ℕ) (o : Option ℕ) → wait limit o ≤ limit
wait-limit limit none = omega arith
wait-limit limit (some t) = ground arith

wait-some : (limit t : ℕ) → wait limit (some t) ≤ t
wait-some limit t = ground arith

stop_wait : (s : Signal) → (graceful_stop s).1 ≡ wait 15 s.pending
unfolding graceful_stop
stop_wait s = elim (Bool-cases (in_time 15 s.done_first s.pending)) [
  | inl h ↦ rw h refl
  | inr h ↦ rw h refl
]

shutdown_wait : (s : Signal) → (shutdown s).1 ≡ wait 15 s.scrapes
unfolding shutdown
shutdown_wait s = elim (Bool-cases (in_time 15 s.done_first s.scrapes)) [
  | inl h ↦ rw h refl
  | inr h ↦ rw h refl
]

of_shutdown_time :
    (up : Bool) (o : Option Error) (t' t : ℕ) → t' ≤ 15 → (of_shutdown up (o, t') t).1 ≤ t + 15
of_shutdown_time false o t' t h = omega arith
of_shutdown_time true none t' t h = omega (arith, h)
of_shutdown_time true (some e) t' t h = omega (arith, h)

of_stop_time :
    (s : Signal) (on : Bool) (o : Option Error) (t : ℕ) → (of_stop s on (o, t)).1 ≤ t + 15
of_stop_time s on (some e) t = omega arith
of_stop_time s on none t =
    of_shutdown_time (on && s.metrics_up) (shutdown s).0 (shutdown s).1 t
      (rw (shutdown_wait s) (wait-limit 15 s.scrapes))

-- The case of the signal takes at most 15 seconds more than the calls in progress.
case_time : (s : Signal) (on : Bool) (d : ℕ) → s.pending ≡ some d → (case_sigterm s on).1 ≤ d + 15
unfolding case_sigterm
case_time s on d h =
    let total = of_stop_time s on (graceful_stop s).0 (graceful_stop s).1 in
    let first : (graceful_stop s).1 ≡ wait 15 (some d) = stop_wait s ∙ ap (wait 15) h in
    omega (arith, total, first, wait-some 15 d)

until_bounds :
    (d t : ℕ) → t ≤ d + 15 → (t' : ℕ) × (until (some d) t ≡ some t') × (d ≤ t') × (t' ≤ d + 15)
until_bounds d t h = elim (Bool-cases (leb d t)) [
  | inl before ↦ (t, rw before refl, ground (arith, before), h)
  | inr behind ↦ (d, rw behind refl, omega arith, omega arith)
]

answer_of_shutdown :
    (up : Bool) (o : Option Error) (t' t : ℕ) (log : Log)
    → (of_shutdown up (o, t') t).0 ≡ (shutdown_metrics up o log).0
unfolding emit
answer_of_shutdown false o t' t log = refl
answer_of_shutdown true none t' t log = refl
answer_of_shutdown true (some e) t' t log = refl

-- The answer is that of the model without time.
case_sigterm-await :
    (s : Signal) (on : Bool) (address : String) (log : Log)
    → (case_sigterm s on).0
      ≡ (await on address
          (sigterm s.metrics_up (in_time 15 s.done_first s.pending) (shutdown s).0)
          log).0
unfolding case_sigterm graceful_stop emit
case_sigterm-await s on address log = elim (Bool-cases (in_time 15 s.done_first s.pending)) [
  | inl h ↦ rw h (answer_of_shutdown (on && s.metrics_up) (shutdown s).0 (shutdown s).1 _ _)
  | inr h ↦ rw h refl
]

-- After a signal Start of an RPC process ends exactly if the calls in progress end, by the
-- return or the panic that its wait answers for the signal. Beside the time that closing the
-- client of the discovery takes, it ends not before these calls and at most 15 seconds after
-- them. So the 15 seconds for the graceful stop do not bound how long it runs: the deferred
-- GracefulStop waits on.
pub ends_at_lem :
    (s : Signal) (on : Bool) (address : String) (log : Log)
    → ((s.pending ≡ none) × (ends_at s on ≡ none))
      ⊎ ((d t : ℕ) × (s.pending ≡ some d)
          × (ends_at s on
              ≡ some (
                (await on address
                    (sigterm s.metrics_up (in_time 15 s.done_first s.pending) (shutdown s).0)
                    log).0,
                t,
              ))
          × (d + s.closing_client ≤ t)
          × (t ≤ d + 15 + s.closing_client))
unfolding ends_at
ends_at_lem s on address log = elim (Option-cases s.pending) [
  | inl never ↦ inl (never, rw never refl)
  | inr (d, h) ↦
      let (t, at, after, before) = until_bounds d (case_sigterm s on).1 (case_time s on d h) in
      let r = case_sigterm-await s on address log in
      inr (
        d,
        t + s.closing_client,
        h,
        ap (λ o. ended (case_sigterm s on).0 s.closing_client (until o (case_sigterm s on).1)) h
            ∙ ap (ended (case_sigterm s on).0 s.closing_client) at
            ∙ ap (λ z. some (z, t + s.closing_client)) r,
        omega (arith, after),
        omega (arith, before),
      )
]
