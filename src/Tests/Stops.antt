-- ===== src/Tests/Stops.antt =====
-- A signal to an RPC process, with a call that goes on.
use openim_project_template.Base.{
  err, panics, false, [], some, ℕ, ◌+◌, ◌≤◌, ◌⊎◌, ◌≡◌, refl, true, none, string_eq, nat_eq,
}
use openim_project_template.Errors.{new}
use openim_project_template.Startup.Rpc.{await, sigterm}
use openim_project_template.Startup.Rpc.Shutdown.{
  Signal, graceful_stop, shutdown, case_sigterm, ends_at, ends_at_lem, in_time,
}

-- A call that is in progress for 40 seconds after the signal.
abbrev long_call : Signal
long_call = record {
  pending = some 40;
  scrapes = some 1;
  closing = none;
  metrics_up = true;
  done_first = true;
  closing_client = 2;
  ctx_err = new "context deadline exceeded";
}

-- The answer is the error after 15 seconds, and it comes after 42.
long_call_late : ends_at long_call true ≡ some (err (new "timeout, ctx graceful stop"), 42)
unfolding ends_at case_sigterm graceful_stop shutdown nat_eq
long_call_late = refl

-- Without metrics, and with a call that ends in time, it panics after the call.
short_call_panics : ends_at (record long_call { pending = some 3 }) false ≡ some (panics, 5)
unfolding ends_at case_sigterm graceful_stop shutdown nat_eq
short_call_panics = refl

ends_at_lem_example :
    ((long_call.pending ≡ none) × (ends_at long_call true ≡ none))
    ⊎ ((d t : ℕ) × (long_call.pending ≡ some d)
        × (ends_at long_call true
            ≡ some (
              (await true "0.0.0.0:10110"
                  (sigterm true (in_time 15 true (some 40)) (shutdown long_call).0)
                  []).0,
              t,
            ))
        × (d + 2 ≤ t)
        × (t ≤ d + 15 + 2))
ends_at_lem_example = ends_at_lem long_call true "0.0.0.0:10110" []
