-- ===== src/Tests/Races.antt =====
-- Both servers of a process fail. In the RPC process the gRPC server fails before `Start` ends, and
-- the other one behind it.
use openim_project_template.Base.{◌≡◌, ◌⊎◌, ◌↔◌, refl, true, some, [], arith}
use openim_project_template.Errors.{Error, new}
use openim_project_template.Startup.{of_error}
use openim_project_template.Startup.Rpc.{await, metrics_failed, serve_failed}
use openim_project_template.Startup.Waiting.{answered}
use openim_project_template.Startup.Rpc.Race.{
  Process, sends, sent, fails, puts, metrics_message, rpc_message, metrics_moves, rpc_moves,
  receives, closes_channel, reads, Reached, start, later, Failed, Panics,
}
use openim_project_template.Startup.Rpc.Race.Ends.{Reached-answered, Reached-Panics_iff}
use openim_project_template.Startup.Api.Race
use openim_project_template.Startup.Api.Race.Ends.{Reached-metrics_message_iff}

abbrev in_use : Error
in_use = new "address in use"

abbrev broken : Error
broken = new "broken"

-- `Start` has answered the error of the gRPC server, and the other goroutine is about to panic.
abbrev behind : Process
behind = record {
  shared = record {
    net_err = some (metrics_message "0.0.0.0:20100" "10.0.0.1:80" in_use);
    in_channel = 0;
    closed = true;
  };
  metrics = sends in_use;
  rpc = sent broken;
  main = answered (some (rpc_message "0.0.0.0:20100" "10.0.0.1:80" broken));
}

behind-Reached : Reached "0.0.0.0:20100" "10.0.0.1:80" true behind
behind-Reached =
    later
      (later
        (later
          (later
            (later (later start (rpc_moves (fails {e = broken})))
              (rpc_moves (puts refl (omega arith))))
            (receives {n = 0} refl refl))
          (closes_channel refl))
        (reads refl))
      (metrics_moves (fails {e = in_use}))

Reached-answered_example :
    (e : Error) × ((Failed behind.metrics e
        × (of_error (some (rpc_message "0.0.0.0:20100" "10.0.0.1:80" broken))
            ≡ (await true "10.0.0.1:80" (metrics_failed e "0.0.0.0:20100") []).0))
      ⊎ (Failed behind.rpc e
          × (of_error (some (rpc_message "0.0.0.0:20100" "10.0.0.1:80" broken))
              ≡ (await true "10.0.0.1:80" (serve_failed e) []).0)))
Reached-answered_example =
    Reached-answered "0.0.0.0:20100" "10.0.0.1:80" true [] behind-Reached refl

Reached-Panics_iff_example :
    ((s : Process) × Reached "0.0.0.0:20100" "10.0.0.1:80" true s × Panics s) ↔ (true ≡ true)
Reached-Panics_iff_example = Reached-Panics_iff "0.0.0.0:20100" "10.0.0.1:80" true

Reached-metrics_message_iff_example :
    ((s : Race.State) × Race.Reached "20101" "0.0.0.0:10002" true s
      × (s.metrics ≡ Race.sent in_use)
      × (s.api ≡ Race.tests broken)
      × (s.main ≡ answered (some (Race.metrics_message "20101" "0.0.0.0:10002" broken))))
    ↔ (true ≡ true)
Reached-metrics_message_iff_example =
    Reached-metrics_message_iff "20101" "0.0.0.0:10002" true in_use broken
