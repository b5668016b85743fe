-- ===== src/Metrics/Grpc.antt =====
-- The collectors of an RPC process: NewGrpcPromObj of pkg/common/prommetrics/prommetrics.go and the
-- counter of pkg/common/prommetrics/grpc_user.go.
use openim_project_template.Base.{List, [], ◌∷◌, ◌++◌, Res}

pub data GrpcCollector : Type 0 where
  -- `UserRegisterCounter`
  user_register_counter : GrpcCollector
  -- `gp.NewServerMetrics()` with its histogram, and `collectors.NewGoCollector()`
  grpc_metrics go_collector : GrpcCollector

-- `NewGrpcPromObj`; `must_register` is `MustRegister` of a new registry, which panics on a collector
-- that it cannot take.
unfoldable pub new_grpc_prom_obj :
    (List GrpcCollector → Res (Unit {0})) → List GrpcCollector → Res (Unit {0})
new_grpc_prom_obj must_register cus_metrics =
    must_register (cus_metrics ++ grpc_metrics ∷ go_collector ∷ [])
