-- ===== src/Metrics.antt =====
-- Metrics: pkg/common/ginprometheus/ginprometheus.go and pkg/common/prommetrics.
pub mod Size
pub mod Registry
pub mod Handler
pub mod Push
pub mod Listen
pub mod Grpc
