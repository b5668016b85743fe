-- ===== src/Config.antt =====
-- Configuration: pkg/common/config and pkg/common/cmd/constant.go.
pub mod Settings
pub mod Env
pub mod Load
